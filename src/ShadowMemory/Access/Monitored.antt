-- ===== src/ShadowMemory/Access/Monitored.antt =====
-- The two tables of monitored lines and the marks on the lines agree after every sampled access.
use mem_perf_pro.Base.{
  ℕ, ◌≢◌, ◌⊎◌, ==→eq, ◌+◌, ◌%◌, ◌<◌, ◌≡◌, refl, Bool, Option, some, ◌==◌, if◌then◌else◌, update,
  arith, Bool-cases, Option-cases, inl, inr,
}
use mem_perf_pro.Structs.{FriendlinessStatus, record_a_new_sampling}
use mem_perf_pro.ShadowMemory.CacheMap.{Shadow}
use mem_perf_pro.ShadowMemory.CacheMap.Mapped.{IsMapped, row_of}
use mem_perf_pro.ShadowMemory.CacheMapEntry.{
  has_conflict, has_coherency, mark_conflict, mark_coherency, miss_count,
}
use mem_perf_pro.ShadowMemory.ConflictData.{ConflictData, set_id, add_miss}
use mem_perf_pro.ShadowMemory.ConflictData.Invariant as Conflict
use mem_perf_pro.ShadowMemory.Coherency.{Coherency, on_miss}
use mem_perf_pro.ShadowMemory.Coherency.Invariant as Table
use mem_perf_pro.ShadowMemory.Access.{count_cache_miss, access_line, do_memory_access}
use mem_perf_pro.ShadowMemory.PageIndex.{num_address_range, get_page_index}
use mem_perf_pro.ShadowMemory.PageMapEntry as Page
use mem_perf_pro.ShadowMemory.CacheMapEntry as Line
use mem_perf_pro.ShadowMemory.Objects.{cache_line_of}

-- the byte `misses` of every line
abbrev pub misses_of : Shadow → ℕ → ℕ
misses_of s i = (s.cache_map i).misses

pub record IsMonitored (s : Shadow) : Type 0 where
  pub bytes : (i : ℕ) → misses_of s i < 256
  pub conflicts : Conflict.IsValid s.conflict_data (misses_of s)
  pub sharing : Table.IsValid s.coherency (misses_of s)

add_miss-byte :
    (d : ConflictData) (addr line m : ℕ)
    → m < 256
    → ((add_miss d addr line m).1 < 256)
      × (has_coherency (add_miss d addr line m).1 ≡ has_coherency m)
unfolding add_miss mark_conflict has_conflict has_coherency
add_miss-byte d addr line m h = (ground arith, ground arith)

on_miss-byte :
    (c : Coherency) (line m addr tid : ℕ)
    → m < 256
    → ((on_miss c line m addr tid).1 < 256)
      × (has_conflict (on_miss c line m addr tid).1 ≡ has_conflict m)
unfolding on_miss mark_coherency has_conflict has_coherency miss_count
on_miss-byte c line m addr tid h = (ground arith, ground arith)

conflicts_kept :
    (d : ConflictData) (m m' : ℕ → ℕ)
    → ((l : ℕ) → has_conflict (m' l) ≡ has_conflict (m l))
    → Conflict.IsValid d m
    → Conflict.IsValid d m'
conflicts_kept d m m' e v = record {
  few = v.few;
  few_per_set = v.few_per_set;
  counted = v.counted;
  sets = v.sets;
  registered = λ l h. v.registered l (rw (e l) at h);
}

sharing_kept :
    (c : Coherency) (m m' : ℕ → ℕ)
    → ((l : ℕ) → has_coherency (m' l) ≡ has_coherency (m l))
    → Table.IsValid c m
    → Table.IsValid c m'
sharing_kept c m m' e v = record { few = v.few; registered = λ l h. v.registered l (rw (e l) at h) }

-- A sampled cache miss on line `i` of the cache map keeps the two tables and the marks in agreement,
-- when the address lies in a line of that place in its page.
count_cache_miss-IsMonitored :
    (s : Shadow) (addr i tid : ℕ)
    → IsMonitored s
    → i % 64 ≡ set_id addr
    → IsMonitored (count_cache_miss s addr i tid)
unfolding count_cache_miss
count_cache_miss-IsMonitored s addr i tid v place =
    let m = misses_of s i in
    let first = add_miss s.conflict_data addr i m in
    let second = on_miss s.coherency i first.1 addr tid in
    let (b1, e1) = add_miss-byte s.conflict_data addr i m (v.bytes i) in
    let (b2, e2) = on_miss-byte s.coherency i first.1 addr tid b1 in
    let ms = update (misses_of s) i first.1 in
    let at_i : ms i ≡ first.1 = ground arith in
    record {
      bytes = λ l. ground (arith, v.bytes l);
      conflicts =
          conflicts_kept first.0 ms _ (λ l. ground (arith, e2))
            (Conflict.add_miss-IsValid s.conflict_data (misses_of s) addr i v.conflicts place);
      sharing =
          sharing_kept second.0 (update ms i second.1) _ (λ l. ground arith)
            (rw at_i at (
              Table.on_miss-IsValid s.coherency ms
                (sharing_kept s.coherency (misses_of s) ms (λ l. ground (arith, e1)) v.sharing) i
                addr tid (omega (arith, at_i))));
    }

row_unique : {o : Option ℕ} {a b : ℕ} → o ≡ some a → o ≡ some b → a ≡ b
row_unique e h = cc

-- The access is sampled: it lies in a range, its page and its line are in use, and the page has a row.
pub record IsSampled (s : Shadow) (uintaddr row : ℕ) : Type 0 where
  pub range : (get_page_index uintaddr 0).range ≢ num_address_range
  pub page :
      Page.get_used_bytes
        (s.page_map (get_page_index uintaddr 0).range (get_page_index uintaddr 0).index)
      ≢ 0
  pub has_row :
      row_of s (get_page_index uintaddr 0).range (get_page_index uintaddr 0).index ≡ some row
  pub line : Line.get_used_bytes (s.cache_map (row + cache_line_of uintaddr)) ≢ 0

module _ (s : Shadow) (f : FriendlinessStatus) (uintaddr : ℕ) (miss : Bool) (tid : ℕ) where
  -- The two outcomes of an access.
  abbrev pub Sampling : Type 0
  Sampling =
      (do_memory_access s f uintaddr miss tid ≡ (s, f) × ((row : ℕ) → ¬ IsSampled s uintaddr row))
      ⊎ ((row : ℕ) × IsSampled s uintaddr row
          × (do_memory_access s f uintaddr miss tid ≡ (
            (if miss then count_cache_miss s uintaddr (row + cache_line_of uintaddr) tid else s),
            record_a_new_sampling f
                (Line.get_used_bytes (s.cache_map (row + cache_line_of uintaddr)))
                (Page.get_used_bytes
                  (s.page_map (get_page_index uintaddr 0).range (get_page_index uintaddr 0).index)),
          )))

  -- doMemoryAccess either changes nothing, and the access is not sampled, or the access is to a page
  -- and a line in use: then the used bytes of both are added to the friendliness status, and a miss
  -- is counted on that line.
  pub do_memory_access_lem : Sampling
  unfolding do_memory_access access_line Page.get_used_bytes
  do_memory_access_lem =
      let p = get_page_index uintaddr 0 in
      let page_bytes = Page.get_used_bytes (s.page_map p.range p.index) in
      elim (Bool-cases (p.range == num_address_range)) [
        | inl outside ↦ rw outside (inl (refl, λ row h. h.range (==→eq _ _ outside)))
        | inr inside ↦ elim (Bool-cases (page_bytes == 0)) [
          | inl unused ↦ rw (inside, unused) (inl (refl, λ row h. h.page (==→eq _ _ unused)))
          | inr in_use ↦ elim (Option-cases (row_of s p.range p.index)) [
            | inl no_row ↦ rw (inside, in_use, no_row) (inl (refl, λ row h. absurd cc))
            | inr (row, e) ↦
                elim (Bool-cases
                  (Line.get_used_bytes (s.cache_map (row + cache_line_of uintaddr)) == 0)) [
                    | inl empty ↦
                        rw (inside, in_use, e, empty)
                          (inl (
                            refl,
                            λ row' h.
                                let same : row' ≡ row = row_unique h.has_row e in
                                h.line (rw same (==→eq _ _ empty)),
                          ))
                    | inr held ↦
                        rw (inside, in_use, e, held)
                          (inr (
                            row,
                            record {
                              range = λ h. ground arith;
                              page = λ h. ground arith;
                              has_row = e;
                              line = λ h. ground arith;
                            },
                            refl,
                          ))
                  ]
          ]
        ]
      ]

  -- doMemoryAccess keeps the tables of monitored lines in agreement with the marks on the lines, when
  -- the rows of the pages are aligned.
  pub do_memory_access-IsMonitored :
      IsMapped s → IsMonitored s → IsMonitored (do_memory_access s f uintaddr miss tid).0
  do_memory_access-IsMonitored mapped v = elim do_memory_access_lem [
    | inl (e, _) ↦ rw e v
    | inr (row, h, e) ↦ rw e (elim (Bool-cases miss) [
      | inl missed ↦ rw missed (
          count_cache_miss-IsMonitored s uintaddr (row + cache_line_of uintaddr) tid v
            (omega (arith, (mapped.aligned _ _ row h.has_row).0)))
      | inr hit ↦ rw hit v
    ])
  ]
