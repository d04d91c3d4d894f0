-- ===== src/ShadowMemory/Coherency/Invariant.antt =====
-- Every line that bears the coherency mark is in the table, so the searches always hit.
use mem_perf_pro.Base.{
  ℕ, ◌≤◌, ◌<◌, ◌≡◌, refl, true, false, arith, add_8, leb, ltb, ◌==◌, if◌then◌else◌, update,
  find_from-hit, Bool-cases, inl, inr, ltb→lt,
}
use mem_perf_pro.ShadowMemory.CacheMapEntry.{has_coherency, mark_coherency, miss_count}
use mem_perf_pro.ShadowMemory.Coherency.{
  Coherency, CoherencyData, max_coherency_caches, find_cache, note_thread, put_cache, miss_again,
  enter, on_miss, note_object, check_coherency,
}

pub record IsValid (c : Coherency) (misses : ℕ → ℕ) : Type 0 where
  pub few : c.num_of_coherency_caches ≤ max_coherency_caches
  pub registered :
      (line : ℕ)
      → has_coherency (misses line) ≡ true
      → (i : ℕ) × (i < c.num_of_coherency_caches) × ((c.coherency_caches i).cme ≡ line)

module _ (c : Coherency) (misses : ℕ → ℕ) (v : IsValid c misses) where
  pub find_cache-hit :
      (line : ℕ)
      → has_coherency (misses line) ≡ true
      → ((c.coherency_caches (find_cache c line)).cme ≡ line)
        × (find_cache c line < c.num_of_coherency_caches)
  unfolding find_cache
  find_cache-hit line h =
      let (i, lt, at) = v.registered line h in
      let hit =
        find_from-hit (λ i. (c.coherency_caches i).cme) line c.num_of_coherency_caches 0 i
          (omega arith) (omega arith) at in
      (hit.0, omega (arith, hit.1))

  -- A write to one cell that keeps its line keeps the invariant.
  put_cache-IsValid :
      (i : ℕ) (s : CoherencyData) (m : ℕ → ℕ)
      → s.cme ≡ (c.coherency_caches i).cme
      → ((line : ℕ) → has_coherency (m line) ≡ true → has_coherency (misses line) ≡ true)
      → IsValid (put_cache c i s) m
  put_cache-IsValid i s m e sub = record {
    few = v.few;
    registered =
        λ line h. let (k, lt, at) = v.registered line (sub line h) in (k, lt, ground arith);
  }

has_coherency-mark : (m : ℕ) → has_coherency (mark_coherency m) ≡ true
unfolding mark_coherency has_coherency
has_coherency-mark m = ground arith

has_coherency-add :
    (m : ℕ) → m < 256 → leb 5 (miss_count m) ≡ false → has_coherency (add_8 m 1) ≡ has_coherency m
unfolding miss_count has_coherency
has_coherency-add m h e = ground arith

cme-note_object : (s : CoherencyData) (tid call_key : ℕ) → (note_object s tid call_key).cme ≡ s.cme
unfolding note_object
cme-note_object s tid call_key = ground arith

module _ (c : Coherency) (misses : ℕ → ℕ) (v : IsValid c misses) (line addr tid : ℕ) where
  miss_again-IsValid : IsValid (miss_again c line addr tid) (update misses line (misses line))
  unfolding miss_again note_thread
  miss_again-IsValid =
      put_cache-IsValid c misses v (find_cache c line) _ _ refl (λ l h. ground arith)

  enter-IsValid :
      c.num_of_coherency_caches < max_coherency_caches
      → IsValid (enter c line addr tid) (update misses line (mark_coherency (misses line)))
  unfolding enter note_thread
  enter-IsValid room = record {
    few = omega arith;
    registered = λ l h. elim (Bool-cases (l == line)) [
      | inl same ↦ (c.num_of_coherency_caches, ground arith, ground arith)
      | inr other ↦
          let (i, lt, at) = v.registered l (rw other at h) in (i, ground arith, ground arith)
    ];
  }

  count-IsValid :
      misses line < 256
      → leb 5 (miss_count (misses line)) ≡ false
      → IsValid c (update misses line (add_8 (misses line) 1))
  count-IsValid byte e = record {
    few = v.few;
    registered = λ l h. v.registered l (ground (arith, has_coherency-add (misses line) byte e));
  }

  same-IsValid : IsValid c (update misses line (misses line))
  same-IsValid = record { few = v.few; registered = λ l h. v.registered l (ground arith) }

  -- A sampled miss keeps the invariant of the coherency table: at most 32 lines are in it, and
  -- every line that bears the coherency mark is.
  pub on_miss-IsValid :
      misses line < 256
      → IsValid
          (on_miss c line (misses line) addr tid).0
          (update misses line (on_miss c line (misses line) addr tid).1)
  unfolding on_miss
  on_miss-IsValid byte = elim (Bool-cases (leb 5 (miss_count (misses line)))) [
    | inr low ↦ rw low (count-IsValid byte low)
    | inl high ↦ elim (Bool-cases (has_coherency (misses line))) [
      | inl marked ↦ rw (high, marked) miss_again-IsValid
      | inr fresh ↦ elim (Bool-cases (ltb c.num_of_coherency_caches max_coherency_caches)) [
        | inl room ↦ rw (high, fresh, room) (enter-IsValid (ltb→lt _ _ room))
        | inr full ↦ rw (high, fresh, full) same-IsValid
      ]
    ]
  ]

  -- Freeing an object on a line that bears the coherency mark notes its thread and its call site in
  -- the entry of that line, in no other, and keeps the invariant.
  pub check_coherency-entry :
      (call_key : ℕ)
      → has_coherency (misses line) ≡ true
      → (i : ℕ) × (i < c.num_of_coherency_caches)
        × ((c.coherency_caches i).cme ≡ line)
        × ((j : ℕ)
            → (check_coherency c line tid call_key).coherency_caches j ≡ (
                if j == i
                then note_object (c.coherency_caches i) tid call_key
                else c.coherency_caches j))
        × IsValid (check_coherency c line tid call_key) misses
  unfolding check_coherency
  check_coherency-entry call_key h =
      let (at, lt) = find_cache-hit c misses v line h in
      (
        find_cache c line,
        lt,
        at,
        λ j. refl,
        put_cache-IsValid c misses v (find_cache c line) _ misses
            (cme-note_object (c.coherency_caches (find_cache c line)) tid call_key) (λ l e. e),
      )
