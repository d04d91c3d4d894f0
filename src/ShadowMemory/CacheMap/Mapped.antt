-- ===== src/ShadowMemory/CacheMap/Mapped.antt =====
-- The rows of different pages do not share a cache line, so the used bytes of a line are a function
-- of its place in the address range.
use mem_perf_pro.Base.{
  ℕ, ◌+◌, ◌*◌, ◌/◌, ◌%◌, ◌≤◌, ◌<◌, ◌≡◌, refl, sym, ◌∙◌, Option, none, some, leb, ◌==◌, ◌&&◌,
  if◌then◌else◌, arith, Option-cases, Bool-cases, inl, inr,
}
use mem_perf_pro.Base.Run.{◌>>=◌, Ensures}
use mem_perf_pro.ShadowMemory.CacheMap.{
  Shadow, num_cachelines_per_page, max_cache_map_entries, do_cache_map_bump_pointer,
  get_cache_map_entry, with_row,
}
use mem_perf_pro.ShadowMemory.Pages.{PageMap, at_page}

abbrev pub row_of : Shadow → ℕ → ℕ → Option ℕ
row_of s r p = (s.page_map r p).cache_map_entry

-- The used bytes of the cache line `l` of a range: line l % 64 of page l / 64.
unfoldable pub used : Shadow → ℕ → ℕ → ℕ
used s r l = elim (row_of s r (l / 64)) [
  | none ↦ 0
  | some row ↦ (s.cache_map (row + l % 64)).num_used_bytes
]

pub record IsMapped (s : Shadow) : Type 0 where
  pub aligned :
      (r p row : ℕ) → row_of s r p ≡ some row → (row % 64 ≡ 0) × (row + 64 ≤ s.cache_map_bump_ptr)
  pub bump_aligned : s.cache_map_bump_ptr % 64 ≡ 0
  pub distinct :
      (r p r' p' row : ℕ)
      → row_of s r p ≡ some row
      → row_of s r' p' ≡ some row
      → (r ≡ r') × (p ≡ p')
  pub fresh : (i : ℕ) → s.cache_map_bump_ptr ≤ i → (s.cache_map i).num_used_bytes ≡ 0

-- What getCacheMapEntry(true) gives: the row that the page then has, with no used byte changed.
pub record Got (s : Shadow) (r p : ℕ) (got : Shadow × ℕ) : Type 0 where
  pub mapped : IsMapped got.0
  pub row : row_of got.0 r p ≡ some got.1
  pub same : (r' l : ℕ) → used got.0 r' l ≡ used s r' l
  pub pages :
      (r' p' : ℕ) → (got.0.page_map r' p').num_used_bytes ≡ (s.page_map r' p').num_used_bytes
  pub kept : (r' p' row : ℕ) → row_of s r' p' ≡ some row → row_of got.0 r' p' ≡ some row

abbrev with_fresh_row : Shadow → ℕ → ℕ → Shadow
with_fresh_row s r p = record s {
  cache_map_bump_ptr = s.cache_map_bump_ptr + num_cachelines_per_page;
  page_map = at_page (with_row s.cache_map_bump_ptr) s.page_map r p;
}

with_fresh_row-IsMapped :
    (s : Shadow) (r p : ℕ) → IsMapped s → row_of s r p ≡ none → IsMapped (with_fresh_row s r p)
unfolding at_page
with_fresh_row-IsMapped s r p m e = record {
  aligned = λ r' p' row h. ground (arith, m.aligned r' p' row, m.bump_aligned);
  bump_aligned = ground (arith, m.bump_aligned);
  distinct = λ r' p' r'' p'' row h k.
      ground (arith, m.distinct r' p' r'' p'' row, m.aligned r' p' row, m.aligned r'' p'' row);
  fresh = λ i h. m.fresh i (omega arith);
}

with_fresh_row-Got :
    (s : Shadow) (r p : ℕ)
    → IsMapped s
    → row_of s r p ≡ none
    → Got s r p (with_fresh_row s r p, s.cache_map_bump_ptr)
unfolding used at_page
with_fresh_row-Got s r p m e = record {
  mapped = with_fresh_row-IsMapped s r p m e;
  row = ground arith;
  same = λ r' l. ground (arith, m.fresh (s.cache_map_bump_ptr + l % 64));
  pages = λ r' p'. ground arith;
  kept = λ r' p' row h. ground arith;
}

-- getCacheMapEntry, when it does not abort, gives the row that the page then has: rows are aligned,
-- of different pages distinct, and no used byte of a line and no page count changes.
pub get_cache_map_entry-Got :
    (s : Shadow) (r p : ℕ) → IsMapped s → Ensures (Got s r p) (get_cache_map_entry s r p)
unfolding get_cache_map_entry do_cache_map_bump_pointer
get_cache_map_entry-Got s r p m = elim (Option-cases (row_of s r p)) [
  | inr (row, e) ↦
      rw (e, Ensures)
        (record {
          mapped = m;
          row = e;
          same = λ r' l. refl;
          pages = λ r' p'. refl;
          kept = λ r' p' row h. h;
        })
  | inl e ↦ elim (Bool-cases (leb max_cache_map_entries (s.cache_map_bump_ptr + 64))) [
    | inl full ↦ rw (e, full, Ensures, ◌>>=◌) tt
    | inr room ↦ rw (e, room, Ensures, ◌>>=◌) (with_fresh_row-Got s r p m e)
  ]
]

-- How a function on the used bytes acts through a pointer into the cache map.
pub record Writes (g : ℕ → ℕ) (s : Shadow) (i : ℕ) (s' : Shadow) : Type 0 where
  pub pages : (r p : ℕ) → s'.page_map r p ≡ s.page_map r p
  pub bump : s'.cache_map_bump_ptr ≡ s.cache_map_bump_ptr
  pub bytes :
      (j : ℕ)
      → (s'.cache_map j).num_used_bytes
        ≡ (if j == i then g (s.cache_map j).num_used_bytes else (s.cache_map j).num_used_bytes)

-- A write to line `c` of page `p` changes the used bytes of that line only.
pub Writes-used :
    (g : ℕ → ℕ) (s s' : Shadow) (r p row c : ℕ)
    → IsMapped s
    → row_of s r p ≡ some row
    → c < 64
    → Writes g s (row + c) s'
    → IsMapped s'
      × ((r' l : ℕ)
          → used s' r' l ≡ (if r' == r && l == p * 64 + c then g (used s r' l) else used s r' l))
unfolding used
Writes-used g s s' r p row c m e lt w = (
  record {
    aligned = λ r' p' row' h. ground (arith, m.aligned r' p' row', w.pages r' p', w.bump);
    bump_aligned = ground (arith, m.bump_aligned, w.bump);
    distinct = λ r' p' r'' p'' row' h k.
        ground (arith, m.distinct r' p' r'' p'' row', w.pages r' p', w.pages r'' p'');
    fresh = λ i h. ground (arith, w.bytes i, m.fresh i, m.aligned r p row e, w.bump);
  },
  λ r' l. elim (Option-cases (row_of s r' (l / 64))) [
    | inl no_row ↦ ground (arith, w.pages r' (l / 64))
    | inr (row', at) ↦ ground (
      arith,
      w.pages r' (l / 64),
      w.bytes (row' + l % 64),
      m.aligned r p row e,
      m.aligned r' (l / 64) row' at,
      m.distinct r p r' (l / 64) row e,
    )
  ],
)

-- A change of the page map that keeps the rows changes no line.
pub page_map-IsMapped :
    (s : Shadow) (pm : PageMap)
    → ((r p : ℕ) → (pm r p).cache_map_entry ≡ row_of s r p)
    → IsMapped s
    → IsMapped (record s { page_map = pm })
page_map-IsMapped s pm e m = record {
  aligned = λ r p row h. m.aligned r p row (sym (e r p) ∙ h);
  bump_aligned = m.bump_aligned;
  distinct = λ r p r' p' row h k. m.distinct r p r' p' row (sym (e r p) ∙ h) (sym (e r' p') ∙ k);
  fresh = m.fresh;
}

pub page_map-used :
    (s : Shadow) (pm : PageMap)
    → ((r p : ℕ) → (pm r p).cache_map_entry ≡ row_of s r p)
    → (r l : ℕ) → used (record s { page_map = pm }) r l ≡ used s r l
unfolding used
page_map-used s pm e r l = rw (e r (l / 64), used)
