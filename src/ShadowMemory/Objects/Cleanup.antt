-- ===== src/ShadowMemory/Objects/Cleanup.antt =====
-- src_light/shadowmemory.cpp: what cleanupPages does to the pages and the lines.
use mem_perf_pro.Base.{
  ◌≢◌, ℕ, zero, suc, ◌+◌, ◌-◌, ◌*◌, ◌/◌, ◌%◌, ◌≤◌, ◌<◌, ◌≡◌, refl, sym, ap, ◌∙◌, Bool, false, none,
  some, leb, ltb, ◌==◌, ◌&&◌, if◌then◌else◌, arith, Bool-cases, Option-cases, inl, inr,
}
use mem_perf_pro.ShadowMemory.CacheMap.{Shadow}
use mem_perf_pro.ShadowMemory.CacheMap.Mapped.{row_of, used, IsMapped}
use mem_perf_pro.ShadowMemory.PageMapEntry.{page_size, set_empty}
use mem_perf_pro.ShadowMemory.PageIndex.{get_page_index, num_address_range, max_page_map_entries}
use mem_perf_pro.ShadowMemory.Pages.{at_page}
use mem_perf_pro.ShadowMemory.Objects.{clear, clear_pages, alignup, cleanup_pages}

-- page `p` of range `r` is one of `pages` pages from `first` on
abbrev pub among : ℕ → ℕ → ℕ → ℕ → ℕ → Bool
among range first pages r p = r == range && (leb first p && ltb p (first + pages))

-- These pages and their lines have no used bytes; all others are as before.
pub record Cleaned (range first pages : ℕ) (s s' : Shadow) : Type 0 where
  pub mapped : IsMapped s'
  pub pages_of :
      (r p : ℕ)
      → (s'.page_map r p).num_used_bytes
        ≡ (if among range first pages r p then 0 else (s.page_map r p).num_used_bytes)
  pub lines :
      (r l : ℕ) → used s' r l ≡ (if among range first pages r (l / 64) then 0 else used s r l)

clear-rows : (s : Shadow) (range page r p : ℕ) → row_of (clear s range page) r p ≡ row_of s r p
unfolding clear at_page set_empty
clear-rows s range page r p = ground arith

clear-bump :
    (s : Shadow) (range page : ℕ) → (clear s range page).cache_map_bump_ptr ≡ s.cache_map_bump_ptr
unfolding clear
clear-bump s range page = refl

clear-bytes :
    (s : Shadow) (range page i : ℕ)
    → (s.cache_map i).num_used_bytes ≡ 0
    → ((clear s range page).cache_map i).num_used_bytes ≡ 0
unfolding clear
clear-bytes s range page i e = ground arith

clear-IsMapped : (s : Shadow) (range page : ℕ) → IsMapped s → IsMapped (clear s range page)
clear-IsMapped s range page m = record {
  aligned = λ r p row h.
      ground (arith, m.aligned r p row, clear-rows s range page r p, clear-bump s range page);
  bump_aligned = ap (λ b. b % 64) (clear-bump s range page) ∙ m.bump_aligned;
  distinct = λ r p r' p' row h k.
      ground (
        arith,
        m.distinct r p r' p' row,
        clear-rows s range page r p,
        clear-rows s range page r' p',
      );
  fresh = λ i h. clear-bytes s range page i (m.fresh i (omega (arith, h, clear-bump s range page)));
}

clear-none :
    (s : Shadow) (range page i : ℕ)
    → row_of s range page ≡ none
    → (clear s range page).cache_map i ≡ s.cache_map i
unfolding clear
clear-none s range page i e = rw (e, clear) refl

clear-some :
    (s : Shadow) (range page row i : ℕ)
    → row_of s range page ≡ some row
    → ((clear s range page).cache_map i).num_used_bytes
      ≡ (if leb row i && ltb i (row + 64) then 0 else (s.cache_map i).num_used_bytes)
unfolding clear
clear-some s range page row i e = rw (e, clear) (ground arith)

used-none : (s : Shadow) (r l : ℕ) → row_of s r (l / 64) ≡ none → used s r l ≡ 0
unfolding used
used-none s r l e = rw (e, used) refl

used-some :
    (s : Shadow) (r l row : ℕ)
    → row_of s r (l / 64) ≡ some row
    → used s r l ≡ (s.cache_map (row + l % 64)).num_used_bytes
unfolding used
used-some s r l row e = rw (e, used) refl

-- the row of one page is apart from that of the other
rows_apart :
    (s : Shadow) (r p r' p' row row' i : ℕ)
    → IsMapped s
    → row_of s r p ≡ some row
    → row_of s r' p' ≡ some row'
    → i < 64
    → (leb row (row' + i) && ltb (row' + i) (row + 64)) ≡ (r' == r && p' == p)
rows_apart s r p r' p' row row' i m e e' below = elim (Bool-cases (row == row')) [
  | inl same ↦ ground (arith, m.distinct r p r' p' row)
  | inr other ↦ ground (arith, m.aligned r p row, m.aligned r' p' row')
]

clear-used :
    (s : Shadow) (range page r l : ℕ)
    → IsMapped s
    → used (clear s range page) r l ≡ (if among range page 1 r (l / 64) then 0 else used s r l)
clear-used s range page r l m = elim (Option-cases (row_of s r (l / 64))) [
  | inl missing ↦ ground (
    arith,
    used-none s r l missing,
    used-none (clear s range page) r l (clear-rows s range page r (l / 64) ∙ missing),
  )
  | inr (row', e') ↦
      let before = used-some s r l row' e' in
      let after =
        used-some (clear s range page) r l row' (clear-rows s range page r (l / 64) ∙ e') in
      elim (Option-cases (row_of s range page)) [
        | inl missing ↦
            let other : among range page 1 r (l / 64) ≡ false = ground (arith, e', missing) in
            rw other (
              after
              ∙ ap (λ c. c.num_used_bytes) (clear-none s range page (row' + l % 64) missing)
              ∙ sym before)
        | inr (row, e) ↦
            after
            ∙ clear-some s range page row (row' + l % 64) e
            ∙ rw
                (
                  rows_apart s range page r (l / 64) row row' (l % 64) m e e' (omega arith),
                  ← before,
                  (let one : among range page 1 r (l / 64) ≡ (r == range && l / 64 == page) =
                        ground arith in
                      one),
                )
                refl
      ]
]

clear-count :
    (s : Shadow) (range page r p : ℕ)
    → ((clear s range page).page_map r p).num_used_bytes
      ≡ (if among range page 1 r p then 0 else (s.page_map r p).num_used_bytes)
unfolding clear at_page set_empty
clear-count s range page r p = ground arith

clear-Cleaned :
    (s : Shadow) (range page : ℕ) → IsMapped s → Cleaned range page 1 s (clear s range page)
clear-Cleaned s range page m = record {
  mapped = clear-IsMapped s range page m;
  pages_of = λ r p. clear-count s range page r p;
  lines = λ r l. clear-used s range page r l m;
}

alignup_pages :
    (length : ℕ)
    → length + page_size ≤ 0x1_0000_0000_0000_0000
    → alignup length page_size ≡ (length + 4095) / page_size * page_size
unfolding alignup
alignup_pages length small = ground arith

Cleaned-none : (range page : ℕ) (s : Shadow) → IsMapped s → Cleaned range page 0 s s
Cleaned-none range page s m = record {
  mapped = m;
  pages_of = λ r p. ground arith;
  lines = λ r l. ground arith;
}

Cleaned-next :
    (range page n : ℕ) (s t u : Shadow)
    → Cleaned range page 1 s t
    → Cleaned range (page + 1) n t u
    → Cleaned range page (suc n) s u
Cleaned-next range page n s t u c d = record {
  mapped = d.mapped;
  pages_of = λ r p. ground (arith, c.pages_of r p, d.pages_of r p);
  lines = λ r l. ground (arith, c.lines r l, d.lines r l);
}

clear_pages-Cleaned :
    (n fuel : ℕ) (s : Shadow) (range page : ℕ)
    → IsMapped s
    → n ≤ fuel
    → Cleaned range page n s (clear_pages fuel s range page (n * page_size))
unfolding clear_pages
clear_pages-Cleaned zero zero s range page m enough = Cleaned-none range page s m
clear_pages-Cleaned zero (suc fuel) s range page m enough = Cleaned-none range page s m
clear_pages-Cleaned (suc n) zero s range page m enough = absurd (omega arith)
clear_pages-Cleaned (suc n) (suc fuel) s range page m enough =
    let more : (suc n * page_size == 0) ≡ false = ground arith in
    let left : suc n * page_size - page_size ≡ n * page_size = omega arith in
    let cleared = clear-Cleaned s range page m in
    rw (more, left, clear_pages)
      (Cleaned-next range page n s (clear s range page) _ cleared (
        clear_pages-Cleaned n fuel (clear s range page) range (page + 1) cleared.mapped
          (omega arith)))

-- cleanupPages leaves no used bytes on the pages from the one of the address on, as many as the
-- length takes, rounded up, nor on their lines, and leaves all other pages and lines, when a range
-- covers the address and has entries for all the pages, no two pages share a row, and the length and
-- a page fit into 64 bits.
pub cleanup_pages-Cleaned :
    (s : Shadow) (uintaddr length : ℕ)
    → (get_page_index uintaddr 0).range ≢ num_address_range
    → (get_page_index uintaddr 0).index + (length + 4095) / page_size ≤ max_page_map_entries
    → IsMapped s
    → length + page_size ≤ 0x1_0000_0000_0000_0000
    → Cleaned
        (get_page_index uintaddr 0).range
        (get_page_index uintaddr 0).index
        ((length + 4095) / page_size)
        s
        (cleanup_pages s uintaddr length)
unfolding cleanup_pages
cleanup_pages-Cleaned s uintaddr length covered entries m small =
    let aligned : alignup length page_size ≡ (length + 4095) / page_size * page_size =
      alignup_pages length small in
    rw aligned (
      clear_pages-Cleaned ((length + 4095) / page_size) ((length + 4095) / page_size * page_size) s
        _ _ m (omega arith))
