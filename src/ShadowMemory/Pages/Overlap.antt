-- ===== src/ShadowMemory/Pages/Overlap.antt =====
-- What the two walks do to each page, against the overlap of the object with the page.
use mem_perf_pro.Base.{
  ℕ, zero, suc, ◌+◌, ◌-◌, ◌*◌, ◌/◌, ◌%◌, ◌≤◌, ◌≡◌, Bool, ◌&&◌, leb, ltb, ◌==◌, if◌then◌else◌, arith,
  inl, inr, Bool-cases,
}
use mem_perf_pro.ShadowMemory.Extents.{overlap}
use mem_perf_pro.ShadowMemory.PageMapEntry.{PageMapEntry, page_size}
use mem_perf_pro.ShadowMemory.Pages.{PageMap, at_page, Stop, whole_pages, last_page, first_bytes}

-- The pages that the loop writes: those behind `current` that the rest of the object fills.
abbrev inside : ℕ → ℕ → ℕ → ℕ → ℕ → Bool
inside range current size r j = r == range && (ltb current j && leb j (current + size / page_size))

-- The loop writes the whole pages, in order, and stops with less than a page left.
record Walked (f : PageMapEntry → PageMapEntry) (pm : PageMap) (range current size : ℕ) (s : Stop)
    : Type 0 where
  stops : s.current ≡ current + size / page_size
  left : s.size ≡ size % page_size
  pages :
      (r j : ℕ) → s.page_map r j ≡ (if inside range current size r j then f (pm r j) else pm r j)

whole_pages-Walked :
    (f : PageMapEntry → PageMapEntry) (fuel : ℕ) (pm : PageMap) (range current size : ℕ)
    → size ≤ fuel * page_size
    → Walked f pm range current size (whole_pages f fuel pm range current size)
unfolding whole_pages at_page
whole_pages-Walked f zero pm range current size h = record {
  stops = omega arith;
  left = omega arith;
  pages = λ r j. ground arith;
}
whole_pages-Walked f (suc fuel) pm range current size h = elim (Bool-cases (leb page_size size)) [
  | inr small ↦
      rw (small, whole_pages)
        (record { stops = ground arith; left = ground arith; pages = λ r j. ground arith })
  | inl more ↦
      let ih =
        whole_pages-Walked f fuel (at_page f pm range (suc current)) range (suc current)
          (size - page_size) (ground arith) in
      rw (more, whole_pages)
        (record {
          stops = ground (arith, ih.stops);
          left = ground (arith, ih.left);
          pages = λ r j. ground (arith, ih.pages r j);
        })
]

-- the object's bytes on page `j`
abbrev pub page_overlap : ℕ → ℕ → ℕ → ℕ
page_overlap start size j = overlap start size (j * page_size) ((j + 1) * page_size)

abbrev pub walk :
    (PageMapEntry → PageMapEntry)
    → (PageMapEntry → ℕ → PageMapEntry)
    → PageMap
    → ℕ
    → ℕ
    → ℕ
    → ℕ
    → PageMap
walk f g pm a range i size = last_page g range (
    whole_pages f size (at_page (λ e. g e (first_bytes a size)) pm range i) range i
      (size - first_bytes a size))

-- On a page behind the first that the object covers whole, `f`; on any other page, `g` with the overlap.
abbrev pub effect :
    (PageMapEntry → PageMapEntry)
    → (PageMapEntry → ℕ → PageMapEntry)
    → ℕ
    → ℕ
    → ℕ
    → PageMapEntry
    → PageMapEntry
effect f g start size j e =
    if ltb start (j * page_size) && page_overlap start size j == page_size
    then f e
    else g e (page_overlap start size j)

pub walk-effect :
    (f : PageMapEntry → PageMapEntry) (g : PageMapEntry → ℕ → PageMapEntry) (pm : PageMap)
    (a range i size r j : ℕ)
    → g (pm r j) 0 ≡ pm r j
    → walk f g pm a range i size r j
      ≡ (if r == range then effect f g (i * page_size + a % page_size) size j (pm r j) else pm r j)
unfolding last_page at_page overlap
walk-effect f g pm a range i size r j z =
    let b = first_bytes a size in
    let w =
      whole_pages-Walked f size (at_page (λ e. g e b) pm range i) range i (size - b)
        (omega arith) in
    ground (arith, w.stops, w.left, w.pages r j)
