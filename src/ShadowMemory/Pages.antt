-- ===== src/ShadowMemory/Pages.antt =====
-- src_light/shadowmemory.cpp: mallocUpdatePages, freeUpdatePages, and the walk of cleanupPages
-- over the page map. A pointer into the page map is a range and an index; `current++` moves the index.
pub mod Overlap
pub mod Live
pub mod Capacity
use mem_perf_pro.Base.{
  ℕ, zero, suc, ◌+◌, ◌-◌, ◌%◌, ◌/◌, Bool, true, false, ◌&&◌, leb, ltb, ◌==◌, if◌then◌else◌, min,
}
use mem_perf_pro.ShadowMemory.PageMapEntry.{
  PageMapEntry, page_size, add_used_bytes, sub_used_bytes, set_empty, set_full,
}

abbrev pub PageMap : Type 0
PageMap = ℕ → ℕ → PageMapEntry

-- `*current = f(*current)`
unfoldable pub at_page : (PageMapEntry → PageMapEntry) → PageMap → ℕ → ℕ → PageMap
at_page f pm range current r j = if r == range && j == current then f (pm r j) else pm r j

-- Where the loop over the whole pages stops.
pub record Stop : Type 0 where
  pub page_map : PageMap
  pub current : ℕ
  pub size : ℕ

-- `while(size >= PAGESIZE)`, with the body's write as `f`; a round takes PAGESIZE off `size`.
unfoldable pub whole_pages : (PageMapEntry → PageMapEntry) → ℕ → PageMap → ℕ → ℕ → ℕ → Stop
whole_pages f zero pm range current size = record { page_map = pm; current = current; size = size }
whole_pages f (suc fuel) pm range current size = elim (leb page_size size) [
  | true ↦
      whole_pages f fuel (at_page f pm range (suc current)) range (suc current) (size - page_size)
  | false ↦ record { page_map = pm; current = current; size = size }
]

-- `if(size > 0)`, the bytes on the last page
unfoldable pub last_page : (PageMapEntry → ℕ → PageMapEntry) → ℕ → Stop → PageMap
last_page g range s =
    if ltb 0 s.size then at_page (λ e. g e s.size) s.page_map range (suc s.current) else s.page_map

-- the bytes on the first page
abbrev pub first_bytes : ℕ → ℕ → ℕ
first_bytes uintaddr size = min (page_size - uintaddr % page_size) size

unfoldable pub malloc_update_pages : PageMap → ℕ → ℕ → ℕ → ℕ → PageMap
malloc_update_pages pm uintaddr range page_index size =
    let cur_page_bytes = first_bytes uintaddr size in
    let pm' = at_page (λ e. add_used_bytes e cur_page_bytes) pm range page_index in
    last_page add_used_bytes range
      (whole_pages set_full size pm' range page_index (size - cur_page_bytes))

unfoldable pub free_update_pages : PageMap → ℕ → ℕ → ℕ → ℕ → PageMap
free_update_pages pm uintaddr range page_index size =
    let cur_page_bytes = first_bytes uintaddr size in
    let pm' = at_page (λ e. sub_used_bytes e cur_page_bytes) pm range page_index in
    last_page sub_used_bytes range
      (whole_pages set_empty size pm' range page_index (size - cur_page_bytes))
