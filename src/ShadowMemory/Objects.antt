-- ===== src/ShadowMemory/Objects.antt =====
-- src_light/shadowmemory.cpp: mallocUpdateObject, freeUpdateObject, cleanupPages.
pub mod Live
pub mod Cleanup
use mem_perf_pro.Base.{
  ℕ, zero, suc, ◌+◌, ◌-◌, ◌*◌, ◌%◌, ◌/◌, Bool, true, false, Option, none, some, ltb, leb, ◌==◌,
  ◌&&◌, if◌then◌else◌,
}
use mem_perf_pro.Base.Run.{Run, done}
use mem_perf_pro.ShadowMemory.CacheMap.{Shadow}
use mem_perf_pro.ShadowMemory.CacheMapEntry.{CacheMapEntry}
use mem_perf_pro.ShadowMemory.Lines.{ObjStat, malloc_update_cache_lines, free_update_cache_lines}
use mem_perf_pro.ShadowMemory.PageIndex.{PageIndex, num_address_range, get_page_index}
use mem_perf_pro.ShadowMemory.PageMapEntry.{PageMapEntry, page_size, set_empty}
use mem_perf_pro.ShadowMemory.Pages.{at_page, malloc_update_pages, free_update_pages}

-- the line of an address in its page, and the byte in its line
abbrev pub cache_line_of : ℕ → ℕ
cache_line_of uintaddr = uintaddr % 4096 / 64

abbrev pub offset_in_line : ℕ → ℕ
offset_in_line uintaddr = uintaddr % 64

unfoldable pub malloc_update_object : Shadow → ℕ → ℕ → Run Shadow
malloc_update_object s uintaddr size =
    let p = get_page_index uintaddr 0 in
    if size == 0
    then done s
    else if p.range == num_address_range
    then done s
    else malloc_update_cache_lines
        (record s { page_map = malloc_update_pages s.page_map uintaddr p.range p.index size })
        p.range p.index (cache_line_of uintaddr) (offset_in_line uintaddr) size

unfoldable pub free_update_object : Shadow → ℕ → ObjStat → Run Shadow
free_update_object s uintaddr o =
    let p = get_page_index uintaddr 0 in
    if o.size == 0
    then done s
    else if p.range == num_address_range
    then done s
    else free_update_cache_lines
        (record s { page_map = free_update_pages s.page_map uintaddr p.range p.index o.size })
        p.range p.index (cache_line_of uintaddr) (offset_in_line uintaddr) o

-- PageMapEntry::clear: zeroes the row of the page, if it has one, and the count
unfoldable pub clear : Shadow → ℕ → ℕ → Shadow
clear s range page = record s {
  page_map = at_page set_empty s.page_map range page;
  cache_map = elim (s.page_map range page).cache_map_entry [
    | none ↦ s.cache_map
    | some row ↦ λ i.
        if leb row i && ltb i (row + 64)
        then record { misses = 0; num_used_bytes = 0 }
        else s.cache_map i
  ];
}

-- `while(length)`, a page a round
unfoldable pub clear_pages : ℕ → Shadow → ℕ → ℕ → ℕ → Shadow
clear_pages zero s range current length = s
clear_pages (suc fuel) s range current length = elim (length == 0) [
  | true ↦ s
  | false ↦ clear_pages fuel (clear s range current) range (current + 1) (length - page_size)
]

-- alignup(length, PAGESIZE) on 64 bits
unfoldable pub alignup : ℕ → ℕ → ℕ
alignup size alignto =
    if size % alignto == 0
    then size
    else (let t = (size + (alignto - 1)) % 0x1_0000_0000_0000_0000 in t - t % alignto)

-- For an address in no range the source reads behind the array page_map_begin: cleanup_pages says
-- nothing of that, and the theorems ask for an address that a range covers.
unfoldable pub cleanup_pages : Shadow → ℕ → ℕ → Shadow
unfolding clear_pages alignup
cleanup_pages s uintaddr length =
    let p = get_page_index uintaddr 0 in
    let aligned = alignup length page_size in clear_pages aligned s p.range p.index aligned
