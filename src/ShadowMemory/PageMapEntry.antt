-- ===== src/ShadowMemory/PageMapEntry.antt =====
-- src_light/shadowmemory.{hh,cpp}, class PageMapEntry: the bytes in use on one page.
-- The `short` is its bit pattern: a pattern from 0x8000 up is negative.
use mem_perf_pro.Base.{ℕ, ◌≤◌, ◌&&◌, Option, arith, add_16, sub_16, leb, ltb, if◌then◌else◌}

abbrev pub page_size : ℕ
page_size = 4096

-- `cache_map_entry` is an index into the cache map; `none` is NULL
pub record PageMapEntry : Type 0 where
  pub num_used_bytes : ℕ
  pub cache_map_entry : Option ℕ

unfoldable pub get_used_bytes : PageMapEntry → ℕ
get_used_bytes e =
    let n = e.num_used_bytes in
    if ltb page_size n && ltb n 0x8000 then page_size else if leb 0x8000 n then 0 else n

unfoldable pub add_used_bytes : PageMapEntry → ℕ → PageMapEntry
add_used_bytes e num_bytes = record e { num_used_bytes = add_16 e.num_used_bytes num_bytes }

unfoldable pub sub_used_bytes : PageMapEntry → ℕ → PageMapEntry
sub_used_bytes e num_bytes = record e { num_used_bytes = sub_16 e.num_used_bytes num_bytes }

unfoldable pub set_empty : PageMapEntry → PageMapEntry
set_empty e = record e { num_used_bytes = 0 }

unfoldable pub set_full : PageMapEntry → PageMapEntry
set_full e = record e { num_used_bytes = page_size }

-- What is reported of a page never exceeds the page.
pub get_used_bytes-le : (e : PageMapEntry) → get_used_bytes e ≤ page_size
unfolding get_used_bytes
get_used_bytes-le e = ground arith
