-- ===== src/ShadowMemory/Access.antt =====
-- src_light/shadowmemory.cpp: doMemoryAccess, which counts a sampled access and its cache miss.
pub mod Monitored
use mem_perf_pro.Base.{ℕ, ◌+◌, ◌%◌, ◌/◌, Bool, Option, none, some, ◌==◌, if◌then◌else◌, update}
use mem_perf_pro.Structs.{FriendlinessStatus, record_a_new_sampling}
use mem_perf_pro.ShadowMemory.CacheMap.{Shadow}
use mem_perf_pro.ShadowMemory.CacheMapEntry as Line
use mem_perf_pro.ShadowMemory.ConflictData.{add_miss}
use mem_perf_pro.ShadowMemory.Coherency.{on_miss}
use mem_perf_pro.ShadowMemory.Objects.{cache_line_of}
use mem_perf_pro.ShadowMemory.PageIndex.{num_address_range, get_page_index}
use mem_perf_pro.ShadowMemory.PageMapEntry as Page

-- `cme->misses = misses`
abbrev pub with_misses : Shadow → ℕ → ℕ → Shadow
with_misses s i misses = record s {
  cache_map = update s.cache_map i (record (s.cache_map i) { misses = misses });
}

-- addMiss, then the coherency branch on the byte that addMiss leaves
unfoldable pub count_cache_miss : Shadow → ℕ → ℕ → ℕ → Shadow
count_cache_miss s uintaddr i tid =
    let (d, m) = add_miss s.conflict_data uintaddr i (s.cache_map i).misses in
    let (c, m') = on_miss s.coherency i m uintaddr tid in
    record (with_misses s i m') { conflict_data = d; coherency = c }

-- behind the test that the page has a row
unfoldable pub access_line :
    Shadow → FriendlinessStatus → ℕ → ℕ → ℕ → Bool → ℕ → Shadow × FriendlinessStatus
access_line s f uintaddr i page_bytes miss tid =
    let line_bytes = Line.get_used_bytes (s.cache_map i) in
    if line_bytes == 0 then (s, f) else (
      (if miss then count_cache_miss s uintaddr i tid else s),
      record_a_new_sampling f line_bytes page_bytes,
    )

-- `f` is the friendliness status of the running thread, `tid` its index.
unfoldable pub do_memory_access :
    Shadow → FriendlinessStatus → ℕ → Bool → ℕ → Shadow × FriendlinessStatus
do_memory_access s f uintaddr miss tid =
    let p = get_page_index uintaddr 0 in
    let pme = s.page_map p.range p.index in
    if p.range == num_address_range
    then (s, f)
    else if Page.get_used_bytes pme == 0
    then (s, f)
    else elim pme.cache_map_entry [
      | none ↦ (s, f)
      | some row ↦
          access_line s f uintaddr (row + cache_line_of uintaddr) (Page.get_used_bytes pme) miss tid
    ]
