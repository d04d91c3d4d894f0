-- ===== src/ShadowMemory/CacheMap.antt =====
-- src_light/shadowmemory.cpp: the state of the shadow memory, and the rows of 64 cache lines that
-- doCacheMapBumpPointer hands to pages (getCacheMapEntry). A pointer into the cache map is an index.
pub mod Mapped
use mem_perf_pro.Base.{ℕ, ◌+◌, ◌*◌, ◌/◌, ◌%◌, Option, none, some, leb, if◌then◌else◌, update}
use mem_perf_pro.Base.Run.{Run, done, abort, ◌>>=◌}
use mem_perf_pro.ShadowMemory.CacheMapEntry.{CacheMapEntry}
use mem_perf_pro.ShadowMemory.Coherency.{Coherency}
use mem_perf_pro.ShadowMemory.ConflictData.{ConflictData}
use mem_perf_pro.ShadowMemory.PageMapEntry.{PageMapEntry}
use mem_perf_pro.ShadowMemory.Pages.{PageMap, at_page}

abbrev pub num_cachelines_per_page : ℕ
num_cachelines_per_page = 64

-- CACHE_MAP_SIZE / sizeof(CacheMapEntry): 64 GB of 2-byte entries
abbrev pub max_cache_map_entries : ℕ
max_cache_map_entries = 0x8_0000_0000

pub record Shadow : Type 0 where
  pub page_map : PageMap
  pub cache_map : ℕ → CacheMapEntry
  pub cache_map_bump_ptr : ℕ
  pub conflict_data : ConflictData
  pub coherency : Coherency

-- `abort()` when the row would end at or behind the end of the map
unfoldable pub do_cache_map_bump_pointer : Shadow → Run (Shadow × ℕ)
do_cache_map_bump_pointer s =
    let next = s.cache_map_bump_ptr + num_cachelines_per_page in
    if leb max_cache_map_entries next
    then abort
    else done (record s { cache_map_bump_ptr = next }, s.cache_map_bump_ptr)

abbrev pub with_row : ℕ → PageMapEntry → PageMapEntry
with_row row e = record e { cache_map_entry = some row }

-- getCacheMapEntry(true): the row of the page, which is handed out at the first call
unfoldable pub get_cache_map_entry : Shadow → ℕ → ℕ → Run (Shadow × ℕ)
get_cache_map_entry s range page = elim (s.page_map range page).cache_map_entry [
  | some row ↦ done (s, row)
  | none ↦ do
    (s', row) ← do_cache_map_bump_pointer s
    done (record s' { page_map = at_page (with_row row) s'.page_map range page }, row)
]

-- a write through a pointer into the cache map
unfoldable pub at_line : (CacheMapEntry → CacheMapEntry) → Shadow → ℕ → Shadow
at_line f s i = record s { cache_map = update s.cache_map i (f (s.cache_map i)) }
