-- ===== src/ShadowMemory/Lines.antt =====
-- src_light/shadowmemory.cpp: PageMapEntry::mallocUpdateCacheLines and freeUpdateCacheLines.
-- `current` and `targetPage` of the source are the fields of a cursor.
pub mod Walk
pub mod Effect
pub mod Room
pub mod Live
use mem_perf_pro.Base.{
  ℕ, zero, suc, ◌+◌, ◌-◌, ◌%◌, ◌/◌, Bool, true, false, leb, ltb, ◌==◌, if◌then◌else◌, min, update,
}
use mem_perf_pro.Base.Run.{Run, done, abort, ◌>>=◌}
use mem_perf_pro.ShadowMemory.CacheMap.{
  Shadow, num_cachelines_per_page, get_cache_map_entry, at_line,
}
use mem_perf_pro.ShadowMemory.CacheMapEntry.{
  CacheMapEntry, cacheline_size, add_used_bytes, sub_used_bytes, set_full, set_empty, has_conflict,
  has_coherency, clear_conflict,
}
use mem_perf_pro.ShadowMemory.Coherency.{check_coherency}
use mem_perf_pro.ShadowMemory.ConflictData.{check_obj}

-- src_light/objTable.h, struct ObjStat
pub record ObjStat : Type 0 where
  pub call_key : ℕ
  pub tid : ℕ
  pub size : ℕ

pub record Cursor : Type 0 where
  pub target_page : ℕ
  pub current : ℕ
  pub cache_index : ℕ

-- the step to the next line, into the row of the next page behind the last line of a page
unfoldable pub next_line : Shadow → ℕ → Cursor → Run (Shadow × Cursor)
next_line s range c =
    if c.cache_index == num_cachelines_per_page
    then (do
      (s', row) ← get_cache_map_entry s range (c.target_page + 1)
      done (s', record { target_page = c.target_page + 1; current = row; cache_index = 0 }))
    else done (s, record c { current = c.current + 1 })

-- Where the loop over the whole lines stops.
pub record LineStop : Type 0 where
  pub shadow : Shadow
  pub cursor : Cursor
  pub size : ℕ

-- `while(size_remain >= CACHELINE_SIZE)`, with what the round does at the line as `body`
unfoldable pub whole_lines : (Shadow → ℕ → Shadow) → ℕ → Shadow → ℕ → Cursor → ℕ → Run LineStop
whole_lines body zero s range c size = done (record { shadow = s; cursor = c; size = size })
whole_lines body (suc fuel) s range c size = elim (leb cacheline_size size) [
  | true ↦ do
    (s', c') ← next_line s range c
    whole_lines body fuel (body s' c'.current) range
        (record c' { cache_index = c'.cache_index + 1 }) (size - cacheline_size)
  | false ↦ done (record { shadow = s; cursor = c; size = size })
]

-- `if(size_remain > 0)`, with what is done at the last line
unfoldable pub last_line : (ℕ → Shadow → ℕ → Shadow) → ℕ → LineStop → Run Shadow
last_line finish range t =
    if ltb 0 t.size
    then (do (s', c') ← next_line t.shadow range t.cursor; done (finish t.size s' c'.current))
    else done t.shadow

abbrev pub first_line_bytes : ℕ → ℕ → ℕ
first_line_bytes first_cache_line_offset size = min (cacheline_size - first_cache_line_offset) size

abbrev pub add_at : ℕ → Shadow → ℕ → Shadow
add_at num_bytes = at_line (λ e. add_used_bytes e num_bytes)

unfoldable pub malloc_update_cache_lines : Shadow → ℕ → ℕ → ℕ → ℕ → ℕ → Run Shadow
malloc_update_cache_lines s range page_index cache_index offset size = do
  (s', row) ← get_cache_map_entry s range page_index
  let current = row + cache_index
  let bytes = first_line_bytes offset size
  let c : Cursor = record {
    target_page = page_index;
    current = current;
    cache_index = cache_index + 1;
  }
  t ← whole_lines (at_line set_full) size (add_at bytes s' current) range c (size - bytes)
  last_line add_at range t

-- the conflict check of a freed line
unfoldable pub check_conflict : ObjStat → Shadow → ℕ → Shadow
check_conflict o s i =
    if has_conflict (s.cache_map i).misses
    then record s { conflict_data = check_obj s.conflict_data i o.call_key }
    else s

-- the coherency check of a freed line
unfoldable pub check_sharing : ObjStat → Shadow → ℕ → Shadow
check_sharing o s i =
    if has_coherency (s.cache_map i).misses
    then record s { coherency = check_coherency s.coherency i o.tid o.call_key }
    else s

-- the first and the last line
unfoldable pub free_end : ObjStat → ℕ → Shadow → ℕ → Shadow
free_end o num_bytes s i =
    check_sharing o (check_conflict o (at_line (λ e. sub_used_bytes e num_bytes) s i) i) i

abbrev pub without_conflict : CacheMapEntry → CacheMapEntry
without_conflict e = record e { misses = clear_conflict e.misses }

-- a whole line
unfoldable pub free_whole : ObjStat → Shadow → ℕ → Shadow
free_whole o s i =
    let s' =
      if has_conflict (s.cache_map i).misses
      then at_line without_conflict (check_conflict o s i) i
      else s in
    at_line set_empty s' i

unfoldable pub free_update_cache_lines : Shadow → ℕ → ℕ → ℕ → ℕ → ObjStat → Run Shadow
free_update_cache_lines s range page_index cache_index offset o = do
  (s', row) ← get_cache_map_entry s range page_index
  let current = row + cache_index
  let bytes = first_line_bytes offset o.size
  let c : Cursor = record {
    target_page = page_index;
    current = current;
    cache_index = cache_index + 1;
  }
  t ← whole_lines (free_whole o) o.size (free_end o bytes s' current) range c (o.size - bytes)
  last_line (free_end o) range t
