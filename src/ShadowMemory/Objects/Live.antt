-- ===== src/ShadowMemory/Objects/Live.antt =====
-- The whole shadow memory against the objects in use.
use mem_perf_pro.Base.{
  ℕ, add_8, ◌+◌, ◌*◌, ◌%◌, ◌/◌, ◌<◌, ◌≡◌, ◌≢◌, refl, ◌∙◌, arith, ne→==, List, ◌∷◌, ◌++◌,
}
use mem_perf_pro.Base.Run.{Ensures, Ensures-weaken, Returns}
use mem_perf_pro.ShadowMemory.CacheMap.{Shadow, max_cache_map_entries, at_line}
use mem_perf_pro.ShadowMemory.CacheMap.Mapped.{row_of, page_map-IsMapped, page_map-used}
use mem_perf_pro.ShadowMemory.Extents.{Extent, AllApart}
use mem_perf_pro.ShadowMemory.Lines.{
  ObjStat, add_at, free_end, free_whole, malloc_update_cache_lines, free_update_cache_lines,
}
use mem_perf_pro.ShadowMemory.Lines.Live.{
  LineAccounts, Moved, malloc_update_cache_lines-LineAccounts, free_update_cache_lines-LineAccounts,
  at_line-Writes, free_end-Writes, free_whole-Writes,
}
use mem_perf_pro.ShadowMemory.Lines.Room.{walk-Takes, Takes-Returns}
use mem_perf_pro.ShadowMemory.CacheMapEntry.{set_full, add_used_bytes}
use mem_perf_pro.ShadowMemory.Objects.{malloc_update_object, free_update_object}
use mem_perf_pro.ShadowMemory.PageIndex.{num_address_range, get_page_index}
use mem_perf_pro.ShadowMemory.PageMapEntry.{page_size}
use mem_perf_pro.ShadowMemory.Pages.{PageMap, malloc_update_pages, free_update_pages}
use mem_perf_pro.ShadowMemory.Pages.Live.{
  Accounts, malloc_update_pages-Accounts, free_update_pages-Accounts, malloc_update_pages-rows,
  free_update_pages-rows,
}

-- Every page and every cache line counts the live bytes on it.
pub record Tracks (live : List Extent) (s : Shadow) : Type 0 where
  pub pages : Accounts live s.page_map
  pub lines : LineAccounts live s

-- where an object stands that getPageIndex places in a range
abbrev pub object_extent : ℕ → ℕ → Extent
object_extent uintaddr size =
    let p = get_page_index uintaddr 0 in
    record { range = p.range; start = p.index * page_size + uintaddr % page_size; size = size }

with_pages-LineAccounts :
    (live : List Extent) (s : Shadow) (pm : PageMap)
    → ((r p : ℕ) → (pm r p).cache_map_entry ≡ row_of s r p)
    → LineAccounts live s
    → LineAccounts live (record s { page_map = pm })
with_pages-LineAccounts live s pm e acc = record {
  mapped = page_map-IsMapped s pm e acc.mapped;
  counts = λ r l. page_map-used s pm e r l ∙ acc.counts r l;
}

Moved-Tracks :
    (live : List Extent) (s : Shadow)
    → Accounts live s.page_map
    → (s' : Shadow) → Moved s live s'
    → Tracks live s'
Moved-Tracks live s acc s' (lines, pages) = record {
  pages = record { counts = λ r j. pages r j ∙ acc.counts r j };
  lines = lines;
}

module _ (s : Shadow) (range page_index cache_index offset : ℕ) where
  malloc_update_cache_lines-Returns :
      (size : ℕ) (P : Shadow → Type 0)
      → s.cache_map_bump_ptr + (size / 64 + 2) * 64 < max_cache_map_entries
      → Ensures P (malloc_update_cache_lines s range page_index cache_index offset size)
      → Returns P (malloc_update_cache_lines s range page_index cache_index offset size)
  unfolding malloc_update_cache_lines set_full add_used_bytes
  malloc_update_cache_lines-Returns size P =
      Takes-Returns (size / 64 + 2) (λ t. t) s P _
        (walk-Takes (at_line set_full) add_at
          (λ s i. (at_line-Writes set_full (λ _. 64) (λ e. refl) s i).bump)
          (λ b s i.
            (at_line-Writes (λ e. add_used_bytes e b) (λ v. add_8 v b) (λ e. refl) s i).bump)
          range s page_index cache_index offset size)

  free_update_cache_lines-Returns :
      (o : ObjStat) (P : Shadow → Type 0)
      → s.cache_map_bump_ptr + (o.size / 64 + 2) * 64 < max_cache_map_entries
      → Ensures P (free_update_cache_lines s range page_index cache_index offset o)
      → Returns P (free_update_cache_lines s range page_index cache_index offset o)
  unfolding free_update_cache_lines
  free_update_cache_lines-Returns o P =
      Takes-Returns (o.size / 64 + 2) (λ t. t) s P _
        (walk-Takes (free_whole o) (free_end o) (λ s i. (free_whole-Writes o s i).bump)
          (λ b s i. (free_end-Writes o b s i).bump) range s page_index cache_index offset o.size)

-- the first byte by page and line
start_lem : (i a : ℕ) → (i * 64 + a % 4096 / 64) * 64 + a % 64 ≡ i * page_size + a % page_size
start_lem i a = omega arith

module _ {s : Shadow} (uintaddr : ℕ)
    (covered : (get_page_index uintaddr 0).range ≢ num_address_range) where
  -- mallocUpdateObject returns and keeps the account of pages and cache lines, when the cache map has
  -- room for size / 64 + 2 rows: a new object of at least one byte, at an address that a range
  -- covers, apart from the live ones, is counted byte for byte on every page and every line.
  pub malloc_update_object-Tracks :
      (size : ℕ) (live : List Extent)
      → size ≢ 0
      → Tracks live s
      → AllApart (object_extent uintaddr size) live
      → s.cache_map_bump_ptr + (size / 64 + 2) * 64 < max_cache_map_entries
      → Returns (Tracks (object_extent uintaddr size ∷ live)) (malloc_update_object s uintaddr size)
  unfolding malloc_update_object
  malloc_update_object-Tracks size live some_bytes t apart room =
      let p = get_page_index uintaddr 0 in
      let pm = malloc_update_pages s.page_map uintaddr p.range p.index size in
      let s' = record s { page_map = pm } in
      let o = object_extent uintaddr size in
      rw (ne→== size 0 some_bytes, ne→== p.range num_address_range covered)
        (malloc_update_cache_lines-Returns s' p.range p.index (uintaddr % 4096 / 64) (uintaddr % 64)
          size _ room
          (Ensures-weaken (Moved s' (o ∷ live)) (Tracks (o ∷ live)) _
            (Moved-Tracks (o ∷ live) s'
              (malloc_update_pages-Accounts uintaddr p.range p.index size live t.pages apart))
            (rw (start_lem p.index uintaddr) at (
              malloc_update_cache_lines-LineAccounts p.range p.index (uintaddr % 4096 / 64)
                (uintaddr % 64) (omega arith) (omega arith) size live
                (with_pages-LineAccounts live s pm
                  (malloc_update_pages-rows uintaddr p.range p.index size live t.pages) t.lines)
                (rw (← start_lem p.index uintaddr) at apart)))))

  -- freeUpdateObject returns and keeps the account, when the cache map has room for size / 64 + 2
  -- rows: when a live object of at least one byte at an address that a range covers is freed with the
  -- size that it has, and it is apart from the others, pages and lines count the others.
  pub free_update_object-Tracks :
      (o : ObjStat) (before after : List Extent)
      → o.size ≢ 0
      → Tracks (before ++ object_extent uintaddr o.size ∷ after) s
      → AllApart (object_extent uintaddr o.size) (before ++ after)
      → s.cache_map_bump_ptr + (o.size / 64 + 2) * 64 < max_cache_map_entries
      → Returns (Tracks (before ++ after)) (free_update_object s uintaddr o)
  unfolding free_update_object
  free_update_object-Tracks o before after some_bytes t apart room =
      let p = get_page_index uintaddr 0 in
      let pm = free_update_pages s.page_map uintaddr p.range p.index o.size in
      let s' = record s { page_map = pm } in
      let others = before ++ after in
      let all = before ++ object_extent uintaddr o.size ∷ after in
      rw (ne→== o.size 0 some_bytes, ne→== p.range num_address_range covered)
        (free_update_cache_lines-Returns s' p.range p.index (uintaddr % 4096 / 64) (uintaddr % 64) o
          _ room
          (Ensures-weaken (Moved s' others) (Tracks others) _
            (Moved-Tracks others s' (
              free_update_pages-Accounts uintaddr p.range p.index o.size before after t.pages
                apart))
            (free_update_cache_lines-LineAccounts p.range p.index (uintaddr % 4096 / 64)
              (uintaddr % 64) (omega arith) (omega arith) o before after
              (rw (← start_lem p.index uintaddr) at (
                with_pages-LineAccounts all s pm
                  (free_update_pages-rows uintaddr p.range p.index o.size all t.pages) t.lines))
              (rw (← start_lem p.index uintaddr) at apart))))
