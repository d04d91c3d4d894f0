-- ===== src/Tests/Objects.antt =====
-- An object that is allocated in an empty shadow memory, and freed.
use mem_perf_pro.Base.{ℕ, ◌+◌, ◌≡◌, ◌≢◌, ◌%◌, refl, [], ◌∷◌, none, some, arith, get_or}
use mem_perf_pro.Base.Run.{Run, abort, done, Returns}
use mem_perf_pro.ShadowMemory.CacheMap.{
  Shadow, at_line, get_cache_map_entry, do_cache_map_bump_pointer,
}
use mem_perf_pro.ShadowMemory.CacheMap.Mapped.{row_of, used}
use mem_perf_pro.ShadowMemory.CacheMapEntry as Line
use mem_perf_pro.ShadowMemory.PageMapEntry.{add_used_bytes}
use mem_perf_pro.ShadowMemory.Extents.{total, weight}
use mem_perf_pro.ShadowMemory.Lines.{malloc_update_cache_lines, whole_lines, last_line, next_line}
use mem_perf_pro.ShadowMemory.Lines.Live.{line_total, get_used_bytes-line_total}
use mem_perf_pro.ShadowMemory.Objects.{malloc_update_object, free_update_object}
use mem_perf_pro.ShadowMemory.Objects.Live.{
  Tracks, object_extent, malloc_update_object-Tracks, free_update_object-Tracks,
}
use mem_perf_pro.ShadowMemory.PageIndex.{get_page_index, page_index_from}
use mem_perf_pro.ShadowMemory.Pages.{malloc_update_pages, whole_pages, last_page, at_page}

abbrev pub heap_address : ℕ
heap_address = 0x5600_0001_2345

abbrev pub empty : Shadow
empty = record {
  page_map = λ r p. record { num_used_bytes = 0; cache_map_entry = none };
  cache_map = λ i. record { misses = 0; num_used_bytes = 0 };
  cache_map_bump_ptr = 0;
  conflict_data = record {
    num_of_cme = 0;
    set_of_cme = λ i. 0;
    num_of_cme_per_set = λ s. 0;
    obj_num_per_set = λ s. 0;
    call_key_per_set = λ s. (0, 0);
    total_misses = 0;
    misses_per_set = λ s. 0;
    cme = λ i. 0;
  };
  coherency = record {
    num_of_coherency_caches = 0;
    coherency_caches = λ i. record {
      call_key = (0, 0);
      misses = 0;
      allocate_tid = (0, 0);
      tids_per_word = λ w j. 0;
      cme = 0;
    };
  };
}

pub empty-Tracks : Tracks [] empty
unfolding total used
empty-Tracks = record {
  pages = record { counts = λ r j. refl };
  lines = record {
    mapped = record {
      aligned = λ r p row h. absurd cc;
      bump_aligned = refl;
      distinct = λ r p r' p' row h k. absurd cc;
      fresh = λ i h. refl;
    };
    counts = λ r l. refl;
  };
}

pub in_range_5 : (get_page_index heap_address 0).range ≢ 8
unfolding get_page_index page_index_from get_or
in_range_5 e = omega (arith, e)

-- an object of 10000 bytes on four pages
malloc_update_object-Tracks_example :
    Returns
      (Tracks (object_extent heap_address 10000 ∷ []))
      (malloc_update_object empty heap_address 10000)
malloc_update_object-Tracks_example =
    malloc_update_object-Tracks heap_address in_range_5 10000 [] (λ e. omega (arith, e))
      empty-Tracks tt (omega arith)

-- the state after a call that returns
abbrev after : Run Shadow → Shadow
after abort = empty
after (done s) = s

after-Returns : (P : Shadow → Type 0) (r : Run Shadow) → Returns P r → P (after r)
after-Returns P r (s, e, p) = rw e p

-- an object of 200 bytes on five lines
abbrev pub one_object : Shadow
one_object = after (malloc_update_object empty heap_address 200)

pub one_object-Tracks : Tracks (object_extent heap_address 200 ∷ []) one_object
one_object-Tracks = after-Returns _ (malloc_update_object empty heap_address 200) (
    malloc_update_object-Tracks heap_address in_range_5 200 [] (λ e. omega (arith, e)) empty-Tracks
      tt (omega arith))

pub one_row : one_object.cache_map_bump_ptr ≡ 64
unfolding malloc_update_object malloc_update_pages malloc_update_cache_lines whole_lines last_line
    get_cache_map_entry next_line at_line do_cache_map_bump_pointer get_page_index page_index_from
    get_or whole_pages last_page at_page add_used_bytes
one_row = refl

free_update_object-Tracks_example :
    Returns
      (Tracks [])
      (free_update_object one_object heap_address (record { call_key = 3; tid = 0; size = 200 }))
free_update_object-Tracks_example =
    free_update_object-Tracks heap_address in_range_5 (record { call_key = 3; tid = 0; size = 200 })
      [] [] (λ e. omega (arith, e)) one_object-Tracks tt (omega (arith, one_row))

row_0 : row_of one_object 5 18 ≡ some 0
unfolding malloc_update_object malloc_update_pages malloc_update_cache_lines whole_lines last_line
    get_cache_map_entry next_line at_line do_cache_map_bump_pointer get_page_index page_index_from
    get_or whole_pages last_page at_page add_used_bytes
row_0 = refl

get_used_bytes-line_total_example :
    Line.get_used_bytes (one_object.cache_map (0 + 1166 % 64))
    ≡ line_total (object_extent heap_address 200 ∷ []) 5 1166
get_used_bytes-line_total_example =
    get_used_bytes-line_total (object_extent heap_address 200 ∷ []) one_object 5 1166 0
      one_object-Tracks.lines (tt, tt) row_0

line_1166_is_full : line_total (object_extent heap_address 200 ∷ []) 5 1166 ≡ 64
unfolding total weight get_page_index page_index_from get_or
line_1166_is_full = refl
