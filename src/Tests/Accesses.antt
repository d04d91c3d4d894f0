-- ===== src/Tests/Accesses.antt =====
-- A sampled miss on a page and a line in use.
use mem_perf_pro.Base.Counts.{count_true}
use mem_perf_pro.Base.{ℕ, ◌≡◌, refl, true, none, some, arith, if◌then◌else◌, ltb, ◌==◌, ◌&&◌}
use mem_perf_pro.ShadowMemory.CacheMap.{Shadow}
use mem_perf_pro.ShadowMemory.CacheMap.Mapped.{IsMapped}
use mem_perf_pro.ShadowMemory.CacheMapEntry as Line
use mem_perf_pro.ShadowMemory.PageMapEntry as Page
use mem_perf_pro.ShadowMemory.Access.{do_memory_access, access_line}
use mem_perf_pro.ShadowMemory.Access.Monitored.{IsMonitored, do_memory_access-IsMonitored}
use mem_perf_pro.ShadowMemory.PageIndex.{get_page_index, page_index_from}
use mem_perf_pro.Structs.{FriendlinessStatus, record_a_new_sampling}

abbrev pub heap_address : ℕ
heap_address = 0x5600_0001_2345

-- page 18 of range 5 has the row 0, all of whose lines are full
abbrev pub busy : Shadow
busy = record {
  page_map = λ r p.
      if r == 5 && p == 18
      then record { num_used_bytes = 4096; cache_map_entry = some 0 }
      else record { num_used_bytes = 0; cache_map_entry = none };
  cache_map = λ i.
      if ltb i 64
      then record { misses = 4; num_used_bytes = 64 }
      else record { misses = 0; num_used_bytes = 0 };
  cache_map_bump_ptr = 64;
  conflict_data = record {
    num_of_cme = 0;
    set_of_cme = λ i. 0;
    num_of_cme_per_set = λ s. 0;
    obj_num_per_set = λ s. 0;
    call_key_per_set = λ s. (0, 0);
    total_misses = 60;
    misses_per_set = λ s. 10;
    cme = λ i. 0;
  };
  coherency = record {
    num_of_coherency_caches = 0;
    coherency_caches = λ i. record {
      call_key = (0, 0);
      misses = 0;
      allocate_tid = (0, 0);
      tids_per_word = λ w j. 0;
      cme = 0;
    };
  };
}

abbrev pub no_samples : FriendlinessStatus
no_samples = record {
  num_of_sampling = 0;
  total_memory_usage_of_sampled_pages = 0;
  total_memory_usage_of_sampled_cache_lines = 0;
}

pub busy-IsMapped : IsMapped busy
busy-IsMapped = record {
  aligned = λ r p row h. ground arith;
  bump_aligned = refl;
  distinct = λ r p r' p' row h k. ground arith;
  fresh = λ i h. ground arith;
}

busy-IsMonitored : IsMonitored busy
unfolding Line.has_conflict Line.has_coherency count_true
busy-IsMonitored = record {
  bytes = λ i. ground arith;
  conflicts = record {
    few = omega arith;
    few_per_set = λ s. omega arith;
    counted = λ s. refl;
    sets = λ i h. absurd (omega arith);
    registered = λ l h. absurd (ground arith);
  };
  sharing = record { few = omega arith; registered = λ l h. absurd (ground arith) };
}

do_memory_access-IsMonitored_example :
    IsMonitored (do_memory_access busy no_samples heap_address true 3).0
do_memory_access-IsMonitored_example =
    do_memory_access-IsMonitored busy no_samples heap_address true 3 busy-IsMapped busy-IsMonitored

one_sample : (do_memory_access busy no_samples heap_address true 3).1 ≡ record {
  num_of_sampling = 1;
  total_memory_usage_of_sampled_pages = 4096;
  total_memory_usage_of_sampled_cache_lines = 64;
}
unfolding do_memory_access access_line get_page_index page_index_from Page.get_used_bytes
    Line.get_used_bytes record_a_new_sampling
one_sample = refl
