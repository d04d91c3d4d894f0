-- ===== src/Tests/EntryPoints.antt =====
-- The allocation functions of a process with a thread, and the calls inside them.
use mem_perf_pro.Base.{ℕ, ◌≡◌, refl, true, false, List, [], ◌∷◌, arith, ◌⊎◌, ◌==◌, if◌then◌else◌}
use mem_perf_pro.Base.Run.{done, Returns, Ensures}
use mem_perf_pro.HashMap.{HashMap, find, insert}
use mem_perf_pro.MyMalloc.{if_in_profiler_memory_then_free}
use mem_perf_pro.Structs.{add_one_system_call, DetailLockData, mutex}
use mem_perf_pro.AllocatingStatus as Status
use mem_perf_pro.AllocatingStatus.Memory.{Status}
use mem_perf_pro.AllocatingStatus.Locks.{LockNotes}
use mem_perf_pro.AllocatingStatus.Calls.{
  Info, Thread, update_allocating_info_to_thread_local_data, no_overview, no_system_calls,
}
use mem_perf_pro.AllocatingStatus.Calls.Added.{
  Added, update_allocating_info_to_thread_local_data-Added,
}
use mem_perf_pro.ObjTable.Update.{Contents}
use mem_perf_pro.AllocatingStatus.Locks.{
  record_a_new_lock, init_for_writing_one_lock_data, record_a_lock_contention,
  record_lock_call_and_cycles, add_one_syscall_to_syscall_data,
}
use mem_perf_pro.EntryPoints.LockCalls.{note_lock, pthread_mutex_lock, pthread_unlock}
use mem_perf_pro.EntryPoints.SystemCalls.{mprotect_call}
use mem_perf_pro.EntryPoints.Inner.{Inner, mutex_lock, unlock, mprotect_inside, run_inner_calls}
use mem_perf_pro.EntryPoints.Inner.Kept.{some_cleans_pages, all_take, Kept, run_inner_calls-Kept}
use mem_perf_pro.EntryPoints.Allocation.{
  with_real, Process, RealCall, malloc_request, run_request, yymalloc, yyfree,
}
use mem_perf_pro.EntryPoints.Allocation.Finished.{IsOutside, run_request-IsOutside}
use mem_perf_pro.EntryPoints.Allocation.Reentrant.{after_real, run_request-nested}
use mem_perf_pro.EntryPoints.Allocation.Tracked.{Knows, yymalloc-Knows}
use mem_perf_pro.EntryPoints.Allocation.Freed.{yyfree-Knows}
use mem_perf_pro.Tests.Maps.{call_key_9, table, table-IsTable, table-HasRoom}
use mem_perf_pro.Tests.Objects.{
  empty-Tracks, in_range_5, heap_address, one_object, one_object-Tracks, one_row,
}
use mem_perf_pro.Tests.Tracked.{
  status_of, no_contents, one_entry, one_pair, one_entry-Holds, one_entry-HasRoom, one_entry-total,
  stat,
}
use mem_perf_pro.Tests.Sampling.{idle}

abbrev pub no_locks : HashMap ℕ DetailLockData
no_locks = record {
  links = table.links;
  key = λ i. 0;
  value = λ i. record {
    lock_type = mutex;
    num_of_calls = λ j. 0;
    num_of_calls_with_contentions = λ j. 0;
    cycles = λ j. 0;
  };
  buckets = table.buckets;
  buckets_total = 8192;
  count = λ i. 0;
  total_entry = 0;
  memory = table.memory;
}

abbrev no_notes : LockNotes
no_notes = record {
  now_running_lock_type = 0;
  lock_queue = record {
    next = 0;
    queue = λ i. record {
      num_of_calls = 0;
      num_of_calls_with_contentions = 0;
      cycles = 0;
      address_of_hash_lock_data = 0;
    };
  };
  overview = λ l. no_overview;
  system_calls = λ k. no_system_calls;
}

abbrev pub thread_of : Status → Thread
thread_of s = record {
  status = s;
  first_allocation = true;
  object_size_type = Status.small;
  object_size_type_for_prediction = Status.small;
  allocation_type_for_output_data = 0;
  allocation_type_for_prediction = 0;
  lock_notes = no_notes;
  lock_usage = no_locks;
  thread_data = record {
    num_of_sampled_counting_functions = λ i. 0;
    cycles = λ i. 0;
    overview_lock_data = λ l. record {
      num_of_locks = 0;
      num_of_calls = λ j. 0;
      num_of_calls_with_contentions = λ j. 0;
      total_cycles = λ j. 0;
    };
    system_call_data = λ k j. no_system_calls;
    friendliness_status = record {
      num_of_sampling = 0;
      total_memory_usage_of_sampled_pages = 0;
      total_memory_usage_of_sampled_cache_lines = 0;
    };
  };
  stage = idle;
}

abbrev pub info : Info
info = record {
  middle_object_threshold = 1024;
  large_object_threshold = 131072;
  replaced_middle = 256;
  replaced_large = 4096;
  replaced_function_cycles = λ i. 90;
}

abbrev process_of : Status → Process
process_of s = record {
  thread = thread_of s;
  running_thread_index = 2;
  profiler_initialized = true;
  begin_conclusion = false;
  profiler_memory = record {
    initialized = true;
    object_num = 0;
    start_pointer = 0x1000;
    end_pointer = 0x8000_1000;
    overhead_pointer = 0x1000;
  };
  is_sampling_init = true;
  info = info;
}

-- a real function that takes a lock and calls mprotect
abbrev inner_calls : List Inner
inner_calls = mutex_lock 0x600000 1 10 25 0 ∷ mprotect_inside 30 90 0 ∷ unlock 0 ∷ []

abbrev real_call : RealCall
real_call = record {
  random = true;
  before = 100;
  after = 350;
  get_call_key = call_key_9;
  entry_size = 32;
  lock_entry_size = 320;
  parallel = true;
  inner = inner_calls;
  object = heap_address;
  retval = 0;
}

-- a thread outside any allocation
abbrev outside : Status → Status
outside s = record s { allocating_type = record s.allocating_type { doing_allocation = false } }

run_inner_calls-Kept_example :
    Kept false
      (all_take 320 inner_calls)
      (thread_of (status_of table))
      (run_inner_calls 320 true inner_calls (thread_of (status_of table)))
run_inner_calls-Kept_example =
    run_inner_calls-Kept 320 true inner_calls (thread_of (status_of table))

run_request-IsOutside_example :
    Ensures
      (λ r. IsOutside r.0)
      (run_request real_call (malloc_request 200) (process_of (outside (status_of table))))
run_request-IsOutside_example =
    run_request-IsOutside real_call (malloc_request 200) (process_of (outside (status_of table)))
      refl

run_request-nested_example :
    (run_request real_call (malloc_request 200) (process_of (status_of table))
      ≡ done
          (after_real real_call (malloc_request 200) (process_of (status_of table)), heap_address))
    × Kept
        (some_cleans_pages real_call.inner)
        (all_take 320 inner_calls)
        (process_of (status_of table)).thread
        (with_real real_call (process_of (status_of table))).thread
run_request-nested_example =
    run_request-nested real_call (malloc_request 200) (process_of (status_of table))
      (record { nested = refl; initialized = refl; memory = refl })

yymalloc-Knows_example :
    (after : Contents) × Returns
      (λ r. Knows ((heap_address, 200) ∷ []) after r.0 × (r.1 ≡ heap_address))
      (yymalloc real_call 200 (process_of (outside (status_of table))))
yymalloc-Knows_example =
    yymalloc-Knows real_call (process_of (outside (status_of table))) 200 [] no_contents
      (record { outside = refl; initialized = refl }) refl
      (record {
        holds = table-IsTable.holds;
        size = table-IsTable.size;
        tracks = empty-Tracks;
        sizes = tt;
      })
      (omega arith)
      (record { few = table-IsTable.few; entries = table-HasRoom; rows = omega arith })
      (record { covered = in_range_5; some_bytes = λ e. omega (arith, e); new = tt; apart = tt })

abbrev with_object : Status
with_object = record (outside (status_of one_entry)) { shadow = one_object }

not_in_memory :
    (if_in_profiler_memory_then_free (process_of with_object).profiler_memory heap_address).1
    ≡ false
unfolding if_in_profiler_memory_then_free
not_in_memory = refl

yyfree-Knows_example :
    Returns (Knows [] one_pair) (yyfree real_call heap_address (process_of with_object))
yyfree-Knows_example =
    yyfree-Knows real_call (process_of with_object) 32 heap_address 200 [] [] one_pair
      (record { outside = refl; initialized = refl }) (λ e. omega (arith, e)) not_in_memory refl
      (record {
        holds = one_entry-Holds;
        size = one_entry-total;
        tracks = one_object-Tracks;
        sizes = ((stat, refl, refl), tt);
      })
      (omega arith)
      (record {
        few = λ i. ground arith;
        entries = one_entry-HasRoom;
        rows = omega (arith, one_row);
      })
      (record { covered = in_range_5; some_bytes = λ e. omega (arith, e); apart = tt })

-- the calls above count their lock and their system call
abbrev after_inner : Thread
after_inner = run_inner_calls 320 true inner_calls (thread_of (status_of table))

one_mutex :
    ((after_inner.lock_notes.overview 0).cycles ≡ 15)
    × ((after_inner.lock_notes.overview 0).num_of_calls_with_contentions ≡ 1)
    × ((after_inner.lock_notes.system_calls 3).cycles ≡ 60)
unfolding run_inner_calls pthread_mutex_lock pthread_unlock mprotect_call note_lock find insert
    record_a_new_lock init_for_writing_one_lock_data record_a_lock_contention
    record_lock_call_and_cycles add_one_syscall_to_syscall_data add_one_system_call
one_mutex = (refl, refl, refl)

-- a thread that has noted three calls of a spin lock
abbrev noted_thread : Thread
noted_thread = record (thread_of (status_of table)) {
  lock_notes = record no_notes {
    overview = λ l.
        if l == 1
        then record {
          num_of_locks = 1;
          num_of_calls = 3;
          num_of_calls_with_contentions = 1;
          cycles = 800;
        }
        else no_overview;
    lock_queue = record {
      next = 1;
      queue = λ i. record {
        num_of_calls = 3;
        num_of_calls_with_contentions = 1;
        cycles = 800;
        address_of_hash_lock_data = 0x9000;
      };
    };
  };
}

update_allocating_info_to_thread_local_data-Added_example :
    ((noted_thread.status.sampled_for_counting_event ≡ true)
      × Added info true noted_thread
          (update_allocating_info_to_thread_local_data info true noted_thread))
    ⊎ ((noted_thread.status.sampled_for_counting_event ≡ false)
        × (update_allocating_info_to_thread_local_data info true noted_thread ≡ noted_thread))
update_allocating_info_to_thread_local_data-Added_example =
    update_allocating_info_to_thread_local_data-Added info true noted_thread
