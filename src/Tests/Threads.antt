-- ===== src/Tests/Threads.antt =====
-- The spin lock, the call keys, the life of threads and the sums over them at concrete inputs.
use mem_perf_pro.Base.{
  ◌⊎◌, leb, ltb, ◌&&◌, ℕ, ◌*◌, ◌≡◌, ◌≢◌, refl, true, false, Option, some, [], ◌∷◌, arith, ◌==◌,
  if◌then◌else◌,
}
use mem_perf_pro.Base.Counts.{count_true}
use mem_perf_pro.Base.Run.{Returns}
use mem_perf_pro.Spinlock.{unlock, lock_round, init}
use mem_perf_pro.Spinlock.Threads.{
  away, moved, Step, spinning, inside, Threads, start, Reach, here, next, calls, enters, spins,
}
use mem_perf_pro.Spinlock.Exclusion.{EntersNext, Reach-exclusive, Reach-enters}
use mem_perf_pro.AllocatingStatus as Function
use mem_perf_pro.Callsite.{Callsite, get_call_key}
use mem_perf_pro.Callsite.Book.{Keyed, get_call_key-Keyed}
use mem_perf_pro.ThreadLocalStatus.{
  ThreadData, add_a_running_thread, get_a_running_thread_index, from_serial_to_parallel,
}
use mem_perf_pro.GlobalStatus.Totals.{Totals, globalize_all-Totals}
use mem_perf_pro.Predictor.{
  Predictor, stop_serial, clean_stage_data, outside_cycles_stop, outside_cycle_start,
}
use mem_perf_pro.Xthreadx.Life as Life
use mem_perf_pro.Xthreadx.Life.{World, creates}
use mem_perf_pro.Xthreadx.{System, thread_create}
use mem_perf_pro.Xthreadx.Counts.{IsCounted}
use mem_perf_pro.Main.{Program, Mapped, libmallocprof_main, main_stop}
use mem_perf_pro.Main.Stopped.{is_killed, main_stop-is_killed}
use mem_perf_pro.Main.Started.{FitsThreads, world_of, main-IsCounted}
use mem_perf_pro.ShadowMemory.Initialize as Maps
use mem_perf_pro.ShadowMemory.Initialize.{Maps, IsInitialized, initialize-IsInitialized}
use mem_perf_pro.ShadowMemory.Objects.{cleanup_pages}
use mem_perf_pro.ShadowMemory.Objects.Cleanup.{Cleaned, cleanup_pages-Cleaned}
use mem_perf_pro.ShadowMemory.PageIndex.{get_page_index, page_index_from}
use mem_perf_pro.Tests.Accesses.{busy, busy-IsMapped}
use mem_perf_pro.Tests.Accesses as Accesses
use mem_perf_pro.Tests.Maps.{memory, no_map, no_table}
use mem_perf_pro.Tests.EntryPoints.{no_locks, thread_of}
use mem_perf_pro.Tests.Sampling.{idle}

-- thread 1 is inside, thread 2 spins
abbrev one_asks : Threads
one_asks = record { lock_value = false; place = λ i. if i == 1 then spinning else start.place i }

abbrev contended : Threads
contended = record {
  lock_value = true;
  place = λ j.
      if j == 2
      then spinning
      else if j == 2
      then spinning
      else if j == 1
      then inside
      else if j == 1
      then spinning
      else start.place j;
}

contended-Reach : Reach start contended
unfolding lock_round init
contended-Reach =
    next (next (next (next here (calls 1 refl)) (enters 1 refl refl)) (calls 2 refl))
      (spins 2 refl refl)

Reach-exclusive_example : contended.place 2 ≢ inside
Reach-exclusive_example = Reach-exclusive contended 1 2 contended-Reach (λ e. omega (arith, e)) refl

Reach-enters_example :
    EntersNext contended 2
    ⊎ ((k : ℕ) × (contended.place k ≡ inside)
        × Step contended (moved contended k away (unlock contended.lock_value))
        × EntersNext (moved contended k away (unlock contended.lock_value)) 2)
Reach-enters_example = Reach-enters contended 2 contended-Reach refl

abbrev no_keys : Callsite
no_keys = record { num_call_key = 0; call_key_book = λ k. false; call_table = no_map }

no_keys_counted : 0 ≡ count_true (λ k. false) 256
unfolding count_true
no_keys_counted = refl

get_call_key-Keyed_example : Keyed 0 no_keys (get_call_key 32 0x100 0x400820 0 no_keys)
get_call_key-Keyed_example =
    get_call_key-Keyed 32 0x100 0x400820 0 no_keys (record { count = no_keys_counted })

key_of_call_site : (get_call_key 32 0x100 0x400820 0 no_keys).1 ≡ 0x92
unfolding get_call_key
key_of_call_site = refl

abbrev no_data : ThreadData
no_data =
    (thread_of (record {
      allocating_type = record {
        doing_allocation = false;
        allocating_function = Function.malloc;
        object_size = 0;
        object_address = 0;
        is_reuse = false;
      };
      sampled_for_counting_event = false;
      cycles_before_real_function = 0;
      cycles_after_real_function = 0;
      cycles_in_real_function = 0;
      table = no_table;
      shadow = busy;
    })).thread_data

abbrev some_data : ThreadData
some_data = record no_data { cycles = λ i. i }

globalize_all-Totals_example : Totals no_data (some_data ∷ no_data ∷ [])
globalize_all-Totals_example = globalize_all-Totals no_data (some_data ∷ no_data ∷ [])

abbrev no_cycles : Predictor
no_cycles = record {
  critical_cycle = 0;
  replaced_critical_cycle = 0;
  critical_cycle_depend = 0;
  replaced_critical_cycle_depend = 0;
  thread_cycle = λ i. 0;
  thread_replaced_cycle = λ i. 0;
  replaced_function_cycles = λ i. 90;
  last_thread_depend = false;
  last_thread_index = 0;
}

abbrev statics : Program
statics = record {
  status = record { profiler_initialized = false; begin_conclusion = false };
  system = record {
    counts = record { total_num_of_thread = 0; total_num_of_running_thread = 0 };
    predictor = no_cycles;
    threads = λ i. false;
    idx = 0;
    memories = λ i. memory;
    global = no_data;
  };
  running_thread_index = 0;
  stage = idle;
  lock_usage = no_locks;
  global_lock_usage = no_locks;
  callsite = no_keys;
  objects = no_table;
  thread_data = no_data;
}

abbrev mapped : Mapped
mapped = record {
  lock_usage = 0x20_0000;
  global_lock_usage = 0x30_0000;
  call_table = 0x40_0000;
  objects = 0x50_0000;
  memory = 0x1_0000_0000;
}

abbrev main_world : World
main_world = world_of (λ i. idle) (libmallocprof_main mapped 10 statics)

-- the main thread has created one thread
abbrev one_created : World
one_created =
    let (s, g) = thread_create 100 120 main_world.system (main_world.stage 0) in
    record (Life.with_stage main_world s 0 g) { created = 1 }

main-IsCounted_example : IsCounted one_created × FitsThreads one_created
main-IsCounted_example =
    main-IsCounted (λ i. idle) mapped 10 statics one_created
      (record { total = refl; running = refl; threads = λ i. refl; cycles = λ i. refl })
      (omega arith) (Life.next Life.here (creates 0 100 120 refl))

-- the serial phase of 90 cycles has ended
one_parallel : one_created.system.predictor.critical_cycle ≡ 90
unfolding thread_create libmallocprof_main add_a_running_thread get_a_running_thread_index
    from_serial_to_parallel stop_serial clean_stage_data outside_cycles_stop outside_cycle_start
one_parallel = refl

cleanup_pages-Cleaned_example : Cleaned 5 18 2 busy (cleanup_pages busy Accesses.heap_address 5000)
unfolding get_page_index page_index_from
cleanup_pages-Cleaned_example =
    cleanup_pages-Cleaned busy Accesses.heap_address 5000 (λ e. omega (arith, e)) (omega arith)
      busy-IsMapped (omega arith)

abbrev no_maps : Maps
no_maps = record {
  is_initialized = false;
  page_map_begin = λ i. 0;
  page_map_end = λ i. 0;
  cache_map_begin = 0;
  cache_map_end = 0;
  cache_map_bump_ptr = 0;
}

abbrev page_maps : ℕ → Option ℕ
page_maps i = some (i * 0x100_0000_0000)

initialize-IsInitialized_here :
    Returns
      (IsInitialized page_maps 0x1000_0000_0000)
      (Maps.initialize page_maps (some 0x1000_0000_0000) no_maps)
initialize-IsInitialized_here =
    initialize-IsInitialized page_maps 0x1000_0000_0000 no_maps refl
      (λ j below. (j * 0x100_0000_0000, refl))

-- thread 1 has been joined, thread 2 runs
abbrev second_runs : System
second_runs = record statics.system {
  counts = record { total_num_of_thread = 3; total_num_of_running_thread = 2 };
  threads = λ i. i == 2;
}

main_stop-is_killed_example :
    is_killed 2 (main_stop second_runs 0) ≡ (leb 1 2 && ltb 2 2 && second_runs.threads 2)
main_stop-is_killed_example = main_stop-is_killed second_runs 2
