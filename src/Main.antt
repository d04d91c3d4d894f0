-- ===== src/Main.antt =====
-- src_light/libmallocprof.cpp, programstatus.cpp: what libmallocprof_main sets up before the program
-- runs, what mainStop does on a signal, and exitHandler at the end. The part of globalize for the table
-- of locks is in GlobalStatus/LockTable.antt.
pub mod Started
pub mod Stopped
use mem_perf_pro.Base.{
  ℕ, zero, suc, ◌+◌, ◌-◌, Bool, true, false, not, ◌==◌, if◌then◌else◌, List, [], ◌∷◌,
}
use mem_perf_pro.HashMap.{HashMap, initialize}
use mem_perf_pro.MyMalloc.{ThreadMemories, initialize_for_thread}
use mem_perf_pro.Structs.{DetailLockData}
use mem_perf_pro.ObjTable.{Table, initialize_table}
use mem_perf_pro.Callsite.{Callsite, initialize_call_table}
use mem_perf_pro.ThreadLocalStatus.{
  ThreadCounts, ThreadData, add_a_running_thread, get_a_running_thread_index,
}
use mem_perf_pro.GlobalStatus.{globalize_sums}
use mem_perf_pro.Predictor.{
  Predictor, Stage, global_init, outside_cycle_start, outside_cycles_stop, stop_serial,
}
use mem_perf_pro.Xthreadx.{System, max_lock_num}

-- the flags of ProgramStatus
pub record ProgramStatus : Type 0 where
  pub profiler_initialized : Bool
  pub begin_conclusion : Bool

unfoldable pub set_profiler_initialized_true : ProgramStatus → ProgramStatus
set_profiler_initialized_true s = record s { profiler_initialized = true }

unfoldable pub set_begin_conclusion_true : ProgramStatus → ProgramStatus
set_begin_conclusion_true s = record s { begin_conclusion = true }

unfoldable pub profiler_not_initialized : ProgramStatus → Bool
profiler_not_initialized s = not s.profiler_initialized

unfoldable pub conclusion_has_started : ProgramStatus → Bool
conclusion_has_started s = s.begin_conclusion

-- The state of the main thread. The tables of locks are its own and that of all threads.
pub record Program : Type 0 where
  pub status : ProgramStatus
  pub system : System
  pub running_thread_index : ℕ
  pub stage : Stage
  pub lock_usage : HashMap ℕ DetailLockData
  pub global_lock_usage : HashMap ℕ DetailLockData
  pub callsite : Callsite
  pub objects : Table
  pub thread_data : ThreadData

-- what mmap gives the tables and the memory of the main thread
pub record Mapped : Type 0 where
  pub lock_usage : ℕ
  pub global_lock_usage : ℕ
  pub call_table : ℕ
  pub objects : ℕ
  pub memory : ℕ

-- The counts of the threads, the tables, the memory, the predictor and the flag; `now` is what
-- rdtscp gives. ShadowMemory::initialize and the lines of the input files are modelled by themselves;
-- the output file is left out.
unfoldable pub libmallocprof_main : Mapped → ℕ → Program → Program
unfolding set_profiler_initialized_true global_init
libmallocprof_main mapped now p =
    let (counts, index) = get_a_running_thread_index (add_a_running_thread p.system.counts) in
    let (predictor, g) = global_init p.system.predictor p.stage in
    record p {
      status = set_profiler_initialized_true p.status;
      system = record p.system {
        counts = counts;
        predictor = predictor;
        memories = initialize_for_thread p.system.memories index mapped.memory;
      };
      running_thread_index = index;
      stage = outside_cycle_start g now;
      lock_usage = initialize p.lock_usage mapped.lock_usage max_lock_num;
      global_lock_usage = initialize p.global_lock_usage mapped.global_lock_usage max_lock_num;
      callsite = initialize_call_table p.callsite mapped.call_table;
      objects = initialize_table p.objects mapped.objects;
    }

-- the flag, the predictor and the sums; stopSampling is modelled by itself
unfoldable pub exit_handler : ℕ → Program → Program
unfolding set_begin_conclusion_true
exit_handler now p =
    let (predictor, g) =
      stop_serial p.system.counts.total_num_of_thread p.system.predictor
        (outside_cycles_stop p.stage now) in
    record p {
      status = set_begin_conclusion_true p.status;
      system = record p.system {
        predictor = predictor;
        global = globalize_sums p.system.global p.thread_data;
      };
      stage = g;
    }

-- what mainStop does: pthread_kill of threads, or pthread_exit
pub data Stop : Type 0 where
  kills : (threads : List ℕ) → Stop
  exits : Stop

-- the threads that are not null, from `i` on, with the rounds that are left
unfoldable pub kill_from : (ℕ → Bool) → ℕ → ℕ → List ℕ
kill_from threads zero i = []
kill_from threads (suc left) i =
    let rest = kill_from threads left (i + 1) in if threads i then i ∷ rest else rest

-- `for(i = 1; i < totalNumOfRunningThread; ++i)` of the main thread; the others exit.
unfoldable pub main_stop : System → ℕ → Stop
unfolding kill_from
main_stop s running_thread_index =
    if running_thread_index == 0
    then kills (kill_from s.threads (s.counts.total_num_of_running_thread - 1) 1)
    else exits
