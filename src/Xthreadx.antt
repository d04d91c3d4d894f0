-- ===== src/Xthreadx.antt =====
-- src_light/xthreadx.cpp: how threads are created, start, exit and are joined. The real functions
-- are left out; thread_create counts the thread also when pthread_create fails.
pub mod Life
pub mod Cycles
pub mod Counts
use mem_perf_pro.Base.{ℕ, Bool, true, false, if◌then◌else◌, update}
use mem_perf_pro.Base.Run.{Run, done, ◌>>=◌}
use mem_perf_pro.MyMalloc.{
  ThreadMemories, xthread_malloc, initialize_for_thread, finalize_for_thread,
}
use mem_perf_pro.ThreadLocalStatus.{
  ThreadCounts, ThreadData, get_a_running_thread_index, add_a_running_thread, sub_a_running_thread,
  from_serial_to_parallel, from_parallel_to_serial,
}
use mem_perf_pro.HashMap.{initialize}
use mem_perf_pro.GlobalStatus.{globalize_sums}
use mem_perf_pro.GlobalStatus.LockTable.{LockTable}
use mem_perf_pro.Predictor.{
  Predictor, Stage, thread_init, outside_cycle_start, outside_cycles_stop, thread_end, stop_serial,
  stop_parallel,
}

-- What the threads share: `threads` says which cells of xthreadx::threads are not null, `idx` is the
-- next cell of XThreadMemory.
pub record System : Type 0 where
  pub counts : ThreadCounts
  pub predictor : Predictor
  pub threads : ℕ → Bool
  pub idx : ℕ
  pub memories : ThreadMemories
  pub global : ThreadData

-- `stop` and `start` are what rdtscp gives; the value has the stage of the running thread.
unfoldable pub thread_create : ℕ → ℕ → System → Stage → System × Stage
thread_create stop start s g =
    let counts = add_a_running_thread s.counts in
    let (p, g') = stop_serial counts.total_num_of_thread s.predictor (outside_cycles_stop g stop) in
    let s' = record s { counts = counts; idx = (xthread_malloc s.idx).0 } in
    if from_serial_to_parallel counts
    then (record s' { predictor = p }, outside_cycle_start g' start)
    else (s', g)

-- MAX_THREAD_NUMBER: the cells of `threads` and of the arrays of the predictor. The arrays here have
-- a cell for every index, and an index is no negative number: the theorems ask for programs with so
-- few threads that the indices are cells.
abbrev pub max_thread_number : ℕ
max_thread_number = 1024

-- MAX_LOCK_NUM
abbrev pub max_lock_num : ℕ
max_lock_num = 512

-- the variables of a thread that startThread sets
pub record Local : Type 0 where
  pub running_thread_index : ℕ
  pub stage : Stage
  pub lock_usage : LockTable
  pub profiler_initialized : Bool

-- startThread up to the start routine. `mapped` is what mmap gives the memory of the thread,
-- `mapped_locks` what it gives its table of locks; initPMU2 asks the kernel for the samples.
unfoldable pub start_thread : ℕ → ℕ → ℕ → System → Stage → LockTable → System × Local
unfolding initialize
start_thread mapped mapped_locks now s g lock_usage =
    let (counts, index) = get_a_running_thread_index s.counts in
    (
      record s {
        counts = counts;
        threads = update s.threads index true;
        memories = initialize_for_thread s.memories index mapped;
      },
      record {
        running_thread_index = index;
        stage = outside_cycle_start (thread_init g) now;
        lock_usage = initialize lock_usage mapped_locks max_lock_num;
        profiler_initialized = true;
      },
    )

-- `thread_data` are the counters of the thread; its table of locks goes into that of all threads in
-- GlobalStatus/LockTable.antt.
unfoldable pub thread_exit : ℕ → ℕ → ThreadData → System → Stage → Run System
thread_exit index stop thread_data s g = do
  p ← thread_end s.predictor (outside_cycles_stop g stop) index
  done (record s {
    threads = update s.threads index false;
    predictor = p;
    global = globalize_sums s.global thread_data;
    memories = finalize_for_thread s.memories index;
  })

-- The joining thread has the number `index`.
unfoldable pub thread_join : ℕ → ℕ → ℕ → System → Stage → Run (System × Stage)
thread_join index stop start s g =
    let counts = sub_a_running_thread s.counts in
    let s' = record s { counts = counts } in
    let stopped = outside_cycles_stop g stop in
    if from_parallel_to_serial counts
    then (do
      p ← thread_end s.predictor stopped index
      (let (p', g') = stop_parallel counts.total_num_of_thread p stopped in
          done (record s' { predictor = p' }, outside_cycle_start g' start)))
    else done (s', g)
