-- ===== src/Main/Started.antt =====
-- src_light/libmallocprof.cpp, xthreadx.cpp: the threads of a program from its start on.
use mem_perf_pro.Base.{◌≤◌, true, ℕ, ◌<◌, ◌≡◌, false, update, arith, add_16}
use mem_perf_pro.Base.Counts.{count_true, count_true-none}
use mem_perf_pro.ThreadLocalStatus.{add_a_running_thread, get_a_running_thread_index}
use mem_perf_pro.Predictor.{Stage}
use mem_perf_pro.Xthreadx.{max_thread_number}
use mem_perf_pro.Xthreadx.Life.{World, Reach}
use mem_perf_pro.Xthreadx.Counts.{IsCounted, Reach-IsCounted}
use mem_perf_pro.Main.{Program, Mapped, libmallocprof_main}

-- the statics before main
pub record IsFresh (p : Program) : Type 0 where
  pub total : p.system.counts.total_num_of_thread ≡ 0
  pub running : p.system.counts.total_num_of_running_thread ≡ 0
  pub threads : (i : ℕ) → p.system.threads i ≡ false
  pub cycles : (i : ℕ) → p.system.predictor.thread_cycle i ≡ 0

-- the main thread alone; `stage` are the stages of the threads to come
abbrev pub world_of : (ℕ → Stage) → Program → World
world_of stage p = record {
  system = p.system;
  stage = update stage 0 p.stage;
  created = 0;
  started = 0;
  exited = 0;
  joined = 0;
}

libmallocprof_main-IsCounted :
    (stage : ℕ → Stage) (mapped : Mapped) (now : ℕ) (p : Program)
    → IsFresh p
    → IsCounted (world_of stage (libmallocprof_main mapped now p))
unfolding libmallocprof_main add_a_running_thread get_a_running_thread_index count_true
libmallocprof_main-IsCounted stage mapped now p f = record {
  running = omega (arith, f.running);
  total = omega (arith, f.total);
  joined = omega arith;
  started = omega arith;
  registered = omega (
    arith,
    count_true-none p.system.threads (add_16 p.system.counts.total_num_of_thread 1) f.threads,
  );
  indices = λ i e. ground (arith, f.threads i);
  cycles = λ i e. f.cycles i;
  unused = λ i above. f.cycles i;
}

-- Every thread has a cell in the arrays of MAX_THREAD_NUMBER cells.
pub record FitsThreads (v : World) : Type 0 where
  pub total : v.system.counts.total_num_of_thread ≤ max_thread_number
  pub index : (i : ℕ) → v.system.threads i ≡ true → i < max_thread_number

-- From libmallocprof_main on, however threads are created, start, exit and are joined, when fewer
-- than 1024 are created, as many as the arrays have cells for, and the statics were 0: the running threads are the main one and those that
-- were created and not joined; the registered threads are those that started and did not exit, with
-- indices from 1 to below the total, which are cells of the arrays; and the predictor has cycles of
-- threads only while a thread was not joined.
pub main-IsCounted :
    (stage : ℕ → Stage) (mapped : Mapped) (now : ℕ) (p : Program) (v : World)
    → IsFresh p
    → v.created < max_thread_number
    → Reach (world_of stage (libmallocprof_main mapped now p)) v
    → IsCounted v × FitsThreads v
main-IsCounted stage mapped now p v f few run =
    let c =
      Reach-IsCounted _ v (libmallocprof_main-IsCounted stage mapped now p f) (omega (arith, few))
        run in
    let total : v.system.counts.total_num_of_thread ≤ max_thread_number =
      omega (arith, c.total, c.started, few) in
    (c, record { total = total; index = λ i e. omega (arith, (c.indices i e).1, total) })
