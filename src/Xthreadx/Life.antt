-- ===== src/Xthreadx/Life.antt =====
-- src_light/xthreadx.cpp: the life of the threads as steps, in any order that pthreads allows.
use mem_perf_pro.Base.{ℕ, ◌+◌, ◌<◌, ◌≡◌, Bool, true, if◌then◌else◌, update, ◌==◌}
use mem_perf_pro.Base.Run.{done}
use mem_perf_pro.ThreadLocalStatus.{ThreadData}
use mem_perf_pro.Predictor.{Stage}
use mem_perf_pro.GlobalStatus.LockTable.{LockTable}
use mem_perf_pro.Xthreadx.{System, thread_create, start_thread, thread_exit, thread_join}

-- The shared state, the stage of each thread, and how many threads were created, have started, have
-- exited and were joined, without the main thread.
pub record World : Type 0 where
  pub system : System
  pub stage : ℕ → Stage
  pub created : ℕ
  pub started : ℕ
  pub exited : ℕ
  pub joined : ℕ

-- the main thread, or one that is registered
abbrev pub runs : World → ℕ → Bool
runs w thread = if thread == 0 then true else w.system.threads thread

abbrev pub with_stage : World → System → ℕ → Stage → World
with_stage w system thread g = record w { system = system; stage = update w.stage thread g }

-- A thread creates another one; a created thread starts; a registered one exits; a thread joins one
-- that has exited, as pthread_join returns then.
pub data Step (w : World) : World → Type 0 where
  creates :
      (thread stop start : ℕ)
      → runs w thread ≡ true
      → Step w (
          let (s, g) = thread_create stop start w.system (w.stage thread) in
          record (with_stage w s thread g) { created = w.created + 1 })
  starts :
      (mapped mapped_locks now : ℕ) (g : Stage) (lock_usage : LockTable)
      → w.started < w.created
      → Step w (
          let (s, l) = start_thread mapped mapped_locks now w.system g lock_usage in
          record (with_stage w s l.running_thread_index l.stage) { started = w.started + 1 })
  exits :
      (thread stop : ℕ) (data_of_thread : ThreadData) {s : System}
      → w.system.threads thread ≡ true
      → thread_exit thread stop data_of_thread w.system (w.stage thread) ≡ done s
      → Step w (record w { system = s; exited = w.exited + 1 })
  joins :
      (thread stop start : ℕ) {s : System} {g : Stage}
      → runs w thread ≡ true
      → w.joined < w.exited
      → thread_join thread stop start w.system (w.stage thread) ≡ done (s, g)
      → Step w (record (with_stage w s thread g) { joined = w.joined + 1 })

pub data Reach (w : World) : World → Type 0 where
  here : Reach w w
  next : {u v : World} → Reach w u → Step u v → Reach w v
