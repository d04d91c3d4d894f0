-- ===== src/Xthreadx/Counts.antt =====
-- src_light/xthreadx.cpp: the counts of the threads tell what they are meant to tell.
use mem_perf_pro.Base.{
  ℕ, ◌+◌, ◌≤◌, ◌<◌, ◌≡◌, refl, subst, ◌∙◌, true, ltb, ◌==◌, Bool-cases, inl, inr, arith, add_16,
  sub_16,
}
use mem_perf_pro.Base.Run.{done, bind_inversion, done_injective}
use mem_perf_pro.Predictor.{Predictor, Stage, thread_end, stop_parallel, outside_cycles_stop}
use mem_perf_pro.ThreadLocalStatus.{
  ThreadData, get_a_running_thread_index, add_a_running_thread, sub_a_running_thread,
  from_serial_to_parallel, from_parallel_to_serial,
}
use mem_perf_pro.GlobalStatus.LockTable.{LockTable}
use mem_perf_pro.Xthreadx.{System, thread_create, start_thread, thread_exit, thread_join}
use mem_perf_pro.Base.Counts.{count_true, count_true-cleared, count_true-next}
use mem_perf_pro.Xthreadx.Cycles.{
  not_below, thread_end-elsewhere, stop_serial-cycle, stop_parallel-cycle,
}
use mem_perf_pro.Xthreadx.Life.{
  World, Step, creates, starts, exits, joins, Reach, here, next, runs, with_stage,
}

-- The counts of running threads and of all threads, the registered threads and their indices, and
-- the cells of the predictor, where the counts do not wrap.
pub record IsCounted (w : World) : Type 0 where
  pub running : w.system.counts.total_num_of_running_thread + w.joined ≡ 1 + w.created
  pub total : w.system.counts.total_num_of_thread ≡ 1 + w.started
  pub joined : w.joined ≤ w.exited
  pub started : w.started ≤ w.created
  pub registered :
      count_true w.system.threads w.system.counts.total_num_of_thread + w.exited ≡ w.started
  pub indices :
      (i : ℕ) → w.system.threads i ≡ true → (1 ≤ i) × (i < w.system.counts.total_num_of_thread)
  pub cycles :
      (i : ℕ)
      → w.system.counts.total_num_of_running_thread ≡ 1
      → w.system.predictor.thread_cycle i ≡ 0
  pub unused :
      (i : ℕ) → w.system.counts.total_num_of_thread ≤ i → w.system.predictor.thread_cycle i ≡ 0

create-IsCounted :
    (w : World) (thread stop start : ℕ)
    → w.created + 1 < 0xffff
    → IsCounted w
    → IsCounted (
        let (s, g) = thread_create stop start w.system (w.stage thread) in
        record (with_stage w s thread g) { created = w.created + 1 })
unfolding thread_create add_a_running_thread from_serial_to_parallel
create-IsCounted w thread stop start few c =
    elim (Bool-cases (add_16 w.system.counts.total_num_of_running_thread 1 == 2)) [
      | inl first ↦
          rw (first, thread_create)
            (record {
              running = omega (arith, c.running);
              total = c.total;
              joined = c.joined;
              started = omega (arith, c.started);
              registered = c.registered;
              indices = c.indices;
              cycles = λ i one.
                  absurd (omega (arith, one, c.running, c.joined, c.started, c.registered));
              unused = λ i above. ground (
                arith,
                c.unused i above,
                stop_serial-cycle w.system.counts.total_num_of_thread w.system.predictor
                    (outside_cycles_stop (w.stage thread) stop) i,
              );
            })
      | inr other ↦
          rw (other, thread_create)
            (record {
              running = omega (arith, c.running);
              total = c.total;
              joined = c.joined;
              started = omega (arith, c.started);
              registered = c.registered;
              indices = c.indices;
              cycles = λ i one.
                  absurd (omega (arith, one, c.running, c.joined, c.started, c.registered));
              unused = c.unused;
            })
    ]

start-IsCounted :
    (w : World) (mapped mapped_locks now : ℕ) (g : Stage) (lock_usage : LockTable)
    → w.created < 0xffff
    → w.started < w.created
    → IsCounted w
    → IsCounted (
        let (s, l) = start_thread mapped mapped_locks now w.system g lock_usage in
        record (with_stage w s l.running_thread_index l.stage) { started = w.started + 1 })
unfolding start_thread get_a_running_thread_index
start-IsCounted w mapped mapped_locks now g lock_usage few waiting c =
    let total = w.system.counts.total_num_of_thread in
    record {
      running = c.running;
      total = omega (arith, c.total, c.started);
      joined = c.joined;
      started = omega (arith, waiting);
      registered =
          (let small : add_16 total 1 ≡ total + 1 = omega (arith, c.total, c.started) in
            rw small (omega (arith, c.registered, count_true-next w.system.threads total)));
      indices = λ i e. ground (arith, c.indices i, c.total, c.started);
      cycles = c.cycles;
      unused = λ i above. c.unused i (omega (arith, above, c.total, c.started));
    }

exit-IsCounted :
    (w : World) (thread stop : ℕ) (thread_data : ThreadData) (s : System)
    → w.created < 0xffff
    → w.system.threads thread ≡ true
    → thread_exit thread stop thread_data w.system (w.stage thread) ≡ done s
    → IsCounted w
    → IsCounted (record w { system = s; exited = w.exited + 1 })
unfolding thread_exit
exit-IsCounted w thread stop thread_data s few lives e c =
    let stopped = outside_cycles_stop (w.stage thread) stop in
    let (p, ended, rest) = bind_inversion (thread_end w.system.predictor stopped thread) _ e in
    let total = w.system.counts.total_num_of_thread in
    let inside = c.indices thread lives in
    let fewer = count_true-cleared w.system.threads total thread inside.1 lives in
    subst (λ s. IsCounted (record w { system = s; exited = w.exited + 1 })) (done_injective rest)
      (record {
        running = c.running;
        total = c.total;
        joined = omega (arith, c.joined);
        started = c.started;
        registered = omega (arith, c.registered, fewer);
        indices = λ i h. ground (arith, c.indices i);
        cycles = λ i one.
            absurd (omega (arith, one, c.running, c.joined, c.started, c.registered, fewer));
        unused = λ i above.
            thread_end-elsewhere w.system.predictor p stopped thread i ended
              (λ e. omega (arith, e, inside.1, above))
            ∙ c.unused i above;
      })

runs_lt :
    (w : World) (thread : ℕ)
    → IsCounted w
    → runs w thread ≡ true
    → thread < w.system.counts.total_num_of_thread
runs_lt w thread c lives = ground (arith, c.total, c.indices thread)

-- The predictor of a joining thread, which has ended, is cleared.
cleared_cycle :
    (w : World) (thread i : ℕ) (g : Stage) (p : Predictor)
    → IsCounted w
    → runs w thread ≡ true
    → thread_end w.system.predictor g thread ≡ done p
    → (stop_parallel w.system.counts.total_num_of_thread p g).0.thread_cycle i ≡ 0
cleared_cycle w thread i g p c lives ended =
    let total = w.system.counts.total_num_of_thread in
    elim (Bool-cases (ltb i total)) [
      | inl below ↦ stop_parallel-cycle total p g i ∙ rw below refl
      | inr above ↦
          stop_parallel-cycle total p g i
          ∙ rw above (
              thread_end-elsewhere w.system.predictor p g thread i ended
                (λ e. omega (arith, e, runs_lt w thread c lives, not_below i total above))
              ∙ c.unused i (not_below i total above))
    ]

join-IsCounted :
    (w : World) (thread stop start : ℕ) (s : System) (g : Stage)
    → w.created < 0xffff
    → runs w thread ≡ true
    → w.joined < w.exited
    → thread_join thread stop start w.system (w.stage thread) ≡ done (s, g)
    → IsCounted w
    → IsCounted (record (with_stage w s thread g) { joined = w.joined + 1 })
unfolding thread_join sub_a_running_thread from_parallel_to_serial
join-IsCounted w thread stop start s g few lives waiting e c =
    let stopped = outside_cycles_stop (w.stage thread) stop in
    let goal : System × Stage → Type 0 =
      λ r. IsCounted (record (with_stage w r.0 thread r.1) { joined = w.joined + 1 }) in
    elim (Bool-cases (sub_16 w.system.counts.total_num_of_running_thread 1 == 1)) [
      | inl last ↦
          let (p, ended, rest) =
            bind_inversion (thread_end w.system.predictor stopped thread) _ (rw last at e) in
          subst goal (done_injective rest) (record {
            running = omega (arith, c.running, c.joined, c.started, c.registered);
            total = c.total;
            joined = omega (arith, waiting);
            started = c.started;
            registered = c.registered;
            indices = c.indices;
            cycles = λ i one. cleared_cycle w thread i stopped p c lives ended;
            unused = λ i above. cleared_cycle w thread i stopped p c lives ended;
          })
      | inr other ↦ subst goal (done_injective (rw other at e)) (record {
        running = omega (arith, c.running, c.joined, c.started, c.registered);
        total = c.total;
        joined = omega (arith, waiting);
        started = c.started;
        registered = c.registered;
        indices = c.indices;
        cycles = λ i one. absurd (ground (arith, one));
        unused = c.unused;
      })
    ]

Step-IsCounted : {w v : World} → v.created < 0xffff → Step w v → IsCounted w → IsCounted v
Step-IsCounted {w} few (creates thread stop start lives) c =
    create-IsCounted w thread stop start (omega (arith, few)) c
Step-IsCounted {w} few (starts mapped mapped_locks now g lock_usage waiting) c =
    start-IsCounted w mapped mapped_locks now g lock_usage few waiting c
Step-IsCounted {w} few (exits thread stop thread_data {s} lives e) c =
    exit-IsCounted w thread stop thread_data s few lives e c
Step-IsCounted {w} few (joins thread stop start {s} {g} lives waiting e) c =
    join-IsCounted w thread stop start s g few lives waiting e c

created_grows : {w v : World} → Step w v → w.created ≤ v.created
created_grows (creates thread stop start lives) = omega arith
created_grows (starts mapped mapped_locks now g lock_usage waiting) = omega arith
created_grows (exits thread stop thread_data lives e) = omega arith
created_grows (joins thread stop start lives waiting e) = omega arith

-- However threads are created, start, exit and are joined, when fewer than 65535 are created: the
-- running threads are the main one and those that were created and not joined; the registered
-- threads are those that started and did not exit, with indices from 1 to below the total; and the
-- predictor has cycles of threads only while a thread was not joined.
pub Reach-IsCounted : (w v : World) → IsCounted w → v.created < 0xffff → Reach w v → IsCounted v
Reach-IsCounted w v c few here = c
Reach-IsCounted w v c few (next {u} run step) =
    Step-IsCounted few step (Reach-IsCounted w u c (omega (arith, few, created_grows step)) run)
