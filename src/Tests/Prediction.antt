-- ===== src/Tests/Prediction.antt =====
-- The prediction and the allocation types at concrete inputs.
use mem_perf_pro.Base.{ℕ, ◌≡◌, true, false, arith, if◌then◌else◌, ◌==◌, add_64}
use mem_perf_pro.Base.Run.{Returns}
use mem_perf_pro.AllocatingStatus.{small, medium, large, malloc, free}
use mem_perf_pro.AllocatingStatus.Types.{type_for_output, type_for_prediction}
use mem_perf_pro.AllocatingStatus.Types.Enumeration.{
  malloc_of, enumerators, nth, type_for_output-nth, type_for_prediction_new,
  type_for_prediction_reused_large,
}
use mem_perf_pro.Predictor.{Predictor, Stage, counts, stop_serial, stop_parallel, thread_end}
use mem_perf_pro.Predictor.CriticalPath.{
  Replaces, IsReset, IsMaximum, Ends, stop_serial-Replaces, stop_parallel-IsMaximum,
  thread_end-Ends,
}

-- two threads besides the main one, of 700 and 900 cycles; a function of type 0 would take 40 cycles
abbrev predictor : Predictor
predictor = record {
  critical_cycle = 1000;
  replaced_critical_cycle = 800;
  critical_cycle_depend = 1000;
  replaced_critical_cycle_depend = 800;
  thread_cycle = λ i. if i == 1 then 700 else if i == 2 then 900 else 0;
  thread_replaced_cycle = λ i. if i == 1 then 650 else if i == 2 then 600 else 0;
  replaced_function_cycles = λ i. if i == 0 then 40 else 0;
  last_thread_depend = false;
  last_thread_index = 0;
}

-- 3 calls of type 0 took 300 of 500 cycles
abbrev stage : Stage
stage = record {
  num_of_functions = λ i. if i == 0 then 3 else 0;
  total_function_cycles = 300;
  outside_start_cycle = 0;
  outside_stop_cycle = 0;
  outside_cycle = 500;
  outside_cycle_minus = 0;
}

stop_serial-Replaces_here :
    ((stop_serial 3 predictor stage).0.critical_cycle ≡ 1500)
    × ((stop_serial 3 predictor stage).0.critical_cycle_depend ≡ 1500)
    × Replaces predictor stage 800 (stop_serial 3 predictor stage).0.replaced_critical_cycle
    × Replaces predictor stage 800 (stop_serial 3 predictor stage).0.replaced_critical_cycle_depend
    × IsReset 3 (stop_serial 3 predictor stage).0 (stop_serial 3 predictor stage).1
stop_serial-Replaces_here = stop_serial-Replaces 3 predictor stage

stop_parallel-IsMaximum_example :
    (m : ℕ) × (m' : ℕ) × IsMaximum predictor.thread_cycle (counts predictor) 1 3 0 m
    × IsMaximum predictor.thread_replaced_cycle (counts predictor) 1 3 0 m'
    × ((stop_parallel 3 predictor stage).0.critical_cycle ≡ add_64 1000 m)
    × ((stop_parallel 3 predictor stage).0.replaced_critical_cycle ≡ add_64 800 m')
    × IsReset 3 (stop_parallel 3 predictor stage).0 (stop_parallel 3 predictor stage).1
stop_parallel-IsMaximum_example = stop_parallel-IsMaximum 3 predictor stage (omega arith)

thread_end-Ends_here :
    Returns
      (λ p'. Ends predictor stage 1 p'.thread_cycle p'.thread_replaced_cycle)
      (thread_end predictor stage 1)
thread_end-Ends_here = thread_end-Ends predictor stage 1 (λ e. omega (arith, e))

type_for_output-nth_example :
    nth enumerators (type_for_output true malloc medium true) ≡ malloc_of true medium true
type_for_output-nth_example = type_for_output-nth true malloc medium true

type_for_prediction_new_here :
    (type_for_prediction 0 (type_for_output true malloc small false) malloc small large
      ≡ type_for_output true malloc large false)
    × (type_for_prediction 0 (type_for_output true free small false) free small large
        ≡ type_for_output true free large false)
type_for_prediction_new_here = type_for_prediction_new true 0 small large

type_for_prediction_reused_large_example :
    (nth enumerators
        (type_for_prediction 0 (type_for_output false malloc small true) malloc small large)
      ≡ malloc_of true small false)
    × (nth enumerators
          (type_for_prediction 0 (type_for_output false malloc medium true) malloc medium large)
        ≡ malloc_of true small false)
type_for_prediction_reused_large_example = type_for_prediction_reused_large false 0
