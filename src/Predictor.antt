-- ===== src/Predictor.antt =====
-- src_light/predictor.cpp: the critical path of the program, as it ran and with another allocator.
-- Cycles are 64-bit numbers, counts of functions have 32 bits.
pub mod CriticalPath
use mem_perf_pro.Base.{
  ℕ, zero, suc, ◌+◌, ◌-◌, ◌*◌, ◌/◌, ◌%◌, max, Bool, true, false, not, ◌&&◌, ltb, ◌==◌,
  if◌then◌else◌, add_64, sub_64, update,
}
use mem_perf_pro.Base.Run.{Run, done, abort}
use mem_perf_pro.Structs.{num_of_allocation_types}

-- what the threads share
pub record Predictor : Type 0 where
  pub critical_cycle : ℕ
  pub replaced_critical_cycle : ℕ
  pub critical_cycle_depend : ℕ
  pub replaced_critical_cycle_depend : ℕ
  pub thread_cycle : ℕ → ℕ
  pub thread_replaced_cycle : ℕ → ℕ
  pub replaced_function_cycles : ℕ → ℕ
  pub last_thread_depend : Bool
  pub last_thread_index : ℕ

-- what a thread keeps of the stage that it is in
pub record Stage : Type 0 where
  pub num_of_functions : ℕ → ℕ
  pub total_function_cycles : ℕ
  pub outside_start_cycle : ℕ
  pub outside_stop_cycle : ℕ
  pub outside_cycle : ℕ
  pub outside_cycle_minus : ℕ

unfoldable pub thread_init : Stage → Stage
thread_init g = record g { num_of_functions = λ i. 0; total_function_cycles = 0; outside_cycle = 0 }

-- The lines of its info file are read in InfoFile.antt.
unfoldable pub global_init : Predictor → Stage → Predictor × Stage
global_init p g = (
  record p {
    critical_cycle = 0;
    replaced_critical_cycle = 0;
    critical_cycle_depend = 0;
    replaced_critical_cycle_depend = 0;
  },
  record g { num_of_functions = λ i. 0; total_function_cycles = 0; outside_cycle = 0 },
)

-- `memset` of the first `total` cells
abbrev cleared : ℕ → (ℕ → ℕ) → ℕ → ℕ
cleared total cells i = if ltb i total then 0 else cells i

unfoldable pub clean_stage_data : ℕ → Predictor → Stage → Predictor × Stage
clean_stage_data total_num_of_thread p g = (
  record p {
    thread_cycle = cleared total_num_of_thread p.thread_cycle;
    thread_replaced_cycle = cleared total_num_of_thread p.thread_replaced_cycle;
  },
  record g { num_of_functions = λ i. 0; total_function_cycles = 0; outside_cycle = 0 },
)

unfoldable pub sub_outside_cycle : Stage → ℕ → Stage
sub_outside_cycle g cycles = record g { outside_cycle_minus = add_64 g.outside_cycle_minus cycles }

-- `now` is what rdtscp gives
unfoldable pub outside_cycle_start : Stage → ℕ → Stage
outside_cycle_start g now = record g { outside_start_cycle = now }

unfoldable pub outside_cycles_stop : Stage → ℕ → Stage
outside_cycles_stop g now = record g {
  outside_stop_cycle = now;
  outside_cycle =
      if ltb g.outside_start_cycle now && not (g.outside_start_cycle == 0)
      then add_64 g.outside_cycle (now - g.outside_start_cycle)
      else g.outside_cycle;
}

-- The loops over the allocation types: `cycles += numOfFunctions[i] * replacedFunctionCycles[i]` where
-- the latter is not 0.
unfoldable pub add_replaced : (ℕ → ℕ) → (ℕ → ℕ) → ℕ → ℕ → ℕ → ℕ
add_replaced num_of_functions replaced_function_cycles zero i cycles = cycles
add_replaced num_of_functions replaced_function_cycles (suc left) i cycles =
    add_replaced num_of_functions replaced_function_cycles left (i + 1) (
      if replaced_function_cycles i == 0
      then cycles
      else add_64 cycles
          (num_of_functions i * replaced_function_cycles i % 0x1_0000_0000_0000_0000))

abbrev pub with_replaced : Predictor → Stage → ℕ → ℕ
with_replaced p g cycles =
    add_replaced g.num_of_functions p.replaced_function_cycles num_of_allocation_types 0
      (sub_64 (add_64 cycles g.outside_cycle) g.total_function_cycles)

-- Behind the sums a thread other than the main one divides by its cycles: the process ends if they
-- are 0.
unfoldable pub thread_end : Predictor → Stage → ℕ → Run Predictor
thread_end p g index =
    let cycle = add_64 (p.thread_cycle index) g.outside_cycle in
    let p' = record p {
      thread_cycle = update p.thread_cycle index cycle;
      thread_replaced_cycle =
          update p.thread_replaced_cycle index (with_replaced p g (p.thread_replaced_cycle index));
    } in
    if index == 0
    then done p'
    else if cycle == 0
    then abort
    else if ltb (g.total_function_cycles * 100 % 0x1_0000_0000_0000_0000 / cycle) 2
    then done (record p' { last_thread_index = index; last_thread_depend = true })
    else done (record p' { last_thread_depend = false })

unfoldable pub stop_serial : ℕ → Predictor → Stage → Predictor × Stage
unfolding clean_stage_data
stop_serial total_num_of_thread p g =
    clean_stage_data total_num_of_thread
      (record p {
        critical_cycle = add_64 p.critical_cycle g.outside_cycle;
        critical_cycle_depend = add_64 p.critical_cycle_depend g.outside_cycle;
        replaced_critical_cycle = with_replaced p g p.replaced_critical_cycle;
        replaced_critical_cycle_depend = with_replaced p g p.replaced_critical_cycle_depend;
      })
      g

-- the four maxima of the loop of stopParallel
pub record Maxima : Type 0 where
  pub cycle : ℕ
  pub replaced_cycle : ℕ
  pub cycle_depend : ℕ
  pub replaced_cycle_depend : ℕ

abbrev pub counts : Predictor → ℕ → Bool
counts p index = not (p.thread_cycle index == 0) && not (p.thread_replaced_cycle index == 0)

abbrev pub counts_depend : Predictor → ℕ → Bool
counts_depend p index = p.last_thread_depend && not (index == p.last_thread_index)

abbrev pub raise : Predictor → ℕ → Maxima → Maxima
raise p index m = record {
  cycle = if counts p index then max m.cycle (p.thread_cycle index) else m.cycle;
  replaced_cycle =
      if counts p index
      then max m.replaced_cycle (p.thread_replaced_cycle index)
      else m.replaced_cycle;
  cycle_depend =
      if counts p index && counts_depend p index
      then max m.cycle_depend (p.thread_cycle index)
      else m.cycle_depend;
  replaced_cycle_depend =
      if counts p index && counts_depend p index
      then max m.replaced_cycle_depend (p.thread_replaced_cycle index)
      else m.replaced_cycle_depend;
}

unfoldable pub maxima_from : Predictor → ℕ → ℕ → Maxima → Maxima
maxima_from p zero index m = m
maxima_from p (suc left) index m = maxima_from p left (index + 1) (raise p index m)

-- the maxima over the threads 1, …, totalNumOfThread - 1
unfoldable pub stage_maxima : ℕ → Predictor → Maxima
stage_maxima total_num_of_thread p =
    maxima_from p (total_num_of_thread - 1) 1
      (record { cycle = 0; replaced_cycle = 0; cycle_depend = 0; replaced_cycle_depend = 0 })

unfoldable pub stop_parallel : ℕ → Predictor → Stage → Predictor × Stage
unfolding stage_maxima clean_stage_data
stop_parallel total_num_of_thread p g =
    let m = stage_maxima total_num_of_thread p in
    clean_stage_data total_num_of_thread
      (record p {
        critical_cycle = add_64 p.critical_cycle m.cycle;
        critical_cycle_depend = add_64 p.critical_cycle_depend m.cycle_depend;
        replaced_critical_cycle = add_64 p.replaced_critical_cycle m.replaced_cycle;
        replaced_critical_cycle_depend =
            add_64 p.replaced_critical_cycle_depend m.replaced_cycle_depend;
      })
      g
