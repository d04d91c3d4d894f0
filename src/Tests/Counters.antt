-- ===== src/Tests/Counters.antt =====
-- The counters at concrete inputs.
use mem_perf_pro.GlobalStatus.{count_potential_memory_leak_functions}
use mem_perf_pro.GlobalStatus.Leaks.{
  total_of, is_named, frees, allocates, count_potential_memory_leak_functions_lem,
}
use mem_perf_pro.Base.{refl, ◌-◌, ℕ, ◌/◌, ◌<◌, ◌≡◌, ◌≢◌, ◌↔◌, true, arith, ◌==◌, if◌then◌else◌}
use mem_perf_pro.Structs.{DetailLockData, mutex, is_an_important_lock, num_of_allocation_types}
use mem_perf_pro.Structs.Sums.{is_an_important_lock_iff}

-- two sampled calls of type 3, and 1200 cycles in the lock
abbrev sampled : ℕ → ℕ
sampled i = if i == 3 then 2 else 0

abbrev lock : DetailLockData
lock = record {
  lock_type = mutex;
  num_of_calls = λ i. 0;
  num_of_calls_with_contentions = λ i. 0;
  cycles = λ i. 1200;
}

is_an_important_lock_iff_here : (is_an_important_lock sampled lock ≡ true) ↔ (
    (j : ℕ) × (j < num_of_allocation_types) × (sampled j ≢ 0) × (500 < lock.cycles j / sampled j))
is_an_important_lock_iff_here = is_an_important_lock_iff sampled lock

lock_is_important : is_an_important_lock sampled lock ≡ true
unfolding is_an_important_lock
lock_is_important =
    is_an_important_lock_iff_here.1 (3, omega arith, (λ e. omega (arith, e)), omega arith)

-- 5 allocations of type 0 and 3 frees of type 10
abbrev calls : ℕ → ℕ
calls i = if i == 0 then 5 else if i == 10 then 3 else 0

count_potential_memory_leak_functions_lem_example :
    count_potential_memory_leak_functions calls 0
    ≡ total_of (is_named allocates) calls 24 0 - total_of (is_named frees) calls 24 0
count_potential_memory_leak_functions_lem_example =
    count_potential_memory_leak_functions_lem calls (λ i. ground arith)

two_leaks : total_of (is_named allocates) calls 24 0 - total_of (is_named frees) calls 24 0 ≡ 2
two_leaks = refl
