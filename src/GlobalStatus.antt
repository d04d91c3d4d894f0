-- ===== src/GlobalStatus.antt =====
-- src_light/globalstatus.cpp: the sums over the threads.
pub mod Leaks
pub mod Totals
pub mod LockTable
use mem_perf_pro.Base.{
  ℕ, zero, suc, ◌+◌, Bool, true, false, ◌||◌, leb, ◌==◌, if◌then◌else◌, add_32, add_64, sub_64,
  update,
}
use mem_perf_pro.Structs.{
  num_of_allocation_types, OverviewLockData, SystemCallData, FriendlinessStatus, add_counts,
  add_cycles, add_system_calls, add_overview_lock_data, add_friendliness,
}
use mem_perf_pro.ThreadLocalStatus.{ThreadData}

abbrev pub num_of_lock_types : ℕ
num_of_lock_types = 4

abbrev pub num_of_system_call_types : ℕ
num_of_system_call_types = 6

-- `for(i = 0; i < n; ++i) total[i].add(new[i])`, with the rounds that are left
unfoldable pub add_each {ℓ} : {A : Type ℓ} → (A → A → A) → ℕ → ℕ → (ℕ → A) → (ℕ → A) → ℕ → A
add_each plus zero i total new = total
add_each plus (suc left) i total new =
    add_each plus left (i + 1) (update total i (plus (total i) (new i))) new

-- globalize but for its loop over the table of locks, which is in LockTable. The data of all threads
-- have the shape of those of one.
unfoldable pub globalize_sums : ThreadData → ThreadData → ThreadData
unfolding add_each
globalize_sums g t = record {
  cycles = add_cycles g.cycles t.cycles;
  num_of_sampled_counting_functions =
      add_counts g.num_of_sampled_counting_functions t.num_of_sampled_counting_functions;
  system_call_data = λ syscall_type.
      if leb num_of_system_call_types syscall_type
      then g.system_call_data syscall_type
      else add_each (λ a b. add_system_calls a b) num_of_allocation_types 0
          (g.system_call_data syscall_type) (t.system_call_data syscall_type);
  overview_lock_data =
      add_each (λ a b. add_overview_lock_data a b) num_of_lock_types 0 g.overview_lock_data
        t.overview_lock_data;
  friendliness_status = add_friendliness g.friendliness_status t.friendliness_status;
}

-- SERIAL_NORMAL_REALLOC and PARALLEL_NORMAL_REALLOC
abbrev pub is_realloc : ℕ → Bool
is_realloc allocation_type = allocation_type == 18 || allocation_type == 19

-- SERIAL_SMALL_FREE to PARALLEL_LARGE_FREE, in the order of the test
abbrev pub is_free : ℕ → Bool
is_free t = t == 10 || (t == 13 || (t == 11 || (t == 14 || (t == 12 || t == 15))))

-- The loop on potentialMemoryLeakFunctions, an `int64_t` as its bit pattern.
unfoldable pub leak_from : (ℕ → ℕ) → ℕ → ℕ → ℕ → ℕ
leak_from counts zero i leaks = leaks
leak_from counts (suc left) i leaks = leak_from counts left (i + 1) (
    if is_realloc i
    then leaks
    else if is_free i
    then sub_64 leaks (counts i)
    else add_64 leaks (counts i))

unfoldable pub count_potential_memory_leak_functions : (ℕ → ℕ) → ℕ → ℕ
unfolding leak_from
count_potential_memory_leak_functions counts leaks =
    let total = leak_from counts num_of_allocation_types 0 leaks in
    if leb 0x8000_0000_0000_0000 total then 0 else total
