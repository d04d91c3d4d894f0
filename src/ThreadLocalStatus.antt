-- ===== src/ThreadLocalStatus.antt =====
-- src_light/threadlocalstatus.{h,cpp}: the counts of the threads, and what each thread counts. The
-- draw of the random engine and the clock are arguments where they are used.
use mem_perf_pro.Base.{ℕ, Bool, leb, ltb, ◌==◌, add_16, sub_16, sub_64}
use mem_perf_pro.Structs.{OverviewLockData, SystemCallData, FriendlinessStatus}

-- the two `unsigned short` that the threads share
pub record ThreadCounts : Type 0 where
  pub total_num_of_thread : ℕ
  pub total_num_of_running_thread : ℕ

-- the counters of a thread: by allocation type, by lock type, by system call and allocation type
pub record ThreadData : Type 0 where
  pub num_of_sampled_counting_functions : ℕ → ℕ
  pub cycles : ℕ → ℕ
  pub overview_lock_data : ℕ → OverviewLockData
  pub system_call_data : ℕ → ℕ → SystemCallData
  pub friendliness_status : FriendlinessStatus

-- The index that the thread gets. It is a `short`: from 32768 on it would be negative, and the number
-- here is its bit pattern; the theorems stay below 1024.
unfoldable pub get_a_running_thread_index : ThreadCounts → ThreadCounts × ℕ
get_a_running_thread_index c =
    (record c { total_num_of_thread = add_16 c.total_num_of_thread 1 }, c.total_num_of_thread)

unfoldable pub add_a_running_thread : ThreadCounts → ThreadCounts
add_a_running_thread c = record c {
  total_num_of_running_thread = add_16 c.total_num_of_running_thread 1;
}

unfoldable pub sub_a_running_thread : ThreadCounts → ThreadCounts
sub_a_running_thread c = record c {
  total_num_of_running_thread = sub_16 c.total_num_of_running_thread 1;
}

unfoldable pub is_currently_single_thread : ThreadCounts → Bool
is_currently_single_thread c = leb c.total_num_of_running_thread 1

unfoldable pub is_currently_parallel_thread : ThreadCounts → Bool
is_currently_parallel_thread c = ltb 1 c.total_num_of_running_thread

unfoldable pub from_serial_to_parallel : ThreadCounts → Bool
from_serial_to_parallel c = c.total_num_of_running_thread == 2

unfoldable pub from_parallel_to_serial : ThreadCounts → Bool
from_parallel_to_serial c = c.total_num_of_running_thread == 1

-- `dis(random) == 0`, for the draw of `dis`
unfoldable pub random_process_for_counting_event : ℕ → Bool
random_process_for_counting_event draw = draw == 0

unfoldable pub get_stack_offset : ℕ → ℕ → ℕ
get_stack_offset stack_bottom stack_top = sub_64 stack_bottom stack_top
