-- ===== src/AllocatingStatus/Calls.antt =====
-- src_light/allocatingstatus.cpp: what is added to the data of the thread and to the predictor
-- behind the real function.
pub mod Added
use mem_perf_pro.Base.{
  ℕ, ◌+◌, Bool, true, false, leb, ◌==◌, if◌then◌else◌, add_32, add_64, update, update_each,
}
use mem_perf_pro.Structs.{
  SystemCallData, add_system_calls, OverviewLockData, DetailLockData, FriendlinessStatus,
}
use mem_perf_pro.ThreadLocalStatus.{ThreadData}
use mem_perf_pro.GlobalStatus.{num_of_lock_types, num_of_system_call_types}
use mem_perf_pro.HashMap.{HashMap}
use mem_perf_pro.Predictor.{Stage}
use mem_perf_pro.AllocatingStatus.{ObjectSizeType}
use mem_perf_pro.AllocatingStatus.Types.{
  type_for_output, type_for_prediction, type_for_prediction_raw, get_object_size_type,
  get_object_size_type_for_prediction,
}
use mem_perf_pro.AllocatingStatus.Memory.{Status}
use mem_perf_pro.AllocatingStatus.Locks.{
  OverviewCounts, LockQueue, LockNotes, writing_into_hash_table, clean_up_queue,
}

-- the sizes that the info file gives, for the running allocator and for the one of the prediction,
-- and the cycles of the functions of the latter
pub record Info : Type 0 where
  pub middle_object_threshold : ℕ
  pub large_object_threshold : ℕ
  pub replaced_middle : ℕ
  pub replaced_large : ℕ
  pub replaced_function_cycles : ℕ → ℕ

-- The thread: the notes of Memory and Locks, the classes and numbers of the call, its counters and
-- its stage. `lock_usage` is its table of lock data.
pub record Thread : Type 0 where
  pub status : Status
  pub first_allocation : Bool
  pub object_size_type : ObjectSizeType
  pub object_size_type_for_prediction : ObjectSizeType
  pub allocation_type_for_output_data : ℕ
  pub allocation_type_for_prediction : ℕ
  pub lock_notes : LockNotes
  pub lock_usage : HashMap ℕ DetailLockData
  pub thread_data : ThreadData
  pub stage : Stage

unfoldable pub is_first_function : Thread → Thread × Bool
is_first_function t =
    if t.first_allocation then (t, false) else (record t { first_allocation = true }, true)

unfoldable pub add_overview_of_a_type : ℕ → OverviewCounts → OverviewLockData → OverviewLockData
add_overview_of_a_type type o d = record {
  num_of_locks = add_32 d.num_of_locks o.num_of_locks;
  num_of_calls = update d.num_of_calls type (add_32 (d.num_of_calls type) o.num_of_calls);
  num_of_calls_with_contentions =
      update d.num_of_calls_with_contentions type
        (add_32 (d.num_of_calls_with_contentions type) o.num_of_calls_with_contentions);
  total_cycles = update d.total_cycles type (add_64 (d.total_cycles type) o.cycles);
}

unfoldable pub add_up_overview_lock_data_to_thread_local_data :
    ℕ → LockNotes → ThreadData → ThreadData
unfolding add_overview_of_a_type
add_up_overview_lock_data_to_thread_local_data type n d = record d {
  overview_lock_data =
      update_each (λ lock_type. add_overview_of_a_type type (n.overview lock_type))
        num_of_lock_types 0 d.overview_lock_data;
}

unfoldable pub add_syscalls_of_a_type :
    ℕ → SystemCallData → (ℕ → SystemCallData) → ℕ → SystemCallData
add_syscalls_of_a_type type new cells = update cells type (add_system_calls (cells type) new)

unfoldable pub add_up_syscalls_info_to_thread_local_data : ℕ → LockNotes → ThreadData → ThreadData
unfolding add_syscalls_of_a_type
add_up_syscalls_info_to_thread_local_data type n d = record d {
  system_call_data =
      update_each (λ syscall_type. add_syscalls_of_a_type type (n.system_calls syscall_type))
        num_of_system_call_types 0 d.system_call_data;
}

unfoldable pub add_up_counting_events_to_thread_local_data : ℕ → ℕ → ThreadData → ThreadData
add_up_counting_events_to_thread_local_data type cycles_in_real_function d = record d {
  num_of_sampled_counting_functions =
      update d.num_of_sampled_counting_functions type
        (add_32 (d.num_of_sampled_counting_functions type) 1);
  cycles = update d.cycles type (add_64 (d.cycles type) cycles_in_real_function);
}

abbrev pub no_overview : OverviewCounts
no_overview = record {
  num_of_locks = 0;
  num_of_calls = 0;
  num_of_calls_with_contentions = 0;
  cycles = 0;
}

abbrev pub no_system_calls : SystemCallData
no_system_calls = record { num = 0; cycles = 0 }

unfoldable pub clean_lock_functions_info_in_allocating_status : LockNotes → LockNotes
clean_lock_functions_info_in_allocating_status n = record n {
  overview = λ i. if leb num_of_lock_types i then n.overview i else no_overview;
  lock_queue = clean_up_queue n.lock_queue;
}

-- `memset` of systemCallData
unfoldable pub clean_system_calls : LockNotes → LockNotes
clean_system_calls n = record n {
  system_calls = λ i. if leb num_of_system_call_types i then n.system_calls i else no_system_calls;
}

-- `parallel` is isCurrentlyParallelThread()
unfoldable pub set_allocation_type_for_output_data : Bool → Thread → Thread
set_allocation_type_for_output_data parallel t = record t {
  allocation_type_for_output_data =
      type_for_output parallel t.status.allocating_type.allocating_function t.object_size_type
        t.status.allocating_type.is_reuse;
}

-- addUpOverviewLockDataToThreadLocalData, addUpDetailLockDataToHashTable and
-- addUpSyscallsInfoToThreadLocalData
unfoldable pub add_up_other_functions_info_to_thread_local_data : Thread → Thread
add_up_other_functions_info_to_thread_local_data t =
    let type = t.allocation_type_for_output_data in
    record t {
      thread_data =
          add_up_syscalls_info_to_thread_local_data type t.lock_notes
            (add_up_overview_lock_data_to_thread_local_data type t.lock_notes t.thread_data);
      lock_usage = record t.lock_usage {
        value = writing_into_hash_table type t.lock_notes.lock_queue t.lock_usage.value;
      };
    }

abbrev pub with_size_type : Info → Thread → Thread
with_size_type info t = record t {
  object_size_type =
      get_object_size_type info.middle_object_threshold info.large_object_threshold
        t.status.allocating_type.object_size;
}

abbrev pub counted : Thread → Thread
counted t = record t {
  thread_data =
      add_up_counting_events_to_thread_local_data t.allocation_type_for_output_data
        t.status.cycles_in_real_function t.thread_data;
}

abbrev pub cleaned : Thread → Thread
cleaned t = record t {
  lock_notes = clean_system_calls (clean_lock_functions_info_in_allocating_status t.lock_notes);
}

unfoldable pub update_allocating_info_to_thread_local_data : Info → Bool → Thread → Thread
unfolding set_allocation_type_for_output_data add_up_other_functions_info_to_thread_local_data
update_allocating_info_to_thread_local_data info parallel t =
    if t.status.sampled_for_counting_event
    then cleaned (
        counted (
          add_up_other_functions_info_to_thread_local_data
            (set_allocation_type_for_output_data parallel (with_size_type info t))))
    else t

-- the class and the number for the prediction
unfoldable pub set_allocation_type_for_prediction : Info → Bool → Thread → Thread
set_allocation_type_for_prediction info parallel t =
    let a = t.status.allocating_type in
    let predicted =
      get_object_size_type_for_prediction info.replaced_middle info.replaced_large
        info.middle_object_threshold info.large_object_threshold a.object_size in
    record t {
      object_size_type_for_prediction = predicted;
      allocation_type_for_prediction =
          if t.status.sampled_for_counting_event
          then type_for_prediction t.allocation_type_for_prediction
              t.allocation_type_for_output_data a.allocating_function t.object_size_type predicted
          else type_for_prediction_raw parallel a.allocating_function t.object_size_type predicted
              a.is_reuse;
    }

unfoldable pub update_allocating_info_to_predictor : Info → Bool → Thread → Thread
unfolding set_allocation_type_for_prediction
update_allocating_info_to_predictor info parallel t =
    let t' = set_allocation_type_for_prediction info parallel t in
    let type = t'.allocation_type_for_prediction in
    if info.replaced_function_cycles type == 0 then t' else record t' {
      stage = record t'.stage {
        num_of_functions =
            update t'.stage.num_of_functions type (add_32 (t'.stage.num_of_functions type) 1);
        total_function_cycles =
            add_64 t'.stage.total_function_cycles t'.status.cycles_in_real_function;
      };
    }
