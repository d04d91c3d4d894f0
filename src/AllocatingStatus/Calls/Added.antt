-- ===== src/AllocatingStatus/Calls/Added.antt =====
-- src_light/allocatingstatus.cpp: what one call adds to the counters of the thread, by cell.
use mem_perf_pro.Base.{
  ℕ, ◌<◌, ◌≡◌, refl, ◌⊎◌, inl, inr, Bool, true, false, ◌==◌, if◌then◌else◌, add_32, add_64,
  update_each-below, arith, Bool-cases, ap, ◌∙◌, sym, subst,
}
use mem_perf_pro.Structs.{OverviewLockData, SystemCallData, add_system_calls}
use mem_perf_pro.ThreadLocalStatus.{ThreadData}
use mem_perf_pro.GlobalStatus.{num_of_lock_types, num_of_system_call_types}
use mem_perf_pro.AllocatingStatus.Types.{type_for_output, get_object_size_type}
use mem_perf_pro.AllocatingStatus.Locks.{
  OverviewCounts, LockNotes, writing_into_hash_table, clean_up_queue,
}
use mem_perf_pro.AllocatingStatus.Calls.{
  Info, Thread, add_overview_of_a_type, add_up_overview_lock_data_to_thread_local_data,
  add_syscalls_of_a_type, add_up_syscalls_info_to_thread_local_data,
  add_up_counting_events_to_thread_local_data, clean_lock_functions_info_in_allocating_status,
  clean_system_calls, no_overview, no_system_calls, set_allocation_type_for_output_data,
  add_up_other_functions_info_to_thread_local_data, with_size_type, counted, cleaned,
  update_allocating_info_to_thread_local_data,
}

-- The number of the call in the output.
abbrev pub output_type : Info → Bool → Thread → ℕ
output_type info parallel t =
    let a = t.status.allocating_type in
    type_for_output parallel a.allocating_function
      (get_object_size_type info.middle_object_threshold info.large_object_threshold a.object_size)
      a.is_reuse

-- `new` is added to the cell of the type, by a sum of words.
abbrev pub plus_at : (ℕ → ℕ → ℕ) → ℕ → ℕ → (ℕ → ℕ) → ℕ → ℕ
plus_at plus type new cells j = if j == type then plus (cells j) new else cells j

-- What a thread has noted of locks of a type is in its counters, in the cell of the allocation type.
pub record OverviewAdded (type : ℕ) (o : OverviewCounts) (d d' : OverviewLockData) : Type 0 where
  pub locks : d'.num_of_locks ≡ add_32 d.num_of_locks o.num_of_locks
  pub calls :
      (j : ℕ) → d'.num_of_calls j ≡ plus_at (λ a b. add_32 a b) type o.num_of_calls d.num_of_calls j
  pub contended :
      (j : ℕ)
      → d'.num_of_calls_with_contentions j
        ≡ plus_at
            (λ a b. add_32 a b)
            type
            o.num_of_calls_with_contentions
            d.num_of_calls_with_contentions
            j
  pub cycles :
      (j : ℕ) → d'.total_cycles j ≡ plus_at (λ a b. add_64 a b) type o.cycles d.total_cycles j

add_overview_of_a_type-OverviewAdded :
    (type : ℕ) (o : OverviewCounts) (d : OverviewLockData)
    → OverviewAdded type o d (add_overview_of_a_type type o d)
unfolding add_overview_of_a_type
add_overview_of_a_type-OverviewAdded type o d = record {
  locks = refl;
  calls = λ j. ground arith;
  contended = λ j. ground arith;
  cycles = λ j. ground arith;
}

-- The counters of a sampled call, and the notes behind it.
pub record Added (info : Info) (parallel : Bool) (t t' : Thread) : Type 0 where
  pub number : t'.allocation_type_for_output_data ≡ output_type info parallel t
  pub calls :
      (j : ℕ)
      → t'.thread_data.num_of_sampled_counting_functions j
        ≡ plus_at
            (λ a b. add_32 a b)
            (output_type info parallel t)
            1
            t.thread_data.num_of_sampled_counting_functions
            j
  pub cycles :
      (j : ℕ)
      → t'.thread_data.cycles j
        ≡ plus_at
            (λ a b. add_64 a b)
            (output_type info parallel t)
            t.status.cycles_in_real_function
            t.thread_data.cycles
            j
  pub locks :
      (l : ℕ)
      → l < num_of_lock_types
      → OverviewAdded
          (output_type info parallel t)
          (t.lock_notes.overview l)
          (t.thread_data.overview_lock_data l)
          (t'.thread_data.overview_lock_data l)
  pub system_calls :
      (k j : ℕ)
      → k < num_of_system_call_types
      → t'.thread_data.system_call_data k j ≡ (
          if j == output_type info parallel t
          then add_system_calls (t.thread_data.system_call_data k j) (t.lock_notes.system_calls k)
          else t.thread_data.system_call_data k j)
  pub table :
      t'.lock_usage.value
      ≡ writing_into_hash_table
          (output_type info parallel t)
          t.lock_notes.lock_queue
          t.lock_usage.value
  pub clean_locks : (l : ℕ) → l < num_of_lock_types → t'.lock_notes.overview l ≡ no_overview
  pub clean_system_calls :
      (k : ℕ) → k < num_of_system_call_types → t'.lock_notes.system_calls k ≡ no_system_calls
  pub clean_queue : t'.lock_notes.lock_queue.next ≡ 0

overview-cell :
    (type : ℕ) (n : LockNotes) (d : ThreadData) (l : ℕ)
    → l < num_of_lock_types
    → (add_up_overview_lock_data_to_thread_local_data type n d).overview_lock_data l
      ≡ add_overview_of_a_type type (n.overview l) (d.overview_lock_data l)
unfolding add_up_overview_lock_data_to_thread_local_data
overview-cell type n d l below =
    update_each-below (λ lock_type. add_overview_of_a_type type (n.overview lock_type))
      num_of_lock_types d.overview_lock_data l below

syscalls-cell :
    (type : ℕ) (n : LockNotes) (d : ThreadData) (k : ℕ)
    → k < num_of_system_call_types
    → (add_up_syscalls_info_to_thread_local_data type n d).system_call_data k
      ≡ add_syscalls_of_a_type type (n.system_calls k) (d.system_call_data k)
unfolding add_up_syscalls_info_to_thread_local_data
syscalls-cell type n d k below =
    update_each-below (λ syscall_type. add_syscalls_of_a_type type (n.system_calls syscall_type))
      num_of_system_call_types d.system_call_data k below

add_syscalls_of_a_type-cell :
    (type : ℕ) (new : SystemCallData) (cells : ℕ → SystemCallData) (j : ℕ)
    → add_syscalls_of_a_type type new cells j
      ≡ (if j == type then add_system_calls (cells j) new else cells j)
unfolding add_syscalls_of_a_type
add_syscalls_of_a_type-cell type new cells j = ground arith

-- what a sampled call does
abbrev added : Info → Bool → Thread → Thread
added info parallel t = cleaned (
    counted (
      add_up_other_functions_info_to_thread_local_data
        (set_allocation_type_for_output_data parallel (with_size_type info t))))

added-Added :
    (info : Info) (parallel : Bool) (t : Thread) → Added info parallel t (added info parallel t)
unfolding set_allocation_type_for_output_data add_up_other_functions_info_to_thread_local_data
    add_up_counting_events_to_thread_local_data add_up_overview_lock_data_to_thread_local_data
    add_up_syscalls_info_to_thread_local_data clean_lock_functions_info_in_allocating_status
    clean_system_calls clean_up_queue
added-Added info parallel t =
    let type = output_type info parallel t in
    let n = t.lock_notes in
    record {
      number = refl;
      calls = λ j. ground arith;
      cycles = λ j. ground arith;
      locks = λ l below.
          subst (OverviewAdded type (n.overview l) (t.thread_data.overview_lock_data l))
            (sym (overview-cell type n t.thread_data l below))
            (add_overview_of_a_type-OverviewAdded type (n.overview l)
              (t.thread_data.overview_lock_data l));
      system_calls = λ k j below.
          ap (λ cells. cells j) (syscalls-cell type n t.thread_data k below)
          ∙ add_syscalls_of_a_type-cell type (n.system_calls k) (t.thread_data.system_call_data k)
              j;
      table = refl;
      clean_locks = λ l below. ground arith;
      clean_system_calls = λ k below. ground arith;
      clean_queue = refl;
    }

-- A sampled call counts in the cell of its number: one call with its cycles, and what the thread has
-- noted of each lock type and each system call; the queue goes into the table of locks, and the
-- notes are empty behind it. A call that is not sampled changes nothing.
pub update_allocating_info_to_thread_local_data-Added :
    (info : Info) (parallel : Bool) (t : Thread)
    → ((t.status.sampled_for_counting_event ≡ true)
        × Added info parallel t (update_allocating_info_to_thread_local_data info parallel t))
      ⊎ ((t.status.sampled_for_counting_event ≡ false)
          × (update_allocating_info_to_thread_local_data info parallel t ≡ t))
unfolding update_allocating_info_to_thread_local_data
update_allocating_info_to_thread_local_data-Added info parallel t =
    elim (Bool-cases t.status.sampled_for_counting_event) [
      | inl sampled ↦ inl (
        sampled,
        subst (λ b. Added info parallel t (if b then added info parallel t else t)) (sym sampled)
            (added-Added info parallel t),
      )
      | inr skipped ↦ inr (skipped, ap (λ b. if b then added info parallel t else t) skipped)
    ]
