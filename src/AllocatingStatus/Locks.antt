-- ===== src/AllocatingStatus/Locks.antt =====
-- src_light/allocatingstatus.{h,cpp}: what a thread notes of the locks and system calls inside one
-- allocation function: sums by lock type and by system call, and a queue with a cell for each lock.
pub mod Agreement
use mem_perf_pro.Base.{ℕ, zero, suc, ◌+◌, ◌-◌, ltb, if◌then◌else◌, add_32, add_64, update}
use mem_perf_pro.Structs.{DetailLockData, SystemCallData, add_one_system_call}

abbrev pub length_of_queue : ℕ
length_of_queue = 1000

-- OverviewLockDataInAllocatingStatus
pub record OverviewCounts : Type 0 where
  pub num_of_locks : ℕ
  pub num_of_calls : ℕ
  pub num_of_calls_with_contentions : ℕ
  pub cycles : ℕ

-- DetailLockDataInAllocatingStatus; the address of the lock data is that of a DetailLockData
pub record QueueCell : Type 0 where
  pub num_of_calls : ℕ
  pub num_of_calls_with_contentions : ℕ
  pub cycles : ℕ
  pub address_of_hash_lock_data : ℕ

-- `next` is queueTail + 1, the number of cells in use: queueTail is -1 for the empty queue.
pub record LockQueue : Type 0 where
  pub next : ℕ
  pub queue : ℕ → QueueCell

-- writingNewDataInTheQueue: a full queue stays as it is
unfoldable pub writing_new_data_in_the_queue : LockQueue → ℕ → LockQueue
writing_new_data_in_the_queue q address =
    if ltb q.next length_of_queue
    then record {
      next = q.next + 1;
      queue =
          update q.queue q.next (record (q.queue q.next) { address_of_hash_lock_data = address });
    }
    else q

-- The cell at queueTail, of a queue that is not empty.
unfoldable pub add_a_contention : LockQueue → LockQueue
add_a_contention q =
    let cell = q.queue (q.next - 1) in
    record q {
      queue = update q.queue (q.next - 1) (record cell {
        num_of_calls_with_contentions = add_32 cell.num_of_calls_with_contentions 1;
      });
    }

unfoldable pub add_call_and_cycles : LockQueue → ℕ → ℕ → LockQueue
add_call_and_cycles q num_of_calls cycles =
    let cell = q.queue (q.next - 1) in
    record q {
      queue = update q.queue (q.next - 1) (record cell {
        num_of_calls = add_32 cell.num_of_calls num_of_calls;
        cycles = add_64 cell.cycles cycles;
      });
    }

abbrev empty_cell : QueueCell
empty_cell = record {
  num_of_calls = 0;
  num_of_calls_with_contentions = 0;
  cycles = 0;
  address_of_hash_lock_data = 0;
}

-- `memset` of the cells in use, and queueTail = -1
unfoldable pub clean_up_queue : LockQueue → LockQueue
clean_up_queue q = record { next = 0; queue = λ i. if ltb i q.next then empty_cell else q.queue i }

-- writingIntoAddress, for the allocation type of the call
unfoldable pub writing_into_address : ℕ → QueueCell → DetailLockData → DetailLockData
writing_into_address allocation_type cell d = record d {
  num_of_calls =
      update d.num_of_calls allocation_type
        (add_32 (d.num_of_calls allocation_type) cell.num_of_calls);
  num_of_calls_with_contentions =
      update d.num_of_calls_with_contentions allocation_type (
        add_32 (d.num_of_calls_with_contentions allocation_type)
          cell.num_of_calls_with_contentions);
  cycles = update d.cycles allocation_type (add_64 (d.cycles allocation_type) cell.cycles);
}

-- The loop of writingIntoHashTable on the lock data, which `locks` gives by address.
unfoldable pub write_cells : ℕ → LockQueue → ℕ → ℕ → (ℕ → DetailLockData) → ℕ → DetailLockData
write_cells allocation_type q zero index locks = locks
write_cells allocation_type q (suc left) index locks =
    let cell = q.queue index in
    let address = cell.address_of_hash_lock_data in
    write_cells allocation_type q left (index + 1)
      (update locks address (writing_into_address allocation_type cell (locks address)))

unfoldable pub writing_into_hash_table : ℕ → LockQueue → (ℕ → DetailLockData) → ℕ → DetailLockData
unfolding write_cells
writing_into_hash_table allocation_type q locks = write_cells allocation_type q q.next 0 locks

-- what a thread notes: `overview` by lock type, `system_calls` by type of system call
pub record LockNotes : Type 0 where
  pub now_running_lock_type : ℕ
  pub lock_queue : LockQueue
  pub overview : ℕ → OverviewCounts
  pub system_calls : ℕ → SystemCallData

unfoldable pub add_one_syscall_to_syscall_data : LockNotes → ℕ → ℕ → LockNotes
add_one_syscall_to_syscall_data n system_call_type cycles = record n {
  system_calls =
      update n.system_calls system_call_type
        (add_one_system_call (n.system_calls system_call_type) cycles);
}

unfoldable pub record_a_new_lock : LockNotes → ℕ → LockNotes
record_a_new_lock n lock_type =
    let o = n.overview lock_type in
    record n {
      overview = update n.overview lock_type (record o { num_of_locks = add_32 o.num_of_locks 1 });
    }

unfoldable pub init_for_writing_one_lock_data : LockNotes → ℕ → ℕ → LockNotes
unfolding writing_new_data_in_the_queue
init_for_writing_one_lock_data n lock_type address = record n {
  now_running_lock_type = lock_type;
  lock_queue = writing_new_data_in_the_queue n.lock_queue address;
}

unfoldable pub record_a_lock_contention : LockNotes → LockNotes
unfolding add_a_contention
record_a_lock_contention n =
    let o = n.overview n.now_running_lock_type in
    record n {
      overview =
          update n.overview n.now_running_lock_type
            (record o { num_of_calls_with_contentions = add_32 o.num_of_calls_with_contentions 1 });
      lock_queue = add_a_contention n.lock_queue;
    }

unfoldable pub record_lock_call_and_cycles : LockNotes → ℕ → ℕ → LockNotes
unfolding add_call_and_cycles
record_lock_call_and_cycles n num_of_calls cycles =
    let o = n.overview n.now_running_lock_type in
    record n {
      overview = update n.overview n.now_running_lock_type (record o {
        num_of_calls = add_32 o.num_of_calls num_of_calls;
        cycles = add_64 o.cycles cycles;
      });
      lock_queue = add_call_and_cycles n.lock_queue num_of_calls cycles;
    }
