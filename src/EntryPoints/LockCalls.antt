-- ===== src/EntryPoints/LockCalls.antt =====
-- src_light/libmallocprof.cpp: the lock functions, which are noted inside a sampled allocation
-- function. `start` and `stop` are what rdtscp gives around the real function, `result` what that
-- returns.
pub mod Agreement
use mem_perf_pro.Base.{
  ℕ, Bool, true, false, not, ◌&&◌, ◌||◌, Option, none, some, ◌==◌, if◌then◌else◌, sub_64,
}
use mem_perf_pro.HashFuncs.{hash_addr, compare_addr}
use mem_perf_pro.HashMap.{with_memory, find, insert}
use mem_perf_pro.Structs.{LockTypes, mutex, spin, mutextry, spintry, new_detail_lock_data}
use mem_perf_pro.AllocatingStatus.Calls.{Thread}
use mem_perf_pro.AllocatingStatus.Locks.{
  LockNotes, record_a_new_lock, init_for_writing_one_lock_data, record_a_lock_contention,
  record_lock_call_and_cycles,
}

-- the value of the enumerator
abbrev pub of_lock_type : LockTypes → ℕ
of_lock_type mutex = 0
of_lock_type spin = 1
of_lock_type mutextry = 2
of_lock_type spintry = 3

abbrev pub outside_tracked_allocation : Thread → Bool
outside_tracked_allocation t = not t.status.allocating_type.doing_allocation

-- `outsideTrackedAllocation() || !sampledForCountingEvent`
abbrev pub not_noted : Thread → Bool
not_noted t = outside_tracked_allocation t || not t.status.sampled_for_counting_event

abbrev pub with_notes : Thread → LockNotes → Thread
with_notes t n = record t { lock_notes = n }

-- The lock data of the address, new if there are none, get the next cell of the queue. A new entry
-- comes out of the hash memory that the table of objects uses too.
unfoldable pub note_lock : ℕ → LockTypes → ℕ → Thread → Thread
unfolding new_detail_lock_data
note_lock entry_size type address t = elim (find hash_addr compare_addr t.lock_usage address) [
  | some detail_lock_data ↦
      with_notes t
        (init_for_writing_one_lock_data t.lock_notes (of_lock_type type) detail_lock_data)
  | none ↦
      let (lock_usage, detail_lock_data) =
        insert hash_addr compare_addr entry_size (with_memory t.lock_usage t.status.table.memory)
          address (new_detail_lock_data type) in
      with_notes
        (record t {
          lock_usage = lock_usage;
          status = record t.status { table = with_memory t.status.table lock_usage.memory };
        })
        (init_for_writing_one_lock_data (record_a_new_lock t.lock_notes (of_lock_type type))
          (of_lock_type type) detail_lock_data)
]

abbrev pub contention_if : Bool → LockNotes → LockNotes
contention_if contended n = if contended then record_a_lock_contention n else n

-- the contention is noted before the real function, or behind it by its result: the notes are the
-- same
abbrev pub noted : ℕ → LockTypes → ℕ → Bool → ℕ → ℕ → Thread → Thread
noted entry_size type address contended start stop t =
    let t' = note_lock entry_size type address t in
    with_notes t'
      (record_lock_call_and_cycles (contention_if contended t'.lock_notes) 1 (sub_64 stop start))

-- `lock_word` is mutex->__data.__lock
unfoldable pub pthread_mutex_lock : ℕ → ℕ → ℕ → ℕ → ℕ → ℕ → Thread → Thread × ℕ
pthread_mutex_lock entry_size address lock_word start stop result t =
    if not_noted t
    then (t, result)
    else (noted entry_size mutex address (not (lock_word == 0)) start stop t, result)

-- `lock_word` is *lock
unfoldable pub pthread_spin_lock : ℕ → ℕ → ℕ → ℕ → ℕ → ℕ → Thread → Thread × ℕ
pthread_spin_lock entry_size address lock_word start stop result t =
    if not_noted t
    then (t, result)
    else (noted entry_size spin address (not (lock_word == 1)) start stop t, result)

unfoldable pub pthread_spin_trylock : ℕ → ℕ → ℕ → ℕ → ℕ → Thread → Thread × ℕ
pthread_spin_trylock entry_size address start stop result t =
    if not_noted t
    then (t, result)
    else (noted entry_size spintry address (not (result == 0)) start stop t, result)

unfoldable pub pthread_mutex_trylock : ℕ → ℕ → ℕ → ℕ → ℕ → Thread → Thread × ℕ
pthread_mutex_trylock entry_size address start stop result t =
    if not_noted t
    then (t, result)
    else (noted entry_size mutextry address (not (result == 0)) start stop t, result)

-- Both unlock functions return what the real ones do, on either branch of their test.
unfoldable pub pthread_unlock : ℕ → Thread → Thread × ℕ
pthread_unlock result t = (t, result)
