-- ===== src/EntryPoints/LockCalls/Agreement.antt =====
-- src_light/libmallocprof.cpp: every lock function keeps the queue and the sums by lock type in
-- agreement.
use mem_perf_pro.Base.{ℕ, ◌<◌, Bool, true, false, Option-cases, inl, inr, arith, sub_64}
use mem_perf_pro.HashFuncs.{hash_addr, compare_addr}
use mem_perf_pro.HashMap.{find}
use mem_perf_pro.Structs.{LockTypes, mutex, spin, mutextry, spintry}
use mem_perf_pro.AllocatingStatus.Calls.{Thread}
use mem_perf_pro.AllocatingStatus.Locks.{LockNotes, record_lock_call_and_cycles}
use mem_perf_pro.AllocatingStatus.Locks.Agreement.{
  Agree, IsWriting, record_a_new_lock-Agree, init_for_writing_one_lock_data-Agree,
  record_a_lock_contention-Agree, record_a_lock_contention-IsWriting,
  record_lock_call_and_cycles-Agree,
}
use mem_perf_pro.EntryPoints.LockCalls.{of_lock_type, note_lock, contention_if, noted}

of_lock_type_lt : (type : LockTypes) → of_lock_type type < 4
of_lock_type_lt mutex = omega arith
of_lock_type_lt spin = omega arith
of_lock_type_lt mutextry = omega arith
of_lock_type_lt spintry = omega arith

note_lock-Agree :
    (entry_size : ℕ) (type : LockTypes) (address : ℕ) (t : Thread)
    → Agree t.lock_notes
    → Agree (note_lock entry_size type address t).lock_notes
      × IsWriting (note_lock entry_size type address t).lock_notes
unfolding note_lock
note_lock-Agree entry_size type address t a =
    elim (Option-cases (find hash_addr compare_addr t.lock_usage address)) [
      | inl missing ↦
          rw (missing, note_lock)
            (init_for_writing_one_lock_data-Agree _ (of_lock_type type) _ (of_lock_type_lt type)
              (record_a_new_lock-Agree t.lock_notes (of_lock_type type) (of_lock_type_lt type) a))
      | inr (entry, found) ↦
          rw (found, note_lock)
            (init_for_writing_one_lock_data-Agree t.lock_notes (of_lock_type type) entry
              (of_lock_type_lt type) a)
    ]

noted_from-Agree :
    (contended : Bool) (cycles : ℕ) (n : LockNotes)
    → IsWriting n
    → Agree n
    → Agree (record_lock_call_and_cycles (contention_if contended n) 1 cycles)
noted_from-Agree true cycles n w a =
    record_lock_call_and_cycles-Agree _ 1 cycles (record_a_lock_contention-IsWriting n w)
      (record_a_lock_contention-Agree n w a)
noted_from-Agree false cycles n w a = record_lock_call_and_cycles-Agree n 1 cycles w a

pub noted-Agree :
    (entry_size : ℕ) (type : LockTypes) (address : ℕ) (contended : Bool) (start stop : ℕ)
    → (t : Thread) → Agree t.lock_notes
    → Agree (noted entry_size type address contended start stop t).lock_notes
noted-Agree entry_size type address contended start stop t a =
    let (agree, writing) = note_lock-Agree entry_size type address t a in
    noted_from-Agree contended (sub_64 stop start) (note_lock entry_size type address t).lock_notes
      writing agree
