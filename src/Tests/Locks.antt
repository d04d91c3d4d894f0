-- ===== src/Tests/Locks.antt =====
-- The table of locks of a thread goes into the one of all threads, at a concrete input.
use mem_perf_pro.Base.{ℕ, ◌<◌, ◌≡◌, refl, some, List, [], inr, length, suc, arith}
use mem_perf_pro.HashFuncs.{hash_addr, compare_addr}
use mem_perf_pro.HashMap.{
  initialize, initialize_buckets, initialize_bucket, insert, insert_entry, create_new_entry,
  hash_index,
}
use mem_perf_pro.HashMap.Represents.{Holds, pairs}
use mem_perf_pro.HashMap.Initialize.{initialize-Holds}
use mem_perf_pro.HashMap.Operations.{HasRoom, with_pair, insert-Holds}
use mem_perf_pro.HashMap.Iterator.{begin, entries_from}
use mem_perf_pro.HashMap.Iterator.Every.{joined, entries_from-every}
use mem_perf_pro.Structs.{DetailLockData, spin}
use mem_perf_pro.GlobalStatus.LockTable.{LockTable, globalize_lock_usage}
use mem_perf_pro.GlobalStatus.LockTable.Summed.{Locks, Summed, globalize_lock_usage-Summed}
use mem_perf_pro.Tests.Maps.{memory}
use mem_perf_pro.Tests.EntryPoints.{no_locks}

abbrev start : LockTable
start = record no_locks { memory = memory }

-- four buckets, all of them empty
abbrev empty : LockTable
empty = initialize start 0x20_0000 4

empty-IsEmpty : Holds empty (λ i. []) × (empty.buckets_total ≡ 4) × (empty.memory ≡ start.memory)
empty-IsEmpty = initialize-Holds start 0x20_0000 4 (inr (omega arith))

-- seven calls of type 2 that took 900 cycles
abbrev some_calls : DetailLockData
some_calls = record {
  lock_type = spin;
  num_of_calls = λ i. 7;
  num_of_calls_with_contentions = λ i. 1;
  cycles = λ i. 900;
}

abbrev lock_usage : LockTable
lock_usage = (insert hash_addr compare_addr 32 empty 0x1180 some_calls).0

empty-HasRoom : HasRoom 32 empty
empty-HasRoom = record {
  buckets = omega (arith, empty-IsEmpty.1);
  entry = omega arith;
  room = rw empty-IsEmpty.2 (omega arith);
  end = rw empty-IsEmpty.2 (omega arith);
}

abbrev mine : Locks
mine = with_pair (λ i. []) (hash_index hash_addr compare_addr empty 0x1180) 0x1180 some_calls

lock_usage-Holds : Holds lock_usage mine
lock_usage-Holds =
    insert-Holds hash_addr compare_addr 32 empty (λ i. []) 0x1180 some_calls empty-IsEmpty.0
      empty-HasRoom

few_locks : (i : ℕ) → length (mine i) < 0x1_0000
few_locks i = ground arith

one_lock : length (joined mine lock_usage.buckets_total 0) ≡ 1
unfolding insert insert_entry create_new_entry initialize initialize_buckets initialize_bucket
    hash_index
one_lock = refl

entries_from-every_example :
    (entries : List ℕ) × (entries_from
        (suc (length (joined mine lock_usage.buckets_total 0)))
        lock_usage
        (begin lock_usage)
      ≡ some entries)
    × (pairs lock_usage entries ≡ joined mine lock_usage.buckets_total 0)
entries_from-every_example =
    entries_from-every lock_usage mine lock_usage-Holds (λ i lt. few_locks i)

globalize_lock_usage-Summed_example :
    (global' : LockTable) × (globalize_lock_usage
        (suc (length (joined mine lock_usage.buckets_total 0)))
        32
        lock_usage
        empty
      ≡ some global')
    × Summed 32 lock_usage empty mine (λ i. []) global'
globalize_lock_usage-Summed_example =
    globalize_lock_usage-Summed 32 lock_usage empty mine (λ i. []) lock_usage-Holds
      (λ i lt. few_locks i)
      (record {
        holds = empty-IsEmpty.0;
        few = λ i. omega (arith, one_lock);
        buckets = omega (arith, empty-IsEmpty.1);
        entry = omega arith;
        room = rw (one_lock, empty-IsEmpty.2) (omega arith);
        end = rw empty-IsEmpty.2 (omega arith);
      })
