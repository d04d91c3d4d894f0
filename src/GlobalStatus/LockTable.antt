-- ===== src/GlobalStatus/LockTable.antt =====
-- src_light/globalstatus.cpp: the part of globalize that puts the table of locks of a thread into
-- globalLockUsage, and the whole of globalize. Both are maps by the address of the lock.
pub mod Summed
use mem_perf_pro.Base.{ℕ, Option, none, some, List, [], ◌∷◌}
use mem_perf_pro.HashFuncs.{hash_addr, compare_addr}
use mem_perf_pro.HashMap.{HashMap, find, insert, store}
use mem_perf_pro.HashMap.Iterator.{begin, entries_from}
use mem_perf_pro.ThreadLocalStatus.{ThreadData}
use mem_perf_pro.GlobalStatus.{globalize_sums}
use mem_perf_pro.Structs.{DetailLockData, add_detail_lock_data}

abbrev pub LockTable : Type 0
LockTable = HashMap ℕ DetailLockData

-- the body of the loop; `entry_size` is the size of an entry of the table
unfoldable pub globalize_lock : ℕ → LockTable → ℕ → DetailLockData → LockTable
unfolding add_detail_lock_data
globalize_lock entry_size global address_of_lock new =
    elim (find hash_addr compare_addr global address_of_lock) [
      | none ↦ (insert hash_addr compare_addr entry_size global address_of_lock new).0
      | some entry ↦ store global entry (add_detail_lock_data (global.value entry) new)
    ]

unfoldable pub globalize_entries : ℕ → LockTable → LockTable → List ℕ → LockTable
unfolding globalize_lock
globalize_entries entry_size lock_usage global [] = global
globalize_entries entry_size lock_usage global (entry ∷ entries) =
    globalize_entries entry_size lock_usage
      (globalize_lock entry_size global (lock_usage.key entry) (lock_usage.value entry)) entries

-- `for(auto entryInHashTable: lockUsage)`, nothing when the fuel runs out
unfoldable pub globalize_lock_usage : ℕ → ℕ → LockTable → LockTable → Option LockTable
unfolding globalize_entries
globalize_lock_usage fuel entry_size lock_usage global =
    elim (entries_from fuel lock_usage (begin lock_usage)) [
      | none ↦ none
      | some entries ↦ some (globalize_entries entry_size lock_usage global entries)
    ]

-- the data of a thread, or of all threads
pub record Global : Type 0 where
  pub thread_data : ThreadData
  pub lock_usage : LockTable

-- The sums and the table of locks; the two parts do not touch each other.
unfoldable pub globalize : ℕ → ℕ → Global → Global → Option Global
unfolding globalize_lock_usage
globalize fuel entry_size global thread =
    elim (globalize_lock_usage fuel entry_size thread.lock_usage global.lock_usage) [
      | none ↦ none
      | some lock_usage ↦ some (record {
        thread_data = globalize_sums global.thread_data thread.thread_data;
        lock_usage = lock_usage;
      })
    ]
