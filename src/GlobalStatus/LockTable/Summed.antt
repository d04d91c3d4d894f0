-- ===== src/GlobalStatus/LockTable/Summed.antt =====
-- The table of locks of all threads holds the sum for each lock.
use mem_perf_pro.Base.{
  ℕ, suc, ◌<◌, ◌≡◌, refl, sym, ap, subst, ◌∙◌, Option, none, some, Option-cases, inl, inr, List, [],
  ◌∷◌, length, update, fun_ext, ltb, leb, ◌&&◌, ◌+◌, ◌%◌, add_32, add_64, arith, if◌then◌else◌,
  ◌==◌, ==→eq, Bool-cases,
}
use mem_perf_pro.HashFuncs.{hash_addr, compare_addr}
use mem_perf_pro.HashMap.{find, insert, store}
use mem_perf_pro.HashMap.Represents.{pairs, Holds, length-pairs}
use mem_perf_pro.HashMap.Operations.{with_pair}
use mem_perf_pro.HashMap.Store.{replace}
use mem_perf_pro.HashMap.Iterator.Every.{joined, entries_from-every}
use mem_perf_pro.HashMap.Change.{
  HasSpaceFor, Changed, slot, view, found-view, insert-Changed, store-Changed,
}
use mem_perf_pro.Structs.{DetailLockData, add_detail_lock_data, add_cells, num_of_allocation_types}
use mem_perf_pro.Structs.Sums.{add_cells-cell}
use mem_perf_pro.GlobalStatus.LockTable.{
  LockTable, globalize_lock, globalize_entries, globalize_lock_usage,
}

abbrev pub Locks : Type 0
Locks = ℕ → List (ℕ × DetailLockData)

-- the sums of two arrays for the 24 allocation types, in so many bits
abbrev pub sums : ℕ → (ℕ → ℕ) → (ℕ → ℕ) → ℕ → ℕ
sums modulus old new i = if ltb i 24 then (old i + new i) % modulus else old i

-- The data of a lock with those of another thread: each cell is the sum, and the type is the last one
-- that was noted.
abbrev pub together : DetailLockData → DetailLockData → DetailLockData
together d new = record {
  lock_type = new.lock_type;
  num_of_calls = sums 0x1_0000_0000 d.num_of_calls new.num_of_calls;
  num_of_calls_with_contentions =
      sums 0x1_0000_0000 d.num_of_calls_with_contentions new.num_of_calls_with_contentions;
  cycles = sums 0x1_0000_0000_0000_0000 d.cycles new.cycles;
}

from_0 :
    {A : Type 0} (j : ℕ) (x y : A)
    → (if leb 0 j && ltb j 24 then x else y) ≡ (if ltb j 24 then x else y)
from_0 j x y = ground arith

add_detail_lock_data-together :
    (d new : DetailLockData) → add_detail_lock_data d new ≡ together d new
unfolding add_detail_lock_data
add_detail_lock_data-together d new =
    let cell : (plus : ℕ → ℕ → ℕ) (a b : ℕ → ℕ) (j : ℕ)
        → add_cells plus num_of_allocation_types 0 a b j
          ≡ (if ltb j 24 then plus (a j) (b j) else a j) =
      λ plus a b j.
        add_cells-cell plus num_of_allocation_types 0 a b j ∙ from_0 j (plus (a j) (b j)) (a j) in
    λ i. record {
      lock_type = new.lock_type;
      num_of_calls = fun_ext (λ j. cell (λ a b. add_32 a b) d.num_of_calls new.num_of_calls j) i;
      num_of_calls_with_contentions =
          fun_ext
            (λ j.
              cell (λ a b. add_32 a b) d.num_of_calls_with_contentions
                new.num_of_calls_with_contentions j)
            i;
      cycles = fun_ext (λ j. cell (λ a b. add_64 a b) d.cycles new.cycles j) i;
    }

-- what a lock has with more data
abbrev pub with_data : Option DetailLockData → DetailLockData → DetailLockData
with_data none new = new
with_data (some d) new = together d new

-- what a lock has behind some pairs of lock and data
abbrev pub with_pairs :
    ℕ → List (ℕ × DetailLockData) → Option DetailLockData → Option DetailLockData
with_pairs address [] o = o
with_pairs address ((k, d) ∷ rest) o =
    with_pairs address rest (if address == k then some (with_data o d) else o)

module _ (entry_size count : ℕ) (global : LockTable) (contents : Locks) (address : ℕ)
    (new : DetailLockData) (space : HasSpaceFor entry_size (suc count) global contents) where
  abbrev old : Option DetailLockData
  old = view global.buckets_total contents address

  abbrev Gives : LockTable → Locks → DetailLockData → Type 0
  Gives t after value = Changed entry_size count global t contents after address value

  globalize_lock-new :
      find hash_addr compare_addr global address ≡ none
      → globalize_lock entry_size global address new
        ≡ (insert hash_addr compare_addr entry_size global address new).0
  unfolding globalize_lock insert
  globalize_lock-new e = rw (globalize_lock, e) refl

  globalize_lock-old :
      (entry : ℕ)
      → find hash_addr compare_addr global address ≡ some entry
      → globalize_lock entry_size global address new
        ≡ store global entry (together (global.value entry) new)
  unfolding globalize_lock store
  globalize_lock-old entry e =
      rw (globalize_lock, e)
        (ap (store global entry) (add_detail_lock_data-together (global.value entry) new))

  globalize_lock-Changed :
      (after : Locks) × Gives
        (globalize_lock entry_size global address new)
        after
        (with_data old new)
  globalize_lock-Changed =
      let i = slot global.buckets_total address in
      let is = found-view entry_size count global contents address new space in
      elim (Option-cases (find hash_addr compare_addr global address)) [
        | inl missing ↦
            let nothing : old ≡ none = sym (rw missing at is) in
            let after = with_pair contents i address new in
            (
              after,
              subst (λ t. Gives t after (with_data old new)) (sym (globalize_lock-new missing))
                  (subst
                    (λ o.
                      Gives (insert hash_addr compare_addr entry_size global address new).0 after
                        (with_data o new))
                    (sym nothing)
                    (insert-Changed entry_size count global contents address new space nothing)),
            )
        | inr (entry, hit) ↦
            let value : old ≡ some (global.value entry) = sym (rw hit at is) in
            let sum = together (global.value entry) new in
            let after : Locks = update contents i (replace compare_addr address sum (contents i)) in
            (
              after,
              subst (λ t. Gives t after (with_data old new)) (sym (globalize_lock-old entry hit))
                  (subst (λ o. Gives (store global entry sum) after (with_data o new)) (sym value)
                    (store-Changed entry_size count global contents address sum space entry
                      (global.value entry) hit value)),
            )
      ]

same_data :
    (address k : ℕ) (d : DetailLockData) (data_of : ℕ → Option DetailLockData)
    → (if address == k then some (with_data (data_of k) d) else data_of address)
      ≡ (if address == k then some (with_data (data_of address) d) else data_of address)
same_data address k d data_of = elim (Bool-cases (address == k)) [
  | inl e ↦ rw (e, ==→eq address k e) refl
  | inr e ↦ rw e refl
]

-- the pairs of a table go into the other one
globalize_entries-Summed :
    (entry_size : ℕ) (lock_usage : LockTable) (entries : List ℕ) (global : LockTable)
    (contents : Locks)
    → HasSpaceFor entry_size (length entries) global contents
    → (after : Locks) × Holds (globalize_entries entry_size lock_usage global entries) after
      × ((address : ℕ)
          → view global.buckets_total after address
            ≡ with_pairs address
                (pairs lock_usage entries)
                (view global.buckets_total contents address))
unfolding globalize_entries
globalize_entries-Summed entry_size lock_usage [] global contents space =
    (contents, space.holds, λ address. refl)
globalize_entries-Summed entry_size lock_usage (entry ∷ entries) global contents space =
    let k = lock_usage.key entry in
    let d = lock_usage.value entry in
    let (middle, changed) =
      globalize_lock-Changed entry_size (length entries) global contents k d space in
    let (after, holds, values) =
      globalize_entries-Summed entry_size lock_usage entries (globalize_lock entry_size global k d)
        middle changed.space in
    let all = pairs lock_usage entries in
    (
      after,
      holds,
      λ address.
          subst (λ n. view n after address ≡ with_pairs address all (view n middle address))
            changed.total (values address)
          ∙ ap (with_pairs address all) (
              changed.values address
              ∙ same_data address k d (λ a. view global.buckets_total contents a)),
    )

module _ (entry_size : ℕ) (lock_usage global : LockTable) (mine contents : Locks) where
  -- the locks of the thread, bucket by bucket
  abbrev pub locks_of_thread : List (ℕ × DetailLockData)
  locks_of_thread = joined mine lock_usage.buckets_total 0

  -- What the table of all threads holds behind globalize.
  pub record Summed (global' : LockTable) : Type 0 where
    pub after : Locks
    pub holds : Holds global' after
    pub values :
        (address : ℕ)
        → view global.buckets_total after address
          ≡ with_pairs address locks_of_thread (view global.buckets_total contents address)

  -- globalize adds, cell by cell and modulo the width of the cell, to the data of each lock in the
  -- table of all threads what the thread has noted of it and takes the type of lock from there, enters the locks that are new, and leaves the others, when the buckets of the thread have
  -- fewer than 65536 locks and there is space for its locks in the table of all threads. The loop
  -- over the locks ends; a round for every lock and one more are enough.
  pub globalize_lock_usage-Summed :
      Holds lock_usage mine
      → ((i : ℕ) → i < lock_usage.buckets_total → length (mine i) < 0x1_0000)
      → HasSpaceFor entry_size (length locks_of_thread) global contents
      → (global' : LockTable) × (globalize_lock_usage
            (suc (length locks_of_thread))
            entry_size
            lock_usage
            global
          ≡ some global')
        × Summed global'
  unfolding globalize_lock_usage globalize_entries
  globalize_lock_usage-Summed h small space =
      let (entries, every, are) = entries_from-every lock_usage mine h small in
      let count : length locks_of_thread ≡ length entries =
        ap (λ (l : List (ℕ × DetailLockData)). length l) (sym are)
        ∙ length-pairs lock_usage entries in
      let (after, holds, values) =
        globalize_entries-Summed entry_size lock_usage entries global contents
          (subst (λ n. HasSpaceFor entry_size n global contents) count space) in
      (
        globalize_entries entry_size lock_usage global entries,
        rw (globalize_lock_usage, every) refl,
        record {
          after = after;
          holds = holds;
          values = λ address.
              subst
                (λ all.
                  view global.buckets_total after address
                  ≡ with_pairs address all (view global.buckets_total contents address))
                are (values address);
        },
      )
