-- ===== src/Spinlock/Threads.antt =====
-- src_light/spinlock.hh: threads that take and leave the lock, in any interleaving of their atomic
-- operations.
use mem_perf_pro.Base.{ℕ, ◌≡◌, Bool, true, false, if◌then◌else◌, ◌==◌}
use mem_perf_pro.Spinlock.{lock_round, unlock, init}

-- Where a thread is: not at the lock, in the loop of lock(), or between lock() and unlock().
pub data Place : Type 0 where
  away : Place
  spinning : Place
  inside : Place

pub record Threads : Type 0 where
  pub lock_value : Bool
  pub place : ℕ → Place

abbrev pub moved : Threads → ℕ → Place → Bool → Threads
moved s i p value = record { lock_value = value; place = λ j. if j == i then p else s.place j }

abbrev pub start : Threads
start = record { lock_value = init; place = λ i. away }

-- A thread calls lock(); it makes a round that fails, or one that ends the loop; it calls unlock().
pub data Step (s : Threads) : Threads → Type 0 where
  calls : (i : ℕ) → s.place i ≡ away → Step s (moved s i spinning s.lock_value)
  spins :
      (i : ℕ)
      → s.place i ≡ spinning
      → (lock_round s.lock_value).1 ≡ false
      → Step s (moved s i spinning (lock_round s.lock_value).0)
  enters :
      (i : ℕ)
      → s.place i ≡ spinning
      → (lock_round s.lock_value).1 ≡ true
      → Step s (moved s i inside (lock_round s.lock_value).0)
  leaves : (i : ℕ) → s.place i ≡ inside → Step s (moved s i away (unlock s.lock_value))

pub data Reach (s : Threads) : Threads → Type 0 where
  here : Reach s s
  next : {t u : Threads} → Reach s t → Step t u → Reach s u
