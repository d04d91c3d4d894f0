-- ===== src/Spinlock/Exclusion.antt =====
-- src_light/spinlock.hh: at most one thread is between lock() and unlock(), and none waits forever
-- for a lock that nobody holds.
use mem_perf_pro.Base.{◌⊎◌, ℕ, ◌≡◌, ◌≢◌, refl, true, Bool-cases, inl, inr, arith}
use mem_perf_pro.Spinlock.{lock_round, unlock, init}
use mem_perf_pro.Spinlock.Threads.{
  away, spinning, inside, Threads, moved, start, Step, calls, spins, enters, leaves, Reach, here,
  next,
}

-- The lock is taken exactly if a thread is inside, and then that is the only one.
pub record IsHeld (s : Threads) : Type 0 where
  pub alone : (i j : ℕ) → s.place i ≡ inside → s.place j ≡ inside → i ≡ j
  pub taken : (i : ℕ) → s.place i ≡ inside → s.lock_value ≡ true
  pub holder : s.lock_value ≡ true → (i : ℕ) × (s.place i ≡ inside)

Step-IsHeld : {s t : Threads} → Step s t → IsHeld s → IsHeld t
unfolding lock_round unlock
Step-IsHeld {s} (calls i e) h = record {
  alone = λ j k ej ek. ground (arith, h.alone j k);
  taken = λ j ej. ground (arith, h.taken j);
  holder = λ l. let (k, ek) = h.holder l in (k, ground arith);
}
Step-IsHeld {s} (spins i e failed) h = record {
  alone = λ j k ej ek. ground (arith, h.alone j k);
  taken = λ j ej. refl;
  holder = λ l. let (k, ek) = h.holder (ground arith) in (k, ground arith);
}
Step-IsHeld {s} (enters i e entered) h = record {
  alone = λ j k ej ek. ground (arith, h.taken j, h.taken k);
  taken = λ j ej. refl;
  holder = λ l. (i, ground arith);
}
Step-IsHeld {s} (leaves i e) h = record {
  alone = λ j k ej ek. ground (arith, h.alone j k);
  taken = λ j ej. ground (arith, h.alone j i);
  holder = λ l. absurd cc;
}

start-IsHeld : IsHeld start
unfolding init
start-IsHeld = record {
  alone = λ i j ei ej. absurd cc;
  taken = λ i ei. absurd cc;
  holder = λ l. absurd cc;
}

pub Reach-IsHeld : {s t : Threads} → IsHeld s → Reach s t → IsHeld t
Reach-IsHeld h here = h
Reach-IsHeld h (next run step) = Step-IsHeld step (Reach-IsHeld h run)

-- While a thread is between lock() and unlock(), no other is, whatever the interleaving.
pub Reach-exclusive :
    (t : Threads) (i j : ℕ) → Reach start t → i ≢ j → t.place i ≡ inside → t.place j ≢ inside
Reach-exclusive t i j run differ ei ej = differ ((Reach-IsHeld start-IsHeld run).alone i j ei ej)

-- The next round of the thread ends its loop and leaves it inside.
pub record EntersNext (s : Threads) (i : ℕ) : Type 0 where
  pub ends : (lock_round s.lock_value).1 ≡ true
  pub step : Step s (moved s i inside (lock_round s.lock_value).0)
  pub is_inside : (moved s i inside (lock_round s.lock_value).0).place i ≡ inside

-- A thread that spins in a state that is reached can enter: either the lock is free, and its next
-- round ends the loop and leaves it inside, or a thread is inside, and when that calls unlock() next
-- and the spinning thread makes its next round then, this one is inside.
pub Reach-enters :
    (t : Threads) (i : ℕ)
    → Reach start t
    → t.place i ≡ spinning
    → EntersNext t i
      ⊎ ((k : ℕ) × (t.place k ≡ inside)
          × Step t (moved t k away (unlock t.lock_value))
          × EntersNext (moved t k away (unlock t.lock_value)) i)
unfolding lock_round unlock
Reach-enters t i run e = elim (Bool-cases t.lock_value) [
  | inr free ↦
      let ends : (lock_round t.lock_value).1 ≡ true = ground arith in
      inl (record { ends = ends; step = enters i e ends; is_inside = ground arith })
  | inl taken ↦
      let (k, ek) = (Reach-IsHeld start-IsHeld run).holder taken in
      let left : Threads = moved t k away (unlock t.lock_value) in
      let spins_on : left.place i ≡ spinning = ground arith in
      inr (
        k,
        ek,
        leaves k ek,
        record { ends = refl; step = enters i spins_on refl; is_inside = ground arith },
      )
]
