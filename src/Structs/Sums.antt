-- ===== src/Structs/Sums.antt =====
-- The loops of structs.cpp by cell, and when a lock is important.
use mem_perf_pro.Base.{
  ℕ, zero, suc, ◌+◌, ◌/◌, ◌≤◌, ◌<◌, ◌≡◌, ◌≢◌, Bool, true, not, ◌&&◌, ltb, Bool-cases, inl, inr, ◌↔◌,
  leb, ◌==◌, if◌then◌else◌, update, arith,
}
use mem_perf_pro.Structs.{
  add_cells, is_important_from, DetailLockData, is_an_important_lock, num_of_allocation_types,
}

pub add_cells-cell :
    (plus : ℕ → ℕ → ℕ) (left i : ℕ) (a b : ℕ → ℕ) (j : ℕ)
    → add_cells plus left i a b j ≡ (if leb i j && ltb j (i + left) then plus (a j) (b j) else a j)
unfolding add_cells
add_cells-cell plus zero i a b j = ground arith
add_cells-cell plus (suc left) i a b j =
    ground (arith, add_cells-cell plus left (i + 1) (update a i (plus (a i) (b i))) b j)

abbrev is_slow : (ℕ → ℕ) → (ℕ → ℕ) → ℕ → Bool
is_slow sampled cycles i = not (sampled i == 0) && ltb 500 (cycles i / sampled i)

is_important_from-some :
    (sampled cycles : ℕ → ℕ) (left i : ℕ)
    → is_important_from sampled cycles left i ≡ true
    → (j : ℕ) × (j < i + left) × (is_slow sampled cycles j ≡ true)
unfolding is_important_from
is_important_from-some sampled cycles zero i h = absurd cc
is_important_from-some sampled cycles (suc left) i h =
    elim (Bool-cases (is_slow sampled cycles i)) [
      | inl e ↦ (i, omega arith, e)
      | inr e ↦
          let (j, lt, slow) = is_important_from-some sampled cycles left (i + 1) (rw e at h) in
          (j, omega arith, slow)
    ]

is_important_from-true :
    (sampled cycles : ℕ → ℕ) (left i j : ℕ)
    → i ≤ j
    → j < i + left
    → is_slow sampled cycles j ≡ true
    → is_important_from sampled cycles left i ≡ true
unfolding is_important_from
is_important_from-true sampled cycles zero i j lo hi h = absurd (omega arith)
is_important_from-true sampled cycles (suc left) i j lo hi h =
    ground (arith, is_important_from-true sampled cycles left (i + 1) j)

-- isAnImportantLock holds exactly when, for one of the 24 allocation types, calls were sampled and
-- their mean time in the lock, rounded down, is more than 500 cycles.
pub is_an_important_lock_iff :
    (sampled : ℕ → ℕ) (d : DetailLockData)
    → (is_an_important_lock sampled d ≡ true)
      ↔ ((j : ℕ) × (j < num_of_allocation_types) × (sampled j ≢ 0) × (500 < d.cycles j / sampled j))
unfolding is_an_important_lock
is_an_important_lock_iff sampled d = (
  λ h.
      let (j, lt, slow) = is_important_from-some sampled d.cycles 24 0 h in
      (j, lt, ground arith, ground arith),
  λ (j, lt, some_calls, slow).
      is_important_from-true sampled d.cycles 24 0 j (omega arith) lt (ground arith),
)
