-- ===== src/GlobalStatus/Leaks.antt =====
-- The number of allocations that were not freed.
use mem_perf_pro.Base.{
  ℕ, zero, suc, ◌+◌, ◌-◌, ◌*◌, ◌%◌, ◌≤◌, ◌<◌, ◌≡◌, Bool, false, not, ◌&&◌, leb, if◌then◌else◌,
  add_64, sub_64, arith, refl, ◌∙◌, true, Bool-cases, inl, inr,
}
use mem_perf_pro.AllocatingStatus as Function
use mem_perf_pro.AllocatingStatus.Types.Enumeration.{
  AllocationType, malloc_of, free_of, other_of, enumerators, nth,
}
use mem_perf_pro.GlobalStatus.{
  is_realloc, is_free, leak_from, count_potential_memory_leak_functions,
}

-- the sum of the counts of the types i, …, i + left - 1 that are selected
abbrev pub total_of : (ℕ → Bool) → (ℕ → ℕ) → ℕ → ℕ → ℕ
total_of selected counts zero i = 0
total_of selected counts (suc left) i =
    let rest = total_of selected counts left (i + 1) in if selected i then counts i + rest else rest

abbrev pub is_allocation : ℕ → Bool
is_allocation i = not (is_realloc i) && not (is_free i)

-- an `unsigned int` in each cell
abbrev pub AreCounts : (ℕ → ℕ) → Type 0
AreCounts counts = (i : ℕ) → counts i < 0x1_0000_0000

total_of-le :
    (selected : ℕ → Bool) (counts : ℕ → ℕ) (left i : ℕ)
    → AreCounts counts
    → total_of selected counts left i ≤ left * 0x1_0000_0000
total_of-le selected counts zero i h = omega arith
total_of-le selected counts (suc left) i h =
    ground (arith, h i, total_of-le selected counts left (i + 1) h)

-- The pattern plus the frees is the old pattern plus the allocations, modulo 2 ^ 64.
leak_from-balance :
    (counts : ℕ → ℕ) (left i leaks : ℕ)
    → AreCounts counts
    → leaks < 0x1_0000_0000_0000_0000
    → (leak_from counts left i leaks < 0x1_0000_0000_0000_0000)
      × ((leak_from counts left i leaks + total_of is_free counts left i) % 0x1_0000_0000_0000_0000
          ≡ (leaks + total_of is_allocation counts left i) % 0x1_0000_0000_0000_0000)
unfolding leak_from
leak_from-balance counts zero i leaks h lt = (lt, omega arith)
leak_from-balance counts (suc left) i leaks h lt = elim (Bool-cases (is_realloc i)) [
  | inl re ↦
      let no_free : is_free i ≡ false = ground arith in
      let rest = leak_from-balance counts left (i + 1) leaks h lt in
      rw (re, no_free) (rest.0, rest.1)
  | inr other ↦ elim (Bool-cases (is_free i)) [
    | inl free ↦
        let rest =
          leak_from-balance counts left (i + 1) (sub_64 leaks (counts i)) h (omega arith) in
        rw (other, free) (rest.0, omega (arith, rest.1, h i))
    | inr alloc ↦
        let rest =
          leak_from-balance counts left (i + 1) (add_64 leaks (counts i)) h (omega arith) in
        rw (other, alloc) (rest.0, omega (arith, rest.1, h i))
  ]
]

-- the pattern of a difference of two small numbers, with 0 for a negative one
signed :
    (t a f : ℕ)
    → t < 0x1_0000_0000_0000_0000
    → a ≤ 24 * 0x1_0000_0000
    → f ≤ 24 * 0x1_0000_0000
    → (t + f) % 0x1_0000_0000_0000_0000 ≡ (0 + a) % 0x1_0000_0000_0000_0000
    → (if leb 0x8000_0000_0000_0000 t then 0 else t) ≡ a - f
signed t a f lt la lf h = ground (arith, h)

-- An enumerator whose name says that its calls free, or allocate; realloc does both.
abbrev pub frees : AllocationType → Bool
frees (malloc_of parallel size is_reuse) = false
frees (free_of parallel size) = true
frees (other_of parallel function) = false

abbrev pub allocates : AllocationType → Bool
allocates (malloc_of parallel size is_reuse) = true
allocates (free_of parallel size) = false
allocates (other_of parallel Function.realloc) = false
allocates (other_of parallel function) = true

abbrev pub is_named : (AllocationType → Bool) → ℕ → Bool
is_named says i = says (nth enumerators i)

-- the tests of the loop against the names of the enumerators
frees_by_name :
    (counts : ℕ → ℕ) → total_of is_free counts 24 0 ≡ total_of (is_named frees) counts 24 0
frees_by_name counts = refl

allocates_by_name :
    (counts : ℕ → ℕ)
    → total_of is_allocation counts 24 0 ≡ total_of (is_named allocates) counts 24 0
allocates_by_name counts = refl

-- From 0, countPotentialMemoryLeakFunctions gives the calls of the types whose enumerators are named
-- after a function that allocates less those of the types named after free, by the sampled counts,
-- or 0 if those that free are more; realloc counts for neither.
pub count_potential_memory_leak_functions_lem :
    (counts : ℕ → ℕ)
    → AreCounts counts
    → count_potential_memory_leak_functions counts 0
      ≡ total_of (is_named allocates) counts 24 0 - total_of (is_named frees) counts 24 0
unfolding count_potential_memory_leak_functions
count_potential_memory_leak_functions_lem counts h =
    let (lt, balance) = leak_from-balance counts 24 0 0 h (omega arith) in
    let a = total_of-le is_allocation counts 24 0 h in
    let f = total_of-le is_free counts 24 0 h in
    signed (leak_from counts 24 0 0) (total_of is_allocation counts 24 0)
      (total_of is_free counts 24 0) lt a f balance
    ∙ cc (frees_by_name counts, allocates_by_name counts)
