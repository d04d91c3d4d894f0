-- ===== src/Predictor/CriticalPath.antt =====
-- What a stage adds to the critical path.
use mem_perf_pro.Base.{
  ℕ, ==→eq, ne→==, ==_self, ◌/◌, zero, suc, ◌+◌, ◌-◌, ◌*◌, ◌%◌, ◌≤◌, ◌<◌, ◌≡◌, ◌≢◌, ◌⊎◌, inl, inr,
  refl, max, Bool, true, ◌&&◌, ltb, leb, ◌==◌, if◌then◌else◌, add_64, sub_64, update, arith,
  Bool-cases,
}
use mem_perf_pro.Base.Run.{Returns}
use mem_perf_pro.Predictor.{
  Predictor, Stage, Maxima, add_replaced, with_replaced, counts, counts_depend, raise, maxima_from,
  stage_maxima, stop_serial, stop_parallel, clean_stage_data, thread_end,
}
use mem_perf_pro.Structs.{num_of_allocation_types}

-- the cycles that the functions would take with the other allocator, of the types i, …, i + left - 1
abbrev pub total_replaced : (ℕ → ℕ) → (ℕ → ℕ) → ℕ → ℕ → ℕ
total_replaced num cost zero i = 0
total_replaced num cost (suc left) i = num i * cost i + total_replaced num cost left (i + 1)

no_more :
    (cycles total n r : ℕ)
    → r ≡ (cycles + total) % 0x1_0000_0000_0000_0000
    → r ≡ (cycles + (n * 0 + total)) % 0x1_0000_0000_0000_0000
no_more cycles total n r h = omega (arith, h)

one_more :
    (cycles total x r : ℕ)
    → r ≡ (add_64 cycles (x % 0x1_0000_0000_0000_0000) + total) % 0x1_0000_0000_0000_0000
    → r ≡ (cycles + (x + total)) % 0x1_0000_0000_0000_0000
one_more cycles total x r h = omega (arith, h)

add_replaced-total :
    (num cost : ℕ → ℕ) (left i cycles : ℕ)
    → cycles < 0x1_0000_0000_0000_0000
    → add_replaced num cost left i cycles
      ≡ (cycles + total_replaced num cost left i) % 0x1_0000_0000_0000_0000
unfolding add_replaced
add_replaced-total num cost zero i cycles h = omega arith
add_replaced-total num cost (suc left) i cycles h = elim (Bool-cases (cost i == 0)) [
  | inl free ↦
      let none : cost i ≡ 0 = ==→eq (cost i) 0 free in
      rw (free, none)
        (no_more cycles (total_replaced num cost left (i + 1)) (num i) _
          (add_replaced-total num cost left (i + 1) cycles h))
  | inr other ↦ rw other (
      one_more cycles (total_replaced num cost left (i + 1)) (num i * cost i) _
        (add_replaced-total num cost left (i + 1) _ (omega arith)))
]

-- All the cells that count from `index` on are at most the maximum, and it is the first value or the
-- cell of one of them.
pub record IsMaximum (cells : ℕ → ℕ) (selected : ℕ → Bool) (from to first m : ℕ) : Type 0 where
  pub above_first : first ≤ m
  pub above : (index : ℕ) → from ≤ index → index < to → selected index ≡ true → cells index ≤ m
  pub attained :
      (m ≡ first)
      ⊎ ((index : ℕ) × (from ≤ index) × (index < to) × (selected index ≡ true) × (cells index ≡ m))

IsMaximum-step :
    (cells : ℕ → ℕ) (selected : ℕ → Bool) (from to first m : ℕ)
    → from < to
    → IsMaximum cells selected
        (from + 1)
        to
        (if selected from then max first (cells from) else first)
        m
    → IsMaximum cells selected from to first m
IsMaximum-step cells selected from to first m lt h = record {
  above_first = ground (arith, h.above_first);
  above = λ index lo hi sel. elim (Bool-cases (index == from)) [
    | inl here ↦
        let e : index ≡ from = ==→eq index from here in
        let s : selected from ≡ true = rw (← e) sel in
        let b : (if selected from then max first (cells from) else first) ≤ m = h.above_first in
        let c : max first (cells from) ≤ m = rw s at b in rw e (omega (arith, c))
    | inr later ↦ h.above index (ground arith) hi sel
  ];
  attained = elim h.attained [
    | inr (index, lo, hi, sel, e) ↦ inr (index, omega arith, hi, sel, e)
    | inl e ↦ elim (Bool-cases (selected from)) [
      | inr skipped ↦ inl (rw skipped at e)
      | inl taken ↦
          let f : m ≡ max first (cells from) = rw taken at e in
          elim (Bool-cases (leb first (cells from))) [
            | inl up ↦ inr (from, omega arith, lt, taken, ground (arith, f))
            | inr down ↦ inl (ground (arith, f))
          ]
    ]
  ];
}

IsMaximum-none :
    (cells : ℕ → ℕ) (selected : ℕ → Bool) (from to first : ℕ)
    → to ≤ from
    → IsMaximum cells selected from to first first
IsMaximum-none cells selected from to first le = record {
  above_first = omega arith;
  above = λ index lo hi sel. absurd (omega arith);
  attained = inl refl;
}

-- the four maxima of the threads `index`, …, `to` - 1, over the ones found before
record AreMaxima (p : Predictor) (index to : ℕ) (before m : Maxima) : Type 0 where
  cycle : IsMaximum p.thread_cycle (counts p) index to before.cycle m.cycle
  replaced :
      IsMaximum p.thread_replaced_cycle (counts p) index to before.replaced_cycle m.replaced_cycle
  depend :
      IsMaximum p.thread_cycle
        (λ i. counts p i && counts_depend p i)
        index
        to
        before.cycle_depend
        m.cycle_depend
  replaced_depend :
      IsMaximum p.thread_replaced_cycle
        (λ i. counts p i && counts_depend p i)
        index
        to
        before.replaced_cycle_depend
        m.replaced_cycle_depend

maxima_from-AreMaxima :
    (p : Predictor) (left index to : ℕ) (m : Maxima)
    → to ≡ index + left
    → AreMaxima p index to m (maxima_from p left index m)
unfolding maxima_from
maxima_from-AreMaxima p zero index to m e = record {
  cycle = IsMaximum-none _ _ index to _ (omega arith);
  replaced = IsMaximum-none _ _ index to _ (omega arith);
  depend = IsMaximum-none _ _ index to _ (omega arith);
  replaced_depend = IsMaximum-none _ _ index to _ (omega arith);
}
maxima_from-AreMaxima p (suc left) index to m e =
    let rest = maxima_from-AreMaxima p left (index + 1) to (raise p index m) (omega arith) in
    record {
      cycle = IsMaximum-step _ _ index to _ _ (omega arith) rest.cycle;
      replaced = IsMaximum-step _ _ index to _ _ (omega arith) rest.replaced;
      depend = IsMaximum-step _ _ index to _ _ (omega arith) rest.depend;
      replaced_depend = IsMaximum-step _ _ index to _ _ (omega arith) rest.replaced_depend;
    }

-- `new` is `old` with the cycles outside of allocations, without those that the functions took and
-- with those that they would take, modulo 2 ^ 64.
pub record Replaces (p : Predictor) (g : Stage) (old new : ℕ) : Type 0 where
  pub balance :
      (new + g.total_function_cycles) % 0x1_0000_0000_0000_0000
      ≡ (old
          + g.outside_cycle
          + total_replaced g.num_of_functions p.replaced_function_cycles num_of_allocation_types 0)
        % 0x1_0000_0000_0000_0000

balanced :
    (old outside total sum new : ℕ)
    → new ≡ (sub_64 (add_64 old outside) total + sum) % 0x1_0000_0000_0000_0000
    → (new + total) % 0x1_0000_0000_0000_0000 ≡ (old + outside + sum) % 0x1_0000_0000_0000_0000
balanced old outside total sum new h = omega (arith, h)

with_replaced-Replaces :
    (p : Predictor) (g : Stage) (old : ℕ) → Replaces p g old (with_replaced p g old)
with_replaced-Replaces p g old = record {
  balance =
      balanced old g.outside_cycle g.total_function_cycles
        (total_replaced g.num_of_functions p.replaced_function_cycles num_of_allocation_types 0) _
        (add_replaced-total g.num_of_functions p.replaced_function_cycles num_of_allocation_types 0
          _ (omega arith));
}

-- The data of the stage are reset: the thread's own, and the cells of all threads.
pub record IsReset (total : ℕ) (p : Predictor) (g : Stage) : Type 0 where
  pub functions : (i : ℕ) → g.num_of_functions i ≡ 0
  pub cycles : (g.total_function_cycles ≡ 0) × (g.outside_cycle ≡ 0)
  pub threads : (i : ℕ) → i < total → (p.thread_cycle i ≡ 0) × (p.thread_replaced_cycle i ≡ 0)

-- The cells of the threads after the end of thread `index`.
pub record Ends (p : Predictor) (g : Stage) (index : ℕ) (cycle replaced : ℕ → ℕ) : Type 0 where
  pub adds : cycle index ≡ add_64 (p.thread_cycle index) g.outside_cycle
  pub replaces : Replaces p g (p.thread_replaced_cycle index) (replaced index)
  pub others :
      (other : ℕ)
      → other ≢ index
      → (cycle other ≡ p.thread_cycle other) × (replaced other ≡ p.thread_replaced_cycle other)

updated-Ends :
    (p : Predictor) (g : Stage) (index : ℕ)
    → Ends p g index
        (update p.thread_cycle index (add_64 (p.thread_cycle index) g.outside_cycle))
        (update p.thread_replaced_cycle index (with_replaced p g (p.thread_replaced_cycle index)))
updated-Ends p g index = record {
  adds = ground arith;
  replaces = rw (==_self index) (with_replaced-Replaces p g (p.thread_replaced_cycle index));
  others = λ other n. (ground arith, ground arith);
}

module _ (total : ℕ) (p : Predictor) (g : Stage) where
  -- stopSerial adds the cycles of the thread to the two critical paths, replaces the cycles of the
  -- functions in the two predicted ones, and resets the stage.
  pub stop_serial-Replaces :
      ((stop_serial total p g).0.critical_cycle ≡ add_64 p.critical_cycle g.outside_cycle)
      × ((stop_serial total p g).0.critical_cycle_depend
          ≡ add_64 p.critical_cycle_depend g.outside_cycle)
      × Replaces p g p.replaced_critical_cycle (stop_serial total p g).0.replaced_critical_cycle
      × Replaces p g p.replaced_critical_cycle_depend
          (stop_serial total p g).0.replaced_critical_cycle_depend
      × IsReset total (stop_serial total p g).0 (stop_serial total p g).1
  unfolding stop_serial clean_stage_data
  stop_serial-Replaces = (
    refl,
    refl,
    with_replaced-Replaces p g p.replaced_critical_cycle,
    with_replaced-Replaces p g p.replaced_critical_cycle_depend,
    record {
      functions = λ i. refl;
      cycles = (refl, refl);
      threads = λ i lt. (ground arith, ground arith);
    },
  )

  -- stopParallel adds to the two critical paths the largest cycles of the threads 1, …, total - 1
  -- that have cycles, both as they ran and with the other allocator, and resets the stage, when there
  -- is a thread.
  pub stop_parallel-IsMaximum :
      0 < total
      → (m : ℕ) × (m' : ℕ) × IsMaximum p.thread_cycle (counts p) 1 total 0 m
        × IsMaximum p.thread_replaced_cycle (counts p) 1 total 0 m'
        × ((stop_parallel total p g).0.critical_cycle ≡ add_64 p.critical_cycle m)
        × ((stop_parallel total p g).0.replaced_critical_cycle
            ≡ add_64 p.replaced_critical_cycle m')
        × IsReset total (stop_parallel total p g).0 (stop_parallel total p g).1
  unfolding stop_parallel stage_maxima clean_stage_data
  stop_parallel-IsMaximum some_thread =
      let r =
        maxima_from-AreMaxima p (total - 1) 1 total
          (record { cycle = 0; replaced_cycle = 0; cycle_depend = 0; replaced_cycle_depend = 0 })
          (omega arith) in
      (
        _,
        _,
        r.cycle,
        r.replaced,
        refl,
        refl,
        record {
          functions = λ i. refl;
          cycles = (refl, refl);
          threads = λ i lt. (ground arith, ground arith);
        },
      )

module _ (p : Predictor) (g : Stage) where
  -- threadEnd of a thread that has cycles returns: it adds the cycles of the stage to those of the
  -- thread, replaces the cycles of the functions in the predicted ones, and leaves the other threads.
  pub thread_end-Ends :
      (index : ℕ)
      → add_64 (p.thread_cycle index) g.outside_cycle ≢ 0
      → Returns
          (λ p'. Ends p g index p'.thread_cycle p'.thread_replaced_cycle)
          (thread_end p g index)
  unfolding thread_end
  thread_end-Ends index n =
      let cycle = add_64 (p.thread_cycle index) g.outside_cycle in
      let facts = updated-Ends p g index in
      elim (Bool-cases (index == 0)) [
        | inl main ↦ rw main (_, refl, facts)
        | inr other ↦
            elim (Bool-cases
              (ltb (g.total_function_cycles * 100 % 0x1_0000_0000_0000_0000 / cycle) 2)) [
                | inl few ↦ rw (other, ne→== cycle 0 n, few) (_, refl, facts)
                | inr many ↦ rw (other, ne→== cycle 0 n, many) (_, refl, facts)
              ]
      ]
