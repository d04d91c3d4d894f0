-- ===== src/GlobalStatus/Totals.antt =====
-- src_light/globalstatus.cpp: behind the ends of some threads every sum is that of all of them.
use mem_perf_pro.Base.{
  List, [], ◌∷◌, ℕ, zero, suc, ◌+◌, ◌%◌, ◌<◌, ◌≡◌, refl, ap, ◌∙◌, ◌&&◌, leb, ltb, if◌then◌else◌,
  update, add_32, add_64, arith,
}
use mem_perf_pro.Structs.{
  SystemCallData, OverviewLockData, add_system_calls, add_overview_lock_data, add_cells,
  add_friendliness, num_of_allocation_types,
}
use mem_perf_pro.Structs.Sums.{add_cells-cell}
use mem_perf_pro.ThreadLocalStatus.{ThreadData}
use mem_perf_pro.GlobalStatus.{globalize_sums, add_each, num_of_lock_types}

add_each-cell {ℓ} :
    {A : Type ℓ} (plus : A → A → A) (left i : ℕ) (total new : ℕ → A) (j : ℕ)
    → add_each plus left i total new j
      ≡ (if leb i j && ltb j (i + left) then plus (total j) (new j) else total j)
unfolding add_each
add_each-cell plus zero i total new j = ground arith
add_each-cell plus (suc left) i total new j =
    ground (arith, add_each-cell plus left (i + 1) (update total i (plus (total i) (new i))) new j)

-- globalize of each thread that ends, in the order of the list
abbrev pub globalize_all : ThreadData → List ThreadData → ThreadData
globalize_all g [] = g
globalize_all g (t ∷ ts) = globalize_all (globalize_sums g t) ts

abbrev pub sum_of : (ThreadData → ℕ) → List ThreadData → ℕ
sum_of counter [] = 0
sum_of counter (t ∷ ts) = counter t + sum_of counter ts

-- A counter of so many values is the old one plus those of the threads.
abbrev pub IsTotal : ℕ → (ThreadData → ℕ) → ThreadData → List ThreadData → Type 0
IsTotal values counter g ts =
    counter (globalize_all g ts) % values ≡ (counter g + sum_of counter ts) % values

-- a counter that a thread adds to
abbrev Adds : ℕ → (ThreadData → ℕ) → Type 0
Adds values counter =
    (g t : ThreadData) → counter (globalize_sums g t) ≡ (counter g + counter t) % values

Adds_32-IsTotal :
    (counter : ThreadData → ℕ)
    → Adds 0x1_0000_0000 counter
    → (g : ThreadData) (ts : List ThreadData) → IsTotal 0x1_0000_0000 counter g ts
Adds_32-IsTotal counter adds g [] = omega arith
Adds_32-IsTotal counter adds g (t ∷ ts) =
    omega (arith, Adds_32-IsTotal counter adds (globalize_sums g t) ts, adds g t)

Adds_64-IsTotal :
    (counter : ThreadData → ℕ)
    → Adds 0x1_0000_0000_0000_0000 counter
    → (g : ThreadData) (ts : List ThreadData) → IsTotal 0x1_0000_0000_0000_0000 counter g ts
Adds_64-IsTotal counter adds g [] = omega arith
Adds_64-IsTotal counter adds g (t ∷ ts) =
    omega (arith, Adds_64-IsTotal counter adds (globalize_sums g t) ts, adds g t)

cell_of :
    (plus : ℕ → ℕ → ℕ) (a b : ℕ → ℕ) (j : ℕ)
    → j < 24
    → add_cells plus num_of_allocation_types 0 a b j ≡ plus (a j) (b j)
cell_of plus a b j below = ground (arith, add_cells-cell plus num_of_allocation_types 0 a b j)

each_of :
    {A : Type 0} (plus : A → A → A) (n : ℕ) (a b : ℕ → A) (j : ℕ)
    → j < n
    → add_each plus n 0 a b j ≡ plus (a j) (b j)
each_of plus n a b j below = ground (arith, add_each-cell plus n 0 a b j)

-- what a thread adds to the data of a lock type, and of a system call in an allocation type
overview_of :
    (g t : ThreadData) (lock_type : ℕ)
    → lock_type < 4
    → (globalize_sums g t).overview_lock_data lock_type
      ≡ add_overview_lock_data (g.overview_lock_data lock_type) (t.overview_lock_data lock_type)
unfolding globalize_sums
overview_of g t lock_type below =
    each_of (λ a b. add_overview_lock_data a b) num_of_lock_types g.overview_lock_data
      t.overview_lock_data lock_type below

not_above : {A : Type 0} (k : ℕ) (x y : A) → k < 6 → (if leb 6 k then x else y) ≡ y
not_above k x y below = ground arith

system_call_of :
    (g t : ThreadData) (k j : ℕ)
    → k < 6
    → j < 24
    → (globalize_sums g t).system_call_data k j
      ≡ add_system_calls (g.system_call_data k j) (t.system_call_data k j)
unfolding globalize_sums
system_call_of g t k j below inside =
    ap (λ (cells : ℕ → SystemCallData). cells j)
      (not_above k (g.system_call_data k)
        (add_each (λ a b. add_system_calls a b) num_of_allocation_types 0 (g.system_call_data k)
          (t.system_call_data k))
        below)
    ∙ each_of (λ a b. add_system_calls a b) num_of_allocation_types (g.system_call_data k)
        (t.system_call_data k) j inside

-- All the counters, of 2 ^ 32 or 2 ^ 64 values, by allocation type `j`, lock type `l` and type of
-- system call `k`.
pub record Totals (g : ThreadData) (ts : List ThreadData) : Type 0 where
  pub calls :
      (j : ℕ) → j < 24 → IsTotal 0x1_0000_0000 (λ t. t.num_of_sampled_counting_functions j) g ts
  pub cycles : (j : ℕ) → j < 24 → IsTotal 0x1_0000_0000_0000_0000 (λ t. t.cycles j) g ts
  pub locks :
      (l : ℕ) → l < 4 → IsTotal 0x1_0000_0000 (λ t. (t.overview_lock_data l).num_of_locks) g ts
  pub lock_calls :
      (l j : ℕ)
      → l < 4
      → j < 24
      → IsTotal 0x1_0000_0000 (λ t. (t.overview_lock_data l).num_of_calls j) g ts
  pub contentions :
      (l j : ℕ)
      → l < 4
      → j < 24
      → IsTotal 0x1_0000_0000 (λ t. (t.overview_lock_data l).num_of_calls_with_contentions j) g ts
  pub lock_cycles :
      (l j : ℕ)
      → l < 4
      → j < 24
      → IsTotal 0x1_0000_0000_0000_0000 (λ t. (t.overview_lock_data l).total_cycles j) g ts
  pub system_calls :
      (k j : ℕ) → k < 6 → j < 24 → IsTotal 0x1_0000_0000 (λ t. (t.system_call_data k j).num) g ts
  pub system_call_cycles :
      (k j : ℕ)
      → k < 6
      → j < 24
      → IsTotal 0x1_0000_0000_0000_0000 (λ t. (t.system_call_data k j).cycles) g ts
  pub samples : IsTotal 0x1_0000_0000 (λ t. t.friendliness_status.num_of_sampling) g ts
  pub pages :
      IsTotal 0x1_0000_0000_0000_0000
        (λ t. t.friendliness_status.total_memory_usage_of_sampled_pages)
        g
        ts
  pub lines :
      IsTotal 0x1_0000_0000_0000_0000
        (λ t. t.friendliness_status.total_memory_usage_of_sampled_cache_lines)
        g
        ts

-- Behind the ends of some threads, in any order, every counter of GlobalStatus but for the table of
-- locks is the old one plus those of the threads, modulo the width of the counter.
pub globalize_all-Totals : (g : ThreadData) (ts : List ThreadData) → Totals g ts
unfolding globalize_sums add_overview_lock_data add_system_calls add_friendliness
globalize_all-Totals g ts = record {
  calls = λ j below.
      Adds_32-IsTotal _
        (λ g t.
          cell_of (λ a b. add_32 a b) g.num_of_sampled_counting_functions
            t.num_of_sampled_counting_functions j below)
        g ts;
  cycles = λ j below.
      Adds_64-IsTotal _ (λ g t. cell_of (λ a b. add_64 a b) g.cycles t.cycles j below) g ts;
  locks = λ l below.
      Adds_32-IsTotal _
        (λ g t. ap (λ (o : OverviewLockData). o.num_of_locks) (overview_of g t l below)) g ts;
  lock_calls = λ l j below inside.
      Adds_32-IsTotal _
        (λ g t.
          ap (λ (o : OverviewLockData). o.num_of_calls j) (overview_of g t l below)
          ∙ cell_of (λ a b. add_32 a b) (g.overview_lock_data l).num_of_calls
              (t.overview_lock_data l).num_of_calls j inside)
        g ts;
  contentions = λ l j below inside.
      Adds_32-IsTotal _
        (λ g t.
          ap (λ (o : OverviewLockData). o.num_of_calls_with_contentions j) (overview_of g t l below)
          ∙ cell_of (λ a b. add_32 a b) (g.overview_lock_data l).num_of_calls_with_contentions
              (t.overview_lock_data l).num_of_calls_with_contentions j inside)
        g ts;
  lock_cycles = λ l j below inside.
      Adds_64-IsTotal _
        (λ g t.
          ap (λ (o : OverviewLockData). o.total_cycles j) (overview_of g t l below)
          ∙ cell_of (λ a b. add_64 a b) (g.overview_lock_data l).total_cycles
              (t.overview_lock_data l).total_cycles j inside)
        g ts;
  system_calls = λ k j below inside.
      Adds_32-IsTotal _
        (λ g t. ap (λ (o : SystemCallData). o.num) (system_call_of g t k j below inside)) g ts;
  system_call_cycles = λ k j below inside.
      Adds_64-IsTotal _
        (λ g t. ap (λ (o : SystemCallData). o.cycles) (system_call_of g t k j below inside)) g ts;
  samples = Adds_32-IsTotal (λ t. t.friendliness_status.num_of_sampling) (λ g t. refl) g ts;
  pages =
      Adds_64-IsTotal (λ t. t.friendliness_status.total_memory_usage_of_sampled_pages) (λ g t. refl)
        g ts;
  lines =
      Adds_64-IsTotal (λ t. t.friendliness_status.total_memory_usage_of_sampled_cache_lines)
        (λ g t. refl) g ts;
}
