-- ===== src/HashMap/Initialize.antt =====
-- A map that has just been initialized holds nothing.
use mem_perf_pro.Base.{
  ℕ, zero, suc, ◌+◌, ◌-◌, ◌/◌, ◌*◌, ◌≤◌, ◌<◌, ◌≡◌, ◌≢◌, ◌⊎◌, refl, ap, [], ◌==◌, Bool-cases, inl,
  inr, arith, ==→eq,
}
use mem_perf_pro.HashList.{list_init, node_init}
use mem_perf_pro.HashList.Ring.{IsRing, AllOf}
use mem_perf_pro.HashList.Insert.{list_init-IsRing}
use mem_perf_pro.MyMalloc.{Memory}
use mem_perf_pro.HashMap.{HashMap, initialize, initialize_bucket, initialize_buckets}
use mem_perf_pro.HashMap.Represents.{Holds}
use mem_perf_pro.HashMap.Insert.{IsRing-frame}

module _ {ℓ} {K V : Type ℓ} (buckets total : ℕ) (memory : Memory) where
  -- The buckets below `i` are empty rings.
  record IsEmptyTo (m : HashMap K V) (i : ℕ) : Type ℓ where
    at : m.buckets ≡ buckets
    many : m.buckets_total ≡ total
    memory_kept : m.memory ≡ memory
    rings : (j : ℕ) → j < i → IsRing m.links (buckets + j * 24) []
    counts : (j : ℕ) → j < i → m.count j ≡ 0

  initialize_bucket-IsEmptyTo :
      (m : HashMap K V) (i : ℕ) → IsEmptyTo m i → IsEmptyTo (initialize_bucket m i) (i + 1)
  unfolding initialize_bucket AllOf list_init node_init
  initialize_bucket-IsEmptyTo m i e = record {
    at = e.at;
    many = e.many;
    memory_kept = e.memory_kept;
    rings = λ j lt. elim (Bool-cases (j == i)) [
      | inl same ↦
          let at_i : j ≡ i = ==→eq j i same in
          rw (at_i, e.at) (list_init-IsRing m.links (buckets + i * 24))
      | inr other ↦ rw e.at (
          IsRing-frame m.links (list_init m.links (buckets + i * 24)) (λ c. c ≢ buckets + i * 24)
            (buckets + j * 24) [] (λ c n. (ground arith, ground arith)) (λ same. ground arith) tt
            (e.rings j (ground arith)))
    ];
    counts = λ j lt. ground (arith, e.counts j);
  }

  initialize_buckets-IsEmptyTo :
      (left : ℕ) (m : HashMap K V) (i : ℕ)
      → IsEmptyTo m i
      → IsEmptyTo (initialize_buckets m left i) (i + left)
  unfolding initialize_buckets
  initialize_buckets-IsEmptyTo zero m i e = let same : i + 0 ≡ i = omega arith in rw same e
  initialize_buckets-IsEmptyTo (suc left) m i e =
      let one_more : i + suc left ≡ i + 1 + left = omega arith in
      rw one_more (
        initialize_buckets-IsEmptyTo left (initialize_bucket m i) (i + 1)
          (initialize_bucket-IsEmptyTo m i e))

  IsEmptyTo-Holds :
      (m : HashMap K V)
      → (buckets + total * 24 ≤ memory.overhead_pointer) ⊎ (memory.end_pointer ≤ buckets)
      → IsEmptyTo m total
      → Holds m (λ i. [])
  unfolding AllOf
  IsEmptyTo-Holds m apart e = record {
    nodes = λ i. [];
    owner = λ c. (c - buckets) / 24;
    rings = λ i lt. rw e.at (e.rings i (omega (arith, e.many)));
    counts = λ i lt. omega (arith, e.counts i (omega (arith, e.many)));
    heads = λ i lt. omega (arith, e.at);
    entries = λ i lt. tt;
    fresh = λ i lt. elim apart [
      | inl below ↦ inl (omega (arith, e.at, e.many, ap (λ k. k.overhead_pointer) e.memory_kept))
      | inr above ↦ inr (omega (arith, e.at, ap (λ k. k.end_pointer) e.memory_kept))
    ];
    held = λ i lt. refl;
  }

-- After initialize there are `size` buckets and every one is empty, when the array of buckets that
-- mmap gives is apart from the memory of the entries, of which nothing is taken.
pub initialize-Holds {ℓ} :
    {K V : Type ℓ} (m : HashMap K V) (mapped size : ℕ)
    → (mapped + size * 24 ≤ m.memory.overhead_pointer) ⊎ (m.memory.end_pointer ≤ mapped)
    → Holds (initialize m mapped size) (λ i. [])
      × ((initialize m mapped size).buckets_total ≡ size)
      × ((initialize m mapped size).memory ≡ m.memory)
unfolding initialize
initialize-Holds m mapped size apart =
    let start = record m { buckets = mapped; buckets_total = size; total_entry = 0 } in
    let all : 0 + size ≡ size = omega arith in
    let e = rw all at (
      initialize_buckets-IsEmptyTo mapped size m.memory size start 0 (record {
        at = refl;
        many = refl;
        memory_kept = refl;
        rings = λ j lt. absurd (omega arith);
        counts = λ j lt. absurd (omega arith);
      })) in
    (IsEmptyTo-Holds mapped size m.memory (initialize m mapped size) apart e, e.many, e.memory_kept)
