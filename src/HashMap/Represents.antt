-- ===== src/HashMap/Represents.antt =====
-- A hash map and what its buckets hold: the pairs of key and value, in the order of insertion.
use mem_perf_pro.Base.{
  ℕ, ◌%◌, ◌≤◌, ◌<◌, ◌≡◌, Bool, Option, none, some, if◌then◌else◌, List, [], ◌∷◌, length, ap, suc,
  refl, sym, ◌⊎◌,
}
use mem_perf_pro.HashList.Ring.{IsRing, AllOf}
use mem_perf_pro.HashMap.{HashMap, head_of}

module _ {ℓ} {K V : Type ℓ} where
  abbrev pub pairs : HashMap K V → List ℕ → List (K × V)
  pairs m [] = []
  pairs m (node ∷ nodes) = (m.key node, m.value node) ∷ pairs m nodes

  -- the value of the first pair of a key
  abbrev pub lookup : (K → K → Bool) → K → List (K × V) → Option V
  lookup same_key key [] = none
  lookup same_key key ((k, v) ∷ rest) =
      let later = lookup same_key key rest in if same_key k key then some v else later

  -- An entry of bucket `i`: its memory has been handed out.
  abbrev pub IsEntry : HashMap K V → (ℕ → ℕ) → ℕ → ℕ → Type 0
  IsEntry m owner i node = (owner node ≡ i) × (node < m.memory.overhead_pointer)

  -- Every bucket is a ring that holds its pairs; the rings share no node, and no head stands in the
  -- memory that is still to be handed out.
  pub record Holds (m : HashMap K V) (contents : ℕ → List (K × V)) : Type ℓ where
    pub nodes : ℕ → List ℕ
    pub owner : ℕ → ℕ
    pub rings : (i : ℕ) → i < m.buckets_total → IsRing m.links (head_of m i) (nodes i)
    pub counts : (i : ℕ) → i < m.buckets_total → m.count i ≡ length (nodes i) % 0x1_0000
    pub heads : (i : ℕ) → i < m.buckets_total → owner (head_of m i) ≡ i
    pub entries : (i : ℕ) → i < m.buckets_total → AllOf (IsEntry m owner i) (nodes i)
    pub fresh :
        (i : ℕ)
        → i < m.buckets_total
        → (head_of m i < m.memory.overhead_pointer) ⊎ (m.memory.end_pointer ≤ head_of m i)
    pub held : (i : ℕ) → i < m.buckets_total → pairs m (nodes i) ≡ contents i

  pub length-pairs : (m : HashMap K V) (nodes : List ℕ) → length (pairs m nodes) ≡ length nodes
  length-pairs m [] = refl
  length-pairs m (node ∷ nodes) = ap suc (length-pairs m nodes)

  pub length-contents :
      (m : HashMap K V) (contents : ℕ → List (K × V)) (h : Holds m contents) (i : ℕ)
      → i < m.buckets_total
      → length (h.nodes i) ≡ length (contents i)
  length-contents m contents h i lt = rw (← h.held i lt) (sym (length-pairs m (h.nodes i)))
