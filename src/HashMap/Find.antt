-- ===== src/HashMap/Find.antt =====
-- find gives the value of the first pair of the key in its bucket.
use mem_perf_pro.Base.{
  bit_and-le, ◌-◌, ℕ, ◌<◌, ◌≡◌, Bool, refl, Option, none, some, List, [], ◌∷◌, length, Bool-cases,
  inl, inr, arith,
}
use mem_perf_pro.HashList.Ring.{PathTo}
use mem_perf_pro.HashMap.{HashMap, head_of, entry_from, get_entry, find, hash_index}
use mem_perf_pro.HashMap.Represents.{pairs, lookup, Holds, length-contents}

module _ {ℓ} {K V : Type ℓ} (hash : K → ℕ) (same_key : K → K → Bool) where
  -- the value at the entry that is found
  abbrev pub found : HashMap K V → Option ℕ → Option V
  found m none = none
  found m (some entry) = some (m.value entry)

  entry_from-lookup :
      (m : HashMap K V) (key : K) (a : ℕ) (nodes : List ℕ) (b : ℕ)
      → PathTo m.links a nodes b
      → found m (entry_from hash same_key m key (length nodes) (m.links.next a))
        ≡ lookup same_key key (pairs m nodes)
  unfolding entry_from PathTo
  entry_from-lookup m key a [] b p = refl
  entry_from-lookup m key a (node ∷ nodes) b p = elim (Bool-cases (same_key (m.key node) key)) [
    | inl e ↦ rw (p.0, e) refl
    | inr e ↦ rw (p.0, e) (entry_from-lookup m key node nodes b p.2)
  ]

  -- While a bucket holds fewer than 65536 pairs, find gives the value of the first pair of the key
  -- there, and nothing if there is none.
  pub find-lookup :
      (m : HashMap K V) (contents : ℕ → List (K × V)) (key : K)
      → Holds m contents
      → 0 < m.buckets_total
      → length (contents (hash_index hash same_key m key)) < 0x1_0000
      → found m (find hash same_key m key)
        ≡ lookup same_key key (contents (hash_index hash same_key m key))
  unfolding find get_entry hash_index
  find-lookup m contents key h some_buckets small =
      let i = hash_index hash same_key m key in
      let lt : i < m.buckets_total = omega (arith, bit_and-le (hash key) (m.buckets_total - 1)) in
      let all : m.count i ≡ length (h.nodes i) =
        omega (arith, h.counts i lt, length-contents m contents h i lt) in
      rw (all, ← h.held i lt)
        (entry_from-lookup m key (head_of m i) (h.nodes i) (head_of m i) (h.rings i lt).path)
