-- ===== src/HashMap/Store.antt =====
-- A store through the pointer that find gives.
use mem_perf_pro.Base.{
  bit_and-le, ◌-◌, ℕ, suc, ◌<◌, ◌≡◌, ◌≢◌, Bool, false, refl, subst, ap, sym, ◌∙◌, some,
  if◌then◌else◌, List, [], ◌∷◌, length, update, ◌==◌, Bool-cases, inl, inr, arith, ==→eq, ==_self,
  ne→==,
}
use mem_perf_pro.HashList.Ring.{PathTo, Distinct, Away, AllOf, AllOf-and, AllOf-map, Away-AllOf}
use mem_perf_pro.HashMap.{HashMap, store, head_of, entry_from, get_entry, find, hash_index}
use mem_perf_pro.HashMap.Represents.{pairs, lookup, Holds, IsEntry, length-contents}

some_injective {ℓ} : {A : Type ℓ} {a b : A} → some a ≡ some b → a ≡ b
some_injective e = cc

AllOf-Away : (entry : ℕ) (nodes : List ℕ) → AllOf (λ n. n ≢ entry) nodes → Away entry nodes
unfolding AllOf Away
AllOf-Away entry [] a = tt
AllOf-Away entry (node ∷ nodes) a = ((λ e. a.0 (sym e)), AllOf-Away entry nodes a.1)

module _ {ℓ} {K V : Type ℓ} where
  -- the first pair of the key gets another value
  abbrev pub replace : (K → K → Bool) → K → V → List (K × V) → List (K × V)
  replace same_key key value [] = []
  replace same_key key value ((k, v) ∷ rest) =
      let later = replace same_key key value rest in
      if same_key k key then (k, value) ∷ rest else (k, v) ∷ later

  pairs-store-Away :
      (m : HashMap K V) (entry : ℕ) (value : V) (nodes : List ℕ)
      → Away entry nodes
      → pairs (store m entry value) nodes ≡ pairs m nodes
  unfolding store Away
  pairs-store-Away m entry value [] w = refl
  pairs-store-Away m entry value (node ∷ nodes) w =
      let other : node == entry ≡ false = ne→== node entry (λ e. w.0 (sym e)) in
      rw (other, pairs-store-Away m entry value nodes w.1) refl

  module _ (hash : K → ℕ) (same_key : K → K → Bool) (m : HashMap K V) (key : K) where
    -- The entry found is one of the nodes, and the store acts on the first pair of the key.
    entry_from-replace :
        (a : ℕ) (nodes : List ℕ) (b entry : ℕ) (value : V) (P : ℕ → Type 0)
        → PathTo m.links a nodes b
        → Distinct nodes
        → AllOf P nodes
        → entry_from hash same_key m key (length nodes) (m.links.next a) ≡ some entry
        → (pairs (store m entry value) nodes ≡ replace same_key key value (pairs m nodes)) × P entry
    unfolding entry_from PathTo Distinct AllOf store
    entry_from-replace a [] b entry value P p d all e = absurd cc
    entry_from-replace a (node ∷ nodes) b entry value P p d all e =
        elim (Bool-cases (same_key (m.key node) key)) [
          | inl hit ↦
              let at : node ≡ entry = some_injective (rw (p.0, hit) at e) in
              let rest = pairs-store-Away m node value nodes d.0 in
              subst
                (λ x.
                  (pairs (store m x value) (node ∷ nodes)
                    ≡ replace same_key key value (pairs m (node ∷ nodes)))
                  × P x)
                at (rw (hit, ==_self node, rest) refl, all.0)
          | inr miss ↦
              let (rest, in_rest) =
                entry_from-replace node nodes b entry value (λ n. P n × (n ≢ node)) p.2 d.1
                  (AllOf-and P (λ n. n ≢ node) nodes all.1 (Away-AllOf node nodes d.0))
                  (rw (p.0, miss) at e) in
              let other : node == entry ≡ false = ne→== node entry (λ same. in_rest.1 (sym same)) in
              (rw (other, miss, rest) refl, in_rest.0)
        ]

    abbrev pub replaced : (ℕ → List (K × V)) → V → ℕ → List (K × V)
    replaced contents value =
        let i = hash_index hash same_key m key in
        update contents i (replace same_key key value (contents i))

    -- A store through the pointer that find gives changes the value of the first pair of the key in
    -- its bucket, and nothing else, while the bucket has fewer than 65536 pairs.
    pub store-Holds :
        (contents : ℕ → List (K × V)) (value : V) (entry : ℕ)
        → Holds m contents
        → 0 < m.buckets_total
        → length (contents (hash_index hash same_key m key)) < 0x1_0000
        → find hash same_key m key ≡ some entry
        → Holds (store m entry value) (replaced contents value)
    unfolding find get_entry hash_index store
    store-Holds contents value entry h some_buckets small e =
        let i = hash_index hash same_key m key in
        let lt : i < m.buckets_total = omega (arith, bit_and-le (hash key) (m.buckets_total - 1)) in
        let all : m.count i ≡ length (h.nodes i) =
          omega (arith, h.counts i lt, length-contents m contents h i lt) in
        let (here, mine) =
          entry_from-replace (head_of m i) (h.nodes i) (head_of m i) entry value
            (IsEntry m h.owner i) (h.rings i lt).path (h.rings i lt).distinct (h.entries i lt)
            (rw all at e) in
        record {
          nodes = h.nodes;
          owner = h.owner;
          rings = h.rings;
          counts = h.counts;
          heads = h.heads;
          entries = h.entries;
          fresh = h.fresh;
          held = λ j l. elim (Bool-cases (j == i)) [
            | inl same ↦ let at : j ≡ i = ==→eq j i same in rw (at, ==_self i, ← h.held i lt) here
            | inr other ↦ rw other (
                pairs-store-Away m entry value (h.nodes j) (
                  AllOf-Away entry (h.nodes j) (
                    AllOf-map _ _ (h.nodes j)
                      (λ n k same.
                        let both : j ≡ i = sym k.0 ∙ ap h.owner same ∙ mine.0 in ground arith)
                      (h.entries j l)))
                ∙ h.held j l)
          ];
        }

pub lookup-replace {ℓ} :
    {K V : Type ℓ} (same_key : K → K → Bool) (key : K) (value v : V) (xs : List (K × V))
    → lookup same_key key xs ≡ some v
    → lookup same_key key (replace same_key key value xs) ≡ some value
lookup-replace same_key key value v [] e = absurd cc
lookup-replace same_key key value v ((k, w) ∷ xs) e = elim (Bool-cases (same_key k key)) [
  | inl hit ↦ rw (hit, hit) refl
  | inr miss ↦ rw (miss, miss) (lookup-replace same_key key value v xs (rw miss at e))
]

pub length-replace {ℓ} :
    {K V : Type ℓ} (same_key : K → K → Bool) (key : K) (value : V) (xs : List (K × V))
    → length (replace same_key key value xs) ≡ length xs
length-replace same_key key value [] = refl
length-replace same_key key value ((k, w) ∷ xs) = elim (Bool-cases (same_key k key)) [
  | inl hit ↦ rw hit refl
  | inr miss ↦ rw miss (ap suc (length-replace same_key key value xs))
]
