-- ===== src/HashMap/Operations.antt =====
-- The operations of the map on what its buckets hold.
use mem_perf_pro.Base.{
  bit_and, bit_and-le, ◌-◌, ℕ, ◌+◌, ◌%◌, ◌≤◌, ◌<◌, ◌≡◌, Bool, true, false, refl, subst, sym, ◌∙◌,
  Option, none, some, if◌then◌else◌, List, [], ◌∷◌, ◌++◌, length, update, ==_self, length-append,
  Bool-cases, Option-cases, inl, inr, arith,
}
use mem_perf_pro.HashMap.{
  HashMap, get_entry, entry_from, insert_entry, create_new_entry, find, hash_index, insert,
  insert_if_absent,
}
use mem_perf_pro.HashMap.Represents.{lookup, Holds, length-contents}
use mem_perf_pro.HashMap.Find.{found, find-lookup}
use mem_perf_pro.HashMap.Insert.{insert_entry-inserted, insert_entry-Holds}

pub contradiction {ℓ κ} :
    {V : Type ℓ} {A : Type κ} (o : Option V) (v : V) → o ≡ some v → none ≡ o → A
contradiction o v e n = absurd cc

is_some {ℓ κ} : {V : Type ℓ} {A : Type κ} (o : Option V) (v : V) → o ≡ none → some v ≡ o → A
is_some o v e n = absurd cc

module _ {ℓ} {K V : Type ℓ} where
  -- A bucket with a new pair at its end.
  abbrev pub with_pair : (ℕ → List (K × V)) → ℕ → K → V → ℕ → List (K × V)
  with_pair contents i key value = update contents i (contents i ++ (key, value) ∷ [])

  -- There is memory for one more entry.
  pub record HasRoom (entry_size : ℕ) (m : HashMap K V) : Type 0 where
    pub buckets : 0 < m.buckets_total
    pub entry : 0 < entry_size
    pub room : m.memory.overhead_pointer + entry_size ≤ m.memory.end_pointer
    pub end : m.memory.end_pointer < 0x1_0000_0000_0000_0000

  pub lookup-append :
      (same_key : K → K → Bool) (key key' : K) (value : V) (xs : List (K × V))
      → lookup same_key key (xs ++ (key', value) ∷ []) ≡ elim (lookup same_key key xs) [
        | some v ↦ some v
        | none ↦ if same_key key' key then some value else none
      ]
  lookup-append same_key key key' value [] = refl
  lookup-append same_key key key' value ((k, v) ∷ xs) = elim (Bool-cases (same_key k key)) [
    | inl e ↦ rw e refl
    | inr e ↦ rw e (lookup-append same_key key key' value xs)
  ]

  module _ (hash : K → ℕ) (same_key : K → K → Bool) (entry_size : ℕ) (m : HashMap K V)
      (contents : ℕ → List (K × V)) (key : K) (value : V) where
    -- insert puts the pair at the end of the bucket of its key and changes no other, when the memory
    -- has room for an entry.
    pub insert-Holds :
        Holds m contents
        → HasRoom entry_size m
        → Holds
            (insert hash same_key entry_size m key value).0
            (with_pair contents (hash_index hash same_key m key) key value)
    unfolding insert hash_index
    insert-Holds h r =
        let i = hash_index hash same_key m key in
        subst (λ result. Holds result.0 (with_pair contents i key value))
          (sym (insert_entry-inserted entry_size m i key value (omega (arith, r.room, r.end))))
          (insert_entry-Holds entry_size m i key value contents h
            (omega (arith, r.buckets, bit_and-le (hash key) (m.buckets_total - 1))) r.entry r.room)

    -- insertIfAbsent says whether the bucket of the key had a pair of it, and inserts one if not,
    -- when the bucket has fewer than 65536 pairs and the memory has room.
    pub insert_if_absent-Holds :
        Holds m contents
        → HasRoom entry_size m
        → length (contents (hash_index hash same_key m key)) < 0x1_0000
        → ((v : V)
            → lookup same_key key (contents (hash_index hash same_key m key)) ≡ some v
            → insert_if_absent hash same_key entry_size m key value ≡ (m, true))
          × (lookup same_key key (contents (hash_index hash same_key m key)) ≡ none
              → ((insert_if_absent hash same_key entry_size m key value).1 ≡ false)
                × Holds
                    (insert_if_absent hash same_key entry_size m key value).0
                    (with_pair contents (hash_index hash same_key m key) key value))
    unfolding insert_if_absent find insert
    insert_if_absent-Holds h r small =
        let found_is = find-lookup hash same_key m contents key h r.buckets small in
        let is_none =
          contradiction (lookup same_key key (contents (hash_index hash same_key m key))) in
        elim (Option-cases (find hash same_key m key)) [
          | inl e ↦ (
            λ v is. is_none v is (rw e at found_is),
            λ is. rw (e, insert_if_absent) (refl, insert-Holds h r),
          )
          | inr (entry, e) ↦ (
            λ v is. rw (e, insert_if_absent) refl,
            λ is.
                is_some (lookup same_key key (contents (hash_index hash same_key m key))) _ is
                  (rw e at found_is),
          )
        ]

    -- A pair that is inserted is found, when its bucket had no pair of the key and fewer than 65535
    -- pairs, and the memory has room: the comparison must take the key to be the same as itself.
    pub find-insert :
        Holds m contents
        → HasRoom entry_size m
        → length (contents (hash_index hash same_key m key)) < 0xffff
        → lookup same_key key (contents (hash_index hash same_key m key)) ≡ none
        → same_key key key ≡ true
        → found hash same_key
            (insert hash same_key entry_size m key value).0
            (find hash same_key (insert hash same_key entry_size m key value).0 key)
          ≡ some value
    unfolding insert insert_entry create_new_entry hash_index
    find-insert h r small new self =
        let i = bit_and (hash key) (m.buckets_total - 1) in
        let m' = (insert hash same_key entry_size m key value).0 in
        find-lookup hash same_key m' (with_pair contents i key value) key (insert-Holds h r)
          r.buckets (rw (==_self i) (omega (arith, length-append (contents i) ((key, value) ∷ []))))
        ∙ rw (==_self i) (lookup-append same_key key key value (contents i) ∙ rw (new, self) refl)

-- A bucket with 65536 pairs, or a multiple, is taken to be empty: its count has 16 bits. No key of it
-- is found.
pub find-wrapped {ℓ} :
    {K V : Type ℓ} (hash : K → ℕ) (same_key : K → K → Bool) (m : HashMap K V)
    (contents : ℕ → List (K × V)) (key : K)
    → Holds m contents
    → 0 < m.buckets_total
    → length (contents (hash_index hash same_key m key)) % 0x1_0000 ≡ 0
    → find hash same_key m key ≡ none
unfolding find get_entry entry_from hash_index
find-wrapped hash same_key m contents key h some_buckets wrapped =
    let i = hash_index hash same_key m key in
    let lt : i < m.buckets_total = omega (arith, bit_and-le (hash key) (m.buckets_total - 1)) in
    let zero_count : m.count i ≡ 0 =
      omega (arith, h.counts i lt, length-contents m contents h i lt) in
    rw zero_count refl
