-- ===== src/HashMap/Iterator/Every.antt =====
-- The iterator meets every pair of the map, bucket by bucket.
use mem_perf_pro.Base.{
  ℕ, zero, suc, ◌+◌, ◌-◌, ◌<◌, ◌≡◌, ◌≢◌, refl, sym, ap, subst, ◌∙◌, ◌==◌, ==_self, ne→==,
  if◌then◌else◌, Option, none, some, List, [], ◌∷◌, ◌++◌, length, length-append, arith,
}
use mem_perf_pro.HashList.{is_list_tail}
use mem_perf_pro.HashList.Ring.{IsRing, PathTo, Away, Distinct, last_of, prev-last, Away-last}
use mem_perf_pro.HashMap.{HashMap, head_of}
use mem_perf_pro.HashMap.Represents.{pairs, Holds, length-pairs, length-contents}
use mem_perf_pro.HashMap.Insert.{pairs-append}
use mem_perf_pro.HashMap.Iterator.{
  Iterator, with_first, bucket_from, begin, advance, entries_from, from_first,
}

-- the lists of so many buckets from one on, one behind the other
abbrev pub joined {ℓ} : {A : Type ℓ} → (ℕ → List A) → ℕ → ℕ → List A
joined lists zero i = []
joined lists (suc left) i = lists i ++ joined lists left (i + 1)

abbrev behind : List ℕ → Option (List ℕ) → Option (List ℕ)
behind xs none = none
behind xs (some ys) = some (xs ++ ys)

-- the rounds for the entries of a list, and more
abbrev rounds_for : List ℕ → ℕ → ℕ
rounds_for [] more = more
rounds_for (x ∷ xs) more = suc (rounds_for xs more)

rounds_for_lem : (xs : List ℕ) (more : ℕ) → rounds_for xs more ≡ length xs + more
rounds_for_lem [] more = omega arith
rounds_for_lem (x ∷ xs) more = omega (arith, rounds_for_lem xs more)

with_first-behind :
    (x : ℕ) (xs : List ℕ) (o : Option (List ℕ)) → with_first x (behind xs o) ≡ behind (x ∷ xs) o
with_first-behind x xs none = refl
with_first-behind x xs (some ys) = refl

with_first_lem : (x : ℕ) (o : Option (List ℕ)) → with_first x o ≡ behind (x ∷ []) o
with_first_lem x none = refl
with_first_lem x (some ys) = refl

module _ {ℓ} {K V : Type ℓ} (m : HashMap K V) where
  abbrev behind_bucket : ℕ → Iterator
  behind_bucket pos = bucket_from m (m.buckets_total - (pos + 1)) (pos + 1)

  advance-last :
      (pos x : ℕ) → m.links.prev (head_of m pos) ≡ x → advance m pos x ≡ behind_bucket pos
  unfolding advance is_list_tail
  advance-last pos x e = rw (e, ==_self x) refl

  advance-next :
      (pos x y : ℕ)
      → m.links.prev (head_of m pos) ≢ x
      → m.links.next x ≡ y
      → advance m pos x ≡ record { entry = some y; pos = pos }
  unfolding advance is_list_tail
  advance-next pos x y inner e = rw (ne→== (m.links.prev (head_of m pos)) x inner, e) refl

  -- From an entry on, the rest of its bucket comes, and then the buckets behind.
  entries_from-bucket :
      (fuel pos x : ℕ) (xs : List ℕ)
      → PathTo m.links x xs (head_of m pos)
      → Away x xs
      → Distinct xs
      → entries_from (rounds_for (x ∷ xs) fuel) m (record { entry = some x; pos = pos })
        ≡ behind (x ∷ xs) (entries_from fuel m (behind_bucket pos))
  unfolding entries_from PathTo Away Distinct last_of
  entries_from-bucket fuel pos x [] path away distinct =
      ap (λ it. with_first x (entries_from fuel m it)) (advance-last pos x path.1)
      ∙ with_first_lem x (entries_from fuel m (behind_bucket pos))
  entries_from-bucket fuel pos x (y ∷ ys) path away distinct =
      let last = prev-last m.links x (y ∷ ys) (head_of m pos) path in
      ap (λ it. with_first x (entries_from (rounds_for (y ∷ ys) fuel) m it))
        (advance-next pos x y (λ e. Away-last x y ys away.0 away.1 (sym e ∙ last)) path.0)
      ∙ (ap (with_first x) (entries_from-bucket fuel pos y ys path.2 distinct.0 distinct.1)
          ∙ with_first-behind x (y ∷ ys) _)

module _ {ℓ} {K V : Type ℓ} (m : HashMap K V) (contents : ℕ → List (K × V))
    (holds : Holds m contents)
    (small : (i : ℕ) → i < m.buckets_total → length (contents i) < 0x1_0000) where
  abbrev nodes_from : ℕ → ℕ → List ℕ
  nodes_from left pos = joined holds.nodes left pos

  count_lem : (pos : ℕ) → pos < m.buckets_total → m.count pos ≡ length (holds.nodes pos)
  count_lem pos lt =
      omega (arith, holds.counts pos lt, length-contents m contents holds pos lt, small pos lt)

  first_entry :
      (left pos x : ℕ) (xs : List ℕ)
      → m.count pos ≡ suc (length xs)
      → IsRing m.links (head_of m pos) (x ∷ xs)
      → bucket_from m (suc left) pos ≡ record { entry = some x; pos = pos }
  unfolding bucket_from PathTo
  first_entry left pos x xs count ring =
      rw (ne→== (m.count pos) 0 λ e. omega (arith, e, count), ring.path.0) refl

  -- the buckets from one on, when the nodes of the first one are known
  bucket_from-first :
      (left pos : ℕ) (nodes : List ℕ)
      → holds.nodes pos ≡ nodes
      → pos + suc left ≡ m.buckets_total
      → entries_from (suc (length (nodes_from left (pos + 1)))) m (bucket_from m left (pos + 1))
        ≡ some (nodes_from left (pos + 1))
      → entries_from
          (rounds_for nodes (suc (length (nodes_from left (pos + 1)))))
          m
          (bucket_from m (suc left) pos)
        ≡ some (nodes ++ nodes_from left (pos + 1))
  unfolding bucket_from PathTo Distinct
  bucket_from-first left pos [] is total rest =
      let empty : m.count pos ≡ 0 =
        count_lem pos (omega (arith, total)) ∙ ap (λ (l : List ℕ). length l) is in
      subst
        (λ n.
          entries_from (suc (length (nodes_from left (pos + 1)))) m (
            if n == 0
            then bucket_from m left (pos + 1)
            else record { entry = some (m.links.next (head_of m pos)); pos = pos })
          ≡ some (nodes_from left (pos + 1)))
        (sym empty) rest
  bucket_from-first left pos (x ∷ xs) is total rest =
      let more = suc (length (nodes_from left (pos + 1))) in
      let lt : pos < m.buckets_total = omega (arith, total) in
      let count : m.count pos ≡ suc (length xs) =
        count_lem pos lt ∙ ap (λ (l : List ℕ). length l) is in
      let ring : IsRing m.links (head_of m pos) (x ∷ xs) =
        subst (IsRing m.links (head_of m pos)) is (holds.rings pos lt) in
      let left_is : m.buckets_total - (pos + 1) ≡ left = omega (arith, total) in
      (ap (entries_from (rounds_for (x ∷ xs) more) m) (first_entry left pos x xs count ring)
        ∙ entries_from-bucket m more pos x xs ring.path.2 ring.distinct.0 ring.distinct.1)
      ∙ ap (behind (x ∷ xs))
          (ap (λ n. entries_from more m (bucket_from m n (pos + 1))) left_is ∙ rest)

  -- So it goes for every bucket.
  bucket_from-all :
      (left pos : ℕ)
      → pos + left ≡ m.buckets_total
      → entries_from (suc (length (nodes_from left pos))) m (bucket_from m left pos)
        ≡ some (nodes_from left pos)
  unfolding bucket_from entries_from
  bucket_from-all zero pos total = refl
  bucket_from-all (suc left) pos total =
      let nodes = holds.nodes pos in
      let rounds : rounds_for nodes (suc (length (nodes_from left (pos + 1))))
          ≡ suc (length (nodes_from (suc left) pos)) =
        omega (
          arith,
          rounds_for_lem nodes (suc (length (nodes_from left (pos + 1)))),
          length-append nodes (nodes_from left (pos + 1)),
        ) in
      subst
        (λ fuel.
          entries_from fuel m (bucket_from m (suc left) pos)
          ≡ some (nodes ++ nodes_from left (pos + 1)))
        rounds
        (bucket_from-first left pos nodes refl total
          (bucket_from-all left (pos + 1) (omega (arith, total))))

  from_first_lem :
      (fuel : ℕ) (entry : Option ℕ) (pos : ℕ)
      → let it : Iterator = record { entry = entry; pos = pos } in
        entries_from (suc fuel) m (from_first it) ≡ entries_from (suc fuel) m it
  unfolding entries_from
  from_first_lem fuel none pos = refl
  from_first_lem fuel (some x) pos = refl

  begin-all :
      (fuel : ℕ)
      → entries_from (suc fuel) m (begin m)
        ≡ entries_from (suc fuel) m (bucket_from m m.buckets_total 0)
  unfolding begin
  begin-all fuel = let it = bucket_from m m.buckets_total 0 in from_first_lem fuel it.entry it.pos

  pairs-joined :
      (left pos : ℕ)
      → pos + left ≡ m.buckets_total
      → pairs m (nodes_from left pos) ≡ joined contents left pos
  pairs-joined zero pos total = refl
  pairs-joined (suc left) pos total =
      pairs-append m (holds.nodes pos) (nodes_from left (pos + 1))
      ∙ simp
          (
            holds.held pos (omega (arith, total)),
            pairs-joined left (pos + 1) (omega (arith, total)),
          )
          refl

  length-joined : length (nodes_from m.buckets_total 0) ≡ length (joined contents m.buckets_total 0)
  length-joined =
      sym (length-pairs m (nodes_from m.buckets_total 0))
      ∙ ap (λ (l : List (K × V)). length l) (pairs-joined m.buckets_total 0 (omega arith))

  -- `for(auto entry: map)` runs its body for every pair of the map once, bucket by bucket, each in
  -- the order of insertion, and ends, when every bucket has fewer than 65536 pairs; a round for every
  -- pair and one more are enough.
  pub entries_from-every :
      (entries : List ℕ) × (entries_from
          (suc (length (joined contents m.buckets_total 0)))
          m
          (begin m)
        ≡ some entries)
      × (pairs m entries ≡ joined contents m.buckets_total 0)
  entries_from-every = (
    nodes_from m.buckets_total 0,
    subst (λ n. entries_from (suc n) m (begin m) ≡ some (nodes_from m.buckets_total 0))
        length-joined (begin-all _ ∙ bucket_from-all m.buckets_total 0 (omega arith)),
    pairs-joined m.buckets_total 0 (omega arith),
  )
