-- ===== src/HashMap/Insert.antt =====
-- insert adds its pair at the end of the bucket of the key, and nothing else changes.
use mem_perf_pro.Base.{
  ℕ, ◌+◌, ◌%◌, ◌≤◌, ◌<◌, ◌≡◌, ◌≢◌, refl, ap, sym, ◌∙◌, List, [], ◌∷◌, ◌++◌, length, length-append,
  update, ◌==◌, Bool-cases, inl, inr, arith, ==→eq, ==_self, ne→==, add_16, add_64, sub_64,
}
use mem_perf_pro.HashList.{Links, list_init, list_insert_tail, insert_between}
use mem_perf_pro.HashList.Ring.{
  Away, IsRing, AllOf, AllOf-map, PathTo-frame, prev-last, last_of, sym_ne,
}
use mem_perf_pro.HashList.Insert.{list_insert_tail-IsRing}
use mem_perf_pro.MyMalloc.{malloc}
use mem_perf_pro.HashMap.{HashMap, head_of, create_new_entry, insert_entry}
use mem_perf_pro.HashMap.Represents.{pairs, Holds, IsEntry}

-- Links of nodes that are none of the ring do not matter.
pub IsRing-frame :
    (h h' : Links) (P : ℕ → Type 0) (head : ℕ) (xs : List ℕ)
    → ((c : ℕ) → P c → (h'.next c ≡ h.next c) × (h'.prev c ≡ h.prev c))
    → P head
    → AllOf P xs
    → IsRing h head xs
    → IsRing h' head xs
IsRing-frame h h' P head xs e ph pxs r = record {
  path =
      PathTo-frame h h' P P head xs head (λ c p. (e c p).0) (λ c p. (e c p).1) ph pxs pxs ph r.path;
  outside = r.outside;
  distinct = r.distinct;
}

AllOf-last : (P : ℕ → Type 0) (a : ℕ) (xs : List ℕ) → P a → AllOf P xs → P (last_of a xs)
unfolding AllOf last_of
AllOf-last P a [] pa ps = pa
AllOf-last P a (x ∷ xs) pa ps = AllOf-last P x xs ps.0 ps.1

AllOf-Away : (c : ℕ) (xs : List ℕ) → AllOf (λ x. x ≢ c) xs → Away c xs
unfolding AllOf Away
AllOf-Away c [] a = tt
AllOf-Away c (x ∷ xs) a = (sym_ne x c a.0, AllOf-Away c xs a.1)

AllOf-append : (P : ℕ → Type 0) (xs ys : List ℕ) → AllOf P xs → AllOf P ys → AllOf P (xs ++ ys)
unfolding AllOf
AllOf-append P [] ys a b = b
AllOf-append P (x ∷ xs) ys a b = (a.0, AllOf-append P xs ys a.1 b)

-- The links of the map after a new entry is put at the end of the ring of `head`.
abbrev linked : Links → ℕ → ℕ → Links
linked h node head = list_insert_tail (list_init h node) node head

-- The ring that gets the node, and a ring that shares no node with it.
linked-IsRing :
    (h : Links) (node head : ℕ) (xs : List ℕ)
    → IsRing h head xs
    → head ≢ node
    → AllOf (λ x. x ≢ node) xs
    → IsRing (linked h node head) head (xs ++ node ∷ [])
unfolding list_init
linked-IsRing h node head xs r n all =
    list_insert_tail-IsRing (list_init h node) node head xs
      (IsRing-frame h (list_init h node) (λ c. c ≢ node) head xs
        (λ c k. (ground arith, ground arith)) n all r)
      (sym_ne head node n) (AllOf-Away node xs all)

linked-other :
    (h : Links) (node head : ℕ) (xs : List ℕ) (owner : ℕ → ℕ) (i : ℕ)
    → IsRing h head xs
    → owner head ≢ i
    → AllOf (λ x. owner x ≢ i) xs
    → head ≢ node
    → (c : ℕ) → (owner c ≡ i) × (c ≢ node)
    → ((linked h node head).next c ≡ h.next c) × ((linked h node head).prev c ≡ h.prev c)
unfolding list_init list_insert_tail insert_between
linked-other h node head xs owner i r oh all n c (oc, nc) =
    let last = last_of head xs in
    let e : h.prev head ≡ last = prev-last h head xs head r.path in
    let ol : owner last ≢ i = AllOf-last (λ x. owner x ≢ i) head xs oh all in
    let cl : c ≢ last = λ same. ol (ap owner (sym same) ∙ oc) in
    let ch : c ≢ head = λ same. oh (ap owner (sym same) ∙ oc) in
    (ground (arith, e), ground (arith, e))

pairs-kept {ℓ} :
    {K V : Type ℓ} (m m' : HashMap K V) (nodes : List ℕ) (P : ℕ → Type 0)
    → ((c : ℕ) → P c → (m'.key c ≡ m.key c) × (m'.value c ≡ m.value c))
    → AllOf P nodes
    → pairs m' nodes ≡ pairs m nodes
unfolding AllOf
pairs-kept m m' [] P e all = refl
pairs-kept m m' (node ∷ nodes) P e all =
    rw ((e node all.0).0, (e node all.0).1, pairs-kept m m' nodes P e all.1) refl

pub pairs-append {ℓ} :
    {K V : Type ℓ} (m : HashMap K V) (xs ys : List ℕ)
    → pairs m (xs ++ ys) ≡ pairs m xs ++ pairs m ys
pairs-append m [] ys = refl
pairs-append m (x ∷ xs) ys = ap (λ rest. (m.key x, m.value x) ∷ rest) (pairs-append m xs ys)

module _ {ℓ} {K V : Type ℓ} (entry_size : ℕ) (m : HashMap K V) (index : ℕ) (key : K)
    (value : V) where
  abbrev pub node_of : ℕ
  node_of = m.memory.overhead_pointer

  -- what insert_entry leaves, with the address of the entry written out
  abbrev pub inserted : HashMap K V
  inserted = record m {
    memory = record m.memory {
      overhead_pointer = m.memory.overhead_pointer + entry_size;
      object_num = (malloc m.memory entry_size).0.object_num;
    };
    links = linked m.links node_of (head_of m index);
    key = update m.key node_of key;
    value = update m.value node_of value;
    count = update m.count index (add_16 (m.count index) 1);
    total_entry = add_64 m.total_entry 1;
  }

  pub insert_entry-inserted :
      m.memory.overhead_pointer + entry_size < 0x1_0000_0000_0000_0000
      → insert_entry entry_size m index key value ≡ (inserted, node_of)
  unfolding insert_entry create_new_entry malloc
  insert_entry-inserted h =
      let up : add_64 m.memory.overhead_pointer entry_size
          ≡ m.memory.overhead_pointer + entry_size =
        omega arith in
      let down : sub_64 (m.memory.overhead_pointer + entry_size) entry_size
          ≡ m.memory.overhead_pointer =
        omega arith in
      simp (up, down) refl

  module _ (contents : ℕ → List (K × V)) (h : Holds m contents) (lt : index < m.buckets_total)
      (some_size : 0 < entry_size)
      (room : m.memory.overhead_pointer + entry_size ≤ m.memory.end_pointer) where
    abbrev new_nodes : ℕ → List ℕ
    new_nodes = update h.nodes index (h.nodes index ++ node_of ∷ [])

    abbrev new_owner : ℕ → ℕ
    new_owner = update h.owner node_of index

    head_apart : (i : ℕ) → i < m.buckets_total → head_of m i ≢ node_of
    head_apart i l e = elim (h.fresh i l) [
      | inl below ↦ omega (arith, e)
      | inr above ↦ omega (arith, e)
    ]

    not_node : (i : ℕ) → i < m.buckets_total → AllOf (λ x. x ≢ node_of) (h.nodes i)
    not_node i l = AllOf-map _ _ (h.nodes i) (λ x k e. omega (arith, k.1, e)) (h.entries i l)

    new-IsRing : (i : ℕ) → i < m.buckets_total → IsRing inserted.links (head_of m i) (new_nodes i)
    new-IsRing i l = elim (Bool-cases (i == index)) [
      | inl same ↦
          let e : i ≡ index = ==→eq i index same in
          rw (e, ==_self index)
            (linked-IsRing m.links node_of (head_of m index) (h.nodes index) (h.rings index lt)
              (head_apart index lt) (not_node index lt))
      | inr other ↦
          let n : index ≢ i = λ e. ground arith in
          rw other (
            IsRing-frame m.links inserted.links (λ c. (h.owner c ≡ i) × (c ≢ node_of)) (head_of m i)
              (h.nodes i)
              (linked-other m.links node_of (head_of m index) (h.nodes index) h.owner i
                (h.rings index lt) (λ e. n (sym (h.heads index lt) ∙ e))
                (AllOf-map _ _ (h.nodes index) (λ x k e. n (sym k.0 ∙ e)) (h.entries index lt))
                (head_apart index lt))
              (h.heads i l, head_apart i l)
              (AllOf-map _ _ (h.nodes i) (λ x k. (k.0, λ e. omega (arith, k.1, e))) (h.entries i l))
              (h.rings i l))
    ]

    old_entries : (i : ℕ) → i < m.buckets_total → AllOf (IsEntry inserted new_owner i) (h.nodes i)
    old_entries i l =
        AllOf-map (IsEntry m h.owner i) (IsEntry inserted new_owner i) (h.nodes i)
          (λ x k. (ground (arith, k.0, k.1), omega (arith, k.1))) (h.entries i l)

    new_entries : (i : ℕ) → i < m.buckets_total → AllOf (IsEntry inserted new_owner i) (new_nodes i)
    unfolding AllOf
    new_entries i l = elim (Bool-cases (i == index)) [
      | inl same ↦
          let e : i ≡ index = ==→eq i index same in
          rw (e, ==_self index)
            (AllOf-append (IsEntry inserted new_owner index) (h.nodes index) (node_of ∷ [])
              (old_entries index lt) ((ground arith, omega arith), tt))
      | inr other ↦ rw other (old_entries i l)
    ]

    new_count : (i : ℕ) → i < m.buckets_total → inserted.count i ≡ length (new_nodes i) % 0x1_0000
    new_count i l = elim (Bool-cases (i == index)) [
      | inl same ↦
          let e : i ≡ index = ==→eq i index same in
          rw (e, ==_self index)
            (omega (arith, h.counts index lt, length-append (h.nodes index) (node_of ∷ [])))
      | inr other ↦ rw other (h.counts i l)
    ]

    old_pairs : (i : ℕ) → i < m.buckets_total → pairs inserted (h.nodes i) ≡ contents i
    old_pairs i l =
        pairs-kept m inserted (h.nodes i) (λ x. x ≢ node_of)
          (λ c n. let e = ne→== c node_of n in (rw e refl, rw e refl)) (not_node i l)
        ∙ h.held i l

    new_pairs :
        (i : ℕ)
        → i < m.buckets_total
        → pairs inserted (new_nodes i)
          ≡ update contents index (contents index ++ (key, value) ∷ []) i
    new_pairs i l = elim (Bool-cases (i == index)) [
      | inl same ↦
          let e : i ≡ index = ==→eq i index same in
          rw (e, ==_self index)
            (pairs-append inserted (h.nodes index) (node_of ∷ [])
              ∙ rw (old_pairs index lt, ==_self node_of) refl)
      | inr other ↦ rw other (old_pairs i l)
    ]

    pub insert_entry-Holds :
        Holds inserted (update contents index (contents index ++ (key, value) ∷ []))
    insert_entry-Holds = record {
      nodes = new_nodes;
      owner = new_owner;
      rings = new-IsRing;
      counts = new_count;
      heads = λ i l. ground (arith, h.heads i l, head_apart i l);
      entries = new_entries;
      fresh = λ i l. elim (h.fresh i l) [ inl below ↦ inl (omega arith) | inr above ↦ inr above ];
      held = new_pairs;
    }
