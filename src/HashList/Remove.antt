-- ===== src/HashList/Remove.antt =====
-- Nodes that leave a ring.
use mem_perf_pro.Base.{
  ℕ, false, ne→==, ◌≡◌, ◌≢◌, refl, none, some, List, [], ◌∷◌, ◌++◌, ◌==◌, arith,
}
use mem_perf_pro.HashList.{
  Links, node_init, list_link, list_remove_node, list_retrieve_item, is_list_empty,
}
use mem_perf_pro.HashList.Ring.{
  Away, Distinct, PathTo, IsRing, last_of, Away-last, sym_ne, PathTo-frame, Away-AllOf,
}

unfoldable first_of : List ℕ → ℕ → ℕ
first_of [] b = b
first_of (x ∷ xs) b = x

PathTo-at :
    (h : Links) (a : ℕ) (xs : List ℕ) (node : ℕ) (ys : List ℕ) (b : ℕ)
    → PathTo h a (xs ++ node ∷ ys) b
    → (h.prev node ≡ last_of a xs) × (h.next node ≡ first_of ys b)
unfolding PathTo last_of first_of
PathTo-at h a [] node [] b p = (p.1, p.2.0)
PathTo-at h a [] node (y ∷ ys) b p = (p.1, p.2.0)
PathTo-at h a (x ∷ xs) node ys b p = PathTo-at h x xs node ys b p.2

Away-middle :
    (c : ℕ) (xs : List ℕ) (node : ℕ) (ys : List ℕ)
    → Away c (xs ++ node ∷ ys)
    → (c ≢ node) × Away c (xs ++ ys) × Away c xs × (c ≢ last_of node ys)
unfolding Away
Away-middle c [] node ys w = (w.0, w.1, tt, Away-last c node ys w.0 w.1)
Away-middle c (x ∷ xs) node ys w =
    let m = Away-middle c xs node ys w.1 in (m.0, (w.0, m.1), (w.0, m.2), m.3)

Away-first :
    (c : ℕ) (xs : List ℕ) (node : ℕ) (ys : List ℕ) (b : ℕ)
    → Away c (xs ++ node ∷ ys)
    → c ≢ b
    → c ≢ first_of ys b
unfolding Away first_of
Away-first c [] node [] b w n = n
Away-first c [] node (y ∷ ys) b w n = w.1.0
Away-first c (x ∷ xs) node ys b w n = Away-first c xs node ys b w.1 n

Distinct-middle :
    (xs : List ℕ) (node : ℕ) (ys : List ℕ)
    → Distinct (xs ++ node ∷ ys)
    → Distinct (xs ++ ys) × Away node (xs ++ ys)
unfolding Distinct Away
Distinct-middle [] node ys d = (d.1, d.0)
Distinct-middle (x ∷ xs) node ys d =
    let m = Distinct-middle xs node ys d.1 in
    let w = Away-middle x xs node ys d.0 in ((w.1, m.0), (sym_ne x node w.0, m.1))

-- The two neighbours of a node are linked.
unlink-PathTo :
    (h : Links) (a : ℕ) (xs : List ℕ) (node : ℕ) (ys : List ℕ) (b : ℕ)
    → PathTo h a (xs ++ node ∷ ys) b
    → Away a (xs ++ node ∷ ys)
    → Distinct (xs ++ node ∷ ys)
    → Away b (xs ++ node ∷ ys)
    → PathTo (list_link h (last_of a xs) (first_of ys b)) a (xs ++ ys) b
unfolding PathTo list_link last_of first_of Away Distinct
unlink-PathTo h a [] node [] b p aw d bw = (ground arith, ground arith)
unlink-PathTo h a [] node (y ∷ ys) b p aw d bw = (
  ground arith,
  ground arith,
  PathTo-frame h (list_link h a y) (λ c. c ≢ a) (λ c. c ≢ y) y ys b (λ c k. ground arith)
      (λ c k. ground arith) (sym_ne a y aw.1.0) (Away-AllOf a ys aw.1.1) (Away-AllOf y ys d.1.0)
      bw.1.0 p.2.2,
)
unlink-PathTo h a (x ∷ xs) node ys b p aw d bw =
    let al = Away-last a x xs aw.0 (Away-middle a xs node ys aw.1).2 in
    let xf = Away-first x xs node ys b d.0 (sym_ne b x bw.0) in
    (ground (arith, p.0), ground (arith, p.1), unlink-PathTo h x xs node ys b p.2 d.0 d.1 bw.1)

-- listRemoveNode takes the node out of its ring and leaves it a ring of its own.
pub list_remove_node-IsRing :
    (h : Links) (head : ℕ) (xs : List ℕ) (node : ℕ) (ys : List ℕ)
    → IsRing h head (xs ++ node ∷ ys)
    → IsRing (list_remove_node h node) head (xs ++ ys) × IsRing (list_remove_node h node) node []
unfolding list_remove_node node_init PathTo Away Distinct
list_remove_node-IsRing h head xs node ys r =
    let at = PathTo-at h head xs node ys head r.path in
    let (d, nw) = Distinct-middle xs node ys r.distinct in
    let hw = Away-middle head xs node ys r.outside in
    let others = Away-AllOf node (xs ++ ys) nw in
    rw (at.0, at.1)
      (
        record {
          path =
              PathTo-frame (list_link h (last_of head xs) (first_of ys head)) _ (λ c. c ≢ node)
                (λ c. c ≢ node) head (xs ++ ys) head (λ c k. ground arith) (λ c k. ground arith)
                hw.0 others others hw.0
                (unlink-PathTo h head xs node ys head r.path r.outside r.distinct r.outside);
          outside = hw.1;
          distinct = d;
        },
        record { path = (ground arith, ground arith); outside = tt; distinct = tt },
      )

-- listRetrieveItem gives the first node of a list that is not empty and takes it out; it gives
-- nothing for an empty list, which stays as it is.
pub list_retrieve_item-IsRing :
    (h : Links) (head node : ℕ) (xs : List ℕ)
    → (IsRing h head [] → list_retrieve_item h head ≡ (h, none))
      × (IsRing h head (node ∷ xs)
          → ((list_retrieve_item h head).1 ≡ some node)
            × IsRing (list_retrieve_item h head).0 head xs)
unfolding list_retrieve_item is_list_empty PathTo Away
list_retrieve_item-IsRing h head node xs = (
  λ r. ground (arith, r.path.0),
  λ r.
      let first : h.next head ≡ node = r.path.0 in
      let other : node == head ≡ false = ne→== node head (sym_ne head node r.outside.0) in
      rw (first, other) (refl, (list_remove_node-IsRing h head [] node xs r).0),
)
