-- ===== src/HashList/Insert.antt =====
-- Insertion at the two ends of a ring.
use mem_perf_pro.Base.{ℕ, ◌≢◌, List, [], ◌∷◌, ◌++◌, arith}
use mem_perf_pro.HashList.{Links, list_init, insert_between, list_insert_tail, list_insert_head}
use mem_perf_pro.HashList.Ring.{
  Away, Distinct, PathTo, IsRing, last_of, prev-last, Away-last, Away-append, sym_ne, PathTo-frame,
  AllOf-and, Away-AllOf,
}

-- An initialized node is the head of the empty list.
pub list_init-IsRing : (h : Links) (head : ℕ) → IsRing (list_init h head) head []
unfolding list_init PathTo Away Distinct
list_init-IsRing h head = record {
  path = (ground arith, ground arith);
  outside = tt;
  distinct = tt;
}

insert_last-PathTo :
    (h : Links) (node a : ℕ) (xs : List ℕ) (b : ℕ)
    → PathTo h a xs b
    → node ≢ a
    → Away node xs
    → node ≢ b
    → Away a xs
    → Distinct xs
    → Away b xs
    → PathTo (insert_between h node (last_of a xs) b) a (xs ++ node ∷ []) b
unfolding PathTo insert_between last_of Away Distinct
insert_last-PathTo h node a [] b p na nxs nb axs d bxs =
    (ground arith, ground arith, (ground arith, ground arith))
insert_last-PathTo h node a (x ∷ xs) b p na nxs nb axs d bxs =
    let l = Away-last a x xs axs.0 axs.1 in
    (
      ground (arith, p.0),
      ground (arith, p.1),
      insert_last-PathTo h node x xs b p.2 nxs.0 nxs.1 nb d.0 d.1 bxs.1,
    )

Distinct-snoc : (xs : List ℕ) (node : ℕ) → Distinct xs → Away node xs → Distinct (xs ++ node ∷ [])
unfolding Distinct Away
Distinct-snoc [] node d w = (tt, tt)
Distinct-snoc (x ∷ xs) node d w =
    (Away-append x xs (node ∷ []) d.0 (sym_ne node x w.0, tt), Distinct-snoc xs node d.1 w.1)

-- listInsertTail puts a node that is not in the list behind the last one.
pub list_insert_tail-IsRing :
    (h : Links) (node head : ℕ) (xs : List ℕ)
    → IsRing h head xs
    → node ≢ head
    → Away node xs
    → IsRing (list_insert_tail h node head) head (xs ++ node ∷ [])
unfolding list_insert_tail Away
list_insert_tail-IsRing h node head xs r n w = record {
  path =
      rw (prev-last h head xs head r.path)
        (insert_last-PathTo h node head xs head r.path n w n r.outside r.distinct r.outside);
  outside = Away-append head xs (node ∷ []) r.outside (sym_ne node head n, tt);
  distinct = Distinct-snoc xs node r.distinct w;
}

-- listInsertHead puts a node that is not in the list before the first one.
pub list_insert_head-IsRing :
    (h : Links) (node head : ℕ) (xs : List ℕ)
    → IsRing h head xs
    → node ≢ head
    → Away node xs
    → IsRing (list_insert_head h node head) head (node ∷ xs)
unfolding list_insert_head insert_between PathTo Away Distinct
list_insert_head-IsRing h node head [] r n w = record {
  path = (
    ground (arith, r.path.0),
    ground (arith, r.path.0),
    (ground (arith, r.path.0), ground (arith, r.path.0)),
  );
  outside = (sym_ne node head n, tt);
  distinct = (tt, tt);
}
list_insert_head-IsRing h node head (x ∷ xs) r n w =
    let hx = r.outside.0 in
    record {
      path = (
        ground (arith, r.path.0),
        ground (arith, r.path.0),
        (
          ground (arith, r.path.0),
          ground (arith, r.path.0),
          PathTo-frame h (insert_between h node head (h.next head)) (λ c. (c ≢ head) × (c ≢ node))
              (λ c. (c ≢ x) × (c ≢ node)) x xs head (λ c k. ground arith)
              (λ c k. ground (arith, r.path.0)) (sym_ne head x hx, sym_ne node x w.0)
              (AllOf-and _ _ xs (Away-AllOf head xs r.outside.1) (Away-AllOf node xs w.1))
              (AllOf-and _ _ xs (Away-AllOf x xs r.distinct.0) (Away-AllOf node xs w.1))
              (hx, sym_ne node head n) r.path.2,
        ),
      );
      outside = (sym_ne node head n, r.outside);
      distinct = (w, r.distinct);
    }
