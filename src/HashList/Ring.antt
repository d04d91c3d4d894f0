-- ===== src/HashList/Ring.antt =====
-- What a list is: a ring of distinct nodes that `next` and `prev` go around.
use mem_perf_pro.Base.{ℕ, ◌≡◌, ◌≢◌, List, [], ◌∷◌, ◌++◌, ◌∙◌, sym}
use mem_perf_pro.HashList.{Links}

-- The node is none of the list.
unfoldable pub Away : ℕ → List ℕ → Type 0
Away x [] = Unit
Away x (y ∷ ys) = (x ≢ y) × Away x ys

unfoldable pub Distinct : List ℕ → Type 0
unfolding Away
Distinct [] = Unit
Distinct (x ∷ xs) = Away x xs × Distinct xs

-- From `a` the list `xs` and then `b` follow, one behind the other.
unfoldable pub PathTo : Links → ℕ → List ℕ → ℕ → Type 0
PathTo h a [] b = (h.next a ≡ b) × (h.prev b ≡ a)
PathTo h a (x ∷ xs) b = (h.next a ≡ x) × (h.prev x ≡ a) × PathTo h x xs b

pub record IsRing (h : Links) (head : ℕ) (xs : List ℕ) : Type 0 where
  pub path : PathTo h head xs head
  pub outside : Away head xs
  pub distinct : Distinct xs

unfoldable pub last_of : ℕ → List ℕ → ℕ
last_of a [] = a
last_of a (x ∷ xs) = last_of x xs

pub prev-last :
    (h : Links) (a : ℕ) (xs : List ℕ) (b : ℕ) → PathTo h a xs b → h.prev b ≡ last_of a xs
unfolding PathTo last_of
prev-last h a [] b p = p.1
prev-last h a (x ∷ xs) b p = prev-last h x xs b p.2

pub Away-last : (c a : ℕ) (xs : List ℕ) → c ≢ a → Away c xs → c ≢ last_of a xs
unfolding Away last_of
Away-last c a [] n w = n
Away-last c a (x ∷ xs) n w = Away-last c x xs w.0 w.1

pub Away-append : (c : ℕ) (xs ys : List ℕ) → Away c xs → Away c ys → Away c (xs ++ ys)
unfolding Away
Away-append c [] ys v w = w
Away-append c (x ∷ xs) ys v w = (v.0, Away-append c xs ys v.1 w)

-- `P` holds of every node of the list.
unfoldable pub AllOf : (ℕ → Type 0) → List ℕ → Type 0
AllOf P [] = Unit
AllOf P (x ∷ xs) = P x × AllOf P xs

-- Only the `next` of the first node and of the inner ones and the `prev` of the inner nodes and of the
-- last matter.
pub PathTo-frame :
    (h h' : Links) (P Q : ℕ → Type 0) (a : ℕ) (xs : List ℕ) (b : ℕ)
    → ((c : ℕ) → P c → h'.next c ≡ h.next c)
    → ((c : ℕ) → Q c → h'.prev c ≡ h.prev c)
    → P a
    → AllOf P xs
    → AllOf Q xs
    → Q b
    → PathTo h a xs b
    → PathTo h' a xs b
unfolding PathTo AllOf
PathTo-frame h h' P Q a [] b en ep pa ps qs qb p = (en a pa ∙ p.0, ep b qb ∙ p.1)
PathTo-frame h h' P Q a (x ∷ xs) b en ep pa ps qs qb p =
    (en a pa ∙ p.0, ep x qs.0 ∙ p.1, PathTo-frame h h' P Q x xs b en ep ps.0 ps.1 qs.1 qb p.2)

pub sym_ne : (a b : ℕ) → a ≢ b → b ≢ a
sym_ne a b n e = n (sym e)

pub Away-AllOf : (c : ℕ) (xs : List ℕ) → Away c xs → AllOf (λ x. x ≢ c) xs
unfolding Away AllOf
Away-AllOf c [] w = tt
Away-AllOf c (x ∷ xs) w = (sym_ne c x w.0, Away-AllOf c xs w.1)

pub AllOf-map : (P Q : ℕ → Type 0) (xs : List ℕ) → ((x : ℕ) → P x → Q x) → AllOf P xs → AllOf Q xs
unfolding AllOf
AllOf-map P Q [] f a = tt
AllOf-map P Q (x ∷ xs) f a = (f x a.0, AllOf-map P Q xs f a.1)

pub AllOf-and :
    (P Q : ℕ → Type 0) (xs : List ℕ) → AllOf P xs → AllOf Q xs → AllOf (λ x. P x × Q x) xs
unfolding AllOf
AllOf-and P Q [] a b = tt
AllOf-and P Q (x ∷ xs) a b = ((a.0, b.0), AllOf-and P Q xs a.1 b.1)
