-- ===== src/ShadowMemory/Extents.antt =====
-- Objects as intervals of bytes, counted from the start of their address range, and the bytes that
-- they have in a window: a page or a cache line.
use mem_perf_pro.Base.{
  ℕ, ◌+◌, ◌-◌, ◌≤◌, ◌<◌, ◌≡◌, ◌≢◌, ◌⊎◌, refl, ◌==◌, if◌then◌else◌, arith, min, max, List, [], ◌∷◌,
  ◌++◌,
}

pub record Extent : Type 0 where
  pub range : ℕ
  pub start : ℕ
  pub size : ℕ

-- the bytes of [start, start + size) in [lo, hi)
unfoldable pub overlap : ℕ → ℕ → ℕ → ℕ → ℕ
overlap start size lo hi = min (start + size) hi - max start lo

-- the bytes of an object in a window of the range `r`
unfoldable pub weight : Extent → ℕ → ℕ → ℕ → ℕ
unfolding overlap
weight o r lo hi = if r == o.range then overlap o.start o.size lo hi else 0

unfoldable pub total : List Extent → ℕ → ℕ → ℕ → ℕ
total [] r lo hi = 0
total (o ∷ os) r lo hi = weight o r lo hi + total os r lo hi

abbrev pub Apart : Extent → Extent → Type 0
Apart o p = (o.range ≢ p.range) ⊎ ((o.start + o.size ≤ p.start) ⊎ (p.start + p.size ≤ o.start))

abbrev pub AllApart : Extent → List Extent → Type 0
AllApart o [] = Unit {0}
AllApart o (p ∷ ps) = Apart o p × AllApart o ps

abbrev pub PairwiseApart : List Extent → Type 0
PairwiseApart [] = Unit {0}
PairwiseApart (o ∷ os) = AllApart o os × PairwiseApart os

pub total_middle :
    (xs ys : List Extent) (o : Extent) (r lo hi : ℕ)
    → total (xs ++ o ∷ ys) r lo hi ≡ weight o r lo hi + total (xs ++ ys) r lo hi
unfolding total
total_middle [] ys o r lo hi = refl
total_middle (x ∷ xs) ys o r lo hi = omega (arith, total_middle xs ys o r lo hi)

-- No other object has bytes in a window that one object fills.
pub total_filled :
    (o : Extent) (ps : List Extent) (r lo hi : ℕ)
    → lo < hi
    → AllApart o ps
    → weight o r lo hi ≡ hi - lo
    → total ps r lo hi ≡ 0
unfolding total weight
total_filled o [] r lo hi lt a h = refl
total_filled o (p ∷ ps) r lo hi lt a h = ground (arith, total_filled o ps r lo hi lt a.1 h)

-- An object splits a window into the part before it and the part behind it.
total_split :
    (o : Extent) (os : List Extent) (r lo hi : ℕ)
    → r ≡ o.range
    → AllApart o os
    → total os r lo hi ≡ total os r lo (min hi o.start) + total os r (max lo (o.start + o.size)) hi
unfolding total weight
total_split o [] r lo hi e a = refl
total_split o (p ∷ os) r lo hi e a = ground (arith, total_split o os r lo hi e a.1)

-- Objects that are pairwise apart have at most as many bytes in a window as it is long.
pub total-le : (os : List Extent) (r lo hi : ℕ) → PairwiseApart os → total os r lo hi ≤ hi - lo
unfolding total weight
total-le [] r lo hi a = omega arith
total-le (o ∷ os) r lo hi a = ground (
  arith,
  total_split o os r lo hi,
  total-le os r lo hi a.1,
  total-le os r lo (min hi o.start) a.1,
  total-le os r (max lo (o.start + o.size)) hi a.1,
)
