-- ===== src/Base/Arrays.antt =====
-- Arrays as functions of the index, and the search loop over the first cells of one.
use Prim.Native.Nat.{ℕ, zero, suc, ◌+◌, ◌≤◌, ◌<◌}
use mathlib.Core.Bool.{◌&&◌}
use mathlib.Core.Path.{◌≡◌}
use native.Mathlib.Omega.{arith}
use mem_perf_pro.Base.Tests.{leb, ltb, ◌==◌, if◌then◌else◌}

-- `f[i] = v`
abbrev pub update {ℓ} : {A : Type ℓ} → (ℕ → A) → ℕ → A → ℕ → A
update f i v j = if j == i then v else f j

-- `for(i = …; i < n && f[i] != x; ++i) {}`, with the rounds that are left
unfoldable pub find_from : (ℕ → ℕ) → ℕ → ℕ → ℕ → ℕ
find_from f x zero i = i
find_from f x (suc left) i = let rest = find_from f x left (i + 1) in if f i == x then i else rest

pub find_from-hit :
    (f : ℕ → ℕ) (x left i k : ℕ)
    → i ≤ k
    → k < i + left
    → f k ≡ x
    → (f (find_from f x left i) ≡ x) × (find_from f x left i ≤ k)
unfolding find_from
find_from-hit f x zero i k lo hi e = absurd (omega arith)
find_from-hit f x (suc left) i k lo hi e = ground (arith, find_from-hit f x left (i + 1) k)

pub find_from-le : (f : ℕ → ℕ) (x left i : ℕ) → find_from f x left i ≤ i + left
unfolding find_from
find_from-le f x zero i = omega arith
find_from-le f x (suc left) i = ground (arith, find_from-le f x left (i + 1))

-- `for(…; i < n; ++i) f[i] = step(i, f[i])`, with the rounds that are left
unfoldable pub update_each {ℓ} : {A : Type ℓ} → (ℕ → A → A) → ℕ → ℕ → (ℕ → A) → ℕ → A
update_each step zero i f = f
update_each step (suc left) i f = update_each step left (i + 1) (update f i (step i (f i)))

pub update_each-cell {ℓ} :
    {A : Type ℓ} (step : ℕ → A → A) (left i : ℕ) (f : ℕ → A) (j : ℕ)
    → update_each step left i f j ≡ (if leb i j && ltb j (i + left) then step j (f j) else f j)
unfolding update_each
update_each-cell step zero i f j = ground arith
update_each-cell step (suc left) i f j =
    ground (arith, update_each-cell step left (i + 1) (update f i (step i (f i))) j)

pub update_each-below {ℓ} :
    {A : Type ℓ} (step : ℕ → A → A) (left : ℕ) (f : ℕ → A) (j : ℕ)
    → j < left
    → update_each step left 0 f j ≡ step j (f j)
update_each-below step left f j below = ground (arith, update_each-cell step left 0 f j)
