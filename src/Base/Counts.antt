-- ===== src/Base/Counts.antt =====
-- How many of the first cells of a Boolean array are true.
use Prim.Native.Nat.{ℕ, zero, suc, ◌+◌, ◌≤◌, ◌<◌}
use mathlib.Core.Bool.{Bool, true, false}
use mathlib.Core.Path.{◌≡◌, refl}
use native.Mathlib.Omega.{arith}
use mem_perf_pro.Base.Tests.{if◌then◌else◌}
use mem_perf_pro.Base.Arrays.{update}

unfoldable pub count_true : (ℕ → Bool) → ℕ → ℕ
count_true f zero = 0
count_true f (suc n) = count_true f n + (if f n then 1 else 0)

pub count_true-above :
    (f : ℕ → Bool) (n i : ℕ) (b : Bool) → n ≤ i → count_true (update f i b) n ≡ count_true f n
unfolding count_true
count_true-above f zero i b above = refl
count_true-above f (suc n) i b above = ground (arith, count_true-above f n i b)

pub count_true-cleared :
    (f : ℕ → Bool) (n i : ℕ)
    → i < n
    → f i ≡ true
    → count_true (update f i false) n + 1 ≡ count_true f n
unfolding count_true
count_true-cleared f zero i below e = absurd (omega arith)
count_true-cleared f (suc n) i below e =
    ground (arith, count_true-cleared f n i, count_true-above f n i false)

pub count_true-next :
    (f : ℕ → Bool) (n : ℕ) → count_true (update f n true) (n + 1) ≡ count_true f n + 1
unfolding count_true
count_true-next f n =
    let one_more : n + 1 ≡ suc n = omega arith in
    rw one_more (ground (arith, count_true-above f n n true))

pub count_true-set :
    (f : ℕ → Bool) (n i : ℕ)
    → i < n
    → f i ≡ false
    → count_true (update f i true) n ≡ count_true f n + 1
unfolding count_true
count_true-set f zero i below e = absurd (omega arith)
count_true-set f (suc n) i below e =
    ground (arith, count_true-set f n i, count_true-above f n i true)

pub count_true-le : (f : ℕ → Bool) (n : ℕ) → count_true f n ≤ n
unfolding count_true
count_true-le f zero = omega arith
count_true-le f (suc n) = ground (arith, count_true-le f n)

pub count_true-same :
    (f g : ℕ → Bool) (n : ℕ) → ((i : ℕ) → i < n → f i ≡ g i) → count_true f n ≡ count_true g n
unfolding count_true
count_true-same f g zero same = refl
count_true-same f g (suc n) same =
    ground (arith, same n, count_true-same f g n λ i below. same i (omega (arith, below)))

pub count_true-none : (f : ℕ → Bool) (n : ℕ) → ((i : ℕ) → f i ≡ false) → count_true f n ≡ 0
unfolding count_true
count_true-none f zero none = refl
count_true-none f (suc n) none = ground (arith, none n, count_true-none f n none)
