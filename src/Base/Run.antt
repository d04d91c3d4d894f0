-- ===== src/Base/Run.antt =====
-- What a call does: it returns a value, or the process ends in `abort()`.

use mathlib.Core.Path.{◌≡◌, refl, sym, subst}

pub data Run {ℓ} (A : Type ℓ) : Type ℓ where
  abort : Run A
  done : A → Run A

-- the statement that follows runs only if the one before it returned
abbrev pub continue {ℓ κ} : {A : Type ℓ} {B : Type κ} → (A → Run B) → Run A → Run B
continue next abort = abort
continue next (done value) = next value

infixl 5 ◌>>=◌
abbrev pub ◌>>=◌ {ℓ κ} : {A : Type ℓ} {B : Type κ} → Run A → (A → Run B) → Run B
call >>= next = continue next call

-- Whenever the call returns, its value satisfies `P`.
abbrev pub Ensures {ℓ κ} : {A : Type ℓ} → (A → Type κ) → Run A → Type κ
Ensures P abort = Unit
Ensures P (done value) = P value

pub Ensures-bind {ℓ κ} :
    {A B : Type ℓ} (P : A → Type κ) (Q : B → Type κ) (call : Run A) (next : A → Run B)
    → Ensures P call
    → ((value : A) → P value → Ensures Q (next value))
    → Ensures Q (call >>= next)
Ensures-bind P Q abort next h k = tt
Ensures-bind P Q (done value) next h k = k value h

pub Ensures-weaken {ℓ κ} :
    {A : Type ℓ} (P Q : A → Type κ) (call : Run A)
    → ((value : A) → P value → Q value)
    → Ensures P call
    → Ensures Q call
Ensures-weaken P Q abort k h = tt
Ensures-weaken P Q (done value) k h = k value h

-- The call returns, in a value that satisfies `P`.
abbrev pub Returns {ℓ κ} : {A : Type ℓ} → (A → Type κ) → Run A → Type (ℓ ⊔ κ)
Returns {A} P call = (value : A) × (call ≡ done value) × P value

pub Returns-bind {ℓ κ} :
    {A B : Type ℓ} (P : A → Type κ) (Q : B → Type κ) (call : Run A) (next : A → Run B)
    → Returns P call
    → ((value : A) → P value → Returns Q (next value))
    → Returns Q (call >>= next)
Returns-bind P Q abort next (a, e, p) k = absurd cc
Returns-bind P Q (done value) next (a, e, p) k =
    let same : value ≡ a = cc in k value (subst P (sym same) p)

-- A bind that returns, from its two parts.
pub bind_inversion {ℓ κ} :
    {A : Type ℓ} {B : Type κ} (call : Run A) (next : A → Run B) {value : B}
    → (call >>= next) ≡ done value
    → (a : A) × (call ≡ done a) × (next a ≡ done value)
bind_inversion abort next e = absurd cc
bind_inversion (done a) next e = (a, refl, e)

pub done_injective {ℓ} : {A : Type ℓ} {a b : A} → done a ≡ done b → a ≡ b
done_injective e = cc
