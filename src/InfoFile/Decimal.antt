-- ===== src/InfoFile/Decimal.antt =====
-- Numbers in decimal: strtok cuts them off, and atoi reads their value.
use mem_perf_pro.Base.{
  ℕ, zero, suc, ◌+◌, ◌*◌, ◌/◌, ◌%◌, ◌≤◌, ◌<◌, ◌≡◌, refl, sym, ap, ◌∙◌, Bool, false, ltb, ltb→lt,
  ◌==◌, ne→==, min, if◌then◌else◌, some, List, ◌∷◌, Bool-cases, inl, inr, arith,
}
use mem_perf_pro.Base.Run.{done}
use mem_perf_pro.InfoFile.{is_space, token_of, strtok, digits_from, strtol, atoi, next_value}

-- the digits of a number before some bytes
unfoldable pub digits : ℕ → ℕ → List ℕ → List ℕ
digits zero n rest = (48 + n % 10) ∷ rest
digits (suc fuel) n rest =
    let more = digits fuel (n / 10) ((48 + n % 10) ∷ rest) in
    if ltb n 10 then (48 + n) ∷ rest else more

abbrev pub print : ℕ → List ℕ → List ℕ
print n rest = digits n n rest

one_digit :
    (value d : ℕ) (rest : List ℕ)
    → d < 10
    → digits_from value ((48 + d) ∷ rest) ≡ digits_from (value * 10 + d) rest
unfolding digits_from
one_digit value d rest small = ground arith

digits_from-digits :
    (fuel n : ℕ) (rest : List ℕ)
    → n ≤ fuel
    → digits_from 0 (digits fuel n rest) ≡ digits_from n rest
unfolding digits
digits_from-digits zero n rest le =
    one_digit 0 (n % 10) rest (omega arith) ∙ ap (λ v. digits_from v rest) (omega (arith, le))
digits_from-digits (suc fuel) n rest le = elim (Bool-cases (ltb n 10)) [
  | inl e ↦ rw e (one_digit 0 n rest (ltb→lt _ _ e) ∙ ap (λ v. digits_from v rest) (omega arith))
  | inr e ↦ rw e (
      digits_from-digits fuel (n / 10) ((48 + n % 10) ∷ rest) (ground arith)
      ∙ (one_digit (n / 10) (n % 10) rest (omega arith)
          ∙ ap (λ v. digits_from v rest) (omega arith)))
]

token_of-digits :
    (fuel n : ℕ) (rest t r : List ℕ)
    → token_of rest ≡ (t, r)
    → token_of (digits fuel n rest) ≡ (digits fuel n t, r)
unfolding token_of digits
token_of-digits zero n rest t r e = rw (e, ne→== (48 + n % 10) 32 λ same. omega (arith, same)) refl
token_of-digits (suc fuel) n rest t r e = elim (Bool-cases (ltb n 10)) [
  | inl small ↦ rw (small, e, ne→== (48 + n) 32 λ same. omega (arith, same)) refl
  | inr large ↦ rw large (
      token_of-digits fuel (n / 10) ((48 + n % 10) ∷ rest) ((48 + n % 10) ∷ t) r
        (rw (e, ne→== (48 + n % 10) 32 λ same. omega (arith, same)) refl))
]

digits-head :
    (fuel n : ℕ) (rest : List ℕ)
    → (c : ℕ) × (cs : List ℕ) × (digits fuel n rest ≡ c ∷ cs) × (48 ≤ c) × (c ≤ 57)
unfolding digits
digits-head zero n rest = (48 + n % 10, rest, refl, omega arith, omega arith)
digits-head (suc fuel) n rest = elim (Bool-cases (ltb n 10)) [
  | inl e ↦ (48 + n, rest, rw e refl, omega arith, omega (arith, ltb→lt _ _ e))
  | inr e ↦
      let (c, cs, is, low, high) = digits-head fuel (n / 10) ((48 + n % 10) ∷ rest) in
      (c, cs, rw e is, low, high)
]

strtok-digit : (c : ℕ) (cs : List ℕ) → 48 ≤ c → strtok (c ∷ cs) ≡ some (token_of (c ∷ cs))
unfolding strtok
strtok-digit c cs low = rw (ne→== c 32 λ same. omega (arith, same, low)) refl

last_of_three :
    (a b c : Bool) (x y z w : ℕ)
    → a ≡ false
    → b ≡ false
    → c ≡ false
    → (if a then x else if b then y else if c then z else w) ≡ w
last_of_three a b c x y z w ea eb ec = ground arith

strtol-digit :
    (c : ℕ) (cs : List ℕ)
    → 48 ≤ c
    → c ≤ 57
    → strtol (c ∷ cs) ≡ min (digits_from 0 (c ∷ cs)) 0x7fff_ffff_ffff_ffff
unfolding strtol
strtol-digit c cs low high =
    let space : is_space c ≡ false = ground arith in
    last_of_three (is_space c) (c == 45) (c == 43) _ _ _ _ space (ground arith) (ground arith)

next_value_lem :
    (rest token behind : List ℕ)
    → strtok rest ≡ some (token, behind)
    → next_value rest ≡ done (atoi token, behind)
unfolding next_value
next_value_lem rest token behind e = rw (e, next_value) refl

-- A number below 2 ^ 31 is read as the value of the next token.
pub next_value-print :
    (n : ℕ) (rest t r : List ℕ)
    → n < 0x8000_0000
    → token_of rest ≡ (t, r)
    → digits_from n t ≡ n
    → next_value (print n rest) ≡ done (n, r)
unfolding atoi
next_value-print n rest t r small ends value =
    let (c, cs, is, low, high) = digits-head n n rest in
    let (d, ds, at, low', high') = digits-head n n t in
    let token : strtok (print n rest) ≡ some (print n t, r) =
      ap strtok is
      ∙ (strtok-digit c cs low
          ∙ ap some (ap token_of (sym is) ∙ token_of-digits n n rest t r ends)) in
    let number : strtol (print n t) ≡ n =
      ap strtol at
      ∙ (strtol-digit d ds low' high'
          ∙ (ap (λ s. min (digits_from 0 s) 0x7fff_ffff_ffff_ffff) (sym at)
              ∙ (ap (λ v. min v 0x7fff_ffff_ffff_ffff)
                    (digits_from-digits n n t (omega arith) ∙ value)
                  ∙ ground arith))) in
    next_value_lem (print n rest) (print n t) r token
    ∙ ap (λ v. done (v, r)) (ap (λ v. v % 0x1_0000_0000) number ∙ omega arith)
