-- ===== src/InfoFile/Cycles.antt =====
-- The cycles of the types, in decimal on one line, are read back.
use mem_perf_pro.Base.{
  ℕ, zero, suc, ◌+◌, ◌<◌, ◌≡◌, refl, ◌&&◌, leb, ltb, if◌then◌else◌, List, [], ◌∷◌, update, arith,
}
use mem_perf_pro.Base.Run.{done, Returns}
use mem_perf_pro.InfoFile.{token_of, digits_from, next_value, to_size_t, read_cycles}
use mem_perf_pro.InfoFile.Decimal.{print, next_value-print}

-- the values of so many types and one more, from one on, and a newline
abbrev pub print_cycles : ℕ → ℕ → (ℕ → ℕ) → List ℕ
print_cycles zero type cycles = print (cycles type) (10 ∷ [])
print_cycles (suc left) type cycles = print (cycles type) (32 ∷ print_cycles left (type + 1) cycles)

pub last_value : (n : ℕ) → n < 0x8000_0000 → next_value (print n (10 ∷ [])) ≡ done (n, [])
unfolding token_of digits_from
last_value n small = next_value-print n (10 ∷ []) (10 ∷ []) [] small refl refl

inner_value :
    (n : ℕ) (rest : List ℕ) → n < 0x8000_0000 → next_value (print n (32 ∷ rest)) ≡ done (n, rest)
unfolding token_of digits_from
inner_value n rest small = next_value-print n (32 ∷ rest) [] rest small refl refl

same_size : (n : ℕ) → n < 0x8000_0000 → to_size_t n ≡ n
same_size n small = ground arith

pub read_cycles-print :
    (left type : ℕ) (cycles before : ℕ → ℕ)
    → ((i : ℕ) → cycles i < 0x8000_0000)
    → Returns
        (λ after.
          (i : ℕ)
          → after i ≡ (if leb type i && ltb i (type + suc left) then cycles i else before i))
        (read_cycles (suc left) type (print_cycles left type cycles) before)
unfolding read_cycles
read_cycles-print zero type cycles before small = (
  update before type (cycles type),
  rw (last_value (cycles type) (small type), same_size (cycles type) (small type)) refl,
  λ i. ground arith,
)
read_cycles-print (suc left) type cycles before small =
    let (after, is, values) =
      read_cycles-print left (type + 1) cycles (update before type (cycles type)) small in
    (
      after,
      rw
          (
            inner_value (cycles type) (print_cycles left (type + 1) cycles) (small type),
            same_size (cycles type) (small type),
          )
          is,
      λ i. ground (arith, values i),
    )
