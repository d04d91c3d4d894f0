-- ===== src/ShadowMemory/CacheMapEntry.antt =====
-- src_light/shadowmemory.{hh,cpp}, class CacheMapEntry: the bytes in use on one cache line, and
-- the byte `misses`: bit 7 is the conflict mark, bit 6 the coherency mark, the low six bits count.
-- The `int8_t` is its bit pattern: a pattern from 0x80 up is negative.
use Prim.Native.Nat.{bit_and, bit_or}
use mem_perf_pro.Base.{
  ℕ, zero, suc, ◌+◌, ◌*◌, ◌/◌, ◌%◌, ◌≤◌, ◌<◌, ◌≡◌, refl, Bool, true, false, ◌&&◌, arith, add_8,
  sub_8, leb, ltb, ◌==◌, if◌then◌else◌,
}

abbrev pub cacheline_size : ℕ
cacheline_size = 64

pub record CacheMapEntry : Type 0 where
  pub misses : ℕ
  pub num_used_bytes : ℕ

unfoldable pub get_used_bytes : CacheMapEntry → ℕ
get_used_bytes e =
    let n = e.num_used_bytes in
    if ltb cacheline_size n && ltb n 0x80 then cacheline_size else if leb 0x80 n then 0 else n

unfoldable pub add_used_bytes : CacheMapEntry → ℕ → CacheMapEntry
add_used_bytes e num_bytes = record e { num_used_bytes = add_8 e.num_used_bytes num_bytes }

unfoldable pub sub_used_bytes : CacheMapEntry → ℕ → CacheMapEntry
sub_used_bytes e num_bytes = record e { num_used_bytes = sub_8 e.num_used_bytes num_bytes }

unfoldable pub set_empty : CacheMapEntry → CacheMapEntry
set_empty e = record e { num_used_bytes = 0 }

unfoldable pub set_full : CacheMapEntry → CacheMapEntry
set_full e = record e { num_used_bytes = cacheline_size }

-- What is reported of a cache line never exceeds the line.
pub get_used_bytes-le : (e : CacheMapEntry) → get_used_bytes e ≤ cacheline_size
unfolding get_used_bytes
get_used_bytes-le e = ground arith

-- `misses & 0x80`, `misses & 0x40`, `misses & 0x3f`, as arithmetic
unfoldable pub has_conflict : ℕ → Bool
has_conflict m = m / 128 % 2 == 1

unfoldable pub has_coherency : ℕ → Bool
has_coherency m = m / 64 % 2 == 1

unfoldable pub miss_count : ℕ → ℕ
miss_count m = m % 64

-- `misses |= 0x80`, `misses |= 0x40`, `misses &= 0x7f`
unfoldable pub mark_conflict : ℕ → ℕ
unfolding has_conflict
mark_conflict m = if has_conflict m then m else m + 128

unfoldable pub mark_coherency : ℕ → ℕ
unfolding has_coherency
mark_coherency m = if has_coherency m then m else m + 64

unfoldable pub clear_conflict : ℕ → ℕ
clear_conflict m = m % 128

-- Two functions agree on 0, …, bound - 1.
agree : (f g : ℕ → ℕ) → ℕ → Bool
agree f g zero = true
agree f g (suc bound) = agree f g bound && f bound == g bound

agree→eq : (f g : ℕ → ℕ) (bound m : ℕ) → m < bound → agree f g bound ≡ true → f m ≡ g m
unfolding agree
agree→eq f g zero m lt h = elim lt [ ]
agree→eq f g (suc bound) m lt h = ground (arith, agree→eq f g bound m)

same_byte : (f g : ℕ → ℕ) → agree f g 256 ≡ true → (m : ℕ) → m < 256 → f m ≡ g m
same_byte f g h m lt = agree→eq f g 256 m lt h

to_bit : Bool → ℕ
to_bit false = 0
to_bit true = 1

-- Over a byte the tests and updates are the masks of the source: `& 0x80`, `& 0x40`, `& 0x3f`,
-- `|= 0x80`, `|= 0x40`, `&= 0x7f`.
misses_masks :
    (m : ℕ)
    → m < 256
    → (to_bit (has_conflict m) * 0x80 ≡ bit_and m 0x80)
      × (to_bit (has_coherency m) * 0x40 ≡ bit_and m 0x40)
      × (miss_count m ≡ bit_and m 0x3f)
      × (mark_conflict m ≡ bit_or m 0x80)
      × (mark_coherency m ≡ bit_or m 0x40)
      × (clear_conflict m ≡ bit_and m 0x7f)
unfolding has_conflict has_coherency miss_count mark_conflict mark_coherency clear_conflict to_bit
    agree
misses_masks m h = (
  same_byte (λ m. to_bit (has_conflict m) * 0x80) (λ m. bit_and m 0x80) refl m h,
  same_byte (λ m. to_bit (has_coherency m) * 0x40) (λ m. bit_and m 0x40) refl m h,
  same_byte miss_count (λ m. bit_and m 0x3f) refl m h,
  same_byte mark_conflict (λ m. bit_or m 0x80) refl m h,
  same_byte mark_coherency (λ m. bit_or m 0x40) refl m h,
  same_byte clear_conflict (λ m. bit_and m 0x7f) refl m h,
)
