-- ===== src/Sampling/Encoding.antt =====
-- src_light/memsample.c: the bytes of the records, and what perf_mmap_read reads in them.
use mem_perf_pro.Base.{
  ℕ, zero, suc, ◌+◌, ◌*◌, ◌/◌, ◌%◌, ◌≤◌, ◌<◌, ◌≡◌, ◌≢◌, refl, ◌∙◌, subst, Option, none, List, [],
  ◌∷◌, ◌++◌, length, get_or, arith, ne→==,
}
use mem_perf_pro.Sampling.{load, perf_record_sample, sampled_access, Access, event_size, read_event}

-- an unsigned number in so many bytes, the lowest first
abbrev pub store : ℕ → ℕ → List ℕ
store zero value = []
store (suc width) value = (value % 256) ∷ store width (value / 256)

-- A record of the kernel: a sample with its address and source, or another with its contents.
pub data Event : Type 0 where
  sample : (misc intpaddr src : ℕ) → Event
  other : (kind misc : ℕ) → List ℕ → Event

abbrev pub encode : Event → List ℕ
encode (sample misc intpaddr src) =
    (store 4 perf_record_sample ++ store 2 misc ++ store 2 24) ++ (store 8 intpaddr ++ store 8 src)
encode (other kind misc contents) =
    (store 4 kind ++ store 2 misc ++ store 2 (8 + length contents)) ++ contents

abbrev pub encode_all : List Event → List ℕ
encode_all [] = []
encode_all (e ∷ es) = encode e ++ encode_all es

-- The fields fit in their bytes.
abbrev pub Fits : Event → Type 0
Fits (sample misc intpaddr src) =
    (misc < 0x1_0000) × (intpaddr < 0x1_0000_0000_0000_0000) × (src < 0x1_0000_0000_0000_0000)
Fits (other kind misc contents) =
    (kind < 0x1_0000_0000)
    × (kind ≢ perf_record_sample)
    × (misc < 0x1_0000)
    × (8 + length contents < 0x1_0000)

abbrev pub AllFit : List Event → Type 0
AllFit [] = Unit
AllFit (e ∷ es) = Fits e × AllFit es

-- The list stands in the bytes from `offset` on.
abbrev pub StandsAt : (ℕ → ℕ) → ℕ → List ℕ → Type 0
StandsAt bytes offset [] = Unit
StandsAt bytes offset (x ∷ xs) = (bytes offset ≡ x) × StandsAt bytes (offset + 1) xs

pub StandsAt-get_or :
    (bytes : ℕ → ℕ) (offset : ℕ) (xs : List ℕ)
    → ((i : ℕ) → i < length xs → bytes (offset + i) ≡ get_or xs i 0)
    → StandsAt bytes offset xs
unfolding get_or
StandsAt-get_or bytes offset [] h = tt
StandsAt-get_or bytes offset (x ∷ xs) h = (
  ground (arith, h 0),
  StandsAt-get_or bytes (offset + 1) xs (λ i below. ground (arith, h (suc i))),
)

pub StandsAt-split :
    (bytes : ℕ → ℕ) (offset middle : ℕ) (xs ys : List ℕ)
    → offset + length xs ≡ middle
    → StandsAt bytes offset (xs ++ ys)
    → StandsAt bytes offset xs × StandsAt bytes middle ys
StandsAt-split bytes offset middle [] ys e s =
    (tt, subst (λ o. StandsAt bytes o ys) {x = offset} {y = middle} (omega arith) s)
StandsAt-split bytes offset middle (x ∷ xs) ys e s =
    let (front, back) = StandsAt-split bytes (offset + 1) middle xs ys (omega arith) s.1 in
    ((s.0, front), back)

-- the lowest bytes of a number
abbrev low : ℕ → ℕ → ℕ
low zero value = 0
low (suc width) value = value % 256 + 256 * low width (value / 256)

load-store :
    (width : ℕ) (bytes : ℕ → ℕ) (offset value : ℕ)
    → StandsAt bytes offset (store width value)
    → load width bytes offset ≡ low width value
unfolding load
load-store zero bytes offset value s = refl
load-store (suc width) bytes offset value s =
    omega (arith, s.0, load-store width bytes (offset + 1) (value / 256) s.1)

length-store : (width value : ℕ) → length (store width value) ≡ width
length-store zero value = refl
length-store (suc width) value = omega (arith, length-store width (value / 256))

low_2 : (v : ℕ) → v < 0x1_0000 → low 2 v ≡ v
low_2 v h = omega arith

low_4 : (v : ℕ) → v < 0x1_0000_0000 → low 4 v ≡ v
low_4 v h = omega arith

low_8 : (v : ℕ) → v < 0x1_0000_0000_0000_0000 → low 8 v ≡ v
low_8 v h = omega arith

abbrev header : ℕ → ℕ → ℕ → List ℕ
header kind misc size = store 4 kind ++ store 2 misc ++ store 2 size

load-header :
    (bytes : ℕ → ℕ) (offset kind misc size : ℕ)
    → kind < 0x1_0000_0000
    → size < 0x1_0000
    → StandsAt bytes offset (header kind misc size)
    → (load 4 bytes offset ≡ kind) × (event_size bytes offset ≡ size)
unfolding event_size
load-header bytes offset kind misc size small_kind small_size s =
    let (kind_at, rest) =
      StandsAt-split bytes offset (offset + 4) (store 4 kind) (store 2 misc ++ store 2 size)
        (omega arith) s in
    let (misc_at, size_at) =
      StandsAt-split bytes (offset + 4) (offset + 6) (store 2 misc) (store 2 size) (omega arith)
        rest in
    (
      load-store 4 bytes offset kind kind_at ∙ low_4 kind small_kind,
      load-store 2 bytes (offset + 6) size size_at ∙ low_2 size small_size,
    )

-- the access that a record stands for
abbrev pub access_of : Event → Option Access
access_of (sample misc intpaddr src) = sampled_access intpaddr src
access_of (other kind misc contents) = none

pub record Decoded (bytes : ℕ → ℕ) (offset : ℕ) (e : Event) : Type 0 where
  pub size : event_size bytes offset ≡ length (encode e)
  pub access : read_event bytes offset ≡ access_of e

-- A record whose fields fit is read as it was written.
pub read_event-encode :
    (bytes : ℕ → ℕ) (offset : ℕ) (e : Event)
    → Fits e
    → StandsAt bytes offset (encode e)
    → Decoded bytes offset e
unfolding read_event
read_event-encode bytes offset (sample misc intpaddr src) fits s =
    let (header_at, payload) =
      StandsAt-split bytes offset (offset + 8) (header perf_record_sample misc 24)
        (store 8 intpaddr ++ store 8 src) (omega arith) s in
    let (addr_at, src_at) =
      StandsAt-split bytes (offset + 8) (offset + 16) (store 8 intpaddr) (store 8 src) (omega arith)
        payload in
    let (kind_read, size_read) =
      load-header bytes offset perf_record_sample misc 24 (omega arith) (omega arith) header_at in
    record {
      size = size_read;
      access =
          rw
            (
              kind_read,
              load-store 8 bytes (offset + 8) intpaddr addr_at ∙ low_8 intpaddr fits.1,
              load-store 8 bytes (offset + 16) src src_at ∙ low_8 src fits.2,
            )
            refl;
    }
read_event-encode bytes offset (other kind misc contents) fits s =
    let (header_at, payload) =
      StandsAt-split bytes offset (offset + 8) (header kind misc (8 + length contents)) contents
        (omega arith) s in
    let (kind_read, size_read) =
      load-header bytes offset kind misc (8 + length contents) fits.0 fits.3 header_at in
    record { size = omega (arith, size_read); access = rw (kind_read, ne→== _ _ fits.1) refl }

pub encode_pos : (e : Event) → 8 ≤ length (encode e)
encode_pos (sample misc intpaddr src) = omega arith
encode_pos (other kind misc contents) = omega arith
