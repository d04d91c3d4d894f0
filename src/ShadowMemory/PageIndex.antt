-- ===== src/ShadowMemory/PageIndex.antt =====
-- src_light/shadowmemory.cpp, ShadowMemory::getPageIndex over the table addressRanges.
use mem_perf_pro.Base.{
  ℕ, zero, suc, ◌+◌, ◌-◌, ◌*◌, ◌/◌, ◌%◌, ◌≤◌, ◌<◌, ◌≡◌, List, [], ◌∷◌, arith, inl, inr, Bool-cases,
  leb, leb→le, if◌then◌else◌, length, get_or,
}
use mem_perf_pro.ShadowMemory.PageMapEntry.{page_size}

abbrev pub num_address_range : ℕ
num_address_range = 8

abbrev pub address_ranges : List ℕ
address_ranges =
    0x800_0000_0000 ∷ 0x100_0000_0000 ∷ 0xa00_0000_0000 ∷ 0x1200_0000_0000 ∷ 0x1400_0000_0000
    ∷ 0x5600_0000_0000 ∷ 0x7f00_0000_0000 ∷ 0x5500_0000_0000 ∷ []

-- PAGE_MAP_SIZE / sizeof(PageMapEntry): 128 GB of 16-byte entries
abbrev pub max_page_map_entries : ℕ
max_page_map_entries = 0x2_0000_0000

pub record PageIndex : Type 0 where
  pub range : ℕ
  pub index : ℕ

-- The loop over the ranges from `i` on. `index` is the output parameter, written before the test.
unfoldable pub page_index_from : ℕ → List ℕ → ℕ → ℕ → PageIndex
page_index_from i [] addr index = record { range = num_address_range; index = index }
page_index_from i (start ∷ rest) addr index =
    let written = (addr - start) / page_size in
    let skipped = page_index_from (suc i) rest addr index in
    let refused = page_index_from (suc i) rest addr written in
    if leb start addr
    then (if leb written max_page_map_entries
        then record { range = i; index = written }
        else refused)
    else skipped

unfoldable pub get_page_index : ℕ → ℕ → PageIndex
get_page_index addr index = page_index_from 0 address_ranges addr index

abbrev pub Covers : ℕ → ℕ → Type 0
Covers start addr = (start ≤ addr) × ((addr - start) / page_size ≤ max_page_map_entries)

-- The ranges start on page boundaries.
abbrev Aligned : List ℕ → Type 0
Aligned [] = Unit {0}
Aligned (s ∷ ss) = (s % page_size ≡ 0) × Aligned ss

-- What the loop reports from `i` on: the first covering range, and the page of the address in it.
record Found (i : ℕ) (ss : List ℕ) (addr : ℕ) (p : PageIndex) : Type 0 where
  from : i ≤ p.range
  small : p.index ≤ max_page_map_entries
  place : get_or ss (p.range - i) 0 + p.index * page_size + addr % page_size ≡ addr

get_or-cons :
    (s : ℕ) (ss : List ℕ) (i r d : ℕ)
    → suc i ≤ r
    → get_or (s ∷ ss) (r - i) d ≡ get_or ss (r - suc i) d
unfolding get_or
get_or-cons s ss i r d h = let e : r - i ≡ suc (r - suc i) = omega arith in rw e

Found-cons :
    (i s : ℕ) (ss : List ℕ) (addr : ℕ) {p : PageIndex}
    → Found (suc i) ss addr p
    → Found i (s ∷ ss) addr p
Found-cons i s ss addr {p} f = record {
  from = omega arith;
  small = f.small;
  place = rw (get_or-cons s ss i p.range 0 f.from) f.place;
}

Found-here :
    (i s : ℕ) (ss : List ℕ) (addr : ℕ)
    → s % page_size ≡ 0
    → Covers s addr
    → Found i (s ∷ ss) addr (record { range = i; index = (addr - s) / page_size })
unfolding get_or
Found-here i s ss addr a (c, m) = record {
  from = omega arith;
  small = m;
  place = let e : i - i ≡ 0 = omega arith in rw e (omega arith);
}

page_index_from-Found :
    (i : ℕ) (ss : List ℕ) (addr index : ℕ)
    → i + length ss ≡ num_address_range
    → Aligned ss
    → (page_index_from i ss addr index).range < num_address_range
    → Found i ss addr (page_index_from i ss addr index)
unfolding page_index_from
page_index_from-Found i [] addr index e a h = absurd (omega arith)
page_index_from-Found i (s ∷ ss) addr index e a h = elim (Bool-cases (leb s addr)) [
  | inr no_start ↦ rw no_start (
      Found-cons i s ss addr
        (page_index_from-Found (suc i) ss addr index (omega arith) a.1 (rw no_start at h)))
  | inl start ↦ elim (Bool-cases (leb ((addr - s) / page_size) max_page_map_entries)) [
    | inl fits ↦ rw (start, fits) (Found-here i s ss addr a.0 (leb→le _ _ start, leb→le _ _ fits))
    | inr far ↦
        rw (start, far)
          (Found-cons i s ss addr
            (page_index_from-Found (suc i) ss addr _ (omega arith) a.1 (rw (start, far) at h)))
  ]
]

-- The range that the loop stops at comes no later than any range that covers the address.
page_index_from-le :
    (i : ℕ) (ss : List ℕ) (addr index k : ℕ)
    → k < length ss
    → Covers (get_or ss k 0) addr
    → (page_index_from i ss addr index).range ≤ i + k
unfolding page_index_from get_or
page_index_from-le i [] addr index k h c = absurd (omega arith)
page_index_from-le i (s ∷ ss) addr index zero h c = ground arith
page_index_from-le i (s ∷ ss) addr index (suc k) h c = ground (
  arith,
  page_index_from-le (suc i) ss addr index k,
  page_index_from-le (suc i) ss addr ((addr - s) / page_size) k,
)

-- An address that getPageIndex places in a range r is base r + index * PAGESIZE + its offset in
-- the page, and the index is at most MAX_PAGE_MAP_ENTRIES.
pub get_page_index-place :
    (addr index : ℕ)
    → (get_page_index addr index).range < num_address_range
    → (get_or address_ranges (get_page_index addr index).range 0
          + (get_page_index addr index).index * page_size
          + addr % page_size
        ≡ addr)
      × ((get_page_index addr index).index ≤ max_page_map_entries)
unfolding get_page_index
get_page_index-place addr index h =
    let f = page_index_from-Found 0 address_ranges addr index (omega arith) (omega arith) h in
    let r = (page_index_from 0 address_ranges addr index).range in
    let e : r - 0 ≡ r = omega arith in (rw e at f.place, f.small)

-- The first range that covers the address is taken: the range found is at most any range k whose
-- start is at or below the address and at most MAX_PAGE_MAP_ENTRIES pages away.
pub get_page_index-first :
    (addr index k : ℕ)
    → k < num_address_range
    → Covers (get_or address_ranges k 0) addr
    → (get_page_index addr index).range ≤ k
unfolding get_page_index
get_page_index-first addr index k h c =
    omega (arith, page_index_from-le 0 address_ranges addr index k h c)

-- The test of the index admits one page too many: the addresses of the page just behind the
-- 2 ^ 33 pages of the first range get the index MAX_PAGE_MAP_ENTRIES, which is page_map_end.
pub get_page_index_past_end :
    (offset index : ℕ)
    → offset < page_size
    → get_page_index (0x800_0000_0000 + max_page_map_entries * page_size + offset) index
      ≡ record { range = 0; index = max_page_map_entries }
unfolding get_page_index page_index_from
get_page_index_past_end offset index h = ground arith
