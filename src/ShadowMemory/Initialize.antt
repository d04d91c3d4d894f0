-- ===== src/ShadowMemory/Initialize.antt =====
-- src_light/shadowmemory.cpp: ShadowMemory::initialize, which maps the page maps and the cache map.
use mem_perf_pro.Base.{
  ℕ, zero, suc, ◌+◌, ◌*◌, ◌%◌, ◌≤◌, ◌<◌, ◌≡◌, refl, Bool, true, false, Option, none, some,
  if◌then◌else◌, update, arith,
}
use mem_perf_pro.Base.Run.{Run, done, abort, ◌>>=◌, Returns, Returns-bind}
use mem_perf_pro.ShadowMemory.CacheMap.{max_cache_map_entries}
use mem_perf_pro.ShadowMemory.PageIndex.{num_address_range, max_page_map_entries}

-- The addresses of the maps; the pages of mmap are 0.
pub record Maps : Type 0 where
  pub is_initialized : Bool
  pub page_map_begin : ℕ → ℕ
  pub page_map_end : ℕ → ℕ
  pub cache_map_begin : ℕ
  pub cache_map_end : ℕ
  pub cache_map_bump_ptr : ℕ

-- the sizes of the two kinds of entries
abbrev page_entry_size : ℕ
page_entry_size = 16

abbrev cache_entry_size : ℕ
cache_entry_size = 2

-- `for(uint8_t i = 0; i < NUM_ADDRESS_RANGE; ++i)`, with the rounds that are left; `mapped i` is
-- what mmap gives for the range, `none` is MAP_FAILED
unfoldable pub map_ranges : (ℕ → Option ℕ) → ℕ → ℕ → Maps → Run Maps
map_ranges mapped zero i m = done m
map_ranges mapped (suc left) i m = elim (mapped i) [
  | none ↦ abort
  | some start ↦ map_ranges mapped left (i + 1) (record m {
    page_map_begin = update m.page_map_begin i start;
    page_map_end = update m.page_map_end i (start + max_page_map_entries * page_entry_size);
  })
]

-- MAP_FAILED, of which the cache map only prints a message
abbrev map_failed : ℕ
map_failed = 0xffff_ffff_ffff_ffff

abbrev pub address_or_failed : Option ℕ → ℕ
address_or_failed none = map_failed
address_or_failed (some start) = start

-- The value says whether the call has initialized the maps.
unfoldable pub initialize : (ℕ → Option ℕ) → Option ℕ → Maps → Run (Maps × Bool)
unfolding map_ranges
initialize mapped cache_mapped m = if m.is_initialized then done (m, false) else (do
  m' ← map_ranges mapped num_address_range 0 m
  (let start = address_or_failed cache_mapped in
      done (
        record m' {
          is_initialized = true;
          cache_map_begin = start;
          cache_map_end =
              (start + max_cache_map_entries * cache_entry_size) % 0x1_0000_0000_0000_0000;
          cache_map_bump_ptr = start;
        },
        true,
      )))

-- The ranges that the loop has set.
record Ranges (mapped : ℕ → Option ℕ) (left i : ℕ) (m m' : Maps) : Type 0 where
  starts :
      (j start : ℕ) → mapped j ≡ some start → i ≤ j → j < i + left → m'.page_map_begin j ≡ start
  ends :
      (j : ℕ)
      → i ≤ j
      → j < i + left
      → m'.page_map_end j ≡ m'.page_map_begin j + max_page_map_entries * page_entry_size
  before :
      (j : ℕ)
      → j < i
      → (m'.page_map_begin j ≡ m.page_map_begin j) × (m'.page_map_end j ≡ m.page_map_end j)
  same : m'.is_initialized ≡ m.is_initialized

map_ranges-Ranges :
    (mapped : ℕ → Option ℕ) (left i : ℕ) (m : Maps)
    → ((j : ℕ) → j < i + left → (start : ℕ) × (mapped j ≡ some start))
    → Returns (Ranges mapped left i m) (map_ranges mapped left i m)
unfolding map_ranges
map_ranges-Ranges mapped zero i m all = (
  m,
  refl,
  record {
    starts = λ j start e lo hi. absurd (omega arith);
    ends = λ j lo hi. absurd (omega arith);
    before = λ j lo. (refl, refl);
    same = refl;
  },
)
map_ranges-Ranges mapped (suc left) i m all =
    let (start, at) = all i (omega arith) in
    let m1 : Maps = record m {
      page_map_begin = update m.page_map_begin i start;
      page_map_end = update m.page_map_end i (start + max_page_map_entries * page_entry_size);
    } in
    let (m', returns, r) =
      map_ranges-Ranges mapped left (i + 1) m1 (λ j below. all j (omega arith)) in
    (
      m',
      rw (at, map_ranges) returns,
      record {
        starts = λ j st e lo hi. ground (arith, at, r.starts j st e, r.before j);
        ends = λ j lo hi. ground (arith, r.ends j, r.before j);
        before = λ j lo. ground (arith, r.before j);
        same = r.same;
      },
    )

-- All maps are there.
pub record IsInitialized (mapped : ℕ → Option ℕ) (cache_start : ℕ) (r : Maps × Bool) : Type 0 where
  pub initialized : r.0.is_initialized ≡ true
  pub first : r.1 ≡ true
  pub starts :
      (j start : ℕ) → mapped j ≡ some start → j < num_address_range → r.0.page_map_begin j ≡ start
  pub ends :
      (j : ℕ)
      → j < num_address_range
      → r.0.page_map_end j ≡ r.0.page_map_begin j + max_page_map_entries * page_entry_size
  pub cache : (r.0.cache_map_begin ≡ cache_start) × (r.0.cache_map_bump_ptr ≡ cache_start)
  pub again :
      (mapped' : ℕ → Option ℕ) (cache_mapped' : Option ℕ)
      → initialize mapped' cache_mapped' r.0 ≡ done (r.0, false)

-- The first call of ShadowMemory::initialize returns with every range at the address that mmap gives
-- it, and its end behind its entries, and with an empty cache map at its address, when each mmap
-- succeeds; a further call changes nothing.
pub initialize-IsInitialized :
    (mapped : ℕ → Option ℕ) (cache_start : ℕ) (m : Maps)
    → m.is_initialized ≡ false
    → ((j : ℕ) → j < num_address_range → (start : ℕ) × (mapped j ≡ some start))
    → Returns (IsInitialized mapped cache_start) (initialize mapped (some cache_start) m)
unfolding initialize
initialize-IsInitialized mapped cache_start m fresh all =
    rw (fresh, initialize)
      (Returns-bind (Ranges mapped num_address_range 0 m) (IsInitialized mapped cache_start) _ _
        (map_ranges-Ranges mapped num_address_range 0 m all)
        λ m' r. (
          _,
          refl,
          record {
            initialized = refl;
            first = refl;
            starts = λ j start e below. r.starts j start e (omega arith) (omega arith);
            ends = λ j below. r.ends j (omega arith) (omega arith);
            cache = (refl, refl);
            again = λ mapped' cache_mapped'. refl;
          },
        ))
