-- ===== src/ShadowMemory/Pages/Live.antt =====
-- The page map against the objects in use: each page counts the bytes that the live objects hold
-- on it. Objects are intervals, counted in bytes from the start of their address range.
use mem_perf_pro.Base.{ℕ, ◌+◌, ◌*◌, ◌%◌, ◌<◌, ◌≡◌, ◌==◌, if◌then◌else◌, arith, List, ◌∷◌, ◌++◌}
use mem_perf_pro.ShadowMemory.Extents.{Extent, weight, total, AllApart, total_middle, total_filled}
use mem_perf_pro.ShadowMemory.PageMapEntry.{
  PageMapEntry, page_size, add_used_bytes, sub_used_bytes, set_empty, set_full,
}
use mem_perf_pro.ShadowMemory.Pages.{PageMap, malloc_update_pages, free_update_pages}
use mem_perf_pro.ShadowMemory.Pages.Overlap.{effect, walk-effect}

-- where getPageIndex places an object
abbrev pub extent_of : ℕ → ℕ → ℕ → ℕ → Extent
extent_of uintaddr range page_index size = record {
  range = range;
  start = page_index * page_size + uintaddr % page_size;
  size = size;
}

abbrev pub page_total : List Extent → ℕ → ℕ → ℕ
page_total live r j = total live r (j * page_size) ((j + 1) * page_size)

abbrev page_weight : Extent → ℕ → ℕ → ℕ
page_weight o r j = weight o r (j * page_size) ((j + 1) * page_size)

-- Every page counts the live bytes on it.
pub record Accounts (live : List Extent) (pm : PageMap) : Type 0 where
  pub counts : (r j : ℕ) → (pm r j).num_used_bytes ≡ page_total live r j % 0x1_0000

page_filled :
    (o : Extent) (ps : List Extent) (r j : ℕ)
    → AllApart o ps
    → page_weight o r j ≡ page_size
    → page_total ps r j ≡ 0
page_filled o ps r j a h = total_filled o ps r _ _ (omega arith) a (omega arith)

add_none : (e : PageMapEntry) → e.num_used_bytes < 0x1_0000 → add_used_bytes e 0 ≡ e
unfolding add_used_bytes
add_none e h = ground arith

sub_none : (e : PageMapEntry) → e.num_used_bytes < 0x1_0000 → sub_used_bytes e 0 ≡ e
unfolding sub_used_bytes
sub_none e h = ground arith

-- The value of one page under each kind of update, from its count before.
add-count :
    (o : Extent) (others r j : ℕ) (e : PageMapEntry)
    → e.num_used_bytes ≡ others % 0x1_0000
    → (page_weight o r j ≡ page_size → others ≡ 0)
    → (if r == o.range then effect set_full add_used_bytes o.start o.size j e else e).num_used_bytes
      ≡ (page_weight o r j + others) % 0x1_0000
unfolding weight add_used_bytes set_full
add-count o others r j e h z = ground arith

sub-count :
    (o : Extent) (others r j : ℕ) (e : PageMapEntry)
    → e.num_used_bytes ≡ (page_weight o r j + others) % 0x1_0000
    → (page_weight o r j ≡ page_size → others ≡ 0)
    → (if r == o.range
        then effect set_empty sub_used_bytes o.start o.size j e
        else e).num_used_bytes
      ≡ others % 0x1_0000
unfolding weight sub_used_bytes set_empty
sub-count o others r j e h z = ground arith

module _ {pm : PageMap} (uintaddr range page_index size : ℕ) where
  -- mallocUpdatePages keeps the account: for a new object that is apart from the live ones, each
  -- page then counts the bytes of the live objects and of the new one.
  pub malloc_update_pages-Accounts :
      (live : List Extent)
      → Accounts live pm
      → AllApart (extent_of uintaddr range page_index size) live
      → Accounts
          (extent_of uintaddr range page_index size ∷ live)
          (malloc_update_pages pm uintaddr range page_index size)
  unfolding malloc_update_pages total
  malloc_update_pages-Accounts live acc apart = record {
    counts = λ r j.
        let o = extent_of uintaddr range page_index size in
        rw
          (walk-effect set_full add_used_bytes pm uintaddr range page_index size r j
            (add_none (pm r j) (omega (arith, acc.counts r j))))
          (add-count o (page_total live r j) r j (pm r j) (acc.counts r j)
            (page_filled o live r j apart));
  }

  -- freeUpdatePages keeps the account: when a live object that is apart from the others goes, each
  -- page counts the bytes of the others.
  pub free_update_pages-Accounts :
      (before after : List Extent)
      → Accounts (before ++ extent_of uintaddr range page_index size ∷ after) pm
      → AllApart (extent_of uintaddr range page_index size) (before ++ after)
      → Accounts (before ++ after) (free_update_pages pm uintaddr range page_index size)
  unfolding free_update_pages
  free_update_pages-Accounts before after acc apart = record {
    counts = λ r j.
        let o = extent_of uintaddr range page_index size in
        rw
          (walk-effect set_empty sub_used_bytes pm uintaddr range page_index size r j
            (sub_none (pm r j) (omega (arith, acc.counts r j))))
          (sub-count o (page_total (before ++ after) r j) r j (pm r j)
            (rw total_middle at (acc.counts r j)) (page_filled o (before ++ after) r j apart));
  }

  -- The rows of the cache map that the pages own stay.
  pub malloc_update_pages-rows :
      (live : List Extent)
      → Accounts live pm
      → (r j : ℕ)
      → (malloc_update_pages pm uintaddr range page_index size r j).cache_map_entry
        ≡ (pm r j).cache_map_entry
  unfolding malloc_update_pages add_used_bytes set_full
  malloc_update_pages-rows live acc r j =
      rw
        (walk-effect set_full add_used_bytes pm uintaddr range page_index size r j
          (add_none (pm r j) (omega (arith, acc.counts r j))))
        (ground arith)

  pub free_update_pages-rows :
      (live : List Extent)
      → Accounts live pm
      → (r j : ℕ)
      → (free_update_pages pm uintaddr range page_index size r j).cache_map_entry
        ≡ (pm r j).cache_map_entry
  unfolding free_update_pages sub_used_bytes set_empty
  free_update_pages-rows live acc r j =
      rw
        (walk-effect set_empty sub_used_bytes pm uintaddr range page_index size r j
          (sub_none (pm r j) (omega (arith, acc.counts r j))))
        (ground arith)
