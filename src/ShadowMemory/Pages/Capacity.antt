-- ===== src/ShadowMemory/Pages/Capacity.antt =====
-- Live objects that are pairwise apart: what PageMapEntry::getUsedBytes reports is then exact.
use mem_perf_pro.Base.{ℕ, ◌+◌, ◌*◌, ◌≡◌, List, arith}
use mem_perf_pro.ShadowMemory.Extents.{Extent, PairwiseApart, total-le}
use mem_perf_pro.ShadowMemory.PageMapEntry.{page_size, get_used_bytes}
use mem_perf_pro.ShadowMemory.Pages.{PageMap}
use mem_perf_pro.ShadowMemory.Pages.Live.{page_total, Accounts}

-- While the page map accounts for live objects that are pairwise apart, getUsedBytes of a page is
-- the number of live bytes on it: no count overflows the 16 bits or is clamped.
pub get_used_bytes-total :
    (live : List Extent) (pm : PageMap) (r j : ℕ)
    → Accounts live pm
    → PairwiseApart live
    → get_used_bytes (pm r j) ≡ page_total live r j
unfolding get_used_bytes
get_used_bytes-total live pm r j acc a =
    ground (arith, acc.counts r j, total-le live r (j * page_size) ((j + 1) * page_size) a)
