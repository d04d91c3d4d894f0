-- ===== src/Tests/Shadow.antt =====
-- The page map, the conflict data and the coherency table at concrete inputs.
use mem_perf_pro.Base.Counts.{count_true}
use mem_perf_pro.Base.{
  ℕ, ◌+◌, ◌*◌, ◌%◌, ◌<◌, ◌≤◌, ◌≡◌, ◌≢◌, ◌⊎◌, refl, true, [], ◌∷◌, none, arith, get_or, update,
  if◌then◌else◌, ◌==◌, add_8,
}
use mem_perf_pro.ShadowMemory.CacheMapEntry.{
  has_conflict, has_coherency, mark_conflict, mark_coherency, miss_count,
}
use mem_perf_pro.ShadowMemory.ConflictData.{
  ConflictData, add_miss, add_call_key, check_obj, count_miss, register,
}
use mem_perf_pro.ShadowMemory.ConflictData.Invariant.{add_miss-IsValid, check_obj-set}
use mem_perf_pro.ShadowMemory.ConflictData.Invariant as Conflict
use mem_perf_pro.ShadowMemory.Coherency.{
  Coherency, CoherencyData, tids_per_word_size, record_tid, on_miss, enter, check_coherency,
  note_object,
}
use mem_perf_pro.ShadowMemory.Coherency.Invariant as Table
use mem_perf_pro.ShadowMemory.Coherency.Invariant.{on_miss-IsValid, check_coherency-entry}
use mem_perf_pro.ShadowMemory.Coherency.Threads.{
  IsTidList, record_tid-IsTidList, record_tid-slot, record_tid_main,
}
use mem_perf_pro.ShadowMemory.Extents.{Extent, total, weight}
use mem_perf_pro.ShadowMemory.PageIndex.{
  address_ranges, max_page_map_entries, page_index_from, get_page_index, get_page_index-place,
  get_page_index-first, get_page_index_past_end,
}
use mem_perf_pro.ShadowMemory.PageMapEntry.{page_size, get_used_bytes}
use mem_perf_pro.ShadowMemory.Pages.{PageMap, malloc_update_pages, free_update_pages}
use mem_perf_pro.ShadowMemory.Pages.Live.{
  extent_of, page_total, Accounts, malloc_update_pages-Accounts, free_update_pages-Accounts,
}
use mem_perf_pro.ShadowMemory.Pages.Capacity.{get_used_bytes-total}

abbrev heap_address : ℕ
heap_address = 0x5600_0001_2345

get_page_index-place_here :
    (get_or address_ranges (get_page_index heap_address 0).range 0
        + (get_page_index heap_address 0).index * page_size
        + heap_address % page_size
      ≡ heap_address)
    × ((get_page_index heap_address 0).index ≤ max_page_map_entries)
unfolding get_page_index page_index_from
get_page_index-place_here = get_page_index-place heap_address 0 (omega arith)

get_page_index-first_here : (get_page_index heap_address 0).range ≤ 5
unfolding get_or
get_page_index-first_here =
    get_page_index-first heap_address 0 5 (omega arith) (omega arith, omega arith)

get_page_index_past_end_example :
    get_page_index 0x2800_0000_0010 0 ≡ record { range = 0; index = max_page_map_entries }
get_page_index_past_end_example = get_page_index_past_end 16 0 (omega arith)

abbrev no_pages : PageMap
no_pages r j = record { num_used_bytes = 0; cache_map_entry = none }

no_pages-Accounts : Accounts [] no_pages
unfolding total
no_pages-Accounts = record { counts = λ r j. refl }

-- an object over four pages, two of them whole
abbrev big : Extent
big = extent_of heap_address 5 18 10000

malloc_update_pages-Accounts_here :
    Accounts (big ∷ []) (malloc_update_pages no_pages heap_address 5 18 10000)
malloc_update_pages-Accounts_here =
    malloc_update_pages-Accounts heap_address 5 18 10000 [] no_pages-Accounts tt

abbrev one_object : PageMap
one_object = malloc_update_pages no_pages heap_address 5 18 10000

free_update_pages-Accounts_here : Accounts [] (free_update_pages one_object heap_address 5 18 10000)
free_update_pages-Accounts_here =
    free_update_pages-Accounts heap_address 5 18 10000 [] [] malloc_update_pages-Accounts_here tt

get_used_bytes-total_example : get_used_bytes (one_object 5 19) ≡ page_total (big ∷ []) 5 19
get_used_bytes-total_example =
    get_used_bytes-total (big ∷ []) one_object 5 19 malloc_update_pages-Accounts_here (tt, tt)

page_19_is_full : page_total (big ∷ []) 5 19 ≡ 4096
unfolding total weight
page_19_is_full = refl

-- set 5 takes 10 of 60 misses, and line 197 is one of its lines
abbrev hot : ConflictData
hot = record {
  num_of_cme = 0;
  set_of_cme = λ i. 0;
  num_of_cme_per_set = λ s. 0;
  obj_num_per_set = λ s. 0;
  call_key_per_set = λ s. (0, 0);
  total_misses = 60;
  misses_per_set = λ s. 10;
  cme = λ i. 0;
}

abbrev no_misses : ℕ → ℕ
no_misses line = 0

hot-IsValid : Conflict.IsValid hot no_misses
unfolding has_conflict count_true
hot-IsValid = record {
  few = omega arith;
  few_per_set = λ s. omega arith;
  counted = λ s. refl;
  sets = λ i h. absurd (omega arith);
  registered = λ l h. cc;
}

abbrev marked : ConflictData
marked = (add_miss hot 0x1140 197 0).0

abbrev marked_misses : ℕ → ℕ
marked_misses = update no_misses 197 (add_miss hot 0x1140 197 0).1

add_miss-IsValid_here : Conflict.IsValid marked marked_misses
add_miss-IsValid_here = add_miss-IsValid hot no_misses 0x1140 197 hot-IsValid refl

add_miss-IsValid_example : Conflict.IsValid marked marked_misses
add_miss-IsValid_example = add_miss-IsValid hot no_misses 0x1140 197 hot-IsValid refl

line_197_is_marked : has_conflict (marked_misses 197) ≡ true
unfolding add_miss count_miss register has_conflict has_coherency mark_conflict
line_197_is_marked = refl

check_obj-set_here :
    ((s : ℕ)
      → (check_obj marked 197 9).obj_num_per_set s
        ≡ (if s == 197 % 64 then add_8 (marked.obj_num_per_set s) 1 else marked.obj_num_per_set s))
    × ((s : ℕ)
        → (check_obj marked 197 9).call_key_per_set s ≡ (
            if s == 197 % 64
            then add_call_key (marked.call_key_per_set s) 9
            else marked.call_key_per_set s))
    × Conflict.IsValid (check_obj marked 197 9) marked_misses
check_obj-set_here =
    check_obj-set marked marked_misses 197 9 add_miss-IsValid_here line_197_is_marked

abbrev no_data : CoherencyData
no_data = record {
  call_key = (0, 0);
  misses = 0;
  allocate_tid = (0, 0);
  tids_per_word = λ w j. 0;
  cme = 0;
}

abbrev no_caches : Coherency
no_caches = record { num_of_coherency_caches = 0; coherency_caches = λ i. no_data }

-- line 197 has missed five times
abbrev five_misses : ℕ → ℕ
five_misses = update no_misses 197 5

no_caches-IsValid : Table.IsValid no_caches five_misses
unfolding has_coherency
no_caches-IsValid = record { few = omega arith; registered = λ l h. ground arith }

abbrev entered : Coherency
entered = (on_miss no_caches 197 5 0x1148 3).0

abbrev entered_misses : ℕ → ℕ
entered_misses = update five_misses 197 (on_miss no_caches 197 5 0x1148 3).1

on_miss-IsValid_here : Table.IsValid entered entered_misses
on_miss-IsValid_here =
    on_miss-IsValid no_caches five_misses no_caches-IsValid 197 0x1148 3 (omega arith)

on_miss-IsValid_example : Table.IsValid entered entered_misses
on_miss-IsValid_example =
    on_miss-IsValid no_caches five_misses no_caches-IsValid 197 0x1148 3 (omega arith)

line_197_is_entered : has_coherency (entered_misses 197) ≡ true
unfolding on_miss enter miss_count has_coherency mark_coherency
line_197_is_entered = refl

check_coherency-entry_here :
    (i : ℕ) × (i < entered.num_of_coherency_caches)
    × ((entered.coherency_caches i).cme ≡ 197)
    × ((j : ℕ)
        → (check_coherency entered 197 4 9).coherency_caches j ≡ (
            if j == i
            then note_object (entered.coherency_caches i) 4 9
            else entered.coherency_caches j))
    × Table.IsValid (check_coherency entered 197 4 9) entered_misses
check_coherency-entry_here =
    check_coherency-entry entered entered_misses on_miss-IsValid_here 197 0 4 9 line_197_is_entered

-- threads 3 and 7 have missed on the word
abbrev two_threads : ℕ → ℕ
two_threads = update (update (λ j. 0) 0 3) 1 7

two_threads-IsTidList : IsTidList two_threads
two_threads-IsTidList = record { ordered = λ i j lt h taken. ground arith }

record_tid-IsTidList_here : IsTidList (record_tid two_threads 5)
record_tid-IsTidList_here = record_tid-IsTidList two_threads 5 two_threads-IsTidList (omega arith)

record_tid-slot_here :
    ((i : ℕ) × (i < tids_per_word_size) × (record_tid two_threads 5 i ≡ 5))
    ⊎ (((i : ℕ) → i < tids_per_word_size → (two_threads i ≢ 0) × (two_threads i ≢ 5))
        × ((i : ℕ) → record_tid two_threads 5 i ≡ two_threads i))
record_tid-slot_here = record_tid-slot two_threads 5 (omega arith)

record_tid_main_example : record_tid two_threads 0 2 ≡ 0
record_tid_main_example = record_tid_main two_threads 2
