-- ===== src/Structs.antt =====
-- src_light/structs.{h,cpp}: the counters that threads keep and that GlobalStatus adds up.
pub mod Sums
use mem_perf_pro.Base.{
  ℕ, zero, suc, ◌+◌, ◌/◌, Bool, true, false, not, ◌&&◌, ltb, ◌==◌, if◌then◌else◌, add_32, add_64,
  update,
}

-- NUM_OF_ALLOCATIONTYPEFOROUTPUTDATA
abbrev pub num_of_allocation_types : ℕ
num_of_allocation_types = 24

pub record SystemCallData : Type 0 where
  pub num : ℕ
  pub cycles : ℕ

unfoldable pub add_one_system_call : SystemCallData → ℕ → SystemCallData
add_one_system_call d cycles = record { num = add_32 d.num 1; cycles = add_64 d.cycles cycles }

unfoldable pub add_system_calls : SystemCallData → SystemCallData → SystemCallData
add_system_calls d new = record { num = add_32 d.num new.num; cycles = add_64 d.cycles new.cycles }

-- `for(allocationType = 0; allocationType < …; ++allocationType) a[allocationType] += b[allocationType]`
-- on words of 32 and of 64 bits, with the rounds that are left
unfoldable pub add_cells : (ℕ → ℕ → ℕ) → ℕ → ℕ → (ℕ → ℕ) → (ℕ → ℕ) → ℕ → ℕ
add_cells plus zero i a b = a
add_cells plus (suc left) i a b = add_cells plus left (i + 1) (update a i (plus (a i) (b i))) b

abbrev pub add_counts : (ℕ → ℕ) → (ℕ → ℕ) → ℕ → ℕ
add_counts = add_cells (λ x y. add_32 x y) num_of_allocation_types 0

abbrev pub add_cycles : (ℕ → ℕ) → (ℕ → ℕ) → ℕ → ℕ
add_cycles = add_cells (λ x y. add_64 x y) num_of_allocation_types 0

pub record OverviewLockData : Type 0 where
  pub num_of_locks : ℕ
  pub num_of_calls : ℕ → ℕ
  pub num_of_calls_with_contentions : ℕ → ℕ
  pub total_cycles : ℕ → ℕ

unfoldable pub add_overview_lock_data : OverviewLockData → OverviewLockData → OverviewLockData
add_overview_lock_data d new = record {
  num_of_locks = add_32 d.num_of_locks new.num_of_locks;
  num_of_calls = add_counts d.num_of_calls new.num_of_calls;
  num_of_calls_with_contentions =
      add_counts d.num_of_calls_with_contentions new.num_of_calls_with_contentions;
  total_cycles = add_cycles d.total_cycles new.total_cycles;
}

pub data LockTypes : Type 0 where
  mutex : LockTypes
  spin : LockTypes
  mutextry : LockTypes
  spintry : LockTypes

pub record DetailLockData : Type 0 where
  pub lock_type : LockTypes
  pub num_of_calls : ℕ → ℕ
  pub num_of_calls_with_contentions : ℕ → ℕ
  pub cycles : ℕ → ℕ

unfoldable pub new_detail_lock_data : LockTypes → DetailLockData
new_detail_lock_data type = record {
  lock_type = type;
  num_of_calls = λ i. 0;
  num_of_calls_with_contentions = λ i. 0;
  cycles = λ i. 0;
}

-- The loop of isAnImportantLock, with the sampled calls of GlobalStatus as `sampled`.
unfoldable pub is_important_from : (ℕ → ℕ) → (ℕ → ℕ) → ℕ → ℕ → Bool
is_important_from sampled cycles zero i = false
is_important_from sampled cycles (suc left) i =
    let rest = is_important_from sampled cycles left (i + 1) in
    if not (sampled i == 0) && ltb 500 (cycles i / sampled i) then true else rest

unfoldable pub is_an_important_lock : (ℕ → ℕ) → DetailLockData → Bool
is_an_important_lock sampled d = is_important_from sampled d.cycles num_of_allocation_types 0

unfoldable pub add_detail_lock_data : DetailLockData → DetailLockData → DetailLockData
add_detail_lock_data d new = record {
  lock_type = new.lock_type;
  num_of_calls = add_counts d.num_of_calls new.num_of_calls;
  num_of_calls_with_contentions =
      add_counts d.num_of_calls_with_contentions new.num_of_calls_with_contentions;
  cycles = add_cycles d.cycles new.cycles;
}

pub record FriendlinessStatus : Type 0 where
  pub num_of_sampling : ℕ
  pub total_memory_usage_of_sampled_pages : ℕ
  pub total_memory_usage_of_sampled_cache_lines : ℕ

unfoldable pub record_a_new_sampling : FriendlinessStatus → ℕ → ℕ → FriendlinessStatus
record_a_new_sampling f memory_usage_of_cache_line memory_usage_of_page = record {
  num_of_sampling = add_32 f.num_of_sampling 1;
  total_memory_usage_of_sampled_pages =
      add_64 f.total_memory_usage_of_sampled_pages memory_usage_of_page;
  total_memory_usage_of_sampled_cache_lines =
      add_64 f.total_memory_usage_of_sampled_cache_lines memory_usage_of_cache_line;
}

unfoldable pub add_friendliness : FriendlinessStatus → FriendlinessStatus → FriendlinessStatus
add_friendliness f new = record {
  num_of_sampling = add_32 f.num_of_sampling new.num_of_sampling;
  total_memory_usage_of_sampled_pages =
      add_64 f.total_memory_usage_of_sampled_pages new.total_memory_usage_of_sampled_pages;
  total_memory_usage_of_sampled_cache_lines =
      add_64 f.total_memory_usage_of_sampled_cache_lines
        new.total_memory_usage_of_sampled_cache_lines;
}
