-- ===== src/HashMap.antt =====
-- src_light/hashmap.hh: HashMap, whose buckets are rings of entries behind a head. The hash and the
-- comparison are the function pointers that initialize takes; `entry_size` is sizeof(Entry), and the
-- entries come from the hash memory of the running thread.
pub mod Find
pub mod Represents
pub mod Insert
pub mod Operations
pub mod Store
pub mod Initialize
pub mod Iterator
pub mod Change
pub mod Shared
use mem_perf_pro.Base.{
  bit_and, ◌-◌, ℕ, true, false, zero, suc, ◌+◌, ◌*◌, ◌%◌, Bool, Option, none, some, if◌then◌else◌,
  add_16, add_64, update, ltb,
}
use mem_perf_pro.HashList.{Links, list_init, list_insert_tail}
use mem_perf_pro.MyMalloc.{Memory, malloc}

-- sizeof(HashBucket): two pointers and the `unsigned short` count, aligned
abbrev pub bucket_size : ℕ
bucket_size = 24

module _ {ℓ} (K V : Type ℓ) where
  -- The links are those of the list nodes, which stand at the start of heads and entries; `key` and
  -- `value` are read at the address of an entry, `count` by bucket;
  -- `memory` is the hash memory of the running thread, which is not part of the map: see with_memory.
  pub record HashMap : Type ℓ where
    pub links : Links
    pub key : ℕ → K
    pub value : ℕ → V
    pub buckets : ℕ
    pub buckets_total : ℕ
    pub count : ℕ → ℕ
    pub total_entry : ℕ
    pub memory : Memory

-- A map with the memory that the operation before has left: all the maps of a thread take their
-- entries out of the hash memory of the thread, so the memory goes from the map of one operation to
-- that of the next.
abbrev pub with_memory {ℓ} : {K V : Type ℓ} → HashMap K V → Memory → HashMap K V
with_memory m memory = record m { memory = memory }

-- the address of the head of a bucket
abbrev pub head_of {ℓ} : {K V : Type ℓ} → HashMap K V → ℕ → ℕ
head_of m index = m.buckets + index * bucket_size

module _ {ℓ} {K V : Type ℓ} where
  -- `*value = …` through the pointer that find gives: the entry at its address
  unfoldable pub store : HashMap K V → ℕ → V → HashMap K V
  store m entry value = record m { value = update m.value entry value }

  -- HashBucket::initialize
  unfoldable pub initialize_bucket : HashMap K V → ℕ → HashMap K V
  initialize_bucket m i = record m {
    count = update m.count i 0;
    links = list_init m.links (head_of m i);
  }

  -- `for(i = 0; i < size; i++)`, with the rounds that are left
  unfoldable pub initialize_buckets : HashMap K V → ℕ → ℕ → HashMap K V
  initialize_buckets m zero i = m
  initialize_buckets m (suc left) i = initialize_buckets (initialize_bucket m i) left (i + 1)

  -- initialize of a map that is not; `mapped` is the address that mmap gives the buckets
  unfoldable pub initialize : HashMap K V → ℕ → ℕ → HashMap K V
  unfolding initialize_buckets
  initialize m mapped size =
      initialize_buckets (record m { buckets = mapped; buckets_total = size; total_entry = 0 }) size
        0

  -- createNewEntry
  unfoldable pub create_new_entry : ℕ → HashMap K V → K → V → HashMap K V × ℕ
  unfolding malloc
  create_new_entry entry_size m key value =
      let (memory, entry) = malloc m.memory entry_size in
      (
        record m {
          memory = memory;
          links = list_init m.links entry;
          key = update m.key entry key;
          value = update m.value entry value;
        },
        entry,
      )

  unfoldable pub insert_entry : ℕ → HashMap K V → ℕ → K → V → HashMap K V × ℕ
  unfolding create_new_entry list_insert_tail
  insert_entry entry_size m index key value =
      let (m', entry) = create_new_entry entry_size m key value in
      (
        record m' {
          links = list_insert_tail m'.links entry (head_of m index);
          count = update m.count index (add_16 (m.count index) 1);
          total_entry = add_64 m.total_entry 1;
        },
        entry,
      )

  module _ (hash : K → ℕ) (same_key : K → K → Bool) where
    -- `hkey & (_bucketsTotal-1)`
    unfoldable pub hash_index : HashMap K V → K → ℕ
    hash_index m key = bit_and (hash key) (m.buckets_total - 1)

    -- `while(count > 0)` of getEntry
    unfoldable pub entry_from : HashMap K V → K → ℕ → ℕ → Option ℕ
    entry_from m key zero entry = none
    entry_from m key (suc count) entry =
        let rest = entry_from m key count (m.links.next entry) in
        if same_key (m.key entry) key then some entry else rest

    unfoldable pub get_entry : HashMap K V → ℕ → K → Option ℕ
    unfolding entry_from
    get_entry m index key = entry_from m key (m.count index) (m.links.next (head_of m index))

    -- The address of the entry whose value is found; a bucket index in range is what getHashBucket
    -- asks for, and hashIndex gives one.
    unfoldable pub find : HashMap K V → K → Option ℕ
    unfolding get_entry hash_index
    find m key = get_entry m (hash_index m key) key

    unfoldable pub insert : ℕ → HashMap K V → K → V → HashMap K V × ℕ
    unfolding insert_entry hash_index
    insert entry_size m key value = insert_entry entry_size m (hash_index m key) key value

    unfoldable pub insert_if_absent : ℕ → HashMap K V → K → V → HashMap K V × Bool
    unfolding get_entry hash_index insert_entry
    insert_if_absent entry_size m key value =
        let index = hash_index m key in
        elim (get_entry m index key) [
          | some entry ↦ (m, true)
          | none ↦ ((insert_entry entry_size m index key value).0, false)
        ]
