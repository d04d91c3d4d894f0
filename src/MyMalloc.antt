-- ===== src/MyMalloc.antt =====
-- src_light/mymalloc.{h,cpp}: the profiler's own memory, from which objects are taken one behind
-- the other and never given back. Addresses are 64-bit numbers, `objectNum` has 32 bits.
pub mod Objects
use mem_perf_pro.Base.{
  ℕ, ◌+◌, Bool, true, false, ◌&&◌, leb, if◌then◌else◌, add_16, add_32, add_64, sub_64, update, List,
  [], ◌∷◌,
}

-- PROFILER_MEMORY_SIZE, MMAP_PROFILER_HASH_MEMORY_SIZE: 2 and 8 GB
abbrev pub profiler_memory_size : ℕ
profiler_memory_size = 0x8000_0000

abbrev pub mmap_profiler_hash_memory_size : ℕ
mmap_profiler_hash_memory_size = 0x2_0000_0000

-- `start_pointer` of a ProfilerMemory is the address of its array, that of a MMAPProfilerMemory what
-- mmap gave.
pub record Memory : Type 0 where
  pub initialized : Bool
  pub object_num : ℕ
  pub start_pointer : ℕ
  pub end_pointer : ℕ
  pub overhead_pointer : ℕ

abbrev pub get_a_space_from_memory : Memory → ℕ → Memory
get_a_space_from_memory m size = record m {
  overhead_pointer = add_64 m.overhead_pointer size;
  object_num = add_32 m.object_num 1;
}

abbrev pub new_object_addr : Memory → ℕ → ℕ
new_object_addr m size = sub_64 m.overhead_pointer size

unfoldable pub in_memory : Memory → ℕ → Bool
in_memory m addr = leb m.start_pointer addr && leb addr m.end_pointer

-- ProfilerMemory::initialize, whose array is at `start_pointer`
unfoldable pub initialize : Memory → Memory
initialize m = record m {
  end_pointer = add_64 m.start_pointer profiler_memory_size;
  overhead_pointer = m.start_pointer;
  initialized = true;
}

unfoldable pub check_and_initialize : Memory → Memory
unfolding initialize
check_and_initialize m = if m.initialized then m else initialize m

-- ProfilerMemory::mallocWithoutLock; malloc is the same between lock and unlock
unfoldable pub malloc_without_lock : Memory → ℕ → Memory × ℕ
unfolding check_and_initialize
malloc_without_lock m size =
    let m' = get_a_space_from_memory (check_and_initialize m) size in (m', new_object_addr m' size)

unfoldable pub if_in_profiler_memory_then_free : Memory → ℕ → Memory × Bool
unfolding check_and_initialize in_memory
if_in_profiler_memory_then_free m addr =
    let m' = check_and_initialize m in (m', (if in_memory m' addr then true else false))

-- MMAPProfilerMemory::initialize; `mapped` is the address that mmap gives
unfoldable pub initialize_mmap : Memory → ℕ → ℕ → Memory
initialize_mmap m mapped set_size = record m {
  start_pointer = mapped;
  end_pointer = add_64 mapped set_size;
  overhead_pointer = mapped;
  initialized = true;
}

-- MMAPProfilerMemory::finalize: the range that it unmaps, and the new state
unfoldable pub finalize : Memory → Memory × (ℕ × ℕ)
finalize m = (
  record m { initialized = false },
  (m.overhead_pointer, sub_64 m.end_pointer m.overhead_pointer),
)

-- MMAPProfilerMemory::malloc
unfoldable pub malloc : Memory → ℕ → Memory × ℕ
malloc m size = let m' = get_a_space_from_memory m size in (m', new_object_addr m' size)

-- XThreadMemory::malloc: the index of the next cell of `threads`; `idx` has 16 bits
unfoldable pub xthread_malloc : ℕ → ℕ × ℕ
xthread_malloc idx = (add_16 idx 1, idx)

-- the memories of the threads, by thread index
abbrev pub ThreadMemories : Type 0
ThreadMemories = ℕ → Memory

unfoldable pub initialize_for_thread : ThreadMemories → ℕ → ℕ → ThreadMemories
unfolding initialize_mmap
initialize_for_thread ms thread_index mapped =
    update ms thread_index (initialize_mmap (ms thread_index) mapped mmap_profiler_hash_memory_size)

unfoldable pub finalize_for_thread : ThreadMemories → ℕ → ThreadMemories
unfolding finalize
finalize_for_thread ms thread_index = update ms thread_index (finalize (ms thread_index)).0

unfoldable pub hash_malloc : ThreadMemories → ℕ → ℕ → ThreadMemories × ℕ
unfolding malloc
hash_malloc ms running_thread_index size =
    let (m, object) = malloc (ms running_thread_index) size in
    (update ms running_thread_index m, object)
