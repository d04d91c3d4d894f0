-- ===== src/EntryPoints/Allocation.antt =====
-- src_light/libmallocprof.cpp: the allocation functions. A size is 64 bits wide; the notes keep its
-- low 32 bits.
pub mod Finished
pub mod Reentrant
pub mod Tracked
pub mod Freed
use mem_perf_pro.Base.{ℕ, ◌*◌, ◌%◌, Bool, true, false, not, ◌&&◌, ◌||◌, ◌==◌, if◌then◌else◌, List}
use mem_perf_pro.Base.Run.{Run, done, ◌>>=◌}
use mem_perf_pro.MyMalloc.{Memory, malloc_without_lock, if_in_profiler_memory_then_free}
use mem_perf_pro.ObjTable.{CallKey}
use mem_perf_pro.AllocatingStatus as Function
use mem_perf_pro.AllocatingStatus.{AllocationFunction}
use mem_perf_pro.AllocatingStatus.Memory.{
  Status, update_allocating_status_before_real_function, update_freeing_status_before_real_function,
  update_allocating_status_after_real_function, update_freeing_status_after_real_function,
}
use mem_perf_pro.AllocatingStatus.Calls.{
  Info, Thread, is_first_function, update_allocating_info_to_thread_local_data,
  update_allocating_info_to_predictor,
}
use mem_perf_pro.EntryPoints.LockCalls.{outside_tracked_allocation}
use mem_perf_pro.EntryPoints.Inner.{Inner, run_inner_calls}

-- the running thread, and what it reads of the rest
pub record Process : Type 0 where
  pub thread : Thread
  pub running_thread_index : ℕ
  pub profiler_initialized : Bool
  pub begin_conclusion : Bool
  pub profiler_memory : Memory
  pub is_sampling_init : Bool
  pub info : Info

-- What a call meets: the draw of the random engine, the clock before and after, getCallKey, the
-- sizes of the entries of the two tables, isCurrentlyParallelThread(), the calls that the real
-- function makes in turn, the object that it gives, and what posix_memalign returns.
pub record RealCall : Type 0 where
  pub random : Bool
  pub before : ℕ
  pub after : ℕ
  pub get_call_key : CallKey
  pub entry_size : ℕ
  pub lock_entry_size : ℕ
  pub parallel : Bool
  pub inner : List Inner
  pub object : ℕ
  pub retval : ℕ

-- the conversion to `unsigned int`
abbrev pub to_unsigned : ℕ → ℕ
to_unsigned size = size % 0x1_0000_0000

unfoldable pub real_function : RealCall → Process → Status → Thread
real_function call p s =
    run_inner_calls call.lock_entry_size p.profiler_initialized call.inner
      (record p.thread { status = s })

-- updateAllocatingInfoToThreadLocalData, updateAllocatingInfoToPredictor
unfoldable pub update_allocating_info : Info → Bool → Thread → Thread
update_allocating_info info parallel t =
    update_allocating_info_to_predictor info parallel
      (update_allocating_info_to_thread_local_data info parallel t)

abbrev pub with_thread : Process → Thread → Process
with_thread p t = record p { thread = t }

abbrev pub with_memory : Process → Memory → Process
with_memory p memory = record p { profiler_memory = memory }

-- from updateAllocatingStatusBeforeRealFunction to updateAllocatingInfoToPredictor; `s` are the
-- notes before
unfoldable pub tracked_allocation :
    AllocationFunction → ℕ → RealCall → Status → Process → Run Process
unfolding real_function update_allocating_info
tracked_allocation function size call s p =
    let inside = real_function call p (
      update_allocating_status_before_real_function function (to_unsigned size) call.random
        call.before s) in
    do
      s' ←
          update_allocating_status_after_real_function call.entry_size call.get_call_key
            p.running_thread_index call.object call.after inside.status
      done (
          with_thread p
            (update_allocating_info p.info call.parallel (record inside { status = s' })))

-- from updateFreeingStatusBeforeRealFunction to updateAllocatingInfoToPredictor
unfoldable pub tracked_free : ℕ → RealCall → Process → Run Process
unfolding real_function update_allocating_info
tracked_free ptr call p = do
  s ←
      update_freeing_status_before_real_function Function.free ptr call.random call.before
        p.thread.status
  (let inside = real_function call p s in
      done (
        with_thread p (
          update_allocating_info p.info call.parallel (record inside {
            status = update_freeing_status_after_real_function call.after inside.status;
          }))))

abbrev pub before_initialization : Process → Bool
before_initialization p = p.running_thread_index == 0 && not p.profiler_initialized

-- `!outsideTrackedAllocation() || conclusionHasStarted()`
abbrev pub not_tracked : Process → Bool
not_tracked p = not (outside_tracked_allocation p.thread) || p.begin_conclusion

-- MyMalloc::malloc
abbrev pub profiler_malloc : Process → ℕ → Run (Process × ℕ)
profiler_malloc p size =
    let (memory, object) = malloc_without_lock p.profiler_memory size in
    done (record p { profiler_memory = memory }, object)

-- The real function by itself: what it calls in turn comes back to the profiler, which notes it if the
-- thread is inside an allocation.
abbrev pub with_real : RealCall → Process → Process
with_real call p =
    with_thread p (run_inner_calls call.lock_entry_size p.profiler_initialized call.inner p.thread)

abbrev giving : ℕ → Run Process → Run (Process × ℕ)
giving object call = do p ← call; done (p, object)

-- initPMU of the main thread on its first function
abbrev pub init_pmu_if : Bool → Process → Process
init_pmu_if first p =
    if first && p.running_thread_index == 0 then record p { is_sampling_init = true } else p

unfoldable pub yymalloc : RealCall → ℕ → Process → Run (Process × ℕ)
yymalloc call sz p =
    if sz == 0
    then done (p, 0)
    else if before_initialization p
    then profiler_malloc p sz
    else if not_tracked p
    then done (with_real call p, call.object)
    else (let (t, first) = is_first_function p.thread in
        do
          p' ← tracked_allocation Function.malloc sz call t.status (with_thread p t)
          done (init_pmu_if first p', call.object))

-- `nelem * elsize` wraps
abbrev pub product : ℕ → ℕ → ℕ
product nelem elsize = nelem * elsize % 0x1_0000_0000_0000_0000

unfoldable pub yycalloc : RealCall → ℕ → ℕ → Process → Run (Process × ℕ)
yycalloc call nelem elsize p =
    if product nelem elsize == 0
    then done (p, 0)
    else if before_initialization p
    then profiler_malloc p (product nelem elsize)
    else if not_tracked p
    then done (with_real call p, call.object)
    else giving call.object
        (tracked_allocation Function.calloc (product nelem elsize) call p.thread.status p)

unfoldable pub yyfree : RealCall → ℕ → Process → Run Process
yyfree call ptr p =
    let (memory, inside) = if_in_profiler_memory_then_free p.profiler_memory ptr in
    let p' = with_memory p memory in
    if ptr == 0
    then done p
    else if inside || not p.profiler_initialized
    then done p'
    else if not_tracked p
    then done (with_real call p')
    else tracked_free ptr call p'

-- `if(ptr) updateFreeingStatusBeforeRealFunction(REALLOC, ptr);`
abbrev pub realloc_frees : RealCall → ℕ → Process → Run Status
realloc_frees call ptr p =
    if ptr == 0
    then done p.thread.status
    else update_freeing_status_before_real_function Function.realloc ptr call.random call.before
        p.thread.status

unfoldable pub yyrealloc : RealCall → ℕ → ℕ → Process → Run (Process × ℕ)
yyrealloc call ptr sz p =
    let (memory, inside) = if_in_profiler_memory_then_free p.profiler_memory ptr in
    let p' = with_memory p memory in
    if before_initialization p
    then profiler_malloc p' sz
    else if inside
    then done (with_real call p', call.object)
    else if not_tracked p
    then done (with_real call p', call.object)
    else (do
      s ← realloc_frees call ptr p'
      giving call.object (tracked_allocation Function.realloc sz call s p'))

-- `call.object` is *memptr behind the real function.
unfoldable pub yyposix_memalign : RealCall → ℕ → Process → Run (Process × ℕ)
yyposix_memalign call size p =
    if size == 0
    then done (p, 0)
    else if not_tracked p || not p.profiler_initialized
    then done (with_real call p, call.retval)
    else giving call.retval (tracked_allocation Function.posix_memalign size call p.thread.status p)

unfoldable pub yymemalign : RealCall → ℕ → Process → Run (Process × ℕ)
yymemalign call size p =
    if size == 0
    then done (p, 0)
    else if before_initialization p
    then profiler_malloc p size
    else if not_tracked p
    then done (with_real call p, call.object)
    else giving call.object (tracked_allocation Function.memalign size call p.thread.status p)

-- a call of one of the functions; yyfree gives nothing
pub data Request : Type 0 where
  malloc_request : (sz : ℕ) → Request
  calloc_request : (nelem elsize : ℕ) → Request
  free_request : (ptr : ℕ) → Request
  realloc_request : (ptr sz : ℕ) → Request
  posix_memalign_request : (size : ℕ) → Request
  memalign_request : (size : ℕ) → Request

unfoldable pub run_request : RealCall → Request → Process → Run (Process × ℕ)
run_request call (malloc_request sz) p = yymalloc call sz p
run_request call (calloc_request nelem elsize) p = yycalloc call nelem elsize p
run_request call (free_request ptr) p = giving 0 (yyfree call ptr p)
run_request call (realloc_request ptr sz) p = yyrealloc call ptr sz p
run_request call (posix_memalign_request size) p = yyposix_memalign call size p
run_request call (memalign_request size) p = yymemalign call size p
