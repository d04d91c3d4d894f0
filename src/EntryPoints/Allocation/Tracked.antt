-- ===== src/EntryPoints/Allocation/Tracked.antt =====
-- src_light/libmallocprof.cpp: the table of objects and the shadow memory know the objects that
-- yymalloc gives, until yyfree.
use mem_perf_pro.Base.{
  ℕ, ◌+◌, ◌<◌, ◌≡◌, ◌≢◌, refl, sym, subst, ap, ◌∙◌, Bool, true, false, ◌&&◌, ◌==◌, ne→==,
  if◌then◌else◌, branches_2, List, Bool-cases, inl, inr, ◌∷◌, arith,
}
use mem_perf_pro.Base.Run.{Run, Returns, Returns-bind}
use mem_perf_pro.AllocatingStatus as Function
use mem_perf_pro.AllocatingStatus.Memory.{
  Status, update_allocating_status_before_real_function,
  update_allocating_status_after_real_function, measured, stopped,
}
use mem_perf_pro.AllocatingStatus.Memory.Tracked.{
  Object, extents, IsNew, IsTracked, HasSpace, update_memory_status_after_allocation-IsTracked,
}
use mem_perf_pro.AllocatingStatus.Calls.{Thread, is_first_function}
use mem_perf_pro.ObjTable.Update.{Contents}
use mem_perf_pro.ShadowMemory.CacheMap.{Shadow}
use mem_perf_pro.ShadowMemory.Extents.{AllApart}
use mem_perf_pro.MyMalloc.{Memory}
use mem_perf_pro.HashMap.{with_memory}
use mem_perf_pro.HashMap.Shared.{Grown, Holds-Grown, HasRoom-Grown}
use mem_perf_pro.HashMap.Operations.{HasRoom}
use mem_perf_pro.HashMap.Represents.{Holds}
use mem_perf_pro.ObjTable.{CallKey, Table}
use mem_perf_pro.ShadowMemory.Objects.Live.{Tracks, object_extent}
use mem_perf_pro.ShadowMemory.PageIndex.{num_address_range, get_page_index}
use mem_perf_pro.EntryPoints.Inner.Kept.{all_take, some_cleans_pages, run_inner_calls-Kept}
use mem_perf_pro.EntryPoints.Allocation.{
  Process, RealCall, to_unsigned, real_function, update_allocating_info, with_thread,
  tracked_allocation, before_initialization, not_tracked, init_pmu_if, yymalloc,
}
use mem_perf_pro.EntryPoints.Allocation.Finished.{update_allocating_info-status}

pub IsTracked-same :
    (objects : List Object) (contents : Contents) (s s' : Status)
    → s'.table ≡ s.table
    → s'.shadow ≡ s.shadow
    → IsTracked objects contents s
    → IsTracked objects contents s'
IsTracked-same objects contents s s' et es t = record {
  holds = subst (λ (table : Table). Holds table contents) (sym et) t.holds;
  size = ap (λ (table : Table). table.buckets_total) et ∙ t.size;
  tracks = subst (Tracks (extents objects)) (sym es) t.tracks;
  sizes = t.sizes;
}

pub HasSpace-same :
    (entry_size size : ℕ) (contents : Contents) (s s' : Status)
    → s'.table ≡ s.table
    → s'.shadow ≡ s.shadow
    → HasSpace entry_size size contents s
    → HasSpace entry_size size contents s'
HasSpace-same entry_size size contents s s' et es h = record {
  few = h.few;
  entries = subst (HasRoom entry_size) (sym et) h.entries;
  rows = omega (arith, h.rows, ap (λ (shadow : Shadow). shadow.cache_map_bump_ptr) es);
}

-- the notes when some of the hash memory has been taken
abbrev pub with_taken : Status → Memory → Status
with_taken s memory = record s { table = with_memory s.table memory }

pub IsTracked-taken :
    (bytes : ℕ) (objects : List Object) (contents : Contents) (s : Status) (memory : Memory)
    → Grown bytes s.table.memory memory
    → s.table.memory.overhead_pointer + bytes < 0x1_0000_0000_0000_0000
    → IsTracked objects contents s
    → IsTracked objects contents (with_taken s memory)
IsTracked-taken bytes objects contents s memory grown fits t = record {
  holds = Holds-Grown bytes s.table memory contents grown fits t.holds;
  size = t.size;
  tracks = t.tracks;
  sizes = t.sizes;
}

HasSpace-taken :
    (bytes entry_size size : ℕ) (contents : Contents) (s : Status) (memory : Memory)
    → Grown bytes s.table.memory memory
    → 0 < entry_size
    → HasSpace (bytes + entry_size) size contents s
    → HasSpace entry_size size contents (with_taken s memory)
HasSpace-taken bytes entry_size size contents s memory grown some_size h = record {
  few = h.few;
  entries = HasRoom-Grown bytes entry_size s.table memory grown some_size h.entries;
  rows = h.rows;
}

-- the bytes that the calls in turn may take of the hash memory
abbrev pub taken_inside : RealCall → ℕ
taken_inside call = all_take call.lock_entry_size call.inner

-- What the real function leaves of the notes, when it cleans no pages up: all but some hash memory.
pub real_function-status :
    (call : RealCall) (p : Process) (s : Status)
    → some_cleans_pages call.inner ≡ false
    → (memory : Memory) × ((real_function call p s).status ≡ with_taken s memory)
      × Grown (taken_inside call) s.table.memory memory
unfolding real_function
real_function-status call p s e =
    let t : Thread = record p.thread { status = s } in
    let kept = run_inner_calls-Kept call.lock_entry_size p.profiler_initialized call.inner t in
    let memory = (real_function call p s).status.table.memory in
    (
      memory,
      kept.status
          ∙ ap (λ shadow. record s { shadow = shadow; table = with_memory s.table memory })
              (kept.pages e),
      kept.memory,
    )

-- the object that a call of malloc gives
pub record IsGiven (object size : ℕ) (objects : List Object) : Type 0 where
  pub covered : (get_page_index object 0).range ≢ num_address_range
  pub some_bytes : size ≢ 0
  pub new : IsNew object objects
  pub apart : AllApart (object_extent object size) (extents objects)

malloc_status-IsTracked :
    (entry_size : ℕ) (get_call_key : CallKey) (tid object size time before : ℕ) (random : Bool)
    → (objects : List Object) (contents : Contents) (s : Status) → IsTracked objects contents s
    → 0 < entry_size
    → HasSpace (get_call_key.bytes + entry_size) size contents s
    → IsGiven object size objects
    → (after : Contents) × Returns (IsTracked ((object, size) ∷ objects) after) (
        update_allocating_status_after_real_function entry_size get_call_key tid object time
          (update_allocating_status_before_real_function Function.malloc size random before s))
unfolding update_allocating_status_after_real_function update_allocating_status_before_real_function
malloc_status-IsTracked entry_size get_call_key tid object size time before random objects contents
      s t some_size space given =
    let b = update_allocating_status_before_real_function Function.malloc size random before s in
    let n : Status = record (measured time b) {
      allocating_type = record (measured time b).allocating_type { object_address = object };
    } in
    let (after, returns) =
      update_memory_status_after_allocation-IsTracked n contents entry_size get_call_key tid objects
        (IsTracked-same objects contents s n refl refl t) some_size
        (HasSpace-same (get_call_key.bytes + entry_size) size contents s n refl refl space)
        given.covered given.some_bytes given.new given.apart in
    (
      after,
      Returns-bind (IsTracked ((object, size) ∷ objects) after)
          (IsTracked ((object, size) ∷ objects) after) _ _ returns
          λ s'' tracked. (
            stopped s'',
            refl,
            IsTracked-same ((object, size) ∷ objects) after s'' (stopped s'') refl refl tracked,
          ),
    )

-- What the process knows of objects is what the notes of its thread lead to.
abbrev pub Knows : List Object → Contents → Process → Type 0
Knows objects contents p = IsTracked objects contents p.thread.status

pub updated-Knows :
    (objects : List Object) (contents : Contents) (call : RealCall) (p : Process) (t : Thread)
    → (s : Status) → IsTracked objects contents s
    → Knows objects contents
        (with_thread p (update_allocating_info p.info call.parallel (record t { status = s })))
updated-Knows objects contents call p t s tracked =
    subst (IsTracked objects contents)
      (sym (update_allocating_info-status p.info call.parallel (record t { status = s }))) tracked

-- the bytes of the hash memory that a call of malloc needs: for the locks, the call site, the object
abbrev pub bytes_needed : RealCall → ℕ
bytes_needed call = taken_inside call + (call.get_call_key.bytes + call.entry_size)

tracked_allocation-Knows :
    (call : RealCall) (p : Process) (sz : ℕ) (objects : List Object) (contents : Contents)
    → some_cleans_pages call.inner ≡ false
    → Knows objects contents p
    → 0 < call.entry_size
    → HasSpace (bytes_needed call) (to_unsigned sz) contents p.thread.status
    → IsGiven call.object (to_unsigned sz) objects
    → (after : Contents) × Returns
        (Knows ((call.object, to_unsigned sz) ∷ objects) after)
        (tracked_allocation Function.malloc sz call p.thread.status p)
unfolding tracked_allocation update_allocating_status_before_real_function
tracked_allocation-Knows call p sz objects contents keeps t some_size space given =
    let b =
      update_allocating_status_before_real_function Function.malloc (to_unsigned sz) call.random
        call.before p.thread.status in
    let inside = real_function call p b in
    let bytes = taken_inside call in
    let s = p.thread.status in
    let (memory, is, grown) = real_function-status call p b keeps in
    let (after, returns) =
      malloc_status-IsTracked call.entry_size call.get_call_key p.running_thread_index call.object
        (to_unsigned sz) call.after call.before call.random objects contents (with_taken s memory)
        (IsTracked-taken bytes objects contents s memory grown
          (omega (arith, space.entries.room, space.entries.end, some_size)) t)
        some_size
        (HasSpace-taken bytes (call.get_call_key.bytes + call.entry_size) (to_unsigned sz) contents
          s memory grown (omega (arith, some_size)) space)
        given in
    (
      after,
      Returns-bind (IsTracked ((call.object, to_unsigned sz) ∷ objects) after)
          (Knows ((call.object, to_unsigned sz) ∷ objects) after) _ _
          (subst
            (λ u. Returns (IsTracked ((call.object, to_unsigned sz) ∷ objects) after) (
              update_allocating_status_after_real_function call.entry_size call.get_call_key
                p.running_thread_index call.object call.after u))
            (sym is) returns)
          λ s' tracked. (
            with_thread p
                (update_allocating_info p.info call.parallel (record inside { status = s' })),
            refl,
            updated-Knows _ after call p inside s' tracked,
          ),
    )

-- The profiler runs, and the thread is outside an allocation, before the conclusion.
pub record IsTracking (p : Process) : Type 0 where
  pub outside : not_tracked p ≡ false
  pub initialized : p.profiler_initialized ≡ true

first_function-status : (t : Thread) → (is_first_function t).0.status ≡ t.status
unfolding is_first_function
first_function-status t = elim (Bool-cases t.first_allocation) [
  | inl e ↦ rw (e, is_first_function) refl
  | inr e ↦ rw (e, is_first_function) refl
]

not_before : (p : Process) → p.profiler_initialized ≡ true → before_initialization p ≡ false
not_before p e = ground arith

to_tracked :
    (a b c : Bool) (x y z w : Run (Process × ℕ))
    → a ≡ false
    → b ≡ false
    → c ≡ false
    → (if a then x else if b then y else if c then z else w) ≡ w
to_tracked a b c x y z w ea eb ec = ground arith

init_pmu-Knows :
    (objects : List Object) (contents : Contents) (first : Bool) (p : Process)
    → Knows objects contents p
    → Knows objects contents (init_pmu_if first p)
init_pmu-Knows objects contents first p k =
    branches_2 (Knows objects contents) (first && p.running_thread_index == 0)
      (record p { is_sampling_init = true }) p k k

-- The object that yymalloc gives is one of those that the table and the shadow memory tell of, with
-- the low 32 bits of its size, when the thread is tracked, the real function cleans no pages up and
-- gives a new object that a range covers, apart from the others, and there is space: in the hash
-- memory of the thread for the entries of the locks that the real function takes, of the call site and
-- of the object. The call returns.
pub yymalloc-Knows :
    (call : RealCall) (p : Process) (sz : ℕ) (objects : List Object) (contents : Contents)
    → IsTracking p
    → some_cleans_pages call.inner ≡ false
    → Knows objects contents p
    → 0 < call.entry_size
    → HasSpace (bytes_needed call) (to_unsigned sz) contents p.thread.status
    → IsGiven call.object (to_unsigned sz) objects
    → (after : Contents) × Returns
        (λ r. Knows ((call.object, to_unsigned sz) ∷ objects) after r.0 × (r.1 ≡ call.object))
        (yymalloc call sz p)
unfolding yymalloc
yymalloc-Knows call p sz objects contents tracking keeps t some_size space given =
    let f = is_first_function p.thread in
    let same = first_function-status p.thread in
    let (after, returns) =
      tracked_allocation-Knows call (with_thread p f.0) sz objects contents keeps
        (subst (IsTracked objects contents) (sym same) t) some_size
        (subst (HasSpace (bytes_needed call) (to_unsigned sz) contents) (sym same) space) given in
    let goal : Process × ℕ → Type 0 =
      λ r. Knows ((call.object, to_unsigned sz) ∷ objects) after r.0 × (r.1 ≡ call.object) in
    (
      after,
      subst (Returns goal)
          (sym (
            to_tracked (sz == 0) (before_initialization p) (not_tracked p) _ _ _ _
              (ne→== sz 0 λ e. given.some_bytes (omega (arith, e)))
              (not_before p tracking.initialized) tracking.outside))
          (Returns-bind (Knows ((call.object, to_unsigned sz) ∷ objects) after) goal _ _ returns
            λ p' knows. (
              (init_pmu_if f.1 p', call.object),
              refl,
              (init_pmu-Knows _ after f.1 p' knows, refl),
            )),
    )
