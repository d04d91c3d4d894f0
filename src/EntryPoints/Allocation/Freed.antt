-- ===== src/EntryPoints/Allocation/Freed.antt =====
-- src_light/libmallocprof.cpp: yyfree of an object that the table and the shadow memory know.
use mem_perf_pro.Base.{
  ◌+◌, ◌<◌, ℕ, ◌≡◌, ◌≢◌, refl, sym, subst, ap, Bool, true, false, not, ◌||◌, ◌==◌, ne→==,
  if◌then◌else◌, List, ◌∷◌, ◌++◌, arith,
}
use mem_perf_pro.Base.Run.{Run, Returns, Returns-bind}
use mem_perf_pro.MyMalloc.{if_in_profiler_memory_then_free}
use mem_perf_pro.AllocatingStatus as Function
use mem_perf_pro.AllocatingStatus.Memory.{
  Status, update_freeing_status_before_real_function, update_freeing_status_after_real_function,
  measured, stopped,
}
use mem_perf_pro.AllocatingStatus.Memory.Tracked.{
  Object, extents, IsTracked, HasSpace, update_memory_status_before_free-IsTracked,
}
use mem_perf_pro.ObjTable.Update.{Contents}
use mem_perf_pro.ShadowMemory.Extents.{AllApart}
use mem_perf_pro.ShadowMemory.Objects.Live.{object_extent}
use mem_perf_pro.ShadowMemory.PageIndex.{num_address_range, get_page_index}
use mem_perf_pro.EntryPoints.Inner.Kept.{some_cleans_pages}
use mem_perf_pro.EntryPoints.Allocation.{
  Process, RealCall, with_memory, real_function, tracked_free, not_tracked, yyfree,
}
use mem_perf_pro.EntryPoints.Allocation.Tracked.{
  IsTracked-same, HasSpace-same, IsTracked-taken, with_taken, taken_inside, real_function-status,
  Knows, updated-Knows, IsTracking,
}

-- An object that is in use among others, and its pages.
pub record IsInUse (ptr size : ℕ) (before after : List Object) : Type 0 where
  pub covered : (get_page_index ptr 0).range ≢ num_address_range
  pub some_bytes : size ≢ 0
  pub apart : AllApart (object_extent ptr size) (extents (before ++ after))

free_status-IsTracked :
    (entry_size ptr size time : ℕ) (random : Bool) (before after : List Object)
    → (contents : Contents) (s : Status) → IsTracked (before ++ (ptr, size) ∷ after) contents s
    → HasSpace entry_size size contents s
    → IsInUse ptr size before after
    → Returns
        (λ s'. IsTracked (before ++ after) contents s' × (s'.table ≡ s.table))
        (update_freeing_status_before_real_function Function.free ptr random time s)
unfolding update_freeing_status_before_real_function
free_status-IsTracked entry_size ptr size time random before after contents s t space used =
    let s1 : Status = record s {
      allocating_type = record s.allocating_type {
        allocating_function = Function.free;
        object_address = ptr;
        doing_allocation = true;
      };
    } in
    Returns-bind (λ s'. IsTracked (before ++ after) contents s' × (s'.table ≡ s.table))
      (λ s'. IsTracked (before ++ after) contents s' × (s'.table ≡ s.table)) _ _
      (update_memory_status_before_free-IsTracked s1 contents entry_size size before after
        (IsTracked-same (before ++ (ptr, size) ∷ after) contents s s1 refl refl t)
        (HasSpace-same entry_size size contents s s1 refl refl space) used.covered used.some_bytes
        used.apart)
      λ s' tracked. (
        record s' { sampled_for_counting_event = random; cycles_before_real_function = time },
        refl,
        (IsTracked-same (before ++ after) contents s' _ refl refl tracked.0, tracked.1),
      )

tracked_free-Knows :
    (call : RealCall) (p : Process) (entry_size ptr size : ℕ) (before after : List Object)
    → (contents : Contents) → some_cleans_pages call.inner ≡ false
    → Knows (before ++ (ptr, size) ∷ after) contents p
    → 0 < entry_size
    → HasSpace (taken_inside call + entry_size) size contents p.thread.status
    → IsInUse ptr size before after
    → Returns (Knows (before ++ after) contents) (tracked_free ptr call p)
unfolding tracked_free update_freeing_status_after_real_function
tracked_free-Knows call p entry_size ptr size before after contents keeps t some_size space used =
    Returns-bind
      (λ s'. IsTracked (before ++ after) contents s' × (s'.table ≡ p.thread.status.table))
      (Knows (before ++ after) contents) _ _
      (free_status-IsTracked (taken_inside call + entry_size) ptr size call.before call.random
        before after contents p.thread.status t space used)
      λ s (tracked, table).
        let inside = real_function call p s in
        let (memory, is, grown) = real_function-status call p s keeps in
        let room : s.table.memory.overhead_pointer + taken_inside call < 0x1_0000_0000_0000_0000 =
          rw table (omega (arith, space.entries.room, space.entries.end, some_size)) in
        (
          _,
          refl,
          updated-Knows (before ++ after) contents call p inside
              (stopped (measured call.after inside.status))
              (IsTracked-same (before ++ after) contents (with_taken s memory)
                (stopped (measured call.after inside.status)) (ap (λ u. u.table) is)
                (ap (λ u. u.shadow) is)
                (IsTracked-taken (taken_inside call) (before ++ after) contents s memory grown room
                  tracked)),
        )

to_tracked_free :
    (a b c : Bool) (x y z w : Run Process)
    → a ≡ false
    → b ≡ false
    → c ≡ false
    → (if a then x else if b then y else if c then z else w) ≡ w
to_tracked_free a b c x y z w ea eb ec = ground arith

-- Behind yyfree of an object in use the table and the shadow memory tell of the other objects, when
-- the thread is tracked, the object is not in the memory of the profiler, has at least one byte,
-- stands at an address that a range covers, apart from the others, the real function cleans no pages
-- up, and there is space: in the hash memory of the thread for the entries of the locks that the real
-- function takes and one more. The call returns.
pub yyfree-Knows :
    (call : RealCall) (p : Process) (entry_size ptr size : ℕ) (before after : List Object)
    → (contents : Contents) → IsTracking p
    → ptr ≢ 0
    → (if_in_profiler_memory_then_free p.profiler_memory ptr).1 ≡ false
    → some_cleans_pages call.inner ≡ false
    → Knows (before ++ (ptr, size) ∷ after) contents p
    → 0 < entry_size
    → HasSpace (taken_inside call + entry_size) size contents p.thread.status
    → IsInUse ptr size before after
    → Returns (Knows (before ++ after) contents) (yyfree call ptr p)
unfolding yyfree
yyfree-Knows call p entry_size ptr size before after contents tracking some_ptr elsewhere keeps t
      some_size space used =
    let in_memory = if_in_profiler_memory_then_free p.profiler_memory ptr in
    subst (Returns (Knows (before ++ after) contents))
      (sym (
        to_tracked_free (ptr == 0) (in_memory.1 || not p.profiler_initialized) (not_tracked p) _ _ _
          _ (ne→== ptr 0 some_ptr) (ground (arith, elsewhere, tracking.initialized))
          tracking.outside))
      (tracked_free-Knows call (with_memory p in_memory.0) entry_size ptr size before after contents
        keeps t some_size space used)
