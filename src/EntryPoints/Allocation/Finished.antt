-- ===== src/EntryPoints/Allocation/Finished.antt =====
-- src_light/libmallocprof.cpp: no allocation function leaves the thread inside an allocation.
use mem_perf_pro.Base.{
  branches_2, branches_3, branches_4, arith, ℕ, ◌≡◌, refl, ap, ◌∙◌, Bool, false, not, ◌⊎◌, ◌==◌,
  ◌||◌, Bool-cases, inl, inr,
}
use mem_perf_pro.Base.Run.{Run, abort, done, ◌>>=◌, Ensures, Ensures-bind}
use mem_perf_pro.MyMalloc.{if_in_profiler_memory_then_free}
use mem_perf_pro.ObjTable.{CallKey}
use mem_perf_pro.AllocatingStatus as Function
use mem_perf_pro.AllocatingStatus.{AllocationFunction}
use mem_perf_pro.AllocatingStatus.Memory.{
  Status, update_allocating_status_after_real_function, update_freeing_status_after_real_function,
  update_freeing_status_before_real_function, stopped,
}
use mem_perf_pro.AllocatingStatus.Calls.{
  Info, Thread, update_allocating_info_to_thread_local_data, update_allocating_info_to_predictor,
  set_allocation_type_for_prediction, set_allocation_type_for_output_data,
  add_up_other_functions_info_to_thread_local_data,
}
use mem_perf_pro.EntryPoints.Inner.Kept.{run_inner_calls-Kept}
use mem_perf_pro.EntryPoints.Allocation.{
  with_real, Process, RealCall, update_allocating_info, tracked_allocation, tracked_free, giving,
  with_memory, before_initialization, not_tracked, init_pmu_if, product, yymalloc, yycalloc, yyfree,
  realloc_frees, yyrealloc, yyposix_memalign, yymemalign, Request, malloc_request, calloc_request,
  free_request, realloc_request, posix_memalign_request, memalign_request, run_request,
}

abbrev pub IsOutside : Process → Type 0
IsOutside p = p.thread.status.allocating_type.doing_allocation ≡ false

Ensures-any : (call : Run Status) → Ensures (λ s. Unit {0}) call
Ensures-any abort = tt
Ensures-any (done s) = tt

stops :
    (call : Run Status)
    → Ensures
        (λ s'. s'.allocating_type.doing_allocation ≡ false)
        (call >>= λ s''. done (stopped s''))
stops abort = tt
stops (done s) = refl

-- malloc and realloc are noted
AllocationFunction-cases :
    (f : AllocationFunction)
    → (f ≡ Function.malloc)
      ⊎ ((f ≡ Function.realloc)
          ⊎ ((f ≡ Function.free)
              ⊎ ((f ≡ Function.calloc)
                  ⊎ ((f ≡ Function.posix_memalign) ⊎ (f ≡ Function.memalign)))))
AllocationFunction-cases Function.malloc = inl refl
AllocationFunction-cases Function.realloc = inr (inl refl)
AllocationFunction-cases Function.free = inr (inr (inl refl))
AllocationFunction-cases Function.calloc = inr (inr (inr (inl refl)))
AllocationFunction-cases Function.posix_memalign = inr (inr (inr (inr (inl refl))))
AllocationFunction-cases Function.memalign = inr (inr (inr (inr (inr refl))))

after_real_function-outside :
    (entry_size : ℕ) (get_call_key : CallKey) (tid object time : ℕ) (s : Status)
    → Ensures
        (λ s'. s'.allocating_type.doing_allocation ≡ false)
        (update_allocating_status_after_real_function entry_size get_call_key tid object time s)
unfolding update_allocating_status_after_real_function
after_real_function-outside entry_size get_call_key tid object time s =
    elim (AllocationFunction-cases s.allocating_type.allocating_function) [
      | inl e ↦ rw (e, update_allocating_status_after_real_function) (stops _)
      | inr (inl e) ↦ rw (e, update_allocating_status_after_real_function) (stops _)
      | inr (inr (inl e)) ↦ rw (e, update_allocating_status_after_real_function) refl
      | inr (inr (inr (inl e))) ↦ rw (e, update_allocating_status_after_real_function) refl
      | inr (inr (inr (inr (inl e)))) ↦ rw (e, update_allocating_status_after_real_function) refl
      | inr (inr (inr (inr (inr e)))) ↦ rw (e, update_allocating_status_after_real_function) refl
    ]

thread_local_data-status :
    (info : Info) (parallel : Bool) (t : Thread)
    → (update_allocating_info_to_thread_local_data info parallel t).status ≡ t.status
unfolding update_allocating_info_to_thread_local_data set_allocation_type_for_output_data
    add_up_other_functions_info_to_thread_local_data
thread_local_data-status info parallel t = elim (Bool-cases t.status.sampled_for_counting_event) [
  | inl e ↦ rw (e, update_allocating_info_to_thread_local_data) refl
  | inr e ↦ rw (e, update_allocating_info_to_thread_local_data) refl
]

predictor-status :
    (info : Info) (parallel : Bool) (t : Thread)
    → (update_allocating_info_to_predictor info parallel t).status ≡ t.status
unfolding update_allocating_info_to_predictor set_allocation_type_for_prediction
predictor-status info parallel t = branches_2 (λ (u : Thread). u.status ≡ t.status) _ _ _ refl refl

pub update_allocating_info-status :
    (info : Info) (parallel : Bool) (t : Thread)
    → (update_allocating_info info parallel t).status ≡ t.status
unfolding update_allocating_info
update_allocating_info-status info parallel t =
    predictor-status info parallel (update_allocating_info_to_thread_local_data info parallel t)
    ∙ thread_local_data-status info parallel t

tracked_allocation-IsOutside :
    (function : AllocationFunction) (size : ℕ) (call : RealCall) (s : Status) (p : Process)
    → Ensures IsOutside (tracked_allocation function size call s p)
unfolding tracked_allocation
tracked_allocation-IsOutside function size call s p =
    Ensures-bind (λ s'. s'.allocating_type.doing_allocation ≡ false) IsOutside _ _
      (after_real_function-outside call.entry_size call.get_call_key p.running_thread_index
        call.object call.after _)
      λ s' outside.
        ap (λ x. x.allocating_type.doing_allocation)
          (update_allocating_info-status p.info call.parallel _)
        ∙ outside

tracked_free-IsOutside :
    (ptr : ℕ) (call : RealCall) (p : Process) → Ensures IsOutside (tracked_free ptr call p)
unfolding tracked_free update_freeing_status_after_real_function
tracked_free-IsOutside ptr call p =
    Ensures-bind (λ s. Unit {0}) IsOutside _ _
      (Ensures-any (
        update_freeing_status_before_real_function Function.free ptr call.random call.before
          p.thread.status))
      λ s u.
        ap (λ x. x.allocating_type.doing_allocation)
          (update_allocating_info-status p.info call.parallel _)

abbrev GivesOutside : Run (Process × ℕ) → Type 0
GivesOutside = Ensures (λ r. IsOutside r.0)

giving-outside :
    (object : ℕ) (call : Run Process) → Ensures IsOutside call → GivesOutside (giving object call)
giving-outside object abort h = tt
giving-outside object (done p) h = h

with_real-IsOutside : (call : RealCall) (p : Process) → IsOutside p → IsOutside (with_real call p)
with_real-IsOutside call p h =
    ap (λ x. x.allocating_type.doing_allocation)
      (run_inner_calls-Kept call.lock_entry_size p.profiler_initialized call.inner p.thread).status
    ∙ h

init_pmu_if-IsOutside : (first : Bool) (p : Process) → IsOutside p → IsOutside (init_pmu_if first p)
init_pmu_if-IsOutside first p h = ground arith

yymalloc-outside :
    (call : RealCall) (sz : ℕ) (p : Process) → IsOutside p → GivesOutside (yymalloc call sz p)
unfolding yymalloc
yymalloc-outside call sz p h =
    branches_4 GivesOutside (sz == 0) (before_initialization p) (not_tracked p) _ _ _ _ h h
      (with_real-IsOutside call p h)
      (Ensures-bind IsOutside (λ r. IsOutside r.0) _ _
        (tracked_allocation-IsOutside Function.malloc sz call _ _)
        λ p' outside. init_pmu_if-IsOutside _ p' outside)

yycalloc-outside :
    (call : RealCall) (nelem elsize : ℕ) (p : Process)
    → IsOutside p
    → GivesOutside (yycalloc call nelem elsize p)
unfolding yycalloc
yycalloc-outside call nelem elsize p h =
    branches_4 GivesOutside (product nelem elsize == 0) (before_initialization p) (not_tracked p) _
      _ _ _ h h (with_real-IsOutside call p h)
      (giving-outside call.object _ (tracked_allocation-IsOutside Function.calloc _ call _ p))

yymemalign-outside :
    (call : RealCall) (size : ℕ) (p : Process) → IsOutside p → GivesOutside (yymemalign call size p)
unfolding yymemalign
yymemalign-outside call size p h =
    branches_4 GivesOutside (size == 0) (before_initialization p) (not_tracked p) _ _ _ _ h h
      (with_real-IsOutside call p h)
      (giving-outside call.object _ (tracked_allocation-IsOutside Function.memalign size call _ p))

yyposix_memalign-outside :
    (call : RealCall) (size : ℕ) (p : Process)
    → IsOutside p
    → GivesOutside (yyposix_memalign call size p)
unfolding yyposix_memalign
yyposix_memalign-outside call size p h =
    branches_3 GivesOutside (size == 0) (not_tracked p || not p.profiler_initialized) _ _ _ h
      (with_real-IsOutside call p h)
      (giving-outside call.retval _
        (tracked_allocation-IsOutside Function.posix_memalign size call _ p))

yyrealloc-outside :
    (call : RealCall) (ptr sz : ℕ) (p : Process)
    → IsOutside p
    → GivesOutside (yyrealloc call ptr sz p)
unfolding yyrealloc
yyrealloc-outside call ptr sz p h =
    branches_4 GivesOutside (before_initialization p)
      (if_in_profiler_memory_then_free p.profiler_memory ptr).1 (not_tracked p) _ _ _ _ h
      (with_real-IsOutside call
        (with_memory p (if_in_profiler_memory_then_free p.profiler_memory ptr).0) h)
      (with_real-IsOutside call
        (with_memory p (if_in_profiler_memory_then_free p.profiler_memory ptr).0) h)
      (Ensures-bind (λ s. Unit {0}) (λ r. IsOutside r.0) _ _
        (Ensures-any (
          realloc_frees call ptr
            (with_memory p (if_in_profiler_memory_then_free p.profiler_memory ptr).0)))
        λ s u.
          giving-outside call.object _ (tracked_allocation-IsOutside Function.realloc sz call s _))

yyfree-outside :
    (call : RealCall) (ptr : ℕ) (p : Process)
    → IsOutside p
    → GivesOutside (giving 0 (yyfree call ptr p))
unfolding yyfree
yyfree-outside call ptr p h = giving-outside 0 _ (
    branches_4 (Ensures IsOutside) (ptr == 0)
      ((if_in_profiler_memory_then_free p.profiler_memory ptr).1 || not p.profiler_initialized)
      (not_tracked p) _ _ _ _ h h
      (with_real-IsOutside call
        (with_memory p (if_in_profiler_memory_then_free p.profiler_memory ptr).0) h)
      (tracked_free-IsOutside ptr call _))

-- No allocation function leaves the thread inside an allocation: when it returns, on every branch,
-- the thread is outside as it was before.
pub run_request-IsOutside :
    (call : RealCall) (request : Request) (p : Process)
    → IsOutside p
    → Ensures (λ r. IsOutside r.0) (run_request call request p)
unfolding run_request
run_request-IsOutside call (malloc_request sz) p h = yymalloc-outside call sz p h
run_request-IsOutside call (calloc_request nelem elsize) p h =
    yycalloc-outside call nelem elsize p h
run_request-IsOutside call (free_request ptr) p h = yyfree-outside call ptr p h
run_request-IsOutside call (realloc_request ptr sz) p h = yyrealloc-outside call ptr sz p h
run_request-IsOutside call (posix_memalign_request size) p h =
    yyposix_memalign-outside call size p h
run_request-IsOutside call (memalign_request size) p h = yymemalign-outside call size p h
