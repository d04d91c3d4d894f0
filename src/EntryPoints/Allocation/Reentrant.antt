-- ===== src/EntryPoints/Allocation/Reentrant.antt =====
-- src_light/libmallocprof.cpp: an allocation function that is called inside another one, or after
-- the conclusion has started, is the real function, and what that calls in turn.
use mem_perf_pro.Base.{
  ℕ, ◌≡◌, refl, ap, Bool, true, false, not, ◌||◌, ◌&&◌, ◌==◌, if◌then◌else◌, arith,
}
use mem_perf_pro.Base.Run.{Run, done}
use mem_perf_pro.MyMalloc.{
  Memory, if_in_profiler_memory_then_free, check_and_initialize, initialize,
}
use mem_perf_pro.EntryPoints.Inner.Kept.{some_cleans_pages, all_take, Kept, run_inner_calls-Kept}
use mem_perf_pro.EntryPoints.Allocation.{
  Process, RealCall, with_memory, giving, before_initialization, not_tracked, with_real, product,
  yymalloc, yycalloc, yyfree, yyrealloc, yyposix_memalign, yymemalign, Request, malloc_request,
  calloc_request, free_request, realloc_request, posix_memalign_request, memalign_request,
  run_request,
}

-- What the real function gives; nothing for a size of 0.
abbrev pub real_result : RealCall → Request → ℕ
real_result call (malloc_request sz) = if sz == 0 then 0 else call.object
real_result call (calloc_request nelem elsize) =
    if product nelem elsize == 0 then 0 else call.object
real_result call (free_request ptr) = 0
real_result call (realloc_request ptr sz) = call.object
real_result call (posix_memalign_request size) = if size == 0 then 0 else call.retval
real_result call (memalign_request size) = if size == 0 then 0 else call.object

-- The real function is called.
abbrev pub calls_real : Request → Process → Bool
calls_real (malloc_request sz) p = not (sz == 0)
calls_real (calloc_request nelem elsize) p = not (product nelem elsize == 0)
calls_real (free_request ptr) p =
    not (ptr == 0) && not (if_in_profiler_memory_then_free p.profiler_memory ptr).1
calls_real (realloc_request ptr sz) p = true
calls_real (posix_memalign_request size) p = not (size == 0)
calls_real (memalign_request size) p = not (size == 0)

-- what the real function leaves, if it is called
abbrev pub after_real : RealCall → Request → Process → Process
after_real call request p = if calls_real request p then with_real call p else p

-- The profiler runs, and the thread is inside an allocation or the conclusion has started.
pub record IsNested (p : Process) : Type 0 where
  pub nested : not_tracked p ≡ true
  pub initialized : p.profiler_initialized ≡ true
  pub memory : p.profiler_memory.initialized ≡ true

-- the branches of an allocation function
to_real :
    (a b c : Bool) (p q : Process) (y w : Run (Process × ℕ)) (object : ℕ)
    → b ≡ false
    → c ≡ true
    → (if a then done (p, 0) else if b then y else if c then done (q, object) else w)
      ≡ done ((if not a then q else p), (if a then 0 else object))
to_real true b c p q y w object e h = refl
to_real false b c p q y w object e h = ground arith

free_to_real :
    (call : RealCall) (a b i c : Bool) (p p' : Process) (w : Run Process)
    → i ≡ false
    → c ≡ true
    → p' ≡ p
    → giving 0 (
        if a then done p else if b || i then done p' else if c then done (with_real call p') else w)
      ≡ done ((if not a && not b then with_real call p else p), 0)
free_to_real call true b i c p p' w g h e = refl
free_to_real call false true i c p p' w g h e = ap (λ x. done (x, 0)) e
free_to_real call false false true c p p' w g h e = absurd cc
free_to_real call false false false true p p' w g h e = ap (λ x. done (with_real call x, 0)) e
free_to_real call false false false false p p' w g h e = absurd cc

realloc_to_real :
    (call : RealCall) (a b c : Bool) (p p' : Process) (y w : Run (Process × ℕ)) (object : ℕ)
    → a ≡ false
    → c ≡ true
    → p' ≡ p
    → (if a
        then y
        else if b
        then done (with_real call p', object)
        else if c
        then done (with_real call p', object)
        else w)
      ≡ done (with_real call p, object)
realloc_to_real call true b c p p' y w object g h e = absurd cc
realloc_to_real call false true c p p' y w object g h e =
    ap (λ x. done (with_real call x, object)) e
realloc_to_real call false false true p p' y w object g h e =
    ap (λ x. done (with_real call x, object)) e
realloc_to_real call false false false p p' y w object g h e = absurd cc

posix_to_real :
    (a b : Bool) (p q : Process) (w : Run (Process × ℕ)) (retval : ℕ)
    → b ≡ true
    → (if a then done (p, 0) else if b then done (q, retval) else w)
      ≡ done ((if not a then q else p), (if a then 0 else retval))
posix_to_real true b p q w retval h = refl
posix_to_real false b p q w retval h = ground arith

initialized_self : (m : Memory) → m.initialized ≡ true → check_and_initialize m ≡ m
unfolding check_and_initialize
initialized_self m e = ap (λ b. if b then m else initialize m) e

not_before : (p : Process) → p.profiler_initialized ≡ true → before_initialization p ≡ false
not_before p e = ground arith

same_memory :
    (p : Process) (ptr : ℕ)
    → p.profiler_memory.initialized ≡ true
    → with_memory p (if_in_profiler_memory_then_free p.profiler_memory ptr).0 ≡ p
unfolding if_in_profiler_memory_then_free
same_memory p ptr e = ap (with_memory p) (initialized_self p.profiler_memory e)

request_to_real :
    (call : RealCall) (request : Request) (p : Process)
    → IsNested p
    → run_request call request p ≡ done (after_real call request p, real_result call request)
unfolding run_request yymalloc yycalloc yyfree yyrealloc yyposix_memalign yymemalign
request_to_real call (malloc_request sz) p n =
    to_real (sz == 0) (before_initialization p) (not_tracked p) p (with_real call p) _ _ call.object
      (not_before p n.initialized) n.nested
request_to_real call (calloc_request nelem elsize) p n =
    to_real (product nelem elsize == 0) (before_initialization p) (not_tracked p) p
      (with_real call p) _ _ call.object (not_before p n.initialized) n.nested
request_to_real call (free_request ptr) p n =
    free_to_real call (ptr == 0) (if_in_profiler_memory_then_free p.profiler_memory ptr).1
      (not p.profiler_initialized) (not_tracked p) p _ _ (ap not n.initialized) n.nested
      (same_memory p ptr n.memory)
request_to_real call (realloc_request ptr sz) p n =
    realloc_to_real call (before_initialization p)
      (if_in_profiler_memory_then_free p.profiler_memory ptr).1 (not_tracked p) p _ _ _ call.object
      (not_before p n.initialized) n.nested (same_memory p ptr n.memory)
request_to_real call (posix_memalign_request size) p n =
    posix_to_real (size == 0) (not_tracked p || not p.profiler_initialized) p (with_real call p) _
      call.retval (ground (arith, n.nested))
request_to_real call (memalign_request size) p n =
    to_real (size == 0) (before_initialization p) (not_tracked p) p (with_real call p) _ _
      call.object (not_before p n.initialized) n.nested

-- Inside another allocation function, or when the conclusion has started, an allocation function
-- gives what the real one gives and changes only what the calls that the real one makes in turn
-- change, when the profiler is initialized: the notes of the outer call stay, but for the pages that
-- are cleaned up and the hash memory that the entries of the locks take, and so do the counters of the
-- thread.
pub run_request-nested :
    (call : RealCall) (request : Request) (p : Process)
    → IsNested p
    → (run_request call request p ≡ done (after_real call request p, real_result call request))
      × Kept
          (some_cleans_pages call.inner)
          (all_take call.lock_entry_size call.inner)
          p.thread
          (with_real call p).thread
run_request-nested call request p n = (
  request_to_real call request p n,
  run_inner_calls-Kept call.lock_entry_size p.profiler_initialized call.inner p.thread,
)
