-- ===== src/EntryPoints/Inner.antt =====
-- src_light/libmallocprof.cpp: the calls that a real allocation function makes in turn, which come
-- back to the profiler.
pub mod Kept
use mem_perf_pro.Base.{ℕ, Bool, List, [], ◌∷◌}
use mem_perf_pro.AllocatingStatus.Calls.{Thread}
use mem_perf_pro.EntryPoints.LockCalls.{
  pthread_mutex_lock, pthread_spin_lock, pthread_spin_trylock, pthread_mutex_trylock,
  pthread_unlock,
}
use mem_perf_pro.EntryPoints.SystemCalls.{
  yymmap, sbrk_call, mprotect_call, mremap_call, madvise_call, munmap_call,
}

-- A call with its arguments, the times around the real function and the result of that.
pub data Inner : Type 0 where
  mutex_lock : (address lock_word start stop result : ℕ) → Inner
  spin_lock : (address lock_word start stop result : ℕ) → Inner
  spin_trylock : (address start stop result : ℕ) → Inner
  mutex_trylock : (address start stop result : ℕ) → Inner
  unlock : (result : ℕ) → Inner
  mmap_inside : (start stop result : ℕ) → Inner
  sbrk_inside : (start stop result : ℕ) → Inner
  mprotect_inside : (start stop result : ℕ) → Inner
  mremap_inside : (start stop result : ℕ) → Inner
  madvise_inside : (address size advice start stop result : ℕ) → Inner
  munmap_inside : (address size start stop result : ℕ) → Inner

-- `entry_size` is the size of an entry of the table of locks.
unfoldable pub run_inner : ℕ → Bool → Inner → Thread → Thread
run_inner entry_size initialized (mutex_lock address lock_word start stop result) t =
    (pthread_mutex_lock entry_size address lock_word start stop result t).0
run_inner entry_size initialized (spin_lock address lock_word start stop result) t =
    (pthread_spin_lock entry_size address lock_word start stop result t).0
run_inner entry_size initialized (spin_trylock address start stop result) t =
    (pthread_spin_trylock entry_size address start stop result t).0
run_inner entry_size initialized (mutex_trylock address start stop result) t =
    (pthread_mutex_trylock entry_size address start stop result t).0
run_inner entry_size initialized (unlock result) t = (pthread_unlock result t).0
run_inner entry_size initialized (mmap_inside start stop result) t =
    (yymmap initialized start stop result t).0
run_inner entry_size initialized (sbrk_inside start stop result) t =
    (sbrk_call start stop result t).0
run_inner entry_size initialized (mprotect_inside start stop result) t =
    (mprotect_call start stop result t).0
run_inner entry_size initialized (mremap_inside start stop result) t =
    (mremap_call start stop result t).0
run_inner entry_size initialized (madvise_inside address size advice start stop result) t =
    (madvise_call address size advice start stop result t).0
run_inner entry_size initialized (munmap_inside address size start stop result) t =
    (munmap_call address size start stop result t).0

unfoldable pub run_inner_calls : ℕ → Bool → List Inner → Thread → Thread
unfolding run_inner
run_inner_calls entry_size initialized [] t = t
run_inner_calls entry_size initialized (call ∷ calls) t =
    run_inner_calls entry_size initialized calls (run_inner entry_size initialized call t)
