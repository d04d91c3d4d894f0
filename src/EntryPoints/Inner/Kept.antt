-- ===== src/EntryPoints/Inner/Kept.antt =====
-- src_light/libmallocprof.cpp: what the calls inside an allocation function keep.
use mem_perf_pro.Base.{
  branches_2, branches_3, ℕ, ◌≡◌, refl, sym, ap, ◌∙◌, Bool, true, false, not, ◌||◌, arith, List, [],
  ◌∷◌, ◌==◌, ◌+◌, if◌then◌else◌, inl, inr, Option-cases,
}
use mem_perf_pro.HashFuncs.{hash_addr, compare_addr}
use mem_perf_pro.HashMap.{with_memory, find}
use mem_perf_pro.HashMap.Shared.{Grown, Grown-self, Grown-trans, insert-Grown}
use mem_perf_pro.AllocatingStatus.Calls.{Thread}
use mem_perf_pro.AllocatingStatus.Locks.{add_one_syscall_to_syscall_data}
use mem_perf_pro.AllocatingStatus.Locks.Agreement.{Agree}
use mem_perf_pro.AllocatingStatus.Memory.{Status}
use mem_perf_pro.EntryPoints.LockCalls.{
  not_noted, outside_tracked_allocation, note_lock, noted, pthread_mutex_lock, pthread_spin_lock,
  pthread_spin_trylock, pthread_mutex_trylock, pthread_unlock,
}
use mem_perf_pro.EntryPoints.LockCalls.Agreement.{noted-Agree}
use mem_perf_pro.Structs.{new_detail_lock_data, LockTypes, mutex, spin, mutextry, spintry}
use mem_perf_pro.EntryPoints.SystemCalls.{
  SystemCallTypes, mmap, madvise, sbrk, mprotect, munmap, mremap, system_call, madv_dontneed,
  cleaned_pages, yymmap, sbrk_call, mprotect_call, mremap_call, madvise_call, munmap_call,
}
use mem_perf_pro.EntryPoints.Inner.{
  Inner, mutex_lock, spin_lock, spin_trylock, mutex_trylock, unlock, mmap_inside, sbrk_inside,
  mprotect_inside, mremap_inside, madvise_inside, munmap_inside, run_inner, run_inner_calls,
}

-- a call that cleans pages up
abbrev pub cleans_pages : Inner → Bool
cleans_pages (madvise_inside address size advice start stop result) = advice == madv_dontneed
cleans_pages (munmap_inside address size start stop result) = true
cleans_pages _ = false

abbrev pub some_cleans_pages : List Inner → Bool
some_cleans_pages [] = false
some_cleans_pages (call ∷ calls) = cleans_pages call || some_cleans_pages calls

-- the bytes that a call may take of the hash memory, for the entry of a lock
abbrev pub takes : ℕ → Inner → ℕ
takes entry_size (mutex_lock address lock_word start stop result) = entry_size
takes entry_size (spin_lock address lock_word start stop result) = entry_size
takes entry_size (spin_trylock address start stop result) = entry_size
takes entry_size (mutex_trylock address start stop result) = entry_size
takes entry_size _ = 0

abbrev pub all_take : ℕ → List Inner → ℕ
all_take entry_size [] = 0
all_take entry_size (call ∷ calls) = takes entry_size call + all_take entry_size calls

-- The notes of the object and of the call are as before, and the pages too unless some are cleaned
-- up; of the hash memory at most so many bytes are taken; the counters and the first-call mark are as
-- before. The queue and the sums of the locks agree if they did before.
pub record Kept (cleans : Bool) (bytes : ℕ) (t t' : Thread) : Type 0 where
  pub status : t'.status ≡ record t.status {
    shadow = t'.status.shadow;
    table = with_memory t.status.table t'.status.table.memory;
  }
  pub pages : cleans ≡ false → t'.status.shadow ≡ t.status.shadow
  pub memory : Grown bytes t.status.table.memory t'.status.table.memory
  pub thread_data : t'.thread_data ≡ t.thread_data
  pub first : t'.first_allocation ≡ t.first_allocation
  pub agree : Agree t.lock_notes → Agree t'.lock_notes

Kept-self : {cleans : Bool} {bytes : ℕ} (t : Thread) → Kept cleans bytes t t
Kept-self {bytes = bytes} t = record {
  status = refl;
  pages = λ e. refl;
  memory = Grown-self bytes t.status.table.memory;
  thread_data = refl;
  first = refl;
  agree = λ a. a;
}

Kept-trans :
    {cleans : Bool} {b c : ℕ} (t u v : Thread)
    → Kept cleans b t u
    → Kept cleans c u v
    → Kept cleans (b + c) t v
Kept-trans {b = b} {c = c} t u v k l = record {
  status =
      l.status
      ∙ ap
          (λ (s : Status). record s {
            shadow = v.status.shadow;
            table = with_memory s.table v.status.table.memory;
          })
          k.status;
  pages = λ e. l.pages e ∙ k.pages e;
  memory =
      Grown-trans b c t.status.table.memory u.status.table.memory v.status.table.memory k.memory
        l.memory;
  thread_data = l.thread_data ∙ k.thread_data;
  first = l.first ∙ k.first;
  agree = λ a. l.agree (k.agree a);
}

Kept-weaken :
    (cleans more : Bool) {bytes : ℕ}
    → (more ≡ false → cleans ≡ false)
    → (t u : Thread) → Kept cleans bytes t u
    → Kept more bytes t u
Kept-weaken cleans more h t u k = record {
  status = k.status;
  pages = λ e. k.pages (h e);
  memory = k.memory;
  thread_data = k.thread_data;
  first = k.first;
  agree = k.agree;
}

abbrev GivesKept : Bool → ℕ → Thread → Thread × ℕ → Type 0
GivesKept cleans bytes t r = Kept cleans bytes t r.0

-- what note_lock leaves of the notes of the object, the counters and the hash memory
record Noted (entry_size : ℕ) (t t' : Thread) : Type 0 where
  pub status :
      t'.status ≡ record t.status { table = with_memory t.status.table t'.status.table.memory }
  pub memory : Grown entry_size t.status.table.memory t'.status.table.memory
  pub thread_data : t'.thread_data ≡ t.thread_data
  pub first : t'.first_allocation ≡ t.first_allocation

note_lock-Noted :
    (entry_size : ℕ) (type : LockTypes) (address : ℕ) (t : Thread)
    → Noted entry_size t (note_lock entry_size type address t)
unfolding note_lock
note_lock-Noted entry_size type address t =
    elim (Option-cases (find hash_addr compare_addr t.lock_usage address)) [
      | inl missing ↦
          rw (missing, note_lock)
            (record {
              status = refl;
              memory =
                  insert-Grown hash_addr compare_addr entry_size
                    (with_memory t.lock_usage t.status.table.memory) address
                    (new_detail_lock_data type);
              thread_data = refl;
              first = refl;
            })
      | inr (entry, found) ↦
          rw (found, note_lock)
            (record {
              status = refl;
              memory = Grown-self entry_size t.status.table.memory;
              thread_data = refl;
              first = refl;
            })
    ]

noted-Kept :
    {cleans : Bool} (entry_size : ℕ) (type : LockTypes) (address : ℕ) (contended : Bool)
    (start stop : ℕ) (t : Thread)
    → Kept cleans entry_size t (noted entry_size type address contended start stop t)
noted-Kept entry_size type address contended start stop t =
    let n = note_lock-Noted entry_size type address t in
    let same : (note_lock entry_size type address t).status.shadow ≡ t.status.shadow =
      ap (λ (s : Status). s.shadow) n.status in
    record {
      status =
          n.status
          ∙ ap
              (λ shadow. record t.status {
                shadow = shadow;
                table =
                    with_memory t.status.table
                      (note_lock entry_size type address t).status.table.memory;
              })
              (sym same);
      pages = λ e. same;
      memory = n.memory;
      thread_data = n.thread_data;
      first = n.first;
      agree = noted-Agree entry_size type address contended start stop t;
    }

system_call-Kept :
    {cleans : Bool} {bytes : ℕ} (type : SystemCallTypes) (start stop : ℕ) (t : Thread)
    → Kept cleans bytes t (system_call type start stop t)
unfolding add_one_syscall_to_syscall_data
system_call-Kept {bytes = bytes} type start stop t = record {
  memory = Grown-self bytes t.status.table.memory;
  status = refl;
  pages = λ e. refl;
  thread_data = refl;
  first = refl;
  agree = λ a. record {
    calls = a.calls;
    contended = a.contended;
    cycles = a.cycles;
    room = a.room;
    unused_calls = a.unused_calls;
    unused_contended = a.unused_contended;
    unused_cycles = a.unused_cycles;
  };
}

cleaned_pages-Kept : (address size : ℕ) (t : Thread) → Kept true 0 t (cleaned_pages address size t)
cleaned_pages-Kept address size t = record {
  status = refl;
  pages = λ e. absurd cc;
  memory = Grown-self 0 t.status.table.memory;
  thread_data = refl;
  first = refl;
  agree = λ a. a;
}

cleaned_if :
    (b : Bool) (address size : ℕ) (t : Thread)
    → Kept b 0 t (if b then cleaned_pages address size t else t)
cleaned_if true address size t = cleaned_pages-Kept address size t
cleaned_if false address size t = Kept-self t

-- A call inside an allocation function keeps its notes, the counters of the thread, and the
-- agreement of the queue with the sums.
run_inner-Kept :
    (entry_size : ℕ) (initialized : Bool) (call : Inner) (t : Thread)
    → Kept (cleans_pages call) (takes entry_size call) t (run_inner entry_size initialized call t)
unfolding run_inner pthread_mutex_lock pthread_spin_lock pthread_spin_trylock pthread_mutex_trylock
    pthread_unlock yymmap sbrk_call mprotect_call mremap_call madvise_call munmap_call
run_inner-Kept entry_size initialized (mutex_lock address lock_word start stop result) t =
    branches_2 (GivesKept false entry_size t) (not_noted t) (t, result)
      (noted entry_size mutex address (not (lock_word == 0)) start stop t, result) (Kept-self t)
      (noted-Kept entry_size mutex address (not (lock_word == 0)) start stop t)
run_inner-Kept entry_size initialized (spin_lock address lock_word start stop result) t =
    branches_2 (GivesKept false entry_size t) (not_noted t) (t, result)
      (noted entry_size spin address (not (lock_word == 1)) start stop t, result) (Kept-self t)
      (noted-Kept entry_size spin address (not (lock_word == 1)) start stop t)
run_inner-Kept entry_size initialized (spin_trylock address start stop result) t =
    branches_2 (GivesKept false entry_size t) (not_noted t) (t, result)
      (noted entry_size spintry address (not (result == 0)) start stop t, result) (Kept-self t)
      (noted-Kept entry_size spintry address (not (result == 0)) start stop t)
run_inner-Kept entry_size initialized (mutex_trylock address start stop result) t =
    branches_2 (GivesKept false entry_size t) (not_noted t) (t, result)
      (noted entry_size mutextry address (not (result == 0)) start stop t, result) (Kept-self t)
      (noted-Kept entry_size mutextry address (not (result == 0)) start stop t)
run_inner-Kept entry_size initialized (unlock result) t = Kept-self t
run_inner-Kept entry_size initialized (mmap_inside start stop result) t =
    branches_3 (GivesKept false 0 t) (not initialized) (not_noted t) (t, result) (t, result)
      (system_call mmap start stop t, result) (Kept-self t) (Kept-self t)
      (system_call-Kept mmap start stop t)
run_inner-Kept entry_size initialized (sbrk_inside start stop result) t =
    branches_2 (GivesKept false 0 t) (not_noted t) (t, result)
      (system_call sbrk start stop t, result) (Kept-self t) (system_call-Kept sbrk start stop t)
run_inner-Kept entry_size initialized (mprotect_inside start stop result) t =
    branches_2 (GivesKept false 0 t) (not_noted t) (t, result)
      (system_call mprotect start stop t, result) (Kept-self t)
      (system_call-Kept mprotect start stop t)
run_inner-Kept entry_size initialized (mremap_inside start stop result) t =
    branches_2 (GivesKept false 0 t) (not_noted t) (t, result)
      (system_call mremap start stop t, result) (Kept-self t) (system_call-Kept mremap start stop t)
run_inner-Kept entry_size initialized (madvise_inside address size advice start stop result) t =
    let t' : Thread = if advice == madv_dontneed then cleaned_pages address size t else t in
    let cleaned = cleaned_if (advice == madv_dontneed) address size t in
    branches_3 (GivesKept (advice == madv_dontneed) 0 t) (outside_tracked_allocation t)
      (not t.status.sampled_for_counting_event) (t, result) (t', result)
      (system_call madvise start stop t', result) (Kept-self t) cleaned
      (Kept-trans {b = 0} {c = 0} t t' (system_call madvise start stop t') cleaned
        (system_call-Kept madvise start stop t'))
run_inner-Kept entry_size initialized (munmap_inside address size start stop result) t =
    let t' = cleaned_pages address size t in
    let cleaned = cleaned_pages-Kept address size t in
    branches_3 (GivesKept true 0 t) (outside_tracked_allocation t)
      (not t.status.sampled_for_counting_event) (t, result) (t', result)
      (system_call munmap start stop t', result) (Kept-self t) cleaned
      (Kept-trans {b = 0} {c = 0} t t' (system_call munmap start stop t') cleaned
        (system_call-Kept munmap start stop t'))

-- The calls that an allocation function makes in turn keep its notes, but for the pages that they
-- clean up and the hash memory that the entries of their locks take, and the counters of the thread;
-- what the queue of the locks counts stays the same as the sums by lock type.
pub run_inner_calls-Kept :
    (entry_size : ℕ) (initialized : Bool) (calls : List Inner) (t : Thread)
    → Kept
        (some_cleans_pages calls)
        (all_take entry_size calls)
        t
        (run_inner_calls entry_size initialized calls t)
unfolding run_inner_calls
run_inner_calls-Kept entry_size initialized [] t = Kept-self t
run_inner_calls-Kept entry_size initialized (call ∷ calls) t =
    let t' = run_inner entry_size initialized call t in
    Kept-trans t t' (run_inner_calls entry_size initialized calls t')
      (Kept-weaken (cleans_pages call) _ (λ e. ground arith) t t'
        (run_inner-Kept entry_size initialized call t))
      (Kept-weaken (some_cleans_pages calls) _ (λ e. ground arith) t' _
        (run_inner_calls-Kept entry_size initialized calls t'))
