-- ===== src/EntryPoints/SystemCalls.antt =====
-- src_light/libmallocprof.cpp: the system calls for memory, which are noted inside a sampled
-- allocation function. `start` and `stop` are what rdtscp gives around the real function, `result`
-- what that returns.
use mem_perf_pro.Base.{ℕ, Bool, not, ◌==◌, if◌then◌else◌, sub_64}
use mem_perf_pro.ShadowMemory.Objects.{cleanup_pages}
use mem_perf_pro.AllocatingStatus.Calls.{Thread}
use mem_perf_pro.AllocatingStatus.Locks.{add_one_syscall_to_syscall_data}
use mem_perf_pro.EntryPoints.LockCalls.{outside_tracked_allocation, not_noted, with_notes}

-- definevalues.h
pub data SystemCallTypes : Type 0 where
  mmap : SystemCallTypes
  madvise : SystemCallTypes
  sbrk : SystemCallTypes
  mprotect : SystemCallTypes
  munmap : SystemCallTypes
  mremap : SystemCallTypes

-- the value of the enumerator
abbrev pub of_system_call : SystemCallTypes → ℕ
of_system_call mmap = 0
of_system_call madvise = 1
of_system_call sbrk = 2
of_system_call mprotect = 3
of_system_call munmap = 4
of_system_call mremap = 5

-- sys/mman.h
abbrev pub madv_dontneed : ℕ
madv_dontneed = 4

abbrev pub system_call : SystemCallTypes → ℕ → ℕ → Thread → Thread
system_call type start stop t =
    with_notes t
      (add_one_syscall_to_syscall_data t.lock_notes (of_system_call type) (sub_64 stop start))

abbrev pub cleaned_pages : ℕ → ℕ → Thread → Thread
cleaned_pages address length t = record t {
  status = record t.status { shadow = cleanup_pages t.status.shadow address length };
}

unfoldable pub yymmap : Bool → ℕ → ℕ → ℕ → Thread → Thread × ℕ
yymmap profiler_initialized start stop result t =
    if not profiler_initialized
    then (t, result)
    else if not_noted t
    then (t, result)
    else (system_call mmap start stop t, result)

-- what sbrk, mprotect and mremap have in common
abbrev plain_system_call : SystemCallTypes → ℕ → ℕ → ℕ → Thread → Thread × ℕ
plain_system_call type start stop result t =
    if not_noted t then (t, result) else (system_call type start stop t, result)

unfoldable pub sbrk_call : ℕ → ℕ → ℕ → Thread → Thread × ℕ
sbrk_call start stop result t = plain_system_call sbrk start stop result t

unfoldable pub mprotect_call : ℕ → ℕ → ℕ → Thread → Thread × ℕ
mprotect_call start stop result t = plain_system_call mprotect start stop result t

unfoldable pub mremap_call : ℕ → ℕ → ℕ → Thread → Thread × ℕ
mremap_call start stop result t = plain_system_call mremap start stop result t

unfoldable pub madvise_call : ℕ → ℕ → ℕ → ℕ → ℕ → ℕ → Thread → Thread × ℕ
madvise_call address length advice start stop result t =
    let t' = if advice == madv_dontneed then cleaned_pages address length t else t in
    if outside_tracked_allocation t
    then (t, result)
    else if not t.status.sampled_for_counting_event
    then (t', result)
    else (system_call madvise start stop t', result)

unfoldable pub munmap_call : ℕ → ℕ → ℕ → ℕ → ℕ → Thread → Thread × ℕ
munmap_call address length start stop result t =
    let t' = cleaned_pages address length t in
    if outside_tracked_allocation t
    then (t, result)
    else if not t.status.sampled_for_counting_event
    then (t', result)
    else (system_call munmap start stop t', result)
