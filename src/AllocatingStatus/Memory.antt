-- ===== src/AllocatingStatus/Memory.antt =====
-- src_light/allocatingstatus.cpp: the calls around the real functions, which note an object in the
-- table of objects and in the shadow memory after its allocation and before it is freed.
pub mod Tracked
use mem_perf_pro.Base.{
  ℕ, ◌+◌, Bool, true, false, Option, none, some, ltb, ◌==◌, if◌then◌else◌, sub_64,
}
use mem_perf_pro.Base.Run.{Run, done, abort, ◌>>=◌}
use mem_perf_pro.AllocatingStatus.{AllocationFunction, malloc, free, realloc, AllocatingType}
use mem_perf_pro.ObjTable.{CallKey, Table, alloc_update, free_update}
use mem_perf_pro.ShadowMemory.CacheMap.{Shadow}
use mem_perf_pro.ShadowMemory.Objects.{malloc_update_object, free_update_object}

-- The notes of the thread, and the shared state that they lead to.
pub record Status : Type 0 where
  pub allocating_type : AllocatingType
  pub sampled_for_counting_event : Bool
  pub cycles_before_real_function : ℕ
  pub cycles_after_real_function : ℕ
  pub cycles_in_real_function : ℕ
  pub table : Table
  pub shadow : Shadow

-- `entry_size` is the size of a table entry, `get_call_key` Callsite::getCallKey at the call, `tid`
-- the index of the running thread.
unfoldable pub update_memory_status_after_allocation : ℕ → CallKey → ℕ → Status → Run Status
update_memory_status_after_allocation entry_size get_call_key tid s =
    let a = s.allocating_type in
    let (table, reuse) =
      alloc_update entry_size get_call_key tid s.table a.object_size a.object_address in
    do
      shadow ← malloc_update_object s.shadow a.object_address a.object_size
      done (record s {
        allocating_type = record a { is_reuse = reuse };
        table = table;
        shadow = shadow;
      })

unfoldable pub update_memory_status_before_free : Status → Run Status
update_memory_status_before_free s =
    let a = s.allocating_type in
    elim (free_update s.table a.object_address) [
      | none ↦ done s
      | some entry ↦
          let obj_stat = s.table.value entry in
          let s' = record s { allocating_type = record a { object_size = obj_stat.size } } in
          if obj_stat.size == 0 then done s' else (do
            shadow ← free_update_object s.shadow a.object_address obj_stat
            done (record s' { shadow = shadow }))
    ]

-- `time` is what rdtscp gives, `random` the draw of randomProcessForCountingEvent.
unfoldable pub update_allocating_status_before_real_function :
    AllocationFunction → ℕ → Bool → ℕ → Status → Status
update_allocating_status_before_real_function function object_size random time s = record s {
  allocating_type = record s.allocating_type {
    allocating_function = function;
    object_size = object_size;
    doing_allocation = true;
  };
  sampled_for_counting_event = random;
  cycles_before_real_function = time;
}

unfoldable pub update_freeing_status_before_real_function :
    AllocationFunction → ℕ → Bool → ℕ → Status → Run Status
unfolding update_memory_status_before_free
update_freeing_status_before_real_function function object_address random time s = do
  s' ← update_memory_status_before_free (record s {
    allocating_type = record s.allocating_type {
      allocating_function = function;
      object_address = object_address;
      doing_allocation = true;
    };
  })
  done (elim function [
    | free ↦ record s' { sampled_for_counting_event = random; cycles_before_real_function = time }
    | _ ↦ s'
  ])

abbrev pub abnormal_value : ℕ
abnormal_value = 100000000

-- the cycles of the call, and 0 if they are abnormal
abbrev pub measured : ℕ → Status → Status
measured time s =
    let cycles = sub_64 time s.cycles_before_real_function in
    record s {
      cycles_after_real_function = time;
      cycles_in_real_function = (if ltb abnormal_value cycles then 0 else cycles);
    }

abbrev pub stopped : Status → Status
stopped s = record s { allocating_type = record s.allocating_type { doing_allocation = false } }

-- malloc and realloc are noted, no other function.
unfoldable pub update_allocating_status_after_real_function :
    ℕ → CallKey → ℕ → ℕ → ℕ → Status → Run Status
unfolding update_memory_status_after_allocation
update_allocating_status_after_real_function entry_size get_call_key tid object_address time s =
    let s' = measured time s in
    let noted = record s' {
      allocating_type = record s'.allocating_type { object_address = object_address };
    } in
    elim s.allocating_type.allocating_function [
      | malloc ↦ do
        s'' ← update_memory_status_after_allocation entry_size get_call_key tid noted
        done (stopped s'')
      | realloc ↦ do
        s'' ← update_memory_status_after_allocation entry_size get_call_key tid noted
        done (stopped s'')
      | _ ↦ done (stopped s')
    ]

unfoldable pub update_freeing_status_after_real_function : ℕ → Status → Status
update_freeing_status_after_real_function time s = stopped (measured time s)
