-- ===== src/AllocatingStatus.antt =====
-- src_light/allocatingstatus.{h,cpp}: what a thread notes of the allocation function that it runs.
pub mod Types
pub mod Memory
pub mod Locks
pub mod Calls
use mem_perf_pro.Base.{ℕ, Bool}

-- definevalues.h
pub data ObjectSizeType : Type 0 where
  small : ObjectSizeType
  medium : ObjectSizeType
  large : ObjectSizeType

pub data AllocationFunction : Type 0 where
  malloc : AllocationFunction
  free : AllocationFunction
  calloc : AllocationFunction
  realloc : AllocationFunction
  posix_memalign : AllocationFunction
  memalign : AllocationFunction

-- The fields of allocatingType, whose sizes in the prediction and in the output are in Types.
pub record AllocatingType : Type 0 where
  pub doing_allocation : Bool
  pub allocating_function : AllocationFunction
  pub object_size : ℕ
  pub object_address : ℕ
  pub is_reuse : Bool
