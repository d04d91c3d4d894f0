-- ===== src/AllocatingStatus/Types.antt =====
-- src_light/allocatingstatus.cpp: the number of the allocation type, for the output and for the
-- prediction; src_light/programstatus.cpp and predictor.cpp: the classes of object sizes.
pub mod Enumeration
use mem_perf_pro.Base.{
  ℕ, zero, suc, ◌+◌, ◌-◌, ◌*◌, ◌%◌, Bool, true, false, not, ◌&&◌, ltb, leb, ◌==◌, if◌then◌else◌,
}
use mem_perf_pro.AllocatingStatus.{
  ObjectSizeType, small, medium, large, AllocationFunction, malloc, free, calloc, realloc,
  posix_memalign, memalign,
}

-- the value of the enumerator
abbrev pub of_size : ObjectSizeType → ℕ
of_size small = 0
of_size medium = 1
of_size large = 2

abbrev pub of_bool : Bool → ℕ
of_bool false = 0
of_bool true = 1

unfoldable pub get_object_size_type : ℕ → ℕ → ℕ → ObjectSizeType
get_object_size_type middle_object_threshold large_object_threshold size =
    if ltb large_object_threshold size
    then large
    else if not (middle_object_threshold == 0) && leb middle_object_threshold size
    then medium
    else small

unfoldable pub has_middle_object_threshold : ℕ → ℕ → Bool
has_middle_object_threshold middle_object_threshold large_object_threshold =
    ltb 0 middle_object_threshold && ltb middle_object_threshold large_object_threshold

-- The thresholds of the predictor and, for the test of hasMiddleObjectThreshold, of ProgramStatus.
unfoldable pub get_object_size_type_for_prediction : ℕ → ℕ → ℕ → ℕ → ℕ → ObjectSizeType
unfolding has_middle_object_threshold
get_object_size_type_for_prediction replaced_middle replaced_large middle_object_threshold
      large_object_threshold size =
    if ltb replaced_large size
    then large
    else if has_middle_object_threshold middle_object_threshold large_object_threshold
        && leb replaced_middle size
    then medium
    else small

-- `objectSizeType != LARGE && isReuse`
abbrev pub counts_reuse : ObjectSizeType → Bool → Bool
counts_reuse size is_reuse = not (of_size size == 2) && is_reuse

-- allocationTypeForOutputData, with isCurrentlyParallelThread() as `parallel`
unfoldable pub type_for_output : Bool → AllocationFunction → ObjectSizeType → Bool → ℕ
type_for_output parallel malloc size is_reuse =
    of_bool parallel * 5 + of_size size * 2 + of_bool (counts_reuse size is_reuse)
type_for_output parallel free size is_reuse = 10 + of_bool parallel * 3 + of_size size
type_for_output parallel calloc size is_reuse = 16 + of_bool parallel
type_for_output parallel realloc size is_reuse = 18 + of_bool parallel
type_for_output parallel posix_memalign size is_reuse = 20 + of_bool parallel
type_for_output parallel memalign size is_reuse = 22 + of_bool parallel

-- `step` for each size class between the two, from the output type to the predicted one
abbrev shifted : ℕ → ℕ → ObjectSizeType → ObjectSizeType → ℕ
shifted step output size predicted =
    if ltb (of_size predicted) (of_size size)
    then output - (of_size size - of_size predicted) * step
    else output + (of_size predicted - of_size size) * step

-- setAllocationTypeForPrediction; `before` is the value that allocationTypeForPrediction has
unfoldable pub type_for_prediction :
    ℕ → ℕ → AllocationFunction → ObjectSizeType → ObjectSizeType → ℕ
type_for_prediction before output function size predicted =
    if of_size size == of_size predicted then output else elim function [
      | malloc ↦ shifted 2 output size predicted
      | free ↦ shifted 1 output size predicted
      | _ ↦ before
    ]

-- setAllocationTypeForPredictionRaw; `size` is the class that was set last
unfoldable pub type_for_prediction_raw :
    Bool → AllocationFunction → ObjectSizeType → ObjectSizeType → Bool → ℕ
type_for_prediction_raw parallel malloc size predicted is_reuse =
    of_bool parallel * 5 + of_size predicted * 2 + of_bool (counts_reuse size is_reuse)
type_for_prediction_raw parallel free size predicted is_reuse =
    10 + of_bool parallel * 3 + of_size predicted
type_for_prediction_raw parallel calloc size predicted is_reuse = 16 + of_bool parallel
type_for_prediction_raw parallel realloc size predicted is_reuse = 18 + of_bool parallel
type_for_prediction_raw parallel posix_memalign size predicted is_reuse = 20 + of_bool parallel
type_for_prediction_raw parallel memalign size predicted is_reuse = 22 + of_bool parallel
