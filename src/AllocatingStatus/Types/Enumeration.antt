-- ===== src/AllocatingStatus/Types/Enumeration.antt =====
-- The number of an allocation type against the list of the 24 enumerators.
use mem_perf_pro.Base.{
  ℕ, ◌≤◌, arith, zero, suc, ◌≡◌, refl, Bool, true, false, if◌then◌else◌, List, [], ◌∷◌,
}
use mem_perf_pro.AllocatingStatus.{
  ObjectSizeType, small, medium, large, AllocationFunction, malloc, free, calloc, realloc,
  posix_memalign, memalign,
}
use mem_perf_pro.AllocatingStatus.Types.{type_for_output, type_for_prediction, of_size}

-- What an enumerator of AllocationTypeForOutputData says, in its name.
pub data AllocationType : Type 0 where
  malloc_of : Bool → ObjectSizeType → Bool → AllocationType
  free_of : Bool → ObjectSizeType → AllocationType
  other_of : Bool → AllocationFunction → AllocationType

-- The names of the enumerators in their order: parallel or serial, the size, reused or new.
abbrev pub enumerators : List AllocationType
enumerators =
    malloc_of false small false
    ∷ malloc_of false small true
    ∷ malloc_of false medium false
    ∷ malloc_of false medium true
    ∷ malloc_of false large false
    ∷ malloc_of true small false
    ∷ malloc_of true small true
    ∷ malloc_of true medium false
    ∷ malloc_of true medium true
    ∷ malloc_of true large false
    ∷ free_of false small
    ∷ free_of false medium
    ∷ free_of false large
    ∷ free_of true small
    ∷ free_of true medium
    ∷ free_of true large
    ∷ other_of false calloc
    ∷ other_of true calloc
    ∷ other_of false realloc
    ∷ other_of true realloc
    ∷ other_of false posix_memalign
    ∷ other_of true posix_memalign
    ∷ other_of false memalign
    ∷ other_of true memalign
    ∷ []

abbrev pub nth : List AllocationType → ℕ → AllocationType
nth [] i = other_of false malloc
nth (t ∷ ts) zero = t
nth (t ∷ ts) (suc i) = nth ts i

-- What a call is: the size counts for malloc and free, the reuse for malloc of objects that are not large.
abbrev pub type_of : Bool → AllocationFunction → ObjectSizeType → Bool → AllocationType
type_of parallel malloc large is_reuse = malloc_of parallel large false
type_of parallel malloc small is_reuse = malloc_of parallel small is_reuse
type_of parallel malloc medium is_reuse = malloc_of parallel medium is_reuse
type_of parallel free size is_reuse = free_of parallel size
type_of parallel calloc size is_reuse = other_of parallel calloc
type_of parallel realloc size is_reuse = other_of parallel realloc
type_of parallel posix_memalign size is_reuse = other_of parallel posix_memalign
type_of parallel memalign size is_reuse = other_of parallel memalign

-- setAllocationTypeForOutputData numbers every call by the enumerator that names it.
pub type_for_output-nth :
    (parallel : Bool) (function : AllocationFunction) (size : ObjectSizeType) (is_reuse : Bool)
    → nth enumerators (type_for_output parallel function size is_reuse)
      ≡ type_of parallel function size is_reuse
unfolding type_for_output
type_for_output-nth false malloc small false = refl
type_for_output-nth false malloc small true = refl
type_for_output-nth false malloc medium false = refl
type_for_output-nth false malloc medium true = refl
type_for_output-nth false malloc large false = refl
type_for_output-nth false malloc large true = refl
type_for_output-nth true malloc small false = refl
type_for_output-nth true malloc small true = refl
type_for_output-nth true malloc medium false = refl
type_for_output-nth true malloc medium true = refl
type_for_output-nth true malloc large false = refl
type_for_output-nth true malloc large true = refl
type_for_output-nth false free small is_reuse = refl
type_for_output-nth false free medium is_reuse = refl
type_for_output-nth false free large is_reuse = refl
type_for_output-nth true free small is_reuse = refl
type_for_output-nth true free medium is_reuse = refl
type_for_output-nth true free large is_reuse = refl
type_for_output-nth false calloc size is_reuse = refl
type_for_output-nth true calloc size is_reuse = refl
type_for_output-nth false realloc size is_reuse = refl
type_for_output-nth true realloc size is_reuse = refl
type_for_output-nth false posix_memalign size is_reuse = refl
type_for_output-nth true posix_memalign size is_reuse = refl
type_for_output-nth false memalign size is_reuse = refl
type_for_output-nth true memalign size is_reuse = refl

of_size-le : (size : ObjectSizeType) → of_size size ≤ 2
of_size-le small = omega arith
of_size-le medium = omega arith
of_size-le large = omega arith

-- The type predicted for a malloc of a new object and for a free is the one of the predicted size,
-- whatever the type predicted before.
pub type_for_prediction_new :
    (parallel : Bool) (before : ℕ) (size predicted : ObjectSizeType)
    → (type_for_prediction before (type_for_output parallel malloc size false) malloc size predicted
        ≡ type_for_output parallel malloc predicted false)
      × (type_for_prediction before (type_for_output parallel free size false) free size predicted
          ≡ type_for_output parallel free predicted false)
unfolding type_for_prediction type_for_output
type_for_prediction_new parallel before size predicted = (
  ground (arith, of_size-le size, of_size-le predicted),
  ground (arith, of_size-le size, of_size-le predicted),
)

-- A reused object that is small or medium, when it is predicted to be large, gets the number behind
-- the one of a large malloc: that of a parallel small new malloc, or of a serial small free.
pub type_for_prediction_reused_large :
    (parallel : Bool) (before : ℕ)
    → (nth enumerators (
          type_for_prediction before
            (type_for_output parallel malloc small true)
            malloc
            small
            large)
        ≡ (if parallel then free_of false small else malloc_of true small false))
      × (nth enumerators (
            type_for_prediction before
              (type_for_output parallel malloc medium true)
              malloc
              medium
              large)
          ≡ (if parallel then free_of false small else malloc_of true small false))
unfolding type_for_prediction type_for_output
type_for_prediction_reused_large false before = (refl, refl)
type_for_prediction_reused_large true before = (refl, refl)
