-- ===== src/MyMalloc/Objects.antt =====
-- The objects that a memory gives are apart from each other and inside it.
use mem_perf_pro.Base.{ℕ, ◌+◌, ◌≤◌, ◌<◌, ◌≡◌, refl, subst, true, List, [], ◌∷◌, arith}
use mem_perf_pro.MyMalloc.{Memory, in_memory, malloc}

-- an object: its address and its size
abbrev pub Object : Type 0
Object = ℕ × ℕ

-- one call of malloc for each size, in order
abbrev pub mallocs : Memory → List ℕ → Memory × List Object
mallocs m [] = (m, [])
mallocs m (size ∷ sizes) =
    let (m', object) = malloc m size in
    let (m'', objects) = mallocs m' sizes in (m'', (object, size) ∷ objects)

abbrev pub sum : List ℕ → ℕ
sum [] = 0
sum (size ∷ sizes) = size + sum sizes

-- The objects follow each other from `at` on, without gap or overlap.
abbrev pub Consecutive : ℕ → List Object → ℕ → Type 0
Consecutive at [] end = at ≡ end
Consecutive at ((object, size) ∷ objects) end = (object ≡ at) × Consecutive (at + size) objects end

-- The objects of successive calls of MMAPProfilerMemory::malloc follow each other from the overhead
-- pointer on, which ends behind the last one, as long as the addresses do not wrap.
pub mallocs-Consecutive :
    (m : Memory) (sizes : List ℕ)
    → m.overhead_pointer + sum sizes < 0x1_0000_0000_0000_0000
    → Consecutive m.overhead_pointer (mallocs m sizes).1 (mallocs m sizes).0.overhead_pointer
      × ((mallocs m sizes).0.overhead_pointer ≡ m.overhead_pointer + sum sizes)
unfolding malloc
mallocs-Consecutive m [] h = (refl, omega arith)
mallocs-Consecutive m (size ∷ sizes) h =
    let m' = (malloc m size).0 in
    let e : m'.overhead_pointer ≡ m.overhead_pointer + size = omega arith in
    let rest = mallocs-Consecutive m' sizes (omega arith) in
    (
      (
        omega arith,
        subst (λ x. Consecutive x (mallocs m' sizes).1 (mallocs m' sizes).0.overhead_pointer) e
            rest.0,
      ),
      omega (arith, rest.1),
    )

-- `P` holds of every object of the list.
abbrev pub Every : (Object → Type 0) → List Object → Type 0
Every P [] = Unit
Every P (o ∷ objects) = P o × Every P objects

Consecutive-end : (at : ℕ) (objects : List Object) (end : ℕ) → Consecutive at objects end → at ≤ end
Consecutive-end at [] end c = omega (arith, c)
Consecutive-end at (o ∷ objects) end c = omega (arith, Consecutive-end (at + o.1) objects end c.1)

recognized :
    (m : Memory) (at : ℕ) (objects : List Object) (end : ℕ)
    → m.start_pointer ≤ at
    → end ≤ m.end_pointer
    → Consecutive at objects end
    → Every (λ o. (o.0 + o.1 ≤ m.end_pointer) × (in_memory m o.0 ≡ true)) objects
unfolding in_memory
recognized m at [] end lo hi c = tt
recognized m at ((object, size) ∷ objects) end lo hi c =
    let le = Consecutive-end (at + size) objects end c.1 in
    (
      (omega (arith, c.0), ground (arith, c.0)),
      recognized m (at + size) objects end (omega arith) hi c.1,
    )

-- While the sizes fit behind the overhead pointer, every object given ends inside the memory and
-- inMemory recognizes its address.
pub mallocs-in_memory :
    (m : Memory) (sizes : List ℕ)
    → m.start_pointer ≤ m.overhead_pointer
    → m.overhead_pointer + sum sizes ≤ m.end_pointer
    → m.end_pointer < 0x1_0000_0000_0000_0000
    → Every (λ o. (o.0 + o.1 ≤ m.end_pointer) × (in_memory m o.0 ≡ true)) (mallocs m sizes).1
mallocs-in_memory m sizes lo fits wraps =
    let c = mallocs-Consecutive m sizes (omega arith) in
    recognized m m.overhead_pointer (mallocs m sizes).1 _ lo (omega (arith, c.1)) c.0
