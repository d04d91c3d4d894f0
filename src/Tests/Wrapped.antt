-- ===== src/Tests/Wrapped.antt =====
-- A bucket with 65536 pairs, each with a key of its own.
use mem_perf_pro.Base.{
  ℕ, ◌+◌, ◌*◌, ◌%◌, ◌-◌, ◌≡◌, ◌≤◌, ◌<◌, none, true, length-append, bit_and-le, [], ◌∷◌, List,
  length, arith, suc, zero, refl, inr,
}
use mem_perf_pro.HashFuncs.{hash_int, compare_int}
use mem_perf_pro.HashMap.{
  HashMap, initialize, insert, insert_entry, create_new_entry, find, hash_index,
}
use mem_perf_pro.HashMap.Represents.{Holds}
use mem_perf_pro.HashMap.Initialize.{initialize-Holds}
use mem_perf_pro.HashMap.Operations.{with_pair, insert-Holds, find-wrapped}
use mem_perf_pro.MyMalloc.{Memory, malloc}
use mem_perf_pro.Tests.Maps.{no_map}

-- 16 MB, enough for 65536 entries of 48 bytes
abbrev large_memory : Memory
large_memory = record {
  initialized = true;
  object_num = 0;
  start_pointer = 0x1000;
  end_pointer = 0x100_1000;
  overhead_pointer = 0x1000;
}

abbrev one_bucket : HashMap ℕ ℕ
one_bucket = initialize (record no_map { memory = large_memory }) 0x200_0000 1

-- the map behind the insertion of the keys below a count
abbrev filled : ℕ → HashMap ℕ ℕ
filled zero = one_bucket
filled (suc n) = (insert hash_int compare_int 48 (filled n) n 7).0

abbrev pairs_of : ℕ → ℕ → List (ℕ × ℕ)
pairs_of zero = λ i. []
pairs_of (suc n) = with_pair (pairs_of n) (hash_index hash_int compare_int (filled n) n) n 7

record Filled (n : ℕ) : Type 0 where
  pub holds : Holds (filled n) (pairs_of n)
  pub count : length (pairs_of n 0) ≡ n
  pub total : (filled n).buckets_total ≡ 1
  pub overhead : (filled n).memory.overhead_pointer ≡ 0x1000 + n * 48
  pub end : (filled n).memory.end_pointer ≡ 0x100_1000

in_bucket_0 :
    (m : HashMap ℕ ℕ) (key : ℕ) → m.buckets_total ≡ 1 → hash_index hash_int compare_int m key ≡ 0
unfolding hash_index
in_bucket_0 m key one = omega (arith, one, bit_and-le (hash_int key) (m.buckets_total - 1))

one_bucket-Filled : Filled 0
one_bucket-Filled =
    let (holds, total, kept) =
      initialize-Holds (record no_map { memory = large_memory }) 0x200_0000 1 (inr (omega arith)) in
    record {
      holds = holds;
      count = refl;
      total = total;
      overhead = rw kept refl;
      end = rw kept refl;
    }

next-Filled : (n : ℕ) → n < 0x1_0000 → Filled n → Filled (suc n)
unfolding insert insert_entry create_new_entry malloc
next-Filled n few f =
    let here : hash_index hash_int compare_int (filled n) n ≡ 0 =
      in_bucket_0 (filled n) n f.total in
    record {
      holds = insert-Holds hash_int compare_int 48 (filled n) (pairs_of n) n 7 f.holds (record {
        buckets = omega (arith, f.total);
        entry = omega arith;
        room = omega (arith, f.overhead, f.end);
        end = omega (arith, f.end);
      });
      count = rw here (omega (arith, length-append (pairs_of n 0) ((n, 7) ∷ []), f.count));
      total = f.total;
      overhead = omega (arith, f.overhead);
      end = f.end;
    }

keys-Filled : (n : ℕ) → n ≤ 0x1_0000 → Filled n
keys-Filled zero few = one_bucket-Filled
keys-Filled (suc n) few = next-Filled n (omega (arith, few)) (keys-Filled n (omega (arith, few)))

multiple_in :
    (pairs : ℕ → List (ℕ × ℕ)) (i n : ℕ)
    → i ≡ 0
    → length (pairs 0) ≡ n
    → n % 0x1_0000 ≡ 0
    → length (pairs i) % 0x1_0000 ≡ 0
multiple_in pairs i n at_0 count multiple = rw (at_0, count) multiple

-- The first key is in the bucket, and is not found.
find-wrapped_example : find hash_int compare_int (filled 0x1_0000) 0 ≡ none
find-wrapped_example =
    find-wrapped hash_int compare_int (filled 0x1_0000) (pairs_of 0x1_0000) 0
      (keys-Filled 0x1_0000 (omega arith)).holds
      (omega (arith, (keys-Filled 0x1_0000 (omega arith)).total))
      (multiple_in (pairs_of 0x1_0000) (hash_index hash_int compare_int (filled 0x1_0000) 0)
        0x1_0000 (in_bucket_0 (filled 0x1_0000) 0 (keys-Filled 0x1_0000 (omega arith)).total)
        (keys-Filled 0x1_0000 (omega arith)).count refl)
