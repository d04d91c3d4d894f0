-- ===== src/Tests/Maps.antt =====
-- The profiler's memory, the lists, the hash map and the table of objects at concrete inputs.
use mem_perf_pro.Base.{ℕ, ◌+◌, ◌≤◌, ◌≡◌, inr, refl, true, false, none, some, List, [], ◌∷◌, arith}
use mem_perf_pro.HashFuncs.{hash_int, compare_int}
use mem_perf_pro.HashList.{Links, list_init, list_insert_tail, list_insert_head, list_remove_node}
use mem_perf_pro.HashList.Ring.{IsRing, Away}
use mem_perf_pro.HashList.Insert.{
  list_init-IsRing, list_insert_tail-IsRing, list_insert_head-IsRing,
}
use mem_perf_pro.HashList.Remove.{list_remove_node-IsRing}
use mem_perf_pro.HashMap.{HashMap, initialize, insert, insert_if_absent, find, hash_index}
use mem_perf_pro.HashMap.Represents.{Holds, lookup}
use mem_perf_pro.HashMap.Find.{found, find-lookup}
use mem_perf_pro.HashMap.Initialize.{initialize-Holds}
use mem_perf_pro.HashMap.Operations.{
  HasRoom, with_pair, insert-Holds, insert_if_absent-Holds, find-insert,
}
use mem_perf_pro.MyMalloc.{Memory, in_memory}
use mem_perf_pro.MyMalloc.Objects.{
  mallocs, Consecutive, Every, mallocs-Consecutive, mallocs-in_memory,
}
use mem_perf_pro.ObjTable.{Table, CallKey, alloc_update, initialize_table}
use mem_perf_pro.ObjTable.Update.{Contents, IsTable, Updated, alloc_update-Updated}

abbrev pub memory : Memory
memory = record {
  initialized = true;
  object_num = 0;
  start_pointer = 0x1000;
  end_pointer = 0x10_0000;
  overhead_pointer = 0x1000;
}

mallocs-Consecutive_example :
    Consecutive 0x1000
      (mallocs memory (40 ∷ 8 ∷ [])).1
      (mallocs memory (40 ∷ 8 ∷ [])).0.overhead_pointer
    × ((mallocs memory (40 ∷ 8 ∷ [])).0.overhead_pointer ≡ 0x1030)
mallocs-Consecutive_example = mallocs-Consecutive memory (40 ∷ 8 ∷ []) (omega arith)

mallocs-in_memory_here :
    Every
      (λ o. (o.0 + o.1 ≤ memory.end_pointer) × (in_memory memory o.0 ≡ true))
      (mallocs memory (40 ∷ 8 ∷ [])).1
mallocs-in_memory_here =
    mallocs-in_memory memory (40 ∷ 8 ∷ []) (omega arith) (omega arith) (omega arith)

abbrev no_links : Links
no_links = record { prev = λ i. 0; next = λ i. 0 }

abbrev one_node : Links
one_node = list_insert_tail (list_init no_links 16) 32 16

list_insert_tail-IsRing_here : IsRing one_node 16 (32 ∷ [])
unfolding Away
list_insert_tail-IsRing_here =
    list_insert_tail-IsRing (list_init no_links 16) 32 16 [] (list_init-IsRing no_links 16)
      (λ e. omega (arith, e)) tt

list_insert_head-IsRing_here : IsRing (list_insert_head one_node 48 16) 16 (48 ∷ 32 ∷ [])
unfolding Away
list_insert_head-IsRing_here =
    list_insert_head-IsRing one_node 48 16 (32 ∷ []) list_insert_tail-IsRing_here
      (λ e. omega (arith, e)) (λ e. omega (arith, e), tt)

list_remove_node-IsRing_here :
    IsRing (list_remove_node (list_insert_head one_node 48 16) 32) 16 (48 ∷ [])
    × IsRing (list_remove_node (list_insert_head one_node 48 16) 32) 32 []
list_remove_node-IsRing_here =
    list_remove_node-IsRing (list_insert_head one_node 48 16) 16 (48 ∷ []) 32 []
      list_insert_head-IsRing_here

abbrev pub no_map : HashMap ℕ ℕ
no_map = record {
  links = no_links;
  key = λ i. 0;
  value = λ i. 0;
  buckets = 0;
  buckets_total = 0;
  count = λ i. 0;
  total_entry = 0;
  memory = memory;
}

initialize-Holds_here :
    Holds (initialize no_map 0x20_0000 8) (λ i. [])
    × ((initialize no_map 0x20_0000 8).buckets_total ≡ 8)
    × ((initialize no_map 0x20_0000 8).memory ≡ memory)
initialize-Holds_here = initialize-Holds no_map 0x20_0000 8 (inr (omega arith))

abbrev empty_map : HashMap ℕ ℕ
empty_map = initialize no_map 0x20_0000 8

empty_map-HasRoom : HasRoom 32 empty_map
empty_map-HasRoom = record {
  buckets = omega (arith, initialize-Holds_here.1);
  entry = omega arith;
  room = rw initialize-Holds_here.2 (omega arith);
  end = rw initialize-Holds_here.2 (omega arith);
}

abbrev one_pair : HashMap ℕ ℕ
one_pair = (insert hash_int compare_int 32 empty_map 13 7).0

insert-Holds_here :
    Holds one_pair (with_pair (λ i. []) (hash_index hash_int compare_int empty_map 13) 13 7)
insert-Holds_here =
    insert-Holds hash_int compare_int 32 empty_map (λ i. []) 13 7 initialize-Holds_here.0
      empty_map-HasRoom

find-insert_example :
    found hash_int compare_int one_pair (find hash_int compare_int one_pair 13) ≡ some 7
find-insert_example =
    find-insert hash_int compare_int 32 empty_map (λ i. []) 13 7 initialize-Holds_here.0
      empty_map-HasRoom (omega arith) refl refl

find-lookup_example :
    found hash_int compare_int empty_map (find hash_int compare_int empty_map 13) ≡ none
find-lookup_example =
    find-lookup hash_int compare_int empty_map (λ i. []) 13 initialize-Holds_here.0
      (omega (arith, initialize-Holds_here.1)) (omega arith)

abbrev no_pairs : List (ℕ × ℕ)
no_pairs = []

insert_if_absent-Holds_here :
    ((v : ℕ)
      → lookup compare_int 13 no_pairs ≡ some v
      → insert_if_absent hash_int compare_int 32 empty_map 13 7 ≡ (empty_map, true))
    × (lookup compare_int 13 no_pairs ≡ none
        → ((insert_if_absent hash_int compare_int 32 empty_map 13 7).1 ≡ false)
          × Holds
              (insert_if_absent hash_int compare_int 32 empty_map 13 7).0
              (with_pair (λ i. []) (hash_index hash_int compare_int empty_map 13) 13 7))
insert_if_absent-Holds_here =
    insert_if_absent-Holds hash_int compare_int 32 empty_map (λ i. []) 13 7 initialize-Holds_here.0
      empty_map-HasRoom (omega arith)

abbrev pub no_table : Table
no_table = record {
  links = no_links;
  key = λ i. 0;
  value = λ i. record { call_key = 0; tid = 0; size = 0 };
  buckets = 0;
  buckets_total = 0;
  count = λ i. 0;
  total_entry = 0;
  memory = memory;
}

abbrev pub table : Table
table = initialize_table no_table 0x20_0000

pub table-IsTable : IsTable 32 table (λ i. [])
unfolding initialize_table
table-IsTable =
    let (holds, total, kept) = initialize-Holds no_table 0x20_0000 4194304 (inr (omega arith)) in
    record {
      holds = holds;
      size = total;
      few = λ i. omega arith;
      room = record {
        buckets = omega (arith, total);
        entry = omega arith;
        room = rw kept (omega arith);
        end = rw kept (omega arith);
      };
    }

pub table-memory : table.memory ≡ memory
unfolding initialize_table
table-memory = (initialize-Holds no_table 0x20_0000 4194304 (inr (omega arith))).2

pub table-HasRoom : HasRoom 400 table
table-HasRoom = record {
  buckets = table-IsTable.room.buckets;
  entry = omega arith;
  room = rw table-memory (omega arith);
  end = table-IsTable.room.end;
}

table-48_more : IsTable (48 + 32) table (λ i. [])
table-48_more = record {
  holds = table-IsTable.holds;
  size = table-IsTable.size;
  few = table-IsTable.few;
  room = record {
    buckets = table-IsTable.room.buckets;
    entry = omega arith;
    room = rw table-memory (omega arith);
    end = table-IsTable.room.end;
  };
}

-- call site 9, whose entry takes 48 bytes
abbrev pub call_key_9 : CallKey
call_key_9 = record { key = λ old. 9; bytes = 48 }

-- thread 2 allocates 100 bytes at an address that is new, at call site 9
alloc_update-Updated_example :
    ((alloc_update 32 call_key_9 2 table 100 0x7000).1 ≡ false)
    × ((after : Contents) × Updated
          (alloc_update 32 call_key_9 2 table 100 0x7000).0
          (λ i. [])
          after
          0x7000
          (record { call_key = 9; tid = 2; size = 100 }))
alloc_update-Updated_example =
    alloc_update-Updated 32 call_key_9 2 table 100 0x7000 (λ i. []) (omega arith) table-48_more
