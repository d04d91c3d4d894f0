-- ===== src/Tests/Tracked.antt =====
-- An object from its allocation to its free, in the table and in the shadow memory; allocation types.
use mem_perf_pro.Base.{◌≡◌, refl, true, false, [], ◌∷◌, arith, subst}
use mem_perf_pro.Base.Run.{Returns}
use mem_perf_pro.AllocatingStatus as Status
use mem_perf_pro.AllocatingStatus.{small, medium, large}
use mem_perf_pro.AllocatingStatus.Memory.{
  Status, update_memory_status_after_allocation, update_memory_status_before_free,
}
use mem_perf_pro.AllocatingStatus.Memory.Tracked.{
  IsTracked, update_memory_status_after_allocation-IsTracked,
  update_memory_status_before_free-IsTracked,
}
use mem_perf_pro.HashFuncs.{hash_addr, compare_addr}
use mem_perf_pro.HashMap.{insert, insert_entry, create_new_entry}
use mem_perf_pro.HashMap.Represents.{Holds}
use mem_perf_pro.HashMap.Operations.{HasRoom, with_pair, insert-Holds}
use mem_perf_pro.MyMalloc.{malloc}
use mem_perf_pro.ObjTable.{Table}
use mem_perf_pro.ObjTable.Update.{Contents, bucket_of, index_lem}
use mem_perf_pro.ShadowMemory.Lines.{ObjStat}
use mem_perf_pro.Tests.Maps.{call_key_9, table, table-IsTable, table-HasRoom, table-memory}
use mem_perf_pro.Tests.Objects.{
  empty, empty-Tracks, in_range_5, heap_address, one_object, one_object-Tracks, one_row,
}

-- the status of a thread that allocates or frees an object of 200 bytes
abbrev pub status_of : Table → Status
status_of t = record {
  allocating_type = record {
    doing_allocation = true;
    allocating_function = Status.malloc;
    object_size = 200;
    object_address = heap_address;
    is_reuse = false;
  };
  sampled_for_counting_event = true;
  cycles_before_real_function = 0;
  cycles_after_real_function = 0;
  cycles_in_real_function = 0;
  table = t;
  shadow = empty;
}

abbrev pub no_contents : Contents
no_contents i = []

table-room_80 : HasRoom 80 table
table-room_80 = record {
  buckets = table-HasRoom.buckets;
  entry = omega arith;
  room = rw table-memory (omega arith);
  end = table-HasRoom.end;
}

update_memory_status_after_allocation-IsTracked_here :
    (after : Contents) × Returns
      (IsTracked ((heap_address, 200) ∷ []) after)
      (update_memory_status_after_allocation 32 call_key_9 2 (status_of table))
update_memory_status_after_allocation-IsTracked_here =
    update_memory_status_after_allocation-IsTracked (status_of table) no_contents 32 call_key_9 2 []
      (record {
        holds = table-IsTable.holds;
        size = table-IsTable.size;
        tracks = empty-Tracks;
        sizes = tt;
      })
      (omega arith)
      (record { few = table-IsTable.few; entries = table-room_80; rows = omega arith }) in_range_5
      (λ e. omega (arith, e)) tt tt

abbrev pub stat : ObjStat
stat = record { call_key = 9; tid = 2; size = 200 }

abbrev pub one_entry : Table
one_entry = (insert hash_addr compare_addr 32 table heap_address stat).0

abbrev pub one_pair : Contents
one_pair = with_pair no_contents (bucket_of heap_address) heap_address stat

pub one_entry-Holds : Holds one_entry one_pair
one_entry-Holds =
    subst (λ i. Holds one_entry (with_pair no_contents i heap_address stat))
      (index_lem table heap_address table-IsTable.size)
      (insert-Holds hash_addr compare_addr 32 table no_contents heap_address stat
        table-IsTable.holds table-IsTable.room)

pub one_entry-HasRoom : HasRoom 352 one_entry
unfolding insert insert_entry create_new_entry malloc
one_entry-HasRoom = record {
  buckets = omega (arith, table-IsTable.size);
  entry = omega arith;
  room = rw table-memory (omega arith);
  end = rw table-memory (omega arith);
}

pub one_entry-total : one_entry.buckets_total ≡ 4194304
unfolding insert insert_entry create_new_entry
one_entry-total = table-IsTable.size

update_memory_status_before_free-IsTracked_here :
    Returns
      (λ s. IsTracked [] one_pair s × (s.table ≡ one_entry))
      (update_memory_status_before_free (record (status_of one_entry) { shadow = one_object }))
update_memory_status_before_free-IsTracked_here =
    update_memory_status_before_free-IsTracked
      (record (status_of one_entry) { shadow = one_object }) one_pair 352 200 [] []
      (record {
        holds = one_entry-Holds;
        size = one_entry-total;
        tracks = one_object-Tracks;
        sizes = ((stat, refl, refl), tt);
      })
      (record {
        few = λ i. ground arith;
        entries = one_entry-HasRoom;
        rows = omega (arith, one_row);
      })
      in_range_5 (λ e. omega (arith, e)) tt
