-- ===== src/ObjTable.antt =====
-- src_light/objTable.{h,cpp}: the table objStatusMap of all objects, by address. An address stays in
-- it when its object is freed; the next allocation there reuses the entry.
pub mod Update
use mem_perf_pro.Base.{ℕ, Bool, true, false, Option, none, some, ◌==◌, if◌then◌else◌}
use mem_perf_pro.MyMalloc.{Memory, malloc}
use mem_perf_pro.HashFuncs.{hash_addr, compare_addr}
use mem_perf_pro.HashMap.{HashMap, with_memory, initialize, find, insert, store}
use mem_perf_pro.ShadowMemory.Lines.{ObjStat}

-- MAX_OBJ_NUM, the number of buckets
abbrev pub max_obj_num : ℕ
max_obj_num = 4194304

abbrev pub Table : Type 0
Table = HashMap ℕ ObjStat

-- ObjStat::newObj
unfoldable pub new_obj : ℕ → ℕ → ℕ → ObjStat
new_obj call_key tid size = record { call_key = call_key; tid = tid; size = size }

unfoldable pub initialize_table : Table → ℕ → Table
initialize_table t mapped = initialize t mapped max_obj_num

abbrev pub find_obj : Table → ℕ → Option ℕ
find_obj t address = find hash_addr compare_addr t address

-- Callsite::getCallKey at a call: the key, by the old one, and the bytes that a new entry in the table
-- of call sites takes of the hash memory, or 0.
pub record CallKey : Type 0 where
  pub key : ℕ → ℕ
  pub bytes : ℕ

-- the hash memory behind getCallKey
abbrev pub after_call_key : ℕ → Memory → Memory
after_call_key bytes memory = if bytes == 0 then memory else (malloc memory bytes).0

-- allocUpdate but for the hash memory that getCallKey takes
unfoldable pub note_obj : ℕ → (ℕ → ℕ) → ℕ → Table → ℕ → ℕ → Table × Bool
unfolding new_obj
note_obj entry_size get_call_key tid t size address = elim (find_obj t address) [
  | none ↦ (
    (insert hash_addr compare_addr entry_size t address (new_obj (get_call_key 0) tid size)).0,
    false,
  )
  | some status ↦ (
    store t status
        (record { call_key = get_call_key (t.value status).call_key; tid = tid; size = size }),
    true,
  )
]

-- `tid` is the index of the running thread. The test says whether the address was in the table; the
-- search for it does not read the hash memory.
unfoldable pub alloc_update : ℕ → CallKey → ℕ → Table → ℕ → ℕ → Table × Bool
unfolding note_obj
alloc_update entry_size call_key tid t size address =
    note_obj entry_size call_key.key tid (with_memory t (after_call_key call_key.bytes t.memory))
      size address

-- the entry of the address, or a null pointer
unfoldable pub free_update : Table → ℕ → Option ℕ
free_update t address = find_obj t address
