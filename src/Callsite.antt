-- ===== src/Callsite.antt =====
-- src_light/callsite.cpp: getCallKey, the number of a call site, with the book of the numbers that
-- are in use and the table of their return addresses. What stands on the stack is an argument.
pub mod Book
use mem_perf_pro.Base.{
  ℕ, ◌/◌, ◌%◌, Bool, true, not, ◌&&◌, Option, ◌==◌, if◌then◌else◌, add_16, add_64, update,
}
use mem_perf_pro.HashFuncs.{hash_int, compare_int}
use mem_perf_pro.HashMap.{HashMap, initialize, find, insert_if_absent}

-- NUM_CALLKEY, the number of buckets
abbrev pub num_callkey : ℕ
num_callkey = 256

-- callTable is a table of return addresses by call key.
pub record Callsite : Type 0 where
  pub num_call_key : ℕ
  pub call_key_book : ℕ → Bool
  pub call_table : HashMap ℕ ℕ

-- `callTable.initialize(…, NUM_CALLKEY)`, for the address that mmap gives
unfoldable pub initialize_call_table : Callsite → ℕ → Callsite
initialize_call_table c mapped = record c {
  call_table = initialize c.call_table mapped num_callkey;
}

-- `(uint8_t)((stackOffset + returnAddr) >> 4)`
abbrev pub call_key_of : ℕ → ℕ → ℕ
call_key_of stack_offset return_addr = add_64 stack_offset return_addr / 16 % 256

-- `stack_offset` is getStackOffset of the stack top, `return_addr` the word RETURN_OFFSET bytes above
-- it, `entry_size` the size of an entry of the table.
unfoldable pub get_call_key : ℕ → ℕ → ℕ → ℕ → Callsite → Callsite × ℕ
get_call_key entry_size stack_offset return_addr old_call_key c =
    let call_key = call_key_of stack_offset return_addr in
    let (call_table, present) =
      insert_if_absent hash_int compare_int entry_size c.call_table call_key return_addr in
    if not (call_key == old_call_key) && not (c.call_key_book call_key)
    then (
      record {
        num_call_key = add_16 c.num_call_key 1;
        call_key_book = update c.call_key_book call_key true;
        call_table = call_table;
      },
      call_key,
    )
    else (c, call_key)

-- the entry that printCallSite prints, for a key that is not 0
unfoldable pub find_call_site : ℕ → Callsite → Option ℕ
find_call_site call_key c = find hash_int compare_int c.call_table call_key
