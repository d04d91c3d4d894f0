-- ===== src/Sampling.antt =====
-- src_light/memsample.c: perf_mmap_read, which takes the records of the kernel out of the ring
-- buffer and counts the sampled accesses, and the handler and the switches around it. The kernel,
-- which writes the records and moves `data_head`, is an argument: the control page and the ring.
pub mod Buffer
pub mod Records
pub mod Encoding
pub mod Reads
pub mod Handler
pub mod Session
use mem_perf_pro.Base.{
  ℕ, zero, suc, ◌+◌, ◌-◌, ◌*◌, ◌%◌, ◌/◌, Bool, true, false, not, ◌&&◌, Option, none, some, leb, ltb,
  ◌==◌, if◌then◌else◌, bit_and, add_64, sub_64,
}
use mem_perf_pro.Base.Run.{Run, done, abort, ◌>>=◌}
use mem_perf_pro.Structs.{FriendlinessStatus}
use mem_perf_pro.ShadowMemory.CacheMap.{Shadow}
use mem_perf_pro.ShadowMemory.Access.{do_memory_access}

abbrev pub data_mapsize : ℕ
data_mapsize = 0x8_0000

-- the part of perf_event_mmap_page that is used
pub record ControlPage : Type 0 where
  pub data_head : ℕ
  pub data_tail : ℕ

-- `ring` are the bytes from ring_buf_data_start on.
pub record PerfInfo : Type 0 where
  pub prev_head : ℕ
  pub data_buf_copy : ℕ → ℕ
  pub ring_buf : Option ControlPage
  pub ring : ℕ → ℕ

-- memcpy(dest + at, src + start, amount)
unfoldable pub memcpy : (ℕ → ℕ) → ℕ → (ℕ → ℕ) → ℕ → ℕ → ℕ → ℕ
memcpy dest at src start amount i =
    if leb at i && ltb i (at + amount) then src (start + i - at) else dest i

-- use_data_buf: the copy of the bytes in data_buf_copy if they wrap around, or else their place in
-- the ring
unfoldable pub use_data : PerfInfo → ℕ → PerfInfo × (ℕ → ℕ)
use_data p size =
    let prev_head_wrapped = p.prev_head % data_mapsize in
    let copy_amt = data_mapsize - prev_head_wrapped in
    let copy =
      memcpy (memcpy p.data_buf_copy 0 p.ring prev_head_wrapped copy_amt) copy_amt p.ring 0
        (size - copy_amt) in
    if ltb copy_amt size
    then (record p { data_buf_copy = copy }, copy)
    else (p, λ i. p.ring (prev_head_wrapped + i))

-- an unsigned number of so many bytes, the lowest first
unfoldable pub load : ℕ → (ℕ → ℕ) → ℕ → ℕ
load zero bytes i = 0
load (suc width) bytes i = bytes i + 256 * load width bytes (i + 1)

-- linux/perf_event.h
abbrev pub perf_record_sample : ℕ
perf_record_sample = 9

abbrev perf_mem_op_load : ℕ
perf_mem_op_load = 0x2

abbrev perf_mem_op_store : ℕ
perf_mem_op_store = 0x4

abbrev perf_mem_op_pfetch : ℕ
perf_mem_op_pfetch = 0x8

abbrev perf_mem_op_exec : ℕ
perf_mem_op_exec = 0x10

-- PERF_MEM_LVL_HIT and PERF_MEM_LVL_L1, shifted by PERF_MEM_LVL_SHIFT
abbrev perf_mem_lvl_hit : ℕ
perf_mem_lvl_hit = 0x40

abbrev perf_mem_lvl_l1 : ℕ
perf_mem_lvl_l1 = 0x100

abbrev last_user_addr : ℕ
last_user_addr = 0x7fff_ffff_ffff

pub data MemAccessType : Type 0 where
  no_access : MemAccessType
  load_access : MemAccessType
  store_access : MemAccessType
  pfetch_access : MemAccessType
  exec_access : MemAccessType
  unknown_access : MemAccessType

abbrev pub has_bit : ℕ → ℕ → Bool
has_bit src bit = not (bit_and src bit == 0)

unfoldable pub access_type_of : ℕ → MemAccessType
access_type_of src =
    if has_bit src perf_mem_op_load
    then load_access
    else if has_bit src perf_mem_op_store
    then store_access
    else if has_bit src perf_mem_op_pfetch
    then pfetch_access
    else if has_bit src perf_mem_op_exec
    then exec_access
    else unknown_access

unfoldable pub is_miss : ℕ → Bool
is_miss src = not (has_bit src perf_mem_lvl_l1 && has_bit src perf_mem_lvl_hit)

pub record Access : Type 0 where
  pub intpaddr : ℕ
  pub access_type : MemAccessType
  pub miss : Bool

-- an access to an address of user space
unfoldable pub sampled_access : ℕ → ℕ → Option Access
unfolding access_type_of is_miss
sampled_access intpaddr src =
    if ltb 0 intpaddr && ltb intpaddr last_user_addr
    then some (record { intpaddr = intpaddr; access_type = access_type_of src; miss = is_miss src })
    else none

-- the shared map and what the running thread counts
pub record Counted : Type 0 where
  pub shadow : Shadow
  pub friendliness_status : FriendlinessStatus

-- ShadowMemory::doMemoryAccess in the thread `tid`; it does not use the type of the access
unfoldable pub do_access : ℕ → Option Access → Counted → Counted
do_access tid none c = c
do_access tid (some a) c =
    let (shadow, f) = do_memory_access c.shadow c.friendliness_status a.intpaddr a.miss tid in
    record { shadow = shadow; friendliness_status = f }

-- the record at `offset`: type (4 bytes), misc (2), size (2), and of a sample the address and the
-- source of the data
unfoldable pub read_event : (ℕ → ℕ) → ℕ → Option Access
unfolding sampled_access
read_event bytes offset =
    if load 4 bytes offset == perf_record_sample
    then sampled_access (load 8 bytes (offset + 8)) (load 8 bytes (offset + 16))
    else none

unfoldable pub event_size : (ℕ → ℕ) → ℕ → ℕ
event_size bytes offset = load 2 bytes (offset + 6)

-- `while(offset < size)`; `none` means that the fuel ran out
unfoldable pub read_events : ℕ → ℕ → (ℕ → ℕ) → ℕ → ℕ → Counted → Option Counted
unfolding read_event event_size do_access
read_events zero tid bytes size offset c = none
read_events (suc fuel) tid bytes size offset c =
    let rest =
      read_events fuel tid bytes size (add_64 offset (event_size bytes offset))
        (do_access tid (read_event bytes offset) c) in
    if ltb offset size then rest else some c

-- The value is the state behind the read, and the head that it returns.
unfoldable pub read_size :
    ℕ → ℕ → PerfInfo → ControlPage → ℕ → Counted → Option (PerfInfo × Counted × ℕ)
read_size fuel tid p control_page size c =
    let head = control_page.data_head in
    let (p', bytes) = use_data p size in
    elim (read_events fuel tid bytes size 0 c) [
      | none ↦ none
      | some c' ↦
          some (record p' { ring_buf = some (record control_page { data_tail = head }) }, c', head)
    ]

-- with the control page at ring_buf, if there is one
unfoldable pub read_ring :
    ℕ → ℕ → PerfInfo → Counted → Option ControlPage → Run (Option (PerfInfo × Counted × ℕ))
read_ring fuel tid p c none = abort
read_ring fuel tid p c (some control_page) =
    let head = control_page.data_head in
    let from = record p { prev_head = (if ltb head p.prev_head then 0 else p.prev_head) } in
    done (read_size fuel tid from control_page (sub_64 head p.prev_head) c)

unfoldable pub perf_mmap_read : ℕ → ℕ → PerfInfo → Counted → Run (Option (PerfInfo × Counted × ℕ))
perf_mmap_read fuel tid p c = read_ring fuel tid p c p.ring_buf
