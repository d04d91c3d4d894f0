-- ===== src/ShadowMemory/ConflictData.antt =====
-- src_light/shadowmemory.hh, struct ConflictData: the cache sets that take many of the misses.
-- A cache line is its index in the cache map. Array cells are read and written by index; the
-- invariant of ConflictData/Invariant.antt keeps every index inside its array.
pub mod Invariant
use mem_perf_pro.Base.{
  ℕ, ◌+◌, ◌*◌, ◌/◌, ◌%◌, Bool, not, ◌&&◌, add_8, add_32, leb, ltb, ◌==◌, if◌then◌else◌, update,
  find_from,
}
use mem_perf_pro.ShadowMemory.CacheMapEntry.{has_conflict, has_coherency, mark_conflict}

-- CME, and the largest number of lines that one set may register
abbrev pub max_cme : ℕ
max_cme = 128

abbrev pub max_cme_per_set : ℕ
max_cme_per_set = 16

pub record ConflictData : Type 0 where
  pub num_of_cme : ℕ
  pub set_of_cme : ℕ → ℕ
  pub num_of_cme_per_set : ℕ → ℕ
  pub obj_num_per_set : ℕ → ℕ
  pub call_key_per_set : ℕ → ℕ × ℕ
  pub total_misses : ℕ
  pub misses_per_set : ℕ → ℕ
  pub cme : ℕ → ℕ

-- the set of an address: bits 6 to 11
abbrev pub set_id : ℕ → ℕ
set_id addr = addr % 4096 / 64

-- the two counters
unfoldable pub count_miss : ConflictData → ℕ → ConflictData
count_miss d s = record d {
  total_misses = add_32 d.total_misses 1;
  misses_per_set = update d.misses_per_set s (add_32 (d.misses_per_set s) 1);
}

-- the body under the lock: register the line
unfoldable pub register : ConflictData → ℕ → ℕ → ConflictData
register d s line = record d {
  cme = update d.cme d.num_of_cme line;
  set_of_cme = update d.set_of_cme d.num_of_cme s;
  num_of_cme = add_8 d.num_of_cme 1;
  num_of_cme_per_set = update d.num_of_cme_per_set s (add_8 (d.num_of_cme_per_set s) 1);
}

-- the test made before the lock is taken, and again under it
abbrev pub has_room : ConflictData → ℕ → ℕ → Bool
has_room d s misses =
    ltb d.num_of_cme max_cme
    && (ltb (d.num_of_cme_per_set s) max_cme_per_set && not (has_conflict misses))

-- a set with a twentieth of at least 50 misses; the product is a `uint32_t`
abbrev pub is_hot : ConflictData → ℕ → Bool
is_hot d s = leb 50 d.total_misses && leb d.total_misses (d.misses_per_set s * 20 % 0x1_0000_0000)

-- Gives the new state and the new `cme->misses`.
unfoldable pub add_miss : ConflictData → ℕ → ℕ → ℕ → ConflictData × ℕ
add_miss d addr line misses =
    let s = set_id addr in
    let d' = count_miss d s in
    if is_hot d' s && (not (has_conflict misses) && not (has_coherency misses))
    then (if has_room d' s misses
        then (if has_room d' s misses
            then (register d' s line, mark_conflict misses)
            else (d', misses))
        else (d', misses))
    else (d', misses)

-- the first two call sites whose objects are seen in a set
unfoldable pub add_call_key : ℕ × ℕ → ℕ → ℕ × ℕ
add_call_key (first, second) call_key =
    if not (first == 0)
    then (if not (first == call_key) && second == 0 then (first, call_key) else (first, second))
    else (call_key, second)

unfoldable pub check_obj : ConflictData → ℕ → ℕ → ConflictData
check_obj d line call_key =
    let i = find_from d.cme line d.num_of_cme 0 in
    let s = d.set_of_cme i in
    record d {
      obj_num_per_set = update d.obj_num_per_set s (add_8 (d.obj_num_per_set s) 1);
      call_key_per_set = update d.call_key_per_set s (add_call_key (d.call_key_per_set s) call_key);
    }
