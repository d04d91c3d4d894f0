-- ===== src/ShadowMemory/Coherency.antt =====
-- src_light/shadowmemory.{hh,cpp}: struct CoherencyData, the table coherencyCaches, the branch of
-- doMemoryAccess for a miss that follows addMiss, and the coherency check of freeUpdateCacheLines.
pub mod Invariant
pub mod Threads
use mem_perf_pro.Base.{
  ℕ, zero, suc, ◌+◌, ◌%◌, ◌/◌, Bool, not, ◌&&◌, ◌||◌, add_8, add_16, leb, ltb, ◌==◌, if◌then◌else◌,
  update, find_from,
}
use mem_perf_pro.ShadowMemory.CacheMapEntry.{has_coherency, mark_coherency, miss_count}

abbrev pub max_coherency_caches : ℕ
max_coherency_caches = 32

abbrev pub tids_per_word_size : ℕ
tids_per_word_size = 16

pub record CoherencyData : Type 0 where
  pub call_key : ℕ × ℕ
  pub misses : ℕ
  pub allocate_tid : ℕ × ℕ
  pub tids_per_word : ℕ → ℕ → ℕ
  pub cme : ℕ

pub record Coherency : Type 0 where
  pub num_of_coherency_caches : ℕ
  pub coherency_caches : ℕ → CoherencyData

-- the index loops `for(i = 0; i < numOfCoherencyCaches && coherencyCaches[i].cme != cme; ++i) {}`
unfoldable pub find_cache : Coherency → ℕ → ℕ
find_cache c line = find_from (λ i. (c.coherency_caches i).cme) line c.num_of_coherency_caches 0

-- the first slot that is empty or holds the thread, of the `left` slots from `j` on
unfoldable pub tid_slot : (ℕ → ℕ) → ℕ → ℕ → ℕ → ℕ
tid_slot tids tid zero j = j
tid_slot tids tid (suc left) j =
    let rest = tid_slot tids tid left (j + 1) in
    if not (tids j == 0) && not (tids j == tid) then rest else j

unfoldable pub record_tid : (ℕ → ℕ) → ℕ → ℕ → ℕ
record_tid tids tid =
    let j = tid_slot tids tid tids_per_word_size 0 in
    if ltb j tids_per_word_size && not (tids j == tid) then update tids j tid else tids

-- bits 3 to 5 of the address
abbrev pub word_index : ℕ → ℕ
word_index addr = addr % 64 / 8

unfoldable pub note_thread : CoherencyData → ℕ → ℕ → CoherencyData
note_thread s addr tid = record s {
  tids_per_word =
      update s.tids_per_word (word_index addr) (record_tid (s.tids_per_word (word_index addr)) tid);
}

abbrev pub put_cache : Coherency → ℕ → CoherencyData → Coherency
put_cache c i s = record c { coherency_caches = update c.coherency_caches i s }

-- a miss on a line that is in the table
unfoldable pub miss_again : Coherency → ℕ → ℕ → ℕ → Coherency
miss_again c line addr tid =
    let i = find_cache c line in
    let s = c.coherency_caches i in
    put_cache c i (note_thread (record s { misses = add_16 s.misses 1 }) addr tid)

-- the fifth miss on a line: it enters the table
unfoldable pub enter : Coherency → ℕ → ℕ → ℕ → Coherency
enter c line addr tid =
    let i = c.num_of_coherency_caches in
    let s = c.coherency_caches i in
    put_cache (record c { num_of_coherency_caches = add_8 i 1 }) i
      (note_thread (record s { cme = line; misses = 5 }) addr tid)

-- Gives the new table and the new `cme->misses`.
unfoldable pub on_miss : Coherency → ℕ → ℕ → ℕ → ℕ → Coherency × ℕ
on_miss c line misses addr tid =
    if leb 5 (miss_count misses)
    then (if has_coherency misses
        then (miss_again c line addr tid, misses)
        else if ltb c.num_of_coherency_caches max_coherency_caches
        then (enter c line addr tid, mark_coherency misses)
        else (c, misses))
    else (c, add_8 misses 1)

-- the threads and call sites that allocated the first two objects seen on the line
unfoldable pub note_object : CoherencyData → ℕ → ℕ → CoherencyData
note_object s tid call_key =
    let (t0, t1) = s.allocate_tid in
    let (k0, k1) = s.call_key in
    if not (t0 == 0)
    then record s {
      allocate_tid = (t0, (if not (t0 == tid) && t1 == 0 then tid else t1));
      call_key = (k0, (if not (k0 == call_key) && k1 == 0 then call_key else k1));
    }
    else record s { allocate_tid = (tid, t1); call_key = (call_key, k1) }

unfoldable pub check_coherency : Coherency → ℕ → ℕ → ℕ → Coherency
check_coherency c line tid call_key =
    let i = find_cache c line in put_cache c i (note_object (c.coherency_caches i) tid call_key)
