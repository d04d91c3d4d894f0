-- ===== src/ShadowMemory/Coherency/Threads.antt =====
-- The list of the threads that missed on a word: 16 slots, filled from the first, 0 for empty.
use mem_perf_pro.Base.{
  ℕ, zero, suc, ◌+◌, ◌≤◌, ◌<◌, ◌≡◌, ◌≢◌, ltb, arith, ◌⊎◌, inl, inr, Bool-cases, ltb→lt,
}
use mem_perf_pro.ShadowMemory.Coherency.{tids_per_word_size, tid_slot, record_tid}

-- the slots that are taken come first, and no thread stands twice
pub record IsTidList (tids : ℕ → ℕ) : Type 0 where
  pub ordered :
      (i j : ℕ) → i < j → j < tids_per_word_size → tids j ≢ 0 → (tids i ≢ 0) × (tids i ≢ tids j)

-- Where the loop stops.
record Slot (tids : ℕ → ℕ) (tid i left s : ℕ) : Type 0 where
  from : i ≤ s
  to : s ≤ i + left
  passed : (k : ℕ) → i ≤ k → k < s → (tids k ≢ 0) × (tids k ≢ tid)
  stopped : s < i + left → (tids s ≡ 0) ⊎ (tids s ≡ tid)

tid_slot-Slot : (tids : ℕ → ℕ) (tid left i : ℕ) → Slot tids tid i left (tid_slot tids tid left i)
unfolding tid_slot
tid_slot-Slot tids tid zero i = record {
  from = omega arith;
  to = omega arith;
  passed = λ k lo hi. absurd (omega arith);
  stopped = λ h. absurd (omega arith);
}
tid_slot-Slot tids tid (suc left) i =
    let ih = tid_slot-Slot tids tid left (i + 1) in
    record {
      from = ground (arith, ih.from);
      to = ground (arith, ih.to);
      passed = λ k lo hi. ground (arith, ih.passed k);
      stopped = λ h. ground (arith, ih.stopped);
    }

module _ (tids : ℕ → ℕ) (tid : ℕ) where
  slot : Slot tids tid 0 tids_per_word_size (tid_slot tids tid tids_per_word_size 0)
  slot = tid_slot-Slot tids tid tids_per_word_size 0

  -- Recording a thread other than 0 keeps the list ordered and free of repetitions.
  pub record_tid-IsTidList : IsTidList tids → tid ≢ 0 → IsTidList (record_tid tids tid)
  unfolding record_tid
  record_tid-IsTidList v nz = record {
    ordered = λ i j lt h taken.
        let s = slot in ground (arith, v.ordered i j lt h, s.stopped, s.passed i, s.passed j, s.to);
  }

  -- After a thread other than 0 is recorded it stands in one of the 16 slots, unless all of them
  -- were taken by other threads, and then nothing changes.
  pub record_tid-slot :
      tid ≢ 0
      → ((i : ℕ) × (i < tids_per_word_size) × (record_tid tids tid i ≡ tid))
        ⊎ (((i : ℕ) → i < tids_per_word_size → (tids i ≢ 0) × (tids i ≢ tid))
            × ((i : ℕ) → record_tid tids tid i ≡ tids i))
  unfolding record_tid
  record_tid-slot nz =
      let s = slot in
      let j = tid_slot tids tid tids_per_word_size 0 in
      elim (Bool-cases (ltb j tids_per_word_size)) [
        | inl room ↦ inl (j, ltb→lt _ _ room, ground (arith, s.stopped))
        | inr full ↦ inr (λ i h. s.passed i (omega arith) (ground arith), λ i. ground arith)
      ]

-- Thread 0, the main thread, is never recorded: its index is the mark of an empty slot.
pub record_tid_main : (tids : ℕ → ℕ) (i : ℕ) → record_tid tids 0 i ≡ tids i
unfolding record_tid
record_tid_main tids i = let s = slot tids 0 in ground (arith, s.stopped)
