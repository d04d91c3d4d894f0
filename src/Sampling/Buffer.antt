-- ===== src/Sampling/Buffer.antt =====
-- src_light/memsample.c: where perf_mmap_read finds the bytes of the records.
use mem_perf_pro.Base.{
  ℕ, ◌+◌, ◌-◌, ◌%◌, ◌≤◌, ◌<◌, ◌≡◌, ap, ◌∙◌, arith, Bool-cases, inl, inr, ltb, ltb→lt,
}
use mem_perf_pro.Sampling.{PerfInfo, data_mapsize, memcpy, use_data}

memcpy_in :
    (dest src : ℕ → ℕ) (at start amount i : ℕ)
    → at ≤ i
    → i < at + amount
    → memcpy dest at src start amount i ≡ src (start + i - at)
unfolding memcpy
memcpy_in dest src at start amount i lo hi = ground arith

memcpy_below :
    (dest src : ℕ → ℕ) (at start amount i : ℕ) → i < at → memcpy dest at src start amount i ≡ dest i
unfolding memcpy
memcpy_below dest src at start amount i lo = ground arith

-- both parts of a copy that wraps around, `rest` bytes behind it
copied-ring :
    (p : PerfInfo) (rest i : ℕ)
    → rest ≤ data_mapsize
    → i < data_mapsize - p.prev_head % data_mapsize + rest
    → memcpy
        (memcpy p.data_buf_copy 0 p.ring
          (p.prev_head % data_mapsize)
          (data_mapsize - p.prev_head % data_mapsize))
        (data_mapsize - p.prev_head % data_mapsize)
        p.ring
        0
        rest
        i
      ≡ p.ring ((p.prev_head + i) % data_mapsize)
copied-ring p rest i room inside =
    elim (Bool-cases (ltb i (data_mapsize - p.prev_head % data_mapsize))) [
      | inl first ↦
          memcpy_below _ p.ring _ 0 rest i (ltb→lt _ _ first)
          ∙ memcpy_in p.data_buf_copy p.ring 0 (p.prev_head % data_mapsize)
              (data_mapsize - p.prev_head % data_mapsize) i (omega arith)
              (omega (arith, ltb→lt _ _ first))
          ∙ ap p.ring (ground arith)
      | inr second ↦ memcpy_in _ p.ring _ 0 rest i (ground arith) inside ∙ ap p.ring (ground arith)
    ]

-- Byte `i` behind the previous head is found at `i`, wherever it stands in the ring, when there are
-- at most DATA_MAPSIZE bytes.
pub use_data-ring :
    (p : PerfInfo) (size i : ℕ)
    → size ≤ data_mapsize
    → i < size
    → (use_data p size).1 i ≡ p.ring ((p.prev_head + i) % data_mapsize)
unfolding use_data
use_data-ring p size i room inside =
    elim (Bool-cases (ltb (data_mapsize - p.prev_head % data_mapsize) size)) [
      | inl wraps ↦ rw wraps (copied-ring p _ i (omega arith) (ground arith))
      | inr fits ↦ rw fits (ap p.ring (ground arith))
    ]
