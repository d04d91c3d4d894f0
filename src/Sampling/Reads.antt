-- ===== src/Sampling/Reads.antt =====
-- src_light/memsample.c: what a read of the ring buffer counts.
use mem_perf_pro.Base.{
  ℕ, zero, suc, ◌+◌, ◌%◌, ◌≤◌, ◌<◌, ◌≡◌, refl, ap, ◌∙◌, some, List, [], ◌∷◌, length, length-append,
  get_or, arith, lt→ltb, le→ltb, add_64, sub_64,
}
use mem_perf_pro.Base.Run.{done}
use mem_perf_pro.Sampling.{
  data_mapsize, ControlPage, PerfInfo, use_data, Counted, read_events, do_access, read_size,
  read_ring, perf_mmap_read,
}
use mem_perf_pro.Sampling.Buffer.{use_data-ring}
use mem_perf_pro.Sampling.Encoding.{
  Event, encode, encode_all, AllFit, StandsAt, StandsAt-split, StandsAt-get_or, access_of,
  read_event-encode, encode_pos,
}

-- the accesses that the records stand for, one after the other
abbrev pub do_accesses : ℕ → List Event → Counted → Counted
do_accesses tid [] c = c
do_accesses tid (e ∷ es) c = do_accesses tid es (do_access tid (access_of e) c)

-- The records from an offset to the end of the bytes are read one after the other, in a round for
-- each and one to see the end.
read_events-encode_all :
    (fuel tid : ℕ) (bytes : ℕ → ℕ) (size offset : ℕ) (es : List Event) (c : Counted)
    → AllFit es
    → StandsAt bytes offset (encode_all es)
    → offset + length (encode_all es) ≡ size
    → size ≤ data_mapsize
    → length (encode_all es) < fuel
    → read_events fuel tid bytes size offset c ≡ some (do_accesses tid es c)
unfolding read_events
read_events-encode_all zero tid bytes size offset es c fit s end room enough = absurd (omega arith)
read_events-encode_all (suc fuel) tid bytes size offset [] c fit s end room enough =
    rw (le→ltb offset size (omega arith)) refl
read_events-encode_all (suc fuel) tid bytes size offset (e ∷ es) c fit s end room enough =
    let here = length-append (encode e) (encode_all es) in
    let (front, back) =
      StandsAt-split bytes offset (offset + length (encode e)) (encode e) (encode_all es) refl s in
    let decoded = read_event-encode bytes offset e fit.0 front in
    rw
      (
        lt→ltb offset size (omega (arith, here, encode_pos e)),
        decoded.size,
        decoded.access,
        (let next : add_64 offset (length (encode e)) ≡ offset + length (encode e) =
              omega (arith, here) in
            next),
      )
      (read_events-encode_all fuel tid bytes size (offset + length (encode e)) es
        (do_access tid (access_of e) c) fit.1 back (omega (arith, here)) room
        (omega (arith, here, encode_pos e)))

-- The kernel has written these records behind the previous head, and moved the head behind them.
pub record Written (p : PerfInfo) (page : ControlPage) (es : List Event) : Type 0 where
  pub mapped : p.ring_buf ≡ some page
  pub fit : AllFit es
  pub head : page.data_head ≡ p.prev_head + length (encode_all es)
  pub word : page.data_head < 0x1_0000_0000_0000_0000
  pub room : length (encode_all es) ≤ data_mapsize
  pub bytes :
      (i : ℕ)
      → i < length (encode_all es)
      → p.ring ((p.prev_head + i) % data_mapsize) ≡ get_or (encode_all es) i 0

-- What a read of these records does: the accesses are made in their order, the kernel is told the
-- head, and it is returned.
pub record Reads (tid : ℕ) (p : PerfInfo) (page : ControlPage) (es : List Event) (c : Counted)
    : Type 0 where
  pub p' : PerfInfo
  pub returns :
      perf_mmap_read (suc (length (encode_all es))) tid p c
      ≡ done (some (p', do_accesses tid es c, page.data_head))
  pub told : p'.ring_buf ≡ some (record page { data_tail = page.data_head })
  pub same_ring : p'.ring ≡ p.ring

use_data-same_ring : (p : PerfInfo) (size : ℕ) → (use_data p size).0.ring ≡ p.ring
unfolding use_data
use_data-same_ring p size = ground arith

use_data-StandsAt :
    (p : PerfInfo) (page : ControlPage) (es : List Event)
    → Written p page es
    → StandsAt (use_data p (length (encode_all es))).1 0 (encode_all es)
use_data-StandsAt p page es w =
    StandsAt-get_or (use_data p (length (encode_all es))).1 0 (encode_all es) λ i below.
      ap (use_data p (length (encode_all es))).1 (omega arith)
      ∙ use_data-ring p (length (encode_all es)) i w.room below
      ∙ w.bytes i below

-- the state behind the read
abbrev after_read : PerfInfo → ControlPage → ℕ → PerfInfo
after_read p page size = record (use_data p size).0 {
  ring_buf = some (record page { data_tail = page.data_head });
}

read_size_lem :
    (tid : ℕ) (p : PerfInfo) (page : ControlPage) (es : List Event) (c : Counted)
    → Written p page es
    → read_size (suc (length (encode_all es))) tid p page (length (encode_all es)) c
      ≡ some (after_read p page (length (encode_all es)), do_accesses tid es c, page.data_head)
unfolding read_size
read_size_lem tid p page es c w =
    let n = length (encode_all es) in
    rw
      (
        read_events-encode_all (suc n) tid (use_data p n).1 n 0 es c w.fit
            (use_data-StandsAt p page es w) (omega arith) w.room (omega arith),
        read_size,
      )
      refl

read_ring_lem :
    (tid : ℕ) (p : PerfInfo) (page : ControlPage) (es : List Event) (c : Counted)
    → Written p page es
    → read_ring (suc (length (encode_all es))) tid p c (some page)
      ≡ done
          (some (after_read p page (length (encode_all es)), do_accesses tid es c, page.data_head))
unfolding read_ring
read_ring_lem tid p page es c w =
    let size : sub_64 page.data_head p.prev_head ≡ length (encode_all es) =
      omega (arith, w.head, w.word) in
    rw (le→ltb page.data_head p.prev_head (omega (arith, w.head)), size)
      (ap (λ r. done r) (read_size_lem tid p page es c w))

-- perf_mmap_read makes the accesses of the samples that the kernel has written since the previous
-- read, each once and in their order, and tells the kernel the head, when there are at most
-- DATA_MAPSIZE bytes of them and the fields of the records fit; a round for every byte and one more
-- are enough.
pub perf_mmap_read-Reads :
    (tid : ℕ) (p : PerfInfo) (page : ControlPage) (es : List Event) (c : Counted)
    → Written p page es
    → Reads tid p page es c
unfolding perf_mmap_read
perf_mmap_read-Reads tid p page es c w = record {
  p' = after_read p page (length (encode_all es));
  returns =
      ap (read_ring (suc (length (encode_all es))) tid p c) w.mapped
      ∙ read_ring_lem tid p page es c w;
  told = refl;
  same_ring = use_data-same_ring p (length (encode_all es));
}
