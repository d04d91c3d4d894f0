-- ===== src/Sampling/Records.antt =====
-- src_light/memsample.c: when the loop over the records ends.
use mem_perf_pro.Base.{
  ℕ, zero, suc, ◌+◌, ◌-◌, ◌≤◌, ◌<◌, ◌≡◌, refl, some, arith, ◌↔◌, subst, inl, inr, Bool-cases, ltb,
  ltb→lt, le→ltb, add_64, ◌==◌, ==→eq,
}
use mem_perf_pro.Sampling.{
  data_mapsize, load, Counted, event_size, read_event, read_events, do_access,
}

-- The records from an offset on, one behind the other up to the size, none of them empty.
pub data Framed (bytes : ℕ → ℕ) (size : ℕ) : ℕ → Type 0 where
  finished : {offset : ℕ} → size ≤ offset → Framed bytes size offset
  record_at :
      {offset : ℕ}
      → 1 ≤ event_size bytes offset
      → Framed bytes size (add_64 offset (event_size bytes offset))
      → Framed bytes size offset

event_size_bound :
    (bytes : ℕ → ℕ) (offset : ℕ) → ((i : ℕ) → bytes i < 256) → event_size bytes offset < 0x1_0000
unfolding event_size load
event_size_bound bytes offset small =
    omega (arith, small (offset + 6), small (offset + 6 + 1), small (offset + 6 + 1 + 1))

-- It ends if no record that it meets is empty, in at most as many rounds as there are bytes.
Framed-read_events :
    (fuel tid : ℕ) (bytes : ℕ → ℕ) (size offset : ℕ) (c : Counted)
    → size ≤ data_mapsize
    → ((i : ℕ) → bytes i < 256)
    → size - offset < fuel
    → Framed bytes size offset
    → (c' : Counted) × (read_events fuel tid bytes size offset c ≡ some c')
unfolding read_events
Framed-read_events zero tid bytes size offset c room small enough f = absurd (omega arith)
Framed-read_events (suc fuel) tid bytes size offset c room small enough (finished done) =
    (c, rw (le→ltb _ _ done) refl)
Framed-read_events (suc fuel) tid bytes size offset c room small enough (record_at nonempty rest) =
    elim (Bool-cases (ltb offset size)) [
      | inl more ↦ rw more (
          Framed-read_events fuel tid bytes size (add_64 offset (event_size bytes offset)) _ room
            small (omega (arith, ltb→lt _ _ more, event_size_bound bytes offset small)) rest)
      | inr end ↦ (c, rw end refl)
    ]

-- If it ends, no record that it met was empty.
read_events-Framed :
    (fuel tid : ℕ) (bytes : ℕ → ℕ) (size offset : ℕ) (c c' : Counted)
    → size ≤ data_mapsize
    → read_events fuel tid bytes size offset c ≡ some c'
    → Framed bytes size offset
unfolding read_events
read_events-Framed zero tid bytes size offset c c' room e = absurd cc
read_events-Framed (suc fuel) tid bytes size offset c c' room e =
    elim (Bool-cases (ltb offset size)) [
      | inr end ↦ finished (ground arith)
      | inl more ↦
          let rest =
            read_events-Framed fuel tid bytes size (add_64 offset (event_size bytes offset))
              (do_access tid (read_event bytes offset) c) c' room (rw more at e) in
          elim (Bool-cases (event_size bytes offset == 0)) [
            | inl empty ↦
                subst (Framed bytes size) (omega (arith, ==→eq _ _ empty, ltb→lt _ _ more)) rest
            | inr nonempty ↦ record_at (ground arith) rest
          ]
    ]

-- The loop over the records of at most DATA_MAPSIZE bytes, each below 256, ends exactly if no
-- record that it meets is empty.
pub read_events-ends :
    (tid : ℕ) (bytes : ℕ → ℕ) (size : ℕ) (c : Counted)
    → size ≤ data_mapsize
    → ((i : ℕ) → bytes i < 256)
    → ((fuel : ℕ) × (c' : Counted) × (read_events fuel tid bytes size 0 c ≡ some c'))
      ↔ Framed bytes size 0
read_events-ends tid bytes size c room small = (
  λ r. read_events-Framed r.0 tid bytes size 0 c r.1 room r.2,
  λ f.
      let (c', e) = Framed-read_events (suc size) tid bytes size 0 c room small (omega arith) f in
      (suc size, c', e),
)
