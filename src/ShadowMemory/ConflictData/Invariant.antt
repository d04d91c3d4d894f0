-- ===== src/ShadowMemory/ConflictData/Invariant.antt =====
-- Every line that bears the conflict mark is registered, so the search of checkObj always hits.
use mem_perf_pro.Base.{
  ℕ, suc, ◌%◌, ◌≤◌, ◌<◌, ◌≡◌, ap, ◌∙◌, true, arith, add_8, ◌==◌, if◌then◌else◌, update, find_from,
  find_from-hit, not, ◌&&◌, Bool-cases, inl, inr,
}
use mem_perf_pro.Base.Counts.{count_true, count_true-same}
use mem_perf_pro.ShadowMemory.CacheMapEntry.{has_conflict, has_coherency, mark_conflict}
use mem_perf_pro.ShadowMemory.ConflictData.{
  ConflictData, max_cme, max_cme_per_set, set_id, is_hot, has_room, count_miss, register, add_miss,
  add_call_key, check_obj,
}

-- `misses` is the array of the `misses` bytes of the cache map.
pub record IsValid (d : ConflictData) (misses : ℕ → ℕ) : Type 0 where
  pub few : d.num_of_cme ≤ max_cme
  pub few_per_set : (s : ℕ) → d.num_of_cme_per_set s ≤ max_cme_per_set
  pub counted :
      (s : ℕ) → d.num_of_cme_per_set s ≡ count_true (λ i. d.set_of_cme i == s) d.num_of_cme
  pub sets : (i : ℕ) → i < d.num_of_cme → d.set_of_cme i ≡ d.cme i % 64
  pub registered :
      (line : ℕ)
      → has_conflict (misses line) ≡ true
      → (i : ℕ) × (i < d.num_of_cme) × (d.cme i ≡ line)

has_conflict-mark : (m : ℕ) → has_conflict (mark_conflict m) ≡ true
unfolding mark_conflict has_conflict
has_conflict-mark m = ground arith

-- The cell behind the first ones does not count among them.
registered_others :
    (sets : ℕ → ℕ) (n s t : ℕ)
    → count_true (λ i. update sets n s i == t) n ≡ count_true (λ i. sets i == t) n
registered_others sets n s t =
    count_true-same (λ i. update sets n s i == t) (λ i. sets i == t) n λ i below. ground arith

module _ (d : ConflictData) (misses : ℕ → ℕ) (s line : ℕ) where
  register-IsValid :
      IsValid d misses
      → line % 64 ≡ s
      → d.num_of_cme < max_cme
      → d.num_of_cme_per_set s < max_cme_per_set
      → IsValid (register d s line) (update misses line (mark_conflict (misses line)))
  unfolding register count_true
  register-IsValid v e room room_in_set = record {
    few = ground (arith, v.few);
    few_per_set = λ t. ground (arith, v.few_per_set t);
    counted = λ t.
        let n = d.num_of_cme in
        let one_more : add_8 n 1 ≡ suc n = omega (arith, room) in
        rw one_more (
          ground (
            arith,
            v.counted t,
            v.few_per_set s,
            room_in_set,
            registered_others d.set_of_cme n s t,
          ));
    sets = λ i h. ground (arith, v.sets i);
    registered = λ l h. elim (Bool-cases (l == line)) [
      | inl same ↦ (d.num_of_cme, ground arith, ground arith)
      | inr other ↦
          let (i, lt, at) = v.registered l (rw other at h) in (i, ground arith, ground arith)
    ];
  }

  -- nothing but the counters changes
  count_miss-IsValid : IsValid d misses → IsValid (count_miss d s) misses
  unfolding count_miss
  count_miss-IsValid v = record {
    few = v.few;
    few_per_set = v.few_per_set;
    counted = v.counted;
    sets = v.sets;
    registered = v.registered;
  }

  same-IsValid : IsValid d misses → IsValid d (update misses line (misses line))
  same-IsValid v = record {
    few = v.few;
    few_per_set = v.few_per_set;
    counted = v.counted;
    sets = v.sets;
    registered = λ l h. v.registered l (ground arith);
  }

-- What addMiss does, by cases: it only counts, or there is room and it also registers the line.
data Outcome (d : ConflictData) (s line m : ℕ) : ConflictData × ℕ → Type 0 where
  counted : Outcome d s line m (d, m)
  added :
      d.num_of_cme < max_cme
      → d.num_of_cme_per_set s < max_cme_per_set
      → Outcome d s line m (register d s line, mark_conflict m)

add_miss-Outcome :
    (d : ConflictData) (addr line m : ℕ)
    → Outcome (count_miss d (set_id addr)) (set_id addr) line m (add_miss d addr line m)
unfolding add_miss
add_miss-Outcome d addr line m =
    let s = set_id addr in
    let d' = count_miss d s in
    elim (Bool-cases (is_hot d' s && (not (has_conflict m) && not (has_coherency m)))) [
      | inr cold ↦ rw cold counted
      | inl hot ↦ rw hot (elim (Bool-cases (has_room d' s m)) [
        | inr full ↦ rw full counted
        | inl room ↦ rw room (added (ground arith) (ground arith))
      ])
    ]

Outcome-IsValid :
    (d : ConflictData) (misses : ℕ → ℕ) (s line : ℕ) {r : ConflictData × ℕ}
    → IsValid d misses
    → line % 64 ≡ s
    → Outcome d s line (misses line) r
    → IsValid r.0 (update misses line r.1)
Outcome-IsValid d misses s line v e counted = same-IsValid d misses s line v
Outcome-IsValid d misses s line v e (added room room_in_set) =
    register-IsValid d misses s line v e room room_in_set

module _ (d : ConflictData) (misses : ℕ → ℕ) where
  -- addMiss keeps the invariant, for an address that lies in the line of the cache map: at most
  -- 128 lines are registered, each under its own set; the counter of a set is the number of lines
  -- registered under it, and at most 16; and every line that bears the conflict mark is registered.
  pub add_miss-IsValid :
      (addr line : ℕ)
      → IsValid d misses
      → line % 64 ≡ set_id addr
      → IsValid
          (add_miss d addr line (misses line)).0
          (update misses line (add_miss d addr line (misses line)).1)
  add_miss-IsValid addr line v e =
      let s = set_id addr in
      Outcome-IsValid (count_miss d s) misses s line (count_miss-IsValid d misses s line v) e
        (add_miss-Outcome d addr line (misses line))

  -- The search of checkObj for a marked line stops inside the registered lines, at the line.
  find-registered :
      (line : ℕ)
      → IsValid d misses
      → has_conflict (misses line) ≡ true
      → (d.cme (find_from d.cme line d.num_of_cme 0) ≡ line)
        × (find_from d.cme line d.num_of_cme 0 < d.num_of_cme)
  find-registered line v h =
      let (i, lt, at) = v.registered line h in
      let hit = find_from-hit d.cme line d.num_of_cme 0 i (omega arith) (omega arith) at in
      (hit.0, omega (arith, hit.1))

  -- checkObj of a line that bears the conflict mark counts one object in the set of the line, adds
  -- the call site there, and changes no other set; the invariant is kept.
  pub check_obj-set :
      (line call_key : ℕ)
      → IsValid d misses
      → has_conflict (misses line) ≡ true
      → ((s : ℕ)
          → (check_obj d line call_key).obj_num_per_set s
            ≡ (if s == line % 64 then add_8 (d.obj_num_per_set s) 1 else d.obj_num_per_set s))
        × ((s : ℕ)
            → (check_obj d line call_key).call_key_per_set s ≡ (
                if s == line % 64
                then add_call_key (d.call_key_per_set s) call_key
                else d.call_key_per_set s))
        × IsValid (check_obj d line call_key) misses
  unfolding check_obj
  check_obj-set line call_key v h =
      let (at, lt) = find-registered line v h in
      let e : d.set_of_cme (find_from d.cme line d.num_of_cme 0) ≡ line % 64 =
        v.sets _ lt ∙ ap (λ l. l % 64) at in
      (
        λ s. rw e (ground arith),
        λ s. rw e (ground arith),
        record {
          few = v.few;
          few_per_set = v.few_per_set;
          counted = v.counted;
          sets = v.sets;
          registered = v.registered;
        },
      )
