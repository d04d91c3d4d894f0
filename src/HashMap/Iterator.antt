-- ===== src/HashMap/Iterator.antt =====
-- src_light/hashmap.hh: class iterator, begin and end.
pub mod Every
use mem_perf_pro.Base.{
  ℕ, zero, suc, ◌+◌, ◌-◌, Bool, true, false, ◌==◌, if◌then◌else◌, Option, none, some, List, [], ◌∷◌,
}
use mem_perf_pro.HashList.{is_list_tail}
use mem_perf_pro.HashMap.{HashMap, head_of}

-- `_entry`, which is NULL behind the last entry, and `_pos`
pub record Iterator : Type 0 where
  pub entry : Option ℕ
  pub pos : ℕ

abbrev pub end : Iterator
end = record { entry = none; pos = 0 }

-- `return end()` if there is no entry
abbrev pub from_first : Iterator → Iterator
from_first it = elim it.entry [ none ↦ end | some entry ↦ it ]

abbrev pub with_first {ℓ} : {A : Type ℓ} → A → Option (List A) → Option (List A)
with_first a none = none
with_first a (some rest) = some (a ∷ rest)

module _ {ℓ} {K V : Type ℓ} where
  -- The first entry of the first bucket from `pos` on whose count is not 0, with the buckets that are
  -- left.
  unfoldable pub bucket_from : HashMap K V → ℕ → ℕ → Iterator
  bucket_from m zero pos = record { entry = none; pos = pos }
  bucket_from m (suc left) pos =
      let rest = bucket_from m left (pos + 1) in
      if m.count pos == 0
      then rest
      else record { entry = some (m.links.next (head_of m pos)); pos = pos }

  unfoldable pub begin : HashMap K V → Iterator
  unfolding bucket_from
  begin m = from_first (bucket_from m m.buckets_total 0)

  -- operator++ of the iterator at an entry of the bucket `pos`
  unfoldable pub advance : HashMap K V → ℕ → ℕ → Iterator
  unfolding bucket_from is_list_tail
  advance m pos entry =
      if is_list_tail m.links (head_of m pos) entry
      then bucket_from m (m.buckets_total - (pos + 1)) (pos + 1)
      else record { entry = some (m.links.next entry); pos = pos }

  -- `for(auto entry: map)`: the entries that the body is run for, unless the fuel runs out
  unfoldable pub entries_from : ℕ → HashMap K V → Iterator → Option (List ℕ)
  unfolding advance
  entries_from zero m it = none
  entries_from (suc fuel) m it = elim it.entry [
    | none ↦ some []
    | some entry ↦ with_first entry (entries_from fuel m (advance m it.pos entry))
  ]
