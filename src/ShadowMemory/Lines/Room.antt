-- ===== src/ShadowMemory/Lines/Room.antt =====
-- The updates of the cache lines abort only when the cache map is used up: a call takes at most one
-- row for each line that it steps to, and one for its first line.
use mem_perf_pro.Base.{
  ℕ, zero, suc, ◌+◌, ◌-◌, ◌*◌, ◌/◌, ◌≤◌, ◌<◌, ◌≡◌, refl, leb, ltb, ◌==◌, arith, Bool-cases,
  Option-cases, inl, inr, leb→le,
}
use mem_perf_pro.Base.Run.{Run, done, abort, ◌>>=◌, Ensures, Returns}
use mem_perf_pro.ShadowMemory.CacheMap.{
  Shadow, max_cache_map_entries, do_cache_map_bump_pointer, get_cache_map_entry,
}
use mem_perf_pro.ShadowMemory.CacheMap.Mapped.{row_of}
use mem_perf_pro.ShadowMemory.Lines.{
  first_line_bytes, Cursor, LineStop, next_line, whole_lines, last_line,
}
use mem_perf_pro.ShadowMemory.Lines.Effect.{walk}

-- A call that takes at most `k` rows; it aborts only where `k` more rows reach the end of the map.
abbrev pub Takes {ℓ} : {A : Type ℓ} → ℕ → (A → Shadow) → Shadow → Run A → Type 0
Takes k shadow s abort = max_cache_map_entries ≤ s.cache_map_bump_ptr + k * 64
Takes k shadow s (done a) = (shadow a).cache_map_bump_ptr ≤ s.cache_map_bump_ptr + k * 64

Takes-bind {ℓ} :
    {A B : Type ℓ} (j k : ℕ) (f : A → Shadow) (g : B → Shadow) (s : Shadow) (call : Run A)
    (next : A → Run B)
    → Takes j f s call
    → ((a : A) → Takes k g (f a) (next a))
    → Takes (j + k) g s (call >>= next)
Takes-bind j k f g s abort next h n = omega arith
Takes-bind j k f g s (done a) next h n = later (next a) (n a)
  where
    later : (r : Run _) → Takes k g (f a) r → Takes (j + k) g s r
    later abort t = omega arith
    later (done b) t = omega arith

-- from a state with the same bump pointer, and with more rows
moved {ℓ} :
    {A : Type ℓ} (k k' : ℕ) (f : A → Shadow) (s s' : Shadow)
    → s'.cache_map_bump_ptr ≡ s.cache_map_bump_ptr
    → k ≤ k'
    → (r : Run A) → Takes k f s' r
    → Takes k' f s r
moved k k' f s s' e le abort t = omega arith
moved k k' f s s' e le (done a) t = omega arith

-- With room for the rows, a call returns what it ensures.
pub Takes-Returns {ℓ κ} :
    {A : Type ℓ} (k : ℕ) (f : A → Shadow) (s : Shadow) (P : A → Type κ) (r : Run A)
    → Takes k f s r
    → s.cache_map_bump_ptr + k * 64 < max_cache_map_entries
    → Ensures P r
    → Returns P r
Takes-Returns k f s P abort t room h = absurd (omega arith)
Takes-Returns k f s P (done a) t room h = (a, refl, h)

get_cache_map_entry-Takes :
    (s : Shadow) (r p : ℕ) → Takes 1 (λ t. t.0) s (get_cache_map_entry s r p)
unfolding get_cache_map_entry do_cache_map_bump_pointer
get_cache_map_entry-Takes s r p = elim (Option-cases (row_of s r p)) [
  | inr (row, e) ↦ rw (e, Takes) (omega arith)
  | inl e ↦ elim (Bool-cases (leb max_cache_map_entries (s.cache_map_bump_ptr + 64))) [
    | inl full ↦ rw (e, full, Takes, ◌>>=◌) (leb→le _ _ full)
    | inr room ↦ rw (e, room, Takes, ◌>>=◌) (omega arith)
  ]
]

next_line-Takes : (s : Shadow) (range : ℕ) (c : Cursor) → Takes 1 (λ t. t.0) s (next_line s range c)
unfolding next_line
next_line-Takes s range c = elim (Bool-cases (c.cache_index == 64)) [
  | inr same_page ↦ rw (same_page, Takes) (omega arith)
  | inl new_page ↦ rw new_page (
      Takes-bind 1 0 (λ t. t.0) (λ t. t.0) s _ _
        (get_cache_map_entry-Takes s range (c.target_page + 1)) λ a. omega arith)
]

module _ (body : Shadow → ℕ → Shadow) (finish : ℕ → Shadow → ℕ → Shadow)
    (same : (s : Shadow) (i : ℕ) → (body s i).cache_map_bump_ptr ≡ s.cache_map_bump_ptr)
    (same_end : (b : ℕ) (s : Shadow) (i : ℕ)
      → (finish b s i).cache_map_bump_ptr ≡ s.cache_map_bump_ptr)
    (range : ℕ) where
  whole_lines-Takes :
      (fuel : ℕ) (s : Shadow) (c : Cursor) (size : ℕ)
      → Takes (size / 64) (λ t. t.shadow) s (whole_lines body fuel s range c size)
  unfolding whole_lines
  whole_lines-Takes zero s c size = omega arith
  whole_lines-Takes (suc fuel) s c size = elim (Bool-cases (leb 64 size)) [
    | inr small ↦ rw (small, whole_lines, Takes) (omega arith)
    | inl more ↦
        let big : 64 ≤ size = leb→le _ _ more in
        let e : size / 64 ≡ 1 + (size - 64) / 64 = omega arith in
        rw (more, whole_lines, e)
          (Takes-bind 1 ((size - 64) / 64) (λ t. t.0) (λ t. t.shadow) s _ _
            (next_line-Takes s range c)
            λ (s', c').
              moved ((size - 64) / 64) ((size - 64) / 64) (λ t. t.shadow) s' (body s' c'.current)
                (same s' c'.current) (omega arith) _
                (whole_lines-Takes fuel (body s' c'.current) _ (size - 64)))
  ]

  last_line-Takes : (t : LineStop) → Takes 1 (λ s. s) t.shadow (last_line finish range t)
  unfolding last_line
  last_line-Takes t = elim (Bool-cases (ltb 0 t.size)) [
    | inr none_left ↦ rw (none_left, Takes) (omega arith)
    | inl more ↦ rw more (
        Takes-bind 1 0 (λ t. t.0) (λ s. s) t.shadow _ _ (next_line-Takes t.shadow range t.cursor)
          λ (s', c'). omega (arith, same_end t.size s' c'.current))
  ]

  pub walk-Takes :
      (s : Shadow) (page_index cache_index offset size : ℕ)
      → Takes
          (size / 64 + 2)
          (λ s. s)
          s
          (walk body finish s range page_index cache_index offset size)
  walk-Takes s page_index cache_index offset size =
      let bytes = first_line_bytes offset size in
      let lines = (size - bytes) / 64 in
      let e : size / 64 + 2 ≡ 1 + (size / 64 + 1) = omega arith in
      rw e (
        Takes-bind 1 (size / 64 + 1) (λ t. t.0) (λ t. t) s _ _
          (get_cache_map_entry-Takes s range page_index)
          λ (s', row).
            moved (lines + 1) (size / 64 + 1) (λ t. t) s' (finish bytes s' (row + cache_index))
              (same_end bytes s' (row + cache_index)) (omega arith) _
              (Takes-bind lines 1 (λ t. t.shadow) (λ t. t) (finish bytes s' (row + cache_index)) _ _
                (whole_lines-Takes size _ _ (size - bytes)) last_line-Takes))
