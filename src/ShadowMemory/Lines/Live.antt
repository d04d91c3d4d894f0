-- ===== src/ShadowMemory/Lines/Live.antt =====
-- The cache map against the objects in use: each line counts the bytes that the live objects hold
-- on it, as for the pages.
use mem_perf_pro.Base.{
  ℕ, ◌+◌, ◌*◌, ◌%◌, ◌/◌, ◌<◌, ◌≡◌, refl, some, add_8, sub_8, arith, List, ◌∷◌, ◌++◌,
}
use mem_perf_pro.Base.Run.{Ensures, Ensures-weaken}
use mem_perf_pro.ShadowMemory.CacheMap.{Shadow, at_line}
use mem_perf_pro.ShadowMemory.CacheMap.Mapped.{row_of, used, IsMapped, Writes}
use mem_perf_pro.ShadowMemory.CacheMapEntry.{
  CacheMapEntry, add_used_bytes, sub_used_bytes, set_full, set_empty, get_used_bytes,
}
use mem_perf_pro.ShadowMemory.Extents.{
  Extent, weight, total, AllApart, PairwiseApart, total_middle, total_filled, total-le,
}
use mem_perf_pro.ShadowMemory.Lines.{
  ObjStat, malloc_update_cache_lines, free_update_cache_lines, add_at, check_conflict,
  check_sharing, free_end, free_whole,
}
use mem_perf_pro.ShadowMemory.Lines.Walk.{SamePages}
use mem_perf_pro.ShadowMemory.Lines.Effect.{object_effect, Effect, walk-Effect}

-- the object whose first byte stands at `offset` in line `cache_index` of the page
abbrev pub line_extent : ℕ → ℕ → ℕ → ℕ → ℕ → Extent
line_extent range page_index cache_index offset size = record {
  range = range;
  start = (page_index * 64 + cache_index) * 64 + offset;
  size = size;
}

abbrev pub line_total : List Extent → ℕ → ℕ → ℕ
line_total live r l = total live r (l * 64) ((l + 1) * 64)

abbrev line_weight : Extent → ℕ → ℕ → ℕ
line_weight o r l = weight o r (l * 64) ((l + 1) * 64)

-- The rows are in order and every line counts the live bytes on it.
pub record LineAccounts (live : List Extent) (s : Shadow) : Type 0 where
  pub mapped : IsMapped s
  pub counts : (r l : ℕ) → used s r l ≡ line_total live r l % 0x100

-- The account of `live` holds after the call, which leaves the counts of the pages alone.
abbrev pub Moved : Shadow → List Extent → Shadow → Type 0
Moved s live s' = LineAccounts live s' × SamePages s s'

line_filled :
    (o : Extent) (ps : List Extent) (r l : ℕ)
    → AllApart o ps
    → line_weight o r l ≡ 64
    → line_total ps r l ≡ 0
line_filled o ps r l a h = total_filled o ps r _ _ (omega arith) a (omega arith)

pub at_line-Writes :
    (f : CacheMapEntry → CacheMapEntry) (g : ℕ → ℕ)
    → ((e : CacheMapEntry) → (f e).num_used_bytes ≡ g e.num_used_bytes)
    → (s : Shadow) (i : ℕ) → Writes g s i (at_line f s i)
unfolding at_line
at_line-Writes f g h s i = record {
  pages = λ r p. refl;
  bump = refl;
  bytes = λ j. ground (arith, h (s.cache_map i));
}

pub free_end-Writes :
    (o : ObjStat) (b : ℕ) (s : Shadow) (i : ℕ) → Writes (λ u. sub_8 u b) s i (free_end o b s i)
unfolding free_end check_conflict check_sharing at_line sub_used_bytes
free_end-Writes o b s i = record {
  pages = λ r p. ground arith;
  bump = ground arith;
  bytes = λ j. ground arith;
}

pub free_whole-Writes : (o : ObjStat) (s : Shadow) (i : ℕ) → Writes (λ _. 0) s i (free_whole o s i)
unfolding free_whole check_conflict at_line set_empty
free_whole-Writes o s i = record {
  pages = λ r p. ground arith;
  bump = ground arith;
  bytes = λ j. ground arith;
}

module _ (o : Extent) (others r l u : ℕ) where
  added :
      u ≡ others % 0x100
      → (line_weight o r l ≡ 64 → others ≡ 0)
      → object_effect (λ _. 64) (λ b v. add_8 v b) o.range o.start o.size r l u
        ≡ (line_weight o r l + others) % 0x100
  unfolding weight
  added h z = ground arith

  taken :
      u ≡ (line_weight o r l + others) % 0x100
      → (line_weight o r l ≡ 64 → others ≡ 0)
      → object_effect (λ _. 0) (λ b v. sub_8 v b) o.range o.start o.size r l u ≡ others % 0x100
  unfolding weight
  taken h z = ground arith

module _ {s : Shadow} (range page_index cache_index offset : ℕ) (ci : cache_index < 64)
    (off : offset < 64) where
  -- mallocUpdateCacheLines, when it does not abort, keeps the account of the cache lines: for a new
  -- object that is apart from the live ones, each line then counts the bytes of the live objects and
  -- of the new one, modulo 2 ^ 8, and the counts of the pages stay.
  pub malloc_update_cache_lines-LineAccounts :
      (size : ℕ) (live : List Extent)
      → LineAccounts live s
      → AllApart (line_extent range page_index cache_index offset size) live
      → Ensures
          (Moved s (line_extent range page_index cache_index offset size ∷ live))
          (malloc_update_cache_lines s range page_index cache_index offset size)
  unfolding malloc_update_cache_lines total add_used_bytes set_full
  malloc_update_cache_lines-LineAccounts size live acc apart =
      let o = line_extent range page_index cache_index offset size in
      Ensures-weaken (Effect s (object_effect (λ _. 64) (λ b v. add_8 v b) range o.start size))
        (Moved s (o ∷ live)) _
        (λ s' e. (
          record {
            mapped = e.mapped;
            counts = λ r l. rw (e.bytes r l) (
                added o (line_total live r l) r l (used s r l) (acc.counts r l)
                  (line_filled o live r l apart));
          },
          e.pages,
        ))
        (walk-Effect (λ _. 64) (λ b v. add_8 v b) (at_line set_full) add_at
          (at_line-Writes set_full (λ _. 64) (λ e. refl))
          (λ b. at_line-Writes (λ e. add_used_bytes e b) (λ v. add_8 v b) (λ e. refl)) range s
          page_index cache_index offset size acc.mapped ci off
          (λ r l. omega (arith, acc.counts r l)))

  -- freeUpdateCacheLines, when it does not abort, keeps the account of the cache lines: when a live
  -- object that is apart from the others goes, each line counts the bytes of the others, modulo
  -- 2 ^ 8, and the counts of the pages stay.
  pub free_update_cache_lines-LineAccounts :
      (o : ObjStat) (before after : List Extent)
      → LineAccounts (before ++ line_extent range page_index cache_index offset o.size ∷ after) s
      → AllApart (line_extent range page_index cache_index offset o.size) (before ++ after)
      → Ensures
          (Moved s (before ++ after))
          (free_update_cache_lines s range page_index cache_index offset o)
  unfolding free_update_cache_lines
  free_update_cache_lines-LineAccounts o before after acc apart =
      let x = line_extent range page_index cache_index offset o.size in
      Ensures-weaken (Effect s (object_effect (λ _. 0) (λ b v. sub_8 v b) range x.start o.size))
        (Moved s (before ++ after)) _
        (λ s' e. (
          record {
            mapped = e.mapped;
            counts = λ r l. rw (e.bytes r l) (
                taken x (line_total (before ++ after) r l) r l (used s r l)
                  (rw total_middle at (acc.counts r l))
                  (line_filled x (before ++ after) r l apart));
          },
          e.pages,
        ))
        (walk-Effect (λ _. 0) (λ b v. sub_8 v b) (free_whole o) (free_end o) (free_whole-Writes o)
          (free_end-Writes o) range s page_index cache_index offset o.size acc.mapped ci off
          (λ r l. omega (arith, acc.counts r l)))

-- While the cache map accounts for live objects that are pairwise apart, getUsedBytes of a line is
-- the number of live bytes on it: no count overflows the 8 bits or is clamped.
pub get_used_bytes-line_total :
    (live : List Extent) (s : Shadow) (r l row : ℕ)
    → LineAccounts live s
    → PairwiseApart live
    → row_of s r (l / 64) ≡ some row
    → get_used_bytes (s.cache_map (row + l % 64)) ≡ line_total live r l
unfolding get_used_bytes used
get_used_bytes-line_total live s r l row acc a e =
    ground (arith, acc.counts r l, total-le live r (l * 64) ((l + 1) * 64) a)
