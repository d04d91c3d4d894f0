-- ===== src/ShadowMemory/Lines/Effect.antt =====
-- Both updates as one walk, and its effect on each line: what an object has on it.
use mem_perf_pro.Base.{
  ℕ, ◌+◌, ◌-◌, ◌*◌, ◌/◌, ◌<◌, ◌≡◌, refl, ap, ◌∙◌, ltb, ◌==◌, ◌&&◌, if◌then◌else◌, arith, Bool-cases,
  inl, inr,
}
use mem_perf_pro.Base.Run.{Run, ◌>>=◌, Ensures, Ensures-bind, Ensures-weaken}
use mem_perf_pro.ShadowMemory.CacheMap.{Shadow, get_cache_map_entry}
use mem_perf_pro.ShadowMemory.CacheMap.Mapped.{used, IsMapped, Got, get_cache_map_entry-Got, Writes}
use mem_perf_pro.ShadowMemory.Extents.{overlap}
use mem_perf_pro.ShadowMemory.Lines.{Cursor, LineStop, whole_lines, last_line, first_line_bytes}
use mem_perf_pro.ShadowMemory.Lines.Walk.{
  SamePages, IsAt, IsOn, Next, next_line-Next, IsOn-used, Lined, whole_lines-Lined,
}

abbrev pub line_overlap : ℕ → ℕ → ℕ → ℕ
line_overlap start size l = overlap start size (l * 64) ((l + 1) * 64)

-- On a line behind the first that the object covers whole, `whole`; on any other, `end` with the overlap.
abbrev pub line_effect : (ℕ → ℕ) → (ℕ → ℕ → ℕ) → ℕ → ℕ → ℕ → ℕ → ℕ
line_effect whole part start size l u =
    if ltb start (l * 64) && line_overlap start size l == 64
    then whole u
    else part (line_overlap start size l) u

-- the same, for every line of every range
abbrev pub object_effect : (ℕ → ℕ) → (ℕ → ℕ → ℕ) → ℕ → ℕ → ℕ → ℕ → ℕ → ℕ → ℕ
object_effect whole part range start size r l u =
    if r == range then line_effect whole part start size l u else u

abbrev last_effect : (ℕ → ℕ → ℕ) → ℕ → ℕ → ℕ → ℕ → ℕ → ℕ → ℕ
last_effect part range size l r' l' u =
    if ltb 0 size && (r' == range && l' == l + 1) then part size u else u

abbrev pub walk :
    (Shadow → ℕ → Shadow) → (ℕ → Shadow → ℕ → Shadow) → Shadow → ℕ → ℕ → ℕ → ℕ → ℕ → Run Shadow
walk body finish s range page_index cache_index offset size = do
  (s', row) ← get_cache_map_entry s range page_index
  let bytes = first_line_bytes offset size
  let c : Cursor = record {
    target_page = page_index;
    current = row + cache_index;
    cache_index = cache_index + 1;
  }
  t ← whole_lines body size (finish bytes s' (row + cache_index)) range c (size - bytes)
  last_line finish range t

pub record Effect (s : Shadow) (f : ℕ → ℕ → ℕ → ℕ) (s' : Shadow) : Type 0 where
  pub mapped : IsMapped s'
  pub pages : SamePages s s'
  pub bytes : (r l : ℕ) → used s' r l ≡ f r l (used s r l)

module _ (whole : ℕ → ℕ) (part : ℕ → ℕ → ℕ) (body : Shadow → ℕ → Shadow)
    (finish : ℕ → Shadow → ℕ → Shadow) (act : (s : Shadow) (i : ℕ) → Writes whole s i (body s i))
    (act_end : (b : ℕ) (s : Shadow) (i : ℕ) → Writes (part b) s i (finish b s i)) (range : ℕ) where
  last_line-used :
      (t : LineStop) (l : ℕ)
      → IsMapped t.shadow
      → IsAt t.shadow range t.cursor l
      → Ensures (Effect t.shadow (last_effect part range t.size l)) (last_line finish range t)
  unfolding last_line
  last_line-used t l m a = elim (Bool-cases (ltb 0 t.size)) [
    | inr none_left ↦
        rw (none_left, Ensures)
          (record { mapped = m; pages = λ r' p'. refl; bytes = λ r' l'. ground arith })
    | inl more ↦ rw more (
        Ensures-bind (Next t.shadow range l) _ _ _ (next_line-Next t.shadow range t.cursor l m a)
          λ (s', c') n.
            let (m'', u, _) =
              IsOn-used (part t.size) s' (finish t.size s' c'.current) range c' (l + 1) n.mapped
                n.on (act_end t.size s' c'.current) in
            record {
              mapped = m'';
              pages = λ r' p'.
                  ap (λ e. e.num_used_bytes) ((act_end t.size s' c'.current).pages r' p')
                  ∙ n.pages r' p';
              bytes = λ r' l'. ground (arith, u r' l', n.same r' l');
            })
  ]

  -- The line `page_index * 64 + cache_index` holds the first byte, at `offset`.
  pub walk-Effect :
      (s : Shadow) (page_index cache_index offset size : ℕ)
      → IsMapped s
      → cache_index < 64
      → offset < 64
      → ((r l : ℕ) → part 0 (used s r l) ≡ used s r l)
      → Ensures
          (Effect s
            (object_effect whole part range ((page_index * 64 + cache_index) * 64 + offset) size))
          (walk body finish s range page_index cache_index offset size)
  unfolding overlap
  walk-Effect s page_index cache_index offset size m ci off none =
      let bytes = first_line_bytes offset size in
      let first = page_index * 64 + cache_index in
      Ensures-bind (Got s range page_index) _ _ _ (get_cache_map_entry-Got s range page_index m)
        λ (s', row) g.
          let s'' = finish bytes s' (row + cache_index) in
          let c : Cursor = record {
            target_page = page_index;
            current = row + cache_index;
            cache_index = cache_index;
          } in
          let on : IsOn s' range c first = record {
            place = refl;
            to = ci;
            row = let e : row + cache_index - cache_index ≡ row = omega arith in rw e g.row;
            inside = omega arith;
          } in
          let (m'', u, a) =
            IsOn-used (part bytes) s' s'' range c first g.mapped on
              (act_end bytes s' (row + cache_index)) in
          Ensures-bind (Lined whole s'' range first (size - bytes)) _ _ _
            (whole_lines-Lined whole body act range size s'' _ first (size - bytes) m'' a
              (omega arith))
            λ t w.
              Ensures-weaken
                (Effect t.shadow (last_effect part range t.size (first + (size - bytes) / 64)))
                (Effect s (object_effect whole part range (first * 64 + offset) size)) _
                (λ e x. record {
                  mapped = x.mapped;
                  pages = λ r p.
                      x.pages r p
                      ∙ w.pages r p
                      ∙ ap (λ e. e.num_used_bytes)
                          ((act_end bytes s' (row + cache_index)).pages r p)
                      ∙ g.pages r p;
                  bytes = λ r l.
                      ground (arith, x.bytes r l, w.bytes r l, w.left, u r l, g.same r l, none r l);
                })
                (last_line-used t (first + (size - bytes) / 64) w.mapped w.at)
