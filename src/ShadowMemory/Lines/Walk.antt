-- ===== src/ShadowMemory/Lines/Walk.antt =====
-- What the two walks do to the used bytes of each line.
use mem_perf_pro.Base.{
  ℕ, zero, suc, ◌+◌, ◌-◌, ◌*◌, ◌%◌, ◌/◌, ◌≤◌, ◌<◌, ◌≡◌, refl, ap, ◌∙◌, some, leb, ltb, ◌==◌, ◌&&◌,
  if◌then◌else◌, arith, Bool-cases, inl, inr, leb→le,
}
use mem_perf_pro.Base.Run.{Ensures, Ensures-bind, Ensures-weaken}
use mem_perf_pro.ShadowMemory.CacheMap.{Shadow}
use mem_perf_pro.ShadowMemory.CacheMap.Mapped.{
  row_of, used, IsMapped, Got, get_cache_map_entry-Got, Writes, Writes-used,
}
use mem_perf_pro.ShadowMemory.Lines.{Cursor, LineStop, next_line, whole_lines}

-- The counts of the pages are as before.
abbrev pub SamePages : Shadow → Shadow → Type 0
SamePages s s' = (r p : ℕ) → (s'.page_map r p).num_used_bytes ≡ (s.page_map r p).num_used_bytes

-- The cursor has just passed line `l` of the range: cache_index is one more than its place.
pub record IsAt (s : Shadow) (range : ℕ) (c : Cursor) (l : ℕ) : Type 0 where
  pub place : c.target_page * 64 + c.cache_index ≡ l + 1
  pub from : 1 ≤ c.cache_index
  pub to : c.cache_index ≤ 64
  pub row : row_of s range c.target_page ≡ some (c.current + 1 - c.cache_index)
  pub inside : c.cache_index ≤ c.current + 1

-- Before the increment of `cache_index`, at the line itself.
pub record IsOn (s : Shadow) (range : ℕ) (c : Cursor) (l : ℕ) : Type 0 where
  pub place : c.target_page * 64 + c.cache_index ≡ l
  pub to : c.cache_index < 64
  pub row : row_of s range c.target_page ≡ some (c.current - c.cache_index)
  pub inside : c.cache_index ≤ c.current

pub record Next (s : Shadow) (range l : ℕ) (t : Shadow × Cursor) : Type 0 where
  pub mapped : IsMapped t.0
  pub on : IsOn t.0 range t.1 (l + 1)
  pub same : (r' l' : ℕ) → used t.0 r' l' ≡ used s r' l'
  pub pages : SamePages s t.0

pub next_line-Next :
    (s : Shadow) (range : ℕ) (c : Cursor) (l : ℕ)
    → IsMapped s
    → IsAt s range c l
    → Ensures (Next s range l) (next_line s range c)
unfolding next_line
next_line-Next s range c l m a = elim (Bool-cases (c.cache_index == 64)) [
  | inr same_page ↦
      rw (same_page, Ensures)
        (record {
          mapped = m;
          on = record {
            place = omega (arith, a.place);
            to = ground (arith, a.to);
            row = a.row;
            inside = a.inside;
          };
          same = λ r' l'. refl;
          pages = λ r' p'. refl;
        })
  | inl new_page ↦ rw new_page (
      Ensures-bind (Got s range (c.target_page + 1)) (Next s range l) _ _
        (get_cache_map_entry-Got s range (c.target_page + 1) m)
        λ t g. record {
          mapped = g.mapped;
          on = record {
            place = ground (arith, a.place);
            to = omega arith;
            row = ground (arith, g.row);
            inside = omega arith;
          };
          same = g.same;
          pages = g.pages;
        })
]

-- A write through the cursor acts on the used bytes of its line alone.
pub IsOn-used :
    (g : ℕ → ℕ) (s s' : Shadow) (range : ℕ) (c : Cursor) (l : ℕ)
    → IsMapped s
    → IsOn s range c l
    → Writes g s c.current s'
    → IsMapped s'
      × ((r' l' : ℕ)
          → used s' r' l' ≡ (if r' == range && l' == l then g (used s r' l') else used s r' l'))
      × IsAt s' range (record c { cache_index = c.cache_index + 1 }) l
IsOn-used g s s' range c l m o w =
    let e : c.current ≡ c.current - c.cache_index + c.cache_index = omega (arith, o.inside) in
    let u = Writes-used g s s' range c.target_page _ c.cache_index m o.row o.to (rw e at w) in
    (
      u.0,
      (λ r' l'. rw (← o.place) (u.1 r' l')),
      record {
        place = omega (arith, o.place);
        from = omega arith;
        to = omega (arith, o.to);
        row = ground (arith, w.pages range c.target_page, o.row);
        inside = omega (arith, o.inside);
      },
    )

-- Where the loop stops, `size` bytes behind line `l`: the whole lines on the way are written.
pub record Lined (g : ℕ → ℕ) (s : Shadow) (range l size : ℕ) (t : LineStop) : Type 0 where
  pub mapped : IsMapped t.shadow
  pub at : IsAt t.shadow range t.cursor (l + size / 64)
  pub left : t.size ≡ size % 64
  pub pages : SamePages s t.shadow
  pub bytes :
      (r' l' : ℕ)
      → used t.shadow r' l' ≡ (
          if r' == range && (ltb l l' && leb l' (l + size / 64))
          then g (used s r' l')
          else used s r' l')

module _ (g : ℕ → ℕ) (body : Shadow → ℕ → Shadow)
    (act : (s : Shadow) (i : ℕ) → Writes g s i (body s i)) (range : ℕ) where
  stop-Lined :
      (s : Shadow) (c : Cursor) (l size : ℕ)
      → IsMapped s
      → IsAt s range c l
      → size < 64
      → Lined g s range l size (record { shadow = s; cursor = c; size = size })
  stop-Lined s c l size m a small = record {
    mapped = m;
    at = let e : l + size / 64 ≡ l = omega arith in rw e a;
    left = omega arith;
    pages = λ r' p'. refl;
    bytes = λ r' l'. ground arith;
  }

  -- one round more
  step-Lined :
      (s s' s'' : Shadow) (l size : ℕ) (t : LineStop)
      → 64 ≤ size
      → ((r' l' : ℕ) → used s' r' l' ≡ used s r' l')
      → ((r' l' : ℕ)
          → used s'' r' l'
            ≡ (if r' == range && l' == l + 1 then g (used s' r' l') else used s' r' l'))
      → SamePages s s''
      → Lined g s'' range (l + 1) (size - 64) t
      → Lined g s range l size t
  step-Lined s s' s'' l size t big same u pages w = record {
    pages = λ r' p'. w.pages r' p' ∙ pages r' p';
    mapped = w.mapped;
    at = let e : l + 1 + (size - 64) / 64 ≡ l + size / 64 = omega arith in rw e at w.at;
    left = omega (arith, w.left);
    bytes = λ r' l'. ground (arith, w.bytes r' l', u r' l', same r' l');
  }

  pub whole_lines-Lined :
      (fuel : ℕ) (s : Shadow) (c : Cursor) (l size : ℕ)
      → IsMapped s
      → IsAt s range c l
      → size ≤ fuel * 64
      → Ensures (Lined g s range l size) (whole_lines body fuel s range c size)
  unfolding whole_lines
  whole_lines-Lined zero s c l size m a h = stop-Lined s c l size m a (omega arith)
  whole_lines-Lined (suc fuel) s c l size m a h = elim (Bool-cases (leb 64 size)) [
    | inr small ↦ rw (small, whole_lines, Ensures) (stop-Lined s c l size m a (ground arith))
    | inl more ↦
        let big : 64 ≤ size = leb→le _ _ more in
        rw (more, whole_lines)
          (Ensures-bind (Next s range l) (Lined g s range l size) _ _
            (next_line-Next s range c l m a)
            λ (s', c') n.
              let (m'', u, a'') =
                IsOn-used g s' (body s' c'.current) range c' (l + 1) n.mapped n.on
                  (act s' c'.current) in
              Ensures-weaken (Lined g (body s' c'.current) range (l + 1) (size - 64))
                (Lined g s range l size) _
                (λ t w.
                  step-Lined s s' (body s' c'.current) l size t big n.same u
                    (λ r' p'.
                      ap (λ e. e.num_used_bytes) ((act s' c'.current).pages r' p') ∙ n.pages r' p')
                    w)
                (whole_lines-Lined fuel (body s' c'.current) _ (l + 1) (size - 64) m'' a''
                  (omega arith)))
  ]
