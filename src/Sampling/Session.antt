-- ===== src/Sampling/Session.antt =====
-- src_light/memsample.c: a thread that is interrupted any number of times, while the kernel writes
-- records between the interrupts.
use mem_perf_pro.Base.{
  ℕ, suc, ◌≡◌, refl, ap, ◌∙◌, sym, true, Option, some, List, [], ◌∷◌, ◌++◌, length,
}
use mem_perf_pro.Base.Run.{Run, done}
use mem_perf_pro.Sampling.{ControlPage, Counted, do_access}
use mem_perf_pro.Sampling.Encoding.{Event, encode_all, access_of}
use mem_perf_pro.Sampling.Reads.{do_accesses, Written, perf_mmap_read-Reads}
use mem_perf_pro.Predictor.{outside_cycle_start, outside_cycles_stop}
use mem_perf_pro.Sampling.Handler.{Sampler, sample_handler}

-- The handler has read the records: it made their accesses and starts behind them the next time.
pub record Handled (tid : ℕ) (s : Sampler) (page : ControlPage) (es : List Event)
    (call : Run (Option Sampler)) : Type 0 where
  pub s' : Sampler
  pub returns : call ≡ done (some s')
  pub counted : s'.counted ≡ do_accesses tid es s.counted
  pub advanced : s'.perf_info.prev_head ≡ page.data_head
  pub on : s'.is_sampling_init ≡ true

pub sample_handler-Handled :
    (tid before after : ℕ) (s : Sampler) (page : ControlPage) (es : List Event)
    → s.is_sampling_init ≡ true
    → Written s.perf_info page es
    → Handled tid s page es (sample_handler (suc (length (encode_all es))) tid true before after s)
unfolding sample_handler
sample_handler-Handled tid before after s page es on w =
    let r = perf_mmap_read-Reads tid s.perf_info page es s.counted w in
    record {
      s' = record s {
        perf_info = record r.p' { prev_head = page.data_head };
        stage = outside_cycle_start (outside_cycles_stop s.stage before) after;
        counted = do_accesses tid es s.counted;
      };
      returns = simp (on, r.returns);
      counted = refl;
      advanced = refl;
      on = on;
    }

-- the kernel moves the head and writes bytes
abbrev kernel_writes : ControlPage → (ℕ → ℕ) → Sampler → Sampler
kernel_writes page ring s = record s {
  perf_info = record s.perf_info { ring_buf = some page; ring = ring };
}

-- A thread from one state to another, with the records that the kernel has written in between:
-- before each interrupt it writes some behind those that it has written before.
pub data Session (tid : ℕ) (s : Sampler) : List Event → Sampler → Type 0 where
  nothing : Session tid s [] s
  interrupt :
      {t u : Sampler} {es new : List Event} (page : ControlPage) (ring : ℕ → ℕ)
      → (before after : ℕ) → Session tid s es t
      → Written (kernel_writes page ring t).perf_info page new
      → sample_handler
          (suc (length (encode_all new)))
          tid
          true
          before
          after
          (kernel_writes page ring t)
        ≡ done (some u)
      → Session tid s (es ++ new) u

do_accesses-append :
    (tid : ℕ) (xs ys : List Event) (c : Counted)
    → do_accesses tid (xs ++ ys) c ≡ do_accesses tid ys (do_accesses tid xs c)
do_accesses-append tid [] ys c = refl
do_accesses-append tid (x ∷ xs) ys c = do_accesses-append tid xs ys (do_access tid (access_of x) c)

pub record Counts (tid : ℕ) (s : Sampler) (es : List Event) (u : Sampler) : Type 0 where
  pub on : u.is_sampling_init ≡ true
  pub counted : u.counted ≡ do_accesses tid es s.counted

same_done : {t u : Sampler} → done (some t) ≡ done (some u) → t ≡ u
same_done e = cc

-- However the interrupts fall, a thread that samples has made the accesses of all the samples that
-- the kernel has written, each once and in their order, and it goes on sampling, when the handler
-- returns before the kernel overwrites what it has not read.
pub Session-Counts :
    (tid : ℕ) (s u : Sampler) (es : List Event)
    → s.is_sampling_init ≡ true
    → Session tid s es u
    → Counts tid s es u
Session-Counts tid s u es on nothing = record { on = on; counted = refl }
Session-Counts tid s u es on (interrupt {t} {es = old} {new} page ring before after run w e) =
    let earlier = Session-Counts tid s t old on run in
    let h =
      sample_handler-Handled tid before after (kernel_writes page ring t) page new earlier.on w in
    let same : h.s' ≡ u = same_done (sym h.returns ∙ e) in
    record {
      on = ap (λ x. x.is_sampling_init) (sym same) ∙ h.on;
      counted =
          ap (λ x. x.counted) (sym same)
          ∙ h.counted
          ∙ ap (do_accesses tid new) earlier.counted
          ∙ sym (do_accesses-append tid old new s.counted);
    }
