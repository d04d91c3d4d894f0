-- ===== src/Xthreadx/Cycles.antt =====
-- src_light/predictor.cpp: which cycles of threads the predictor changes.
use mem_perf_pro.Base.{ℕ, ◌≤◌, ◌≡◌, ◌≢◌, refl, false, if◌then◌else◌, ltb, arith}
use mem_perf_pro.Base.Run.{done}
use mem_perf_pro.Predictor.{Predictor, Stage, thread_end, stop_serial, stop_parallel}

pub not_below : (i n : ℕ) → ltb i n ≡ false → n ≤ i
not_below i n e = ground arith

pub thread_end-elsewhere :
    (p p' : Predictor) (g : Stage) (k i : ℕ)
    → thread_end p g k ≡ done p'
    → i ≢ k
    → p'.thread_cycle i ≡ p.thread_cycle i
unfolding thread_end
thread_end-elsewhere p p' g k i e other = ground arith

pub stop_serial-cycle :
    (total : ℕ) (p : Predictor) (g : Stage) (i : ℕ)
    → (stop_serial total p g).0.thread_cycle i ≡ (if ltb i total then 0 else p.thread_cycle i)
unfolding stop_serial
stop_serial-cycle total p g i = refl

pub stop_parallel-cycle :
    (total : ℕ) (p : Predictor) (g : Stage) (i : ℕ)
    → (stop_parallel total p g).0.thread_cycle i ≡ (if ltb i total then 0 else p.thread_cycle i)
unfolding stop_parallel
stop_parallel-cycle total p g i = refl
