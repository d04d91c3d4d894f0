-- ===== src/Sampling/Handler.antt =====
-- src_light/memsample.c: the signal handler that reads the ring buffer, and the calls that switch
-- the sampling of a thread off and on. What ioctl, munmap and close do to the kernel is left out;
-- they print a message when they fail, but for restartSampling, which ends the process.
use mem_perf_pro.Base.{ℕ, Bool, true, false, not, ◌&&◌, Option, none, some, if◌then◌else◌}
use mem_perf_pro.Base.Run.{Run, done, abort, ◌>>=◌}
use mem_perf_pro.Predictor.{Stage, outside_cycle_start, outside_cycles_stop}
use mem_perf_pro.Sampling.{PerfInfo, Counted, perf_mmap_read}

-- what a thread keeps
pub record Sampler : Type 0 where
  pub is_sampling_init : Bool
  pub perf_info : PerfInfo
  pub stage : Stage
  pub counted : Counted

-- `perfInfo.prev_head = perf_mmap_read();`
unfoldable pub read_and_advance : ℕ → ℕ → Sampler → Run (Option Sampler)
read_and_advance fuel tid s = do
  result ← perf_mmap_read fuel tid s.perf_info s.counted
  done (elim result [
    | none ↦ none
    | some r ↦ some (record s { perf_info = record r.0 { prev_head = r.2 }; counted = r.1 })
  ])

unfoldable pub with_start : ℕ → Option Sampler → Option Sampler
with_start now none = none
with_start now (some s) = some (record s { stage = outside_cycle_start s.stage now })

-- `hung_up` is the test `info->si_code == POLL_HUP`, `before` and `after` what rdtscp gives.
unfoldable pub sample_handler : ℕ → ℕ → Bool → ℕ → ℕ → Sampler → Run (Option Sampler)
unfolding read_and_advance with_start
sample_handler fuel tid hung_up before after s =
    if not s.is_sampling_init
    then done (some s)
    else if hung_up
    then (do
      result ← read_and_advance fuel tid (record s { stage = outside_cycles_stop s.stage before })
      done (with_start after result))
    else done (some s)

unfoldable pub stop_sampling : ℕ → ℕ → Sampler → Run (Option Sampler)
unfolding read_and_advance
stop_sampling fuel tid s =
    if not s.is_sampling_init
    then done (some s)
    else read_and_advance fuel tid (record s { is_sampling_init = false })

unfoldable pub pause_sampling : Sampler → Sampler
pause_sampling s = if not s.is_sampling_init then s else record s { is_sampling_init = false }

-- `enabled` and `enabled_2`: the two events could be enabled
unfoldable pub restart_sampling : Bool → Bool → Sampler → Run Sampler
restart_sampling enabled enabled_2 s =
    if s.is_sampling_init
    then done s
    else if enabled && enabled_2
    then done (record s { is_sampling_init = true })
    else abort
