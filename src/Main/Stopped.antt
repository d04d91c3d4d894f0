-- ===== src/Main/Stopped.antt =====
-- src_light/libmallocprof.cpp: which threads mainStop reaches.
use mem_perf_pro.Base.{
  ℕ, zero, suc, ◌+◌, ◌-◌, ◌≡◌, Bool, false, ◌&&◌, ◌||◌, leb, ltb, ◌==◌, List, [], ◌∷◌, arith,
}
use mem_perf_pro.Main.{Stop, kills, exits, kill_from, main_stop}
use mem_perf_pro.Xthreadx.{System}

abbrev pub is_in : ℕ → List ℕ → Bool
is_in i [] = false
is_in i (j ∷ js) = j == i || is_in i js

abbrev pub is_killed : ℕ → Stop → Bool
is_killed i (kills threads) = is_in i threads
is_killed i exits = false

kill_from-is_in :
    (threads : ℕ → Bool) (left i j : ℕ)
    → is_in j (kill_from threads left i) ≡ (leb i j && ltb j (i + left) && threads j)
unfolding kill_from
kill_from-is_in threads zero i j = ground arith
kill_from-is_in threads (suc left) i j = ground (arith, kill_from-is_in threads left (i + 1) j)

-- When the main thread gets the signal, it kills exactly the threads that have an entry in `threads`
-- and whose index is at least 1 and below the number of running threads: a running thread with a
-- larger index, after others have been joined, is not reached.
pub main_stop-is_killed :
    (s : System) (i : ℕ)
    → is_killed i (main_stop s 0)
      ≡ (leb 1 i && ltb i s.counts.total_num_of_running_thread && s.threads i)
unfolding main_stop
main_stop-is_killed s i =
    ground (arith, kill_from-is_in s.threads (s.counts.total_num_of_running_thread - 1) 1 i)
