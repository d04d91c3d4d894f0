-- ===== src/Spinlock.antt =====
-- src_light/spinlock.hh: the lock that the shared tables are used under.
pub mod Threads
pub mod Exclusion
use mem_perf_pro.Base.{Bool, true, false, not}

-- __atomic_exchange_n(&_lock, 1): the new value, and the old one
unfoldable pub exchange : Bool → Bool × Bool
exchange value = (true, value)

-- One round of the loop in lock(): the new value, and whether the loop ends.
unfoldable pub lock_round : Bool → Bool × Bool
unfolding exchange
lock_round value = let (new, old) = exchange value in (new, not old)

unfoldable pub init : Bool
init = false

unfoldable pub unlock : Bool → Bool
unlock value = false
