-- ===== src/Mac/Timers/Wrap.antt =====
-- The timers of lib/tinymac.c across the wrap-around of the tick counter.
use tinyhan.Base.{ℕ, ◌+◌, ◌%◌, ◌^◌, ◌<◌, ◌≡◌, Option, arith, leb}
use tinyhan.Mac.Types.{TimerCallback, NodeRef, Mac}
use tinyhan.Mac.Timers.{set_timer, is_due}

-- A timer that is set with a delay below 2^31 ticks is due after `k` further ticks (below 2^31) exactly
-- when `k` has reached the delay, whether or not the 32-bit counter wraps in between.
pub is_due-set_timer :
    (m : Mac) (cb : TimerCallback) (arg : Option NodeRef) (delay k : ℕ)
    → m.tick_count < 2 ^ 32
    → delay < 2 ^ 31
    → k < 2 ^ 31
    → is_due ((m.tick_count + k) % 2 ^ 32) (set_timer m cb arg delay).expiry ≡ leb delay k
unfolding is_due
is_due-set_timer m cb arg delay k ht hd hk = ground arith
