-- ===== src/Mac/Timers.antt =====
-- Callback timers of lib/tinymac.c; tick counts are `uint32_t`.
pub mod Wrap
use tinyhan.Base.{ℕ, ◌+◌, ◌-◌, ◌%◌, ◌^◌, Bool, Option, none, some, ltb}
use tinyhan.Mac.Types.{Timer, TimerCallback, NodeRef, Mac}

-- `tinymac_set_timer`: the timer as it is left.
abbrev pub set_timer : Mac → TimerCallback → Option NodeRef → ℕ → Timer
set_timer m cb arg delay = record {
  callback = some cb;
  arg = arg;
  expiry = (m.tick_count + delay) % 2 ^ 32;
}

-- `tinymac_cancel_timer`
abbrev pub cancel_timer : Timer → Timer
cancel_timer t = record t { callback = none }

-- `(int32_t)(tick_count - expiry) >= 0`
unfoldable pub is_due : ℕ → ℕ → Bool
is_due now expiry = ltb ((now + 2 ^ 32 - expiry) % 2 ^ 32) (2 ^ 31)
