-- ===== src/Mqttsn/Retries.antt =====
-- Retries of the client of lib/mqttsn-client.c while no answer comes.
use tinyhan.Base.{ℕ, zero, suc, ◌+◌, ◌≤◌, ◌<◌, ◌≡◌, Bool, true, false, none, List, [], ◌∷◌, arith}
use tinyhan.Mqttsn.Types.{State, Effect, sent, Client, bytes_from}
use tinyhan.Mqttsn.Handler.{retry_pending, ping, inbound, register_next, c_handler}

-- The states in which the client waits for an answer.
abbrev pub is_waiting : State → Bool
is_waiting State.disconnected = false
is_waiting State.connecting = true
is_waiting State.registering = false
is_waiting State.connected = false
is_waiting State.busy = true
is_waiting State.disconnecting = true

-- Calls of the handler at these times, with no packet.
unfoldable pub idle : Client → List ℕ → Client
idle m [] = m
idle m (t ∷ ts) = idle (c_handler m t none) ts

-- Each time is at or after the deadline that the call before it left.
abbrev pub IsLate : ℕ → List ℕ → Type 0
IsLate d [] = Unit {0}
IsLate d (t ∷ ts) = (d ≤ t) × IsLate (t + 5) ts

-- The message that is retried.
abbrev pub pending_message : Client → Effect
pending_message m = sent (bytes_from m.message 0 (m.message 0))

-- The calls, with `k` more of the same before them.
abbrev pub resent : ℕ → Effect → List Effect → List Effect
resent zero e log = log
resent (suc k) e log = resent k e (e ∷ log)

-- Before its deadline, a call of the handler with no packet leaves a waiting client as it was.
pub c_handler_early :
    (m : Client) (t : ℕ) → is_waiting m.state ≡ true → t < m.t_retry → c_handler m t none ≡ m
unfolding c_handler retry_pending ping inbound register_next
c_handler_early m t hs ht = ground arith
