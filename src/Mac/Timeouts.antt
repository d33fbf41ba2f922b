-- ===== src/Mac/Timeouts.antt =====
-- The timeout callbacks of lib/tinymac.c, and `tinymac_despatch_timer`, which runs them.
pub mod Retries
use tinyhan.Base.{ℕ, ◌+◌, ◌%◌, Bool, true, false, Option, none, some, ◌==◌, if◌then◌else◌, has_bit}
use tinyhan.Base.Int.{negsuc}
use tinyhan.Mac.Types.{
  ClientState, NodeState, NodeRef, coord_ref, Timer, TimerCallback, request_timeout_cb,
  validity_timeout_cb, ack_timeout_cb, Mac, node_at, set_node, notify,
}
use tinyhan.Mac.Wire.{ack_timeout_ms, sleepy_bit, millis}
use tinyhan.Mac.Timers.{set_timer, cancel_timer, is_due}
use tinyhan.Mac.Registry.{deregister_node}
use tinyhan.Mac.Transmit.{mac_phy_send, pending_frame}

abbrev pub is_requesting : ClientState → Bool
is_requesting ClientState.unregistered = false
is_requesting ClientState.beacon_request = true
is_requesting ClientState.registering = true
is_requesting ClientState.registered = false

-- `tinymac_request_timeout`
unfoldable pub request_timeout : Mac → Mac
request_timeout m = if is_requesting m.state then deregister_node m coord_ref else m

-- `tinymac_validity_timeout`
unfoldable pub validity_timeout : Mac → NodeRef → Mac
validity_timeout m r =
    let d = node_at m r in
    notify
      (set_node m r
        (record d { state = NodeState.registered; ack_timer = cancel_timer d.ack_timer }))
      d.send_cb (negsuc 0)

-- `node->retries--`, in `uint8_t`
abbrev pub dec_retries : ℕ → ℕ
dec_retries n = (n + 255) % 256

-- `tinymac_ack_timeout`
unfoldable pub ack_timeout : Mac → NodeRef → Mac
ack_timeout m r =
    let d = node_at m r in
    let d' = record d { retries = dec_retries d.retries } in
    if d.retries == 0
    then deregister_node
        (notify (set_node m r (record d' { validity_timer = cancel_timer d.validity_timer }))
          d.send_cb (negsuc 0))
        r
    else if has_bit d.flags sleepy_bit
    then set_node m r (record d' { state = NodeState.send_pending })
    else (mac_phy_send
        (set_node m r
          (record d' { ack_timer = set_timer m ack_timeout_cb (some r) (millis ack_timeout_ms) }))
        (pending_frame d) 0).0

-- A `tinymac_timer_t *`.
pub data TimerRef : Type 0 where
  ack_timer_of : NodeRef → TimerRef
  validity_timer_of : NodeRef → TimerRef
  request_timer : TimerRef

abbrev pub timer_at : Mac → TimerRef → Timer
timer_at m (ack_timer_of r) = (node_at m r).ack_timer
timer_at m (validity_timer_of r) = (node_at m r).validity_timer
timer_at m request_timer = m.timer

abbrev pub set_timer_at : Mac → TimerRef → Timer → Mac
set_timer_at m (ack_timer_of r) t = set_node m r (record (node_at m r) { ack_timer = t })
set_timer_at m (validity_timer_of r) t = set_node m r (record (node_at m r) { validity_timer = t })
set_timer_at m request_timer t = record m { timer = t }

-- `callback(timer->arg)`. A node's callback at NULL would be a fault; the model stops there, and the
-- invariant of the timers excludes it.
unfoldable pub run_callback : Mac → TimerCallback → Option NodeRef → Mac
run_callback m request_timeout_cb arg = request_timeout m
run_callback m validity_timeout_cb none = m
run_callback m validity_timeout_cb (some r) = validity_timeout m r
run_callback m ack_timeout_cb none = m
run_callback m ack_timeout_cb (some r) = ack_timeout m r

-- The part of `tinymac_despatch_timer` behind the test `timer->callback`.
unfoldable pub despatch_armed : Mac → TimerRef → Option TimerCallback → Mac
despatch_armed m tr none = m
despatch_armed m tr (some cb) =
    let t = timer_at m tr in
    if is_due m.tick_count t.expiry
    then run_callback (set_timer_at m tr (cancel_timer t)) cb t.arg
    else m

-- `tinymac_despatch_timer`
unfoldable pub despatch_timer : Mac → TimerRef → Mac
unfolding despatch_armed
despatch_timer m tr = despatch_armed m tr (timer_at m tr).callback
