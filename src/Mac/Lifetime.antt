-- ===== src/Mac/Lifetime.antt =====
-- How long a registration lasts in lib/tinymac.c: heartbeats, and what (de)registration leaves behind.
use native.Mathlib.Nat.{pow-le-pow_right}
use tinyhan.Base.{
  ℕ, ◌+◌, ◌*◌, ◌%◌, ◌^◌, ◌<◌, ◌≤◌, ◌≡◌, refl, ◌∙◌, true, false, none, some, List, arith, leb,
  length, has_bit, is_some,
}
use tinyhan.Base.Bytes.{le_bytes}
use tinyhan.Mac.Types.{NodeState, slot_ref, validity_timeout_cb, Header, Node, Mac}
use tinyhan.Mac.Wire.{sleepy_bit, payload_uuid, registration_response_bytes}
use tinyhan.Mac.Timers.{is_due}
use tinyhan.Mac.Registry.{deregister_node}
use tinyhan.Mac.Transmit.{mac_phy_send, tx_unicast, tx_to, tx_packet}
use tinyhan.Mac.Timeouts.{validity_timeout, run_callback, despatch_timer}
use tinyhan.Mac.Coordinator.{deregister_in, register_in}
use tinyhan.Mac.Receive.{rx_ack}
use tinyhan.Mac.Api.{heartbeat_of, heartbeat_expired, check_heartbeat, tick_node}

pow_bound : (h : ℕ) → h < 16 → 2 ^ h ≤ 32768
pow_bound h p = pow-le-pow_right {n = 2} (omega arith) {i = h} {j = 15} (omega arith)

-- A node last heard `elapsed` ticks ago (below 2^31) has expired exactly when its heartbeat interval
-- and the two seconds of grace, at four ticks a second, have passed; the tick counter may wrap.
pub heartbeat_expired-elapsed :
    (d : Node) (elapsed : ℕ)
    → d.last_heard < 2 ^ 32
    → elapsed < 2 ^ 31
    → heartbeat_expired d ((d.last_heard + elapsed) % 2 ^ 32)
      ≡ leb (4 * (heartbeat_of d + 2)) elapsed
unfolding heartbeat_expired
heartbeat_expired-elapsed d elapsed hl he = ground (arith, pow_bound (d.flags % 16) (omega arith))

length-response_bytes : (u a s : ℕ) → length (registration_response_bytes u a s) ≡ 10
unfolding registration_response_bytes le_bytes
length-response_bytes u a s = refl

-- A node that is not registered, with a validity timer that is due.
abbrev pub IsStale : Mac → ℕ → Type 0
IsStale m i =
    ((m.nodes i).state ≡ NodeState.unregistered)
    × ((m.nodes i).ack_timer.callback ≡ none)
    × ((m.nodes i).validity_timer.callback ≡ some validity_timeout_cb)
    × ((m.nodes i).validity_timer.arg ≡ some (slot_ref i))
    × (is_due m.tick_count (m.nodes i).validity_timer.expiry ≡ true)

tick_node-IsStale :
    (m : Mac) (i now : ℕ) → IsStale m i → ((tick_node m now i).nodes i).state ≡ NodeState.registered
unfolding tick_node check_heartbeat despatch_timer run_callback validity_timeout
tick_node-IsStale m i now (s, a, c, g, d) = ground arith

deregister_in-IsStale :
    (m : Mac) (i : ℕ) (p : List ℕ)
    → m.tick_count < 2 ^ 32
    → 16 ≤ m.phy_mtu
    → (m.nodes i).state ≡ NodeState.registered
    → (m.nodes i).uuid ≡ payload_uuid p
    → has_bit (m.nodes i).flags sleepy_bit ≡ true
    → (m.nodes i).ack_timer.callback ≡ none
    → IsStale (deregister_in m (some (slot_ref i)) p) i
unfolding deregister_in tx_packet tx_to tx_unicast deregister_node is_due
deregister_in-IsStale m i p ht hm hs hu hf ha =
    ground (arith, length-response_bytes (payload_uuid p) 0xff 0)

-- A registered sleepy node that asks to leave with its UUID, with no ack timer armed and no
-- deregistration callback set, at an MTU of 16 or more, is deregistered with no answer on the air;
-- the answer is put off with a validity of 0 seconds, so the next tick runs its expired timer and
-- marks the node registered again.
pub tick_node-deregister_in :
    (m : Mac) (i now : ℕ) (p : List ℕ)
    → m.tick_count < 2 ^ 32
    → 16 ≤ m.phy_mtu
    → (m.nodes i).state ≡ NodeState.registered
    → (m.nodes i).uuid ≡ payload_uuid p
    → has_bit (m.nodes i).flags sleepy_bit ≡ true
    → (m.nodes i).ack_timer.callback ≡ none
    → m.dereg_cb ≡ false
    → let m1 = deregister_in m (some (slot_ref i)) p in
      ((m1.nodes i).state ≡ NodeState.unregistered)
      × (m1.log ≡ m.log)
      × (((tick_node m1 now i).nodes i).state ≡ NodeState.registered)
unfolding deregister_in tx_packet tx_to tx_unicast deregister_node
tick_node-deregister_in m i now p ht hm hs hu hf ha hd =
    let stale = deregister_in-IsStale m i p ht hm hs hu hf ha in
    (
      stale.0,
      ground (arith, length-response_bytes (payload_uuid p) 0xff 0),
      tick_node-IsStale (deregister_in m (some (slot_ref i)) p) i now stale,
    )

-- A node that registers anew while a packet to it awaits its ack is registered with the ack timer still
-- armed; and in any context in which the node's state is as the registration left it, an ack of the
-- node changes nothing, so none ends the timer.
pub rx_ack-register_in :
    (m m2 : Mac) (i : ℕ) (p : List ℕ) (hdr : Header)
    → (m.nodes i).state ≡ NodeState.wait_ack
    → is_some (m.nodes i).ack_timer.callback ≡ true
    → (m2.nodes i).state ≡ ((register_in m (some i) p).nodes i).state
    → let m1 = register_in m (some i) p in
      ((m1.nodes i).state ≡ NodeState.registered)
      × (is_some (m1.nodes i).ack_timer.callback ≡ true)
      × (rx_ack m2 (some (slot_ref i)) hdr ≡ m2)
unfolding register_in tx_packet tx_to mac_phy_send rx_ack
rx_ack-register_in m m2 i p hdr hs ha he =
    let s : ((register_in m (some i) p).nodes i).state ≡ NodeState.registered = ground arith in
    (s, ground arith, rw (he ∙ s) refl)
