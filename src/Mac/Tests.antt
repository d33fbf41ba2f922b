-- ===== src/Mac/Tests.antt =====
-- Contexts of lib/tinymac.c on which the theorems are run: a coordinator, and a client that registers.
mod Requests
mod Links
use tinyhan.Base.{ℕ, ◌+◌, ◌%◌, ◌^◌, ◌++◌, ◌≡◌, refl, true, false, some, [], ◌∷◌, arith}
use tinyhan.Base.Int.{pos}
use tinyhan.Base.Bytes.{read_le, le_bytes}
use tinyhan.Mac.Types.{ClientState, NodeState, slot_ref, ack_timeout_cb, Phy, Params, Mac, phy_send}
use tinyhan.Mac.Wire.RegistrationStatus
use tinyhan.Mac.Wire.{payload_uuid}
use tinyhan.Mac.Registry.{find_from, get_node_by_uuid, get_free_node, free_from}
use tinyhan.Mac.Transmit.{tx_packet, pending_frame}
use tinyhan.Mac.Coordinator.{slot_for, register_in, deregister_in}
use tinyhan.Mac.Receive.{zero_node, recv_cb, rx_ack}
use tinyhan.Mac.Api.{init, tick_node, heartbeat_expired}
use tinyhan.Mac.Run.{arrives, ticks, run, zero_mac}
use tinyhan.Mac.Timers.{set_timer}
use tinyhan.Mac.Transmit.Exchange.{tx_pending-tx_packet}
use tinyhan.Mac.Timeouts.Retries.{ack_timeouts, repeat, ack_timeouts_bounded}
use tinyhan.Mac.Invariant.{IsSound}
use tinyhan.Mac.Invariant.Init.{run-init-IsSound}
use tinyhan.Mac.Handshake.{request_frame, response_frame, handshake}
use tinyhan.Mac.Lifetime.{heartbeat_expired-elapsed, tick_node-deregister_in, rx_ack-register_in}

abbrev phy0 : Phy
phy0 = record { mtu = 62; send_rc = λ l f. pos 0 }

abbrev hub_params : Params
hub_params = record {
  uuid = 9;
  coordinator = true;
  flags = 0;
  beacon_interval = 2;
  beacon_offset = 1;
}

abbrev leaf_params : Params
leaf_params = record {
  uuid = 7;
  coordinator = false;
  flags = 3;
  beacon_interval = 0;
  beacon_offset = 0;
}

-- A coordinator that permits attachment, with no node registered.
abbrev hub : Mac
hub = record (zero_mac phy0) {
  params = hub_params;
  phy_mtu = 62;
  net_id = 1;
  state = ClientState.registered;
  permit_attach = true;
  nodes = λ i. record zero_node { addr = i + 1 };
}

-- A client that is registering with it.
abbrev leaf : Mac
leaf = record (zero_mac phy0) {
  params = leaf_params;
  phy_mtu = 62;
  net_id = 1;
  addr = 0xff;
  state = ClientState.registering;
  coord = record zero_node { state = NodeState.registered };
}

-- The coordinator with one node registered, with these flags and in this state.
abbrev hub_with : ℕ → NodeState → Mac
hub_with flags state = record hub {
  nodes = λ i. record zero_node {
    addr = i + 1;
    uuid = 7;
    flags = flags;
    state = state;
    retries = 3;
    ack_timer = set_timer hub ack_timeout_cb (some (slot_ref i)) 1;
  };
}

abbrev hub_idle : ℕ → Mac
hub_idle flags = record hub {
  nodes =
      λ i. record zero_node { addr = i + 1; uuid = 7; flags = flags; state = NodeState.registered };
}

slot_for_leaf : slot_for hub 7 ≡ some 0
unfolding slot_for get_node_by_uuid find_from get_free_node free_from
slot_for_leaf = refl

run-init-IsSound_example : IsSound true (
    run
      (init (zero_mac phy0) hub_params 5 6 1)
      (arrives (request_frame leaf) 200 ∷ ticks ∷ ticks ∷ []))
run-init-IsSound_example =
    run-init-IsSound phy0 hub_params 5 6 1 (arrives (request_frame leaf) 200 ∷ ticks ∷ ticks ∷ [])

handshake_example :
    (recv_cb leaf (response_frame hub 7 1 RegistrationStatus.success) 0).state
    ≡ ClientState.registered
handshake_example =
    (handshake leaf hub 0 0 refl refl refl (omega arith) (omega arith) (omega arith) refl refl refl
      refl refl (omega arith) (omega arith) slot_for_leaf (omega arith)).3

tx_pending-tx_packet_example :
    (tx_packet (hub_idle 0x10) (some (slot_ref 3)) 0x50 (1 ∷ 2 ∷ []) 4 (some 5)).1 ≡ pos 0
tx_pending-tx_packet_example =
    (tx_pending-tx_packet (hub_idle 0x10) (slot_ref 3) 0x50 (1 ∷ 2 ∷ []) 4 (some 5) refl refl refl
      refl).0

ack_timeouts_bounded_example :
    (ack_timeouts 3 (hub_with 0 NodeState.wait_ack) (slot_ref 2)).log
    ≡ repeat 3 (phy_send (pending_frame ((hub_with 0 NodeState.wait_ack).nodes 2)) 0) []
ack_timeouts_bounded_example =
    (ack_timeouts_bounded 3 (hub_with 0 NodeState.wait_ack) (slot_ref 2) (refl, refl) refl refl refl
      (omega arith)).0

heartbeat_expired-elapsed_example :
    heartbeat_expired ((hub_idle 3).nodes 2) ((0 + 39) % 2 ^ 32) ≡ false
heartbeat_expired-elapsed_example =
    heartbeat_expired-elapsed ((hub_idle 3).nodes 2) 39 (omega arith) (omega arith)

tick_node-deregister_in_example :
    ((tick_node (deregister_in (hub_idle 0x10) (some (slot_ref 2)) (le_bytes 8 7)) 0 2).nodes
      2).state
    ≡ NodeState.registered
unfolding payload_uuid read_le le_bytes
tick_node-deregister_in_example =
    (tick_node-deregister_in (hub_idle 0x10) 2 0 (le_bytes 8 7) (omega arith) (omega arith) refl
      refl refl refl refl).2

rx_ack-register_in_example :
    let m1 = register_in (hub_with 0 NodeState.wait_ack) (some 2) (le_bytes 8 7) in
    rx_ack m1
      (some (slot_ref 2))
      (record { flags = 3; net_id = 1; dest_addr = 0; src_addr = 3; seq = 0 })
    ≡ m1
rx_ack-register_in_example =
    (rx_ack-register_in (hub_with 0 NodeState.wait_ack)
      (register_in (hub_with 0 NodeState.wait_ack) (some 2) (le_bytes 8 7)) 2 (le_bytes 8 7)
      (record { flags = 3; net_id = 1; dest_addr = 0; src_addr = 3; seq = 0 }) refl refl refl).2
