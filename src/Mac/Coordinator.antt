-- ===== src/Mac/Coordinator.antt =====
-- The receive handlers of lib/tinymac.c that serve a coordinator: (de)registration requests.
pub mod Unique
pub mod Slots
pub mod Admits
pub mod Leaves
pub mod Refines
use tinyhan.Base.{
  ℕ, ◌+◌, ◌%◌, ◌||◌, ◌&&◌, not, Option, none, some, List, [], ◌∷◌, ◌==◌, if◌then◌else◌,
}
use tinyhan.Mac.Types.{
  NodeState, NodeRef, slot_ref, Header, Node, Mac, node_at, set_node, emit, node_attached,
}
use tinyhan.Mac.Wire.PacketType
use tinyhan.Mac.Wire.RegistrationStatus
use tinyhan.Mac.Wire.{addr_unassigned, payload_uuid, request_flags, registration_response_bytes}
use tinyhan.Mac.Registry.{get_node_by_addr, get_node_by_uuid, get_free_node, deregister_node}
use tinyhan.Mac.Transmit.{tx_packet}

-- The slot for a UUID: the one that it has, or a free one.
unfoldable pub slot_for : Mac → ℕ → Option ℕ
slot_for m u = elim (get_node_by_uuid m u) [ some i ↦ some i | none ↦ get_free_node m ]

-- The node that is registered, in its slot.
abbrev pub entry : Mac → ℕ → List ℕ → Node
entry m i p = record (m.nodes i) {
  state = NodeState.registered;
  uuid = payload_uuid p;
  flags = request_flags p;
  last_heard = m.tick_count;
}

abbrev pub enter_node : Mac → ℕ → List ℕ → Mac
enter_node m i p = set_node m (slot_ref i) (entry m i p)

-- `if (tinymac_ctx->reg_cb) tinymac_ctx->reg_cb(node)`
abbrev pub announce : Mac → Option NodeRef → Mac
announce m r = if m.reg_cb then emit m (node_attached r) else m

-- The registration, the response and the callback of `tinymac_rx_registration_request`.
unfoldable pub register_in : Mac → Option ℕ → List ℕ → Mac
register_in m (some i) p =
    announce
      (tx_packet (enter_node m i p) none PacketType.registration_response
        (registration_response_bytes (payload_uuid p) (m.nodes i).addr RegistrationStatus.success) 0
        none).0
      (some (slot_ref i))
register_in m none p =
    announce
      (tx_packet m none PacketType.registration_response
        (registration_response_bytes (payload_uuid p) addr_unassigned
          RegistrationStatus.network_full)
        0 none).0
      none

-- `tinymac_rx_registration_request`
unfoldable pub rx_registration_request : Mac → List ℕ → Mac
rx_registration_request m p =
    if not m.params.coordinator then m else register_in m (slot_for m (payload_uuid p)) p

-- `tinymac_rx_deregistration_request`, behind the look-up of the sender.
unfoldable pub deregister_in : Mac → Option NodeRef → List ℕ → Mac
deregister_in m none p = m
deregister_in m (some r) p =
    if not ((node_at m r).uuid == payload_uuid p)
    then m
    else deregister_node
        (tx_packet m (some r) PacketType.registration_response
          (registration_response_bytes (payload_uuid p) addr_unassigned RegistrationStatus.success)
          0 none).0
        r

-- `tinymac_rx_deregistration_request`
unfoldable pub rx_deregistration_request : Mac → Header → List ℕ → Mac
unfolding deregister_in
rx_deregistration_request m hdr p =
    if not m.params.coordinator then m else deregister_in m (get_node_by_addr m hdr.src_addr) p
