-- ===== src/Mac/Api.antt =====
-- The public functions of lib/tinymac.c. `tinymac_dump_nodes` only prints.
pub mod Beacons
use tinyhan.Base.{
  ℕ, zero, suc, ◌+◌, ◌-◌, ◌%◌, ◌^◌, Bool, true, false, ◌||◌, ◌&&◌, not, Option, none, some, List,
  [], ltb, leb, ◌==◌, has_bit, if◌then◌else◌,
}
use tinyhan.Base.Int.{ℤ, negsuc}
use tinyhan.Mac.Types.{
  ClientState, NodeState, NodeRef, slot_ref, coord_ref, Node, Mac, Params, request_timeout_cb,
  is_registered, node_at, emit, phy_listen,
}
use tinyhan.Mac.Wire.PacketType
use tinyhan.Mac.Wire.{
  addr_unassigned, network_any, max_nodes, heartbeat_grace, beacon_request_timeout, sleepy_bit,
  header_size, seconds,
}
use tinyhan.Mac.Timers.{set_timer}
use tinyhan.Mac.Registry.{get_node_by_addr, get_node_by_uuid, deregister_node}
use tinyhan.Mac.Transmit.{tx_packet, tx_beacon}
use tinyhan.Mac.Timeouts.{ack_timer_of, validity_timer_of, request_timer, despatch_timer}

-- A slot of `nodes` as `tinymac_init` leaves it.
abbrev pub init_node : (ℕ → Node) → ℕ → Node
init_node nodes n =
    if ltb n max_nodes
    then record (nodes n) { state = NodeState.unregistered; addr = n + 1 }
    else nodes n

-- The role that `tinymac_init` gives the node, with the `rand()` for its network.
abbrev pub init_role : Mac → ℕ → Mac
init_role m net_rand =
    if m.params.coordinator
    then record m { state = ClientState.registered; net_id = net_rand % 256; addr = 0 }
    else record m { state = ClientState.unregistered; net_id = network_any; addr = addr_unassigned }

-- The first assignments of `tinymac_init`, common to both roles.
abbrev pub init_common : Mac → Params → ℕ → ℕ → Mac
init_common m params bseq_rand dseq_rand = record m {
  params = params;
  nodes = init_node m.nodes;
  bseq = bseq_rand % 256;
  permit_attach = false;
  dseq = dseq_rand % 256;
  coord = record m.coord { state = NodeState.unregistered };
}

-- The set-up of the PHY in `tinymac_init`.
unfoldable pub init_phy : Mac → Mac
init_phy m =
    let m1 = record m { phy_mtu = m.phy.mtu } in
    if not (has_bit m.params.flags sleepy_bit) then emit m1 phy_listen else m1

-- `tinymac_init`, with the results of its calls of `rand()` in order (its result is always 0).
unfoldable pub init : Mac → Params → ℕ → ℕ → ℕ → Mac
unfolding init_phy
init m params bseq_rand dseq_rand net_rand =
    init_phy (init_role (init_common m params bseq_rand dseq_rand) net_rand)

-- `tinymac_register_recv_cb`, `tinymac_register_reg_cb`, `tinymac_register_dereg_cb`
unfoldable pub register_recv_cb : Mac → Bool → Mac
register_recv_cb m cb = record m { rx_cb = cb }

unfoldable pub register_reg_cb : Mac → Bool → Mac
register_reg_cb m cb = record m { reg_cb = cb }

unfoldable pub register_dereg_cb : Mac → Bool → Mac
register_dereg_cb m cb = record m { dereg_cb = cb }

-- `tinymac_permit_attach`
unfoldable pub permit_attach : Mac → Bool → Mac
permit_attach m permit = record m { permit_attach = permit }

-- `1 << (node->flags & TINYMAC_ATTACH_HEARTBEAT_MASK)`, in seconds
abbrev pub heartbeat_of : Node → ℕ
heartbeat_of d = 2 ^ (d.flags % 16)

-- `(int32_t)(last_heard + TINYMAC_SECONDS(heartbeat + TINYMAC_HEARTBEAT_GRACE) - now) <= 0`
unfoldable pub heartbeat_expired : Node → ℕ → Bool
heartbeat_expired d now =
    let left =
      (d.last_heard + seconds (heartbeat_of d + heartbeat_grace) + 2 ^ 32 - now) % 2 ^ 32 in
    left == 0 || leb (2 ^ 31) left

-- The heartbeat check of `tinymac_tick_handler` for one node.
unfoldable pub check_heartbeat : Mac → ℕ → ℕ → Mac
check_heartbeat m now n =
    if is_registered (m.nodes n).state && heartbeat_expired (m.nodes n) now
    then deregister_node m (slot_ref n)
    else m

-- The body of the loop of `tinymac_tick_handler` over the nodes.
unfoldable pub tick_node : Mac → ℕ → ℕ → Mac
tick_node m now n =
    despatch_timer (despatch_timer (check_heartbeat m now n) (ack_timer_of (slot_ref n)))
      (validity_timer_of (slot_ref n))

-- That loop over the `k` nodes from `n` on.
unfoldable pub tick_nodes : Mac → ℕ → ℕ → ℕ → Mac
tick_nodes m now zero n = m
tick_nodes m now (suc k) n = tick_nodes (tick_node m now n) now k (n + 1)

-- `(slot & ((1 << beacon_interval) - 1)) == beacon_offset`
abbrev pub beacon_due : Params → ℕ → Bool
beacon_due p slot = slot % 2 ^ p.beacon_interval == p.beacon_offset

-- The beacon of `tinymac_tick_handler`.
unfoldable pub tick_beacon : Mac → Mac
tick_beacon m =
    let slot' = (m.slot + 1) % 2 ^ 16 in
    if beacon_due m.params slot'
    then tx_beacon (record m { slot = slot' }) true
    else record m { slot = slot' }

unfoldable pub tick_coordinator : Mac → Mac
tick_coordinator m = tick_nodes (tick_beacon m) m.tick_count max_nodes 0

abbrev pub is_unregistered_client : ClientState → Bool
is_unregistered_client ClientState.unregistered = true
is_unregistered_client ClientState.beacon_request = false
is_unregistered_client ClientState.registering = false
is_unregistered_client ClientState.registered = false

-- The beacon request of an unregistered client, with its timer.
unfoldable pub send_beacon_request : Mac → Mac
send_beacon_request m =
    let m1 =
      (tx_packet (record m { state = ClientState.beacon_request }) none PacketType.beacon_request []
        0 none).0 in
    record m1 { timer = set_timer m1 request_timeout_cb none (seconds beacon_request_timeout) }

-- Unregistered clients request a beacon.
unfoldable pub request_beacon : Mac → Mac
request_beacon m = if is_unregistered_client m.state then send_beacon_request m else m

unfoldable pub tick_client : Mac → Mac
tick_client m =
    despatch_timer
      (despatch_timer (despatch_timer (request_beacon m) (ack_timer_of coord_ref))
        (validity_timer_of coord_ref))
      request_timer

abbrev pub count_tick : Mac → Mac
count_tick m = record m { tick_count = (m.tick_count + 1) % 2 ^ 32 }

-- `tinymac_tick_handler`
unfoldable pub tick_handler : Mac → Mac
tick_handler m = count_tick (if m.params.coordinator then tick_coordinator m else tick_client m)

-- `tinymac_send`, behind the look-up of the destination.
unfoldable pub send_to : Mac → Option NodeRef → ℕ → List ℕ → ℕ → Option ℕ → Mac × ℤ
send_to m none type buf validity cb = (m, negsuc 0)
send_to m (some r) type buf validity cb =
    tx_packet m (some r) type buf (if validity == 0 then heartbeat_of (node_at m r) else validity)
      cb

-- `tinymac_send`
unfoldable pub send : Mac → ℕ → ℕ → List ℕ → ℕ → Option ℕ → Mac × ℤ
unfolding send_to
send m dest type buf validity cb =
    if ltb (type % 32) PacketType.raw_data
    then (m, negsuc 0)
    else send_to m (get_node_by_addr m dest) type buf validity cb

-- `tinymac_is_registered`
unfoldable pub is_registered_client : Mac → ℕ
is_registered_client m = elim m.state [ ClientState.registered ↦ 1 | _ ↦ 0 ]

-- `tinymac_get_mtu`, in `unsigned int`
unfoldable pub get_mtu : Mac → ℕ
get_mtu m = (m.phy.mtu + 2 ^ 32 - header_size) % 2 ^ 32

-- `tinymac_get_node`
unfoldable pub get_node : Mac → ℕ → Option ℕ
get_node m uuid = get_node_by_uuid m uuid
