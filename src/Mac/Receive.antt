-- ===== src/Mac/Receive.antt =====
-- The receive handlers of lib/tinymac.c.
use tinyhan.Base.{
  ℕ, zero, suc, ◌+◌, ◌%◌, Bool, false, ◌||◌, ◌&&◌, not, Option, none, some, List, [], ◌∷◌, ltb, leb,
  ◌==◌, length, has_bit, if◌then◌else◌,
}
use tinyhan.Base.Int.{pos}
use tinyhan.Mac.Types.{
  NodeState, NodeRef, dummy_ref, Timer, Header, Node, Mac, is_wait_ack, node_at, set_node, emit,
  notify, received, phy_standby, phy_delayed_standby,
}
use tinyhan.Mac.Wire.PacketType
use tinyhan.Mac.Wire.RegistrationStatus
use tinyhan.Mac.Wire.{
  addr_broadcast, addr_unassigned, network_any, listen_period_us, ack_request_bit, data_pending_bit,
  sleepy_bit, header_size, beacon_size, registration_request_size, deregistration_request_size,
  registration_response_size, read_header, payload_of, registration_response_bytes,
}
use tinyhan.Mac.Timers.{cancel_timer}
use tinyhan.Mac.Registry.{get_node_by_addr}
use tinyhan.Mac.Transmit.{tx_packet, tx_pending, tx_ack, tx_beacon}
use tinyhan.Mac.Client.{rx_beacon, rx_registration_response}
use tinyhan.Mac.Coordinator.{rx_registration_request, rx_deregistration_request}

-- The case `tinymacType_Ack` of `tinymac_recv_cb`.
unfoldable pub rx_ack : Mac → Option NodeRef → Header → Mac
rx_ack m none hdr = m
rx_ack m (some r) hdr =
    let d = node_at m r in
    if is_wait_ack d.state && hdr.seq == d.pending_header.seq
    then notify
        (set_node m r (record d {
          state = NodeState.registered;
          ack_timer = cancel_timer d.ack_timer;
          validity_timer = cancel_timer d.validity_timer;
        }))
        d.send_cb (pos 0)
    else m

abbrev pub packet_type : Header → ℕ
packet_type hdr = hdr.flags % 32

-- `tinymac_recv_cb`: the switch on the type of a MAC control packet.
unfoldable pub rx_control : Mac → Option NodeRef → Header → List ℕ → Mac
rx_control m node hdr buf =
    let type = packet_type hdr in
    let p = payload_of buf in
    if type == PacketType.beacon
    then if ltb (length buf) (header_size + beacon_size) then m else rx_beacon m hdr p
    else if type == PacketType.ack
    then rx_ack m node hdr
    else if type == PacketType.beacon_request
    then tx_beacon m false
    else if type == PacketType.registration_request
    then if ltb (length buf) (header_size + registration_request_size)
      then m
      else rx_registration_request m p
    else if type == PacketType.deregistration_request
    then if ltb (length buf) (header_size + deregistration_request_size)
      then m
      else rx_deregistration_request m hdr p
    else if type == PacketType.registration_response
    then if ltb (length buf) (header_size + registration_response_size)
      then m
      else rx_registration_response m hdr p
    else m

-- `tinymac_recv_cb`: data goes to the upper layer, the rest to the switch.
unfoldable pub rx_packet : Mac → Option NodeRef → Header → List ℕ → Mac
rx_packet m node hdr buf =
    if leb PacketType.raw_data (packet_type hdr)
    then if m.rx_cb then emit m (received node (packet_type hdr) (payload_of buf)) else m
    else rx_control m node hdr buf

-- `tinymac_recv_cb`: a packet of a known node.
unfoldable pub heard_from : Mac → NodeRef → Header → ℕ → Mac
heard_from m r hdr rssi =
    let m1 = set_node m r (record (node_at m r) { last_heard = m.tick_count; rssi = rssi % 256 }) in
    tx_pending (if has_bit hdr.flags ack_request_bit then tx_ack m1 r hdr.seq else m1) r

abbrev pub zero_timer : Timer
zero_timer = record { callback = none; arg = none; expiry = 0 }

abbrev pub zero_header : Header
zero_header = record { flags = 0; net_id = 0; dest_addr = 0; src_addr = 0; seq = 0 }

unfoldable pub zeros : ℕ → List ℕ
zeros zero = []
zeros (suc n) = 0 ∷ zeros n

-- A node of zero bytes.
abbrev pub zero_node : Node
zero_node = record {
  uuid = 0;
  last_heard = 0;
  flags = 0;
  addr = 0;
  rssi = 0;
  state = NodeState.unregistered;
  pending_header = zero_header;
  pending_size = 0;
  pending = zeros 128;
  send_cb = none;
  ack_timer = zero_timer;
  validity_timer = zero_timer;
  retries = 0;
}

-- `tinymac_recv_cb`: a coordinator tells an unknown sender to register anew.
unfoldable pub rx_unknown : Mac → Header → Mac
rx_unknown m hdr =
    if m.params.coordinator
    then (tx_packet
        (record m {
          dummy = record zero_node { addr = hdr.src_addr; state = NodeState.registered };
        })
        (some dummy_ref) PacketType.registration_response
        (registration_response_bytes 0 addr_unassigned RegistrationStatus.address_invalid) 0 none).0
    else m

-- `tinymac_recv_cb`, behind the look-up of the sender.
unfoldable pub rx_from : Mac → Option NodeRef → Header → List ℕ → ℕ → Mac
rx_from m (some r) hdr buf rssi = rx_packet (heard_from m r hdr rssi) (some r) hdr buf
rx_from m none hdr buf rssi = rx_unknown m hdr

-- `tinymac_recv_cb`: the source address, if assigned, must be known and live.
unfoldable pub rx_accepted : Mac → Header → List ℕ → ℕ → Mac
unfolding rx_from
rx_accepted m hdr buf rssi =
    if not (m.addr == addr_unassigned) && not (hdr.src_addr == addr_unassigned)
    then rx_from m (get_node_by_addr m hdr.src_addr) hdr buf rssi
    else rx_packet m none hdr buf

-- The destinations that are accepted.
abbrev pub is_addressed : Mac → Header → Bool
is_addressed m hdr =
    hdr.net_id == m.net_id && (hdr.dest_addr == m.addr || hdr.dest_addr == addr_broadcast)
    || hdr.net_id == network_any && hdr.dest_addr == addr_broadcast
    || m.net_id == network_any && hdr.dest_addr == addr_broadcast

-- All-networks broadcasts and unassigned sources are for a coordinator that permits attachment.
abbrev pub is_barred : Mac → Header → Bool
is_barred m hdr =
    (hdr.net_id == network_any || hdr.src_addr == addr_unassigned)
    && (not m.params.coordinator || not m.permit_attach)

-- Sleepy nodes turn the receiver off unless data is pending.
abbrev pub listen_or_sleep : Mac → Header → Mac
listen_or_sleep m hdr =
    if has_bit m.params.flags sleepy_bit
    then if has_bit hdr.flags data_pending_bit
      then emit m (phy_delayed_standby listen_period_us)
      else emit m phy_standby
    else m

-- `tinymac_recv_cb`
unfoldable pub recv_cb : Mac → List ℕ → ℕ → Mac
recv_cb m buf rssi =
    let hdr = read_header buf in
    if ltb (length buf) header_size
    then m
    else if hdr.src_addr == m.addr || not (is_addressed m hdr) || is_barred m hdr
    then m
    else rx_accepted (listen_or_sleep m hdr) hdr buf rssi
