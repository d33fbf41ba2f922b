-- ===== src/Mac/Client.antt =====
-- The receive handlers of lib/tinymac.c that serve clients: beacons and registration responses.
use tinyhan.Base.{
  ℕ, Bool, true, false, ◌||◌, not, none, some, List, [], ◌∷◌, ◌==◌, drop, has_bit, if◌then◌else◌,
}
use tinyhan.Mac.Types.{ClientState, NodeState, coord_ref, Header, Mac, request_timeout_cb}
use tinyhan.Mac.Wire.PacketType
use tinyhan.Mac.Wire.RegistrationStatus
use tinyhan.Mac.Wire.{
  addr_broadcast, addr_unassigned, network_any, registration_timeout_ms, permit_attach_bit,
  beacon_size, millis, payload_uuid, byte_at, registration_request_bytes,
}
use tinyhan.Mac.Timers.{set_timer, cancel_timer}
use tinyhan.Mac.Transmit.{tx_packet}

-- "register" the sender of a beacon as our coordinator, with its network.
abbrev pub bind_coordinator : Mac → Header → List ℕ → Mac
bind_coordinator m hdr p = record m {
  state = ClientState.registering;
  net_id = hdr.net_id;
  coord = record m.coord {
    state = NodeState.registered;
    addr = hdr.src_addr;
    uuid = payload_uuid p;
    flags = 0;
    last_heard = m.tick_count;
  };
}

-- Bind with the network of a beacon, send an attachment request and start the timer.
unfoldable pub request_attach : Mac → Header → List ℕ → Mac
request_attach m hdr p =
    let m2 =
      (tx_packet (bind_coordinator m hdr p) (some coord_ref) PacketType.registration_request
        (registration_request_bytes m.params.uuid m.params.flags) 0 none).0 in
    record m2 { timer = set_timer m2 request_timeout_cb none (millis registration_timeout_ms) }

-- `tinymac_rx_beacon`: the case of a client that looks for a network.
unfoldable pub try_attach : Mac → Header → List ℕ → Mac
try_attach m hdr p = if has_bit (byte_at p 10) permit_attach_bit then request_attach m hdr p else m

-- Whether an address stands in a beacon's list.
unfoldable pub contains : ℕ → List ℕ → Bool
contains a [] = false
contains a (b ∷ bs) = b == a || contains a bs

-- `tinymac_rx_beacon`: the case of a registered client.
unfoldable pub poll_if_listed : Mac → List ℕ → Mac
poll_if_listed m p =
    if contains m.addr (drop beacon_size p)
    then (tx_packet m (some coord_ref) PacketType.poll [] 0 none).0
    else m

-- `tinymac_rx_beacon`: the switch on the client's state.
unfoldable pub rx_beacon_in : ClientState → Mac → Header → List ℕ → Mac
rx_beacon_in ClientState.unregistered m hdr p = try_attach m hdr p
rx_beacon_in ClientState.beacon_request m hdr p =
    try_attach (record m { timer = cancel_timer m.timer }) hdr p
rx_beacon_in ClientState.registering m hdr p = m
rx_beacon_in ClientState.registered m hdr p = poll_if_listed m p

-- `tinymac_rx_beacon`
unfoldable pub rx_beacon : Mac → Header → List ℕ → Mac
unfolding rx_beacon_in
rx_beacon m hdr p = if m.params.coordinator then m else rx_beacon_in m.state m hdr p

-- The context of a client that has lost, or never had, a network.
abbrev pub detach : Mac → Mac
detach m = record m {
  state = ClientState.unregistered;
  addr = addr_unassigned;
  net_id = network_any;
}

abbrev pub is_registering : ClientState → Bool
is_registering ClientState.unregistered = false
is_registering ClientState.beacon_request = false
is_registering ClientState.registering = true
is_registering ClientState.registered = false

-- `tinymac_rx_registration_response`
unfoldable pub rx_registration_response : Mac → Header → List ℕ → Mac
rx_registration_response m hdr p =
    let m1 = if is_registering m.state then record m { timer = cancel_timer m.timer } else m in
    if m.params.coordinator
    then m
    else if not (payload_uuid p == m.params.uuid)
    then if hdr.dest_addr == addr_broadcast then m else detach m
    else if byte_at p 8 == addr_unassigned || not (byte_at p 9 == RegistrationStatus.success)
    then detach m1
    else if is_registering m.state
    then record m1 { state = ClientState.registered; addr = byte_at p 8; net_id = hdr.net_id }
    else m1
