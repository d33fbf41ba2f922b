-- ===== src/Gateway/Tests.antt =====
-- Packets on which the relay of examples/mqttsn-simple-gateway/main.c is run.
use tinyhan.Base.{ℕ, ◌+◌, ◌≡◌, ◌++◌, refl, true, Option, none, some, List, [], ◌∷◌, arith}
use tinyhan.Base.Int.{pos, negsuc}
use tinyhan.Mac.Types.{ClientState, NodeState, slot_ref, Header, Mac}
use tinyhan.Mac.Wire.{header_bytes}
use tinyhan.Mac.Registry.{find_from, get_node_by_addr}
use tinyhan.Mac.Receive.{zero_node, recv_cb}
use tinyhan.Mac.Run.{zero_mac}
use tinyhan.Mac.Types.{coord_ref, Phy}
use tinyhan.Mac.Api.{send, tick_handler}
use tinyhan.Mac.Transmit.Exchange.{frame_of}
use tinyhan.Mac.Links.{IsLinked}
use tinyhan.Mac.Invariant.{IsSound}
use tinyhan.Mqttsn.Client.{c_init, c_connect, mqttsn_send, strncpy}
use tinyhan.Mqttsn.Handler.{c_handler}
use tinyhan.Endpoint.{Endpoint, topics, id_string, call_client}
use tinyhan.Endpoint
use tinyhan.Posix.Stops.{Ensures}
use tinyhan.Gateway.{
  Gateway, Happening, rx_handler, to_broker, null_read, type_mqttsn, on_frame, on_datagram,
  on_event, on_events, main_loop, start_up, set_up,
}
use tinyhan.Gateway.Relays.{rx_handler-unassigned}
use tinyhan.Gateway.Endpoints.{uplink, downlink}
use tinyhan.Gateway.Loop.{started, main_loop-IsSound}
use tinyhan.Gateway.Setup.{IsSetUp, set_up-Ensures}

-- A gateway with all slots registered.
abbrev gateway : Mac
gateway = record (zero_mac (record { mtu = 254; send_rc = λ log frame. pos 0 })) {
  params = record {
    uuid = 9;
    coordinator = true;
    flags = 0;
    beacon_interval = 3;
    beacon_offset = 0;
  };
  phy_mtu = 254;
  net_id = 1;
  state = ClientState.registered;
  permit_attach = true;
  rx_cb = true;
  nodes = λ i. record zero_node { addr = i + 1; uuid = i + 5; state = NodeState.registered };
}

abbrev mqttsn_from : ℕ → Header
mqttsn_from a = record { flags = 18; net_id = 1; dest_addr = 0; src_addr = a; seq = 0 }

abbrev message : List ℕ
message = 2 ∷ 0x16 ∷ []

third_node : get_node_by_addr gateway 3 ≡ some (slot_ref 2)
unfolding get_node_by_addr find_from
third_node = refl

rx_handler-unassigned_example :
    rx_handler
      (recv_cb gateway (header_bytes (mqttsn_from 255) ++ message) 0)
      none
      type_mqttsn
      message
    ≡ null_read
rx_handler-unassigned_example =
    (rx_handler-unassigned gateway (mqttsn_from 255) message 0 (omega arith) refl refl refl refl
      (omega arith) refl refl refl refl).1

-- A node of the other example that is registered with this gateway in its third slot.
abbrev endpoint : Endpoint
endpoint = record {
  mac = record (zero_mac (record { mtu = 254; send_rc = λ log frame. pos 0 })) {
    phy_mtu = 254;
    net_id = 1;
    addr = 3;
    state = ClientState.registered;
    rx_cb = true;
    coord = record zero_node { state = NodeState.registered; uuid = 9 };
  };
  client = c_init (id_string 0x2af) topics;
}

endpoint-IsLinked : IsLinked endpoint.mac coord_ref gateway
unfolding get_node_by_addr
endpoint-IsLinked = record {
  found = refl;
  peer = refl;
  free = refl;
  own = omega arith;
  apart = omega arith;
  network = refl;
  proper = omega arith;
}

gateway-IsLinked : IsLinked gateway (slot_ref 2) endpoint.mac
gateway-IsLinked = record {
  found = third_node;
  peer = refl;
  free = refl;
  own = omega arith;
  apart = omega arith;
  network = refl;
  proper = omega arith;
}

-- Its CONNECT.
abbrev connect_message : List ℕ
connect_message =
    14 ∷ 4 ∷ 0 ∷ 1 ∷ 0 ∷ 10 ∷ 0x74 ∷ 0x65 ∷ 0x73 ∷ 0x74 ∷ 0x30 ∷ 0x32 ∷ 0x41 ∷ 0x46 ∷ []

uplink_example :
    (on_frame gateway (frame_of endpoint.mac coord_ref type_mqttsn connect_message) 0).1
    ≡ to_broker 3 connect_message
unfolding c_init c_connect mqttsn_send strncpy
uplink_example =
    (uplink (λ c. c_connect c 100) endpoint gateway 2 connect_message 0 endpoint-IsLinked
      gateway-IsLinked refl refl refl refl refl refl refl).1

downlink_example :
    Endpoint.on_frame endpoint (frame_of gateway (slot_ref 2) type_mqttsn message) 0 100
    ≡ call_client
        (λ c. c_handler c 100 (some message))
        (record endpoint {
          mac = recv_cb endpoint.mac (frame_of gateway (slot_ref 2) type_mqttsn message) 0;
        })
downlink_example =
    (downlink endpoint gateway [] 2 message 0 0 100 endpoint-IsLinked gateway-IsLinked refl refl
      (omega arith) refl refl refl).1

-- A turn of the loop with a tick and a datagram, on a gateway with no node.
abbrev two_events : List (Option (List Happening))
two_events =
    some (
      record { source = 257; waiting = none; rssi = 0 }
      ∷ record { source = 3; waiting = some message; rssi = 0 }
      ∷ [])
    ∷ []

abbrev silent : Phy
silent = record { mtu = 254; send_rc = λ log frame. pos 0 }

abbrev after_two : Gateway
after_two = record {
  mac = (send (tick_handler (start_up (zero_mac silent) 9 0 0 1)) 3 type_mqttsn message 0 none).0;
  relays = [];
}

two_events_run : main_loop (started silent 9 0 0 1) two_events ≡ some after_two
unfolding main_loop on_events on_event on_datagram
two_events_run = refl

main_loop-IsSound_example : IsSound true after_two.mac
main_loop-IsSound_example = (main_loop-IsSound silent 9 0 0 1 two_events after_two two_events_run).1

set_up-Ensures_example :
    Ensures (λ calls c. negsuc 0) [] (set_up (λ calls c. negsuc 0) (pos 3)) (IsSetUp (pos 3) [])
set_up-Ensures_example = set_up-Ensures (λ calls c. negsuc 0) (pos 3) []
