-- ===== src/Link/Tests.antt =====
-- An unregistered client and a coordinator on which registration over lib/phy-udp.c is run.
use tinyhan.Base.{List, ℕ, ◌+◌, ◌≡◌, refl, true, false, some, [], arith}
use tinyhan.Base.Bytes.{le_bytes}
use tinyhan.Base.Int.{pos}
use tinyhan.Mac.Types.{Header, ClientState, Mac}
use tinyhan.Mac.Wire.{beacon_bytes}
use tinyhan.Mac.Client.{rx_beacon}
use tinyhan.Mac.Registry.{find_from, get_node_by_uuid, get_free_node, free_from}
use tinyhan.Mac.Coordinator.{slot_for}
use tinyhan.Mac.Receive.{zero_node}
use tinyhan.Mac.Run.{zero_mac}
use tinyhan.Udp.Phy.{Phy}
use tinyhan.Link.Registration.{carried, registers_over_udp}

abbrev driver : Phy
driver = record { recv_cb = true; listening = true; log = [] }

abbrev no_node : Mac
no_node = zero_mac (record { mtu = 254; send_rc = λ log frame. pos 0 })

abbrev coordinator : Mac
coordinator = record no_node {
  params = record {
    uuid = 9;
    coordinator = true;
    flags = 0;
    beacon_interval = 2;
    beacon_offset = 1;
  };
  phy_mtu = 254;
  net_id = 1;
  state = ClientState.registered;
  permit_attach = true;
  nodes = λ i. record zero_node { addr = i + 1 };
}

abbrev client : Mac
client = record no_node {
  params = record {
    uuid = 7;
    coordinator = false;
    flags = 3;
    beacon_interval = 0;
    beacon_offset = 0;
  };
  phy_mtu = 254;
  addr = 0xff;
}

client_slot : slot_for coordinator 7 ≡ some 0
unfolding slot_for get_node_by_uuid find_from get_free_node free_from
client_slot = refl

-- The coordinator's beacon.
abbrev heard_header : Header
heard_header = record { flags = 0; net_id = 1; dest_addr = 255; src_addr = 0; seq = 0 }

abbrev heard_payload : List ℕ
heard_payload = beacon_bytes 9 0 2 15 []

registers_over_udp_example :
    let m1 = rx_beacon client heard_header heard_payload in
    let k1 = carried driver driver m1 coordinator in
    (carried driver driver k1 m1).state ≡ ClientState.registered
unfolding beacon_bytes le_bytes
registers_over_udp_example =
    (registers_over_udp driver driver client coordinator heard_header heard_payload 0 refl refl refl
      refl refl refl refl (omega arith) (omega arith) (omega arith) refl refl refl (omega arith)
      refl refl refl refl (omega arith) (omega arith) client_slot (omega arith)).3
