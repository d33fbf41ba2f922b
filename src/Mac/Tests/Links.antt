-- ===== src/Mac/Tests/Links.antt =====
-- A client and a coordinator of lib/tinymac.c that are registered with each other.
use tinyhan.Base.{◌+◌, ◌≡◌, refl, true, false, some, [], ◌∷◌, arith}
use tinyhan.Base.Int.{pos}
use tinyhan.Mac.Types.{ClientState, NodeState, slot_ref, coord_ref, Mac, received, phy_send}
use tinyhan.Mac.Wire.RegistrationStatus
use tinyhan.Mac.Registry.{find_from, get_node_by_addr, get_node_by_uuid, get_free_node, free_from}
use tinyhan.Mac.Coordinator.{slot_for}
use tinyhan.Mac.Transmit.Exchange.{frame_of}
use tinyhan.Mac.Receive.{zero_node, recv_cb}
use tinyhan.Mac.Api.{init, init_phy, permit_attach}
use tinyhan.Mac.Run.{run, step, permits, zero_mac}
use tinyhan.Mac.Invariant.Init.{run-init-IsSound}
use tinyhan.Mac.Handshake.{request_frame, response_frame}
use tinyhan.Mac.Handshake.Linked.{handshake-IsLinked}
use tinyhan.Mac.Links.{IsLinked}
use tinyhan.Mac.Delivery.Sender.{ack_frame}
use tinyhan.Mac.Delivery.{send-delivers}

abbrev driverless : Mac
driverless = zero_mac (record { mtu = 62; send_rc = λ l f. pos 0 })

-- A coordinator with all slots registered, and the node in its third slot.
abbrev hub : Mac
hub = record driverless {
  params = record {
    uuid = 9;
    coordinator = true;
    flags = 0;
    beacon_interval = 2;
    beacon_offset = 1;
  };
  phy_mtu = 62;
  net_id = 1;
  state = ClientState.registered;
  rx_cb = true;
  nodes = λ i. record zero_node { addr = i + 1; uuid = i + 5; state = NodeState.registered };
}

abbrev leaf : Mac
leaf = record driverless {
  params = record {
    uuid = 7;
    coordinator = false;
    flags = 3;
    beacon_interval = 0;
    beacon_offset = 0;
  };
  phy_mtu = 62;
  net_id = 1;
  addr = 3;
  dseq = 255;
  state = ClientState.registered;
  rx_cb = true;
  coord = record zero_node { state = NodeState.registered; uuid = 9 };
}

leaf-IsLinked : IsLinked leaf coord_ref hub
unfolding get_node_by_addr
leaf-IsLinked = record {
  found = refl;
  peer = refl;
  free = refl;
  own = omega arith;
  apart = omega arith;
  network = refl;
  proper = omega arith;
}

hub-IsLinked : IsLinked hub (slot_ref 2) leaf
unfolding get_node_by_addr find_from
hub-IsLinked = record {
  found = refl;
  peer = refl;
  free = refl;
  own = omega arith;
  apart = omega arith;
  network = refl;
  proper = omega arith;
}

send-delivers_example :
    (recv_cb hub (frame_of leaf coord_ref 0x50 (1 ∷ 2 ∷ [])) 7).log
    ≡ received (some (slot_ref 2)) 16 (1 ∷ 2 ∷ []) ∷ phy_send (ack_frame hub (slot_ref 2) 0) 0 ∷ []
send-delivers_example =
    (send-delivers leaf hub coord_ref (slot_ref 2) 0x50 (1 ∷ 2 ∷ []) 0 (some 5) 7 8 leaf-IsLinked
      hub-IsLinked refl refl (omega arith) (omega arith) refl refl refl refl).1

-- A coordinator behind its start-up, and a client that asks for registration.
abbrev fresh_hub : Mac
fresh_hub = run (init driverless (hub.params) 0 0 1) (permits true ∷ [])

abbrev newcomer : Mac
newcomer = record leaf { addr = 0xff; state = ClientState.registering }

newcomer_slot : slot_for fresh_hub 7 ≡ some 0
unfolding slot_for get_node_by_uuid find_from get_free_node free_from run step init init_phy
    permit_attach
newcomer_slot = refl

handshake-IsLinked_example :
    IsLinked
      (recv_cb fresh_hub (request_frame newcomer) 0)
      (slot_ref 0)
      (recv_cb newcomer (response_frame fresh_hub 7 1 RegistrationStatus.success) 0)
unfolding run step init init_phy permit_attach
handshake-IsLinked_example =
    (handshake-IsLinked newcomer fresh_hub 0 0 0
      (run-init-IsSound (driverless.phy) (hub.params) 0 0 1 (permits true ∷ [])) refl refl
      (omega arith) (omega arith) refl refl refl refl refl refl (omega arith) (omega arith)
      newcomer_slot (omega arith)).1
