-- ===== src/Mac/Transmit/Exchange.antt =====
-- What `tinymac_tx_packet`, `tinymac_tx_pending` and an acknowledgement of lib/tinymac.c do together.
use tinyhan.Base.{
  ℕ, ◌≡◌, true, false, Option, none, some, List, ◌∷◌, ◌++◌, arith, length, take-length-append, drop,
  has_bit, if◌then◌else◌,
}
use tinyhan.Base.Int.{pos}
use tinyhan.Mac.Types.{
  NodeState, NodeRef, slot_ref, coord_ref, dummy_ref, Mac, node_at, notify, emit, phy_send,
}
use tinyhan.Mac.Wire.{sleepy_bit, ack_request_bit, header_bytes}
use tinyhan.Mac.Transmit.{
  mac_phy_send, tx_unicast, tx_header, too_large, tx_to, tx_packet, tx_pending,
}

-- The frame that a unicast send makes.
abbrev pub frame_of : Mac → NodeRef → ℕ → List ℕ → List ℕ
frame_of m r type buf = header_bytes (tx_header m (some r) type) ++ buf

-- A node that is not sleepy sends a packet that fits to a free sleepy node: nothing goes to the
-- radio yet, the result is 0, and the packet waits. When the node calls in, exactly the frame of
-- the send goes out, once. With an ack request the node then waits for the ack; without, it is free
-- again and the sender's callback hears of success.
pub tx_pending-tx_packet :
    (m : Mac) (r : NodeRef) (type : ℕ) (buf : List ℕ) (validity : ℕ) (cb : Option ℕ)
    → has_bit m.params.flags sleepy_bit ≡ false
    → too_large m buf ≡ false
    → (node_at m r).state ≡ NodeState.registered
    → has_bit (node_at m r).flags sleepy_bit ≡ true
    → let (m1, rc) = tx_packet m (some r) type buf validity cb in
      let m2 = tx_pending m1 r in
      (rc ≡ pos 0)
      × (m1.log ≡ m.log)
      × ((node_at m1 r).state ≡ NodeState.send_pending)
      × (m2.log ≡ (
          if has_bit type ack_request_bit
          then phy_send (frame_of m r type buf) 0 ∷ m.log
          else (notify (emit m (phy_send (frame_of m r type buf) 0)) cb (pos 0)).log))
      × ((node_at m2 r).state
          ≡ (if has_bit type ack_request_bit then NodeState.wait_ack else NodeState.registered))
unfolding tx_packet tx_to tx_unicast tx_pending mac_phy_send
tx_pending-tx_packet m (slot_ref i) type buf validity none hs ht hr hd =
    ground (arith, take-length-append buf (drop (length buf) (m.nodes i).pending))
tx_pending-tx_packet m (slot_ref i) type buf validity (some k) hs ht hr hd =
    ground (arith, take-length-append buf (drop (length buf) (m.nodes i).pending))
tx_pending-tx_packet m coord_ref type buf validity none hs ht hr hd =
    ground (arith, take-length-append buf (drop (length buf) m.coord.pending))
tx_pending-tx_packet m coord_ref type buf validity (some k) hs ht hr hd =
    ground (arith, take-length-append buf (drop (length buf) m.coord.pending))
tx_pending-tx_packet m dummy_ref type buf validity none hs ht hr hd =
    ground (arith, take-length-append buf (drop (length buf) m.dummy.pending))
tx_pending-tx_packet m dummy_ref type buf validity (some k) hs ht hr hd =
    ground (arith, take-length-append buf (drop (length buf) m.dummy.pending))
