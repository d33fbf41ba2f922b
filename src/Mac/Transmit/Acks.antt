-- ===== src/Mac/Transmit/Acks.antt =====
-- An acknowledged send of lib/tinymac.c, from the send to the ack.
use tinyhan.Base.{
  ℕ, ◌+◌, ◌%◌, ◌≡◌, ◌≢◌, true, false, Option, none, some, List, ◌∷◌, arith, has_bit, is_some,
}
use tinyhan.Base.Int.{pos}
use tinyhan.Mac.Types.{
  NodeState, NodeRef, slot_ref, coord_ref, dummy_ref, Header, Mac, Effect, node_at, phy_send,
  send_done,
}
use tinyhan.Mac.Wire.{sleepy_bit, ack_request_bit}
use tinyhan.Mac.Transmit.{mac_phy_send, tx_unicast, too_large, tx_to, tx_packet}
use tinyhan.Mac.Transmit.Exchange.{frame_of}
use tinyhan.Mac.Receive.{rx_ack}

-- `if (cb) cb(0)`, on the list of calls.
abbrev pub confirmed : Option ℕ → List Effect → List Effect
confirmed none log = log
confirmed (some cb) log = send_done cb (pos 0) ∷ log

-- A send with an ack request, of a packet that fits, to a free node, where neither end is sleepy,
-- puts its frame on the air once and waits with the ack timer armed. The ack with the frame's
-- sequence number ends it: the node is free, both timers are off and the sender's callback hears of
-- success. An ack with another number changes nothing.
pub rx_ack-tx_packet :
    (m : Mac) (r : NodeRef) (type : ℕ) (buf : List ℕ) (validity : ℕ) (cb : Option ℕ) (hdr : Header)
    → has_bit m.params.flags sleepy_bit ≡ false
    → too_large m buf ≡ false
    → (node_at m r).state ≡ NodeState.registered
    → has_bit (node_at m r).flags sleepy_bit ≡ false
    → has_bit type ack_request_bit ≡ true
    → let m1 = (tx_packet m (some r) type buf validity cb).0 in
      let m2 = rx_ack m1 (some r) hdr in
      (m1.log ≡ phy_send (frame_of m r type buf) 0 ∷ m.log)
      × ((node_at m1 r).state ≡ NodeState.wait_ack)
      × (is_some (node_at m1 r).ack_timer.callback ≡ true)
      × (hdr.seq ≡ (m.dseq + 1) % 256
          → ((node_at m2 r).state ≡ NodeState.registered)
            × ((node_at m2 r).ack_timer.callback ≡ none)
            × ((node_at m2 r).validity_timer.callback ≡ none)
            × (m2.log ≡ confirmed cb (phy_send (frame_of m r type buf) 0 ∷ m.log)))
      × (hdr.seq ≢ (m.dseq + 1) % 256 → m2 ≡ m1)
unfolding tx_packet tx_to tx_unicast mac_phy_send rx_ack
rx_ack-tx_packet m (slot_ref i) type buf validity cb hdr hs ht hr hd ha =
    (ground arith, ground arith, ground arith, λ e. ground arith, λ e. ground arith)
rx_ack-tx_packet m coord_ref type buf validity cb hdr hs ht hr hd ha =
    (ground arith, ground arith, ground arith, λ e. ground arith, λ e. ground arith)
rx_ack-tx_packet m dummy_ref type buf validity cb hdr hs ht hr hd ha =
    (ground arith, ground arith, ground arith, λ e. ground arith, λ e. ground arith)
