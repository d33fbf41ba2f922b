-- ===== src/Mac/Unacked.antt =====
-- Packets of lib/tinymac.c that ask for no acknowledgement, on a link between two nodes.
use tinyhan.Base.{
  ap, ℕ, ◌%◌, ◌<◌, ◌≤◌, ◌≡◌, refl, ◌∙◌, true, false, Option, some, List, ◌++◌, arith, ◌==◌, ltb,
  has_bit, if◌then◌else◌,
}
use tinyhan.Mac.Types.{
  NodeState, NodeRef, slot_ref, coord_ref, dummy_ref, Mac, node_at, emit, phy_send, received,
}
use tinyhan.Mac.Wire.{ack_request_bit, sleepy_bit, header_bytes}
use tinyhan.Mac.Transmit.{
  mac_phy_send, tx_unicast, tx_header, too_large, next_dseq, tx_to, tx_packet,
}
use tinyhan.Mac.Transmit.Exchange.{frame_of}
use tinyhan.Mac.Receive.{rx_packet, recv_cb}
use tinyhan.Mac.Api.{send, send_to, heartbeat_of}
use tinyhan.Mac.Upper.{handed, handed-received}
use tinyhan.Mac.Heard.{rx_packet-data, heard_from-free, heard_entry, mark_heard, mark_heard-Stays}
use tinyhan.Mac.Links.{IsAwake, IsLinked, recv_cb-linked, log-set_node}

tx_packet-unacked :
    (m : Mac) (r : NodeRef) (type : ℕ) (buf : List ℕ) (validity : ℕ) (cb : Option ℕ)
    → too_large m buf ≡ false
    → (node_at m r).state ≡ NodeState.registered
    → has_bit (node_at m r).flags sleepy_bit ≡ false
    → has_bit type ack_request_bit ≡ false
    → (tx_packet m (some r) type buf validity cb).0
      ≡ (mac_phy_send (next_dseq m) (frame_of m r type buf) 0).0
unfolding tx_packet tx_to tx_unicast
tx_packet-unacked m (slot_ref i) type buf validity cb ht hr hd ha = rw (ht, hr, hd, ha) refl
tx_packet-unacked m coord_ref type buf validity cb ht hr hd ha = rw (ht, hr, hd, ha) refl
tx_packet-unacked m dummy_ref type buf validity cb ht hr hd ha = rw (ht, hr, hd, ha) refl

-- A send makes one frame of the packet and sends it.
pub send-frame :
    (m k : Mac) (r : NodeRef) (type : ℕ) (buf : List ℕ) (validity : ℕ) (cb : Option ℕ)
    → IsLinked m r k
    → 16 ≤ type % 32
    → has_bit type ack_request_bit ≡ false
    → too_large m buf ≡ false
    → has_bit (node_at m r).flags sleepy_bit ≡ false
    → (send m k.addr type buf validity cb).0
      ≡ (mac_phy_send (next_dseq m) (frame_of m r type buf) 0).0
unfolding send send_to
send-frame m k r type buf validity cb v ht ha hl hd =
    let upper : ltb (type % 32) 16 ≡ false = ground arith in
    rw (upper, v.found)
      (tx_packet-unacked m r type buf
        (if validity == 0 then heartbeat_of (node_at m r) else validity) cb hl (v.free) hd ha)

-- On a node that is not sleepy that is all.
pub send-unacked :
    (m k : Mac) (r : NodeRef) (type : ℕ) (buf : List ℕ) (validity : ℕ) (cb : Option ℕ)
    → IsLinked m r k
    → IsAwake m
    → 16 ≤ type % 32
    → has_bit type ack_request_bit ≡ false
    → too_large m buf ≡ false
    → has_bit (node_at m r).flags sleepy_bit ≡ false
    → (send m k.addr type buf validity cb).0
      ≡ emit (next_dseq m) (phy_send (frame_of m r type buf) 0)
unfolding mac_phy_send
send-unacked m k r type buf validity cb v wake ht ha hl hd =
    send-frame m k r type buf validity cb v ht ha hl hd ∙ rw wake refl

-- The frame is handed to the upper layer of the far end, with its node for the sender.
pub recv_cb-unacked :
    (m k : Mac) (r s : NodeRef) (type : ℕ) (buf : List ℕ) (rssi : ℕ)
    → IsLinked m r k
    → IsLinked k s m
    → IsAwake k
    → 16 ≤ type % 32
    → type < 256
    → has_bit type ack_request_bit ≡ false
    → k.rx_cb ≡ true
    → recv_cb k (frame_of m r type buf) rssi
      ≡ emit (mark_heard k s rssi) (received (some s) (type % 32) buf)
recv_cb-unacked m k r s type buf rssi v w wake ht hb ha hr =
    let h = tx_header m (some r) type in
    recv_cb-linked m k r s h buf rssi v w wake (omega arith) refl (v.peer) refl
    ∙ ap (λ (x : Mac). rx_packet x (some s) h (header_bytes h ++ buf))
        (heard_from-free k s rssi h wake (rw (w.free) refl) ∙ rw ha refl)
    ∙ rx_packet-data (mark_heard k s rssi) (some s) h buf (omega arith) ht
        ((mark_heard-Stays s rssi k).0 ∙ hr)

pub handed-unacked :
    (m k : Mac) (r s : NodeRef) (type : ℕ) (buf : List ℕ) (rssi : ℕ)
    → IsLinked m r k
    → IsLinked k s m
    → IsAwake k
    → 16 ≤ type % 32
    → type < 256
    → has_bit type ack_request_bit ≡ false
    → k.rx_cb ≡ true
    → handed k (frame_of m r type buf) rssi
      ≡ some (record { node = some s; type = type % 32; buf = buf })
handed-unacked m k r s type buf rssi v w wake ht hb ha hr =
    handed-received k (frame_of m r type buf) rssi (some s) (type % 32) buf
      (mark_heard k s rssi).log
      (ap (λ (x : Mac). x.log) (recv_cb-unacked m k r s type buf rssi v w wake ht hb ha hr))
      (rw (log-set_node k s (heard_entry k s rssi)) (omega arith))
