-- ===== src/Mac/Delivery.antt =====
-- An acknowledged packet of lib/tinymac.c, from `tinymac_send` on one node to the ack that ends it.
pub mod Sender
use mathlib.Core.Path.{subst}
use tinyhan.Base.{
  ap, ℕ, ◌+◌, ◌%◌, ◌<◌, ◌≤◌, ◌≡◌, refl, sym, ◌∙◌, true, false, Option, none, some, List, [], ◌∷◌,
  ◌++◌, arith, ◌==◌, has_bit, if◌then◌else◌,
}
use tinyhan.Mac.Types.{NodeState, NodeRef, Header, Node, Mac, node_at, phy_send, received}
use tinyhan.Mac.Wire.PacketType
use tinyhan.Mac.Wire.{ack_request_bit, sleepy_bit, header_bytes}
use tinyhan.Mac.Transmit.{next_dseq, tx_header, too_large, ack_header}
use tinyhan.Mac.Transmit.Exchange.{frame_of}
use tinyhan.Mac.Transmit.Acks.{confirmed}
use tinyhan.Mac.Receive.{packet_type, recv_cb}
use tinyhan.Mac.Api.{send}
use tinyhan.Mac.Heard.{heard_entry, mark_heard, mark_heard-Stays, node_at-mark_heard}
use tinyhan.Mac.Links.{
  IsAwake, log-set_node, far-IsLinked, IsLinked, taken, recv_cb-acked, taken-IsLinked,
  set_node-IsSameEnd,
}
use tinyhan.Mac.Delivery.Sender.{
  waiting_entry, waiting, waiting-Waits, rx_ack-waiting, ack_frame, ack_between, recv_cb-ack,
  ack_header-linked, send-linked,
}

-- The calls of a node `x` with the address and network of `k` that takes a frame.
log-taken :
    (m k x : Mac) (s : NodeRef) (rssi : ℕ) (h : Header) (p : List ℕ)
    → IsLinked x s m
    → x.addr ≡ k.addr
    → x.net_id ≡ k.net_id
    → (taken x s rssi h p).log
      ≡ received (some s) (packet_type h) p
        ∷ phy_send (header_bytes (ack_between k m h.seq)) 0
        ∷ x.log
log-taken m k x s rssi h p w ha hn =
    let (f, a, n, q) = set_node-IsSameEnd x s (heard_entry x s rssi) (refl, refl) in
    let entry = node_at-mark_heard x s rssi in
    let e =
      ack_header-linked m k (mark_heard x s rssi) s h.seq
        (ap (λ (d : Node). d.state) entry ∙ w.free) (ap (λ (d : Node). d.addr) entry ∙ w.peer)
        (a ∙ ha) (n ∙ hn) in
    (λ i.
      received (some s) (packet_type h) p
      ∷ phy_send (header_bytes (e i)) 0
      ∷ log-set_node x s (heard_entry x s rssi) i)

-- A packet that asks for an acknowledgement, on a link between two nodes, of which the sender does not
-- take the other for a sleepy one; neither is sleepy. The packet fits and has a type of the upper layer
-- (a byte), and the receiver has registered its handler. `tinymac_send` puts one frame on the air; the
-- receiver acknowledges it and hands exactly the sent bytes with their type to its upper layer, as a packet of
-- its node for the sender; and the frame of the acknowledgement ends the sender's wait: the node is
-- free again, no timer is armed, and the callback hears of success. If the same frame arrives again,
-- it is acknowledged and handed on again.
pub send-delivers :
    (m k : Mac) (r s : NodeRef) (type : ℕ) (buf : List ℕ) (validity : ℕ) (cb : Option ℕ)
    (rssi rssi' : ℕ)
    → IsLinked m r k
    → IsLinked k s m
    → IsAwake m
    → IsAwake k
    → 16 ≤ type % 32
    → type < 256
    → has_bit type ack_request_bit ≡ true
    → too_large m buf ≡ false
    → has_bit (node_at m r).flags sleepy_bit ≡ false
    → k.rx_cb ≡ true
    → let frame = frame_of m r type buf in
      let ack = ack_frame k s ((m.dseq + 1) % 256) in
      let m1 = (send m k.addr type buf validity cb).0 in
      let k1 = recv_cb k frame rssi in
      let m2 = recv_cb m1 ack rssi' in
      (m1.log ≡ phy_send frame 0 ∷ m.log)
      × (k1.log ≡ received (some s) (type % 32) buf ∷ phy_send ack 0 ∷ k.log)
      × ((node_at m2 r).state ≡ NodeState.registered)
      × ((node_at m2 r).ack_timer.callback ≡ none)
      × ((node_at m2 r).validity_timer.callback ≡ none)
      × (m2.log ≡ confirmed cb m1.log)
      × ((recv_cb k1 frame rssi).log ≡ received (some s) (type % 32) buf ∷ phy_send ack 0 ∷ k1.log)
send-delivers m k r s type buf validity cb rssi rssi' v w mwake kwake ht hb ha hl hd hr =
    let h = tx_header m (some r) type in
    let sent = send-linked m k r type buf validity cb v mwake ht ha hl hd in
    let g = waiting-Waits m r type buf cb (v.free) in
    let once =
      recv_cb-acked m k r s h buf rssi v w kwake (omega arith) ht ha refl (v.peer) refl hr in
    let k1 = taken k s rssi h buf in
    let (f, ka, kn, q) = set_node-IsSameEnd k s (heard_entry k s rssi) (refl, refl) in
    let v1 = far-IsLinked m k k1 r v ka kn in
    let w1 = taken-IsLinked m k s rssi h buf w in
    let kwake1 : IsAwake k1 = rw q kwake in
    let cb1 : k1.rx_cb ≡ true = (mark_heard-Stays s rssi k).0 ∙ hr in
    let twice =
      recv_cb-acked m k1 r s h buf rssi v1 w1 kwake1 (omega arith) ht ha refl (v1.peer) refl cb1 in
    let a = ack_header-linked m k k s h.seq (w.free) (w.peer) refl refl in
    let back =
      recv_cb-ack m (waiting m r type buf cb) k r s (ack_header k s h.seq) h.seq rssi' cb v w mwake
        g a in
    let m1 = waiting m r type buf cb in
    let sent_log : m1.log ≡ phy_send (frame_of m r type buf) 0 ∷ m.log =
      ap (◌∷◌ (phy_send (frame_of m r type buf) 0))
        (log-set_node (next_dseq m) r (waiting_entry m r type buf cb)) in
    let entry = node_at-mark_heard m1 r rssi' in
    let (state, timer, validity', log) =
      rx_ack-waiting (mark_heard m1 r rssi') r (ack_header k s h.seq) cb
        (ap (λ (d : Node). d.state) entry ∙ g.state)
        (ap (λ (d : Node). d.pending_header.seq) entry ∙ g.number)
        (ap (λ (d : Node). d.send_cb) entry ∙ g.callback) in
    let ended = ap (λ (x : Mac). recv_cb x (ack_frame k s h.seq) rssi') sent ∙ back in
    let to_ack = λ (x : Mac).
      ap (λ bytes. received (some s) (type % 32) buf ∷ phy_send bytes 0 ∷ x.log)
        (ap header_bytes (sym a)) in
    (
      ap (λ (x : Mac). x.log) sent ∙ sent_log,
      ap (λ (x : Mac). x.log) once ∙ log-taken m k k s rssi h buf w refl refl ∙ to_ack k,
      ap (λ (x : Mac). (node_at x r).state) ended ∙ state,
      ap (λ (x : Mac). (node_at x r).ack_timer.callback) ended ∙ timer,
      ap (λ (x : Mac). (node_at x r).validity_timer.callback) ended ∙ validity',
      ap (λ (x : Mac). x.log) ended
          ∙ log
          ∙ ap (confirmed cb)
              (log-set_node m1 r (heard_entry m1 r rssi') ∙ ap (λ (x : Mac). x.log) (sym sent)),
      subst
          (λ (x : Mac).
            (recv_cb x (frame_of m r type buf) rssi).log
            ≡ received (some s) (type % 32) buf ∷ phy_send (ack_frame k s h.seq) 0 ∷ x.log)
          (sym once)
          (ap (λ (x : Mac). x.log) twice ∙ log-taken m k k1 s rssi h buf w1 ka kn ∙ to_ack k1),
    )
