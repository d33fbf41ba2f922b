-- ===== src/Mac/Invariant/Transmit.antt =====
-- The transmit functions of lib/tinymac.c keep the invariant.
use tinyhan.Base.{
  ℕ, ◌≤◌, refl, Bool, not, Option, none, some, List, arith, length, length-append, length-drop,
  has_bit, if_ind,
}
use tinyhan.Base.Int.{ℤ, is_neg}
use tinyhan.Mac.Types.{
  emit, phy_send, NodeRef, Header, Node, Mac, is_registered, is_send_pending, node_at, notify,
}
use tinyhan.Mac.Wire.{max_payload, ack_request_bit, sleepy_bit, header_bytes}
use tinyhan.Mac.Transmit.{
  mac_phy_send, keep_copy, tx_unicast, too_large, tx_to, tx_packet, tx_pending, tx_ack, tx_beacon,
  next_dseq, ack_header, assume_sent,
}
use tinyhan.Mac.Invariant.{
  unless-IsSound, emit-IsSound, count-IsSound, IsNodeSound, IsSound, node_at-IsNodeSound,
  set_node-IsSound,
}

pub notify-IsSound :
    {c : Bool} (m : Mac) (cb : Option ℕ) (rc : ℤ) → IsSound c m → IsSound c (notify m cb rc)
notify-IsSound m none rc v = v
notify-IsSound m (some k) rc v = emit-IsSound m _ v

pub mac_phy_send-IsSound :
    {c : Bool} (m : Mac) (frame : List ℕ) (flags : ℕ)
    → IsSound c m
    → IsSound c (mac_phy_send m frame flags).0
unfolding mac_phy_send
mac_phy_send-IsSound m frame flags v =
    let m1 = emit m (phy_send frame flags) in
    let v1 = emit-IsSound m (phy_send frame flags) v in
    unless-IsSound (has_bit m.params.flags sleepy_bit) _ m1
      (unless-IsSound (is_neg (m.phy.send_rc m.log frame)) _ _ (emit-IsSound m1 _ v1)
        (emit-IsSound m1 _ v1))
      v1

keep_copy-IsNodeSound :
    (r : NodeRef) (d : Node) (hdr : Header) (buf : List ℕ) (cb : Option ℕ)
    → length buf ≤ max_payload
    → IsNodeSound r d
    → IsNodeSound r (keep_copy d hdr buf cb)
keep_copy-IsNodeSound r d hdr buf cb h v = record {
  ack = v.ack;
  validity = v.validity;
  buffer = omega (arith, v.buffer, length-append buf, length-drop (length buf) d.pending);
  size = h;
  own_addr = v.own_addr;
}

tx_unicast-IsSound :
    {c : Bool} (m : Mac) (r : NodeRef) (hdr : Header) (type : ℕ) (buf : List ℕ) (validity : ℕ)
    (cb : Option ℕ)
    → length buf ≤ max_payload
    → IsSound c m
    → IsSound c (tx_unicast m r hdr type buf validity cb).0
unfolding tx_unicast
tx_unicast-IsSound {c} m r hdr type buf validity cb h v =
    let d = node_at m r in
    let k = keep_copy-IsNodeSound r d hdr buf cb h (node_at-IsNodeSound m r v) in
    if_ind Holds (not (is_registered d.state)) _ _ (λ _. v)
      (λ _.
        if_ind Holds (has_bit d.flags sleepy_bit) _ _
          (λ _. set_node-IsSound m r _ v (record {
            ack = k.ack;
            validity = λ t e. (cc, refl);
            buffer = k.buffer;
            size = k.size;
            own_addr = k.own_addr;
          }))
          (λ _.
            if_ind Holds (has_bit type ack_request_bit) _ _
              (λ _. mac_phy_send-IsSound _ _ 0 (
                set_node-IsSound m r _ v (record {
                  ack = λ t e. (cc, refl);
                  validity = k.validity;
                  buffer = k.buffer;
                  size = k.size;
                  own_addr = k.own_addr;
                })))
              (λ _. mac_phy_send-IsSound m _ 0 v)))
  where
    Holds : Mac × ℤ → Type 0
    Holds x = IsSound c x.0

tx_to-IsSound :
    {c : Bool} (m : Mac) (dest : Option NodeRef) (hdr : Header) (type : ℕ) (buf : List ℕ)
    (validity : ℕ) (cb : Option ℕ)
    → length buf ≤ max_payload
    → IsSound c m
    → IsSound c (tx_to m dest hdr type buf validity cb).0
unfolding tx_to
tx_to-IsSound m none hdr type buf validity cb h v = mac_phy_send-IsSound m _ 0 v
tx_to-IsSound m (some r) hdr type buf validity cb h v =
    tx_unicast-IsSound m r hdr type buf validity cb h v

pub tx_packet-IsSound :
    {c : Bool} (m : Mac) (dest : Option NodeRef) (type : ℕ) (buf : List ℕ) (validity : ℕ)
    (cb : Option ℕ)
    → IsSound c m
    → IsSound c (tx_packet m dest type buf validity cb).0
unfolding tx_packet
tx_packet-IsSound {c} m dest type buf validity cb v =
    if_ind (λ (x : Mac × ℤ). IsSound c x.0) (too_large m buf) _ _ (λ _. v)
      (λ e.
        tx_to-IsSound (next_dseq m) dest _ type buf validity cb (ground arith)
          (count-IsSound m m.tick_count _ m.bseq m.slot m.permit_attach m.log v))

assume_sent-IsSound : {c : Bool} (m : Mac) (r : NodeRef) → IsSound c m → IsSound c (assume_sent m r)
assume_sent-IsSound m r v =
    let k = node_at-IsNodeSound m r v in
    notify-IsSound _ _ _ (
      set_node-IsSound m r _ v (record {
        ack = k.ack;
        validity = λ t e. cc;
        buffer = k.buffer;
        size = k.size;
        own_addr = k.own_addr;
      }))

pub tx_pending-IsSound :
    {c : Bool} (m : Mac) (r : NodeRef) → IsSound c m → IsSound c (tx_pending m r)
unfolding tx_pending
tx_pending-IsSound {c} m r v =
    let d = node_at m r in
    let k = node_at-IsNodeSound m r v in
    if_ind (IsSound c) (not (is_send_pending d.state)) _ _ (λ _. v)
      (λ _.
        if_ind (IsSound c) (has_bit d.pending_header.flags ack_request_bit) _ _
          (λ _. mac_phy_send-IsSound _ _ 0 (
            set_node-IsSound m r _ v (record {
              ack = λ t e. (cc, refl);
              validity = k.validity;
              buffer = k.buffer;
              size = k.size;
              own_addr = k.own_addr;
            })))
          (λ _. assume_sent-IsSound _ r (
            mac_phy_send-IsSound _ _ 0 (
              set_node-IsSound m r _ v (record {
                ack = k.ack;
                validity = k.validity;
                buffer = k.buffer;
                size = k.size;
                own_addr = k.own_addr;
              })))))

pub tx_ack-IsSound :
    {c : Bool} (m : Mac) (r : NodeRef) (seq : ℕ) → IsSound c m → IsSound c (tx_ack m r seq)
unfolding tx_ack
tx_ack-IsSound {c} m r seq v =
    let w = mac_phy_send-IsSound m (header_bytes (ack_header m r seq)) 0 v in
    if_ind (IsSound c) (is_neg (mac_phy_send m (header_bytes (ack_header m r seq)) 0).1) _ _
      (λ _. w) (λ _. tx_pending-IsSound _ r w)

pub tx_beacon-IsSound :
    {c : Bool} (m : Mac) (periodic : Bool) → IsSound c m → IsSound c (tx_beacon m periodic)
unfolding tx_beacon
tx_beacon-IsSound {c} m periodic v =
    if_ind (IsSound c) (not m.params.coordinator) _ _ (λ _. v)
      (λ _.
        mac_phy_send-IsSound _ _ _
          (count-IsSound m m.tick_count m.dseq _ m.slot m.permit_attach m.log v))
