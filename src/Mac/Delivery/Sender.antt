-- ===== src/Mac/Delivery/Sender.antt =====
-- The sender of an acknowledged packet in lib/tinymac.c: its wait, and the frame that ends it.
use mathlib.Core.List.{append-nil}
use tinyhan.Base.{
  ap, ℕ, ◌+◌, ◌%◌, ◌≤◌, ◌≡◌, refl, sym, ◌∙◌, true, false, Option, none, some, List, [], ◌++◌, arith,
  ◌==◌, ltb, has_bit, bit_or, if◌then◌else◌,
}
use tinyhan.Mac.Types.{
  NodeState, NodeRef, slot_ref, coord_ref, dummy_ref, Header, Node, Mac, node_at, set_node,
  ack_timeout_cb, is_send_pending, emit, phy_send,
}
use tinyhan.Mac.Wire.PacketType
use tinyhan.Mac.Wire.{millis, ack_timeout_ms, ack_request_bit, sleepy_bit, header_bytes}
use tinyhan.Mac.Registry.{get_node_by_addr}
use tinyhan.Mac.Transmit.{
  next_dseq, keep_copy, mac_phy_send, tx_unicast, tx_header, too_large, tx_to, tx_packet,
  ack_header,
}
use tinyhan.Mac.Transmit.Exchange.{frame_of}
use tinyhan.Mac.Transmit.Acks.{confirmed}
use tinyhan.Mac.Receive.{rx_ack, rx_control, rx_packet, heard_from, recv_cb}
use tinyhan.Mac.Timers.{set_timer}
use tinyhan.Mac.Api.{send, send_to, heartbeat_of}
use tinyhan.Mac.Heard.{recv_cb-known, heard_from-free, mark_heard, node_at-emit}
use tinyhan.Mac.Links.{
  IsAwake, passes, IsLinked, get_node_by_addr-emit, set_node-IsSameEnd, IsSameEntry,
}

-- The sender while it waits for the ack with this number.
pub record Waits (m m1 : Mac) (r : NodeRef) (seq : ℕ) (cb : Option ℕ) : Type 0 where
  pub state : (node_at m1 r).state ≡ NodeState.wait_ack
  pub peer : (node_at m1 r).addr ≡ (node_at m r).addr
  pub number : (node_at m1 r).pending_header.seq ≡ seq
  pub callback : (node_at m1 r).send_cb ≡ cb
  pub found : (a : ℕ) → get_node_by_addr m1 a ≡ get_node_by_addr m a
  pub own : m1.addr ≡ m.addr
  pub network : m1.net_id ≡ m.net_id
  pub params : m1.params ≡ m.params

-- The entry that a send with an ack request leaves.
abbrev pub waiting_entry : Mac → NodeRef → ℕ → List ℕ → Option ℕ → Node
waiting_entry m r type buf cb =
    record (keep_copy (node_at m r) (tx_header m (some r) type) buf cb) {
      ack_timer = set_timer m ack_timeout_cb (some r) (millis ack_timeout_ms);
      state = NodeState.wait_ack;
    }

abbrev pub waiting : Mac → NodeRef → ℕ → List ℕ → Option ℕ → Mac
waiting m r type buf cb =
    emit (set_node (next_dseq m) r (waiting_entry m r type buf cb))
      (phy_send (frame_of m r type buf) 0)

tx_packet-acked :
    (m : Mac) (r : NodeRef) (type : ℕ) (buf : List ℕ) (validity : ℕ) (cb : Option ℕ)
    → has_bit m.params.flags sleepy_bit ≡ false
    → too_large m buf ≡ false
    → (node_at m r).state ≡ NodeState.registered
    → has_bit (node_at m r).flags sleepy_bit ≡ false
    → has_bit type ack_request_bit ≡ true
    → (tx_packet m (some r) type buf validity cb).0 ≡ waiting m r type buf cb
unfolding tx_packet tx_to tx_unicast mac_phy_send
tx_packet-acked m (slot_ref i) type buf validity cb hs ht hr hd ha = rw (ht, hr, hd, ha, hs) refl
tx_packet-acked m coord_ref type buf validity cb hs ht hr hd ha = rw (ht, hr, hd, ha, hs) refl
tx_packet-acked m dummy_ref type buf validity cb hs ht hr hd ha = rw (ht, hr, hd, ha, hs) refl

node_at-set_node : (m : Mac) (r : NodeRef) (d : Node) → node_at (set_node m r d) r ≡ d
node_at-set_node m (slot_ref i) d = ground arith
node_at-set_node m coord_ref d = refl
node_at-set_node m dummy_ref d = refl

node_at-next_dseq : (m : Mac) (r : NodeRef) → node_at (next_dseq m) r ≡ node_at m r
node_at-next_dseq m (slot_ref i) = refl
node_at-next_dseq m coord_ref = refl
node_at-next_dseq m dummy_ref = refl

get_node_by_addr-next_dseq :
    (m : Mac) (a : ℕ) → get_node_by_addr (next_dseq m) a ≡ get_node_by_addr m a
unfolding get_node_by_addr
get_node_by_addr-next_dseq m a = refl

pub waiting-Waits :
    (m : Mac) (r : NodeRef) (type : ℕ) (buf : List ℕ) (cb : Option ℕ)
    → (node_at m r).state ≡ NodeState.registered
    → Waits m (waiting m r type buf cb) r ((m.dseq + 1) % 256) cb
waiting-Waits m r type buf cb hr =
    let d = waiting_entry m r type buf cb in
    let e = phy_send (frame_of m r type buf) 0 in
    let before : node_at (next_dseq m) r ≡ node_at m r = node_at-next_dseq m r in
    let entry : node_at (waiting m r type buf cb) r ≡ d =
      node_at-emit (set_node (next_dseq m) r d) r e ∙ node_at-set_node (next_dseq m) r d in
    let same : IsSameEntry (node_at (next_dseq m) r) d = rw before (refl, rw hr refl) in
    let (f, a, n, q) = set_node-IsSameEnd (next_dseq m) r d same in
    record {
      state = ap (λ (x : Node). x.state) entry;
      peer = ap (λ (x : Node). x.addr) entry;
      number = ap (λ (x : Node). x.pending_header.seq) entry;
      callback = ap (λ (x : Node). x.send_cb) entry;
      found = λ b.
          get_node_by_addr-emit (set_node (next_dseq m) r d) e b
          ∙ f b
          ∙ get_node_by_addr-next_dseq m b;
      own = a;
      network = n;
      params = q;
    }

-- The ack that a waiting node waits for.
pub rx_ack-waiting :
    (m : Mac) (r : NodeRef) (h : Header) (cb : Option ℕ)
    → (node_at m r).state ≡ NodeState.wait_ack
    → (node_at m r).pending_header.seq ≡ h.seq
    → (node_at m r).send_cb ≡ cb
    → let m1 = rx_ack m (some r) h in
      ((node_at m1 r).state ≡ NodeState.registered)
      × ((node_at m1 r).ack_timer.callback ≡ none)
      × ((node_at m1 r).validity_timer.callback ≡ none)
      × (m1.log ≡ confirmed cb m.log)
unfolding rx_ack
rx_ack-waiting m (slot_ref i) h cb hs hq hc =
    (ground arith, ground arith, ground arith, ground arith)
rx_ack-waiting m coord_ref h cb hs hq hc = (ground arith, ground arith, ground arith, ground arith)
rx_ack-waiting m dummy_ref h cb hs hq hc = (ground arith, ground arith, ground arith, ground arith)

rx_packet-ack :
    (m : Mac) (r : NodeRef) (h : Header) (buf : List ℕ)
    → h.flags ≡ PacketType.ack
    → rx_packet m (some r) h buf ≡ rx_ack m (some r) h
unfolding rx_packet rx_control
rx_packet-ack m r h buf hf = rw hf refl

-- The frame of an ack arrives at a sender that waits for it.
pub recv_cb-ack :
    (m m1 k : Mac) (r s : NodeRef) (h : Header) (seq rssi : ℕ) (cb : Option ℕ)
    → IsLinked m r k
    → IsLinked k s m
    → IsAwake m
    → Waits m m1 r seq cb
    → h ≡ record { flags = 3; net_id = k.net_id; dest_addr = m.addr; src_addr = k.addr; seq = seq }
    → recv_cb m1 (header_bytes h) rssi ≡ rx_ack (mark_heard m1 r rssi) (some r) h
recv_cb-ack m m1 k r s h seq rssi cb v w wake g e =
    let net : h.net_id ≡ k.net_id = ap (λ (x : Header). x.net_id) e in
    let dest : h.dest_addr ≡ m.addr = ap (λ (x : Header). x.dest_addr) e in
    let src : h.src_addr ≡ k.addr = ap (λ (x : Header). x.src_addr) e in
    let flags : h.flags ≡ 3 = ap (λ (x : Header). x.flags) e in
    let (b, a) = passes k m m1 s r h w v (g.own) (g.network) net dest src in
    let busy : is_send_pending (node_at m1 r).state ≡ false = rw (g.state) refl in
    let awake : has_bit m1.params.flags sleepy_bit ≡ false = rw (g.params) wake in
    let known : get_node_by_addr m1 h.src_addr ≡ some r =
      g.found h.src_addr ∙ ap (get_node_by_addr m) src ∙ v.found in
    let quiet : has_bit h.flags ack_request_bit ≡ false = rw flags refl in
    ap (λ frame. recv_cb m1 frame rssi) (sym (append-nil (header_bytes h)))
    ∙ recv_cb-known m1 h [] rssi r (omega (arith, flags)) b a awake known
    ∙ rx_packet-ack (heard_from m1 r h rssi) r h (header_bytes h ++ []) flags
    ∙ ap (λ (x : Mac). rx_ack x (some r) h) (heard_from-free m1 r rssi h awake busy ∙ rw quiet refl)

-- The frame of the ack that the far end sends.
abbrev pub ack_frame : Mac → NodeRef → ℕ → List ℕ
ack_frame k s seq = header_bytes (ack_header k s seq)

abbrev pub ack_between : Mac → Mac → ℕ → Header
ack_between k m seq = record {
  flags = PacketType.ack;
  net_id = k.net_id;
  dest_addr = m.addr;
  src_addr = k.addr;
  seq = seq;
}

pub ack_header-linked :
    (m k x : Mac) (s : NodeRef) (seq : ℕ)
    → (node_at x s).state ≡ NodeState.registered
    → (node_at x s).addr ≡ m.addr
    → x.addr ≡ k.addr
    → x.net_id ≡ k.net_id
    → ack_header x s seq ≡ ack_between k m seq
ack_header-linked m k x s seq hs hd ha hn =
    let flags : (if is_send_pending (node_at x s).state
          then bit_or PacketType.ack 0x80
          else PacketType.ack)
        ≡ PacketType.ack =
      rw hs refl in
    λ i. record { flags = flags i; net_id = hn i; dest_addr = hd i; src_addr = ha i; seq = seq }

pub send-linked :
    (m k : Mac) (r : NodeRef) (type : ℕ) (buf : List ℕ) (validity : ℕ) (cb : Option ℕ)
    → IsLinked m r k
    → IsAwake m
    → 16 ≤ type % 32
    → has_bit type ack_request_bit ≡ true
    → too_large m buf ≡ false
    → has_bit (node_at m r).flags sleepy_bit ≡ false
    → (send m k.addr type buf validity cb).0 ≡ waiting m r type buf cb
unfolding send send_to
send-linked m k r type buf validity cb v wake ht ha hl hd =
    let upper : ltb (type % 32) 16 ≡ false = ground arith in
    rw (upper, v.found)
      (tx_packet-acked m r type buf (if validity == 0 then heartbeat_of (node_at m r) else validity)
        cb wake hl (v.free) hd ha)
