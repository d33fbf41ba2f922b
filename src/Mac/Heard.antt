-- ===== src/Mac/Heard.antt =====
-- Frames of a known node in `tinymac_recv_cb` of lib/tinymac.c: the way from the buffer to the upper layer.
use tinyhan.Base.Int.{is_neg}
use tinyhan.Base.{
  ap, inl, inr, Bool-cases, if_ind, ℕ, ◌%◌, ◌^◌, ◌<◌, ◌≤◌, ◌≡◌, refl, ◌∙◌, true, false, ◌&&◌, ◌||◌,
  not, Option, some, List, ◌++◌, arith, ◌==◌, leb, has_bit, if◌then◌else◌,
}
use tinyhan.Mac.Types.{
  NodeRef, slot_ref, coord_ref, dummy_ref, Header, Mac, node_at, set_node, emit, received, phy_send,
  Node, Effect, is_send_pending,
}
use tinyhan.Mac.Wire.{ack_request_bit, addr_unassigned, sleepy_bit, header_bytes}
use tinyhan.Mac.Wire.RoundTrip.{read_header-header_bytes}
use tinyhan.Mac.Registry.{get_node_by_addr}
use tinyhan.Mac.Transmit.{mac_phy_send, tx_pending, tx_ack, ack_header}
use tinyhan.Mac.Receive.{
  packet_type, rx_packet, heard_from, rx_accepted, is_addressed, is_barred, listen_or_sleep,
  recv_cb,
}
use tinyhan.Mac.Handshake.Parts.{length-frame}

-- A data frame goes to the upper layer.
pub rx_packet-data :
    (m : Mac) (sender : Option NodeRef) (h : Header) (p : List ℕ)
    → h.flags < 2 ^ 16
    → 16 ≤ packet_type h
    → m.rx_cb ≡ true
    → rx_packet m sender h (header_bytes h ++ p) ≡ emit m (received sender (packet_type h) p)
unfolding rx_packet
rx_packet-data m sender h p hf ht hc =
    let upper : leb 16 (packet_type h) ≡ true = ground arith in
    rw (rx_packet, upper, (read_header-header_bytes h p hf).1, hc) refl

-- A frame that passes the filter of `tinymac_recv_cb` and comes from a node that is known.
pub recv_cb-known :
    (k : Mac) (h : Header) (p : List ℕ) (rssi : ℕ) (r : NodeRef)
    → h.flags < 2 ^ 16
    → (h.src_addr == k.addr || not (is_addressed k h) || is_barred k h) ≡ false
    → (not (k.addr == addr_unassigned) && not (h.src_addr == addr_unassigned)) ≡ true
    → has_bit k.params.flags sleepy_bit ≡ false
    → get_node_by_addr k h.src_addr ≡ some r
    → recv_cb k (header_bytes h ++ p) rssi
      ≡ rx_packet (heard_from k r h rssi) (some r) h (header_bytes h ++ p)
unfolding recv_cb rx_accepted
recv_cb-known k h p rssi r hf hb ha hw hi =
    let awake : listen_or_sleep k h ≡ k = rw hw refl in
    rw ((read_header-header_bytes h p hf).0, length-frame h p, hb, awake, ha, hi) refl

-- What a frame of a known node changes of it before its packet is handed on.
abbrev pub Stays : NodeRef → Mac → Mac → Type 0
Stays r m m' = (m'.rx_cb ≡ m.rx_cb) × ((node_at m' r).addr ≡ (node_at m r).addr)

tx_pending-Stays : (r : NodeRef) (m : Mac) → Stays r m (tx_pending m r)
unfolding tx_pending mac_phy_send
tx_pending-Stays (slot_ref i) m = (ground arith, ground arith)
tx_pending-Stays coord_ref m = (ground arith, ground arith)
tx_pending-Stays dummy_ref m = (ground arith, ground arith)

then-Stays : (r : NodeRef) (m m' m'' : Mac) → Stays r m m' → Stays r m' m'' → Stays r m m''
then-Stays r m m' m'' (c, a) (c', a') = (c' ∙ c, a' ∙ a)

mac_phy_send-Stays :
    (r : NodeRef) (flags : ℕ) (m : Mac) (frame : List ℕ) → Stays r m (mac_phy_send m frame flags).0
unfolding mac_phy_send
mac_phy_send-Stays (slot_ref i) flags m frame = (ground arith, ground arith)
mac_phy_send-Stays coord_ref flags m frame = (ground arith, ground arith)
mac_phy_send-Stays dummy_ref flags m frame = (ground arith, ground arith)

tx_ack-Stays : (r : NodeRef) (seq : ℕ) (m : Mac) → Stays r m (tx_ack m r seq)
unfolding tx_ack
tx_ack-Stays r seq m =
    let frame = header_bytes (ack_header m r seq) in
    let m1 = (mac_phy_send m frame 0).0 in
    let s = mac_phy_send-Stays r 0 m frame in
    if_ind (Stays r m) (is_neg (mac_phy_send m frame 0).1) m1 (tx_pending m1 r) (λ _. s)
      (λ _. then-Stays r m m1 (tx_pending m1 r) s (tx_pending-Stays r m1))

-- The writes of `node->last_heard` and `node->rssi` in `tinymac_recv_cb`.
abbrev pub heard_entry : Mac → NodeRef → ℕ → Node
heard_entry m r rssi = record (node_at m r) { last_heard = m.tick_count; rssi = rssi % 256 }

abbrev pub mark_heard : Mac → NodeRef → ℕ → Mac
mark_heard m r rssi = set_node m r (heard_entry m r rssi)

pub mark_heard-Stays : (r : NodeRef) (rssi : ℕ) (m : Mac) → Stays r m (mark_heard m r rssi)
mark_heard-Stays (slot_ref i) rssi m = (refl, ground arith)
mark_heard-Stays coord_ref rssi m = (refl, refl)
mark_heard-Stays dummy_ref rssi m = (refl, refl)

pub heard_from-Stays :
    (r : NodeRef) (rssi : ℕ) (m : Mac) (h : Header) → Stays r m (heard_from m r h rssi)
unfolding heard_from
heard_from-Stays r rssi m h =
    let m1 = mark_heard m r rssi in
    let own = mark_heard-Stays r rssi m in
    let b = has_bit h.flags ack_request_bit in
    let m2 = if b then tx_ack m1 r h.seq else m1 in
    let s : Stays r m m2 =
      if_ind (Stays r m) b (tx_ack m1 r h.seq) m1
        (λ _. then-Stays r m m1 (tx_ack m1 r h.seq) own (tx_ack-Stays r h.seq m1)) (λ _. own) in
    then-Stays r m m2 (tx_pending m2 r) s (tx_pending-Stays r m2)

pub node_at-mark_heard :
    (m : Mac) (r : NodeRef) (rssi : ℕ) → node_at (mark_heard m r rssi) r ≡ heard_entry m r rssi
node_at-mark_heard m (slot_ref i) rssi = ground arith
node_at-mark_heard m coord_ref rssi = refl
node_at-mark_heard m dummy_ref rssi = refl

pub node_at-emit : (m : Mac) (r : NodeRef) (e : Effect) → node_at (emit m e) r ≡ node_at m r
node_at-emit m (slot_ref i) e = refl
node_at-emit m coord_ref e = refl
node_at-emit m dummy_ref e = refl

params-mark_heard : (m : Mac) (r : NodeRef) (rssi : ℕ) → (mark_heard m r rssi).params ≡ m.params
params-mark_heard m (slot_ref i) rssi = refl
params-mark_heard m coord_ref rssi = refl
params-mark_heard m dummy_ref rssi = refl

tx_pending-free :
    (m : Mac) (r : NodeRef) → is_send_pending (node_at m r).state ≡ false → tx_pending m r ≡ m
unfolding tx_pending
tx_pending-free m r h = rw h refl

tx_ack-free :
    (m : Mac) (r : NodeRef) (seq : ℕ)
    → has_bit m.params.flags sleepy_bit ≡ false
    → is_send_pending (node_at m r).state ≡ false
    → tx_ack m r seq ≡ emit m (phy_send (header_bytes (ack_header m r seq)) 0)
unfolding tx_ack mac_phy_send
tx_ack-free m r seq hs hr =
    let frame = header_bytes (ack_header m r seq) in
    let m1 = emit m (phy_send frame 0) in
    let free =
      ap (λ (d : Node). is_send_pending d.state) (node_at-emit m r (phy_send frame 0)) ∙ hr in
    rw hs (
      if_ind (λ (x : Mac). x ≡ m1) (is_neg (m.phy.send_rc m.log frame)) m1 (tx_pending m1 r)
        (λ _. refl) (λ _. tx_pending-free m1 r free))

-- A frame of a node for which nothing is pending is acknowledged, if it asks for that, and no more.
pub heard_from-free :
    (m : Mac) (r : NodeRef) (rssi : ℕ) (h : Header)
    → has_bit m.params.flags sleepy_bit ≡ false
    → is_send_pending (node_at m r).state ≡ false
    → let m1 = mark_heard m r rssi in
      let ack = header_bytes (ack_header m1 r h.seq) in
      heard_from m r h rssi
      ≡ (if has_bit h.flags ack_request_bit then emit m1 (phy_send ack 0) else m1)
unfolding heard_from
heard_from-free m r rssi h hs hr =
    let m1 = mark_heard m r rssi in
    let free : is_send_pending (node_at m1 r).state ≡ false =
      ap (λ (d : Node). is_send_pending d.state) (node_at-mark_heard m r rssi) ∙ hr in
    let ack = phy_send (header_bytes (ack_header m1 r h.seq)) 0 in
    let free' : is_send_pending (node_at (emit m1 ack) r).state ≡ false =
      ap (λ (d : Node). is_send_pending d.state) (node_at-emit m1 r ack) ∙ free in
    let awake : has_bit m1.params.flags sleepy_bit ≡ false = rw (params-mark_heard m r rssi) hs in
    elim (Bool-cases (has_bit h.flags ack_request_bit)) [
      | inl b ↦ rw (b, tx_ack-free m1 r h.seq awake free) (tx_pending-free (emit m1 ack) r free')
      | inr b ↦ rw b (tx_pending-free m1 r free)
    ]
