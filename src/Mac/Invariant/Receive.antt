-- ===== src/Mac/Invariant/Receive.antt =====
-- The receive handlers of lib/tinymac.c keep the invariant, for every buffer.
use tinyhan.Base.{
  ℕ, zero, suc, ap, ◌%◌, ◌+◌, ◌≡◌, refl, Bool, false, ◌&&◌, ◌||◌, not, Option, none, some, List,
  arith, ◌==◌, ltb, leb, has_bit, if_ind, length,
}
use tinyhan.Mac.Types.{
  NodeRef, slot_ref, coord_ref, dummy_ref, Header, Mac, node_at, set_node, is_wait_ack,
}
use tinyhan.Mac.Wire.PacketType
use tinyhan.Mac.Wire.{
  addr_unassigned, max_nodes, ack_request_bit, data_pending_bit, sleepy_bit, header_size,
  beacon_size, registration_request_size, deregistration_request_size, registration_response_size,
  read_header, payload_of, payload_uuid,
}
use tinyhan.Mac.Registry.{find_from, has_addr, as_ref, get_node_by_addr}
use tinyhan.Mac.Coordinator.{
  enter_node, announce, register_in, rx_registration_request, deregister_in,
  rx_deregistration_request,
}
use tinyhan.Mac.Receive.{
  rx_ack, packet_type, rx_control, rx_packet, heard_from, zeros, rx_unknown, rx_from, rx_accepted,
  is_addressed, is_barred, listen_or_sleep, recv_cb,
}
use tinyhan.Mac.Invariant.{
  emit-IsSound, unless-IsSound, IsSound, IsPeer, node_at-IsNodeSound, set_node-IsSound,
}
use tinyhan.Mac.Invariant.Transmit.{
  notify-IsSound, tx_packet-IsSound, tx_pending-IsSound, tx_ack-IsSound, tx_beacon-IsSound,
}
use tinyhan.Mac.Invariant.Timeouts.{deregister_node-IsSound}
use tinyhan.Mac.Invariant.Clients.{rx_beacon-IsSound, rx_registration_response-IsSound}

as_ref-IsPeer : (c : Bool) (o : Option ℕ) (r : NodeRef) → as_ref o ≡ some r → IsPeer c r
as_ref-IsPeer c none r e = cc
as_ref-IsPeer c (some i) (slot_ref j) e = tt
as_ref-IsPeer c (some i) coord_ref e = cc
as_ref-IsPeer c (some i) dummy_ref e = cc

-- What a look-up by address finds may be deregistered.
get_node_by_addr-IsPeer :
    {c : Bool} (m : Mac) (a : ℕ) (r : NodeRef)
    → IsSound c m
    → get_node_by_addr m a ≡ some r
    → IsPeer c r
unfolding get_node_by_addr
get_node_by_addr-IsPeer m a (slot_ref i) v e = tt
get_node_by_addr-IsPeer {c} m a coord_ref v e =
    ground (arith, v.fixed, as_ref-IsPeer c (find_from (has_addr a) m.nodes max_nodes 0) coord_ref)
get_node_by_addr-IsPeer m a dummy_ref v e = tt

announce-IsSound :
    {c : Bool} (m : Mac) (o : Option NodeRef) → IsSound c m → IsSound c (announce m o)
announce-IsSound m o v = unless-IsSound m.reg_cb _ m (emit-IsSound m _ v) v

register_in-IsSound :
    {c : Bool} (m : Mac) (o : Option ℕ) (p : List ℕ) → IsSound c m → IsSound c (register_in m o p)
unfolding register_in
register_in-IsSound m (some i) p v =
    let k = node_at-IsNodeSound m (slot_ref i) v in
    announce-IsSound _ _ (
      tx_packet-IsSound (enter_node m i p) none _ _ 0 none (
        set_node-IsSound m (slot_ref i) _ v (record {
          ack = k.ack;
          validity = k.validity;
          buffer = k.buffer;
          size = k.size;
          own_addr = k.own_addr;
        })))
register_in-IsSound m none p v = announce-IsSound _ none (tx_packet-IsSound m none _ _ 0 none v)

rx_registration_request-IsSound :
    {c : Bool} (m : Mac) (p : List ℕ) → IsSound c m → IsSound c (rx_registration_request m p)
unfolding rx_registration_request
rx_registration_request-IsSound {c} m p v =
    if_ind (IsSound c) (not m.params.coordinator) _ _ (λ _. v) (λ _. register_in-IsSound m _ p v)

deregister_in-IsSound :
    {c : Bool} (m : Mac) (o : Option NodeRef) (p : List ℕ)
    → ((r : NodeRef) → o ≡ some r → IsPeer c r)
    → IsSound c m
    → IsSound c (deregister_in m o p)
unfolding deregister_in
deregister_in-IsSound m none p h v = v
deregister_in-IsSound {c} m (some r) p h v =
    if_ind (IsSound c) (not ((node_at m r).uuid == payload_uuid p)) _ _ (λ _. v)
      (λ _. deregister_node-IsSound _ r (h r refl) (tx_packet-IsSound m (some r) _ _ 0 none v))

rx_deregistration_request-IsSound :
    {c : Bool} (m : Mac) (hdr : Header) (p : List ℕ)
    → IsSound c m
    → IsSound c (rx_deregistration_request m hdr p)
unfolding rx_deregistration_request
rx_deregistration_request-IsSound {c} m hdr p v =
    if_ind (IsSound c) (not m.params.coordinator) _ _ (λ _. v)
      (λ _.
        deregister_in-IsSound m (get_node_by_addr m hdr.src_addr) p
          (λ r e. get_node_by_addr-IsPeer m hdr.src_addr r v e) v)

rx_ack-IsSound :
    {c : Bool} (m : Mac) (o : Option NodeRef) (hdr : Header)
    → IsSound c m
    → IsSound c (rx_ack m o hdr)
unfolding rx_ack
rx_ack-IsSound m none hdr v = v
rx_ack-IsSound {c} m (some r) hdr v =
    let k = node_at-IsNodeSound m r v in
    if_ind (IsSound c)
      (is_wait_ack (node_at m r).state && hdr.seq == (node_at m r).pending_header.seq) _ _
      (λ _. notify-IsSound _ _ _ (
        set_node-IsSound m r _ v (record {
          ack = λ t e. cc;
          validity = λ t e. cc;
          buffer = k.buffer;
          size = k.size;
          own_addr = k.own_addr;
        })))
      (λ _. v)

rx_control-IsSound :
    {c : Bool} (m : Mac) (o : Option NodeRef) (hdr : Header) (buf : List ℕ)
    → IsSound c m
    → IsSound c (rx_control m o hdr buf)
unfolding rx_control
rx_control-IsSound {c} m o hdr buf v =
    let p = payload_of buf in
    unless-IsSound (packet_type hdr == PacketType.beacon) _ _
      (unless-IsSound (ltb (length buf) (header_size + beacon_size)) m _ v
        (rx_beacon-IsSound m hdr p v))
      (unless-IsSound (packet_type hdr == PacketType.ack) _ _ (rx_ack-IsSound m o hdr v) (
        unless-IsSound (packet_type hdr == PacketType.beacon_request) _ _
          (tx_beacon-IsSound m false v)
          (unless-IsSound (packet_type hdr == PacketType.registration_request) _ _
            (unless-IsSound (ltb (length buf) (header_size + registration_request_size)) m _ v
              (rx_registration_request-IsSound m p v))
            (unless-IsSound (packet_type hdr == PacketType.deregistration_request) _ _
              (unless-IsSound (ltb (length buf) (header_size + deregistration_request_size)) m _ v
                (rx_deregistration_request-IsSound m hdr p v))
              (unless-IsSound (packet_type hdr == PacketType.registration_response) _ _
                (unless-IsSound (ltb (length buf) (header_size + registration_response_size)) m _ v
                  (rx_registration_response-IsSound m hdr p v))
                v)))))

rx_packet-IsSound :
    {c : Bool} (m : Mac) (o : Option NodeRef) (hdr : Header) (buf : List ℕ)
    → IsSound c m
    → IsSound c (rx_packet m o hdr buf)
unfolding rx_packet
rx_packet-IsSound {c} m o hdr buf v =
    unless-IsSound (leb PacketType.raw_data (packet_type hdr)) _ _
      (unless-IsSound m.rx_cb _ m (emit-IsSound m _ v) v) (rx_control-IsSound m o hdr buf v)

heard_from-IsSound :
    {c : Bool} (m : Mac) (r : NodeRef) (hdr : Header) (rssi : ℕ)
    → IsSound c m
    → IsSound c (heard_from m r hdr rssi)
unfolding heard_from
heard_from-IsSound {c} m r hdr rssi v =
    let k = node_at-IsNodeSound m r v in
    let m1 = set_node m r (record (node_at m r) { last_heard = m.tick_count; rssi = rssi % 256 }) in
    let v1 : IsSound c m1 = set_node-IsSound m r _ v (record {
      ack = k.ack;
      validity = k.validity;
      buffer = k.buffer;
      size = k.size;
      own_addr = k.own_addr;
    }) in
    tx_pending-IsSound _ r
      (unless-IsSound (has_bit hdr.flags ack_request_bit) _ m1 (tx_ack-IsSound m1 r hdr.seq v1) v1)

pub length-zeros : (n : ℕ) → length (zeros n) ≡ n
unfolding zeros
length-zeros zero = refl
length-zeros (suc n) = ap suc (length-zeros n)

rx_unknown-IsSound :
    {c : Bool} (m : Mac) (hdr : Header) → IsSound c m → IsSound c (rx_unknown m hdr)
unfolding rx_unknown
rx_unknown-IsSound {c} m hdr v =
    unless-IsSound m.params.coordinator _ m
      (tx_packet-IsSound _ (some dummy_ref) _ _ 0 none (
        set_node-IsSound m dummy_ref _ v (record {
          ack = λ t e. cc;
          validity = λ t e. cc;
          buffer = length-zeros 128;
          size = omega arith;
          own_addr = tt;
        })))
      v

rx_from-IsSound :
    {c : Bool} (m : Mac) (o : Option NodeRef) (hdr : Header) (buf : List ℕ) (rssi : ℕ)
    → IsSound c m
    → IsSound c (rx_from m o hdr buf rssi)
unfolding rx_from
rx_from-IsSound m (some r) hdr buf rssi v =
    rx_packet-IsSound _ (some r) hdr buf (heard_from-IsSound m r hdr rssi v)
rx_from-IsSound m none hdr buf rssi v = rx_unknown-IsSound m hdr v

rx_accepted-IsSound :
    {c : Bool} (m : Mac) (hdr : Header) (buf : List ℕ) (rssi : ℕ)
    → IsSound c m
    → IsSound c (rx_accepted m hdr buf rssi)
unfolding rx_accepted
rx_accepted-IsSound m hdr buf rssi v =
    unless-IsSound (not (m.addr == addr_unassigned) && not (hdr.src_addr == addr_unassigned)) _ _
      (rx_from-IsSound m (get_node_by_addr m hdr.src_addr) hdr buf rssi v)
      (rx_packet-IsSound m none hdr buf v)

-- Whatever bytes the PHY delivers, the handler keeps the invariant.
pub recv_cb-IsSound :
    {c : Bool} (m : Mac) (buf : List ℕ) (rssi : ℕ) → IsSound c m → IsSound c (recv_cb m buf rssi)
unfolding recv_cb
recv_cb-IsSound {c} m buf rssi v =
    let hdr = read_header buf in
    unless-IsSound (ltb (length buf) header_size) m _ v (
      unless-IsSound (hdr.src_addr == m.addr || not (is_addressed m hdr) || is_barred m hdr) m _ v (
        rx_accepted-IsSound (listen_or_sleep m hdr) hdr buf rssi (
          unless-IsSound (has_bit m.params.flags sleepy_bit) _ m
            (unless-IsSound (has_bit hdr.flags data_pending_bit) _ _ (emit-IsSound m _ v)
              (emit-IsSound m _ v))
            v)))
