-- ===== src/Gateway/Relays.antt =====
-- What examples/mqttsn-simple-gateway/main.c relays to the broker.
use tinyhan.Base.{
  ap, ℕ, ◌^◌, ◌<◌, ◌≡◌, ◌≢◌, refl, ◌∙◌, true, false, ◌||◌, not, none, some, List, ◌∷◌, ◌++◌, arith,
  ◌==◌, has_bit,
}
use tinyhan.Mac.Types.{slot_ref, Header, Mac, received}
use tinyhan.Mac.Wire.{addr_unassigned, sleepy_bit, header_bytes}
use tinyhan.Mac.Registry.{get_node_by_addr}
use tinyhan.Mac.Receive.{
  packet_type, rx_packet, heard_from, is_addressed, is_barred, listen_or_sleep, recv_cb,
}
use tinyhan.Mac.Handshake.Parts.{recv_cb-header_bytes}
use tinyhan.Mac.Heard.{rx_packet-data, recv_cb-known, heard_from-Stays}
use tinyhan.Gateway.{to_broker, null_read, rx_handler, type_mqttsn}

-- A coordinator that permits attachment hands a packet with the unassigned source address to its upper layer
-- without a node, and `rx_handler` then reads through the null pointer, when the packet is of type MQTT-SN.
-- The frame is sent to the coordinator's network and address, the coordinator has an address and is
-- not sleepy, and the handler is registered.
pub rx_handler-unassigned :
    (k : Mac) (h : Header) (p : List ℕ) (rssi : ℕ)
    → h.flags < 2 ^ 16
    → packet_type h ≡ type_mqttsn
    → h.src_addr ≡ addr_unassigned
    → h.net_id ≡ k.net_id
    → h.dest_addr ≡ k.addr
    → k.addr ≢ addr_unassigned
    → k.params.coordinator ≡ true
    → k.permit_attach ≡ true
    → has_bit k.params.flags sleepy_bit ≡ false
    → k.rx_cb ≡ true
    → let k1 = recv_cb k (header_bytes h ++ p) rssi in
      (k1.log ≡ received none type_mqttsn p ∷ k.log)
      × (rx_handler k1 none type_mqttsn p ≡ null_read)
unfolding rx_handler
rx_handler-unassigned k h p rssi hf ht hs hn hd ha hc hp hw hr =
    let e = recv_cb-header_bytes k h p rssi hf (ground arith) (ground arith) in
    let awake : listen_or_sleep k h ≡ k = rw hw refl in
    (
      ap (λ (x : Mac). x.log) e
          ∙ ap (λ x. (rx_packet x none h (header_bytes h ++ p)).log) awake
          ∙ ap (λ (x : Mac). x.log) (rx_packet-data k none h p hf (omega (arith, ht)) hr)
          ∙ ap (λ t. received none t p ∷ k.log) ht,
      refl,
    )

-- A coordinator that is awake hands an MQTT-SN packet of a known node to `rx_handler` with that node, and
-- the packet's payload goes to the broker from the socket of the frame's source address. The frame
-- passes the filter of `tinymac_recv_cb`, its source is looked up to a slot with this address, and
-- the handler is registered.
pub rx_handler-known :
    (k : Mac) (h : Header) (p : List ℕ) (rssi i : ℕ)
    → h.flags < 2 ^ 16
    → packet_type h ≡ type_mqttsn
    → (h.src_addr == k.addr || not (is_addressed k h) || is_barred k h) ≡ false
    → k.addr ≢ addr_unassigned
    → h.src_addr ≢ addr_unassigned
    → has_bit k.params.flags sleepy_bit ≡ false
    → get_node_by_addr k h.src_addr ≡ some (slot_ref i)
    → (k.nodes i).addr ≡ h.src_addr
    → k.rx_cb ≡ true
    → let k1 = recv_cb k (header_bytes h ++ p) rssi in
      (k1.log ≡ received (some (slot_ref i)) type_mqttsn p ∷ (heard_from k (slot_ref i) h rssi).log)
      × (rx_handler k1 (some (slot_ref i)) type_mqttsn p ≡ to_broker h.src_addr p)
unfolding rx_handler
rx_handler-known k h p rssi i hf ht hb ha hs hw hi hn hr =
    let r = slot_ref i in
    let m1 = heard_from k r h rssi in
    let (cb, addr) = heard_from-Stays r rssi k h in
    let e =
      recv_cb-known k h p rssi r hf hb (ground arith) hw hi
      ∙ rx_packet-data m1 (some r) h p hf (omega (arith, ht)) (cb ∙ hr) in
    (
      ap (λ (x : Mac). x.log) e ∙ ap (λ t. received (some r) t p ∷ m1.log) ht,
      ap (λ a. to_broker a p) (ap (λ (x : Mac). (x.nodes i).addr) e ∙ addr ∙ hn),
    )
