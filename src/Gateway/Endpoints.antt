-- ===== src/Gateway/Endpoints.antt =====
-- A node of examples/mqttsn-client/main.c that is registered with examples/mqttsn-simple-gateway/main.c: what
-- goes through the two between the client of lib/mqttsn-client.c and the broker.
use tinyhan.Base.{
  ap, ℕ, ◌%◌, ◌<◌, ◌≡◌, refl, sym, ◌∙◌, true, false, none, some, List, [], ◌∷◌, arith, ltb, has_bit,
}
use tinyhan.Mac.Types.{slot_ref, coord_ref, Mac, phy_send, received}
use tinyhan.Mac.Wire.{sleepy_bit}
use tinyhan.Mac.Transmit.{too_large}
use tinyhan.Mac.Transmit.Exchange.{frame_of}
use tinyhan.Mac.Receive.{recv_cb}
use tinyhan.Mac.Heard.{heard_entry, mark_heard-Stays}
use tinyhan.Mac.Links.{IsAwake, IsLinked, log-set_node}
use tinyhan.Mac.Api.{send}
use tinyhan.Mac.Unacked.{send-unacked, recv_cb-unacked, handed-unacked}
use tinyhan.Mqttsn.Types.{Client, sent}
use tinyhan.Mqttsn.Handler.{c_handler}
use tinyhan.Endpoint.{Endpoint, packet_send, perform_all, call_client}
use tinyhan.Endpoint
use tinyhan.Gateway.{
  Relay, Gateway, on_datagram, type_mqttsn, to_broker, rx_handler, on_frame, on_event,
}

-- A message of a node that is linked with the gateway as slot `i`.
on_frame-linked :
    (m k : Mac) (i : ℕ) (buf : List ℕ) (rssi : ℕ)
    → IsLinked m coord_ref k
    → IsLinked k (slot_ref i) m
    → IsAwake k
    → k.rx_cb ≡ true
    → let frame = frame_of m coord_ref type_mqttsn buf in
      ((on_frame k frame rssi).1 ≡ to_broker m.addr buf)
      × ((on_frame k frame rssi).0.log ≡ received (some (slot_ref i)) type_mqttsn buf ∷ k.log)
unfolding on_frame rx_handler
on_frame-linked m k i buf rssi v w wake hr =
    let r = slot_ref i in
    let t = type_mqttsn in
    let back =
      recv_cb-unacked m k coord_ref r t buf rssi v w wake (omega arith) (omega arith) refl hr in
    let up =
      handed-unacked m k coord_ref r t buf rssi v w wake (omega arith) (omega arith) refl hr in
    let addr = ap (λ (x : Mac). (x.nodes i).addr) back ∙ (mark_heard-Stays r rssi k).1 ∙ w.peer in
    (
      rw (on_frame, up) (ap (λ a. to_broker a buf) addr),
      rw (on_frame, up)
          (ap (λ (x : Mac). x.log) back
            ∙ ap (◌∷◌ (received (some r) t buf)) (log-set_node k r (heard_entry k r rssi))),
    )

-- The message goes out as one frame.
call_client-sent :
    (f : Client → Client) (e : Endpoint) (k : Mac) (buf : List ℕ)
    → IsLinked e.mac coord_ref k
    → IsAwake e.mac
    → k.addr ≡ 0
    → has_bit e.mac.coord.flags sleepy_bit ≡ false
    → too_large e.mac buf ≡ false
    → (f (record e.client { log = [] })).log ≡ sent buf ∷ []
    → (call_client f e).mac.log ≡ phy_send (frame_of e.mac coord_ref type_mqttsn buf) 0 ∷ e.mac.log
unfolding call_client perform_all packet_send
call_client-sent f e k buf v wake ka hd hl hf =
    let out =
      send-unacked e.mac k coord_ref type_mqttsn buf 0 none v wake (omega arith) refl hl hd in
    rw hf
      (ap (λ (x : Mac). x.log) (ap (λ a. (send e.mac a type_mqttsn buf 0 none).0) (sym ka) ∙ out))

-- A call of the client that sends one message, on a node that is linked with the gateway as slot `i`: the
-- message goes out as one frame, and the gateway that receives it sends exactly the message to the
-- broker, from the socket of the node's address. Neither is sleepy, the message fits a packet, the
-- gateway has the coordinator's address 0 and is not a sleepy node to the sender, and its handler is
-- registered.
pub uplink :
    (f : Client → Client) (e : Endpoint) (k : Mac) (i : ℕ) (buf : List ℕ) (rssi : ℕ)
    → IsLinked e.mac coord_ref k
    → IsLinked k (slot_ref i) e.mac
    → IsAwake e.mac
    → IsAwake k
    → k.addr ≡ 0
    → has_bit e.mac.coord.flags sleepy_bit ≡ false
    → too_large e.mac buf ≡ false
    → k.rx_cb ≡ true
    → (f (record e.client { log = [] })).log ≡ sent buf ∷ []
    → let frame = frame_of e.mac coord_ref type_mqttsn buf in
      ((call_client f e).mac.log ≡ phy_send frame 0 ∷ e.mac.log)
      × ((on_frame k frame rssi).1 ≡ to_broker e.mac.addr buf)
      × ((on_frame k frame rssi).0.log ≡ received (some (slot_ref i)) type_mqttsn buf ∷ k.log)
uplink f e k i buf rssi v w mwake kwake ka hd hl hr hf =
    let (relay, log) = on_frame-linked e.mac k i buf rssi v w kwake hr in
    (call_client-sent f e k buf v mwake ka hd hl hf, relay, log)

-- A datagram of the broker for a node that is linked with the gateway as slot `i`: the gateway sends it as
-- one frame, and the node that receives the frame calls the handler of its client with exactly the
-- datagram. Neither is sleepy, the datagram fits a packet, the node's address is a byte, the gateway
-- does not take the node for a sleepy one, and the node's handler is registered.
pub downlink :
    (e : Endpoint) (k : Mac) (relays : List Relay) (i : ℕ) (buf : List ℕ) (rssi rssi' now : ℕ)
    → IsLinked e.mac coord_ref k
    → IsLinked k (slot_ref i) e.mac
    → IsAwake e.mac
    → IsAwake k
    → e.mac.addr < 256
    → has_bit (k.nodes i).flags sleepy_bit ≡ false
    → too_large k buf ≡ false
    → e.mac.rx_cb ≡ true
    → let frame = frame_of k (slot_ref i) type_mqttsn buf in
      ((g : Gateway) × (on_event
            (record { mac = k; relays = relays })
            (record { source = e.mac.addr; waiting = some buf; rssi = rssi })
          ≡ some g)
        × (g.mac.log ≡ phy_send frame 0 ∷ k.log)
        × (g.relays ≡ relays))
      × (Endpoint.on_frame e frame rssi' now
          ≡ call_client
              (λ c. c_handler c now (some buf))
              (record e { mac = recv_cb e.mac frame rssi' }))
unfolding on_event on_datagram Endpoint.on_frame Endpoint.rx_handler
downlink e k relays i buf rssi rssi' now v w mwake kwake ha hd hl hr =
    let t = type_mqttsn in
    let out = send-unacked k e.mac (slot_ref i) t buf 0 none w kwake (omega arith) refl hl hd in
    let device : ltb e.mac.addr 256 ≡ true = ground arith in
    let byte : e.mac.addr % 256 ≡ e.mac.addr = omega arith in
    let up =
      handed-unacked k e.mac (slot_ref i) coord_ref t buf rssi' w v mwake (omega arith)
        (omega arith) refl hr in
    let k1 = (send k e.mac.addr t buf 0 none).0 in
    (
      (
        record { mac = k1; relays = relays },
        rw (device, byte) refl,
        ap (λ (x : Mac). x.log) out,
        refl,
      ),
      rw (Endpoint.on_frame, up) refl,
    )
