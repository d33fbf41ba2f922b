-- ===== src/Mac/Handshake.antt =====
-- Registration in lib/tinymac.c, end to end: the frames of one side are given to the other.
pub mod Parts
pub mod Linked
use tinyhan.Base.{
  ap, ◌&&◌, ℕ, ◌^◌, ◌<◌, ◌≤◌, ◌≡◌, refl, sym, ◌∙◌, ◌≢◌, Bool, true, false, ◌||◌, not, Option, none,
  some, List, ◌∷◌, ◌++◌, arith, ◌==◌, length, has_bit, if◌then◌else◌,
}
use tinyhan.Base.Bytes.{le_bytes}
use tinyhan.Mac.Types.{
  ClientState, NodeState, NodeRef, slot_ref, coord_ref, node_attached, Node, Params, Mac, Effect,
  phy_send,
}
use tinyhan.Mac.Wire.PacketType
use tinyhan.Mac.Wire.RegistrationStatus
use tinyhan.Mac.Wire.{
  addr_unassigned, network_any, sleepy_bit, header_bytes, registration_request_bytes,
  registration_response_bytes, payload_uuid, request_flags,
}
use tinyhan.Mac.Wire.RoundTrip.{
  payload_uuid-registration_response_bytes, payload_uuid-registration_request_bytes,
}
use tinyhan.Mac.Transmit.{mac_phy_send, tx_header, tx_to, tx_packet}
use tinyhan.Mac.Coordinator.{slot_for, register_in}
use tinyhan.Mac.Receive.{listen_or_sleep, recv_cb}
use tinyhan.Mac.Handshake.Parts.{
  recv_cb-header_bytes, rx_packet-response_frame, rx_packet-request_frame, listen_or_sleep_keeps,
  rx_registration_response_own, rx_registration_request_in,
}

-- The frame with which a coordinator answers a registration request.
abbrev pub response_frame : Mac → ℕ → ℕ → ℕ → List ℕ
response_frame m uuid addr status =
    header_bytes (tx_header m none PacketType.registration_response)
    ++ registration_response_bytes uuid addr status

length-response_bytes : (u a s : ℕ) → length (registration_response_bytes u a s) ≡ 10
unfolding registration_response_bytes le_bytes
length-response_bytes u a s = refl

-- A registering client with no address that receives the answer of a coordinator `k` of its network
-- to its own UUID takes the address in it and the coordinator's network, and is registered; if the
-- address is the unassigned one or the status is not success, it is unregistered, with no address
-- and no network. The UUID fits 64 bits, and the coordinator has an address and a network that is
-- not the wildcard.
pub recv_cb-response_frame :
    (m k : Mac) (addr status rssi : ℕ)
    → m.params.coordinator ≡ false
    → m.state ≡ ClientState.registering
    → m.addr ≡ addr_unassigned
    → m.net_id ≡ k.net_id
    → m.params.uuid < 2 ^ 64
    → k.net_id ≢ network_any
    → k.addr ≢ addr_unassigned
    → let m1 = recv_cb m (response_frame k m.params.uuid addr status) rssi in
      (m1.state ≡ (
        if addr == addr_unassigned || not (status == RegistrationStatus.success)
        then ClientState.unregistered
        else ClientState.registered))
      × (m1.addr ≡ (
          if addr == addr_unassigned || not (status == RegistrationStatus.success)
          then addr_unassigned
          else addr))
      × (m1.net_id ≡ (
          if addr == addr_unassigned || not (status == RegistrationStatus.success)
          then network_any
          else k.net_id))
recv_cb-response_frame m k addr status rssi hc hs ha hn hu hk hka =
    let h = tx_header k none PacketType.registration_response in
    let p = registration_response_bytes m.params.uuid addr status in
    let (fu, fa, fs) = payload_uuid-registration_response_bytes m.params.uuid addr status hu in
    let (lp, ls) = listen_or_sleep_keeps m h in
    let e =
      recv_cb-header_bytes m h p rssi (omega arith) (ground arith) (ground arith)
      ∙ rx_packet-response_frame (listen_or_sleep m h) h m.params.uuid addr status refl in
    rw e (
      rx_registration_response_own (listen_or_sleep m h) h p addr status (rw lp hc) (ls ∙ hs)
        (fu ∙ ap (λ (q : Params). q.uuid) (sym lp)) fa fs)

-- The frame with which a client that is bound to a coordinator asks for registration.
abbrev pub request_frame : Mac → List ℕ
request_frame m =
    header_bytes (tx_header m (some coord_ref) PacketType.registration_request)
    ++ registration_request_bytes m.params.uuid m.params.flags

-- The calls of a coordinator that answers a request.
abbrev pub answered : Bool → Option NodeRef → Effect → List Effect → List Effect
answered reg r e log = if reg then node_attached r ∷ e ∷ log else e ∷ log

pub registers :
    (k : Mac) (i : ℕ) (p : List ℕ)
    → has_bit k.params.flags sleepy_bit ≡ false
    → 16 ≤ k.phy_mtu
    → let k1 = register_in k (some i) p in
      (k1.nodes i ≡ record (k.nodes i) {
        state = NodeState.registered;
        uuid = payload_uuid p;
        flags = request_flags p;
        last_heard = k.tick_count;
      })
      × (k1.log
          ≡ answered k.reg_cb
              (some (slot_ref i))
              (phy_send
                (response_frame k (payload_uuid p) (k.nodes i).addr RegistrationStatus.success)
                0)
              k.log)
unfolding register_in tx_packet tx_to mac_phy_send
registers k i p hs hm =
    ground
      (arith, length-response_bytes (payload_uuid p) (k.nodes i).addr RegistrationStatus.success)

-- The coordinator that permits attachment registers the client of a request in the slot for its
-- UUID, with the UUID and the flags of the request, and answers with that slot's address. The
-- coordinator is not sleepy, has an address and an MTU of 16 or more; the client has no address, is
-- bound to the coordinator's network and address, and its UUID and flags fit their fields.
pub recv_cb-request_frame :
    (m k : Mac) (i rssi : ℕ)
    → k.params.coordinator ≡ true
    → k.permit_attach ≡ true
    → has_bit k.params.flags sleepy_bit ≡ false
    → 16 ≤ k.phy_mtu
    → k.addr ≢ addr_unassigned
    → m.addr ≡ addr_unassigned
    → m.net_id ≡ k.net_id
    → m.coord.addr ≡ k.addr
    → m.params.uuid < 2 ^ 64
    → m.params.flags < 2 ^ 16
    → slot_for k m.params.uuid ≡ some i
    → let k1 = recv_cb k (request_frame m) rssi in
      (k1.nodes i ≡ record (k.nodes i) {
        state = NodeState.registered;
        uuid = m.params.uuid;
        flags = m.params.flags;
        last_heard = k.tick_count;
      })
      × (k1.log
          ≡ answered k.reg_cb
              (some (slot_ref i))
              (phy_send
                (response_frame k m.params.uuid (k.nodes i).addr RegistrationStatus.success)
                0)
              k.log)
recv_cb-request_frame m k i rssi hc hp hs hm ha hma hn hd hu hf hi =
    let h = tx_header m (some coord_ref) PacketType.registration_request in
    let p = registration_request_bytes m.params.uuid m.params.flags in
    let (fu, ff) = payload_uuid-registration_request_bytes m.params.uuid m.params.flags hu hf in
    let e =
      recv_cb-header_bytes k h p rssi (omega arith) (ground arith) (ground arith)
      ∙ rx_packet-request_frame (listen_or_sleep k h) h m.params.uuid m.params.flags refl
      ∙ rx_registration_request_in k h i p hc hs (ap (slot_for k) fu ∙ hi) in
    rw e (rw (fu, ff) at (registers k i p hs hm))

-- A client that is registering with a coordinator which permits attachment and has a slot for it:
-- the client's request enters it in that slot, the coordinator's answer is sent, and this answer
-- registers the client with the slot's address and the coordinator's network. The coordinator is
-- not sleepy, has an address, a network and an MTU of 16 or more, and the slot has an address; the
-- client has no address, is bound to the coordinator's network and address, and its UUID and flags
-- fit their fields.
pub handshake :
    (m k : Mac) (i rssi : ℕ)
    → k.params.coordinator ≡ true
    → k.permit_attach ≡ true
    → has_bit k.params.flags sleepy_bit ≡ false
    → 16 ≤ k.phy_mtu
    → k.addr ≢ addr_unassigned
    → k.net_id ≢ network_any
    → m.params.coordinator ≡ false
    → m.state ≡ ClientState.registering
    → m.addr ≡ addr_unassigned
    → m.net_id ≡ k.net_id
    → m.coord.addr ≡ k.addr
    → m.params.uuid < 2 ^ 64
    → m.params.flags < 2 ^ 16
    → slot_for k m.params.uuid ≡ some i
    → (k.nodes i).addr ≢ addr_unassigned
    → let answer = response_frame k m.params.uuid (k.nodes i).addr RegistrationStatus.success in
      let k1 = recv_cb k (request_frame m) rssi in
      let m1 = recv_cb m answer rssi in
      (k1.log ≡ answered k.reg_cb (some (slot_ref i)) (phy_send answer 0) k.log)
      × ((k1.nodes i).state ≡ NodeState.registered)
      × ((k1.nodes i).uuid ≡ m.params.uuid)
      × (m1.state ≡ ClientState.registered)
      × (m1.addr ≡ (k1.nodes i).addr)
      × (m1.net_id ≡ k.net_id)
handshake m k i rssi hc hp hs hm ha hn mc ms ma mn md hu hf hi hia =
    let (en, el) = recv_cb-request_frame m k i rssi hc hp hs hm ha ma mn md hu hf hi in
    let (s, a, n) =
      recv_cb-response_frame m k (k.nodes i).addr RegistrationStatus.success rssi mc ms ma mn hu hn
        ha in
    (
      el,
      ap (λ (d : Node). d.state) en,
      ap (λ (d : Node). d.uuid) en,
      ground arith,
      ground (arith, ap (λ (d : Node). d.addr) en),
      ground arith,
    )
