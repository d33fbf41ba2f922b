-- ===== src/Mac/Handshake/Linked.antt =====
-- What registration in lib/tinymac.c leaves: two nodes that know each other.
use tinyhan.Base.{
  ap, ℕ, ◌+◌, ◌^◌, ◌<◌, ◌≤◌, ◌≡◌, ◌≢◌, refl, sym, ◌∙◌, true, false, some, none, Bool, if_ind, List,
  arith, ◌==◌, not, ◌||◌, has_bit, if◌then◌else◌,
}
use tinyhan.Mac.Types.{ClientState, NodeState, slot_ref, coord_ref, Header, Node, Params, Mac}
use tinyhan.Mac.Wire.PacketType
use tinyhan.Mac.Wire.RegistrationStatus
use tinyhan.Mac.Wire.{
  addr_broadcast, byte_at, data_pending_bit, addr_unassigned, network_any, max_nodes, sleepy_bit,
  registration_request_bytes, registration_response_bytes, payload_uuid,
}
use tinyhan.Mac.Wire.RoundTrip.{payload_uuid-registration_request_bytes}
use tinyhan.Mac.Registry.{get_node_by_addr}
use tinyhan.Mac.Transmit.{mac_phy_send, tx_header, tx_to, tx_packet}
use tinyhan.Mac.Client.{is_registering, rx_registration_response}
use tinyhan.Mac.Timers.{cancel_timer}
use tinyhan.Mac.Coordinator.{slot_for, register_in}
use tinyhan.Mac.Receive.{listen_or_sleep, recv_cb}
use tinyhan.Mac.Handshake.{
  request_frame, response_frame, recv_cb-request_frame, recv_cb-response_frame,
}
use tinyhan.Mac.Handshake.Parts.{
  recv_cb-header_bytes, rx_packet-response_frame, rx_packet-request_frame,
  rx_registration_request_in,
}
use tinyhan.Mac.Invariant.{IsSound}
use tinyhan.Mac.Invariant.Receive.{recv_cb-IsSound}
use tinyhan.Mac.Invariant.Lookup.{get_node_by_addr-slot}
use tinyhan.Mac.Links.{IsLinked}

-- Answering a request leaves a coordinator's own settings as they were.
register_in_same :
    (k : Mac) (i : ℕ) (p : List ℕ)
    → let k1 = register_in k (some i) p in
      (k1.addr ≡ k.addr) × (k1.net_id ≡ k.net_id) × (k1.params ≡ k.params)
unfolding register_in tx_packet tx_to mac_phy_send
register_in_same k i p = (ground arith, ground arith, ground arith)

-- What a client has of itself and its coordinator.
abbrev Same : Mac → Mac → Type 0
Same m m1 = (m1.coord ≡ m.coord) × (m1.params ≡ m.params)

either : (b : Bool) (m x y : Mac) → Same m x → Same m y → Same m (if b then x else y)
either b m x y hx hy = if_ind (Same m) b x y (λ _. hx) (λ _. hy)

-- An answer leaves it as it was.
rx_registration_response-Same :
    (m : Mac) (h : Header) (p : List ℕ) → Same m (rx_registration_response m h p)
unfolding rx_registration_response
rx_registration_response-Same m h p =
    let m1 = if is_registering m.state then record m { timer = cancel_timer m.timer } else m in
    let s : Same m m1 = either (is_registering m.state) m _ m (refl, refl) (refl, refl) in
    either m.params.coordinator m m _ (refl, refl)
      (either (not (payload_uuid p == m.params.uuid)) m _ _
        (either (h.dest_addr == addr_broadcast) m m _ (refl, refl) (refl, refl))
        (either (byte_at p 8 == addr_unassigned || not (byte_at p 9 == RegistrationStatus.success))
          m _ _ s (either (is_registering m.state) m _ m1 s s)))

listen_or_sleep-Same : (m : Mac) (h : Header) → Same m (listen_or_sleep m h)
listen_or_sleep-Same m h =
    either (has_bit m.params.flags sleepy_bit) m _ m
      (either (has_bit h.flags data_pending_bit) m _ _ (refl, refl) (refl, refl)) (refl, refl)

request_frame_same :
    (m k : Mac) (i rssi : ℕ)
    → IsSound true k
    → k.permit_attach ≡ true
    → has_bit k.params.flags sleepy_bit ≡ false
    → m.addr ≡ addr_unassigned
    → m.net_id ≡ k.net_id
    → m.coord.addr ≡ k.addr
    → m.params.uuid < 2 ^ 64
    → m.params.flags < 2 ^ 16
    → slot_for k m.params.uuid ≡ some i
    → let k1 = recv_cb k (request_frame m) rssi in
      (k1.addr ≡ k.addr) × (k1.net_id ≡ k.net_id) × (k1.params ≡ k.params)
request_frame_same m k i rssi v kp ks ma mn md hu hf hi =
    let h = tx_header m (some coord_ref) PacketType.registration_request in
    let p = registration_request_bytes m.params.uuid m.params.flags in
    let (fu, ff) = payload_uuid-registration_request_bytes m.params.uuid m.params.flags hu hf in
    let kc = v.fixed in
    let ka : k.addr ≡ 0 = v.role.1 in
    let e =
      recv_cb-header_bytes k h p rssi (omega arith) (ground arith) (ground arith)
      ∙ rx_packet-request_frame (listen_or_sleep k h) h m.params.uuid m.params.flags refl
      ∙ rx_registration_request_in k h i p kc ks (ap (slot_for k) fu ∙ hi) in
    rw e (register_in_same k i p)

response_frame-Same :
    (m k : Mac) (addr rssi : ℕ)
    → m.params.coordinator ≡ false
    → m.addr ≡ addr_unassigned
    → m.net_id ≡ k.net_id
    → k.net_id ≢ network_any
    → k.addr ≢ addr_unassigned
    → Same m (recv_cb m (response_frame k m.params.uuid addr RegistrationStatus.success) rssi)
response_frame-Same m k addr rssi mc ma mn kn kb =
    let h = tx_header k none PacketType.registration_response in
    let p = registration_response_bytes m.params.uuid addr RegistrationStatus.success in
    let e =
      recv_cb-header_bytes m h p rssi (omega arith) (ground arith) (ground arith)
      ∙ rx_packet-response_frame (listen_or_sleep m h) h m.params.uuid addr
          RegistrationStatus.success refl in
    let (c, q) = listen_or_sleep-Same m h in
    let (c', q') = rx_registration_response-Same (listen_or_sleep m h) h p in
    (ap (λ (x : Mac). x.coord) e ∙ c' ∙ c, ap (λ (x : Mac). x.params) e ∙ q' ∙ q)

found_coordinator :
    (m : Mac) (a : ℕ)
    → m.params.coordinator ≡ false
    → m.coord.state ≡ NodeState.registered
    → m.coord.addr ≡ a
    → get_node_by_addr m a ≡ some coord_ref
unfolding get_node_by_addr
found_coordinator m a hc hs ha = ground arith

-- Registration, as `handshake` has it, links the two nodes: each then knows the other as a node that is
-- registered and free, by an address of its own in one network. The coordinator has the invariant, its
-- network is not the wildcard, it permits attachment, is not sleepy and has slot `i` for the client, and
-- its MTU is 16 or more; the client, which may be sleepy, is registering and bound to it as to a
-- registered node, and its UUID and flags fit their fields.
pub handshake-IsLinked :
    (m k : Mac) (i rssi rssi' : ℕ)
    → IsSound true k
    → k.permit_attach ≡ true
    → has_bit k.params.flags sleepy_bit ≡ false
    → 16 ≤ k.phy_mtu
    → k.net_id ≢ network_any
    → m.params.coordinator ≡ false
    → m.state ≡ ClientState.registering
    → m.addr ≡ addr_unassigned
    → m.net_id ≡ k.net_id
    → m.coord.addr ≡ k.addr
    → m.coord.state ≡ NodeState.registered
    → m.params.uuid < 2 ^ 64
    → m.params.flags < 2 ^ 16
    → slot_for k m.params.uuid ≡ some i
    → i < max_nodes
    → let k1 = recv_cb k (request_frame m) rssi in
      let m1 =
        recv_cb m
          (response_frame k m.params.uuid (k.nodes i).addr RegistrationStatus.success)
          rssi' in
      IsLinked m1 coord_ref k1 × IsLinked k1 (slot_ref i) m1
handshake-IsLinked m k i rssi rssi' v kp ks km kn mc ms ma mn md mr hu hf hi hl =
    let ka : k.addr ≡ 0 = v.role.1 in
    let kb : k.addr ≢ addr_unassigned = ground arith in
    let own = (v.slots i).own_addr hl in
    let ob : (k.nodes i).addr ≢ addr_unassigned = ground arith in
    let k1 = recv_cb k (request_frame m) rssi in
    let m1 =
      recv_cb m (response_frame k m.params.uuid (k.nodes i).addr RegistrationStatus.success)
        rssi' in
    let (en, log) = recv_cb-request_frame m k i rssi (v.fixed) kp ks km kb ma mn md hu hf hi in
    let (state, addr, net) =
      recv_cb-response_frame m k (k.nodes i).addr RegistrationStatus.success rssi' mc ms ma mn hu kn
        kb in
    let addr' : m1.addr ≡ i + 1 = ground (arith, addr) in
    let net' : m1.net_id ≡ k.net_id = ground (arith, net) in
    let (ka1, kn1, kp1) = request_frame_same m k i rssi v kp ks ma mn md hu hf hi in
    let (mc1, mp1) = response_frame-Same m k (k.nodes i).addr rssi' mc ma mn kn kb in
    let entered : (k1.nodes i).state ≡ NodeState.registered = ap (λ (d : Node). d.state) en in
    let entry : (k1.nodes i).addr ≡ i + 1 = ap (λ (d : Node). d.addr) en ∙ own in
    let slot = get_node_by_addr-slot k1 i (recv_cb-IsSound k (request_frame m) rssi v) hl in
    let bound : m1.coord.addr ≡ k1.addr = ap (λ (d : Node). d.addr) mc1 ∙ md ∙ sym ka1 in
    let bound' : m1.coord.state ≡ NodeState.registered = ap (λ (d : Node). d.state) mc1 ∙ mr in
    let client : m1.params.coordinator ≡ false = ap (λ (q : Params). q.coordinator) mp1 ∙ mc in
    (
      record {
        found = found_coordinator m1 k1.addr client bound' bound;
        peer = bound;
        free = bound';
        own = λ e. absurd (omega (arith, e, addr', hl));
        apart = λ e. absurd (omega (arith, e, addr', ka1, ka));
        network = net' ∙ sym kn1;
        proper = λ e. kn (sym net' ∙ e);
      },
      record {
        found = ap (get_node_by_addr k1) addr' ∙ slot ∙ rw entered refl;
        peer = entry ∙ sym addr';
        free = entered;
        own = λ e. kb (sym ka1 ∙ e);
        apart = λ e. absurd (omega (arith, e, addr', ka1, ka));
        network = kn1 ∙ sym net';
        proper = λ e. kn (sym kn1 ∙ e);
      },
    )
