-- ===== src/Link/Registration.antt =====
-- Registration with lib/tinymac.c on both sides of a network of lib/phy-udp.c.
use mathlib.Core.List.{append-nil}
use tinyhan.Base.{
  ap, ℕ, ◌^◌, ◌≤◌, ◌<◌, ◌≡◌, ◌≢◌, refl, sym, ◌∙◌, Bool, true, false, ◌&&◌, Option, some, if_ind,
  List, [], ◌∷◌, arith, length, has_bit,
}
use tinyhan.Base.Bytes.{le_bytes}
use tinyhan.Mac.Types.{
  ClientState, NodeState, NodeRef, slot_ref, Header, Node, Params, Mac, Effect, phy_send,
}
use tinyhan.Mac.Client.{bind_coordinator, rx_beacon}
use tinyhan.Link.Attach.{rx_beacon-HasAsked}
use tinyhan.Mac.Wire.RegistrationStatus
use tinyhan.Mac.Wire.{
  addr_unassigned, network_any, sleepy_bit, permit_attach_bit, byte_at, header_bytes,
  registration_request_bytes, registration_response_bytes,
}
use tinyhan.Mac.Coordinator.{slot_for}
use tinyhan.Mac.Receive.{recv_cb}
use tinyhan.Mac.Handshake.{
  request_frame, response_frame, answered, handshake, recv_cb-request_frame,
}
use tinyhan.Udp.Phy.{Phy, received, concat, phy_event_handler}
use tinyhan.Udp.Datagrams.{phy_event_handler-phy_send}
use tinyhan.Link.{last_datagram, called_back, arrive, on_air}

-- What is sent arrives.
arrive-on_air :
    (p q : Phy) (m : Mac) (bufs : List (List ℕ))
    → length (concat bufs) ≤ 254
    → q.recv_cb ≡ true
    → q.listening ≡ true
    → arrive q m (on_air p bufs) ≡ recv_cb m (concat bufs) 0
unfolding arrive on_air
arrive-on_air p q m bufs hl hc hg =
    let (sent, passed, other) =
      phy_event_handler-phy_send p (record q { log = [] }) bufs 0 hl (omega arith) in
    let air = ap last_datagram sent in
    let on : q.recv_cb && q.listening ≡ true = rw (hc, hg) refl in
    ap (λ waiting. called_back m (phy_event_handler (record q { log = [] }) (some waiting)).log) air
    ∙ ap (λ (x : Phy). called_back m x.log) passed
    ∙ if_ind (λ (x : Phy). called_back m x.log ≡ recv_cb m (concat bufs) 0)
        (q.recv_cb && q.listening) (record q { log = received (concat bufs) ∷ [] })
        (record q { log = [] }) (λ _. refl)
        (λ off. let no : true ≡ false = sym on ∙ off in absurd (cc))

-- The newest frame among the calls of a MAC.
abbrev pub last_frame : List Effect → List ℕ
last_frame [] = []
last_frame (phy_send frame flags ∷ log) = frame
last_frame (e ∷ log) = last_frame log

last_frame-answered :
    (reg : Bool) (r : Option NodeRef) (frame : List ℕ) (log : List Effect)
    → last_frame (answered reg r (phy_send frame 0) log) ≡ frame
last_frame-answered true r frame log = refl
last_frame-answered false r frame log = refl

-- What a MAC sent last arrives at another.
abbrev pub carried : Phy → Phy → Mac → Mac → Mac
carried p q m k = arrive q k (on_air p (last_frame m.log ∷ []))

carried-recv_cb :
    (p q : Phy) (m k : Mac) (frame : List ℕ)
    → last_frame m.log ≡ frame
    → length frame ≤ 254
    → q.recv_cb ≡ true
    → q.listening ≡ true
    → carried p q m k ≡ recv_cb k frame 0
unfolding concat
carried-recv_cb p q m k frame e hl hc hg =
    let one = append-nil frame in
    ap (λ f. arrive q k (on_air p (f ∷ []))) e
    ∙ arrive-on_air p q k (frame ∷ []) (rw one hl) hc hg
    ∙ ap (λ f. recv_cb k f 0) one

length-request_frame : (m : Mac) → length (request_frame m) ≤ 254
unfolding header_bytes registration_request_bytes le_bytes
length-request_frame m = omega arith

length-response_frame : (k : Mac) (uuid addr s : ℕ) → length (response_frame k uuid addr s) ≤ 254
unfolding header_bytes registration_response_bytes le_bytes
length-response_frame k uuid addr s = omega arith

-- Registration over UDP, between a client and a coordinator whose drivers have their callback and listen.
-- The client hears a beacon that permits attachment; what it then sends arrives at the coordinator as a
-- datagram, which enters it in the slot for its UUID; and what the coordinator sends on that, one
-- answer, arrives and registers the client with the address of the slot and the coordinator's network.
-- The beacon has the coordinator's network and address; neither is sleepy, both MTUs are 16 or more.
-- The coordinator permits attachment, has a slot for the client, an address and a network, and the
-- slot has an address; the client is unregistered, has no address, and its UUID and flags fit their
-- fields.
pub registers_over_udp :
    (pm pk : Phy) (m k : Mac) (hdr : Header) (p : List ℕ) (i : ℕ)
    → pm.recv_cb ≡ true
    → pm.listening ≡ true
    → pk.recv_cb ≡ true
    → pk.listening ≡ true
    → k.params.coordinator ≡ true
    → k.permit_attach ≡ true
    → has_bit k.params.flags sleepy_bit ≡ false
    → 16 ≤ k.phy_mtu
    → k.addr ≢ addr_unassigned
    → k.net_id ≢ network_any
    → m.params.coordinator ≡ false
    → m.state ≡ ClientState.unregistered
    → has_bit m.params.flags sleepy_bit ≡ false
    → 16 ≤ m.phy_mtu
    → m.addr ≡ addr_unassigned
    → hdr.net_id ≡ k.net_id
    → hdr.src_addr ≡ k.addr
    → has_bit (byte_at p 10) permit_attach_bit ≡ true
    → m.params.uuid < 2 ^ 64
    → m.params.flags < 2 ^ 16
    → slot_for k m.params.uuid ≡ some i
    → (k.nodes i).addr ≢ addr_unassigned
    → let m1 = rx_beacon m hdr p in
      let k1 = carried pm pk m1 k in
      let m2 = carried pk pm k1 m1 in
      (k1.log
        ≡ answered k.reg_cb
            (some (slot_ref i))
            (phy_send
              (response_frame k m.params.uuid (k.nodes i).addr RegistrationStatus.success)
              0)
            k.log)
      × ((k1.nodes i).state ≡ NodeState.registered)
      × ((k1.nodes i).uuid ≡ m.params.uuid)
      × (m2.state ≡ ClientState.registered)
      × (m2.addr ≡ (k1.nodes i).addr)
      × (m2.net_id ≡ k.net_id)
registers_over_udp pm pk m k hdr p i mr ml kr kl hc hp hs hm ha hn mc ms mf mm ma mn md pp hu hf hi
      hia =
    let b = bind_coordinator m hdr p in
    let m1 = rx_beacon m hdr p in
    let v = rx_beacon-HasAsked m hdr p mc ms pp mf mm in
    let (log, s, u, c0, a0, n0) =
      handshake b k i 0 hc hp hs hm ha hn mc refl ma mn md hu hf hi hia in
    let asked : carried pm pk m1 k ≡ recv_cb k (request_frame b) 0 =
      carried-recv_cb pm pk m1 k (request_frame b) (ap last_frame v.log) (length-request_frame b) kr
        kl in
    let k1 = carried pm pk m1 k in
    let answer = response_frame k m.params.uuid (k.nodes i).addr RegistrationStatus.success in
    let klog = ap (λ (x : Mac). x.log) asked ∙ log in
    let uuid : m1.params.uuid ≡ m.params.uuid = ap (λ (q : Params). q.uuid) v.params in
    let flags : m1.params.flags ≡ m.params.flags = ap (λ (q : Params). q.flags) v.params in
    let (log1, s1, u1, c, a, n) =
      handshake m1 k i 0 hc hp hs hm ha hn (ap (λ (q : Params). q.coordinator) v.params ∙ mc)
        v.state (v.addr ∙ ma) (v.net_id ∙ mn) (v.coord_addr ∙ md) (rw uuid hu) (rw flags hf)
        (rw uuid hi) hia in
    let told : carried pk pm k1 m1
        ≡ recv_cb m1 (response_frame k m1.params.uuid (k.nodes i).addr RegistrationStatus.success)
            0 =
      carried-recv_cb pk pm k1 m1 answer
        (ap last_frame klog ∙ last_frame-answered k.reg_cb (some (slot_ref i)) answer k.log)
        (length-response_frame k m.params.uuid (k.nodes i).addr RegistrationStatus.success) mr ml
      ∙ ap (λ w. recv_cb m1 (response_frame k w (k.nodes i).addr RegistrationStatus.success) 0)
          (sym uuid) in
    let slot_addr : ((recv_cb k (request_frame m1) 0).nodes i).addr
        ≡ ((recv_cb k (request_frame b) 0).nodes i).addr =
      ap (λ (x : Node). x.addr)
        (recv_cb-request_frame m1 k i 0 hc hp hs hm ha (v.addr ∙ ma) (v.net_id ∙ mn)
          (v.coord_addr ∙ md) (rw uuid hu) (rw flags hf) (rw uuid hi)).0
      ∙ ap (λ (x : Node). x.addr)
          (sym (recv_cb-request_frame b k i 0 hc hp hs hm ha ma mn md hu hf hi).0) in
    (
      klog,
      ap (λ (x : Mac). (x.nodes i).state) asked ∙ s,
      ap (λ (x : Mac). (x.nodes i).uuid) asked ∙ u,
      ap (λ (x : Mac). x.state) told ∙ c,
      ap (λ (x : Mac). x.addr) told
          ∙ a
          ∙ slot_addr
          ∙ ap (λ (x : Mac). (x.nodes i).addr) (sym asked),
      ap (λ (x : Mac). x.net_id) told ∙ n,
    )
