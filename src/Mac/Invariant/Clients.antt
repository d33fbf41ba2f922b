-- ===== src/Mac/Invariant/Clients.antt =====
-- The receive handlers for clients of lib/tinymac.c keep the invariant, for every payload.
use tinyhan.Base.{
  ℕ, ◌≡◌, ◌≢◌, refl, sym, ◌∙◌, Bool, false, ◌||◌, not, none, some, List, arith, ◌==◌, has_bit,
  if_ind, if◌then◌else◌,
}
use tinyhan.Mac.Types.{ClientState, coord_ref, Header, Mac}
use tinyhan.Mac.Wire.RegistrationStatus
use tinyhan.Mac.Wire.{addr_broadcast, addr_unassigned, permit_attach_bit, payload_uuid, byte_at}
use tinyhan.Mac.Timers.{cancel_timer}
use tinyhan.Mac.Client.{
  bind_coordinator, request_attach, try_attach, contains, poll_if_listed, rx_beacon_in, rx_beacon,
  detach, is_registering, rx_registration_response,
}
use tinyhan.Mac.Invariant.{unless-IsSound, IsSound}
use tinyhan.Mac.Invariant.Transmit.{tx_packet-IsSound}

-- The invariant gives a client's role from the test of `coordinator`.
pub client_of : {c : Bool} (m : Mac) → m.params.coordinator ≡ false → IsSound c m → c ≡ false
client_of m e v = sym v.fixed ∙ e

request_attach-IsSound :
    {c : Bool} (m : Mac) (hdr : Header) (p : List ℕ)
    → c ≡ false
    → m.addr ≡ addr_unassigned
    → IsSound c m
    → IsSound c (request_attach m hdr p)
unfolding request_attach
request_attach-IsSound {c} m hdr p h a v =
    let k = v.coord_sound in
    let w : IsSound c (bind_coordinator m hdr p) = record {
      fixed = v.fixed;
      slots = v.slots;
      coord_sound = record {
        ack = k.ack;
        validity = k.validity;
        buffer = k.buffer;
        size = k.size;
        own_addr = tt;
      };
      dummy_sound = v.dummy_sound;
      request = v.request;
      role = rw h a;
    } in
    let w2 = tx_packet-IsSound _ (some coord_ref) _ _ 0 none w in
    record {
      fixed = w2.fixed;
      slots = w2.slots;
      coord_sound = w2.coord_sound;
      dummy_sound = w2.dummy_sound;
      request = λ t e. cc;
      role = w2.role;
    }

try_attach-IsSound :
    {c : Bool} (m : Mac) (hdr : Header) (p : List ℕ)
    → c ≡ false
    → m.addr ≡ addr_unassigned
    → IsSound c m
    → IsSound c (try_attach m hdr p)
unfolding try_attach
try_attach-IsSound {c} m hdr p h a v =
    if_ind (IsSound c) (has_bit (byte_at p 10) permit_attach_bit) _ _
      (λ _. request_attach-IsSound m hdr p h a v) (λ _. v)

poll_if_listed-IsSound :
    {c : Bool} (m : Mac) (p : List ℕ) → IsSound c m → IsSound c (poll_if_listed m p)
unfolding poll_if_listed
poll_if_listed-IsSound {c} m p v =
    if_ind (IsSound c) (contains m.addr _) _ _ (λ _. tx_packet-IsSound m _ _ _ 0 none v) (λ _. v)

-- A request timer that is cancelled.
cancel_request-IsSound :
    {c : Bool} (m : Mac) → IsSound c m → IsSound c (record m { timer = cancel_timer m.timer })
cancel_request-IsSound m v = record {
  fixed = v.fixed;
  slots = v.slots;
  coord_sound = v.coord_sound;
  dummy_sound = v.dummy_sound;
  request = λ t e. cc;
  role = v.role;
}

rx_beacon_in-IsSound :
    {c : Bool} (s : ClientState) (m : Mac) (hdr : Header) (p : List ℕ)
    → m.state ≡ s
    → c ≡ false
    → IsSound c m
    → IsSound c (rx_beacon_in s m hdr p)
unfolding rx_beacon_in
rx_beacon_in-IsSound ClientState.unregistered m hdr p e h v =
    try_attach-IsSound m hdr p h (rw (h, e) at (v.role)).0 v
rx_beacon_in-IsSound ClientState.beacon_request m hdr p e h v =
    try_attach-IsSound _ hdr p h (rw (h, e) at (v.role)).0 (cancel_request-IsSound m v)
rx_beacon_in-IsSound ClientState.registering m hdr p e h v = v
rx_beacon_in-IsSound ClientState.registered m hdr p e h v = poll_if_listed-IsSound m p v

pub rx_beacon-IsSound :
    {c : Bool} (m : Mac) (hdr : Header) (p : List ℕ) → IsSound c m → IsSound c (rx_beacon m hdr p)
unfolding rx_beacon
rx_beacon-IsSound {c} m hdr p v =
    if_ind (IsSound c) m.params.coordinator _ _ (λ _. v)
      (λ e. rx_beacon_in-IsSound m.state m hdr p refl (client_of m e v) v)

detach-IsSound : {c : Bool} (m : Mac) → c ≡ false → IsSound c m → IsSound c (detach m)
detach-IsSound m h v = record {
  fixed = v.fixed;
  slots = v.slots;
  coord_sound = v.coord_sound;
  dummy_sound = v.dummy_sound;
  request = v.request;
  role = rw h (refl, refl);
}

accept-IsSound :
    {c : Bool} (m : Mac) (net a : ℕ)
    → c ≡ false
    → a ≢ addr_unassigned
    → IsSound c m
    → IsSound c (record m { state = ClientState.registered; addr = a; net_id = net })
accept-IsSound m net a h ne v = record {
  fixed = v.fixed;
  slots = v.slots;
  coord_sound = v.coord_sound;
  dummy_sound = v.dummy_sound;
  request = v.request;
  role = rw h ne;
}

pub rx_registration_response-IsSound :
    {c : Bool} (m : Mac) (hdr : Header) (p : List ℕ)
    → IsSound c m
    → IsSound c (rx_registration_response m hdr p)
unfolding rx_registration_response
rx_registration_response-IsSound {c} m hdr p v =
    let m1 = if is_registering m.state then record m { timer = cancel_timer m.timer } else m in
    let v1 : IsSound c m1 =
      unless-IsSound (is_registering m.state) _ m (cancel_request-IsSound m v) v in
    if_ind (IsSound c) m.params.coordinator m _ (λ _. v)
      (λ e.
        let h = client_of m e v in
        unless-IsSound (not (payload_uuid p == m.params.uuid)) _ _
          (unless-IsSound (hdr.dest_addr == addr_broadcast) m _ v (detach-IsSound m h v))
          (if_ind (IsSound c)
            (byte_at p 8 == addr_unassigned || not (byte_at p 9 == RegistrationStatus.success)) _ _
            (λ _. detach-IsSound m1 h v1)
            (λ e'.
              unless-IsSound (is_registering m.state) _ m1
                (accept-IsSound m1 hdr.net_id (byte_at p 8) h (ground arith) v1) v1)))
