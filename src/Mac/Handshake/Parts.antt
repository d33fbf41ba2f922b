-- ===== src/Mac/Handshake/Parts.antt =====
-- How a registration frame passes `tinymac_recv_cb` of lib/tinymac.c to the handler of its type.
use tinyhan.Base.{
  ◌&&◌, ℕ, ◌^◌, ◌<◌, ◌≡◌, refl, true, false, ◌||◌, not, none, some, List, ◌++◌, arith, ◌==◌, ltb,
  length, has_bit, if◌then◌else◌,
}
use tinyhan.Base.Bytes.{le_bytes}
use tinyhan.Mac.Types.{ClientState, Header, Mac}
use tinyhan.Mac.Wire.PacketType
use tinyhan.Mac.Wire.RegistrationStatus
use tinyhan.Mac.Wire.{
  addr_unassigned, network_any, sleepy_bit, header_size, header_bytes, registration_request_bytes,
  registration_response_bytes, payload_uuid, byte_at,
}
use tinyhan.Mac.Wire.RoundTrip.{read_header-header_bytes}
use tinyhan.Mac.Client.{rx_registration_response}
use tinyhan.Mac.Coordinator.{slot_for, register_in, rx_registration_request}
use tinyhan.Mac.Receive.{
  rx_control, rx_packet, rx_accepted, is_addressed, is_barred, listen_or_sleep, recv_cb,
}

pub length-frame :
    (h : Header) (p : List ℕ) → ltb (length (header_bytes h ++ p)) header_size ≡ false
unfolding header_bytes le_bytes
length-frame h p = ground arith

addr-listen_or_sleep : (m : Mac) (h : Header) → (listen_or_sleep m h).addr ≡ m.addr
addr-listen_or_sleep m h = ground arith

-- A frame that passes the filter of `tinymac_recv_cb` and comes to or from a node with no address.
pub recv_cb-header_bytes :
    (m : Mac) (h : Header) (p : List ℕ) (rssi : ℕ)
    → h.flags < 2 ^ 16
    → (h.src_addr == m.addr || not (is_addressed m h) || is_barred m h) ≡ false
    → (not (m.addr == addr_unassigned) && not (h.src_addr == addr_unassigned)) ≡ false
    → recv_cb m (header_bytes h ++ p) rssi
      ≡ rx_packet (listen_or_sleep m h) none h (header_bytes h ++ p)
unfolding recv_cb rx_accepted
recv_cb-header_bytes m h p rssi hf hb ha =
    rw ((read_header-header_bytes h p hf).0, length-frame h p, hb, addr-listen_or_sleep m h, ha)
      refl

pub rx_packet-response_frame :
    (m : Mac) (h : Header) (u a s : ℕ)
    → h.flags ≡ PacketType.registration_response
    → let p = registration_response_bytes u a s in
      rx_packet m none h (header_bytes h ++ p) ≡ rx_registration_response m h p
unfolding rx_packet rx_control header_bytes le_bytes registration_response_bytes
rx_packet-response_frame m h u a s hf = rw hf refl

pub rx_packet-request_frame :
    (m : Mac) (h : Header) (u f : ℕ)
    → h.flags ≡ PacketType.registration_request
    → let p = registration_request_bytes u f in
      rx_packet m none h (header_bytes h ++ p) ≡ rx_registration_request m p
unfolding rx_packet rx_control header_bytes le_bytes registration_request_bytes
rx_packet-request_frame m h u f hf = rw hf refl

pub listen_or_sleep_keeps :
    (m : Mac) (h : Header)
    → ((listen_or_sleep m h).params ≡ m.params) × ((listen_or_sleep m h).state ≡ m.state)
listen_or_sleep_keeps m h = (ground arith, ground arith)

-- A registering client that receives a response with its own UUID.
pub rx_registration_response_own :
    (m : Mac) (h : Header) (p : List ℕ) (addr status : ℕ)
    → m.params.coordinator ≡ false
    → m.state ≡ ClientState.registering
    → payload_uuid p ≡ m.params.uuid
    → byte_at p 8 ≡ addr
    → byte_at p 9 ≡ status
    → let m1 = rx_registration_response m h p in
      (m1.state ≡ (
        if addr == addr_unassigned || not (status == RegistrationStatus.success)
        then ClientState.unregistered
        else ClientState.registered))
      × (m1.addr ≡ (
          if addr == addr_unassigned || not (status == RegistrationStatus.success)
          then addr_unassigned
          else addr))
      × (m1.net_id ≡ (
          if addr == addr_unassigned || not (status == RegistrationStatus.success)
          then network_any
          else h.net_id))
unfolding rx_registration_response
rx_registration_response_own m h p addr status hc hs hu ha hb =
    (ground arith, ground arith, ground arith)

-- A coordinator that is not sleepy and gets a request for which it has a slot.
pub rx_registration_request_in :
    (k : Mac) (h : Header) (i : ℕ) (p : List ℕ)
    → k.params.coordinator ≡ true
    → has_bit k.params.flags sleepy_bit ≡ false
    → slot_for k (payload_uuid p) ≡ some i
    → rx_registration_request (listen_or_sleep k h) p ≡ register_in k (some i) p
unfolding rx_registration_request
rx_registration_request_in k h i p hc hs hi = rw (hs, hi, hc) refl
