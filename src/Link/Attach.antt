-- ===== src/Link/Attach.antt =====
-- A client of lib/tinymac.c that hears a beacon and asks for registration.
use mathlib.Core.Path.{subst}
use tinyhan.Base.{sym, ℕ, ◌≤◌, ◌≡◌, refl, false, true, List, ◌∷◌, arith, length, has_bit}
use tinyhan.Base.Bytes.{le_bytes}
use tinyhan.Mac.Types.{ClientState, Header, Mac, phy_send}
use tinyhan.Mac.Wire.{sleepy_bit, permit_attach_bit, byte_at, registration_request_bytes}
use tinyhan.Mac.Transmit.{mac_phy_send, tx_unicast, tx_to, tx_packet}
use tinyhan.Mac.Client.{bind_coordinator, request_attach, try_attach, rx_beacon_in, rx_beacon}
use tinyhan.Mac.Handshake.{request_frame}

-- The client has sent its request, and is bound to the beacon's sender.
pub record HasAsked (m : Mac) (hdr : Header) (p : List ℕ) (m1 : Mac) : Type 0 where
  pub log : m1.log ≡ phy_send (request_frame (bind_coordinator m hdr p)) 0 ∷ m.log
  pub params : m1.params ≡ m.params
  pub state : m1.state ≡ ClientState.registering
  pub addr : m1.addr ≡ m.addr
  pub net_id : m1.net_id ≡ hdr.net_id
  pub coord_addr : m1.coord.addr ≡ hdr.src_addr

length-request_bytes : (u f : ℕ) → length (registration_request_bytes u f) ≡ 10
unfolding registration_request_bytes le_bytes
length-request_bytes u f = refl

request_attach-HasAsked :
    (m : Mac) (hdr : Header) (p : List ℕ)
    → has_bit m.params.flags sleepy_bit ≡ false
    → 16 ≤ m.phy_mtu
    → HasAsked m hdr p (request_attach m hdr p)
unfolding request_attach tx_packet tx_to tx_unicast mac_phy_send
request_attach-HasAsked m hdr p hs hm =
    let l = length-request_bytes m.params.uuid m.params.flags in
    record {
      log = ground (arith, l);
      params = ground (arith, l);
      state = ground (arith, l);
      addr = ground (arith, l);
      net_id = ground (arith, l);
      coord_addr = ground (arith, l);
    }

pub rx_beacon-HasAsked :
    (m : Mac) (hdr : Header) (p : List ℕ)
    → m.params.coordinator ≡ false
    → m.state ≡ ClientState.unregistered
    → has_bit (byte_at p 10) permit_attach_bit ≡ true
    → has_bit m.params.flags sleepy_bit ≡ false
    → 16 ≤ m.phy_mtu
    → HasAsked m hdr p (rx_beacon m hdr p)
unfolding rx_beacon rx_beacon_in try_attach
rx_beacon-HasAsked m hdr p hc hu hp hs hm =
    let asks : rx_beacon m hdr p ≡ request_attach m hdr p = ground arith in
    subst (HasAsked m hdr p) (sym asks) (request_attach-HasAsked m hdr p hs hm)
