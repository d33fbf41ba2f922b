-- ===== src/Mac/Wire/RoundTrip.antt =====
-- What a node writes into a packet of lib/tinymac.h is what the other end reads from it.
use tinyhan.Base.{ℕ, ◌+◌, ◌*◌, ◌/◌, ◌%◌, ◌<◌, ◌^◌, ◌≡◌, refl, List, [], ◌∷◌, ◌++◌, arith, drop}
use tinyhan.Base.Bytes.{le_bytes, read_le, read_le-le_bytes}
use tinyhan.Mac.Types.{Header}
use tinyhan.Mac.Wire.{
  header_bytes, read_header, payload_of, registration_request_bytes, registration_response_bytes,
  beacon_bytes, payload_uuid, request_flags, byte_at,
}

-- A frame's header and payload are read back as they were written, if the flags fit 16 bits.
pub read_header-header_bytes :
    (h : Header) (p : List ℕ)
    → h.flags < 2 ^ 16
    → (read_header (header_bytes h ++ p) ≡ h) × (payload_of (header_bytes h ++ p) ≡ p)
unfolding header_bytes read_header
read_header-header_bytes h p f = (
  λ i. record {
    flags = flags_back i;
    net_id = h.net_id;
    dest_addr = h.dest_addr;
    src_addr = h.src_addr;
    seq = h.seq;
  },
  refl,
)
  where
    flags_back : h.flags % 256 + 256 * (h.flags / 256 % 256 + 256 * 0) ≡ h.flags
    flags_back = omega arith

pub payload_uuid-registration_response_bytes :
    (u a s : ℕ)
    → u < 2 ^ 64
    → (payload_uuid (registration_response_bytes u a s) ≡ u)
      × (byte_at (registration_response_bytes u a s) 8 ≡ a)
      × (byte_at (registration_response_bytes u a s) 9 ≡ s)
unfolding payload_uuid registration_response_bytes
payload_uuid-registration_response_bytes u a s h =
    (read_le-le_bytes 8 u (a ∷ s ∷ []) h, unfold le_bytes in refl, unfold le_bytes in refl)

pub payload_uuid-registration_request_bytes :
    (u f : ℕ)
    → u < 2 ^ 64
    → f < 2 ^ 16
    → (payload_uuid (registration_request_bytes u f) ≡ u)
      × (request_flags (registration_request_bytes u f) ≡ f)
unfolding payload_uuid request_flags registration_request_bytes
payload_uuid-registration_request_bytes u f h k =
    (read_le-le_bytes 8 u (le_bytes 2 f) h, unfold le_bytes read_le in omega arith)

pub payload_uuid-beacon_bytes :
    (u t f n : ℕ) (addresses : List ℕ)
    → u < 2 ^ 64
    → (payload_uuid (beacon_bytes u t f n addresses) ≡ u)
      × (byte_at (beacon_bytes u t f n addresses) 10 ≡ f)
      × (drop 12 (beacon_bytes u t f n addresses) ≡ addresses)
unfolding payload_uuid beacon_bytes
payload_uuid-beacon_bytes u t f n addresses h =
    (read_le-le_bytes 8 u _ h, unfold le_bytes in refl, unfold le_bytes in refl)
