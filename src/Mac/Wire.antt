-- ===== src/Mac/Wire.antt =====
-- The protocol definitions of lib/tinymac.h: constants, and the packed structures as bytes.
pub mod RoundTrip
pub mod PacketType
pub mod RegistrationStatus
use tinyhan.Base.{ℕ, ◌+◌, ◌*◌, ◌/◌, List, [], ◌∷◌, ◌++◌, get_or, drop}
use tinyhan.Base.Bytes.{le_bytes, read_le}
use tinyhan.Mac.Types.{Header}

abbrev pub addr_broadcast : ℕ
addr_broadcast = 0xff

abbrev pub addr_unassigned : ℕ
addr_unassigned = 0xff

abbrev pub network_any : ℕ
network_any = 0xff

abbrev pub tick_ms : ℕ
tick_ms = 250

-- Bit positions of TINYMAC_FLAGS_DATA_PENDING, TINYMAC_FLAGS_ACK_REQUEST and
-- TINYMAC_ATTACH_FLAGS_SLEEPY.
abbrev pub data_pending_bit : ℕ
data_pending_bit = 7

abbrev pub ack_request_bit : ℕ
ack_request_bit = 6

abbrev pub sleepy_bit : ℕ
sleepy_bit = 4

-- Bit positions of TINYMAC_BEACON_FLAGS_PERMIT_ATTACH and TINYMAC_BEACON_FLAGS_SYNC.
abbrev pub permit_attach_bit : ℕ
permit_attach_bit = 1

abbrev pub beacon_interval_no_beacon : ℕ
beacon_interval_no_beacon = 0x0f

abbrev pub max_nodes : ℕ
max_nodes = 32

abbrev pub max_payload : ℕ
max_payload = 128

abbrev pub max_retries : ℕ
max_retries = 3

abbrev pub ack_timeout_ms : ℕ
ack_timeout_ms = 250

abbrev pub beacon_request_timeout : ℕ
beacon_request_timeout = 10

abbrev pub registration_timeout_ms : ℕ
registration_timeout_ms = 1000

abbrev pub heartbeat_grace : ℕ
heartbeat_grace = 2

abbrev pub listen_period_us : ℕ
listen_period_us = 10000

-- `TINYMAC_MILLIS`, `TINYMAC_SECONDS`: a time in ticks.
abbrev pub millis : ℕ → ℕ
millis ms = ms / tick_ms

abbrev pub seconds : ℕ → ℕ
seconds s = s * 1000 / tick_ms

-- `sizeof` of the packed structures
abbrev pub header_size : ℕ
header_size = 6

abbrev pub beacon_size : ℕ
beacon_size = 12

abbrev pub registration_request_size : ℕ
registration_request_size = 10

abbrev pub deregistration_request_size : ℕ
deregistration_request_size = 9

abbrev pub registration_response_size : ℕ
registration_response_size = 10

-- The bytes of a `tinymac_header_t`.
unfoldable pub header_bytes : Header → List ℕ
unfolding le_bytes
header_bytes h = le_bytes 2 h.flags ++ (h.net_id ∷ h.dest_addr ∷ h.src_addr ∷ h.seq ∷ [])

-- The cast of a received buffer to `tinymac_header_t *`.
unfoldable pub read_header : List ℕ → Header
unfolding read_le
read_header buf = record {
  flags = read_le 2 buf;
  net_id = get_or buf 2 0;
  dest_addr = get_or buf 3 0;
  src_addr = get_or buf 4 0;
  seq = get_or buf 5 0;
}

-- `hdr->payload`
abbrev pub payload_of : List ℕ → List ℕ
payload_of buf = drop header_size buf

-- `tinymac_beacon_t`
unfoldable pub beacon_bytes : ℕ → ℕ → ℕ → ℕ → List ℕ → List ℕ
beacon_bytes uuid timestamp flags interval addresses =
    le_bytes 8 uuid ++ (le_bytes 2 timestamp ++ (flags ∷ interval ∷ addresses))

-- `tinymac_registration_request_t`
unfoldable pub registration_request_bytes : ℕ → ℕ → List ℕ
registration_request_bytes uuid flags = le_bytes 8 uuid ++ le_bytes 2 flags

-- `tinymac_registration_response_t`
unfoldable pub registration_response_bytes : ℕ → ℕ → ℕ → List ℕ
registration_response_bytes uuid addr status = le_bytes 8 uuid ++ (addr ∷ status ∷ [])

-- The `uuid` that stands first in each of these structures, and the fields behind it.
unfoldable pub payload_uuid : List ℕ → ℕ
payload_uuid p = read_le 8 p

abbrev pub byte_at : List ℕ → ℕ → ℕ
byte_at p i = get_or p i 0

unfoldable pub request_flags : List ℕ → ℕ
request_flags p = read_le 2 (drop 8 p)
