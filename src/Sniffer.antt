-- ===== src/Sniffer.antt =====
-- tools/phy-sniffer/tinyhan-sniffer.c: a printer of the frames on the air.
pub mod Waiting
pub mod Prints
mod Tests
use tinyhan.Base.{
  ℕ, ◌+◌, ◌-◌, ◌/◌, ◌%◌, Bool, Option, none, some, List, [], ◌∷◌, ◌++◌, ltb, ◌==◌, length, take,
  drop, has_bit, if◌then◌else◌,
}
use tinyhan.Base.Bytes.{hex_digit}
use tinyhan.Mac.Types.{Header}
use tinyhan.Mac.Wire.PacketType
use tinyhan.Mac.Wire.{
  permit_attach_bit, header_size, beacon_size, registration_request_size,
  deregistration_request_size, registration_response_size, read_header, payload_of, payload_uuid,
  byte_at,
}
use tinyhan.Mac.Receive.{packet_type}

-- What `rx_func` prints: the kinds of its lines with their values, without the time and the colours.
pub data Line : Type 0 where
  short : Line
  short_beacon short_registration_request short_detach_request short_address_update : Header → Line
  beacon : Header → Bool → Bool → ℕ → List ℕ → Line
  beacon_request acknowledgement poll data_packet other : Header → Line
  registration_request : Header → ℕ → Line
  detachment_request : Header → ℕ → ℕ → Line
  address_assignment : Header → ℕ → ℕ → Line

-- `sprintf(ptr, "%02X ", ...)` for each address
abbrev pub hex_list : List ℕ → List ℕ
hex_list [] = []
hex_list (a ∷ addresses) = hex_digit (a / 16 % 16) ∷ hex_digit (a % 16) ∷ 0x20 ∷ hex_list addresses

-- The address list in braces.
abbrev pub pending_text : List ℕ → List ℕ
pending_text addresses = 0x7b ∷ (hex_list addresses ++ (0x7d ∷ []))

-- `sizeof(pending)`
abbrev pub pending_size : ℕ
pending_size = 256

-- The beacon of `rx_func`; no result where the text and its terminator do not fit `pending`.
unfoldable pub print_beacon : Header → List ℕ → ℕ → Option Line
print_beacon hdr p size =
    let text = pending_text (take (size - header_size - beacon_size) (drop beacon_size p)) in
    if ltb pending_size (length text + 1)
    then none
    else some (
        beacon hdr (has_bit (byte_at p 10) 0) (has_bit (byte_at p 10) permit_attach_bit)
          (payload_uuid p) text)

-- `if (size < ...) { ...; return; }`
abbrev pub unless_short : ℕ → ℕ → Line → Line → Line
unless_short size least short_line line = if ltb size least then short_line else line

-- The other cases of the `switch` of `rx_func`, where `type_data` stands for `tinymacType_Data`, which no
-- header declares.
unfoldable pub print_packet : ℕ → Header → List ℕ → ℕ → Line
print_packet type_data hdr p size =
    let type = packet_type hdr in
    let uuid = payload_uuid p in
    if type == PacketType.beacon_request
    then beacon_request hdr
    else if type == PacketType.ack
    then acknowledgement hdr
    else if type == PacketType.registration_request
    then unless_short size (header_size + registration_request_size)
        (short_registration_request hdr) (registration_request hdr uuid)
    else if type == PacketType.deregistration_request
    then unless_short size (header_size + deregistration_request_size) (short_detach_request hdr)
        (detachment_request hdr uuid (byte_at p 8))
    else if type == PacketType.registration_response
    then unless_short size (header_size + registration_response_size) (short_address_update hdr)
        (address_assignment hdr (byte_at p 8) uuid)
    else if type == PacketType.poll
    then poll hdr
    else if type == type_data
    then data_packet hdr
    else other hdr

-- The `switch`, with its case of a beacon.
unfoldable pub print_frame : ℕ → Header → List ℕ → ℕ → Option Line
print_frame type_data hdr p size =
    if packet_type hdr == PacketType.beacon
    then if ltb size (header_size + beacon_size)
      then some (short_beacon hdr)
      else print_beacon hdr p size
    else some (print_packet type_data hdr p size)

-- `rx_func`
unfoldable pub rx_func : ℕ → List ℕ → Option Line
rx_func type_data buf =
    if ltb (length buf) header_size
    then some short
    else print_frame type_data (read_header buf) (payload_of buf) (length buf)
