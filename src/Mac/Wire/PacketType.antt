-- ===== src/Mac/Wire/PacketType.antt =====
-- `tinymac_packet_type_t` of lib/tinymac.h: the types that the code names.
use tinyhan.Base.{ℕ}

abbrev pub beacon : ℕ
beacon = 0

abbrev pub beacon_request : ℕ
beacon_request = 1

abbrev pub poll : ℕ
poll = 2

abbrev pub ack : ℕ
ack = 3

abbrev pub registration_request : ℕ
registration_request = 4

abbrev pub deregistration_request : ℕ
deregistration_request = 5

abbrev pub registration_response : ℕ
registration_response = 6

abbrev pub raw_data : ℕ
raw_data = 16
