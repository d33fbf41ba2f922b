-- ===== src/App/Packet.antt =====
-- Serialisation and deserialisation of items in lib/tinyapp.c. A failed `assert` is `none`.
use tinyhan.Base.{
  ℕ, zero, suc, ◌+◌, ◌/◌, ◌%◌, Option, none, some, List, [], ◌∷◌, ◌++◌, leb, ltb, ◌==◌, length,
  take, drop, get_or, if◌then◌else◌, bit_or,
}
use tinyhan.Base.Bytes.{le_bytes}

abbrev pub item_id_profile : ℕ
item_id_profile = 0x3f

abbrev pub length_1 : ℕ
length_1 = 0x00

abbrev pub length_2 : ℕ
length_2 = 0x40

abbrev pub length_4 : ℕ
length_4 = 0x80

abbrev pub length_var : ℕ
length_var = 0xc0

-- `tinyapp_t`: the room from `packet_start` to `packet_end`, and the bytes before `packet_ptr`.
pub record Packet : Type 0 where
  pub room : ℕ
  pub bytes : List ℕ

-- `tinyapp_init`; the flags are written with no check for room, as in the code.
unfoldable pub init : ℕ → ℕ → Packet
init flags size = record { room = size; bytes = flags ∷ [] }

-- An item's bytes, if there is room for them.
abbrev pub append : Packet → List ℕ → Option Packet
append p bs =
    if leb (length p.bytes + length bs) p.room
    then some (record { room = p.room; bytes = p.bytes ++ bs })
    else none

-- `tinyapp_serialise8`, `tinyapp_serialise16` and `tinyapp_serialise32`
unfoldable pub serialise8 : Packet → ℕ → ℕ → Option Packet
serialise8 p type value = append p (bit_or length_1 type ∷ le_bytes 1 value)

unfoldable pub serialise16 : Packet → ℕ → ℕ → Option Packet
serialise16 p type value = append p (bit_or length_2 type ∷ le_bytes 2 value)

unfoldable pub serialise32 : Packet → ℕ → ℕ → Option Packet
serialise32 p type value = append p (bit_or length_4 type ∷ le_bytes 4 value)

-- `tinyapp_serialise_string`
unfoldable pub serialise_string : Packet → ℕ → List ℕ → Option Packet
serialise_string p type str =
    if ltb (length str) 256 then append p (bit_or length_var type ∷ (length str ∷ str)) else none

-- `tinyapp_size`
unfoldable pub size : Packet → ℕ
size p = length p.bytes

-- A call of `tinyapp_item_cb_t`: the bytes at `value` that lie in the packet, and the length given.
pub record Item : Type 0 where
  pub profile : ℕ
  pub item : ℕ
  pub value : List ℕ
  pub len : ℕ

-- The length of an item's value and what follows its type and length bytes. A length byte behind the
-- end of the packet is read as 0.
abbrev pub value_of : ℕ → List ℕ → ℕ × List ℕ
value_of type rest =
    if type == 0
    then (1, rest)
    else if type == 1
    then (2, rest)
    else if type == 2
    then (4, rest)
    else (get_or rest 0 0, drop 1 rest)

-- The loop of `tinyapp_deserialise`, with fuel. Every round takes at least one byte.
unfoldable pub items_from : ℕ → ℕ → List ℕ → List Item
items_from zero profile buf = []
items_from (suc fuel) profile [] = []
items_from (suc fuel) profile (b ∷ rest) =
    let id = b % 64 in
    let (len, ptr) = value_of (b / 64) rest in
    let profile' = if id == item_id_profile then get_or ptr 0 0 else profile in
    let later = items_from fuel profile' (drop len ptr) in
    if id == item_id_profile
    then later
    else record { profile = profile; item = id; value = take len ptr; len = len } ∷ later

-- `tinyapp_deserialise`: the calls of the callback, in order.
unfoldable pub deserialise : List ℕ → List Item
deserialise buf = items_from (length buf) 0 (drop 1 buf)
