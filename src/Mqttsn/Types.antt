-- ===== src/Mqttsn/Types.antt =====
-- The state of the client of lib/mqttsn-client.h, and the message buffer with the fields that
-- lib/mqttsn.h lays over it.
pub mod MsgType
use tinyhan.Base.{
  ℕ, zero, suc, ◌+◌, ◌-◌, ◌*◌, ◌/◌, ◌%◌, Bool, true, false, ◌&&◌, List, [], ◌∷◌, leb, ltb, ◌==◌,
  length, get_or, if◌then◌else◌,
}

-- `mqttsn_c_state_t`
pub data State : Type 0 where
  disconnected connecting registering connected busy disconnecting : State

-- `mqttsn_c_topic_t`; the table ends at the entry with no topic.
pub record Topic : Type 0 where
  pub topic : List ℕ
  pub flags : ℕ

-- The calls that leave the client: `cb_send`, `cb_publish` and `cb_puback` (with `mqttsnOK` as `true`).
pub data Effect : Type 0 where
  sent : List ℕ → Effect
  published : ℕ → List ℕ → Effect
  acknowledged : ℕ → Bool → Effect

-- `mqttsn_c_t`, with the calls made so far, the newest first. The message buffer is bytes by offset,
-- and `client_id` the string in that field. `overrun` says that an access went beyond the 64 bytes of
-- `message`, into the fields behind it: from there on the other fields are not those of the code.
pub record Client : Type 0 where
  pub state : State
  pub count : ℕ
  pub message : ℕ → ℕ
  pub overrun : Bool
  pub n_retries : ℕ
  pub t_retry : ℕ
  pub next_ping : ℕ
  pub next_id : ℕ
  pub topics : List Topic
  pub topic_ids : ℕ → ℕ
  pub is_registered : Bool
  pub client_id : List ℕ
  pub cb_publish : Bool
  pub cb_puback : Bool
  pub log : List Effect

abbrev pub is_disconnected : State → Bool
is_disconnected s = elim s [ State.disconnected ↦ true | _ ↦ false ]

abbrev pub is_connecting : State → Bool
is_connecting s = elim s [ State.connecting ↦ true | _ ↦ false ]

abbrev pub is_registering : State → Bool
is_registering s = elim s [ State.registering ↦ true | _ ↦ false ]

abbrev pub is_connected : State → Bool
is_connected s = elim s [ State.connected ↦ true | _ ↦ false ]

abbrev pub is_busy : State → Bool
is_busy s = elim s [ State.busy ↦ true | _ ↦ false ]

-- A write of bytes at an offset.
abbrev pub write : (ℕ → ℕ) → ℕ → List ℕ → ℕ → ℕ
write mem off bs i = if leb off i && ltb i (off + length bs) then get_or bs (i - off) 0 else mem i

-- The `n` bytes from an offset on.
abbrev pub bytes_from : (ℕ → ℕ) → ℕ → ℕ → List ℕ
bytes_from mem off zero = []
bytes_from mem off (suc n) = mem off ∷ bytes_from mem (off + 1) n

-- `mqttsn_htons` and `mqttsn_ntohs`
abbrev pub htons : ℕ → ℕ
htons a = a % 65536 / 256 + 256 * (a % 256)

-- A `uint16_t` field, as the host writes and reads it.
abbrev pub host16 : ℕ → List ℕ
host16 v = v % 256 ∷ (v / 256 % 256 ∷ [])

abbrev pub read16 : (ℕ → ℕ) → ℕ → ℕ
read16 mem off = mem off + 256 * mem (off + 1)

-- A received buffer as bytes by offset.
abbrev pub bytes_of : List ℕ → ℕ → ℕ
bytes_of buf i = get_or buf i 0

abbrev pub max_client_id : ℕ
max_client_id = 16

abbrev pub max_client_topics : ℕ
max_client_topics = 16

abbrev pub max_packet : ℕ
max_packet = 64

abbrev pub t_retry : ℕ
t_retry = 5

abbrev pub n_retry : ℕ
n_retry = 3

abbrev pub keep_alive : ℕ
keep_alive = 10

abbrev pub rc_accepted : ℕ
rc_accepted = 0

abbrev pub protocol_id : ℕ
protocol_id = 1

-- Bit positions of MQTTSN_FLAG_DUP and MQTTSN_REG_SUBSCRIBE, and MQTTSN_FLAG_QOS_1.
abbrev pub dup_bit : ℕ
dup_bit = 7

abbrev pub subscribe_bit : ℕ
subscribe_bit = 7

abbrev pub flag_qos_1 : ℕ
flag_qos_1 = 0x20
