-- ===== src/Mqttsn/Types/MsgType.antt =====
-- The message types of lib/mqttsn.h that the client sends or handles.
use tinyhan.Base.{ℕ}

abbrev pub connect : ℕ
connect = 0x04

abbrev pub connack : ℕ
connack = 0x05

abbrev pub register : ℕ
register = 0x0a

abbrev pub regack : ℕ
regack = 0x0b

abbrev pub publish : ℕ
publish = 0x0c

abbrev pub puback : ℕ
puback = 0x0d

abbrev pub subscribe : ℕ
subscribe = 0x12

abbrev pub suback : ℕ
suback = 0x13

abbrev pub pingreq : ℕ
pingreq = 0x16

abbrev pub disconnect : ℕ
disconnect = 0x18
