-- ===== src/Udp/Phy.antt =====
-- The driver of lib/phy-udp.c behind its socket. Fragments sent with MSG_MORE and the one that ends them
-- are one datagram, and a read cuts a datagram at the size of the buffer.
use tinyhan.Base.{
  ℕ, ◌-◌, Bool, true, false, ◌&&◌, not, Option, none, some, List, [], ◌∷◌, ◌++◌, ltb, ◌==◌, length,
  take, drop, if◌then◌else◌,
}
use tinyhan.Base.Int.{ℤ, pos, negsuc, is_neg}
use tinyhan.Base.Bytes.{le_bytes, read_le}
use tinyhan.Udp.Crc.{update_crc}

-- A datagram given to the socket, and a packet given to the receive callback.
pub data Effect : Type 0 where
  datagram : List ℕ → Effect
  received : List ℕ → Effect

-- `phy_recv_cb` (whether it is set), `phy_listening`, and the calls made so far, the newest first.
pub record Phy : Type 0 where
  pub recv_cb : Bool
  pub listening : Bool
  pub log : List Effect

-- The static variables before `phy_init`.
abbrev pub zero_phy : Phy
zero_phy = record { recv_cb = false; listening = false; log = [] }

abbrev pub max_packet : ℕ
max_packet = 256

-- `phy_init`, with the results of `socket` and `bind`.
unfoldable pub phy_init : Phy → ℤ → ℤ → Phy × ℤ
phy_init m socket bound =
    if is_neg socket
    then (m, negsuc 0)
    else if is_neg bound
    then (m, negsuc 0)
    else (record m { listening = true }, pos 0)

-- `phy_listen`
unfoldable pub phy_listen : Phy → Phy
phy_listen m = record m { listening = true }

-- `phy_suspend`, `phy_resume`, `phy_standby` and `phy_delayed_standby` do nothing.
unfoldable pub phy_suspend : Phy → Phy × ℤ
phy_suspend m = (m, pos 0)

unfoldable pub phy_resume : Phy → Phy × ℤ
phy_resume m = (m, pos 0)

unfoldable pub phy_standby : Phy → Phy × ℤ
phy_standby m = (m, pos 0)

unfoldable pub phy_delayed_standby : Phy → ℕ → Phy × ℤ
phy_delayed_standby m us = (m, pos 0)

-- `phy_register_recv_cb`
unfoldable pub phy_register_recv_cb : Phy → Bool → Phy
phy_register_recv_cb m cb = record m { recv_cb = cb }

-- `phy_event_handler`, with the datagram that waits, if a read gives one.
unfoldable pub phy_event_handler : Phy → Option (List ℕ) → Phy
phy_event_handler m none = m
phy_event_handler m (some waiting) =
    let payload = take max_packet waiting in
    let size = length payload in
    let body = take (size - 2) payload in
    if ltb size 2
    then m
    else if not (update_crc 0 body == read_le 2 (drop (size - 2) payload))
    then m
    else if m.recv_cb && m.listening
    then record m { log = received body ∷ m.log }
    else m

-- The checksum of `phy_send` over all fragments.
unfoldable pub crc_of : ℕ → List (List ℕ) → ℕ
crc_of crc [] = crc
crc_of crc (b ∷ bufs) = crc_of (update_crc crc b) bufs

unfoldable pub concat : List (List ℕ) → List ℕ
concat [] = []
concat (b ∷ bufs) = b ++ concat bufs

-- `phy_send` (its result is always 0)
unfoldable pub phy_send : Phy → List (List ℕ) → Phy
phy_send m bufs = record m { log = datagram (concat bufs ++ le_bytes 2 (crc_of 0 bufs)) ∷ m.log }

-- `phy_get_mtu`
unfoldable pub phy_get_mtu : ℕ
phy_get_mtu = max_packet - 2

-- `phy_set_power` and `phy_set_channel`
unfoldable pub phy_set_power : Phy → ℤ → Phy × ℤ
phy_set_power m dbm = (m, pos 0)

unfoldable pub phy_set_channel : Phy → ℕ → Phy × ℤ
phy_set_channel m n = (m, pos 0)
