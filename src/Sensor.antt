-- ===== src/Sensor.antt =====
-- examples/sensor/main.c: a battery sensor whose main loop drives lib/tinymac.c from a timer.
pub mod Turns
pub mod Schedule
pub mod Battery
pub mod Posts
mod Tests
use tinyhan.Base.{
  ℕ, ◌+◌, ◌-◌, ◌*◌, ◌/◌, ◌%◌, ◌^◌, Bool, true, false, not, Option, none, some, List, [], ◌∷◌, ltb,
  ◌==◌, if◌then◌else◌,
}
use tinyhan.Base.Bytes.{le_bytes}
use tinyhan.Mac.Types.{Params, Mac}
use tinyhan.Mac.Receive.{recv_cb}
use tinyhan.Mac.Upper.{DataPacket, handed}
use tinyhan.Mac.Wire.PacketType
use tinyhan.Mac.Api.{init, register_recv_cb, tick_handler, send}

abbrev pub vref_mv : ℕ
vref_mv = 1100

-- `vbatt_mv`, with the 16-bit result of the conversion; there is no quotient by 0.
unfoldable pub vbatt_mv : ℕ → Option ℕ
vbatt_mv adc = if adc == 0 then none else some (1024 * vref_mv / adc % 2 ^ 16)

-- `post_message`
unfoldable pub post_message : Mac → ℕ → Option Mac
post_message m adc = elim (vbatt_mv adc) [
  | none ↦ none
  | some battmv ↦ some (send m 0 PacketType.raw_data (le_bytes 2 battmv) 0 none).0
]

-- The MAC, the LED, and the variables of `main`.
pub record Sensor : Type 0 where
  pub mac : Mac
  pub led : Bool
  pub next_mac_tick : ℕ
  pub next_post : ℕ

-- The value that `rx_handler` gives the LED.
unfoldable pub rx_led : Bool → ℕ → List ℕ → Bool
rx_led led type [] = led
rx_led led type (b ∷ buf) = if type == PacketType.raw_data then not (b == 0) else led

-- `rx_handler`
unfoldable pub rx_handler : Sensor → DataPacket → Sensor
unfolding rx_led
rx_handler s p = record s { led = rx_led s.led p.type p.buf }

abbrev pub to_handler : Sensor → Option DataPacket → Sensor
to_handler s none = s
to_handler s (some p) = rx_handler s p

-- `phy_event_handler`, with the frame that the driver passes on, if it does.
unfoldable pub on_phy_event : Sensor → Option (List ℕ) → ℕ → Sensor
on_phy_event s none rssi = s
on_phy_event s (some frame) rssi =
    to_handler (record s { mac = recv_cb s.mac frame rssi }) (handed s.mac frame rssi)

-- `(int32_t)(now - next) >= 0`
unfoldable pub is_reached : ℕ → ℕ → Bool
is_reached now next = ltb ((now + 2 ^ 32 - next) % 2 ^ 32) (2 ^ 31)

-- The tick of the loop of `main`.
unfoldable pub tick_if_due : Sensor → ℕ → Sensor
tick_if_due s now =
    if is_reached now s.next_mac_tick
    then record s { next_mac_tick = (now + 1) % 2 ^ 32; mac = tick_handler s.mac }
    else s

-- Its post.
unfoldable pub post_if_due : Sensor → ℕ → ℕ → Option Sensor
post_if_due s now adc =
    if is_reached now s.next_post
    then elim (post_message s.mac adc) [
      | none ↦ none
      | some m ↦ some (record s { next_post = (now + 20) % 2 ^ 32; mac = m })
    ]
    else some s

-- What the loop meets in a turn: the timer's count, the conversion, and a frame from the radio.
pub record Turn : Type 0 where
  pub now : ℕ
  pub adc : ℕ
  pub frame : Option (List ℕ)
  pub rssi : ℕ

-- A turn of the loop of `main`, up to its sleep.
unfoldable pub turn : Sensor → Turn → Option Sensor
turn s t = elim (post_if_due (tick_if_due s t.now) t.now t.adc) [
  | none ↦ none
  | some s1 ↦ some (on_phy_event s1 t.frame t.rssi)
]

-- The start-up of `main`, with the results of `rand()`.
abbrev pub main_params : Params
main_params = record {
  uuid = 0x123456789abcdef0;
  coordinator = false;
  flags = 0x15;
  beacon_interval = 0;
  beacon_offset = 0;
}

unfoldable pub start_up : Mac → Bool → ℕ → ℕ → ℕ → Sensor
start_up m led bseq_rand dseq_rand net_rand = record {
  mac = register_recv_cb (init m main_params bseq_rand dseq_rand net_rand) true;
  led = led;
  next_mac_tick = 0;
  next_post = 0;
}
