-- ===== src/Sensor/Posts.antt =====
-- A post of examples/sensor/main.c, from the conversion to the coordinator's upper layer.
use tinyhan.Base.{
  ap, ℕ, ◌/◌, ◌≤◌, ◌≡◌, refl, sym, ◌∙◌, inl, inr, Bool-cases, Bool, true, false, some, none, List,
  ◌∷◌, arith, has_bit, if◌then◌else◌,
}
use tinyhan.Base.Int.{is_neg}
use tinyhan.Base.Bytes.{le_bytes, read_le, length-le_bytes}
use tinyhan.Mac.Types.{
  slot_ref, coord_ref, Mac, Effect, phy_send, phy_standby, phy_delayed_standby, received,
}
use tinyhan.Mac.Wire.PacketType
use tinyhan.Mac.Wire.{sleepy_bit, listen_period_us}
use tinyhan.Mac.Transmit.{mac_phy_send, too_large, next_dseq}
use tinyhan.Mac.Transmit.Exchange.{frame_of}
use tinyhan.Mac.Receive.{recv_cb}
use tinyhan.Mac.Api.{send}
use tinyhan.Mac.Heard.{heard_entry}
use tinyhan.Mac.Links.{IsLinked, IsAwake, log-set_node}
use tinyhan.Mac.Unacked.{send-frame, recv_cb-unacked}
use tinyhan.Sensor.{post_message}
use tinyhan.Sensor.Battery.{scaled_vref, vbatt_mv_fits}

-- What a sleepy node does behind a send, by whether it failed.
abbrev pub rests : Bool → Effect
rests failed = if failed then phy_standby else phy_delayed_standby listen_period_us

log-mac_phy_send :
    (m : Mac) (frame : List ℕ)
    → has_bit m.params.flags sleepy_bit ≡ true
    → (mac_phy_send m frame 0).0.log
      ≡ rests (is_neg (m.phy.send_rc m.log frame)) ∷ phy_send frame 0 ∷ m.log
unfolding mac_phy_send
log-mac_phy_send m frame asleep = elim (Bool-cases (is_neg (m.phy.send_rc m.log frame))) [
  | inl b ↦ rw (asleep, b) refl
  | inr b ↦ rw (asleep, b) refl
]

-- The two bytes fit a packet.
voltage_fits : (m : Mac) (mv : ℕ) → 8 ≤ m.phy_mtu → too_large m (le_bytes 2 mv) ≡ false
voltage_fits m mv h = let n = length-le_bytes 2 mv in ground (arith, n)

-- A post of a sensor that is linked with a coordinator as slot `i`, from a conversion of 18 or more: one frame
-- goes out, after which the sleepy node turns its receiver off, at once if the send failed and with the
-- delay of the listening period otherwise; and the coordinator that receives the frame hands its upper
-- layer, as a packet of the node, two bytes whose value is the battery voltage: the quotient of 1024
-- times the reference voltage by the conversion, rounded down. The coordinator has the address 0, is not
-- sleepy and not a sleepy node to the sensor, and its handler is registered; the sensor's MTU is 8 or
-- more.
pub post_message-delivers :
    (m k : Mac) (i adc rssi : ℕ)
    → IsLinked m coord_ref k
    → IsLinked k (slot_ref i) m
    → has_bit m.params.flags sleepy_bit ≡ true
    → IsAwake k
    → k.addr ≡ 0
    → has_bit m.coord.flags sleepy_bit ≡ false
    → k.rx_cb ≡ true
    → 8 ≤ m.phy_mtu
    → 18 ≤ adc
    → let mv = scaled_vref / adc in
      let buf = le_bytes 2 mv in
      let frame = frame_of m coord_ref PacketType.raw_data buf in
      let m1 = (send m 0 PacketType.raw_data buf 0 none).0 in
      (post_message m adc ≡ some m1)
      × (m1.log ≡ rests (is_neg (m.phy.send_rc m.log frame)) ∷ phy_send frame 0 ∷ m.log)
      × ((recv_cb k frame rssi).log ≡ received (some (slot_ref i)) PacketType.raw_data buf ∷ k.log)
      × (read_le 2 buf ≡ mv)
unfolding post_message
post_message-delivers m k i adc rssi v w asleep wake ka hd hr hm ha =
    let mv = scaled_vref / adc in
    let (e, back) = vbatt_mv_fits adc ha in
    let buf = le_bytes 2 mv in
    let t = PacketType.raw_data in
    let r = slot_ref i in
    let small = voltage_fits m mv hm in
    let out = send-frame m k coord_ref t buf 0 none v (omega arith) refl small hd in
    let sent = ap (λ a. (send m a t buf 0 none).0) (sym ka) ∙ out in
    let taken =
      recv_cb-unacked m k coord_ref r t buf rssi v w wake (omega arith) (omega arith) refl hr in
    (
      rw (post_message, e) refl,
      ap (λ (x : Mac). x.log) sent
          ∙ log-mac_phy_send (next_dseq m) (frame_of m coord_ref t buf) asleep,
      ap (λ (x : Mac). x.log) taken
          ∙ ap (◌∷◌ (received (some r) t buf)) (log-set_node k r (heard_entry k r rssi)),
      back,
    )
