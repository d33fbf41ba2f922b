-- ===== src/Sensor/Turns.antt =====
-- A turn of the main loop of examples/sensor/main.c: its tests on the 32-bit count of the timer against those
-- of a clock that does not wrap.
use mathlib.Core.Option
use tinyhan.Base.{
  ap, ℕ, zero, suc, Option-cases, Bool-cases, ◌+◌, ◌*◌, ◌/◌, ◌%◌, ◌^◌, ◌<◌, ◌≤◌, ◌≡◌, refl, inl,
  inr, Bool, true, false, ◌&&◌, Option, none, some, List, arith, ◌==◌, if◌then◌else◌,
}
use tinyhan.Mac.Upper.{handed}
use tinyhan.Mac.Api.{tick_handler}
use tinyhan.Sensor.{
  Sensor, post_message, on_phy_event, rx_handler, is_reached, tick_if_due, post_if_due, turn,
}

-- What wakes the loop: the time since it was last awake, and what it then meets.
pub record Wake : Type 0 where
  pub elapsed : ℕ
  pub adc : ℕ
  pub frame : Option (List ℕ)
  pub rssi : ℕ

-- A turn of a loop that calls `tinymac_tick_handler` or not, and posts or not.
abbrev tick_when : Bool → Sensor → Sensor
tick_when b s = if b then record s { mac = tick_handler s.mac } else s

abbrev post_when : Bool → Sensor → ℕ → Option Sensor
post_when b s adc =
    if b
    then elim (post_message s.mac adc) [ none ↦ none | some m ↦ some (record s { mac = m }) ]
    else some s

unfoldable pub ideal_turn : Bool → Bool → Sensor → Wake → Option Sensor
ideal_turn ticks posts s w = elim (post_when posts (tick_when ticks s) w.adc) [
  | none ↦ none
  | some s1 ↦ some (on_phy_event s1 w.frame w.rssi)
]

-- The variables of the loop behind a turn.
abbrev pub at_time : ℕ → ℕ → Sensor → Sensor
at_time first time s = record s {
  next_mac_tick = (first + time + 1) % 2 ^ 32;
  next_post = (first + 20 * (time / 20) + 20) % 2 ^ 32;
}

tick_reached :
    (first time e : ℕ)
    → e ≤ 1
    → is_reached ((first + time + e) % 2 ^ 32) ((first + time + 1) % 2 ^ 32) ≡ (e == 1)
unfolding is_reached
tick_reached first time e h = ground arith

post_reached :
    (first time e : ℕ)
    → e ≤ 1
    → is_reached ((first + time + e) % 2 ^ 32) ((first + 20 * (time / 20) + 20) % 2 ^ 32)
      ≡ (e == 1 && (time + 1) % 20 == 0)
unfolding is_reached
post_reached first time e h = ground arith

on_phy_event-at_time :
    (first time : ℕ) (s : Sensor) (frame : Option (List ℕ)) (rssi : ℕ)
    → on_phy_event (at_time first time s) frame rssi
      ≡ at_time first time (on_phy_event s frame rssi)
unfolding on_phy_event rx_handler
on_phy_event-at_time first time s none rssi = refl
on_phy_event-at_time first time s (some buf) rssi = elim (Option-cases (handed s.mac buf rssi)) [
  | inl e ↦ rw e refl
  | inr (p, e) ↦ rw e refl
]

-- The tick of a turn.
tick_if_due-at_time :
    (first time e : ℕ) (s : Sensor)
    → e ≤ 1
    → tick_if_due (at_time first time s) ((first + time + e) % 2 ^ 32)
      ≡ record (tick_when (e == 1) s) {
        next_mac_tick = (first + (time + e) + 1) % 2 ^ 32;
        next_post = (first + 20 * (time / 20) + 20) % 2 ^ 32;
      }
unfolding tick_if_due
tick_if_due-at_time first time zero s h =
    let quiet : is_reached ((first + time + 0) % 2 ^ 32) ((first + time + 1) % 2 ^ 32) ≡ false =
      tick_reached first time 0 h in
    let same : time + 0 ≡ time = omega arith in rw (quiet, same) refl
tick_if_due-at_time first time (suc zero) s h =
    let due : is_reached ((first + time + 1) % 2 ^ 32) ((first + time + 1) % 2 ^ 32) ≡ true =
      tick_reached first time 1 h in
    let next : ((first + time + 1) % 2 ^ 32 + 1) % 2 ^ 32 ≡ (first + (time + 1) + 1) % 2 ^ 32 =
      omega arith in
    rw (due, next) refl
tick_if_due-at_time first time (suc (suc e)) s h = absurd (omega (arith, h))

-- A clock's next post, as the turn leaves it.
next_post_kept :
    (first time e : ℕ)
    → e ≤ 1
    → (e == 1 && (time + 1) % 20 == 0) ≡ false
    → (first + 20 * (time / 20) + 20) % 2 ^ 32 ≡ (first + 20 * ((time + e) / 20) + 20) % 2 ^ 32
next_post_kept first time e h b = ground arith

next_post_moved :
    (first time e : ℕ)
    → (e == 1 && (time + 1) % 20 == 0) ≡ true
    → ((first + time + e) % 2 ^ 32 + 20) % 2 ^ 32 ≡ (first + 20 * ((time + e) / 20) + 20) % 2 ^ 32
next_post_moved first time e b = ground arith

-- Its post.
post_if_due-at_time :
    (first time e : ℕ) (s : Sensor) (adc : ℕ)
    → e ≤ 1
    → post_if_due
        (record s {
          next_mac_tick = (first + (time + e) + 1) % 2 ^ 32;
          next_post = (first + 20 * (time / 20) + 20) % 2 ^ 32;
        })
        ((first + time + e) % 2 ^ 32)
        adc
      ≡ Option.map (at_time first (time + e)) (post_when (e == 1 && (time + 1) % 20 == 0) s adc)
unfolding post_if_due
post_if_due-at_time first time e s adc h =
    let due = post_reached first time e h in
    elim (Bool-cases (e == 1 && (time + 1) % 20 == 0)) [
      | inl b ↦
          let next = next_post_moved first time e b in
          elim (Option-cases (post_message s.mac adc)) [
            | inl p ↦ rw (due, b, p) refl
            | inr (m, p) ↦ rw (due, b, p, next) refl
          ]
      | inr b ↦ let next = next_post_kept first time e h b in rw (due, b, next) refl
    ]

-- A turn of the loop is one of the loop by a clock.
pub turn-at_time :
    (first time : ℕ) (s : Sensor) (w : Wake)
    → w.elapsed ≤ 1
    → turn (at_time first time s) (record {
      now = (first + time + w.elapsed) % 2 ^ 32;
      adc = w.adc;
      frame = w.frame;
      rssi = w.rssi;
    })
      ≡ Option.map
          (at_time first (time + w.elapsed))
          (ideal_turn (w.elapsed == 1) (w.elapsed == 1 && (time + 1) % 20 == 0) s w)
unfolding turn ideal_turn
turn-at_time first time s w h =
    let e = w.elapsed in
    let b = e == 1 && (time + 1) % 20 == 0 in
    let s1 = tick_when (e == 1) s in
    rw (turn, tick_if_due-at_time first time e s h, post_if_due-at_time first time e s1 w.adc h)
      (elim (Option-cases (post_when b s1 w.adc)) [
        | inl p ↦ rw (ideal_turn, p) refl
        | inr (s2, p) ↦
            rw (ideal_turn, p) (ap some (on_phy_event-at_time first (time + e) s2 w.frame w.rssi))
      ])

-- The first turn.
first_reached : (first : ℕ) → first < 2 ^ 31 → is_reached first 0 ≡ true
unfolding is_reached
first_reached first h = ground arith

first_tick :
    (first : ℕ) (s : Sensor)
    → first < 2 ^ 31
    → tick_if_due (record s { next_mac_tick = 0; next_post = 0 }) first
      ≡ record (tick_when true s) { next_mac_tick = (first + 0 + 1) % 2 ^ 32; next_post = 0 }
unfolding tick_if_due
first_tick first s hf =
    let due = first_reached first hf in
    let next : (first + 1) % 2 ^ 32 ≡ (first + 0 + 1) % 2 ^ 32 = omega arith in rw (due, next) refl

first_post :
    (first : ℕ) (s : Sensor) (adc : ℕ)
    → first < 2 ^ 31
    → post_if_due (record s { next_mac_tick = (first + 0 + 1) % 2 ^ 32; next_post = 0 }) first adc
      ≡ Option.map (at_time first 0) (post_when true s adc)
unfolding post_if_due
first_post first s adc hf =
    let due = first_reached first hf in
    let next : (first + 20) % 2 ^ 32 ≡ (first + 20 * (0 / 20) + 20) % 2 ^ 32 = omega arith in
    elim (Option-cases (post_message s.mac adc)) [
      | inl p ↦ rw (due, p) refl
      | inr (m, p) ↦ rw (due, p, next) refl
    ]

pub first_turn :
    (first : ℕ) (s : Sensor) (w : Wake)
    → first < 2 ^ 31
    → turn
        (record s { next_mac_tick = 0; next_post = 0 })
        (record { now = first; adc = w.adc; frame = w.frame; rssi = w.rssi })
      ≡ Option.map (at_time first 0) (ideal_turn true true s w)
unfolding turn ideal_turn
first_turn first s w hf =
    let s1 = tick_when true s in
    rw (turn, first_tick first s hf, first_post first s1 w.adc hf)
      (elim (Option-cases (post_when true s1 w.adc)) [
        | inl p ↦ rw (ideal_turn, p) refl
        | inr (s2, p) ↦
            rw (ideal_turn, p) (ap some (on_phy_event-at_time first 0 s2 w.frame w.rssi))
      ])
