-- ===== src/Si443x/Hang.antt =====
-- `phy_send` of lib/phy-si443x.c when the wake-up timer fires while the FIFO is being filled.
use mathlib.Core.Path.{subst}
use tinyhan.Base.{
  ap, ℕ, zero, suc, ◌+◌, ◌≡◌, refl, sym, ◌∙◌, true, false, none, some, List, [], ◌∷◌, arith, length,
  ◌≤◌, ◌-◌, Option-cases, inl, inr,
}
use tinyhan.Si443x.Radio.{
  State, Radio, Op, Driver, wait_event, read_irq, select, deselect, io, act, irq_low, read_bytes,
  si443x_read, read16, write_bytes, si433x_write, write8, clear_fifos, clear_tx_fifo, mode_standby,
}
use tinyhan.Si443x.Events.{set_state, phy_standby, on_events, on_status, event_handler}
use tinyhan.Si443x.Send.{
  Rest, total, next_byte, fill, fill_or_wait, is_tx, is_tx_busy, above_listen, tx_loop, start,
  send_idle, phy_send,
}
use tinyhan.Si443x.Wire.{flat, next_byte-IsNext}
use tinyhan.Si443x.Sends.{length-flat}
use tinyhan.Si443x.Poll.{
  next_round, no_round, Keeps, status_read-Keeps, quiet, noticed, status_read,
}

-- A radio whose wake-up timer fires behind the first byte of a transaction, and that reports nothing
-- when the driver has gone to standby.
pub record IsWoken (radio : Radio) : Type 0 where
  pub after_first : (b : ℕ) (ops : List Op) → radio.irq (read_irq ∷ (io b ∷ (io 255 ∷ ops))) ≡ true
  pub after_deselect :
      (b : ℕ) (ops : List Op) → radio.irq (read_irq ∷ (deselect ∷ (read_irq ∷ (io b ∷ ops)))) ≡ true
  pub status_high :
      (ops : List Op) → radio.miso (io 0 ∷ (io 3 ∷ (select ∷ (read_irq ∷ (deselect ∷ ops))))) ≡ 0
  pub status_low :
      (ops : List Op)
      → radio.miso (io 0 ∷ (io 0 ∷ (io 3 ∷ (select ∷ (read_irq ∷ (deselect ∷ ops)))))) ≡ 8
  pub after_write :
      (b : ℕ) (ops : List Op) → radio.irq (read_irq ∷ (deselect ∷ (io b ∷ ops))) ≡ false
  pub after_wait : (ops : List Op) → radio.irq (read_irq ∷ (wait_event ∷ ops)) ≡ false

waits :
    (d : Driver) (r : Rest) (size : ℕ)
    → is_tx d.state ≡ false
    → ((fill_or_wait d r size).0 ≡ act d wait_event)
      × ((fill_or_wait d r size).1 ≡ r)
      × ((fill_or_wait d r size).2 ≡ size)
unfolding fill_or_wait
waits d r size t = rw t (refl, refl, refl)

-- In standby with bytes left, the loop waits for ever.
stuck :
    (fuel : ℕ) (d : Driver) (r : Rest) (n : ℕ)
    → IsWoken d.radio
    → d.state ≡ State.standby
    → tx_loop fuel d r (suc n) false ≡ none
unfolding tx_loop fill_or_wait event_handler
stuck zero d r n v hs = refl
stuck (suc zero) d r n v hs = refl
stuck (suc (suc fuel)) d r n v hs =
    let t : is_tx d.state ≡ false = rw hs refl in
    let b : is_tx_busy d.state ≡ false = rw hs refl in
    let (same, rest, size) = waits d r (suc n) t in
    next_round (suc fuel) d (irq_low (act d wait_event)).0 r (suc n) n size
      (ap (λ x. event_handler (suc fuel) x) same
        ∙ quiet fuel (act d wait_event) (v.after_wait d.ops))
      b
    ∙ stuck (suc fuel) (irq_low (act d wait_event)).0 (fill_or_wait d r (suc n)).1 n v hs

-- The driver after the report of the timer.
abbrev woken : Driver → Driver
woken d = (irq_low (phy_standby (status_read d).0)).0

woken_status : (d : Driver) → IsWoken d.radio → (status_read (act d deselect)).1 ≡ 8
unfolding read16 si443x_read read_bytes
woken_status d v = rw (v.status_high d.ops, v.status_low d.ops) refl

on_status_woken : (d : Driver) → d.state ≡ State.tx → on_status d 8 ≡ phy_standby d
unfolding on_status on_events
on_status_woken d h = rw h refl

woken_quiet :
    (d : Driver)
    → IsWoken d.radio
    → (phy_standby d).radio.irq (read_irq ∷ (phy_standby d).ops) ≡ false
unfolding phy_standby clear_fifos mode_standby write8 si433x_write write_bytes
woken_quiet d v = v.after_write 0 _

woken_state :
    (d : Driver) → ((woken d).state ≡ State.standby) × ((woken d).radio ≡ (status_read d).0.radio)
unfolding phy_standby clear_fifos mode_standby write8 si433x_write write_bytes
woken_state d = (refl, refl)

-- The event handler behind the first byte.
wakes :
    (fuel : ℕ) (d : Driver)
    → IsWoken d.radio
    → d.state ≡ State.tx
    → d.radio.irq (read_irq ∷ (deselect ∷ d.ops)) ≡ true
    → event_handler (suc (suc fuel)) (act d deselect) ≡ some (woken (act d deselect))
unfolding read16 si443x_read read_bytes
wakes fuel d v hs h =
    let x = act d deselect in
    noticed (suc fuel) x h
    ∙ ap (λ status. event_handler (suc fuel) (on_status (status_read x).0 status))
        (woken_status d v)
    ∙ ap (λ y. event_handler (suc fuel) y)
        (on_status_woken (status_read x).0 ((status_read-Keeps x).0 ∙ hs))
    ∙ quiet fuel (phy_standby (status_read x).0) (woken_quiet (status_read x).0 v)

-- The loop stops behind the first byte.
rings :
    (d : Driver) (r : Rest) (n : ℕ)
    → length (flat r) ≡ suc (suc n)
    → IsWoken d.radio
    → is_tx d.state ≡ true
    → (b : ℕ) × ((fill_or_wait d r (suc (suc n))).0
        ≡ act (irq_low (act (act (act d select) (io 255)) (io b))).0 deselect)
      × ((fill_or_wait d r (suc (suc n))).2 ≡ suc n)
unfolding fill_or_wait fill
rings d r n hl v t = elim (Option-cases (next_byte r.buf r.bufs)) [
  | inl e ↦
      let none_left : flat r ≡ [] = rw e at (next_byte-IsNext r.bufs r.buf) in
      absurd (omega (arith, ap length none_left, hl))
  | inr ((b, r'), e) ↦ (
    b,
    rw (t, e, v.after_first b (select ∷ d.ops), fill) refl,
    rw (t, e, v.after_first b (select ∷ d.ops), fill) refl,
  )
]

woken_loop :
    (fuel : ℕ) (d : Driver) (r : Rest) (n : ℕ)
    → length (flat r) ≡ suc (suc n)
    → IsWoken d.radio
    → d.state ≡ State.tx
    → tx_loop fuel d r (suc (suc n)) false ≡ none
unfolding tx_loop event_handler
woken_loop zero d r n hl v hs = refl
woken_loop (suc zero) d r n hl v hs = refl
woken_loop (suc (suc zero)) d r n hl v hs =
    let (b, same, size) = rings d r n hl v (rw hs refl) in
    let x = (irq_low (act (act (act d select) (io 255)) (io b))).0 in
    no_round 1 d r (suc (suc n))
      (ap (λ y. event_handler 1 y) same ∙ noticed 0 (act x deselect) (v.after_deselect b _))
woken_loop (suc (suc (suc fuel))) d r n hl v hs =
    let t : is_tx d.state ≡ true = rw hs refl in
    let (b, same, size) = rings d r n hl v t in
    let x = (irq_low (act (act (act d select) (io 255)) (io b))).0 in
    let (standby, radio) = woken_state (act x deselect) in
    let busy : is_tx_busy (woken (act x deselect)).state ≡ false = rw standby refl in
    next_round (suc (suc fuel)) d (woken (act x deselect)) r (suc (suc n)) n size
      (ap (λ y. event_handler (suc (suc fuel)) y) same ∙ wakes fuel x v hs (v.after_deselect b _))
      busy
    ∙ stuck (suc (suc fuel)) (woken (act x deselect)) (fill_or_wait d r (suc (suc n))).1 n
        (subst (λ y. IsWoken y) (sym (radio ∙ (status_read-Keeps (act x deselect)).1)) v) standby

start_state : (d : Driver) (size : ℕ) → Keeps (set_state d State.tx) (start d size)
unfolding start clear_tx_fifo write8 si433x_write write_bytes
start_state d size = (refl, refl)

woken_send_idle :
    (fuel : ℕ) (d : Driver) (r : Rest) (n : ℕ)
    → length (flat r) ≡ suc (suc n)
    → IsWoken d.radio
    → send_idle fuel d r ≡ none
unfolding send_idle
woken_send_idle fuel d r n hl v =
    let size : length r.buf + total r.bufs ≡ suc (suc n) = sym (length-flat r) ∙ hl in
    let (state, radio) = start_state d (suc (suc n)) in
    let e =
      woken_loop fuel (start d (suc (suc n))) r n hl (subst (λ y. IsWoken y) (sym radio) v) state in
    rw (size, e, send_idle) refl

-- When the wake-up timer fires behind the first byte that goes into the FIFO and the radio reports
-- nothing after that, a driver in standby or listening that sends at least two bytes, with no
-- interrupt pending at the call, never returns: no fuel is enough for `phy_send`.
pub woken-phy_send :
    (fuel : ℕ) (d : Driver) (r : Rest)
    → 2 ≤ length r.buf + total r.bufs
    → IsWoken d.radio
    → d.radio.irq (read_irq ∷ d.ops) ≡ false
    → above_listen d.state ≡ false
    → phy_send fuel d r ≡ none
unfolding phy_send event_handler
woken-phy_send zero d r hl v hq hs = refl
woken-phy_send (suc fuel) d r hl v hq hs =
    let e =
      woken_send_idle (suc fuel) (irq_low d).0 r (length (flat r) - 2)
        (omega (arith, hl, length-flat r)) v in
    rw (phy_send, quiet fuel d hq, hs, e) refl
