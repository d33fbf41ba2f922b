-- ===== src/Si443x/Calm.antt =====
-- `phy_send` of lib/phy-si443x.c on a radio that is left alone: it sends, and returns.
use mathlib.Core.Path.{subst}
use tinyhan.Base.{
  ap, ℕ, zero, suc, ◌+◌, ◌≡◌, refl, sym, ◌∙◌, true, false, some, List, [], ◌∷◌, ◌++◌, arith, length,
  bit_or, Option-cases, inl, inr,
}
use tinyhan.Base.Int.{pos}
use tinyhan.Si443x.Regs.{r_fifo, write_flag}
use tinyhan.Si443x.Radio.{
  State, Radio, Op, Driver, wait_event, read_irq, select, deselect, io, act, irq_low, read_bytes,
  si443x_read, read16, write_bytes, si433x_write, write8, clear_tx_fifo, mode_tx,
}
use tinyhan.Si443x.Events.{set_state, phy_listen, on_events, on_status, event_handler}
use tinyhan.Si443x.Poll.{Keeps, quiet, noticed, status_read, status_read-Keeps, last_round}
use tinyhan.Si443x.Send.{
  Rest, total, next_byte, fill, fill_or_wait, is_standby, is_tx, above_listen, tx_loop, complete,
  start, send_idle, phy_send,
}
use tinyhan.Si443x.Wire.{fifo, flat, joined, next_byte-IsNext}
use tinyhan.Si443x.Sends.{length-flat, fifo-phy_send}

-- A radio with nothing to report while it is configured and its FIFO is filled; a wait for it ends
-- with the report that the packet is sent.
pub record IsCalm (radio : Radio) : Type 0 where
  pub after_io : (b : ℕ) (ops : List Op) → radio.irq (read_irq ∷ (io b ∷ ops)) ≡ false
  pub after_deselect : (ops : List Op) → radio.irq (read_irq ∷ (deselect ∷ ops)) ≡ false
  pub after_wait : (ops : List Op) → radio.irq (read_irq ∷ (wait_event ∷ ops)) ≡ true
  pub sent_high :
      (ops : List Op) → radio.miso (io 0 ∷ (io 3 ∷ (select ∷ (read_irq ∷ (wait_event ∷ ops))))) ≡ 4
  pub sent_low :
      (ops : List Op)
      → radio.miso (io 0 ∷ (io 0 ∷ (io 3 ∷ (select ∷ (read_irq ∷ (wait_event ∷ ops)))))) ≡ 0

fill_all :
    (size : ℕ) (d : Driver) (r : Rest)
    → length (flat r) ≡ size
    → IsCalm d.radio
    → Keeps d (fill d r size).0 × ((fill d r size).2 ≡ 0)
unfolding fill
fill_all zero d r hl v = ((refl, refl), refl)
fill_all (suc n) d r hl v = elim (Option-cases (next_byte r.buf r.bufs)) [
  | inl e ↦
      let none_left : flat r ≡ [] = rw e at (next_byte-IsNext r.bufs r.buf) in
      absurd (omega (arith, ap length none_left, hl))
  | inr ((b, r'), e) ↦
      let next : flat r ≡ b ∷ flat r' = rw e at (next_byte-IsNext r.bufs r.buf) in
      rw (e, fill, v.after_io b d.ops)
        (fill_all n (irq_low (act d (io b))).0 r' (omega (arith, ap length next, hl)) v)
]

-- The driver after the report that the packet is sent.
abbrev after_sent : Driver → Driver
after_sent d = (irq_low (set_state (status_read d).0 State.standby)).0

on_status_sent : (d : Driver) → d.state ≡ State.tx → on_status d 1024 ≡ set_state d State.standby
unfolding on_status on_events
on_status_sent d h = rw h refl

sent_status : (d : Driver) → IsCalm d.radio → (status_read (act d wait_event)).1 ≡ 1024
unfolding read16 si443x_read read_bytes
sent_status d v = rw (v.sent_high d.ops, v.sent_low d.ops) refl

calm_status :
    (d : Driver)
    → IsCalm d.radio
    → (status_read d).0.radio.irq (read_irq ∷ (status_read d).0.ops) ≡ false
unfolding read16 si443x_read read_bytes
calm_status d v = v.after_deselect _

sent :
    (fuel : ℕ) (d : Driver)
    → IsCalm d.radio
    → d.state ≡ State.tx
    → event_handler (suc (suc fuel)) (act d wait_event) ≡ some (after_sent (act d wait_event))
sent fuel d v hs =
    noticed (suc fuel) (act d wait_event) (v.after_wait d.ops)
    ∙ ap (λ status. event_handler (suc fuel) (on_status (status_read (act d wait_event)).0 status))
        (sent_status d v)
    ∙ ap (λ x. event_handler (suc fuel) x)
        (on_status_sent (status_read (act d wait_event)).0
          ((status_read-Keeps (act d wait_event)).0 ∙ hs))
    ∙ quiet fuel (set_state (status_read (act d wait_event)).0 State.standby)
        (calm_status (act d wait_event) v)

calm_complete :
    (fuel : ℕ) (d : Driver)
    → IsCalm d.radio
    → d.state ≡ State.tx
    → complete (suc (suc (suc fuel))) d ≡ some (after_sent (act d wait_event))
unfolding complete
calm_complete fuel d v hs =
    let t : is_standby d.state ≡ false = rw hs refl in rw (t, sent fuel d v hs, complete) refl

-- The driver after the loop that fills the FIFO.
abbrev filled : Driver → Rest → ℕ → Driver
filled d r size = act (fill (act (act d select) (io (bit_or r_fifo write_flag))) r size).0 deselect

filled_all :
    (d : Driver) (r : Rest) (size : ℕ)
    → (fill (act (act d select) (io (bit_or r_fifo write_flag))) r size).2 ≡ 0
    → is_tx d.state ≡ true
    → ((fill_or_wait d r size).0 ≡ filled d r size) × ((fill_or_wait d r size).2 ≡ 0)
unfolding fill_or_wait
filled_all d r size z t = rw (t, z) (refl, refl)

calm_tx_loop :
    (fuel : ℕ) (d : Driver) (r : Rest) (size : ℕ)
    → length (flat r) ≡ size
    → IsCalm d.radio
    → d.state ≡ State.tx
    → tx_loop (suc (suc fuel)) d r size false ≡ some (mode_tx (irq_low (filled d r size)).0)
unfolding tx_loop fill_or_wait
calm_tx_loop fuel d r size hl v hs =
    let (k, z) = fill_all size (act (act d select) (io (bit_or r_fifo write_flag))) r hl v in
    let q : event_handler (suc fuel) (filled d r size) ≡ some (irq_low (filled d r size)).0 =
      quiet fuel (filled d r size) (
        subst (λ radio. radio.irq (read_irq ∷ (filled d r size).ops) ≡ false) (sym k.1)
          (v.after_deselect _)) in
    let t : is_tx d.state ≡ true = rw hs refl in
    let (same, none_left) = filled_all d r size z t in
    last_round (suc fuel) d (irq_low (filled d r size)).0 r size none_left
      (ap (λ x. event_handler (suc fuel) x) same ∙ q)

started_state : (d : Driver) (size : ℕ) → (start d size).state ≡ State.tx
unfolding start clear_tx_fifo write8 si433x_write write_bytes
started_state d size = refl

started-IsCalm : (d : Driver) (size : ℕ) → IsCalm d.radio → IsCalm (start d size).radio
unfolding start clear_tx_fifo write8 si433x_write write_bytes
started-IsCalm d size v = v

-- The driver in front of the last loop.
abbrev sending : Driver → Rest → Driver
sending d r =
    let size = length r.buf + total r.bufs in mode_tx (irq_low (filled (start d size) r size)).0

sending-Keeps :
    (d : Driver) (r : Rest)
    → IsCalm d.radio
    → Keeps (start d (length r.buf + total r.bufs)) (sending d r)
unfolding mode_tx write8 si433x_write write_bytes
sending-Keeps d r v =
    let size = length r.buf + total r.bufs in
    (fill_all size (act (act (start d size) select) (io (bit_or r_fifo write_flag))) r
      (length-flat r) (started-IsCalm d size v)).0

listening : (d : Driver) → (phy_listen d).state ≡ State.listen
unfolding phy_listen
listening d = refl

calm_send_idle :
    (fuel : ℕ) (d : Driver) (r : Rest)
    → IsCalm d.radio
    → send_idle (suc (suc (suc fuel))) d r
      ≡ some (phy_listen (after_sent (act (sending d r) wait_event)), pos 0)
unfolding send_idle
calm_send_idle fuel d r v =
    let size = length r.buf + total r.bufs in
    let e =
      calm_tx_loop (suc fuel) (start d size) r size (length-flat r) (started-IsCalm d size v)
        (started_state d size) in
    let (same_state, same_radio) = sending-Keeps d r v in
    let e2 =
      calm_complete fuel (sending d r)
        (subst (λ x. IsCalm x) (sym same_radio) (started-IsCalm d size v))
        (same_state ∙ started_state d size) in
    rw (e, e2, send_idle) refl

-- The driver after a packet has been sent.
abbrev pub packet_sent : Driver → Rest → Driver
packet_sent d r = phy_listen (after_sent (act (sending (irq_low d).0 r) wait_event))

-- On a radio that reports nothing before the packet is sent, that answers a wait with the interrupt of
-- the sent packet, and that has no interrupt pending at the call, a driver in standby or listening sends
-- any list of fragments: `phy_send` returns 0 with three rounds of fuel for each loop, every byte of the
-- fragments has gone into the FIFO in order, and the driver listens again.
pub calm-phy_send :
    (fuel : ℕ) (d : Driver) (r : Rest)
    → IsCalm d.radio
    → d.radio.irq (read_irq ∷ d.ops) ≡ false
    → above_listen d.state ≡ false
    → (phy_send (suc (suc (suc fuel))) d r ≡ some (packet_sent d r, pos 0))
      × ((packet_sent d r).state ≡ State.listen)
      × (fifo (packet_sent d r) ≡ fifo d ++ (r.buf ++ joined r.bufs))
unfolding phy_send
calm-phy_send fuel d r v hq hs =
    let q = quiet (suc (suc fuel)) d hq in
    let e : phy_send (suc (suc (suc fuel))) d r ≡ some (packet_sent d r, pos 0) =
      rw (phy_send, q, hs, calm_send_idle fuel (irq_low d).0 r v) refl in
    (e, listening _, fifo-phy_send (suc (suc (suc fuel))) d (packet_sent d r) r (pos 0) e)
