-- ===== src/Si443x/Poll.antt =====
-- A poll of `si443x_event_handler` of lib/phy-si443x.c, and a round of the loop of `phy_send`.
use tinyhan.Base.{
  ap, arith, Bool-cases, inl, inr, ◌==◌, ℕ, suc, ◌≡◌, refl, true, false, some, none, ◌∷◌,
}
use tinyhan.Si443x.Regs.{r_int_status}
use tinyhan.Si443x.Radio.{Driver, read_irq, irq_low, read_bytes, si443x_read, read16}
use tinyhan.Si443x.Events.{on_status, event_handler}
use tinyhan.Si443x.Radio.{mode_tx}
use tinyhan.Si443x.Send.{Rest, fill_or_wait, tx_loop, is_tx_busy}

-- The same radio and state.
abbrev pub Keeps : Driver → Driver → Type 0
Keeps d d' = (d'.state ≡ d.state) × (d'.radio ≡ d.radio)

-- The two ways in which the event handler goes on after it has read the pin.
pub quiet :
    (fuel : ℕ) (d : Driver)
    → d.radio.irq (read_irq ∷ d.ops) ≡ false
    → event_handler (suc fuel) d ≡ some (irq_low d).0
unfolding event_handler
quiet fuel d h = rw h refl

abbrev pub status_read : Driver → Driver × ℕ
status_read d = read16 (irq_low d).0 r_int_status

pub noticed :
    (fuel : ℕ) (d : Driver)
    → d.radio.irq (read_irq ∷ d.ops) ≡ true
    → event_handler (suc fuel) d
      ≡ event_handler fuel (on_status (status_read d).0 (status_read d).1)
unfolding event_handler
noticed fuel d h = rw h refl

pub status_read-Keeps : (d : Driver) → Keeps d (status_read d).0
unfolding read16 si443x_read read_bytes
status_read-Keeps d = (refl, refl)

-- The last round of the loop.
pub last_round :
    (fuel : ℕ) (d d2 : Driver) (r : Rest) (size : ℕ)
    → (fill_or_wait d r size).2 ≡ 0
    → event_handler fuel (fill_or_wait d r size).0 ≡ some d2
    → tx_loop (suc fuel) d r size false ≡ some (mode_tx d2)
unfolding tx_loop
last_round fuel d d2 r size hz h = elim (Bool-cases (is_tx_busy d2.state)) [
  | inl p ↦ rw (h, hz, p, tx_loop) refl
  | inr p ↦ rw (h, hz, p, tx_loop) (rw hz refl)
]

-- A round that leaves bytes, with the transmitter off.
pub next_round :
    (fuel : ℕ) (d d2 : Driver) (r : Rest) (size n : ℕ)
    → (fill_or_wait d r size).2 ≡ suc n
    → event_handler fuel (fill_or_wait d r size).0 ≡ some d2
    → is_tx_busy d2.state ≡ false
    → tx_loop (suc fuel) d r size false ≡ tx_loop fuel d2 (fill_or_wait d r size).1 (suc n) false
unfolding tx_loop
next_round fuel d d2 r size n hz h hb =
    let nz : ((fill_or_wait d r size).2 == 0) ≡ false = ground arith in
    rw (h, nz, tx_loop)
      (rw nz (rw hb (ap (λ k. tx_loop fuel d2 (fill_or_wait d r size).1 k false) hz)))

-- A round whose event handler does not return.
pub no_round :
    (fuel : ℕ) (d : Driver) (r : Rest) (size : ℕ)
    → event_handler fuel (fill_or_wait d r size).0 ≡ none
    → tx_loop (suc fuel) d r size false ≡ none
unfolding tx_loop
no_round fuel d r size h = rw (h, tx_loop) refl
