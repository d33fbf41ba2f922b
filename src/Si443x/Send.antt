-- ===== src/Si443x/Send.antt =====
-- `phy_send` of lib/phy-si443x.c. A loop that waits for the radio takes fuel, and `none` means that it
-- ran out.
use tinyhan.Base.{
  ℕ, zero, suc, ◌+◌, Bool, true, false, ◌&&◌, ◌||◌, not, Option, none, some, List, [], ◌∷◌, ◌==◌,
  length, if◌then◌else◌, bit_or,
}
use tinyhan.Base.Int.{ℤ, pos, negsuc}
use tinyhan.Si443x.Regs.{write_flag, r_fifo, r_tx_length}
use tinyhan.Si443x.Radio.{
  State, Driver, select, deselect, io, wait_event, act, irq_low, write8, clear_tx_fifo, mode_tx,
}
use tinyhan.Si443x.Events.{set_state, phy_listen, event_handler}

abbrev pub is_standby : State → Bool
is_standby s = elim s [ State.standby ↦ true | _ ↦ false ]

abbrev pub is_tx : State → Bool
is_tx s = elim s [ State.tx ↦ true | _ ↦ false ]

abbrev pub is_tx_busy : State → Bool
is_tx_busy s = elim s [ State.tx_busy ↦ true | _ ↦ false ]

-- `phy_si443x_state > stateListen`
abbrev pub above_listen : State → Bool
above_listen s = elim s [ State.standby ↦ false | State.listen ↦ false | _ ↦ true ]

-- The total size of the fragments.
unfoldable pub total : List (List ℕ) → ℕ
total [] = 0
total (b ∷ bufs) = length b + total bufs

-- What is left to send: the fragment at hand and those behind it.
pub record Rest : Type 0 where
  pub buf : List ℕ
  pub bufs : List (List ℕ)

-- The next byte, from the first fragment that is not empty; `none` when the list is at its end, where
-- the code would read on.
unfoldable pub next_byte : List ℕ → List (List ℕ) → Option (ℕ × Rest)
next_byte (b ∷ bs) bufs = some (b, record { buf = bs; bufs = bufs })
next_byte [] [] = none
next_byte [] (c ∷ bufs) = next_byte c bufs

-- The loop that fills the FIFO with the `size` bytes left, until an event is pending.
unfoldable pub fill : Driver → Rest → ℕ → Driver × Rest × ℕ
fill d r zero = (d, r, 0)
fill d r (suc n) = elim (next_byte r.buf r.bufs) [
  | none ↦ (d, r, suc n)
  | some (b, r') ↦
      let (d1, low) = irq_low (act d (io b)) in if low then (d1, r', n) else fill d1 r' n
]

-- One round of the loop of `phy_send`, up to its event handler.
unfoldable pub fill_or_wait : Driver → Rest → ℕ → Driver × Rest × ℕ
fill_or_wait d r size =
    let (d1, r1, n1) = fill (act (act d select) (io (bit_or r_fifo write_flag))) r size in
    if is_tx d.state then (act d1 deselect, r1, n1) else (act d wait_event, r, size)

-- The loop of `phy_send`, with the bytes left and whether the transmitter is on.
unfoldable pub tx_loop : ℕ → Driver → Rest → ℕ → Bool → Option Driver
tx_loop zero d r size started = none
tx_loop (suc fuel) d r size started =
    let (d1, r1, n1) = fill_or_wait d r size in
    elim (event_handler fuel d1) [
      | none ↦ none
      | some d2 ↦
          let go = not started && (is_tx_busy d2.state || n1 == 0) in
          let d3 = if go then mode_tx d2 else d2 in
          elim (n1 == 0) [ true ↦ some d3 | false ↦ tx_loop fuel d3 r1 n1 (started || go) ]
    ]

-- The loop at the end of `phy_send`, until the packet is sent.
unfoldable pub complete : ℕ → Driver → Option Driver
complete zero d = none
complete (suc fuel) d = elim (is_standby d.state) [
  | true ↦ some d
  | false ↦ elim (event_handler fuel (act d wait_event)) [
    | none ↦ none
    | some d1 ↦ complete fuel d1
  ]
]

-- The driver before the loop of `phy_send`.
unfoldable pub start : Driver → ℕ → Driver
unfolding clear_tx_fifo write8
start d size = write8 (clear_tx_fifo (set_state d State.tx)) r_tx_length size

-- The loops of `phy_send`, when the radio is not busy.
unfoldable pub send_idle : ℕ → Driver → Rest → Option (Driver × ℤ)
send_idle fuel d r =
    let size = length r.buf + total r.bufs in
    elim (tx_loop fuel (start d size) r size false) [
      | none ↦ none
      | some d1 ↦ elim (complete fuel d1) [ none ↦ none | some d2 ↦ some (phy_listen d2, pos 0) ]
    ]

-- `phy_send`, for a list of at least one fragment; the flags are not read.
unfoldable pub phy_send : ℕ → Driver → Rest → Option (Driver × ℤ)
phy_send fuel d r = elim (event_handler fuel d) [
  | none ↦ none
  | some d1 ↦ if above_listen d1.state then some (d1, negsuc 0) else send_idle fuel d1 r
]
