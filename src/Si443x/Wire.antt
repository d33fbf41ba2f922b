-- ===== src/Si443x/Wire.antt =====
-- What the radio's transmit FIFO is given by the SPI traffic of lib/phy-si443x.c.
use mathlib.Core.List.{append_assoc, append-nil}
use tinyhan.Base.{
  ap, ℕ, zero, suc, ◌≡◌, refl, sym, ◌∙◌, Bool, ◌&&◌, ◌||◌, not, Option, none, some, List, [], ◌∷◌,
  ◌++◌, arith, ◌==◌, if_ind, Bool-cases, Option-cases, inl, inr, if◌then◌else◌, length,
  length-append,
}
use tinyhan.Si443x.Regs.{r_int_status}
use tinyhan.Si443x.Radio.{
  Op, select, deselect, io, Driver, act, irq_low, read_bytes, si443x_read, read8, read16,
  write_bytes, si433x_write, write8, clear_fifos, clear_tx_fifo, mode_standby, mode_tx, mode_rx,
}
use tinyhan.Si443x.Events.{phy_listen, phy_standby, sync, event_handler}
use tinyhan.Si443x.Views.{IsView, view-event_handler}
use tinyhan.Si443x.Send.{
  Rest, next_byte, fill, fill_or_wait, tx_loop, start, total, is_tx_busy, is_tx,
}

-- The command byte of the transaction in progress, and all bytes written to the FIFO register.
pub record Wire : Type 0 where
  pub command : Option ℕ
  pub fifo : List ℕ

abbrev pub shift : Wire → ℕ → Wire
shift w b = elim w.command [
  | none ↦ record w { command = some b }
  | some c ↦ if c == 0xff then record w { fifo = w.fifo ++ b ∷ [] } else w
]

abbrev pub on_op : Wire → Op → Wire
on_op w op = elim op [
  | select ↦ record w { command = none }
  | deselect ↦ record w { command = none }
  | io b ↦ shift w b
  | _ ↦ w
]

abbrev pub wire : List Op → Wire
wire [] = record { command = none; fifo = [] }
wire (op ∷ ops) = on_op (wire ops) op

-- The bytes that the FIFO was given so far.
abbrev pub fifo : Driver → List ℕ
fifo d = (wire d.ops).fifo

fifo-clear_fifos : (d : Driver) → fifo (clear_fifos d) ≡ fifo d
unfolding clear_fifos write8 si433x_write write_bytes
fifo-clear_fifos d = refl

pub fifo-phy_listen : (d : Driver) → fifo (phy_listen d) ≡ fifo d
unfolding phy_listen clear_fifos mode_rx write8 si433x_write write_bytes
fifo-phy_listen d = refl

fifo-phy_standby : (d : Driver) → fifo (phy_standby d) ≡ fifo d
unfolding phy_standby clear_fifos mode_standby write8 si433x_write write_bytes
fifo-phy_standby d = refl

fifo-mode_tx : (d : Driver) → fifo (mode_tx d) ≡ fifo d
unfolding mode_tx write8 si433x_write write_bytes
fifo-mode_tx d = refl

pub fifo-start : (d : Driver) (n : ℕ) → fifo (start d n) ≡ fifo d
unfolding start clear_tx_fifo write8 si433x_write write_bytes
fifo-start d n = refl

fifo-sync : (d : Driver) → fifo (sync d) ≡ fifo d
unfolding sync read8 si443x_read read_bytes
fifo-sync d = refl

fifo-read16 : (d : Driver) → fifo (read16 d r_int_status).0 ≡ fifo d
unfolding read16 si443x_read read_bytes
fifo-read16 d = refl

fifo-IsView : IsView fifo
fifo-IsView = record {
  of_state = λ d s. refl;
  of_irq = λ d. refl;
  of_status = fifo-read16;
  of_sync = fifo-sync;
  of_standby = fifo-phy_standby;
}

-- The event handler writes nothing to the FIFO.
pub fifo-event_handler :
    (fuel : ℕ) (d d' : Driver) → event_handler fuel d ≡ some d' → fifo d' ≡ fifo d
fifo-event_handler = view-event_handler fifo-IsView

abbrev pub joined : List (List ℕ) → List ℕ
joined [] = []
joined (b ∷ bufs) = b ++ joined bufs

-- The bytes that are left.
abbrev pub flat : Rest → List ℕ
flat r = r.buf ++ joined r.bufs

-- The answer of `next_byte` about these bytes.
abbrev pub IsNext : Option (ℕ × Rest) → List ℕ → Type 0
IsNext none bytes = bytes ≡ []
IsNext (some (b, r)) bytes = bytes ≡ b ∷ flat r

pub next_byte-IsNext :
    (bufs : List (List ℕ)) (buf : List ℕ) → IsNext (next_byte buf bufs) (buf ++ joined bufs)
unfolding next_byte
next_byte-IsNext bufs (b ∷ bs) = refl
next_byte-IsNext [] [] = refl
next_byte-IsNext (c ∷ bufs) [] = next_byte-IsNext bufs c

pub length-joined : (bufs : List (List ℕ)) → length (joined bufs) ≡ total bufs
unfolding total
length-joined [] = refl
length-joined (b ∷ bufs) = omega (arith, length-append b (joined bufs), length-joined bufs)

-- A byte within a transaction that writes the FIFO.
pub shift_fifo :
    (w : Wire) (b : ℕ)
    → w.command ≡ some 0xff
    → ((shift w b).fifo ≡ w.fifo ++ b ∷ []) × ((shift w b).command ≡ some 0xff)
shift_fifo w b h = (ground arith, ground arith)

abbrev IsFilled : Driver → Rest → Driver × Rest × ℕ → Type 0
IsFilled d r (d', r', n) = (fifo d' ++ flat r' ≡ fifo d ++ flat r) × (length (flat r') ≡ n)

fill-IsFilled :
    (size : ℕ) (d : Driver) (r : Rest)
    → length (flat r) ≡ size
    → (wire d.ops).command ≡ some 0xff
    → IsFilled d r (fill d r size)
unfolding fill
fill-IsFilled zero d r hl hc = (refl, hl)
fill-IsFilled (suc n) d r hl hc = elim (Option-cases (next_byte r.buf r.bufs)) [
  | inl e ↦
      let none_left : flat r ≡ [] = rw e at (next_byte-IsNext r.bufs r.buf) in
      absurd (omega (arith, ap length none_left, hl))
  | inr ((b, r'), e) ↦
      let next : flat r ≡ b ∷ flat r' = rw e at (next_byte-IsNext r.bufs r.buf) in
      let (e1, c1) = shift_fifo (wire d.ops) b hc in
      let d1 = (irq_low (act d (io b))).0 in
      let moved : fifo d1 ++ flat r' ≡ fifo d ++ flat r =
        ap (λ (bs : List ℕ). bs ++ flat r') e1
        ∙ append_assoc (fifo d) (b ∷ []) (flat r')
        ∙ ap (λ (bs : List ℕ). fifo d ++ bs) (sym next) in
      let left : length (flat r') ≡ n = omega (arith, ap length next, hl) in
      let (x, y) = fill-IsFilled n d1 r' left c1 in
      rw (e, fill)
        (if_ind (IsFilled d r) (irq_low (act d (io b))).1 (d1, r', n) (fill d1 r' n)
          (λ _. (moved, left)) (λ _. (x ∙ moved, y)))
]

fill_or_wait-IsFilled :
    (d : Driver) (r : Rest) (size : ℕ)
    → length (flat r) ≡ size
    → IsFilled d r (fill_or_wait d r size)
unfolding fill_or_wait
fill_or_wait-IsFilled d r size h =
    if_ind (IsFilled d r) (is_tx d.state) _ _
      (λ _. fill-IsFilled size (act (act d select) (io 0xff)) r h refl) (λ _. (refl, h))

pub empty : (bs : List ℕ) → length bs ≡ 0 → bs ≡ []
empty [] h = refl
empty (b ∷ bs) h = absurd (omega arith)

pub fifo-tx_loop :
    (fuel : ℕ) (d d' : Driver) (r : Rest) (size : ℕ) (started : Bool)
    → length (flat r) ≡ size
    → tx_loop fuel d r size started ≡ some d'
    → fifo d' ≡ fifo d ++ flat r
unfolding tx_loop
fifo-tx_loop zero d d' r size started hl h = cc
fifo-tx_loop (suc fuel) d d' r size started hl h =
    let d1 = (fill_or_wait d r size).0 in
    let r1 = (fill_or_wait d r size).1 in
    let n1 = (fill_or_wait d r size).2 in
    let (moved, left) = fill_or_wait-IsFilled d r size hl in
    elim (Option-cases (event_handler fuel d1)) [
      | inl e ↦ let no : none ≡ some d' = rw (e, tx_loop) at h in cc
      | inr (d2, e) ↦
          let go = not started && (is_tx_busy d2.state || n1 == 0) in
          let d3 = if go then mode_tx d2 else d2 in
          let e3 : fifo d3 ≡ fifo d1 =
            if_ind (λ x. fifo x ≡ fifo d1) go (mode_tx d2) d2
              (λ _. fifo-mode_tx d2 ∙ fifo-event_handler fuel d1 d2 e)
              (λ _. fifo-event_handler fuel d1 d2 e) in
          elim (Bool-cases (n1 == 0)) [
            | inl z ↦
                let last : some d3 ≡ some d' = rw (e, z, tx_loop) at h in
                let q : d3 ≡ d' = cc in
                let none_left : flat r1 ≡ [] = empty (flat r1) (left ∙ ground arith) in
                ap (λ (x : Driver). fifo x) (sym q)
                ∙ e3
                ∙ sym (append-nil (fifo d1))
                ∙ ap (λ (bs : List ℕ). fifo d1 ++ bs) (sym none_left)
                ∙ moved
            | inr nz ↦
                fifo-tx_loop fuel d3 d' r1 n1 (started || go) left (rw (e, nz, tx_loop) at h)
                ∙ ap (λ (bs : List ℕ). bs ++ flat r1) e3
                ∙ moved
          ]
    ]
