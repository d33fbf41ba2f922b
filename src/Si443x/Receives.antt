-- ===== src/Si443x/Receives.antt =====
-- What `phy_event_handler` of lib/phy-si443x.c hands to the receive callback.
use mathlib.Core.List.{append_assoc, append-nil}
use mathlib.Core.Path.{subst}
use tinyhan.Base.{
  ap, ℕ, zero, suc, ◌%◌, ◌≤◌, ◌≡◌, ◌⊎◌, refl, sym, ◌∙◌, Bool, true, false, Option, none, some, List,
  [], ◌∷◌, ◌++◌, arith, ◌==◌, if_ind, Option-cases, inl, inr, if◌then◌else◌, length, ltb,
}
use tinyhan.Base.Int.{ℤ}
use tinyhan.Si443x.Regs.{r_int_status, r_fifo, r_rx_length}
use tinyhan.Si443x.Radio.{
  State, Op, Radio, select, io, delivered, Driver, act, read_bytes, si443x_read, spi_io, read8,
  read16, write_bytes, si433x_write, write8, clear_fifos, mode_standby, mode_rx,
}
use tinyhan.Si443x.Events.{phy_listen, phy_standby, sync, event_handler}
use tinyhan.Si443x.Driver.{receive, on_state, phy_event_handler, max_packet}
use tinyhan.Si443x.Wire.{wire}
use tinyhan.Si443x.Views.{IsView, view-event_handler}

-- The bytes that the radio answered while its FIFO register was read.
abbrev pub answered : Radio → List Op → List ℕ
answered radio [] = []
answered radio (op ∷ ops) = elim op [
  | io b ↦ elim (wire ops).command [
    | none ↦ answered radio ops
    | some c ↦
        if c == 0x7f
        then answered radio ops ++ (radio.miso (io b ∷ ops) % 256) ∷ []
        else answered radio ops
  ]
  | _ ↦ answered radio ops
]

-- The packets that the callback was given, the newest first.
abbrev pub packets : List Op → List (List ℕ × ℤ)
packets [] = []
packets (op ∷ ops) = elim op [ delivered bs rssi ↦ (bs, rssi) ∷ packets ops | _ ↦ packets ops ]

-- Whether a callback is registered, the packets that it was given, and all that was read from the FIFO.
abbrev pub Seen : Type 0
Seen = Bool × List (List ℕ × ℤ) × List ℕ

abbrev pub seen : Driver → Seen
seen d = (d.recv_cb, packets d.ops, answered d.radio d.ops)

seen-phy_standby : (d : Driver) → seen (phy_standby d) ≡ seen d
unfolding phy_standby clear_fifos mode_standby write8 si433x_write write_bytes
seen-phy_standby d = refl

seen-phy_listen : (d : Driver) → seen (phy_listen d) ≡ seen d
unfolding phy_listen clear_fifos mode_rx write8 si433x_write write_bytes
seen-phy_listen d = refl

seen-sync : (d : Driver) → seen (sync d) ≡ seen d
unfolding sync read8 si443x_read read_bytes
seen-sync d = refl

seen-length : (d : Driver) → seen (read8 d r_rx_length).0 ≡ seen d
unfolding read8 si443x_read read_bytes
seen-length d = refl

seen-read16 : (d : Driver) → seen (read16 d r_int_status).0 ≡ seen d
unfolding read16 si443x_read read_bytes
seen-read16 d = refl

seen-IsView : IsView seen
seen-IsView = record {
  of_state = λ d s. refl;
  of_irq = λ d. refl;
  of_status = seen-read16;
  of_sync = seen-sync;
  of_standby = seen-phy_standby;
}

-- Within a transaction that reads the FIFO, the bytes read are the bytes answered.
answered-read_bytes :
    (n : ℕ) (d : Driver)
    → (wire d.ops).command ≡ some 0x7f
    → (seen (read_bytes d n).0
        ≡ (d.recv_cb, packets d.ops, answered d.radio d.ops ++ (read_bytes d n).1))
      × (length (read_bytes d n).1 ≡ n)
unfolding read_bytes
answered-read_bytes zero d h =
    (ap (λ bs. (d.recv_cb, packets d.ops, bs)) (sym (append-nil (answered d.radio d.ops))), refl)
answered-read_bytes (suc n) d h =
    let b = d.radio.miso (io 0 ∷ d.ops) % 256 in
    let again : (wire (io 0 ∷ d.ops)).command ≡ some 0x7f = ground arith in
    let (e, l) = answered-read_bytes n (spi_io d 0).0 again in
    let bs = (read_bytes (spi_io d 0).0 n).1 in
    let first : answered d.radio (io 0 ∷ d.ops) ≡ answered d.radio d.ops ++ b ∷ [] =
      rw (answered, h) refl in
    (
      e
          ∙ ap (λ (xs : List ℕ). (d.recv_cb, packets d.ops, xs))
              (ap (λ (xs : List ℕ). xs ++ bs) first
                ∙ append_assoc (answered d.radio d.ops) (b ∷ []) bs),
      ap suc l,
    )

-- The driver and the bytes of a read of the FIFO.
abbrev taken : Driver → ℕ → Driver × List ℕ
taken d n = si443x_read d r_fifo n

seen-taken :
    (n : ℕ) (d : Driver)
    → (seen (taken d n).0 ≡ (d.recv_cb, packets d.ops, answered d.radio d.ops ++ (taken d n).1))
      × (length (taken d n).1 ≡ n)
unfolding si443x_read
seen-taken n d = answered-read_bytes n (act (act d select) (io 0x7f)) refl

-- Either nothing was read from the FIFO and no packet delivered, or one packet of at most 64 bytes.
abbrev pub IsDelivery : Seen → Seen → Type 0
IsDelivery s s' =
    (s' ≡ s)
    ⊎ ((payload : List ℕ) × (rssi : ℤ) × (s' ≡ (s.0, (payload, rssi) ∷ s.1, s.2 ++ payload))
        × (length payload ≤ 64))

receive_lem : (d : Driver) → d.recv_cb ≡ true → IsDelivery (seen d) (seen (receive d))
unfolding receive
receive_lem d h =
    let d1 = (read8 d r_rx_length).0 in
    let len = (read8 d r_rx_length).1 in
    let n = if ltb max_packet len then max_packet else len in
    let small : n ≤ 64 = ground arith in
    let (e, l) = seen-taken n d1 in
    let d3 = phy_listen (taken d1 n).0 in
    let payload = (taken d1 n).1 in
    let read : seen d3 ≡ (d.recv_cb, packets d.ops, answered d.radio d.ops ++ payload) =
      seen-phy_listen (taken d1 n).0
      ∙ e
      ∙ ap (λ (x : Seen). (x.0, x.1, x.2 ++ payload)) (seen-length d) in
    let delivery : IsDelivery (seen d) (seen (act d3 (delivered payload d3.rssi))) = inr (
      payload,
      d3.rssi,
      ap (λ (x : Seen). (x.0, (payload, d3.rssi) ∷ x.1, x.2)) read,
      omega (arith, l, small),
    ) in
    if_ind (λ x. IsDelivery (seen d) (seen x)) d.recv_cb (act d3 (delivered payload d3.rssi)) d3
      (λ _. delivery) (λ f. let no : true ≡ false = sym h ∙ f in absurd (cc))

listening : (d : Driver) → IsDelivery (seen d) (seen (phy_listen d))
listening d = inl (seen-phy_listen d)

on_state-IsDelivery :
    (s : State) (d : Driver) → d.recv_cb ≡ true → IsDelivery (seen d) (seen (on_state s d))
unfolding on_state
on_state-IsDelivery State.rx_valid d h = receive_lem d h
on_state-IsDelivery State.rx_invalid d h = listening d
on_state-IsDelivery State.fifo_error d h = listening d
on_state-IsDelivery State.standby d h = inl refl
on_state-IsDelivery State.listen d h = inl refl
on_state-IsDelivery State.rx d h = inl refl
on_state-IsDelivery State.rx_ready d h = inl refl
on_state-IsDelivery State.tx d h = inl refl
on_state-IsDelivery State.tx_busy d h = inl refl

-- Whatever the radio does, when `phy_event_handler` returns with a callback registered, either it read
-- nothing from the FIFO and delivered nothing, or it delivered one packet: exactly the bytes that it
-- read from the FIFO, at most 64 of them.
pub phy_event_handler-IsDelivery :
    (fuel : ℕ) (d d' : Driver)
    → d.recv_cb ≡ true
    → phy_event_handler fuel d ≡ some d'
    → IsDelivery (seen d) (seen d')
unfolding phy_event_handler
phy_event_handler-IsDelivery fuel d d' hc h = elim (Option-cases (event_handler fuel d)) [
  | inl e ↦
      let no : ◌≡◌ {A = Option Driver} none (some d') = rw (e, phy_event_handler) at h in
      absurd (cc)
  | inr (d1, e) ↦
      let last : ◌≡◌ {A = Option Driver} (some (on_state d1.state d1)) (some d') =
        rw (e, phy_event_handler) at h in
      let q : on_state d1.state d1 ≡ d' = cc in
      let same = view-event_handler seen-IsView fuel d d1 e in
      subst (λ x. IsDelivery x (seen d')) same
        (subst (λ x. IsDelivery (seen d1) (seen x)) q
          (on_state-IsDelivery d1.state d1 (ap (λ (x : Seen). x.0) same ∙ hc)))
]
