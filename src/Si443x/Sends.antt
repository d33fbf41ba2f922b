-- ===== src/Si443x/Sends.antt =====
-- What `phy_send` of lib/phy-si443x.c puts into the radio's FIFO, on every radio.
use tinyhan.Base.{
  ap, ℕ, zero, suc, ◌+◌, ◌≡◌, sym, ◌∙◌, false, Option, none, some, List, ◌++◌, arith, length,
  length-append, if◌then◌else◌, Bool-cases, Option-cases, inl, inr,
}
use tinyhan.Base.Int.{ℤ, pos, negsuc, is_neg}
use tinyhan.Si443x.Radio.{Driver, wait_event, act}
use tinyhan.Si443x.Events.{phy_listen, event_handler}
use tinyhan.Si443x.Send.{
  Rest, total, is_standby, above_listen, tx_loop, complete, start, send_idle, phy_send,
}
use tinyhan.Si443x.Wire.{
  fifo, flat, joined, length-joined, fifo-start, fifo-phy_listen, fifo-tx_loop, fifo-event_handler,
}

fifo-complete : (fuel : ℕ) (d d' : Driver) → complete fuel d ≡ some d' → fifo d' ≡ fifo d
unfolding complete
fifo-complete zero d d' h = cc
fifo-complete (suc fuel) d d' h = elim (Bool-cases (is_standby d.state)) [
  | inl p ↦
      let e : some d ≡ some d' = rw (p, complete) at h in
      let q : d ≡ d' = cc in ap (λ (x : Driver). fifo x) (sym q)
  | inr p ↦ elim (Option-cases (event_handler fuel (act d wait_event))) [
    | inl e ↦ let no : none ≡ some d' = rw (p, e, complete) at h in cc
    | inr (d1, e) ↦
        fifo-complete fuel d1 d' (rw (p, e, complete) at h)
        ∙ fifo-event_handler fuel (act d wait_event) d1 e
  ]
]

pub length-flat : (r : Rest) → length (flat r) ≡ length r.buf + total r.bufs
length-flat r = omega (arith, length-append r.buf (joined r.bufs), length-joined r.bufs)

fifo-send_idle :
    (fuel : ℕ) (d d' : Driver) (r : Rest) (rc : ℤ)
    → send_idle fuel d r ≡ some (d', rc)
    → (fifo d' ≡ fifo d ++ flat r) × (rc ≡ pos 0)
unfolding send_idle
fifo-send_idle fuel d d' r rc h =
    let size = length r.buf + total r.bufs in
    elim (Option-cases (tx_loop fuel (start d size) r size false)) [
      | inl e ↦
          let no : ◌≡◌ {A = Option (Driver × ℤ)} none (some (d', rc)) = rw (e, send_idle) at h in
          absurd (cc)
      | inr (d1, e) ↦ elim (Option-cases (complete fuel d1)) [
        | inl e2 ↦
            let no : ◌≡◌ {A = Option (Driver × ℤ)} none (some (d', rc)) =
              rw (e, e2, send_idle) at h in
            absurd (cc)
        | inr (d2, e2) ↦
            let last : ◌≡◌ {A = Option (Driver × ℤ)} (some (phy_listen d2, pos 0)) (some (d', rc)) =
              rw (e, e2, send_idle) at h in
            let q : phy_listen d2 ≡ d' = cc in
            let z : pos 0 ≡ rc = cc in
            (
              ap (λ (x : Driver). fifo x) (sym q)
                  ∙ fifo-phy_listen d2
                  ∙ fifo-complete fuel d1 d2 e2
                  ∙ fifo-tx_loop fuel (start d size) d1 r size false (length-flat r) e
                  ∙ ap (λ (bs : List ℕ). bs ++ flat r) (fifo-start d size),
              sym z,
            )
      ]
    ]

-- Whatever the radio does and however its events fall, when `phy_send` returns 0 the FIFO register was
-- given exactly the bytes of all fragments in order, and when it returns an error, nothing.
pub fifo-phy_send :
    (fuel : ℕ) (d d' : Driver) (r : Rest) (rc : ℤ)
    → phy_send fuel d r ≡ some (d', rc)
    → fifo d' ≡ (if is_neg rc then fifo d else fifo d ++ (r.buf ++ joined r.bufs))
unfolding phy_send
fifo-phy_send fuel d d' r rc h = elim (Option-cases (event_handler fuel d)) [
  | inl e ↦
      let no : ◌≡◌ {A = Option (Driver × ℤ)} none (some (d', rc)) = rw (e, phy_send) at h in
      absurd (cc)
  | inr (d1, e) ↦ elim (Bool-cases (above_listen d1.state)) [
    | inl p ↦
        let last : ◌≡◌ {A = Option (Driver × ℤ)} (some (d1, negsuc 0)) (some (d', rc)) =
          rw (e, phy_send, p) at h in
        let q : d1 ≡ d' = cc in
        let z : negsuc 0 ≡ rc = cc in
        rw (← z) (ap (λ (x : Driver). fifo x) (sym q) ∙ fifo-event_handler fuel d d1 e)
    | inr p ↦
        let (f, z) = fifo-send_idle fuel d1 d' r rc (rw (e, phy_send, p) at h) in
        rw z (f ∙ ap (λ (bs : List ℕ). bs ++ flat r) (fifo-event_handler fuel d d1 e))
  ]
]
