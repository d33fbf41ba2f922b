-- ===== src/Si443x/Returns.antt =====
-- When the event handling of lib/phy-si443x.c returns.
use mathlib.Core.Path.{subst}
use tinyhan.Base.{
  ℕ, zero, suc, ◌+◌, ◌≤◌, ◌<◌, ◌≡◌, refl, sym, ◌∙◌, ap, false, ◌&&◌, Bool, some, List, [], ◌∷◌,
  ◌++◌, has_bit, if◌then◌else◌, if_ind, Bool-cases, inl, inr, arith, ◌==◌, bit_or, ◌%◌,
}
use tinyhan.Si443x.Regs.{
  iswdet_bit, iwut_bit, r_int_status, r_op_ctrl1, r_op_ctrl2, r_rssi, ffclrtx, ffclrrx, read_flag,
  write_flag,
}
use tinyhan.Si443x.Radio.{
  Op, select, deselect, io, Radio, read_irq, Driver, irq_low, read16, read8, si443x_read,
  read_bytes, write8, si433x_write, write_bytes, clear_fifos, mode_standby,
}
use tinyhan.Si443x.Events.{is_listen, phy_standby, sync, on_events, on_status, event_handler}
use tinyhan.Si443x.Views.{view-on_events}
use tinyhan.Si443x.Driver.{on_state, phy_event_handler}
use tinyhan.Si443x.Poll.{quiet, noticed, status_read}

-- Whether the last thing on the pins was a transaction that read two bytes from the first status register on.
abbrev pub is_status_read : List Op → Bool
is_status_read (deselect ∷ (io a ∷ (io b ∷ (io addr ∷ (select ∷ ops))))) = addr == r_int_status
is_status_read ops = false

-- How often the status was read so far.
unfoldable pub reads : List Op → ℕ
reads [] = 0
reads (op ∷ ops) = (if is_status_read (op ∷ ops) then 1 else 0) + reads ops

-- A radio that releases nIRQ once its status was read `n` times in all, and not necessarily at any other time.
abbrev pub ClearsAt : ℕ → Radio → Type 0
ClearsAt n radio = (ops : List Op) → n ≤ reads ops → radio.irq (read_irq ∷ ops) ≡ false

grows : (ops : List Op) (n : ℕ) (xs : List Op) → n ≤ reads ops → n ≤ reads (xs ++ ops)
unfolding reads
grows ops n [] h = h
grows ops n (x ∷ xs) h = let g = grows ops n xs h in omega (arith, g)

-- A driver with this radio that has read the status `n` times or more.
abbrev HasRead : Radio → ℕ → Driver → Type 0
HasRead radio n d = (d.radio ≡ radio) × (n ≤ reads d.ops)

write8-HasRead :
    (radio : Radio) (n : ℕ) (d : Driver) (addr v : ℕ)
    → HasRead radio n d
    → HasRead radio n (write8 d addr v)
unfolding write8 si433x_write write_bytes
write8-HasRead radio n d addr v (r, h) = (
  r,
  grows d.ops n (deselect ∷ (io (v % 256) ∷ (io (bit_or write_flag (addr % 128)) ∷ (select ∷ []))))
      h,
)

phy_standby-HasRead :
    (radio : Radio) (n : ℕ) (d : Driver) → HasRead radio n d → HasRead radio n (phy_standby d)
unfolding phy_standby clear_fifos mode_standby
phy_standby-HasRead radio n d v =
    let d1 = write8 d r_op_ctrl2 (ffclrtx + ffclrrx) in
    let d2 = write8 d1 r_op_ctrl2 0 in
    write8-HasRead radio n d2 r_op_ctrl1 0 (
      write8-HasRead radio n d1 r_op_ctrl2 0
        (write8-HasRead radio n d r_op_ctrl2 (ffclrtx + ffclrrx) v))

sync-HasRead : (radio : Radio) (n : ℕ) (d : Driver) → HasRead radio n d → HasRead radio n (sync d)
unfolding sync read8 si443x_read read_bytes
sync-HasRead radio n d (r, h) = (
  r,
  grows d.ops n (deselect ∷ (io 0 ∷ (io (bit_or read_flag (r_rssi % 128)) ∷ (select ∷ [])))) h,
)

on_events-HasRead :
    (radio : Radio) (n : ℕ) (d : Driver) (status : ℕ)
    → HasRead radio n d
    → HasRead radio n (on_events d status)
unfolding on_events
on_events-HasRead radio n d status v =
    subst (λ (x : Radio × List Op). (x.0 ≡ radio) × (n ≤ reads x.1))
      (sym (view-on_events (λ (x : Driver). (x.radio, x.ops)) (λ d s. refl) d status)) v

-- The status is read once more.
status_read-HasRead :
    (radio : Radio) (n : ℕ) (d : Driver)
    → HasRead radio n d
    → HasRead radio (suc n) (status_read d).0
unfolding read16 si443x_read read_bytes reads
status_read-HasRead radio n d (r, h) =
    let g =
      grows d.ops n
        (io 0 ∷ (io 0 ∷ (io (bit_or read_flag (r_int_status % 128)) ∷ (select ∷ (read_irq ∷ [])))))
        h in
    (r, omega (arith, g))

on_status-HasRead :
    (radio : Radio) (n : ℕ) (d : Driver) (status : ℕ)
    → HasRead radio n d
    → HasRead radio n (on_status d status)
unfolding on_status
on_status-HasRead radio n d status v =
    let c = is_listen d.state && has_bit status iswdet_bit in
    let d1 = if c then sync d else d in
    let v1 : HasRead radio n d1 =
      if_ind (HasRead radio n) c (sync d) d (λ _. sync-HasRead radio n d v) (λ _. v) in
    let v2 = on_events-HasRead radio n d1 status v1 in
    if_ind (HasRead radio n) (has_bit status iwut_bit) _ _
      (λ _. phy_standby-HasRead radio n (on_events d1 status) v2) (λ _. v2)

-- The polls, with `k` reads to come.
polls :
    (radio : Radio) (k fuel n : ℕ) (d : Driver)
    → k < fuel
    → ClearsAt (n + k) radio
    → HasRead radio n d
    → (d' : Driver) × (event_handler fuel d ≡ some d')
polls radio k zero n d hk c v = absurd (omega arith)
polls radio zero (suc fuel) n d hk c (r, h) =
    let high : d.radio.irq (read_irq ∷ d.ops) ≡ false =
      ap (λ (x : Radio). x.irq (read_irq ∷ d.ops)) r ∙ c d.ops (omega arith) in
    ((irq_low d).0, quiet fuel d high)
polls radio (suc k) (suc fuel) n d hk c v = elim (Bool-cases (irq_low d).1) [
  | inl p ↦
      let x = status_read d in
      let v1 = on_status-HasRead radio (suc n) x.0 x.1 (status_read-HasRead radio n d v) in
      let (d', e) =
        polls radio k fuel (suc n) (on_status x.0 x.1) (omega arith) (λ ops h. c ops (omega arith))
          v1 in
      (d', noticed fuel d p ∙ e)
  | inr p ↦ ((irq_low d).0, quiet fuel d p)
]

-- On a radio that holds nIRQ high once its status was read `k` times more than so far, whatever it does
-- before that, `phy_event_handler` returns, after at most `k + 1` polls.
pub phy_event_handler-returns :
    (k fuel : ℕ) (d : Driver)
    → k < fuel
    → ClearsAt (reads d.ops + k) d.radio
    → (d' : Driver) × (phy_event_handler fuel d ≡ some d')
unfolding phy_event_handler
phy_event_handler-returns k fuel d hk c =
    let (d1, e) = polls d.radio k fuel (reads d.ops) d hk c (refl, omega arith) in
    (on_state d1.state d1, rw (e, phy_event_handler) refl)
