-- ===== src/Si443x/Views.antt =====
-- What `si443x_event_handler` of lib/phy-si443x.c leaves alone.
use tinyhan.Base.{
  ap, ℕ, zero, suc, ◌≡◌, refl, sym, ◌∙◌, Bool, ◌&&◌, some, has_bit, if◌then◌else◌, if_ind,
  Bool-cases, inl, inr,
}
use tinyhan.Si443x.Regs.{r_int_status, iswdet_bit, iwut_bit}
use tinyhan.Si443x.Radio.{State, Driver, irq_low, read16}
use tinyhan.Si443x.Events.{
  set_state, is_listen, when_bit, phy_standby, sync, on_events, on_status, event_handler,
}

-- A view of the driver that no part of the event handler changes.
pub record IsView {ℓ} {A : Type ℓ} (view : Driver → A) : Type ℓ where
  pub of_state : (d : Driver) (s : State) → view (set_state d s) ≡ view d
  pub of_irq : (d : Driver) → view (irq_low d).0 ≡ view d
  pub of_status : (d : Driver) → view (read16 d r_int_status).0 ≡ view d
  pub of_sync : (d : Driver) → view (sync d) ≡ view d
  pub of_standby : (d : Driver) → view (phy_standby d) ≡ view d

-- The states that the status bits set.
module _ {ℓ} {A : Type ℓ} (view : Driver → A)
    (of_state : (d : Driver) (s : State) → view (set_state d s) ≡ view d) where
  view-when_bit : (status k : ℕ) (s : State) (d : Driver) → view (when_bit status k s d) ≡ view d
  view-when_bit status k s d =
      if_ind (λ z. view z ≡ view d) (has_bit status k) (set_state d s) d (λ _. of_state d s)
        (λ _. refl)

  pub view-on_events : (d : Driver) (status : ℕ) → view (on_events d status) ≡ view d
  unfolding on_events
  view-on_events d status = simp view-when_bit

module _ {ℓ} {A : Type ℓ} {view : Driver → A} (v : IsView view) where
  -- A choice between two drivers that look the same.
  choice :
      (b : Bool) (x y d : Driver)
      → view x ≡ view d
      → view y ≡ view d
      → view (if b then x else y) ≡ view d
  choice b x y d hx hy = if_ind (λ z. view z ≡ view d) b x y (λ _. hx) (λ _. hy)

  view-on_status : (d : Driver) (status : ℕ) → view (on_status d status) ≡ view d
  unfolding on_status
  view-on_status d status =
      let d1 = if is_listen d.state && has_bit status iswdet_bit then sync d else d in
      let e1 : view d1 ≡ view d =
        choice (is_listen d.state && has_bit status iswdet_bit) (sync d) d d (v.of_sync d) refl in
      let e2 = view-on_events view v.of_state d1 status ∙ e1 in
      choice (has_bit status iwut_bit) (phy_standby (on_events d1 status)) (on_events d1 status) d
        (v.of_standby (on_events d1 status) ∙ e2) e2

  -- The event handler keeps the view.
  pub view-event_handler :
      (fuel : ℕ) (d d' : Driver) → event_handler fuel d ≡ some d' → view d' ≡ view d
  unfolding event_handler
  view-event_handler zero d d' h = cc
  view-event_handler (suc fuel) d d' h = elim (Bool-cases (irq_low d).1) [
    | inl p ↦
        let d2 = read16 (irq_low d).0 r_int_status in
        view-event_handler fuel (on_status d2.0 d2.1) d' (rw p at h)
        ∙ view-on_status d2.0 d2.1
        ∙ v.of_status (irq_low d).0
        ∙ v.of_irq d
    | inr p ↦
        let e : some (irq_low d).0 ≡ some d' = rw p at h in
        let q : (irq_low d).0 ≡ d' = cc in ap view (sym q) ∙ v.of_irq d
  ]
