-- ===== src/Mac/Timeouts/Retries.antt =====
-- How often `tinymac_ack_timeout` of lib/tinymac.c sends a packet again, and how it gives up.
use tinyhan.Base.{
  ℕ, zero, suc, ◌<◌, ◌≡◌, refl, ◌∙◌, Bool, true, false, Option, none, some, List, ◌∷◌, arith,
  has_bit, if◌then◌else◌,
}
use tinyhan.Base.Int.{negsuc}
use tinyhan.Mac.Types.{
  NodeState, NodeRef, slot_ref, coord_ref, dummy_ref, Mac, Effect, node_at, phy_send, send_done,
  node_detached, ack_timeout_cb,
}
use tinyhan.Mac.Wire.{sleepy_bit}
use tinyhan.Mac.Registry.{deregister_node}
use tinyhan.Mac.Transmit.{mac_phy_send, pending_frame}
use tinyhan.Mac.Timers.{cancel_timer, is_due}
use tinyhan.Mac.Timeouts.{
  ack_timeout, ack_timer_of, set_timer_at, despatch_timer, despatch_armed, run_callback,
}

-- The ack timer of a node is armed.
abbrev pub IsArmed : Mac → NodeRef → Type 0
IsArmed m r =
    ((node_at m r).ack_timer.callback ≡ some ack_timeout_cb)
    × ((node_at m r).ack_timer.arg ≡ some r)

-- `tinymac_despatch_timer` on the ack timer of a node, at the tick for which it is set.
unfoldable pub ack_expires : Mac → NodeRef → Mac
unfolding despatch_timer
ack_expires m r =
    despatch_timer (record m { tick_count = (node_at m r).ack_timer.expiry }) (ack_timer_of r)

-- `k` times the ack timer of a node, with nothing heard from it in between.
unfoldable pub ack_timeouts : ℕ → Mac → NodeRef → Mac
unfolding ack_expires
ack_timeouts zero m r = m
ack_timeouts (suc k) m r = ack_timeouts k (ack_expires m r) r

-- The context in which the timer's callback runs.
abbrev disarmed : Mac → NodeRef → Mac
disarmed m r =
    set_timer_at (record m { tick_count = (node_at m r).ack_timer.expiry }) (ack_timer_of r)
      (cancel_timer (node_at m r).ack_timer)

-- A timer is due at the tick for which it is set.
due_then : (t : ℕ) → is_due t t ≡ true
unfolding is_due
due_then t = ground arith

ack_expires_armed :
    (m : Mac) (r : NodeRef) → IsArmed m r → ack_expires m r ≡ ack_timeout (disarmed m r) r
unfolding ack_expires despatch_timer despatch_armed run_callback
ack_expires_armed m (slot_ref i) (c, a) = rw (c, due_then (m.nodes i).ack_timer.expiry, a) refl
ack_expires_armed m coord_ref (c, a) = rw (c, due_then m.coord.ack_timer.expiry, a) refl
ack_expires_armed m dummy_ref (c, a) = rw (c, due_then m.dummy.ack_timer.expiry, a) refl

-- The same calls, the newest first, after `k` more of one.
abbrev pub repeat : ℕ → Effect → List Effect → List Effect
repeat zero e log = log
repeat (suc k) e log = repeat k e (e ∷ log)

-- An expiry with retries left, for a node that is not sleepy, arms the timer again.
ack_expires_again :
    (m : Mac) (r : NodeRef) (k : ℕ)
    → IsArmed m r
    → has_bit m.params.flags sleepy_bit ≡ false
    → has_bit (node_at m r).flags sleepy_bit ≡ false
    → (node_at m r).retries ≡ suc k
    → suc k < 256
    → let m1 = ack_expires m r in
      (m1.log ≡ phy_send (pending_frame (node_at m r)) 0 ∷ m.log)
      × (m1.params ≡ m.params)
      × (m1.dereg_cb ≡ m.dereg_cb)
      × ((node_at m1 r).flags ≡ (node_at m r).flags)
      × ((node_at m1 r).retries ≡ k)
      × ((node_at m1 r).send_cb ≡ (node_at m r).send_cb)
      × (pending_frame (node_at m1 r) ≡ pending_frame (node_at m r))
      × IsArmed m1 r
unfolding ack_timeout mac_phy_send
ack_expires_again m (slot_ref i) k a hs hd hr hk =
    rw (ack_expires_armed m (slot_ref i) a) (ground arith)
ack_expires_again m coord_ref k a hs hd hr hk = rw (ack_expires_armed m coord_ref a) (ground arith)
ack_expires_again m dummy_ref k a hs hd hr hk = rw (ack_expires_armed m dummy_ref a) (ground arith)

-- The calls of a failed send: the sender's callback with -1, then the deregistration callback.
abbrev pub told : Option ℕ → List Effect → List Effect
told none log = log
told (some cb) log = send_done cb (negsuc 0) ∷ log

abbrev pub gave_up : Bool → Option ℕ → NodeRef → List Effect → List Effect
gave_up dereg cb r log = if dereg then node_detached r ∷ told cb log else told cb log

-- The expiry with no retries left.
ack_expires_last :
    (m : Mac) (r : NodeRef)
    → IsArmed m r
    → (node_at m r).retries ≡ 0
    → let m1 = ack_expires m r in
      ((node_at m1 r).state ≡ NodeState.unregistered)
      × (m1.log ≡ gave_up m.dereg_cb (node_at m r).send_cb r m.log)
unfolding ack_timeout deregister_node
ack_expires_last m (slot_ref i) a hr = rw (ack_expires_armed m (slot_ref i) a) (ground arith)
ack_expires_last m coord_ref a hr = rw (ack_expires_armed m coord_ref a) (ground arith)
ack_expires_last m dummy_ref a hr = rw (ack_expires_armed m dummy_ref a) (ground arith)

-- While no acknowledgement comes, a packet whose ack timer is armed is sent again by `tinymac_despatch_timer`
-- exactly `retries` times (below 256), always the same frame, where neither end is sleepy: each
-- expiry of the timer sends it once and arms the timer again. The expiry after that deregisters the
-- node and tells the sender's callback, if there is one, of the failure, once.
pub ack_timeouts_bounded :
    (k : ℕ) (m : Mac) (r : NodeRef)
    → IsArmed m r
    → has_bit m.params.flags sleepy_bit ≡ false
    → has_bit (node_at m r).flags sleepy_bit ≡ false
    → (node_at m r).retries ≡ k
    → k < 256
    → ((ack_timeouts k m r).log ≡ repeat k (phy_send (pending_frame (node_at m r)) 0) m.log)
      × IsArmed (ack_timeouts k m r) r
      × ((node_at (ack_timeouts (suc k) m r) r).state ≡ NodeState.unregistered)
      × ((ack_timeouts (suc k) m r).log
          ≡ gave_up m.dereg_cb
              (node_at m r).send_cb
              r
              (repeat k (phy_send (pending_frame (node_at m r)) 0) m.log))
unfolding ack_timeouts
ack_timeouts_bounded zero m r a hs hd hr hk =
    let (s, l) = ack_expires_last m r a hr in (refl, a, s, l)
ack_timeouts_bounded (suc k) m r a hs hd hr hk =
    let (el, ep, ec, ef, er, es, eq, ea) = ack_expires_again m r k a hs hd hr hk in
    let (x, y, b, c) =
      ack_timeouts_bounded k (ack_expires m r) r ea (rw ep hs) (rw ef hd) er (omega arith) in
    (
      x ∙ (λ i. repeat k (phy_send (eq i) 0) (el i)),
      y,
      b,
      c ∙ (λ i. gave_up (ec i) (es i) r (repeat k (phy_send (eq i) 0) (el i))),
    )
