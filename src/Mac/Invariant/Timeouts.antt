-- ===== src/Mac/Invariant/Timeouts.antt =====
-- Deregistration, the timeouts and the despatch of timers in lib/tinymac.c keep the invariant.
use tinyhan.Base.{◌≡◌, refl, Bool, false, Option, none, some, ◌==◌, has_bit, if_ind}
use tinyhan.Mac.Types.{
  NodeState, NodeRef, slot_ref, coord_ref, dummy_ref, TimerCallback, request_timeout_cb,
  validity_timeout_cb, ack_timeout_cb, Mac, node_at, set_node,
}
use tinyhan.Mac.Wire.{sleepy_bit}
use tinyhan.Mac.Timers.{is_due, cancel_timer}
use tinyhan.Mac.Registry.{deregister_node, forget_coordinator}
use tinyhan.Mac.Timeouts.{
  is_requesting, request_timeout, validity_timeout, ack_timeout, TimerRef, ack_timer_of,
  validity_timer_of, request_timer, timer_at, set_timer_at, run_callback, despatch_armed,
  despatch_timer,
}
use tinyhan.Mac.Invariant.{
  unless-IsSound, emit-IsSound, IsSound, IsPeer, node_at-IsNodeSound, set_node-IsSound,
}
use tinyhan.Mac.Invariant.Transmit.{notify-IsSound, mac_phy_send-IsSound}

forget_coordinator-IsSound :
    {c : Bool} (m : Mac) (r : NodeRef)
    → IsPeer c r
    → IsSound c m
    → IsSound c (forget_coordinator m r)
forget_coordinator-IsSound m (slot_ref i) h v = v
forget_coordinator-IsSound {c} m coord_ref h v = record {
  fixed = v.fixed;
  slots = v.slots;
  coord_sound = v.coord_sound;
  dummy_sound = v.dummy_sound;
  request = v.request;
  role = rw h (refl, refl);
}
forget_coordinator-IsSound m dummy_ref h v = v

pub deregister_node-IsSound :
    {c : Bool} (m : Mac) (r : NodeRef) → IsPeer c r → IsSound c m → IsSound c (deregister_node m r)
unfolding deregister_node
deregister_node-IsSound {c} m r h v =
    let k = node_at-IsNodeSound m r v in
    let m1 = set_node m r (record (node_at m r) { state = NodeState.unregistered }) in
    let w : IsSound c m1 = set_node-IsSound m r _ v (record {
      ack = k.ack;
      validity = k.validity;
      buffer = k.buffer;
      size = k.size;
      own_addr = k.own_addr;
    }) in
    let w2 = forget_coordinator-IsSound m1 r h w in
    unless-IsSound (forget_coordinator m1 r).dereg_cb _ _ (emit-IsSound _ _ w2) w2

pub request_timeout-IsSound :
    {c : Bool} (m : Mac) → c ≡ false → IsSound c m → IsSound c (request_timeout m)
unfolding request_timeout
request_timeout-IsSound {c} m h v =
    if_ind (IsSound c) (is_requesting m.state) _ _ (λ _. deregister_node-IsSound m coord_ref h v)
      (λ _. v)

pub validity_timeout-IsSound :
    {c : Bool} (m : Mac) (r : NodeRef) → IsSound c m → IsSound c (validity_timeout m r)
unfolding validity_timeout
validity_timeout-IsSound m r v =
    let k = node_at-IsNodeSound m r v in
    notify-IsSound _ _ _ (
      set_node-IsSound m r _ v (record {
        ack = λ t e. cc;
        validity = k.validity;
        buffer = k.buffer;
        size = k.size;
        own_addr = k.own_addr;
      }))

pub ack_timeout-IsSound :
    {c : Bool} (m : Mac) (r : NodeRef) → IsPeer c r → IsSound c m → IsSound c (ack_timeout m r)
unfolding ack_timeout
ack_timeout-IsSound {c} m r h v =
    let k = node_at-IsNodeSound m r v in
    if_ind (IsSound c) ((node_at m r).retries == 0) _ _
      (λ _. deregister_node-IsSound _ r h (
        notify-IsSound _ _ _ (
          set_node-IsSound m r _ v (record {
            ack = k.ack;
            validity = λ t e. cc;
            buffer = k.buffer;
            size = k.size;
            own_addr = k.own_addr;
          }))))
      (λ _.
        if_ind (IsSound c) (has_bit (node_at m r).flags sleepy_bit) _ _
          (λ _. set_node-IsSound m r _ v (record {
            ack = k.ack;
            validity = k.validity;
            buffer = k.buffer;
            size = k.size;
            own_addr = k.own_addr;
          }))
          (λ _. mac_phy_send-IsSound _ _ 0 (
            set_node-IsSound m r _ v (record {
              ack = λ t e. (cc, refl);
              validity = k.validity;
              buffer = k.buffer;
              size = k.size;
              own_addr = k.own_addr;
            }))))

-- What the invariant says of a timer, wherever it is kept.
abbrev IsOwn : TimerRef → TimerCallback → Option NodeRef → Type 0
IsOwn (ack_timer_of r) cb arg = (cb ≡ ack_timeout_cb) × (arg ≡ some r)
IsOwn (validity_timer_of r) cb arg = (cb ≡ validity_timeout_cb) × (arg ≡ some r)
IsOwn request_timer cb arg = cb ≡ request_timeout_cb

-- The timers that a node of this role despatches.
abbrev pub IsDespatched : Bool → TimerRef → Type 0
IsDespatched c (ack_timer_of r) = IsPeer c r
IsDespatched c (validity_timer_of r) = IsPeer c r
IsDespatched c request_timer = c ≡ false

timer_at-IsOwn :
    {c : Bool} (m : Mac) (tr : TimerRef) (cb : TimerCallback)
    → IsSound c m
    → (timer_at m tr).callback ≡ some cb
    → IsOwn tr cb (timer_at m tr).arg
timer_at-IsOwn m (ack_timer_of r) cb v e = (node_at-IsNodeSound m r v).ack cb e
timer_at-IsOwn m (validity_timer_of r) cb v e = (node_at-IsNodeSound m r v).validity cb e
timer_at-IsOwn m request_timer cb v e = v.request cb e

cancel-IsSound :
    {c : Bool} (m : Mac) (tr : TimerRef)
    → IsSound c m
    → IsSound c (set_timer_at m tr (cancel_timer (timer_at m tr)))
cancel-IsSound m (ack_timer_of r) v =
    let k = node_at-IsNodeSound m r v in
    set_node-IsSound m r _ v (record {
      ack = λ t e. cc;
      validity = k.validity;
      buffer = k.buffer;
      size = k.size;
      own_addr = k.own_addr;
    })
cancel-IsSound m (validity_timer_of r) v =
    let k = node_at-IsNodeSound m r v in
    set_node-IsSound m r _ v (record {
      ack = k.ack;
      validity = λ t e. cc;
      buffer = k.buffer;
      size = k.size;
      own_addr = k.own_addr;
    })
cancel-IsSound m request_timer v = record {
  fixed = v.fixed;
  slots = v.slots;
  coord_sound = v.coord_sound;
  dummy_sound = v.dummy_sound;
  request = λ t e. cc;
  role = v.role;
}

run_callback-IsSound :
    {c : Bool} (m : Mac) (tr : TimerRef) (cb : TimerCallback) (arg : Option NodeRef)
    → IsDespatched c tr
    → IsOwn tr cb arg
    → IsSound c m
    → IsSound c (run_callback m cb arg)
unfolding run_callback
run_callback-IsSound m (ack_timer_of r) cb arg d o v =
    rw (o.0, o.1, run_callback) (ack_timeout-IsSound m r d v)
run_callback-IsSound m (validity_timer_of r) cb arg d o v =
    rw (o.0, o.1, run_callback) (validity_timeout-IsSound m r v)
run_callback-IsSound m request_timer cb arg d o v =
    rw (o, run_callback) (request_timeout-IsSound m d v)

despatch_armed-IsSound :
    {c : Bool} (m : Mac) (tr : TimerRef) (o : Option TimerCallback)
    → (timer_at m tr).callback ≡ o
    → IsDespatched c tr
    → IsSound c m
    → IsSound c (despatch_armed m tr o)
unfolding despatch_armed
despatch_armed-IsSound m tr none e d v = v
despatch_armed-IsSound {c} m tr (some cb) e d v =
    if_ind (IsSound c) (is_due m.tick_count (timer_at m tr).expiry) _ _
      (λ _. run_callback-IsSound _ tr cb _ d (timer_at-IsOwn m tr cb v e) (cancel-IsSound m tr v))
      (λ _. v)

pub despatch_timer-IsSound :
    {c : Bool} (m : Mac) (tr : TimerRef)
    → IsDespatched c tr
    → IsSound c m
    → IsSound c (despatch_timer m tr)
unfolding despatch_timer
despatch_timer-IsSound m tr d v = despatch_armed-IsSound m tr (timer_at m tr).callback refl d v
