-- ===== src/Mac/Invariant/Api.antt =====
-- The tick handler and the other public functions of lib/tinymac.c keep the invariant.
use tinyhan.Base.{
  ℕ, zero, suc, ◌+◌, ◌%◌, ◌^◌, ◌≡◌, Bool, true, false, ◌&&◌, Option, none, some, List, [], ◌∷◌,
  arith, ltb, if_ind, if◌then◌else◌,
}
use tinyhan.Base.Int.{ℤ}
use tinyhan.Mac.Types.{ClientState, NodeRef, slot_ref, coord_ref, Mac, is_registered}
use tinyhan.Mac.Wire.PacketType
use tinyhan.Mac.Wire.{max_nodes}
use tinyhan.Mac.Registry.{get_node_by_addr}
use tinyhan.Mac.Timeouts.{ack_timer_of, validity_timer_of, request_timer}
use tinyhan.Mac.Api.{
  heartbeat_expired, check_heartbeat, tick_node, tick_nodes, beacon_due, tick_beacon,
  tick_coordinator, is_unregistered_client, send_beacon_request, request_beacon, tick_client,
  tick_handler, send_to, send, permit_attach, register_recv_cb, register_reg_cb, register_dereg_cb,
}
use tinyhan.Mac.Run.{
  Event, arrives, ticks, sends, permits, hooks_recv, hooks_reg, hooks_dereg, step, run,
}
use tinyhan.Mac.Invariant.{IsSound, count-IsSound, unless-IsSound}
use tinyhan.Mac.Invariant.Transmit.{tx_packet-IsSound, tx_beacon-IsSound}
use tinyhan.Mac.Invariant.Timeouts.{deregister_node-IsSound, despatch_timer-IsSound}
use tinyhan.Mac.Invariant.Clients.{client_of}
use tinyhan.Mac.Invariant.Receive.{recv_cb-IsSound}

check_heartbeat-IsSound :
    {c : Bool} (m : Mac) (now n : ℕ) → IsSound c m → IsSound c (check_heartbeat m now n)
unfolding check_heartbeat
check_heartbeat-IsSound m now n v =
    unless-IsSound (is_registered (m.nodes n).state && heartbeat_expired (m.nodes n) now) _ m
      (deregister_node-IsSound m (slot_ref n) tt v) v

tick_nodes-IsSound :
    {c : Bool} (m : Mac) (now k n : ℕ) → IsSound c m → IsSound c (tick_nodes m now k n)
unfolding tick_nodes tick_node
tick_nodes-IsSound m now zero n v = v
tick_nodes-IsSound m now (suc k) n v = tick_nodes-IsSound (tick_node m now n) now k (n + 1) (
    despatch_timer-IsSound _ (validity_timer_of (slot_ref n)) tt
      (despatch_timer-IsSound _ (ack_timer_of (slot_ref n)) tt (check_heartbeat-IsSound m now n v)))

tick_beacon-IsSound : {c : Bool} (m : Mac) → IsSound c m → IsSound c (tick_beacon m)
unfolding tick_beacon
tick_beacon-IsSound m v =
    let v1 =
      count-IsSound m m.tick_count m.dseq m.bseq ((m.slot + 1) % 2 ^ 16) m.permit_attach m.log v in
    unless-IsSound (beacon_due m.params ((m.slot + 1) % 2 ^ 16)) _ _ (tx_beacon-IsSound _ true v1)
      v1

send_beacon_request-IsSound :
    {c : Bool} (m : Mac)
    → c ≡ false
    → m.state ≡ ClientState.unregistered
    → IsSound c m
    → IsSound c (send_beacon_request m)
unfolding send_beacon_request
send_beacon_request-IsSound {c} m h e v =
    let w : IsSound c (record m { state = ClientState.beacon_request }) = record {
      fixed = v.fixed;
      slots = v.slots;
      coord_sound = v.coord_sound;
      dummy_sound = v.dummy_sound;
      request = v.request;
      role = rw h (rw (h, e) at (v.role));
    } in
    let w2 = tx_packet-IsSound _ none PacketType.beacon_request [] 0 none w in
    record {
      fixed = w2.fixed;
      slots = w2.slots;
      coord_sound = w2.coord_sound;
      dummy_sound = w2.dummy_sound;
      request = λ t p. cc;
      role = w2.role;
    }

request_beacon-IsSound :
    {c : Bool} (m : Mac) → c ≡ false → IsSound c m → IsSound c (request_beacon m)
unfolding request_beacon
request_beacon-IsSound {c} m h v =
    if_ind (IsSound c) (is_unregistered_client m.state) _ m
      (λ e. send_beacon_request-IsSound m h (ground arith) v) (λ _. v)

tick_client-IsSound : {c : Bool} (m : Mac) → c ≡ false → IsSound c m → IsSound c (tick_client m)
unfolding tick_client
tick_client-IsSound m h v = despatch_timer-IsSound _ request_timer h (
    despatch_timer-IsSound _ (validity_timer_of coord_ref) h
      (despatch_timer-IsSound _ (ack_timer_of coord_ref) h (request_beacon-IsSound m h v)))

tick_handler-IsSound : {c : Bool} (m : Mac) → IsSound c m → IsSound c (tick_handler m)
unfolding tick_handler tick_coordinator
tick_handler-IsSound {c} m v =
    let w : IsSound c (if m.params.coordinator then tick_coordinator m else tick_client m) =
      if_ind (IsSound c) m.params.coordinator _ _
        (λ _. tick_nodes-IsSound _ m.tick_count max_nodes 0 (tick_beacon-IsSound m v))
        (λ e. tick_client-IsSound m (client_of m e v) v) in
    count-IsSound _ _ _ _ _ _ _ w

send_to-IsSound :
    {c : Bool} (m : Mac) (o : Option NodeRef) (type : ℕ) (buf : List ℕ) (validity : ℕ)
    (cb : Option ℕ)
    → IsSound c m
    → IsSound c (send_to m o type buf validity cb).0
unfolding send_to
send_to-IsSound m none type buf validity cb v = v
send_to-IsSound m (some r) type buf validity cb v = tx_packet-IsSound m (some r) type buf _ cb v

send-IsSound :
    {c : Bool} (m : Mac) (dest type : ℕ) (buf : List ℕ) (validity : ℕ) (cb : Option ℕ)
    → IsSound c m
    → IsSound c (send m dest type buf validity cb).0
unfolding send
send-IsSound {c} m dest type buf validity cb v =
    if_ind (λ (x : Mac × ℤ). IsSound c x.0) (ltb (type % 32) PacketType.raw_data) _ _ (λ _. v)
      (λ _. send_to-IsSound m (get_node_by_addr m dest) type buf validity cb v)

callbacks-IsSound :
    {c : Bool} (m : Mac) (rx reg dereg : Bool)
    → IsSound c m
    → IsSound c (record m { rx_cb = rx; reg_cb = reg; dereg_cb = dereg })
callbacks-IsSound m rx reg dereg v = record {
  fixed = v.fixed;
  slots = v.slots;
  coord_sound = v.coord_sound;
  dummy_sound = v.dummy_sound;
  request = v.request;
  role = v.role;
}

-- Whatever happens, an event keeps the invariant: a received frame of any bytes, a tick with every
-- timer that it despatches, a send of any data, a change of the attachment permission or of a callback.
pub step-IsSound : {c : Bool} (m : Mac) (e : Event) → IsSound c m → IsSound c (step m e)
unfolding step permit_attach register_recv_cb register_reg_cb register_dereg_cb
step-IsSound m (arrives buf rssi) v = recv_cb-IsSound m buf rssi v
step-IsSound m ticks v = tick_handler-IsSound m v
step-IsSound m (sends dest type buf validity cb) v = send-IsSound m dest type buf validity cb v
step-IsSound m (permits b) v = count-IsSound m m.tick_count m.dseq m.bseq m.slot b m.log v
step-IsSound m (hooks_recv b) v = callbacks-IsSound m b m.reg_cb m.dereg_cb v
step-IsSound m (hooks_reg b) v = callbacks-IsSound m m.rx_cb b m.dereg_cb v
step-IsSound m (hooks_dereg b) v = callbacks-IsSound m m.rx_cb m.reg_cb b v

pub run-IsSound : {c : Bool} (m : Mac) (es : List Event) → IsSound c m → IsSound c (run m es)
unfolding run
run-IsSound m [] v = v
run-IsSound m (e ∷ es) v = run-IsSound (step m e) es (step-IsSound m e v)
