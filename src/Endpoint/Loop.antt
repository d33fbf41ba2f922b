-- ===== src/Endpoint/Loop.antt =====
-- The loop of examples/mqttsn-client/main.c keeps the invariant of lib/tinymac.c.
use mathlib.Core.Path.{subst}
use tinyhan.Base.{ℕ, ◌≡◌, false, true, Option, none, some, List, [], ◌∷◌, ◌==◌, if_ind}
use tinyhan.Mac.Types.{Phy, Mac}
use tinyhan.Mac.Run.{arrives, ticks, sends, hooks_recv, step, zero_mac}
use tinyhan.Mac.Upper.{DataPacket, handed}
use tinyhan.Mac.Invariant.{IsSound}
use tinyhan.Mac.Invariant.Init.{init-IsSound}
use tinyhan.Mac.Invariant.Api.{step-IsSound}
use tinyhan.Mqttsn.Types.{Client, Effect, sent, published, acknowledged}
use tinyhan.Endpoint.{
  Endpoint, Happening, type_mqttsn, main_params, packet_send, perform_all, call_client, rx_handler,
  to_handler, start_up, on_frame, on_tick, on_phy_event, on_event, on_events, shut_down, main_loop,
}

perform_all-IsSound :
    (m : Mac) (es : List Effect) → IsSound false m → IsSound false (perform_all m es)
unfolding perform_all packet_send step
perform_all-IsSound m [] v = v
perform_all-IsSound m (sent buf ∷ es) v =
    step-IsSound (perform_all m es) (sends 0 type_mqttsn buf 0 none) (perform_all-IsSound m es v)
perform_all-IsSound m (published i p ∷ es) v = perform_all-IsSound m es v
perform_all-IsSound m (acknowledged i b ∷ es) v = perform_all-IsSound m es v

call_client-IsSound :
    (f : Client → Client) (e : Endpoint) → IsSound false e.mac → IsSound false (call_client f e).mac
unfolding call_client
call_client-IsSound f e v = perform_all-IsSound e.mac (f (record e.client { log = [] })).log v

to_handler-IsSound :
    (e : Endpoint) (now : ℕ) (o : Option DataPacket)
    → IsSound false e.mac
    → IsSound false (to_handler e now o).mac
unfolding rx_handler
to_handler-IsSound e now none v = v
to_handler-IsSound e now (some p) v =
    if_ind (λ (x : Endpoint). IsSound false x.mac) (p.type == type_mqttsn) _ e
      (λ _. call_client-IsSound _ e v) (λ _. v)

on_phy_event-IsSound :
    (e : Endpoint) (waiting : Option (List ℕ)) (rssi now : ℕ)
    → IsSound false e.mac
    → IsSound false (on_phy_event e waiting rssi now).mac
unfolding on_frame step
on_phy_event-IsSound e none rssi now v = v
on_phy_event-IsSound e (some frame) rssi now v =
    to_handler-IsSound _ now (handed e.mac frame rssi) (step-IsSound e.mac (arrives frame rssi) v)

on_tick-IsSound : (e : Endpoint) (now : ℕ) → IsSound false e.mac → IsSound false (on_tick e now).mac
unfolding on_tick step
on_tick-IsSound e now v = call_client-IsSound _ _ (step-IsSound e.mac ticks v)

on_events-IsSound :
    (e : Endpoint) (hs : List Happening) → IsSound false e.mac → IsSound false (on_events e hs).mac
unfolding on_events on_event
on_events-IsSound e [] v = v
on_events-IsSound e (h ∷ hs) v = on_events-IsSound (on_event e h) hs (
    if_ind (λ (x : Endpoint). IsSound false x.mac) (h.source == 0) _ _
      (λ _. on_phy_event-IsSound e h.waiting h.rssi h.now v)
      (λ _.
        if_ind (λ (x : Endpoint). IsSound false x.mac) (h.source == 1) _ e
          (λ _. on_tick-IsSound e h.now v) (λ _. v)))

start_up-IsSound :
    (phy : Phy) (uuid b d n now : ℕ) → IsSound false (start_up (zero_mac phy) uuid b d n now).mac
unfolding start_up step
start_up-IsSound phy uuid b d n now =
    call_client-IsSound _ _
      (step-IsSound _ (hooks_recv true) (init-IsSound phy (main_params uuid) b d n))

-- The endpoint, if `main` has not returned 1.
abbrev Ends : Option Endpoint → Type 0
Ends none = Unit {0}
Ends (some e) = IsSound false e.mac

main_loop-Ends :
    (e : Endpoint) (waits : List (Option (List Happening))) (now : ℕ)
    → IsSound false e.mac
    → Ends (main_loop e waits now)
unfolding main_loop shut_down
main_loop-Ends e [] now v = call_client-IsSound _ e v
main_loop-Ends e (none ∷ waits) now v = tt
main_loop-Ends e (some hs ∷ waits) now v =
    main_loop-Ends (on_events e hs) waits now (on_events-IsSound e hs v)

-- From the start-up on a zeroed context, under any driver, with any frames and ticks in any order, and with
-- whatever the client sends in answer to them, the node's MAC has the invariant of a client when the
-- loop has ended and the client has said goodbye.
pub main_loop-start_up-IsSound :
    (phy : Phy) (uuid bseq_rand dseq_rand net_rand start : ℕ)
    (waits : List (Option (List Happening))) (now : ℕ) (e : Endpoint)
    → main_loop (start_up (zero_mac phy) uuid bseq_rand dseq_rand net_rand start) waits now ≡ some e
    → IsSound false e.mac
main_loop-start_up-IsSound phy uuid b d n start waits now e h = subst Ends h (
    main_loop-Ends (start_up (zero_mac phy) uuid b d n start) waits now
      (start_up-IsSound phy uuid b d n start))
