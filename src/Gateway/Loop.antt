-- ===== src/Gateway/Loop.antt =====
-- The loop of examples/mqttsn-simple-gateway/main.c as a run of lib/tinymac.c.
use mathlib.Core.Path.{subst}
use tinyhan.Base.{
  ap, ℕ, ◌+◌, ◌%◌, ◌≡◌, refl, sym, ◌∙◌, inl, inr, Bool, true, false, Option, none, some, List, [],
  ◌∷◌, ◌++◌, ltb, ◌==◌, if◌then◌else◌, Option-cases,
}
use tinyhan.Mac.Types.{Phy, Mac}
use tinyhan.Mac.Api.{init}
use tinyhan.Mac.Run.{Event, arrives, ticks, sends, hooks_recv, permits, step, run, zero_mac}
use tinyhan.Mac.Upper.{handed}
use tinyhan.Mac.Invariant.{IsSound}
use tinyhan.Mac.Invariant.Init.{run-init-IsSound}
use tinyhan.Gateway.{
  Gateway, Happening, on_datagram, on_phy_event, on_frame, on_event, on_events, main_loop, start_up,
  main_params, type_mqttsn, max_devices,
}

-- What an event is to the MAC.
abbrev pub event_of : Happening → List Event
event_of h =
    if ltb h.source max_devices
    then elim h.waiting [ none ↦ [] | some p ↦ sends (h.source % 256) type_mqttsn p 0 none ∷ [] ]
    else if h.source == max_devices
    then elim h.waiting [ none ↦ [] | some frame ↦ arrives frame h.rssi ∷ [] ]
    else if h.source == max_devices + 1
    then ticks ∷ []
    else []

abbrev pub events_of : List Happening → List Event
events_of [] = []
events_of (h ∷ hs) = event_of h ++ events_of hs

abbrev pub all_events : List (Option (List Happening)) → List Event
all_events [] = []
all_events (none ∷ waits) = []
all_events (some hs ∷ waits) = events_of hs ++ all_events waits

run-append : (m : Mac) (es fs : List Event) → run m (es ++ fs) ≡ run (run m es) fs
unfolding run
run-append m [] fs = refl
run-append m (e ∷ es) fs = run-append (step m e) es fs

mac-on_frame :
    (m : Mac) (frame : List ℕ) (rssi : ℕ) → (on_frame m frame rssi).0 ≡ step m (arrives frame rssi)
unfolding on_frame step
mac-on_frame m frame rssi = elim (Option-cases (handed m frame rssi)) [
  | inl e ↦ rw (on_frame, e) refl
  | inr (p, e) ↦ rw (on_frame, e) refl
]

-- The outcome of a part of the loop, if `main` has not returned: the MAC has run these events.
abbrev pub Mirrors : Mac → List Event → Option Gateway → Type 0
Mirrors m es none = Unit {0}
Mirrors m es (some g) = g.mac ≡ run m es

if_Mirrors :
    (b : Bool) (m : Mac) (es fs : List Event) (x y : Option Gateway)
    → Mirrors m es x
    → Mirrors m fs y
    → Mirrors m (if b then es else fs) (if b then x else y)
if_Mirrors true m es fs x y hx hy = hx
if_Mirrors false m es fs x y hx hy = hy

on_datagram-Mirrors :
    (g : Gateway) (source : ℕ) (waiting : Option (List ℕ))
    → Mirrors g.mac
        (elim waiting [ none ↦ [] | some p ↦ sends (source % 256) type_mqttsn p 0 none ∷ [] ])
        (on_datagram g source waiting)
unfolding on_datagram run step
on_datagram-Mirrors g source none = tt
on_datagram-Mirrors g source (some p) = refl

on_phy_event-Mirrors :
    (g : Gateway) (waiting : Option (List ℕ)) (rssi : ℕ)
    → Mirrors g.mac
        (elim waiting [ none ↦ [] | some frame ↦ arrives frame rssi ∷ [] ])
        (some (on_phy_event g waiting rssi))
unfolding on_phy_event run
on_phy_event-Mirrors g none rssi = refl
on_phy_event-Mirrors g (some frame) rssi = mac-on_frame g.mac frame rssi

on_event-Mirrors : (g : Gateway) (h : Happening) → Mirrors g.mac (event_of h) (on_event g h)
unfolding on_event run step
on_event-Mirrors g h =
    if_Mirrors (ltb h.source max_devices) g.mac _ _ _ _ (on_datagram-Mirrors g h.source h.waiting) (
      if_Mirrors (h.source == max_devices) g.mac _ _ _ _ (on_phy_event-Mirrors g h.waiting h.rssi)
        (if_Mirrors (h.source == max_devices + 1) g.mac (ticks ∷ []) [] _ _ refl refl))

-- Two parts in a row.
after-Mirrors :
    (m m1 : Mac) (es fs : List Event) (r : Option Gateway)
    → m1 ≡ run m es
    → Mirrors m1 fs r
    → Mirrors m (es ++ fs) r
after-Mirrors m m1 es fs none e h = tt
after-Mirrors m m1 es fs (some g) e h = h ∙ ap (λ x. run x fs) e ∙ sym (run-append m es fs)

then-Mirrors :
    (m : Mac) (es fs : List Event) (r : Option Gateway) (f : Gateway → Option Gateway)
    → Mirrors m es r
    → ((g : Gateway) → Mirrors g.mac fs (f g))
    → Mirrors m (es ++ fs) (elim r [ none ↦ none | some g ↦ f g ])
then-Mirrors m es fs none f h k = tt
then-Mirrors m es fs (some g) f h k = after-Mirrors m g.mac es fs (f g) h (k g)

on_events-Mirrors :
    (g : Gateway) (hs : List Happening) → Mirrors g.mac (events_of hs) (on_events g hs)
unfolding on_events run
on_events-Mirrors g [] = refl
on_events-Mirrors g (h ∷ hs) =
    then-Mirrors g.mac (event_of h) (events_of hs) (on_event g h) (λ g1. on_events g1 hs)
      (on_event-Mirrors g h) (λ g1. on_events-Mirrors g1 hs)

main_loop-Mirrors :
    (g : Gateway) (waits : List (Option (List Happening)))
    → Mirrors g.mac (all_events waits) (main_loop g waits)
unfolding main_loop run
main_loop-Mirrors g [] = refl
main_loop-Mirrors g (none ∷ waits) = tt
main_loop-Mirrors g (some hs ∷ waits) =
    then-Mirrors g.mac (events_of hs) (all_events waits) (on_events g hs) (λ g1. main_loop g1 waits)
      (on_events-Mirrors g hs) (λ g1. main_loop-Mirrors g1 waits)

-- The program from its start on.
abbrev pub started : Phy → ℕ → ℕ → ℕ → ℕ → Gateway
started phy uuid bseq_rand dseq_rand net_rand = record {
  mac = start_up (zero_mac phy) uuid bseq_rand dseq_rand net_rand;
  relays = [];
}

-- From the start-up on a zeroed context, under any driver and with any events in any order, whenever `main`
-- has not returned its MAC is in the state of a run of the MAC by the frames and the ticks of the
-- events and by a send for each datagram, so it has the invariant of a coordinator: slot `i` has the
-- address `i + 1`, its own address is 0, and its timers and buffers are in order.
pub main_loop-IsSound :
    (phy : Phy) (uuid bseq_rand dseq_rand net_rand : ℕ) (waits : List (Option (List Happening)))
    (g : Gateway)
    → main_loop (started phy uuid bseq_rand dseq_rand net_rand) waits ≡ some g
    → (g.mac
        ≡ run
            (init (zero_mac phy) (main_params uuid) bseq_rand dseq_rand net_rand)
            (hooks_recv true ∷ permits true ∷ all_events waits))
      × IsSound true g.mac
unfolding start_up run step
main_loop-IsSound phy uuid b d n waits g e =
    let es = hooks_recv true ∷ permits true ∷ all_events waits in
    let ran : g.mac ≡ run (init (zero_mac phy) (main_params uuid) b d n) es =
      subst (Mirrors (started phy uuid b d n).mac (all_events waits)) e
        (main_loop-Mirrors (started phy uuid b d n) waits) in
    (ran, subst (IsSound true) (sym ran) (run-init-IsSound phy (main_params uuid) b d n es))
