-- ===== src/Sensor/Schedule.antt =====
-- The schedule of the main loop of examples/sensor/main.c, by the timer's count and by a clock that does not
-- wrap.
use mathlib.Core.Option
use tinyhan.Base.{
  ℕ, Option-cases, ◌+◌, ◌%◌, ◌^◌, ◌<◌, ◌≤◌, ◌≡◌, refl, inl, inr, Bool, true, ◌&&◌, Option, none,
  some, List, [], ◌∷◌, arith, ◌==◌,
}
use tinyhan.Mac.Types.{Mac}
use tinyhan.Sensor.Turns.{Wake, ideal_turn, at_time, turn-at_time, first_turn}
use tinyhan.Sensor.{Sensor, start_up, turn}

-- The loop by a clock of ticks since its first turn: a call in each tick, and a post in every twentieth.
unfoldable pub ideal_run : ℕ → Sensor → List Wake → Option Sensor
unfolding ideal_turn
ideal_run time s [] = some s
ideal_run time s (w ∷ ws) =
    elim (ideal_turn (w.elapsed == 1) (w.elapsed == 1 && (time + 1) % 20 == 0) s w) [
      | none ↦ none
      | some s1 ↦ ideal_run (time + w.elapsed) s1 ws
    ]

-- The same from its first turn on, which ticks and posts.
unfoldable pub ideal_loop : Sensor → Wake → List Wake → Option Sensor
unfolding ideal_run
ideal_loop s w ws = elim (ideal_turn true true s w) [ none ↦ none | some s1 ↦ ideal_run 0 s1 ws ]

-- The loop of `main` by the count of the timer, which was `first` at its first turn.
unfoldable pub run : ℕ → ℕ → Sensor → List Wake → Option Sensor
unfolding turn
run first time s [] = some s
run first time s (w ∷ ws) =
    elim (turn s (record {
      now = (first + time + w.elapsed) % 2 ^ 32;
      adc = w.adc;
      frame = w.frame;
      rssi = w.rssi;
    })) [ none ↦ none | some s1 ↦ run first (time + w.elapsed) s1 ws ]

-- The timer wakes the loop at every tick.
abbrev pub IsPrompt : List Wake → Type 0
IsPrompt [] = Unit {0}
IsPrompt (w ∷ ws) = (w.elapsed ≤ 1) × IsPrompt ws

-- What the node and its LED see of the loop.
abbrev pub view : Sensor → Mac × Bool
view s = (s.mac, s.led)

run-at_time :
    (first time : ℕ) (s : Sensor) (ws : List Wake)
    → IsPrompt ws
    → Option.map view (run first time (at_time first time s) ws)
      ≡ Option.map view (ideal_run time s ws)
unfolding run ideal_run
run-at_time first time s [] h = refl
run-at_time first time s (w ∷ ws) (h, hs) =
    let ticks = w.elapsed == 1 in
    let posts = w.elapsed == 1 && (time + 1) % 20 == 0 in
    rw (run, turn-at_time first time s w h)
      (elim (Option-cases (ideal_turn ticks posts s w)) [
        | inl p ↦ rw (ideal_run, p) refl
        | inr (s1, p) ↦ rw (ideal_run, p) (run-at_time first (time + w.elapsed) s1 ws hs)
      ])

-- From the start-up on, whatever the timer's count is at the first turn (below 2^31) and with the first turn
-- at that count, a loop that is woken at every tick of the timer, and by the radio in between, does
-- what the loop by an unbounded clock does, also where the count wraps: it calls
-- `tinymac_tick_handler` once in every tick and posts in every twentieth. The contexts of the MAC and
-- the LED are the same in the end, or both loops divide by a conversion of 0.
pub run-start_up :
    (m : Mac) (led : Bool) (bseq_rand dseq_rand net_rand first : ℕ) (w : Wake) (ws : List Wake)
    → first < 2 ^ 31
    → w.elapsed ≡ 0
    → IsPrompt ws
    → let s = start_up m led bseq_rand dseq_rand net_rand in
      Option.map view (run first 0 s (w ∷ ws)) ≡ Option.map view (ideal_loop s w ws)
unfolding run ideal_loop start_up
run-start_up m led bseq_rand dseq_rand net_rand first w ws hf he hs =
    let s = start_up m led bseq_rand dseq_rand net_rand in
    let now : (first + 0 + w.elapsed) % 2 ^ 32 ≡ first = omega (arith, he) in
    rw (run, now, first_turn first s w hf)
      (elim (Option-cases (ideal_turn true true s w)) [
        | inl p ↦ rw (ideal_loop, p) refl
        | inr (s1, p) ↦ rw (ideal_loop, p, he) (run-at_time first 0 s1 ws hs)
      ])
