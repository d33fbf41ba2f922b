-- ===== src/Mac/Api/Beacons.antt =====
-- The beacons of `tinymac_tick_handler` in lib/tinymac.c.
use tinyhan.Base.{ℕ, zero, suc, ◌+◌, ◌%◌, Bool, List, [], ◌∷◌, ◌==◌, if◌then◌else◌}
use tinyhan.Mac.Types.{Mac, Effect, phy_send}
use tinyhan.Mac.Api.{tick_beacon}

abbrev one_if : Bool → ℕ
one_if b = if b then 1 else 0

-- How many of the `n` numbers behind `t` leave the remainder `o` by `p`.
unfoldable pub hits : ℕ → ℕ → ℕ → ℕ → ℕ
hits p o t zero = 0
hits p o t (suc n) = one_if ((t + 1) % p == o) + hits p o (t + 1) n

-- Ticks of a coordinator, as far as its beacons go.
unfoldable pub beats : ℕ → Mac → Mac
beats zero m = m
beats (suc n) m = beats n (tick_beacon m)

-- Beacons that went out one after the other.
abbrev pub sent_after : List (List ℕ) → List Effect → List Effect
sent_after [] log = log
sent_after (frame ∷ frames) log = sent_after frames (phy_send frame 1 ∷ log)
