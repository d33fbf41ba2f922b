-- ===== src/Udp/Tests.antt =====
-- Two fragments on which the theorem about lib/phy-udp.c is run.
use tinyhan.Base.{ℕ, ◌≡◌, true, some, List, [], ◌∷◌, ◌++◌, arith}
use tinyhan.Base.Bytes.{le_bytes}
use tinyhan.Udp.Crc.{update_crc}
use tinyhan.Udp.Phy.{Phy, concat, phy_event_handler, zero_phy}
use tinyhan.Udp.Datagrams.{pass_on, phy_event_handler-phy_send}

abbrev two_fragments : List (List ℕ)
two_fragments = (1 ∷ (2 ∷ [])) ∷ ((3 ∷ []) ∷ [])

abbrev listener : Phy
listener = record { recv_cb = true; listening = true; log = [] }

phy_event_handler-phy_send_example :
    phy_event_handler listener
      (some (concat two_fragments ++ le_bytes 2 (update_crc 0 (concat two_fragments))))
    ≡ pass_on listener (concat two_fragments)
unfolding concat
phy_event_handler-phy_send_example =
    (phy_event_handler-phy_send zero_phy listener two_fragments 5 (omega arith) (omega arith)).1
