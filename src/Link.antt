-- ===== src/Link.antt =====
-- lib/tinymac.c over lib/phy-udp.c: `tinymac_init` registers `tinymac_recv_cb` as the driver's callback.
pub mod Attach
pub mod Registration
mod Tests
use tinyhan.Base.{ℕ, some, List, [], ◌∷◌, ◌++◌}
use tinyhan.Mac.Types.{Mac}
use tinyhan.Mac.Receive.{recv_cb}
use tinyhan.Udp.Phy.{Effect, datagram, received, Phy, phy_event_handler, phy_send}

-- `PHY_RSSI_NONE`
abbrev pub rssi_none : ℕ
rssi_none = 0

-- The call of `tinymac_recv_cb` that the driver makes, if it makes one.
abbrev pub called_back : Mac → List Effect → Mac
called_back m [] = m
called_back m (datagram bs ∷ log) = m
called_back m (received body ∷ log) = recv_cb m body rssi_none

-- `phy_event_handler` with a datagram that waits, and the MAC behind it.
unfoldable pub arrive : Phy → Mac → List ℕ → Mac
unfolding phy_event_handler
arrive p m waiting = called_back m (phy_event_handler (record p { log = [] }) (some waiting)).log

abbrev pub last_datagram : List Effect → List ℕ
last_datagram [] = []
last_datagram (datagram bs ∷ log) = bs
last_datagram (received body ∷ log) = []

-- The datagram of a `phy_send`.
unfoldable pub on_air : Phy → List (List ℕ) → List ℕ
unfolding phy_send
on_air p bufs = last_datagram (phy_send p bufs).log
