-- ===== src/Mac/Run.antt =====
-- What drives the MAC of lib/tinymac.c: frames from the PHY, ticks, and the application's calls.
use tinyhan.Base.{ℕ, Bool, false, Option, List, [], ◌∷◌}
use tinyhan.Mac.Types.{ClientState, Phy, Params, Mac}
use tinyhan.Mac.Receive.{zero_timer, zero_node, recv_cb}
use tinyhan.Mac.Api.{
  permit_attach, register_recv_cb, register_reg_cb, register_dereg_cb, tick_handler, send,
}

pub data Event : Type 0 where
  arrives : List ℕ → ℕ → Event
  ticks : Event
  sends : ℕ → ℕ → List ℕ → ℕ → Option ℕ → Event
  permits : Bool → Event
  hooks_recv hooks_reg hooks_dereg : Bool → Event

unfoldable pub step : Mac → Event → Mac
step m (arrives buf rssi) = recv_cb m buf rssi
step m ticks = tick_handler m
step m (sends dest type buf validity cb) = (send m dest type buf validity cb).0
step m (permits b) = permit_attach m b
step m (hooks_recv b) = register_recv_cb m b
step m (hooks_reg b) = register_reg_cb m b
step m (hooks_dereg b) = register_dereg_cb m b

unfoldable pub run : Mac → List Event → Mac
run m [] = m
run m (e ∷ es) = run (step m e) es

abbrev pub zero_params : Params
zero_params = record {
  uuid = 0;
  coordinator = false;
  flags = 0;
  beacon_interval = 0;
  beacon_offset = 0;
}

-- The static context before `tinymac_init`: zero bytes.
abbrev pub zero_mac : Phy → Mac
zero_mac phy = record {
  params = zero_params;
  phy_mtu = 0;
  rx_cb = false;
  tick_count = 0;
  net_id = 0;
  addr = 0;
  dseq = 0;
  slot = 0;
  state = ClientState.unregistered;
  coord = zero_node;
  timer = zero_timer;
  bseq = 0;
  nodes = λ i. zero_node;
  permit_attach = false;
  reg_cb = false;
  dereg_cb = false;
  phy = phy;
  dummy = zero_node;
  log = [];
}
