-- ===== src/Mac/Types.antt =====
-- The data of lib/tinymac.h and the context `tinymac_t` of lib/tinymac.c, with what the PHY and the
-- application see of the MAC.
use tinyhan.Base.{ℕ, Bool, true, false, Option, none, some, List, ◌∷◌, ◌==◌, if◌then◌else◌}
use tinyhan.Base.Int.{ℤ}

-- `tinymac_node_state_t`
pub data NodeState : Type 0 where
  unregistered registered send_pending wait_ack : NodeState

-- `tinymac_client_state_t`
pub data ClientState : Type 0 where
  unregistered beacon_request registering registered : ClientState

abbrev pub is_unregistered : NodeState → Bool
is_unregistered NodeState.unregistered = true
is_unregistered NodeState.registered = false
is_unregistered NodeState.send_pending = false
is_unregistered NodeState.wait_ack = false

abbrev pub is_registered : NodeState → Bool
is_registered NodeState.unregistered = false
is_registered NodeState.registered = true
is_registered NodeState.send_pending = false
is_registered NodeState.wait_ack = false

abbrev pub is_send_pending : NodeState → Bool
is_send_pending NodeState.unregistered = false
is_send_pending NodeState.registered = false
is_send_pending NodeState.send_pending = true
is_send_pending NodeState.wait_ack = false

abbrev pub is_wait_ack : NodeState → Bool
is_wait_ack NodeState.unregistered = false
is_wait_ack NodeState.registered = false
is_wait_ack NodeState.send_pending = false
is_wait_ack NodeState.wait_ack = true

-- A `tinymac_node_t *`: an entry of `nodes`, `&tinymac_ctx->coord`, or the node on the stack of
-- `tinymac_recv_cb`.
pub data NodeRef : Type 0 where
  slot_ref : ℕ → NodeRef
  coord_ref : NodeRef
  dummy_ref : NodeRef

-- The functions that a timer may call.
pub data TimerCallback : Type 0 where
  request_timeout_cb validity_timeout_cb ack_timeout_cb : TimerCallback

-- `tinymac_timer_t`
pub record Timer : Type 0 where
  pub callback : Option TimerCallback
  pub arg : Option NodeRef
  pub expiry : ℕ

-- `tinymac_header_t`, without its payload
pub record Header : Type 0 where
  pub flags : ℕ
  pub net_id : ℕ
  pub dest_addr : ℕ
  pub src_addr : ℕ
  pub seq : ℕ

-- `tinymac_node_t`; `send_cb` names the function that the application passed.
pub record Node : Type 0 where
  pub uuid : ℕ
  pub last_heard : ℕ
  pub flags : ℕ
  pub addr : ℕ
  pub rssi : ℕ
  pub state : NodeState
  pub pending_header : Header
  pub pending_size : ℕ
  pub pending : List ℕ
  pub send_cb : Option ℕ
  pub ack_timer : Timer
  pub validity_timer : Timer
  pub retries : ℕ

-- `tinymac_params_t`
pub record Params : Type 0 where
  pub uuid : ℕ
  pub coordinator : Bool
  pub flags : ℕ
  pub beacon_interval : ℕ
  pub beacon_offset : ℕ

-- The calls that leave the MAC: to the PHY driver (lib/phy.h) and to the application's callbacks.
pub data Effect : Type 0 where
  phy_send : List ℕ → ℕ → Effect
  phy_standby : Effect
  phy_delayed_standby : ℕ → Effect
  phy_listen : Effect
  send_done : ℕ → ℤ → Effect
  node_attached : Option NodeRef → Effect
  node_detached : NodeRef → Effect
  received : Option NodeRef → ℕ → List ℕ → Effect

-- The linked PHY driver: its MTU, and the result of `phy_send` for a frame after the calls so far.
pub record Phy : Type 0 where
  pub mtu : ℕ
  pub send_rc : List Effect → List ℕ → ℤ

-- `tinymac_t`, with the linked driver, the node on the stack of `tinymac_recv_cb`, and the calls made
-- so far, the newest first. A registered callback is `true`.
pub record Mac : Type 0 where
  pub params : Params
  pub phy_mtu : ℕ
  pub rx_cb : Bool
  pub tick_count : ℕ
  pub net_id : ℕ
  pub addr : ℕ
  pub dseq : ℕ
  pub slot : ℕ
  pub state : ClientState
  pub coord : Node
  pub timer : Timer
  pub bseq : ℕ
  pub nodes : ℕ → Node
  pub permit_attach : Bool
  pub reg_cb : Bool
  pub dereg_cb : Bool
  pub phy : Phy
  pub dummy : Node
  pub log : List Effect

-- `*node`
abbrev pub node_at : Mac → NodeRef → Node
node_at m (slot_ref i) = m.nodes i
node_at m coord_ref = m.coord
node_at m dummy_ref = m.dummy

-- A write to an entry of `nodes`.
abbrev pub update : (ℕ → Node) → ℕ → Node → ℕ → Node
update f i n j = if i == j then n else f j

-- `*node = n`
abbrev pub set_node : Mac → NodeRef → Node → Mac
set_node m (slot_ref i) n = record m { nodes = update m.nodes i n }
set_node m coord_ref n = record m { coord = n }
set_node m dummy_ref n = record m { dummy = n }

-- A call out of the MAC.
abbrev pub emit : Mac → Effect → Mac
emit m e = record m { log = e ∷ m.log }

-- `if (cb) cb(result)`
abbrev pub notify : Mac → Option ℕ → ℤ → Mac
notify m none result = m
notify m (some cb) result = emit m (send_done cb result)
