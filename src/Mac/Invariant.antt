-- ===== src/Mac/Invariant.antt =====
-- The invariant of the context of lib/tinymac.c: where timers point, what the packet buffers hold,
-- which address each slot has, and how a node's own address goes with its role.
pub mod Transmit
pub mod Timeouts
pub mod Clients
pub mod Receive
pub mod Api
pub mod Init
pub mod Lookup
use mathlib.Core.Path.{subst}
use tinyhan.Base.{
  ℕ, ◌+◌, ◌≤◌, ◌<◌, ◌≡◌, ◌≢◌, Bool, true, false, some, List, ◌∷◌, arith, ◌==◌, if_ind,
  if◌then◌else◌, length,
}
use tinyhan.Mac.Types.{
  ClientState, NodeRef, slot_ref, coord_ref, dummy_ref, TimerCallback, request_timeout_cb,
  validity_timeout_cb, ack_timeout_cb, Timer, Node, Mac, node_at, set_node, update, Effect, emit,
}
use tinyhan.Mac.Wire.{addr_unassigned, network_any, max_nodes, max_payload}

-- A timer that is armed calls this function on this node.
abbrev pub Arms : TimerCallback → NodeRef → Timer → Type 0
Arms cb r t = (c : TimerCallback) → t.callback ≡ some c → (c ≡ cb) × (t.arg ≡ some r)

-- The slot `i` has the address `i + 1`.
abbrev pub HasOwnAddr : NodeRef → ℕ → Type 0
HasOwnAddr (slot_ref i) a = i < max_nodes → a ≡ i + 1
HasOwnAddr coord_ref a = Unit {0}
HasOwnAddr dummy_ref a = Unit {0}

pub record IsNodeSound (r : NodeRef) (n : Node) : Type 0 where
  pub ack : Arms ack_timeout_cb r n.ack_timer
  pub validity : Arms validity_timeout_cb r n.validity_timer
  pub buffer : length n.pending ≡ max_payload
  pub size : n.pending_size ≤ max_payload
  pub own_addr : HasOwnAddr r n.addr

-- The state, address and network of a node, by its role (`true`: coordinator).
abbrev pub IsInRole : Bool → ClientState → ℕ → ℕ → Type 0
IsInRole true s a net = (s ≡ ClientState.registered) × (a ≡ 0)
IsInRole false ClientState.unregistered a net = (a ≡ addr_unassigned) × (net ≡ network_any)
IsInRole false ClientState.beacon_request a net = (a ≡ addr_unassigned) × (net ≡ network_any)
IsInRole false ClientState.registering a net = a ≡ addr_unassigned
IsInRole false ClientState.registered a net = a ≢ addr_unassigned

-- The invariant of the context of a node with the role `c`.
pub record IsSound (c : Bool) (m : Mac) : Type 0 where
  pub fixed : m.params.coordinator ≡ c
  pub slots : (i : ℕ) → IsNodeSound (slot_ref i) (m.nodes i)
  pub coord_sound : IsNodeSound coord_ref m.coord
  pub dummy_sound : IsNodeSound dummy_ref m.dummy
  pub request : (cb : TimerCallback) → m.timer.callback ≡ some cb → cb ≡ request_timeout_cb
  pub role : IsInRole c m.state m.addr m.net_id

-- The node is not the coordinator of a coordinator.
abbrev pub IsPeer : Bool → NodeRef → Type 0
IsPeer c (slot_ref i) = Unit {0}
IsPeer c coord_ref = c ≡ false
IsPeer c dummy_ref = Unit {0}

pub node_at-IsNodeSound :
    {c : Bool} (m : Mac) (r : NodeRef) → IsSound c m → IsNodeSound r (node_at m r)
node_at-IsNodeSound m (slot_ref i) v = v.slots i
node_at-IsNodeSound m coord_ref v = v.coord_sound
node_at-IsNodeSound m dummy_ref v = v.dummy_sound

update-IsNodeSound :
    (f : ℕ → Node) (i : ℕ) (n : Node)
    → ((j : ℕ) → IsNodeSound (slot_ref j) (f j))
    → IsNodeSound (slot_ref i) n
    → (j : ℕ) → IsNodeSound (slot_ref j) (update f i n j)
update-IsNodeSound f i n h hn j =
    if_ind (IsNodeSound (slot_ref j)) (i == j) n (f j)
      (λ e. subst (λ k. IsNodeSound (slot_ref k) n) (ground arith) hn) (λ _. h j)

pub set_node-IsSound :
    {c : Bool} (m : Mac) (r : NodeRef) (n : Node)
    → IsSound c m
    → IsNodeSound r n
    → IsSound c (set_node m r n)
set_node-IsSound m (slot_ref i) n v h = record {
  fixed = v.fixed;
  slots = update-IsNodeSound m.nodes i n v.slots h;
  coord_sound = v.coord_sound;
  dummy_sound = v.dummy_sound;
  request = v.request;
  role = v.role;
}
set_node-IsSound m coord_ref n v h = record {
  fixed = v.fixed;
  slots = v.slots;
  coord_sound = h;
  dummy_sound = v.dummy_sound;
  request = v.request;
  role = v.role;
}
set_node-IsSound m dummy_ref n v h = record {
  fixed = v.fixed;
  slots = v.slots;
  coord_sound = v.coord_sound;
  dummy_sound = h;
  request = v.request;
  role = v.role;
}

-- Counters and the calls made so far do not matter to it.
pub count-IsSound :
    {c : Bool} (m : Mac) (tick_count dseq bseq slot : ℕ) (permit : Bool) (log : List Effect)
    → IsSound c m
    → IsSound c (record m {
      tick_count = tick_count;
      dseq = dseq;
      bseq = bseq;
      slot = slot;
      permit_attach = permit;
      log = log;
    })
count-IsSound m tick_count dseq bseq slot permit log v = record {
  fixed = v.fixed;
  slots = v.slots;
  coord_sound = v.coord_sound;
  dummy_sound = v.dummy_sound;
  request = v.request;
  role = v.role;
}

pub emit-IsSound : {c : Bool} (m : Mac) (e : Effect) → IsSound c m → IsSound c (emit m e)
emit-IsSound m e v = count-IsSound m m.tick_count m.dseq m.bseq m.slot m.permit_attach (e ∷ m.log) v

-- A guard keeps the invariant if both branches do.
pub unless-IsSound :
    {c : Bool} (b : Bool) (m m' : Mac)
    → IsSound c m
    → IsSound c m'
    → IsSound c (if b then m else m')
unless-IsSound {c} b m m' v w = if_ind (IsSound c) b m m' (λ _. v) (λ _. w)
