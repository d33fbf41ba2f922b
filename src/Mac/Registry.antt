-- ===== src/Mac/Registry.antt =====
-- The node registry of lib/tinymac.c: look-up by address and by UUID, the choice of a slot, and
-- deregistration.
pub mod Search
pub mod Members
use tinyhan.Base.{
  ℕ, zero, suc, ◌+◌, Bool, ◌&&◌, not, Option, none, some, ◌==◌, if◌then◌else◌, is_some,
}
use tinyhan.Mac.Types.{
  ClientState, NodeState, NodeRef, slot_ref, coord_ref, dummy_ref, Node, Mac, is_unregistered,
  node_at, set_node, emit, node_detached,
}
use tinyhan.Mac.Wire.{max_nodes, addr_unassigned, network_any}

-- The first of the `k` entries from index `n` on that passes the test.
unfoldable pub find_from : (Node → Bool) → (ℕ → Node) → ℕ → ℕ → Option ℕ
find_from test nodes zero n = none
find_from test nodes (suc k) n =
    let rest = find_from test nodes k (n + 1) in if test (nodes n) then some n else rest

abbrev pub as_ref : Option ℕ → Option NodeRef
as_ref none = none
as_ref (some i) = some (slot_ref i)

abbrev pub has_addr : ℕ → Node → Bool
has_addr a n = n.addr == a && not (is_unregistered n.state)

abbrev pub has_uuid : ℕ → Node → Bool
has_uuid u n = n.uuid == u

-- `tinymac_get_node_by_addr`
unfoldable pub get_node_by_addr : Mac → ℕ → Option NodeRef
get_node_by_addr m a =
    if m.params.coordinator
    then as_ref (find_from (has_addr a) m.nodes max_nodes 0)
    else if not (is_unregistered m.coord.state) && m.coord.addr == a
    then some coord_ref
    else none

-- `tinymac_get_node_by_uuid`
unfoldable pub get_node_by_uuid : Mac → ℕ → Option ℕ
get_node_by_uuid m u = find_from (has_uuid u) m.nodes max_nodes 0

-- The loop of `tinymac_get_free_node` over the `k` entries from `n` on.
unfoldable pub free_from : (ℕ → Node) → ℕ → ℕ → Option ℕ → Option ℕ
free_from nodes zero n fallback = fallback
free_from nodes (suc k) n fallback =
    let fallback' =
      if not (is_some fallback) && is_unregistered (nodes n).state then some n else fallback in
    let rest = free_from nodes k (n + 1) fallback' in if (nodes n).uuid == 0 then some n else rest

-- `tinymac_get_free_node`
unfoldable pub get_free_node : Mac → Option ℕ
get_free_node m = free_from m.nodes max_nodes 0 none

-- `if (node == &tinymac_ctx->coord)`: the node was our coordinator.
abbrev pub forget_coordinator : Mac → NodeRef → Mac
forget_coordinator m (slot_ref i) = m
forget_coordinator m coord_ref = record m {
  state = ClientState.unregistered;
  addr = addr_unassigned;
  net_id = network_any;
}
forget_coordinator m dummy_ref = m

-- `tinymac_deregister_node`
unfoldable pub deregister_node : Mac → NodeRef → Mac
deregister_node m r =
    let m1 = set_node m r (record (node_at m r) { state = NodeState.unregistered }) in
    let m2 = forget_coordinator m1 r in if m2.dereg_cb then emit m2 (node_detached r) else m2
