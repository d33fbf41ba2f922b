-- ===== src/Mac/Invariant/Lookup.antt =====
-- Look-up by short address under the invariant: what `tinymac_get_node_by_addr` of lib/tinymac.c
-- returns on a coordinator.
use tinyhan.Base.{ℕ, ◌+◌, ◌<◌, ◌≡◌, true, Option, none, some, arith, if◌then◌else◌}
use mathlib.Core.Path.{subst}
use tinyhan.Mac.Types.{slot_ref, Mac, is_unregistered}
use tinyhan.Mac.Wire.{max_nodes}
use tinyhan.Mac.Registry.{has_addr, as_ref, get_node_by_addr}
use tinyhan.Mac.Registry.Search.{Finds, find_from-Finds}
use tinyhan.Mac.Invariant.{IsSound}

find_addr :
    (m : Mac) (i : ℕ) (o : Option ℕ)
    → IsSound true m
    → i < max_nodes
    → Finds (has_addr (i + 1)) m.nodes max_nodes 0 o
    → as_ref o ≡ (if is_unregistered (m.nodes i).state then none else some (slot_ref i))
find_addr m i none v h f =
    let own = (v.slots i).own_addr h in ground (arith, own, f i (omega arith) (omega arith))
find_addr m i (some j) v h (a, b, t, f) =
    let own = (v.slots j).own_addr (omega arith) in
    let e : j ≡ i = ground (arith, own) in
    let t' = subst (λ k. has_addr (i + 1) (m.nodes k) ≡ true) e t in ground (arith, t', e)

-- On a coordinator, address `i + 1` belongs to slot `i` and to no other: looking it up finds that
-- slot if its node is registered (or waiting), and nothing otherwise.
pub get_node_by_addr-slot :
    (m : Mac) (i : ℕ)
    → IsSound true m
    → i < max_nodes
    → get_node_by_addr m (i + 1)
      ≡ (if is_unregistered (m.nodes i).state then none else some (slot_ref i))
unfolding get_node_by_addr
get_node_by_addr-slot m i v h =
    rw (v.fixed) (find_addr m i _ v h (find_from-Finds (has_addr (i + 1)) m.nodes max_nodes 0))
