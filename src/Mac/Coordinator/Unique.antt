-- ===== src/Mac/Coordinator/Unique.antt =====
-- Registration in lib/tinymac.c gives no UUID two slots.
use mathlib.Core.Path.{subst}
use tinyhan.Base.{if_ind, ℕ, ◌<◌, ◌≡◌, refl, sym, ◌≢◌, not, Option, none, some, List, arith}
use tinyhan.Mac.Types.{Node, Mac, update}
use tinyhan.Mac.Wire.{max_nodes, payload_uuid}
use tinyhan.Mac.Registry.{has_uuid, get_node_by_uuid}
use tinyhan.Mac.Registry.Search.{Finds, find_from-Finds}
use tinyhan.Mac.Transmit.{mac_phy_send, tx_to, tx_packet}
use tinyhan.Mac.Coordinator.{slot_for, enter_node, register_in, rx_registration_request}

-- No two slots hold one UUID, but for the 0 of slots that were never used.
abbrev pub IsUnique : (ℕ → Node) → Type 0
IsUnique nodes =
    (i j : ℕ)
    → i < max_nodes
    → j < max_nodes
    → (nodes i).uuid ≡ (nodes j).uuid
    → (nodes i).uuid ≢ 0
    → i ≡ j

-- The UUID stands in no slot but `i`.
abbrev IsHome : (ℕ → Node) → ℕ → ℕ → Type 0
IsHome nodes u i = (j : ℕ) → j < max_nodes → (nodes j).uuid ≡ u → u ≢ 0 → i ≡ j

pub nodes-register_in :
    (m : Mac) (i : ℕ) (p : List ℕ) → (register_in m (some i) p).nodes ≡ (enter_node m i p).nodes
unfolding register_in tx_packet tx_to mac_phy_send
nodes-register_in m i p = ground arith

pub nodes-register_in-none : (m : Mac) (p : List ℕ) → (register_in m none p).nodes ≡ m.nodes
unfolding register_in tx_packet tx_to mac_phy_send
nodes-register_in-none m p = ground arith

Finds-IsHome :
    (m : Mac) (u i : ℕ) (o : Option ℕ)
    → IsUnique m.nodes
    → Finds (has_uuid u) m.nodes max_nodes 0 o
    → (elim o [ some k ↦ some k | none ↦ some i ]) ≡ some i
    → IsHome m.nodes u i
Finds-IsHome m u i none v f e j h p n = absurd (ground (arith, f j (omega arith) h))
Finds-IsHome m u i (some k) v (a, b, t, f) e j h p n = ground (arith, v k j (omega arith) h)

enter-IsUnique :
    (nodes : ℕ → Node) (i : ℕ) (n : Node)
    → IsUnique nodes
    → IsHome nodes n.uuid i
    → IsUnique (update nodes i n)
enter-IsUnique nodes i n v h j k hj hk e z = ground (arith, v j k hj hk, h j hj, h k hk)

register_in-IsUnique :
    (m : Mac) (p : List ℕ) (o : Option ℕ)
    → IsUnique m.nodes
    → ((i : ℕ) → o ≡ some i → IsHome m.nodes (payload_uuid p) i)
    → IsUnique (register_in m o p).nodes
register_in-IsUnique m p none v h = subst IsUnique (sym (nodes-register_in-none m p)) v
register_in-IsUnique m p (some i) v h =
    subst IsUnique (sym (nodes-register_in m i p)) (enter-IsUnique m.nodes i _ v (h i refl))

slot_for-IsHome :
    (m : Mac) (u i : ℕ) → IsUnique m.nodes → slot_for m u ≡ some i → IsHome m.nodes u i
unfolding slot_for get_node_by_uuid
slot_for-IsHome m u i v e =
    Finds-IsHome m u i (get_node_by_uuid m u) v (find_from-Finds (has_uuid u) m.nodes max_nodes 0)
      (ground arith)

-- A registration request, whatever its payload, leaves every UUID in at most one slot: a client that
-- registers again gets the slot, and so the address, that it had.
pub rx_registration_request-IsUnique :
    (m : Mac) (p : List ℕ) → IsUnique m.nodes → IsUnique (rx_registration_request m p).nodes
unfolding rx_registration_request
rx_registration_request-IsUnique m p v =
    if_ind (λ (x : Mac). IsUnique x.nodes) (not m.params.coordinator) m _ (λ _. v)
      (λ _. register_in-IsUnique m p _ v (λ i e. slot_for-IsHome m (payload_uuid p) i v e))
