-- ===== src/Mac/Coordinator/Slots.antt =====
-- Which slot a registration request gets in lib/tinymac.c.
use tinyhan.Base.{ℕ, ◌<◌, ◌≡◌, ◌≢◌, ◌⊎◌, inl, inr, true, false, Option, none, some, arith}
use tinyhan.Mac.Types.{Node, Mac, is_unregistered}
use tinyhan.Mac.Wire.{max_nodes}
use tinyhan.Mac.Registry.{has_uuid, get_node_by_uuid, get_free_node}
use tinyhan.Mac.Registry.Search.{Finds, or_else, is_free, find_from-Finds, get_free_node-find_from}
use tinyhan.Mac.Registry.Members.{IsTable}
use tinyhan.Mac.Coordinator.{slot_for}

-- No slot holds the UUID.
abbrev pub IsNew : (ℕ → Node) → ℕ → Type 0
IsNew nodes u = (j : ℕ) → j < max_nodes → (nodes j).uuid ≢ u

-- The slot is the one that the UUID has, or no slot has it and this one is free; without a slot, the
-- UUID is new and every slot is in use.
abbrev pub IsSlotFor : (ℕ → Node) → ℕ → Option ℕ → Type 0
IsSlotFor nodes u none =
    IsNew nodes u × ((j : ℕ) → j < max_nodes → is_unregistered (nodes j).state ≡ false)
IsSlotFor nodes u (some i) =
    (i < max_nodes)
    × (((nodes i).uuid ≡ u) ⊎ (IsNew nodes u × (is_unregistered (nodes i).state ≡ true)))

free_slot :
    (nodes : ℕ → Node) (u : ℕ) (a b : Option ℕ)
    → IsTable nodes
    → IsNew nodes u
    → Finds (has_uuid 0) nodes max_nodes 0 a
    → Finds is_free nodes max_nodes 0 b
    → IsSlotFor nodes u (or_else a b)
free_slot nodes u none none v new f g = (new, λ j h. g j (omega arith) (omega arith))
free_slot nodes u none (some i) v new f (x, y, t, g) = (omega arith, inr (new, t))
free_slot nodes u (some i) b v new (x, y, t, f) g =
    (omega arith, inr (new, ground (arith, v.named i (omega arith))))

own_slot :
    (m : Mac) (u : ℕ) (o : Option ℕ)
    → IsTable m.nodes
    → Finds (has_uuid u) m.nodes max_nodes 0 o
    → IsSlotFor m.nodes u (elim o [ some i ↦ some i | none ↦ get_free_node m ])
own_slot m u none v f = rw (get_free_node-find_from m) (
    free_slot m.nodes u _ _ v (λ j h. ground (arith, f j (omega arith) (omega arith)))
      (find_from-Finds (has_uuid 0) m.nodes max_nodes 0)
      (find_from-Finds is_free m.nodes max_nodes 0))
own_slot m u (some i) v (a, b, t, f) = (omega arith, inl (ground arith))

pub slot_for-IsSlotFor : (m : Mac) (u : ℕ) → IsTable m.nodes → IsSlotFor m.nodes u (slot_for m u)
unfolding slot_for get_node_by_uuid
slot_for-IsSlotFor m u v =
    own_slot m u (get_node_by_uuid m u) v (find_from-Finds (has_uuid u) m.nodes max_nodes 0)
