-- ===== src/Mac/Coordinator/Refines.antt =====
-- The coordinator of lib/tinymac.c as a finite map from UUIDs to addresses.
use mathlib.Core.Path.{subst, fun_ext}
use tinyhan.Base.{
  ap, ℕ, ◌≡◌, ◌≢◌, refl, sym, ◌∙◌, true, false, not, Option, none, some, List, [], ◌∷◌, arith,
  if_ind,
}
use tinyhan.Mac.Types.{NodeRef, slot_ref, coord_ref, dummy_ref, Params, Node, Mac, Header}
use tinyhan.Mac.Wire.{payload_uuid}
use tinyhan.Mac.Registry.{get_node_by_addr, deregister_node}
use tinyhan.Mac.Registry.Members.{members, IsTable}
use tinyhan.Mac.Transmit.{mac_phy_send, tx_unicast, tx_to, tx_packet}
use tinyhan.Mac.Coordinator.{
  slot_for, entry, register_in, rx_registration_request, deregister_in, rx_deregistration_request,
}
use tinyhan.Mac.Coordinator.Unique.{nodes-register_in, nodes-register_in-none}
use tinyhan.Mac.Coordinator.Slots.{IsSlotFor, slot_for-IsSlotFor}
use tinyhan.Mac.Coordinator.Admits.{IsAdmission, admission, refusal}
use tinyhan.Mac.Coordinator.Leaves.{leave, rx_deregistration_request-LeavesTable}

-- A request that arrives: to register, or to deregister, with the frame's header.
pub data Request : Type 0 where
  joins : List ℕ → Request
  leaves : Header → List ℕ → Request

unfoldable pub serve : Mac → List Request → Mac
serve m [] = m
serve m (joins p ∷ rs) = serve (rx_registration_request m p) rs
serve m (leaves hdr p ∷ rs) = serve (rx_deregistration_request m hdr p) rs

-- The same requests on the map.
abbrev pub Replays : (ℕ → Option ℕ) → List Request → (ℕ → Option ℕ) → Type 0
Replays f [] g = g ≡ f
Replays f (joins p ∷ rs) g = (h : ℕ → Option ℕ) × IsAdmission f (payload_uuid p) h × Replays h rs g
Replays f (leaves hdr p ∷ rs) g = Replays (leave f (payload_uuid p) hdr.src_addr) rs g

-- No request to register carries the UUID 0.
abbrev pub AreNamed : List Request → Type 0
AreNamed [] = Unit
AreNamed (joins p ∷ rs) = (payload_uuid p ≢ 0) × AreNamed rs
AreNamed (leaves hdr p ∷ rs) = AreNamed rs

params-register_in : (m : Mac) (o : Option ℕ) (p : List ℕ) → (register_in m o p).params ≡ m.params
unfolding register_in tx_packet tx_to mac_phy_send
params-register_in m none p = ground arith
params-register_in m (some i) p = ground arith

params-deregister_in :
    (m : Mac) (r : Option NodeRef) (p : List ℕ) → (deregister_in m r p).params ≡ m.params
unfolding deregister_in tx_packet tx_to tx_unicast mac_phy_send deregister_node
params-deregister_in m none p = refl
params-deregister_in m (some (slot_ref i)) p = ground arith
params-deregister_in m (some coord_ref) p = ground arith
params-deregister_in m (some dummy_ref) p = ground arith

params-rx_registration_request :
    (m : Mac) (p : List ℕ) → (rx_registration_request m p).params ≡ m.params
unfolding rx_registration_request
params-rx_registration_request m p =
    if_ind (λ (x : Mac). x.params ≡ m.params) (not m.params.coordinator) m _ (λ _. refl)
      (λ _. params-register_in m (slot_for m (payload_uuid p)) p)

params-rx_deregistration_request :
    (m : Mac) (hdr : Header) (p : List ℕ) → (rx_deregistration_request m hdr p).params ≡ m.params
unfolding rx_deregistration_request
params-rx_deregistration_request m hdr p =
    if_ind (λ (x : Mac). x.params ≡ m.params) (not m.params.coordinator) m _ (λ _. refl)
      (λ _. params-deregister_in m (get_node_by_addr m hdr.src_addr) p)

-- A registration request that a coordinator receives.
abbrev JoinsTable : (ℕ → Node) → ℕ → (ℕ → Node) → Type 0
JoinsTable nodes u nodes' = IsTable nodes' × IsAdmission (members nodes) u (members nodes')

joined_table :
    (m : Mac) (o : Option ℕ) (p : List ℕ)
    → IsTable m.nodes
    → payload_uuid p ≢ 0
    → IsSlotFor m.nodes (payload_uuid p) o
    → JoinsTable m.nodes (payload_uuid p) (register_in m o p).nodes
joined_table m none p v nz s =
    subst (λ nodes. JoinsTable m.nodes (payload_uuid p) nodes) (sym (nodes-register_in-none m p))
      (v, refusal m.nodes (payload_uuid p) v s)
joined_table m (some i) p v nz s =
    subst (λ nodes. JoinsTable m.nodes (payload_uuid p) nodes) (sym (nodes-register_in m i p))
      (admission m.nodes (payload_uuid p) i (entry m i p) v nz s (refl, v.own_addr i s.0, refl))

rx_registration_request-JoinsTable :
    (m : Mac) (p : List ℕ)
    → m.params.coordinator ≡ true
    → IsTable m.nodes
    → payload_uuid p ≢ 0
    → JoinsTable m.nodes (payload_uuid p) (rx_registration_request m p).nodes
unfolding rx_registration_request
rx_registration_request-JoinsTable m p hc v nz =
    if_ind (λ (x : Mac). JoinsTable m.nodes (payload_uuid p) x.nodes) (not m.params.coordinator) m _
      (λ h. let no : true ≡ false = sym h ∙ ap not hc in absurd (cc))
      (λ _.
        joined_table m (slot_for m (payload_uuid p)) p v nz
          (slot_for-IsSlotFor m (payload_uuid p) v))

-- On a coordinator where no two slots hold one UUID but 0, slot `i` has the address `i + 1`, and registered
-- nodes have a UUID that is not 0, every sequence of registration and deregistration requests, where
-- none registers the UUID 0, keeps the table so and refines a finite map from UUIDs to addresses: a
-- registration keeps the address that the UUID has, or gives it an address from 1 to 32 that no other
-- UUID has, or, only when it has none and all 32 are in use, changes nothing; a deregistration
-- removes the UUID when it comes from its address, and changes nothing else.
pub serve_refines :
    (rs : List Request) (m : Mac)
    → m.params.coordinator ≡ true
    → IsTable m.nodes
    → AreNamed rs
    → IsTable (serve m rs).nodes × Replays (members m.nodes) rs (members (serve m rs).nodes)
unfolding serve
serve_refines [] m hc v h = (v, refl)
serve_refines (joins p ∷ rs) m hc v (nz, h) =
    let m1 = rx_registration_request m p in
    let (v1, a) = rx_registration_request-JoinsTable m p hc v nz in
    let hc1 : m1.params.coordinator ≡ true =
      ap (λ (x : Params). x.coordinator) (params-rx_registration_request m p) ∙ hc in
    let (v2, r) = serve_refines rs m1 hc1 v1 h in (v2, (members m1.nodes, a, r))
serve_refines (leaves hdr p ∷ rs) m hc v h =
    let m1 = rx_deregistration_request m hdr p in
    let (v1, a) = rx_deregistration_request-LeavesTable m hdr p hc v in
    let hc1 : m1.params.coordinator ≡ true =
      ap (λ (x : Params). x.coordinator) (params-rx_deregistration_request m hdr p) ∙ hc in
    let (v2, r) = serve_refines rs m1 hc1 v1 h in
    (v2, subst (λ f. Replays f rs (members (serve m1 rs).nodes)) (fun_ext a) r)
