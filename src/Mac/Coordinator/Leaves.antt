-- ===== src/Mac/Coordinator/Leaves.antt =====
-- Deregistration in lib/tinymac.c, on the map of the registered UUIDs.
use mathlib.Core.Path.{subst}
use tinyhan.Base.{
  if_ind, ap, ℕ, ◌+◌, ◌<◌, ◌≡◌, ◌≢◌, refl, sym, ◌∙◌, inl, inr, true, false, not, Option, none, some,
  List, arith, ◌==◌, Option-cases, Bool-cases, if◌then◌else◌,
}
use tinyhan.Mac.Types.{slot_ref, Node, Mac, Header, is_unregistered}
use tinyhan.Mac.Wire.{max_nodes, payload_uuid}
use tinyhan.Mac.Registry.{find_from, has_addr, as_ref, get_node_by_addr, deregister_node}
use tinyhan.Mac.Registry.Search.{Finds, find_from-Finds}
use tinyhan.Mac.Registry.Members.{
  is_member, members, IsTable, members_same, members_slot, members-none, members-HasMember,
}
use tinyhan.Mac.Transmit.{mac_phy_send, tx_unicast, tx_to, tx_packet}
use tinyhan.Mac.Coordinator.{deregister_in, rx_deregistration_request}
use tinyhan.Mac.Coordinator.Admits.{erase, Same}

-- The slot `i` is no longer registered, and nothing else of the table has changed.
pub record IsLeft (nodes nodes' : ℕ → Node) (i : ℕ) : Type 0 where
  pub others : (j : ℕ) → i ≢ j → nodes' j ≡ nodes j
  pub uuid : (nodes' i).uuid ≡ (nodes i).uuid
  pub addr : (nodes' i).addr ≡ (nodes i).addr
  pub state : is_unregistered (nodes' i).state ≡ true

left :
    (m : Mac) (i : ℕ) (p : List ℕ)
    → ((m.nodes i).uuid == payload_uuid p) ≡ true
    → IsLeft m.nodes (deregister_in m (some (slot_ref i)) p).nodes i
unfolding deregister_in tx_packet tx_to tx_unicast mac_phy_send deregister_node
left m i p h = record {
  others = λ j ne. ground arith;
  uuid = ground arith;
  addr = ground arith;
  state = ground arith;
}

-- The slot that is left, or another.
by_slot :
    (nodes nodes' : ℕ → Node) (i : ℕ) (P : Node → Node → Type 0)
    → IsLeft nodes nodes' i
    → P (nodes' i) (nodes i)
    → ((n : Node) → P n n)
    → (j : ℕ) → P (nodes' j) (nodes j)
by_slot nodes nodes' i P l here same j = elim (Bool-cases (i == j)) [
  | inl p ↦ subst (λ k. P (nodes' k) (nodes k)) (ground arith) here
  | inr p ↦ subst (λ n. P n (nodes j)) (sym (l.others j (ground arith))) (same (nodes j))
]

IsLeft-IsTable :
    (nodes nodes' : ℕ → Node) (i : ℕ) → IsTable nodes → IsLeft nodes nodes' i → IsTable nodes'
IsLeft-IsTable nodes nodes' i v l =
    let uuid = by_slot nodes nodes' i (λ n' n. n'.uuid ≡ n.uuid) l l.uuid (λ n. refl) in
    let addr = by_slot nodes nodes' i (λ n' n. n'.addr ≡ n.addr) l l.addr (λ n. refl) in
    let state =
      by_slot nodes nodes' i
        (λ n' n. is_unregistered n'.state ≡ false → is_unregistered n.state ≡ false) l
        (λ h. let no : true ≡ false = sym l.state ∙ h in absurd (cc)) (λ n h. h) in
    record {
      unique =
          λ j k hj hk e z. v.unique j k hj hk (sym (uuid j) ∙ e ∙ uuid k) (λ h. z (uuid j ∙ h));
      own_addr = λ j hj. addr j ∙ v.own_addr j hj;
      named = λ j hj h z. v.named j hj (state j h) (sym (uuid j) ∙ z);
    }

-- A UUID is in no slot as a member when it is not in its own.
not_there :
    (nodes : ℕ → Node) (i u : ℕ)
    → IsTable nodes
    → i < max_nodes
    → (nodes i).uuid ≡ u
    → (nodes i).uuid ≢ 0
    → is_member u (nodes i) ≡ false
    → (j : ℕ) → j < max_nodes
    → is_member u (nodes j) ≡ false
not_there nodes i u t hi hu nz gone j hj = elim (Bool-cases (is_member u (nodes j))) [
  | inl q ↦
      let e : i ≡ j = t.unique i j hi hj (hu ∙ ground arith) nz in
      sym (ap (λ k. is_member u (nodes k)) e) ∙ gone
  | inr q ↦ q
]

-- A registered node that has left is no longer in the map.
left_members :
    (nodes nodes' : ℕ → Node) (i u : ℕ)
    → IsTable nodes
    → IsLeft nodes nodes' i
    → i < max_nodes
    → (nodes i).uuid ≡ u
    → is_unregistered (nodes i).state ≡ false
    → Same (members nodes') (erase (members nodes) u)
left_members nodes nodes' i u v l hi hu hs w =
    let t = IsLeft-IsTable nodes nodes' i v l in
    let gone : is_member u (nodes' i) ≡ false = ground (arith, l.state) in
    elim (Bool-cases (u == w)) [
      | inl p ↦
          let e : u ≡ w = ground arith in
          rw p (
            ap (members nodes') (sym e)
            ∙ members-none nodes' u (
                not_there nodes' i u t hi (l.uuid ∙ hu) (λ z. v.named i hi hs (sym l.uuid ∙ z))
                  gone))
      | inr p ↦
          let here : is_member w (nodes' i) ≡ is_member w (nodes i) = ground (arith, l.state, hu) in
          rw p (
            members_same nodes' nodes w t v (λ j hj.
              by_slot nodes nodes' i (λ n' n. is_member w n' ≡ is_member w n) l here (λ n. refl) j))
    ]

-- The request of a UUID to leave, from an address: the UUID is removed when it has this address.
abbrev pub leave : (ℕ → Option ℕ) → ℕ → ℕ → ℕ → Option ℕ
leave f u a w = elim (f u) [ none ↦ f w | some b ↦ if b == a then erase f u w else f w ]

abbrev LeavesTable : (ℕ → Node) → ℕ → ℕ → (ℕ → Node) → Type 0
LeavesTable nodes u a nodes' = IsTable nodes' × Same (members nodes') (leave (members nodes) u a)

leave_stays : (f : ℕ → Option ℕ) (u a : ℕ) → f u ≢ some a → Same f (leave f u a)
leave_stays f u a h w = elim (Option-cases (f u)) [
  | inl e ↦ rw (leave, e) refl
  | inr (b, e) ↦
      let ne : b ≢ a = λ q. h (e ∙ ap some q) in
      let t : (b == a) ≡ false = ground arith in rw (leave, e, t) refl
]

leave_goes : (f : ℕ → Option ℕ) (u a : ℕ) → f u ≡ some a → Same (erase f u) (leave f u a)
leave_goes f u a h w = let t : (a == a) ≡ true = ground arith in rw (leave, h, t) refl

-- The node that has the address, if any, is asked for its UUID.
asked :
    (m : Mac) (a : ℕ) (o : Option ℕ) (p : List ℕ)
    → IsTable m.nodes
    → Finds (has_addr a) m.nodes max_nodes 0 o
    → LeavesTable m.nodes (payload_uuid p) a (deregister_in m (as_ref o) p).nodes
unfolding deregister_in
asked m a none p v f = (
  v,
  leave_stays (members m.nodes) (payload_uuid p) a (λ h.
      let (k, hk, t, e) = members-HasMember m.nodes (payload_uuid p) a v h in
      let own = v.own_addr k hk in
      let no = f k (omega arith) (omega arith) in absurd (ground (arith, no, own, t, e))),
)
asked m a (some i) p v (x, y, t, f) =
    let u = payload_uuid p in
    let hi : i < max_nodes = omega (arith, y) in
    let own = v.own_addr i hi in
    let ha : a ≡ i + 1 = ground (arith, own, t) in
    elim (Bool-cases ((m.nodes i).uuid == u)) [
      | inl q ↦
          let nodes' = (deregister_in m (some (slot_ref i)) p).nodes in
          let l : IsLeft m.nodes nodes' i = left m i p q in
          let hu : (m.nodes i).uuid ≡ u = ground arith in
          let hs : is_unregistered (m.nodes i).state ≡ false = ground (arith, t) in
          let member : is_member u (m.nodes i) ≡ true = ground (arith, hs) in
          let here : members m.nodes u ≡ some a =
            members_slot m.nodes u i v hi member ∙ ap some (sym ha) in
          (
            IsLeft-IsTable m.nodes nodes' i v l,
            λ w.
                left_members m.nodes nodes' i u v l hi hu hs w
                ∙ leave_goes (members m.nodes) u a here w,
          )
      | inr q ↦
          rw (q, deregister_in)
            (
              v,
              leave_stays (members m.nodes) u a (λ h.
                  let (k, hk, s, e) = members-HasMember m.nodes u a v h in
                  let same : k ≡ i = omega (arith, e, ha) in
                  let s' = subst (λ j. is_member u (m.nodes j) ≡ true) same s in
                  absurd (ground (arith, s', q))),
            )
    ]

looked_up :
    (m : Mac) (a : ℕ)
    → m.params.coordinator ≡ true
    → get_node_by_addr m a ≡ as_ref (find_from (has_addr a) m.nodes max_nodes 0)
unfolding get_node_by_addr
looked_up m a hc = rw hc refl

-- A deregistration request that a coordinator receives.
pub rx_deregistration_request-LeavesTable :
    (m : Mac) (hdr : Header) (p : List ℕ)
    → m.params.coordinator ≡ true
    → IsTable m.nodes
    → LeavesTable m.nodes (payload_uuid p) hdr.src_addr (rx_deregistration_request m hdr p).nodes
unfolding rx_deregistration_request
rx_deregistration_request-LeavesTable m hdr p hc v =
    let a = hdr.src_addr in
    if_ind (λ (x : Mac). LeavesTable m.nodes (payload_uuid p) a x.nodes) (not m.params.coordinator)
      m _ (λ h. let no : true ≡ false = sym h ∙ ap not hc in absurd (cc))
      (λ _.
        subst (λ o. LeavesTable m.nodes (payload_uuid p) a (deregister_in m o p).nodes)
          (sym (looked_up m a hc))
          (asked m a (find_from (has_addr a) m.nodes max_nodes 0) p v
            (find_from-Finds (has_addr a) m.nodes max_nodes 0)))
