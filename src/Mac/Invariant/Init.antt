-- ===== src/Mac/Invariant/Init.antt =====
-- `tinymac_init` of lib/tinymac.c establishes the invariant, so that it holds after any run.
use tinyhan.Base.{ℕ, ◌+◌, ◌≡◌, refl, sym, ◌∙◌, Bool, not, none, List, arith, ltb, has_bit, if_ind}
use tinyhan.Mac.Types.{NodeRef, slot_ref, coord_ref, dummy_ref, Params, Phy, Mac, phy_listen}
use tinyhan.Mac.Wire.{max_nodes, sleepy_bit}
use tinyhan.Mac.Api.{init_node, init_role, init_common, init_phy, init}
use tinyhan.Mac.Run.{Event, run, zero_mac}
use tinyhan.Mac.Receive.{zero_node}
use tinyhan.Mac.Invariant.{IsNodeSound, HasOwnAddr, IsSound, emit-IsSound, unless-IsSound}
use tinyhan.Mac.Invariant.Receive.{length-zeros}
use tinyhan.Mac.Invariant.Api.{run-IsSound}

-- A node of zero bytes satisfies the invariant, with any address that suits it.
zero-IsNodeSound :
    (r : NodeRef) (a : ℕ) → HasOwnAddr r a → IsNodeSound r (record zero_node { addr = a })
zero-IsNodeSound r a h = record {
  ack = λ t e. cc;
  validity = λ t e. cc;
  buffer = length-zeros 128;
  size = omega arith;
  own_addr = h;
}

init_node-IsNodeSound : (i : ℕ) → IsNodeSound (slot_ref i) (init_node (λ j. zero_node) i)
init_node-IsNodeSound i =
    if_ind (IsNodeSound (slot_ref i)) (ltb i max_nodes) _ _
      (λ _. zero-IsNodeSound (slot_ref i) (i + 1) (λ _. refl))
      (λ e. zero-IsNodeSound (slot_ref i) 0 (λ h. absurd (ground arith)))

init_role-IsSound :
    {c : Bool} (m : Mac) (net : ℕ)
    → m.params.coordinator ≡ c
    → ((i : ℕ) → IsNodeSound (slot_ref i) (m.nodes i))
    → IsNodeSound coord_ref m.coord
    → IsNodeSound dummy_ref m.dummy
    → m.timer.callback ≡ none
    → IsSound c (init_role m net)
init_role-IsSound {c} m net f h hc hd ht =
    if_ind (IsSound c) m.params.coordinator _ _
      (λ e. record {
        fixed = f;
        slots = h;
        coord_sound = hc;
        dummy_sound = hd;
        request = λ t p. cc;
        role = rw (sym f ∙ e) (refl, refl);
      })
      (λ e. record {
        fixed = f;
        slots = h;
        coord_sound = hc;
        dummy_sound = hd;
        request = λ t p. cc;
        role = rw (sym f ∙ e) (refl, refl);
      })

init_phy-IsSound : {c : Bool} (m : Mac) → IsSound c m → IsSound c (init_phy m)
unfolding init_phy
init_phy-IsSound m v =
    let v1 : IsSound _ (record m { phy_mtu = m.phy.mtu }) = record {
      fixed = v.fixed;
      slots = v.slots;
      coord_sound = v.coord_sound;
      dummy_sound = v.dummy_sound;
      request = v.request;
      role = v.role;
    } in
    unless-IsSound (not (has_bit m.params.flags sleepy_bit)) _ _ (emit-IsSound _ phy_listen v1) v1

pub init-IsSound :
    (phy : Phy) (params : Params) (b d n : ℕ)
    → IsSound params.coordinator (init (zero_mac phy) params b d n)
unfolding init
init-IsSound phy params b d n = init_phy-IsSound _ (
    init_role-IsSound (init_common (zero_mac phy) params b d) n refl init_node-IsNodeSound
      (zero-IsNodeSound coord_ref 0 tt) (zero-IsNodeSound dummy_ref 0 tt) refl)

-- From the zeroed context, after `tinymac_init` with any parameters and any sequence of frames, ticks,
-- sends and settings, under any driver: an armed timer of a node calls the function meant for it on
-- that node, the buffers hold 128 bytes and no more than 128 of them are pending, slot `i` has the
-- address `i + 1`, and the node's own address and network go with its state and role.
pub run-init-IsSound :
    (phy : Phy) (params : Params) (b d n : ℕ) (es : List Event)
    → IsSound params.coordinator (run (init (zero_mac phy) params b d n) es)
run-init-IsSound phy params b d n es = run-IsSound _ es (init-IsSound phy params b d n)
