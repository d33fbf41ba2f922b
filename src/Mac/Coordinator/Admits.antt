-- ===== src/Mac/Coordinator/Admits.antt =====
-- Registration and deregistration in lib/tinymac.c, on the map of the registered UUIDs.
use mathlib.Core.Path.{subst}
use tinyhan.Base.{
  ap, ℕ, ◌+◌, ◌-◌, ◌≤◌, ◌<◌, ◌≡◌, ◌≢◌, ◌⊎◌, refl, sym, ◌∙◌, inl, inr, true, false, Option, none,
  some, arith, ◌==◌, Bool-cases, if◌then◌else◌,
}
use tinyhan.Mac.Types.{Node, is_unregistered, update}
use tinyhan.Mac.Wire.{max_nodes}
use tinyhan.Mac.Registry.Members.{
  is_member, members, IsTable, members_same, members_slot, members-none, members-HasMember,
}
use tinyhan.Mac.Coordinator.Slots.{IsSlotFor}

-- A finite map with one entry set, or one removed.
abbrev pub put : (ℕ → Option ℕ) → ℕ → ℕ → ℕ → Option ℕ
put f u a v = if u == v then some a else f v

abbrev pub erase : (ℕ → Option ℕ) → ℕ → ℕ → Option ℕ
erase f u v = if u == v then none else f v

abbrev pub Same : (ℕ → Option ℕ) → (ℕ → Option ℕ) → Type 0
Same f g = (v : ℕ) → f v ≡ g v

-- What registering a UUID may make of the map: the UUID has the address that it had, or one from 1 to 32 that
-- no other has; or nothing, when the UUID is not registered and all 32 addresses are in use.
abbrev pub IsAdmission : (ℕ → Option ℕ) → ℕ → (ℕ → Option ℕ) → Type 0
IsAdmission f u g =
    ((a : ℕ) × (1 ≤ a)
      × (a ≤ 32)
      × ((f u ≡ some a) ⊎ ((f u ≡ none) × ((v : ℕ) → f v ≢ some a)))
      × Same g (put f u a))
    ⊎ ((f u ≡ none) × ((a : ℕ) → 1 ≤ a → a ≤ 32 → (v : ℕ) × (f v ≡ some a)) × Same g f)

-- No other slot has the UUID of the one that it gets.
only_slot :
    (nodes : ℕ → Node) (i u : ℕ)
    → IsTable nodes
    → u ≢ 0
    → IsSlotFor nodes u (some i)
    → (j : ℕ) → j < max_nodes
    → (nodes j).uuid ≡ u
    → i ≡ j
only_slot nodes i u v nz (hi, inl same) j hj e =
    v.unique i j hi hj (same ∙ sym e) (ground (arith, same))
only_slot nodes i u v nz (hi, inr (new, free)) j hj e = absurd (new j hj e)

-- A node as a registration request enters it into its slot.
abbrev Enters : Node → ℕ → ℕ → Type 0
Enters n i u = (n.uuid ≡ u) × (n.addr ≡ i + 1) × (is_unregistered n.state ≡ false)

enter-IsTable :
    (nodes : ℕ → Node) (i u : ℕ) (n : Node)
    → IsTable nodes
    → u ≢ 0
    → IsSlotFor nodes u (some i)
    → Enters n i u
    → IsTable (update nodes i n)
enter-IsTable nodes i u n v nz s (hu, ha, hs) =
    let only = only_slot nodes i u v nz s in
    record {
      unique = λ j k hj hk e z. ground (arith, v.unique j k hj hk, only j hj, only k hk, hu);
      own_addr = λ j hj. ground (arith, v.own_addr j hj, ha);
      named = λ j hj r. ground (arith, v.named j hj, hu, nz);
    }

-- The other UUIDs have their slots as before.
other :
    (nodes : ℕ → Node) (i u w j : ℕ) (n : Node)
    → IsSlotFor nodes u (some i)
    → (n.uuid ≡ u) × (is_unregistered n.state ≡ false)
    → u ≢ w
    → is_member w (update nodes i n j) ≡ is_member w (nodes j)
other nodes i u w j n (hi, inl same) (hu, hs) ne = ground (arith, same, hu)
other nodes i u w j n (hi, inr (new, free)) (hu, hs) ne = ground (arith, free, hu)

entered :
    (nodes : ℕ → Node) (i u : ℕ) (n : Node)
    → IsTable nodes
    → u ≢ 0
    → IsSlotFor nodes u (some i)
    → Enters n i u
    → Same (members (update nodes i n)) (put (members nodes) u (i + 1))
entered nodes i u n v nz s (hu, ha, hs) w =
    let t = enter-IsTable nodes i u n v nz s (hu, ha, hs) in
    elim (Bool-cases (u == w)) [
      | inl p ↦
          let e : u ≡ w = ground arith in
          let own : is_member u (update nodes i n i) ≡ true = ground (arith, hu, hs) in
          rw p (
            ap (members (update nodes i n)) (sym e) ∙ members_slot (update nodes i n) u i t s.0 own)
      | inr p ↦ rw p (
          members_same (update nodes i n) nodes w t v
            (λ j hj. other nodes i u w j n s (hu, hs) (ground arith)))
    ]

-- A slot that does not have the UUID has no other as a member.
taken_slot :
    (nodes : ℕ → Node) (i u w : ℕ)
    → IsSlotFor nodes u (some i)
    → is_member u (nodes i) ≡ false
    → is_member w (nodes i) ≡ true
    → ⊥
taken_slot nodes i u w (hi, inl same) p t = ground (arith, same)
taken_slot nodes i u w (hi, inr (new, free)) p t = ground (arith, free)

-- The address of the slot is the one that the UUID has, or one that no other UUID has.
slot_addr :
    (nodes : ℕ → Node) (i u : ℕ)
    → IsTable nodes
    → u ≢ 0
    → IsSlotFor nodes u (some i)
    → (members nodes u ≡ some (i + 1))
      ⊎ ((members nodes u ≡ none) × ((w : ℕ) → members nodes w ≢ some (i + 1)))
slot_addr nodes i u v nz s = elim (Bool-cases (is_member u (nodes i))) [
  | inl p ↦ inl (members_slot nodes u i v s.0 p)
  | inr p ↦ inr (
    members-none nodes u (λ j hj. elim (Bool-cases (is_member u (nodes j))) [
      | inl q ↦
          let e = only_slot nodes i u v nz s j hj (ground arith) in absurd (ground (arith, p, q, e))
      | inr q ↦ q
    ]),
    λ w h.
        let (k, hk, t, e) = members-HasMember nodes w (i + 1) v h in
        let same : i ≡ k = omega (arith, e) in
        taken_slot nodes i u w s p (subst (λ x. is_member w (nodes x) ≡ true) (sym same) t),
  )
]

pub admission :
    (nodes : ℕ → Node) (u i : ℕ) (n : Node)
    → IsTable nodes
    → u ≢ 0
    → IsSlotFor nodes u (some i)
    → Enters n i u
    → IsTable (update nodes i n) × IsAdmission (members nodes) u (members (update nodes i n))
admission nodes u i n v nz s e = (
  enter-IsTable nodes i u n v nz s e,
  inl (
    i + 1,
    omega arith,
    omega (arith, s.0),
    slot_addr nodes i u v nz s,
    entered nodes i u n v nz s e,
  ),
)

pub refusal :
    (nodes : ℕ → Node) (u : ℕ)
    → IsTable nodes
    → IsSlotFor nodes u none
    → IsAdmission (members nodes) u (members nodes)
refusal nodes u v (new, used) = inr (
  members-none nodes u (λ j hj. ground (arith, new j hj)),
  λ a lo hi.
      let j = a - 1 in
      let own : is_member (nodes j).uuid (nodes j) ≡ true = ground (arith, used j (omega arith)) in
      let e : j + 1 ≡ a = omega arith in
      ((nodes j).uuid, members_slot nodes (nodes j).uuid j v (omega arith) own ∙ ap some e),
  λ w. refl,
)
