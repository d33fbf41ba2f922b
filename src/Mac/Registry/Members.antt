-- ===== src/Mac/Registry/Members.antt =====
-- The node table of lib/tinymac.c as a finite map: the address of every registered UUID.
use tinyhan.Base.{
  ap, ℕ, zero, suc, ◌+◌, ◌≤◌, ◌<◌, ◌≡◌, ◌≢◌, refl, sym, ◌∙◌, Bool, true, false, ◌&&◌, not, Option,
  none, some, arith, ◌==◌,
}
use tinyhan.Mac.Types.{Node, is_unregistered}
use tinyhan.Mac.Wire.{max_nodes}
use tinyhan.Mac.Registry.{find_from}
use tinyhan.Mac.Registry.Search.{Finds, find_from-Finds}

-- The node is registered, under this UUID.
abbrev pub is_member : ℕ → Node → Bool
is_member u n = n.uuid == u && not (is_unregistered n.state)

abbrev addr_in : (ℕ → Node) → Option ℕ → Option ℕ
addr_in nodes none = none
addr_in nodes (some i) = some (nodes i).addr

-- The address under which a UUID is registered, if it is.
abbrev pub members : (ℕ → Node) → ℕ → Option ℕ
members nodes u = addr_in nodes (find_from (is_member u) nodes max_nodes 0)

-- The table of a coordinator: no UUID in two slots, slot `i` has the address `i + 1`, and the UUID of a
-- registered node is not 0.
pub record IsTable (nodes : ℕ → Node) : Type 0 where
  pub unique :
      (i j : ℕ)
      → i < max_nodes
      → j < max_nodes
      → (nodes i).uuid ≡ (nodes j).uuid
      → (nodes i).uuid ≢ 0
      → i ≡ j
  pub own_addr : (i : ℕ) → i < max_nodes → (nodes i).addr ≡ i + 1
  pub named : (i : ℕ) → i < max_nodes → is_unregistered (nodes i).state ≡ false → (nodes i).uuid ≢ 0

-- A search sees only the entries of its range.
find_from_same :
    (test : Node → Bool) (f g : ℕ → Node) (k n : ℕ)
    → ((j : ℕ) → n ≤ j → j < n + k → test (f j) ≡ test (g j))
    → find_from test f k n ≡ find_from test g k n
unfolding find_from
find_from_same test f g zero n h = refl
find_from_same test f g (suc k) n h =
    let here = h n (omega arith) (omega arith) in
    let rest = find_from_same test f g k (n + 1) (λ j a b. h j (omega arith) (omega arith)) in
    rw (here, rest) refl

addr_same :
    (f g : ℕ → Node) (u : ℕ) (o : Option ℕ)
    → IsTable f
    → IsTable g
    → Finds (is_member u) f max_nodes 0 o
    → addr_in f o ≡ addr_in g o
addr_same f g u none v w h = refl
addr_same f g u (some i) v w (a, b, t, h) =
    ap some (v.own_addr i (omega arith) ∙ sym (w.own_addr i (omega arith)))

-- Tables with the same members at the same slots are the same map.
pub members_same :
    (f g : ℕ → Node) (u : ℕ)
    → IsTable f
    → IsTable g
    → ((j : ℕ) → j < max_nodes → is_member u (f j) ≡ is_member u (g j))
    → members f u ≡ members g u
members_same f g u v w h =
    addr_same f g u (find_from (is_member u) f max_nodes 0) v w
      (find_from-Finds (is_member u) f max_nodes 0)
    ∙ ap (addr_in g) (find_from_same (is_member u) f g max_nodes 0 (λ j a b. h j (omega arith)))

found :
    (nodes : ℕ → Node) (u i : ℕ) (o : Option ℕ)
    → IsTable nodes
    → i < max_nodes
    → is_member u (nodes i) ≡ true
    → Finds (is_member u) nodes max_nodes 0 o
    → addr_in nodes o ≡ some (i + 1)
found nodes u i none v hi h f =
    let no : true ≡ false = sym h ∙ f i (omega arith) (omega arith) in absurd (cc)
found nodes u i (some k) v hi h (a, b, t, f) =
    let nz : (nodes i).uuid ≢ 0 = v.named i hi (ground (arith, h)) in
    let same : i ≡ k = v.unique i k hi (omega arith) (ground (arith, h, t)) nz in
    ap some (v.own_addr k (omega arith) ∙ ap (λ j. j + 1) (sym same))

-- A member is registered under the address of its slot.
pub members_slot :
    (nodes : ℕ → Node) (u i : ℕ)
    → IsTable nodes
    → i < max_nodes
    → is_member u (nodes i) ≡ true
    → members nodes u ≡ some (i + 1)
members_slot nodes u i v hi h =
    found nodes u i (find_from (is_member u) nodes max_nodes 0) v hi h
      (find_from-Finds (is_member u) nodes max_nodes 0)

missing :
    (nodes : ℕ → Node) (u : ℕ) (o : Option ℕ)
    → ((i : ℕ) → i < max_nodes → is_member u (nodes i) ≡ false)
    → Finds (is_member u) nodes max_nodes 0 o
    → addr_in nodes o ≡ none
missing nodes u none h f = refl
missing nodes u (some i) h (a, b, t, f) =
    let no : true ≡ false = sym t ∙ h i (omega arith) in absurd (cc)

-- A UUID that no slot has as a member is not registered.
pub members-none :
    (nodes : ℕ → Node) (u : ℕ)
    → ((i : ℕ) → i < max_nodes → is_member u (nodes i) ≡ false)
    → members nodes u ≡ none
members-none nodes u h =
    missing nodes u (find_from (is_member u) nodes max_nodes 0) h
      (find_from-Finds (is_member u) nodes max_nodes 0)

-- A slot that has this member and this address.
abbrev pub HasMember : (ℕ → Node) → ℕ → ℕ → Type 0
HasMember nodes u a = (i : ℕ) × (i < max_nodes) × (is_member u (nodes i) ≡ true) × (a ≡ i + 1)

member_of :
    (nodes : ℕ → Node) (u a : ℕ) (o : Option ℕ)
    → IsTable nodes
    → Finds (is_member u) nodes max_nodes 0 o
    → addr_in nodes o ≡ some a
    → HasMember nodes u a
member_of nodes u a none v f h = absurd (cc)
member_of nodes u a (some i) v (x, y, t, f) h =
    let own = v.own_addr i (omega arith) in
    let e : (nodes i).addr ≡ a = cc in (i, omega arith, t, sym e ∙ own)

-- An address that is registered belongs to a slot.
pub members-HasMember :
    (nodes : ℕ → Node) (u a : ℕ) → IsTable nodes → members nodes u ≡ some a → HasMember nodes u a
members-HasMember nodes u a v h =
    member_of nodes u a (find_from (is_member u) nodes max_nodes 0) v
      (find_from-Finds (is_member u) nodes max_nodes 0) h
