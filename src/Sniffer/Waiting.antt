-- ===== src/Sniffer/Waiting.antt =====
-- The addresses in the braces that tools/phy-sniffer/tinyhan-sniffer.c prints, read back.
use tinyhan.Base.{
  ap, ℕ, zero, suc, ◌+◌, ◌-◌, ◌*◌, ◌/◌, ◌%◌, ◌<◌, ◌≤◌, ◌≡◌, refl, ◌∙◌, true, List, [], ◌∷◌, ◌++◌,
  arith, ltb, ◌==◌, if◌then◌else◌, Bool-cases, inl, inr,
}
use tinyhan.Base.Bytes.{hex_digit}
use tinyhan.Mac.Types.{NodeState, Node, is_send_pending}
use tinyhan.Mac.Transmit.{pending_addrs}
use tinyhan.Mac.Client.{contains}
use tinyhan.Sniffer.{hex_list, pending_text}

-- The value of a digit, and the bytes of a text in braces.
abbrev pub hex_value : ℕ → ℕ
hex_value c = if ltb c 58 then c - 48 else c - 55

unfoldable pub read_list : List ℕ → List ℕ
read_list (a ∷ (b ∷ (space ∷ text))) = (16 * hex_value a + hex_value b) ∷ read_list text
read_list text = []

abbrev pub read_text : List ℕ → List ℕ
read_text [] = []
read_text (brace ∷ text) = read_list text

hex_value-hex_digit : (d : ℕ) → d < 16 → hex_value (hex_digit d) ≡ d
hex_value-hex_digit d h = ground arith

read_byte :
    (a : ℕ)
    → a < 256
    → 16 * hex_value (hex_digit (a / 16 % 16)) + hex_value (hex_digit (a % 16)) ≡ a
read_byte a h =
    let hi = hex_value-hex_digit (a / 16 % 16) (omega arith) in
    let lo = hex_value-hex_digit (a % 16) (omega arith) in omega (arith, hi, lo)

read_list-hex_list :
    (nodes : ℕ → Node) (k n : ℕ)
    → ((i : ℕ) → i < n + k → (nodes i).addr < 256)
    → read_list (hex_list (pending_addrs nodes k n) ++ (0x7d ∷ [])) ≡ pending_addrs nodes k n
unfolding pending_addrs read_list
read_list-hex_list nodes zero n h = refl
read_list-hex_list nodes (suc k) n h =
    let rest = read_list-hex_list nodes k (n + 1) (λ i q. h i (omega arith)) in
    elim (Bool-cases (is_send_pending (nodes n).state)) [
      | inl p ↦ rw p (λ i. read_byte (nodes n).addr (h n (omega arith)) i ∷ rest i)
      | inr p ↦ rw p rest
    ]

pub read_text-pending_text :
    (nodes : ℕ → Node) (k n : ℕ)
    → ((i : ℕ) → i < n + k → (nodes i).addr < 256)
    → read_text (pending_text (pending_addrs nodes k n)) ≡ pending_addrs nodes k n
read_text-pending_text nodes k n h = read_list-hex_list nodes k n h

-- Data waits for a node, one of `k` from index `n` on, that has this address.
abbrev pub Waits : (ℕ → Node) → ℕ → ℕ → ℕ → Type 0
Waits nodes k n a =
    (i : ℕ) × (n ≤ i)
    × (i < n + k)
    × ((nodes i).state ≡ NodeState.send_pending)
    × ((nodes i).addr ≡ a)

is_send_pending-true : (s : NodeState) → is_send_pending s ≡ true → s ≡ NodeState.send_pending
is_send_pending-true NodeState.unregistered h = absurd (cc)
is_send_pending-true NodeState.registered h = absurd (cc)
is_send_pending-true NodeState.send_pending h = refl
is_send_pending-true NodeState.wait_ack h = absurd (cc)

-- Only addresses of such nodes are listed.
pub contains-pending_addrs :
    (nodes : ℕ → Node) (k n a : ℕ) → contains a (pending_addrs nodes k n) ≡ true → Waits nodes k n a
unfolding pending_addrs contains
contains-pending_addrs nodes zero n a h = absurd (cc)
contains-pending_addrs nodes (suc k) n a h = elim (Bool-cases (is_send_pending (nodes n).state)) [
  | inl p ↦ elim (Bool-cases ((nodes n).addr == a)) [
    | inl q ↦ (n, omega arith, omega arith, is_send_pending-true (nodes n).state p, ground arith)
    | inr q ↦
        let (i, lo, hi, s, e) = contains-pending_addrs nodes k (n + 1) a (rw q at (rw p at h)) in
        (i, omega arith, omega arith, s, e)
  ]
  | inr p ↦
      let (i, lo, hi, s, e) = contains-pending_addrs nodes k (n + 1) a (rw p at h) in
      (i, omega arith, omega arith, s, e)
]

-- And the address of each of them is.
pub pending_addrs-contains :
    (nodes : ℕ → Node) (k n a : ℕ) → Waits nodes k n a → contains a (pending_addrs nodes k n) ≡ true
unfolding pending_addrs contains
pending_addrs-contains nodes zero n a (i, lo, hi, s, e) = absurd (omega arith)
pending_addrs-contains nodes (suc k) n a (i, lo, hi, s, e) = elim (Bool-cases (n == i)) [
  | inl p ↦
      let q : n ≡ i = ground arith in
      let w : is_send_pending (nodes n).state ≡ true =
        ap (λ j. is_send_pending (nodes j).state) q ∙ ap is_send_pending s in
      let z : ((nodes n).addr == a) ≡ true =
        ap (λ j. (nodes j).addr == a) q ∙ (rw e (ground arith)) in
      rw w (rw z refl)
  | inr p ↦
      let rest = pending_addrs-contains nodes k (n + 1) a (i, ground arith, omega arith, s, e) in
      elim (Bool-cases (is_send_pending (nodes n).state)) [
        | inl w ↦ rw w (
            rw rest
              (elim (Bool-cases ((nodes n).addr == a)) [ inl z ↦ rw z refl | inr z ↦ rw z refl ]))
        | inr w ↦ rw w rest
      ]
]
