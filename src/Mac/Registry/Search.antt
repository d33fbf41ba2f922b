-- ===== src/Mac/Registry/Search.antt =====
-- The searches of lib/tinymac.c over the node table.
use tinyhan.Base.{
  ℕ, zero, suc, ◌+◌, ◌≤◌, ◌<◌, ◌≡◌, refl, inl, inr, Bool, true, false, Option, none, some, arith,
  ◌==◌, Bool-cases,
}
use tinyhan.Mac.Types.{Node, Mac, is_unregistered}
use tinyhan.Mac.Wire.{max_nodes}
use tinyhan.Mac.Registry.{find_from, has_uuid, free_from, get_free_node}

-- What a search over the entries `n ≤ j < n + k` returns: the first that passes the test, if any.
abbrev pub Finds : (Node → Bool) → (ℕ → Node) → ℕ → ℕ → Option ℕ → Type 0
Finds test nodes k n none = (j : ℕ) → n ≤ j → j < n + k → test (nodes j) ≡ false
Finds test nodes k n (some i) =
    (n ≤ i)
    × (i < n + k)
    × (test (nodes i) ≡ true)
    × ((j : ℕ) → n ≤ j → j < i → test (nodes j) ≡ false)

extend-Finds :
    (test : Node → Bool) (nodes : ℕ → Node) (k n : ℕ) (o : Option ℕ)
    → test (nodes n) ≡ false
    → Finds test nodes k (n + 1) o
    → Finds test nodes (suc k) n o
extend-Finds test nodes k n none e h = λ j a b. elim (Bool-cases (n == j)) [
  | inl p ↦ let q : n ≡ j = ground arith in rw (← q) e
  | inr p ↦ h j (ground arith) (omega arith)
]
extend-Finds test nodes k n (some i) e (a, b, t, f) = (
  omega arith,
  omega arith,
  t,
  λ j c d. elim (Bool-cases (n == j)) [
    | inl p ↦ let q : n ≡ j = ground arith in rw (← q) e
    | inr p ↦ f j (ground arith) d
  ],
)

pub find_from-Finds :
    (test : Node → Bool) (nodes : ℕ → Node) (k n : ℕ)
    → Finds test nodes k n (find_from test nodes k n)
unfolding find_from
find_from-Finds test nodes zero n = λ j a b. absurd (omega arith)
find_from-Finds test nodes (suc k) n = elim (Bool-cases (test (nodes n))) [
  | inl p ↦ rw (p, find_from) (omega arith, omega arith, p, λ j a b. absurd (omega arith))
  | inr p ↦
      rw (p, find_from) (extend-Finds test nodes k n _ p (find_from-Finds test nodes k (n + 1)))
]

abbrev pub or_else : Option ℕ → Option ℕ → Option ℕ
or_else none b = b
or_else (some a) b = some a

abbrev pub is_free : Node → Bool
is_free n = is_unregistered n.state

free_from-find_from :
    (nodes : ℕ → Node) (k n : ℕ) (fallback : Option ℕ)
    → free_from nodes k n fallback
      ≡ or_else (find_from (has_uuid 0) nodes k n) (or_else fallback (find_from is_free nodes k n))
unfolding free_from find_from
free_from-find_from nodes zero n none = refl
free_from-find_from nodes zero n (some i) = refl
free_from-find_from nodes (suc k) n none =
    ground (
      arith,
      free_from-find_from nodes k (n + 1) none,
      free_from-find_from nodes k (n + 1) (some n),
    )
free_from-find_from nodes (suc k) n (some i) =
    ground (arith, free_from-find_from nodes k (n + 1) (some i))

-- The one-pass search for a free slot returns the first slot that was never used, if there is one,
-- and otherwise the first whose node is not registered, if there is one.
pub get_free_node-find_from :
    (m : Mac)
    → get_free_node m
      ≡ or_else (find_from (has_uuid 0) m.nodes max_nodes 0) (find_from is_free m.nodes max_nodes 0)
unfolding get_free_node
get_free_node-find_from m = free_from-find_from m.nodes max_nodes 0 none
