-- ===== src/Base/Bytes.antt =====
-- Little-endian fields of packed structures: what a cast of a byte buffer reads and writes.
use Prim.Native.Nat.{ℕ, zero, suc, ◌+◌, ◌*◌, ◌/◌, ◌%◌, ◌^◌, ◌<◌}
use mathlib.Core.Path.{◌≡◌, refl}
use mathlib.Core.List.{List, [], ◌∷◌, ◌++◌}
use native.Mathlib.Omega.{arith}
use native.Mathlib.Nat.{pow-suc}
use tinyhan.Base.Lists.{length}
use tinyhan.Base.Tests.{ltb, if◌then◌else◌}

-- The `k` low bytes of a value, the lowest first.
unfoldable pub le_bytes : ℕ → ℕ → List ℕ
le_bytes zero v = []
le_bytes (suc k) v = (v % 256) ∷ le_bytes k (v / 256)

-- The value of the first `k` bytes; a byte that is not there counts as 0.
unfoldable pub read_le : ℕ → List ℕ → ℕ
read_le zero bs = 0
read_le (suc k) [] = 0
read_le (suc k) (b ∷ bs) = b + 256 * read_le k bs

pub read_le-le_bytes :
    (k v : ℕ) (rest : List ℕ) → v < 256 ^ k → read_le k (le_bytes k v ++ rest) ≡ v
unfolding le_bytes read_le
read_le-le_bytes zero v rest h = omega arith
read_le-le_bytes (suc k) v rest h =
    let p = pow-suc 256 k in omega (arith, p, read_le-le_bytes k (v / 256) rest (omega (arith, p)))

pub length-le_bytes : (k v : ℕ) → length (le_bytes k v) ≡ k
unfolding le_bytes
length-le_bytes zero v = refl
length-le_bytes (suc k) v = omega (arith, length-le_bytes k (v / 256))

-- A digit of `%X`.
abbrev pub hex_digit : ℕ → ℕ
hex_digit d = if ltb d 10 then 48 + d else 55 + d
