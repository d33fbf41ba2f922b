-- ===== src/App/Entries.antt =====
-- What the serialisation functions of lib/tinyapp.c write for a sequence of entries.
use mathlib.Core.List.{append_assoc, append-nil}
use tinyhan.Base.{
  ap, ℕ, zero, suc, ◌+◌, ◌%◌, ◌^◌, ◌≤◌, ◌<◌, ◌≡◌, refl, sym, ◌∙◌, Bool, true, ◌&&◌, Option, none,
  some, List, [], ◌∷◌, ◌++◌, arith, length, length-append, ltb, ◌==◌, bit_or, Bool-cases, inl, inr,
}
use tinyhan.Base.Bytes.{le_bytes}
use tinyhan.App.Packet.{
  Packet, Item, append, serialise8, serialise16, serialise32, serialise_string,
}

-- What an application serialises: the choice of a profile, or an item with its id and value.
pub data Entry : Type 0 where
  profile : ℕ → Entry
  item8 item16 item32 : ℕ → ℕ → Entry
  text : ℕ → List ℕ → Entry

abbrev pub serialise : Packet → Entry → Option Packet
serialise p (profile v) = serialise8 p 0x3f v
serialise p (item8 id v) = serialise8 p id v
serialise p (item16 id v) = serialise16 p id v
serialise p (item32 id v) = serialise32 p id v
serialise p (text id s) = serialise_string p id s

abbrev pub and_then : Option Packet → (Packet → Option Packet) → Option Packet
and_then none k = none
and_then (some p) k = k p

unfoldable pub serialise_all : Packet → List Entry → Option Packet
serialise_all p [] = some p
serialise_all p (e ∷ es) = and_then (serialise p e) (λ q. serialise_all q es)

-- Ids below that of the profile, values of their width, strings below 256 bytes.
abbrev pub IsFit : Entry → Type 0
IsFit (profile v) = v < 256
IsFit (item8 id v) = (id < 63) × (v < 256)
IsFit (item16 id v) = (id < 63) × (v < 2 ^ 16)
IsFit (item32 id v) = (id < 63) × (v < 2 ^ 32)
IsFit (text id s) = (id < 63) × (length s < 256)

abbrev pub AreFit : List Entry → Type 0
AreFit [] = Unit {0}
AreFit (e ∷ es) = IsFit e × AreFit es

-- The bytes that an entry takes.
abbrev pub size_of : Entry → ℕ
size_of (profile v) = 2
size_of (item8 id v) = 2
size_of (item16 id v) = 3
size_of (item32 id v) = 5
size_of (text id s) = 2 + length s

abbrev pub total_size : List Entry → ℕ
total_size [] = 0
total_size (e ∷ es) = size_of e + total_size es

-- The calls that the entries stand for, from a profile on.
abbrev pub calls : ℕ → List Entry → List Item
calls p [] = []
calls p (profile v ∷ es) = calls v es
calls p (item8 id v ∷ es) =
    record { profile = p; item = id; value = le_bytes 1 v; len = 1 } ∷ calls p es
calls p (item16 id v ∷ es) =
    record { profile = p; item = id; value = le_bytes 2 v; len = 2 } ∷ calls p es
calls p (item32 id v ∷ es) =
    record { profile = p; item = id; value = le_bytes 4 v; len = 4 } ∷ calls p es
calls p (text id s ∷ es) = record { profile = p; item = id; value = s; len = length s } ∷ calls p es

abbrev all_below : ℕ → (ℕ → Bool) → Bool
all_below zero test = true
all_below (suc n) test = test n && all_below n test

all_below-true : (n : ℕ) (test : ℕ → Bool) (i : ℕ) → all_below n test ≡ true → i < n → test i ≡ true
all_below-true zero test i h hi = absurd (omega arith)
all_below-true (suc n) test i h hi = elim (Bool-cases (i == n)) [
  | inl p ↦ let q : n ≡ i = ground arith in rw (← q) (ground arith)
  | inr p ↦ all_below-true n test i (ground arith) (ground arith)
]

-- The type byte: a length code above an id below 64.
type_byte :
    (code id : ℕ)
    → all_below 64 (λ i. bit_or code i == code + i) ≡ true
    → id < 64
    → bit_or code id ≡ code + id
type_byte code id h hi =
    let e = all_below-true 64 (λ i. bit_or code i == code + i) id h hi in ground arith

-- The bytes of an entry.
abbrev pub entry_bytes : Entry → List ℕ
entry_bytes (profile v) = 63 ∷ le_bytes 1 v
entry_bytes (item8 id v) = id ∷ le_bytes 1 v
entry_bytes (item16 id v) = (64 + id) ∷ le_bytes 2 v
entry_bytes (item32 id v) = (128 + id) ∷ le_bytes 4 v
entry_bytes (text id s) = (192 + id) ∷ (length s ∷ s)

abbrev pub all_bytes : List Entry → List ℕ
all_bytes [] = []
all_bytes (e ∷ es) = entry_bytes e ++ all_bytes es

pub length-entry_bytes : (e : Entry) → length (entry_bytes e) ≡ size_of e
unfolding le_bytes
length-entry_bytes (profile v) = refl
length-entry_bytes (item8 id v) = refl
length-entry_bytes (item16 id v) = refl
length-entry_bytes (item32 id v) = refl
length-entry_bytes (text id s) = omega arith

append-some :
    (p : Packet) (bs : List ℕ)
    → length p.bytes + length bs ≤ p.room
    → append p bs ≡ some (record { room = p.room; bytes = p.bytes ++ bs })
append-some p bs h = ground arith

serialise-some :
    (p : Packet) (e : Entry)
    → IsFit e
    → length p.bytes + size_of e ≤ p.room
    → serialise p e ≡ some (record { room = p.room; bytes = p.bytes ++ entry_bytes e })
unfolding serialise8 serialise16 serialise32 serialise_string le_bytes
serialise-some p (profile v) h hr =
    rw (type_byte 0 63 refl (omega arith)) (append-some p (63 ∷ (v % 256 ∷ [])) hr)
serialise-some p (item8 id v) (h, k) hr =
    let e : bit_or 0 id ≡ id = type_byte 0 id refl (omega arith) ∙ omega arith in
    rw e (append-some p (id ∷ (v % 256 ∷ [])) hr)
serialise-some p (item16 id v) (h, k) hr =
    rw (type_byte 64 id refl (omega arith)) (append-some p ((64 + id) ∷ le_bytes 2 v) hr)
serialise-some p (item32 id v) (h, k) hr =
    rw (type_byte 128 id refl (omega arith)) (append-some p ((128 + id) ∷ le_bytes 4 v) hr)
serialise-some p (text id s) (h, k) hr =
    let t : ltb (length s) 256 ≡ true = ground arith in
    rw (type_byte 192 id refl (omega arith), t)
      (append-some p ((192 + id) ∷ (length s ∷ s)) (omega arith))

pub serialise_all-some :
    (es : List Entry) (p : Packet)
    → AreFit es
    → length p.bytes + total_size es ≤ p.room
    → serialise_all p es ≡ some (record { room = p.room; bytes = p.bytes ++ all_bytes es })
unfolding serialise_all
serialise_all-some [] p h hr =
    ap (λ bs. some (record { room = p.room; bytes = bs })) (sym (append-nil p.bytes))
serialise_all-some (e ∷ es) p (h, k) hr =
    let q : Packet = record { room = p.room; bytes = p.bytes ++ entry_bytes e } in
    let fits : length q.bytes + total_size es ≤ p.room =
      omega (arith, length-append p.bytes (entry_bytes e), length-entry_bytes e) in
    rw (serialise-some p e h (omega arith)) (
      serialise_all-some es q k fits
      ∙ ap (λ bs. some (record { room = p.room; bytes = bs }))
          (append_assoc p.bytes (entry_bytes e) (all_bytes es)))
