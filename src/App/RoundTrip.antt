-- ===== src/App/RoundTrip.antt =====
-- What the serialisation functions of lib/tinyapp.c write is what `tinyapp_deserialise` delivers.
use tinyhan.Base.{
  ap, ℕ, zero, suc, ◌+◌, ◌/◌, ◌%◌, ◌≤◌, ◌<◌, ◌≡◌, refl, ◌∙◌, false, some, List, [], ◌∷◌, ◌++◌,
  arith, length, length-append, ◌==◌, drop, take-length-append,
}
use tinyhan.Base.Bytes.{le_bytes}
use tinyhan.App.Packet.{init, items_from, deserialise}
use tinyhan.App.Entries.{
  Entry, profile, item8, item16, item32, text, serialise_all, AreFit, size_of, total_size, calls,
  entry_bytes, all_bytes, length-entry_bytes, serialise_all-some,
}

drop-length-append : (xs ys : List ℕ) → drop (length xs) (xs ++ ys) ≡ ys
drop-length-append [] ys = refl
drop-length-append (x ∷ xs) ys = drop-length-append xs ys

size_of-pos : (e : Entry) → 0 < size_of e
size_of-pos (profile v) = omega arith
size_of-pos (item8 id v) = omega arith
size_of-pos (item16 id v) = omega arith
size_of-pos (item32 id v) = omega arith
size_of-pos (text id s) = omega arith

not_profile : (id : ℕ) → id < 63 → (id == 63) ≡ false
not_profile id h = ground arith

items_from-all_bytes :
    (es : List Entry) (fuel p : ℕ)
    → AreFit es
    → length (all_bytes es) ≤ fuel
    → items_from fuel p (all_bytes es) ≡ calls p es
unfolding items_from le_bytes
items_from-all_bytes [] zero p h hf = refl
items_from-all_bytes [] (suc fuel) p h hf = refl
items_from-all_bytes (e ∷ es) zero p h hf = absurd (
    omega
      (arith, length-append (entry_bytes e) (all_bytes es), length-entry_bytes e, size_of-pos e))
items_from-all_bytes (profile v ∷ es) (suc fuel) p (h, k) hf =
    ap (λ q. items_from fuel q (all_bytes es)) {x = v % 256} {y = v} (omega arith)
    ∙ items_from-all_bytes es fuel v k (omega arith)
items_from-all_bytes (item8 id v ∷ es) (suc fuel) p ((h, b), k) hf =
    let c : id / 64 ≡ 0 = omega arith in
    let d : id % 64 ≡ id = omega arith in
    let rec_call = items_from-all_bytes es fuel p k (omega arith) in
    rw (c, d, not_profile id h)
      (λ i. record { profile = p; item = id; value = le_bytes 1 v; len = 1 } ∷ rec_call i)
items_from-all_bytes (item16 id v ∷ es) (suc fuel) p ((h, b), k) hf =
    let c : (64 + id) / 64 ≡ 1 = omega arith in
    let d : (64 + id) % 64 ≡ id = omega arith in
    let rec_call = items_from-all_bytes es fuel p k (omega arith) in
    rw (c, d, not_profile id h)
      (λ i. record { profile = p; item = id; value = le_bytes 2 v; len = 2 } ∷ rec_call i)
items_from-all_bytes (item32 id v ∷ es) (suc fuel) p ((h, b), k) hf =
    let c : (128 + id) / 64 ≡ 2 = omega arith in
    let d : (128 + id) % 64 ≡ id = omega arith in
    let rec_call = items_from-all_bytes es fuel p k (omega arith) in
    rw (c, d, not_profile id h)
      (λ i. record { profile = p; item = id; value = le_bytes 4 v; len = 4 } ∷ rec_call i)
items_from-all_bytes (text id s ∷ es) (suc fuel) p ((h, b), k) hf =
    let c : (192 + id) / 64 ≡ 3 = omega arith in
    let d : (192 + id) % 64 ≡ id = omega arith in
    let rec_call =
      items_from-all_bytes es fuel p k (omega (arith, length-append s (all_bytes es))) in
    rw
      (
        c,
        d,
        not_profile id h,
        take-length-append s (all_bytes es),
        drop-length-append s (all_bytes es),
      )
      (λ i. record { profile = p; item = id; value = s; len = length s } ∷ rec_call i)

-- Entries whose ids, values and strings fit, and for which there is room behind the flags byte, are all
-- serialised, each behind the one before it, and the bytes deserialise to one call for each item, in
-- order, with its value and length and with the profile that was last chosen before it.
pub deserialise-serialise_all :
    (flags room : ℕ) (es : List Entry)
    → AreFit es
    → 1 + total_size es ≤ room
    → (serialise_all (init flags room) es
        ≡ some (record { room = room; bytes = flags ∷ all_bytes es }))
      × (deserialise (flags ∷ all_bytes es) ≡ calls 0 es)
unfolding init deserialise
deserialise-serialise_all flags room es h hr = (
  serialise_all-some es (record { room = room; bytes = flags ∷ [] }) h hr,
  items_from-all_bytes es (suc (length (all_bytes es))) 0 h (omega arith),
)
