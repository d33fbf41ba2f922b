-- ===== src/App/Fuel.antt =====
-- The loop of `tinyapp_deserialise` in lib/tinyapp.c ends on every packet.
use tinyhan.Base.{
  ℕ, zero, suc, ◌/◌, ◌%◌, ◌≤◌, ◌≡◌, refl, List, [], ◌∷◌, arith, length, length-drop, drop, take,
  get_or, ◌==◌, if_ind, if◌then◌else◌,
}
use tinyhan.App.Packet.{item_id_profile, value_of, items_from}

length-value_of :
    (type : ℕ) (rest : List ℕ)
    → length (drop (value_of type rest).0 (value_of type rest).1) ≤ length rest
length-value_of type rest =
    if_ind Shorter (type == 0) _ _ (λ _. omega (arith, length-drop 1 rest))
      (λ _.
        if_ind Shorter (type == 1) _ _ (λ _. omega (arith, length-drop 2 rest))
          (λ _.
            if_ind Shorter (type == 2) _ _ (λ _. omega (arith, length-drop 4 rest))
              (λ _.
                omega (arith, length-drop (get_or rest 0 0) (drop 1 rest), length-drop 1 rest))))
  where
    Shorter : ℕ × List ℕ → Type 0
    Shorter x = length (drop x.0 x.1) ≤ length rest

-- A round of the loop for each byte of the packet is enough, whatever the bytes: more fuel delivers the
-- same items.
pub items_from_enough :
    (f g p : ℕ) (buf : List ℕ)
    → length buf ≤ f
    → length buf ≤ g
    → items_from f p buf ≡ items_from g p buf
unfolding items_from
items_from_enough zero zero p buf hf hg = refl
items_from_enough zero (suc g) p [] hf hg = refl
items_from_enough zero (suc g) p (b ∷ rest) hf hg = absurd (omega arith)
items_from_enough (suc f) zero p [] hf hg = refl
items_from_enough (suc f) zero p (b ∷ rest) hf hg = absurd (omega arith)
items_from_enough (suc f) (suc g) p [] hf hg = refl
items_from_enough (suc f) (suc g) p (b ∷ rest) hf hg =
    let id = b % 64 in
    let (len, ptr) = value_of (b / 64) rest in
    let p' = if id == item_id_profile then get_or ptr 0 0 else p in
    let bound = length-value_of (b / 64) rest in
    let same =
      items_from_enough f g p' (drop len ptr) (omega (arith, bound)) (omega (arith, bound)) in
    (λ i.
      if id == item_id_profile
      then same i
      else record { profile = p; item = id; value = take len ptr; len = len } ∷ same i)
