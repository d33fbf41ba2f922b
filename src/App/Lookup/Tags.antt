-- ===== src/App/Lookup/Tags.antt =====
-- Looking up tags in lib/tinyapp.c.
use Prim.Native.Char.{code}
use Prim.Native.String.{String}
use mathlib.Core.Path.{subst}
use tinyhan.Base.{
  ap, ℕ, zero, suc, ◌+◌, ◌≡◌, refl, ◌∙◌, Bool, true, false, ◌&&◌, not, some, List, [], ◌∷◌, leb,
  ◌==◌, arith, if◌then◌else◌, Option-cases, inl, inr,
}
use tinyhan.Base.Int.{ℤ, pos}
use tinyhan.App.Tables.{ItemInfo, profile_tags, profile_items}
use tinyhan.App.Lookup.{
  null, item_at, is_zero, nth, tags_of, find_tag, get_profile_id, get_profile_tag, table_of,
  get_item_id, pointer, get_item_info,
}

-- A letter in lower case, and a tag without regard to case.
abbrev pub to_lower : ℕ → ℕ
to_lower c = if leb 65 c && leb c 90 then c + 32 else c

abbrev pub folded : String → List ℕ
folded String.[] = []
folded (String.◌∷◌ c s) = to_lower (code c) ∷ folded s

abbrev pub same_codes : List ℕ → List ℕ → Bool
same_codes [] [] = true
same_codes [] (c ∷ cs) = false
same_codes (c ∷ cs) [] = false
same_codes (c ∷ cs) (b ∷ bs) = c == b && same_codes cs bs

-- The documented behaviour of `strcasecmp`: 0 on texts that differ in the case of letters only.
abbrev pub IsStrcasecmp : (String → String → ℤ) → Type 0
IsStrcasecmp strcasecmp =
    (a b : String) → is_zero (strcasecmp a b) ≡ same_codes (folded a) (folded b)

same_codes_self : (cs : List ℕ) → same_codes cs cs ≡ true
same_codes_self [] = refl
same_codes_self (c ∷ cs) = ground (arith, same_codes_self cs)

-- No tag of the list is this one, without regard to case; no two of the list are.
abbrev none_like : String → List String → Bool
none_like t [] = true
none_like t (u ∷ us) = not (same_codes (folded u) (folded t)) && none_like t us

abbrev distinct : List String → Bool
distinct [] = true
distinct (t ∷ ts) = none_like t ts && distinct ts

and_true : (a b : Bool) → a && b ≡ true → (a ≡ true) × (b ≡ true)
and_true true b h = (refl, h)
and_true false b h = absurd (cc)

not-true : (a : Bool) → not a ≡ true → a ≡ false
not-true true h = absurd (cc)
not-true false h = refl

nth_unlike :
    (ts : List String) (t u : String) (i : ℕ)
    → none_like t ts ≡ true
    → nth ts i ≡ some u
    → same_codes (folded u) (folded t) ≡ false
nth_unlike [] t u i h e = absurd (cc)
nth_unlike (x ∷ ts) t u zero h e =
    let (a, b) = and_true (not (same_codes (folded x) (folded t))) (none_like t ts) h in
    let q : x ≡ u = cc in
    subst (λ y. same_codes (folded y) (folded t) ≡ false) q
      (not-true (same_codes (folded x) (folded t)) a)
nth_unlike (x ∷ ts) t u (suc i) h e =
    nth_unlike ts t u i (and_true (not (same_codes (folded x) (folded t))) (none_like t ts) h).1 e

find_tag-nth :
    (strcasecmp : String → String → ℤ) (ts : List String) (t : String) (i n : ℕ)
    → IsStrcasecmp strcasecmp
    → distinct ts ≡ true
    → nth ts i ≡ some t
    → find_tag strcasecmp t ts n ≡ some (n + i)
unfolding find_tag
find_tag-nth cmp [] t i n d hd h = absurd (cc)
find_tag-nth cmp (x ∷ ts) t zero n d hd h =
    let q : x ≡ t = cc in
    let here : is_zero (cmp t x) ≡ true =
      d t x ∙ ap (λ y. same_codes (folded t) (folded y)) q ∙ same_codes_self (folded t) in
    rw (here, find_tag) (ap some (omega arith))
find_tag-nth cmp (x ∷ ts) t (suc i) n d hd h =
    let (unlike, hd') = and_true (none_like x ts) (distinct ts) hd in
    let here : is_zero (cmp t x) ≡ false = d t x ∙ nth_unlike ts x t i unlike h in
    rw (here, find_tag) (find_tag-nth cmp ts t i (n + 1) d hd' h ∙ ap some (omega arith))

-- With the documented behaviour of `strcasecmp`, the tag of every profile that has one is looked up to this
-- profile.
pub get_profile_id-get_profile_tag :
    (strcasecmp : String → String → ℤ) (profile : ℕ) (tag : String)
    → IsStrcasecmp strcasecmp
    → get_profile_tag profile ≡ some tag
    → get_profile_id strcasecmp tag ≡ pos profile
unfolding get_profile_id get_profile_tag
get_profile_id-get_profile_tag cmp profile tag d h =
    rw (find_tag-nth cmp profile_tags tag profile 0 d refl h) (ap pos (omega arith))

-- All tables have distinct tags.
abbrev all_distinct : List (List ItemInfo) → Bool
all_distinct [] = true
all_distinct (is ∷ tables) = distinct (tags_of is) && all_distinct tables

distinct_at :
    (tables : List (List ItemInfo)) (i : ℕ) (items : List ItemInfo)
    → all_distinct tables ≡ true
    → nth tables i ≡ some items
    → distinct (tags_of items) ≡ true
distinct_at [] i items h e = absurd (cc)
distinct_at (x ∷ tables) zero items h e =
    let q : x ≡ items = cc in
    subst (λ y. distinct (tags_of y) ≡ true) q
      (and_true (distinct (tags_of x)) (all_distinct tables) h).0
distinct_at (x ∷ tables) (suc i) items h e =
    distinct_at tables i items (and_true (distinct (tags_of x)) (all_distinct tables) h).1 e

nth-pointer :
    (items : List ItemInfo) (n : ℕ) (info : ItemInfo)
    → pointer items n ≡ item_at info
    → nth (tags_of items) n ≡ some info.tag
nth-pointer [] zero info h = absurd (cc)
nth-pointer [] (suc n) info h = absurd (cc)
nth-pointer (x ∷ items) zero info h = let q : x ≡ info = cc in ap (λ (y : ItemInfo). some y.tag) q
nth-pointer (x ∷ items) (suc n) info h = nth-pointer items n info h

-- With the documented behaviour of `strcasecmp`, whenever a profile and an item identifier point at an entry
-- of a table, that entry's tag is looked up, in this profile, to the item's identifier, although tags
-- are compared without regard to case.
pub get_item_id-get_item_info :
    (strcasecmp : String → String → ℤ) (profile item : ℕ) (info : ItemInfo)
    → IsStrcasecmp strcasecmp
    → get_item_info profile item ≡ item_at info
    → get_item_id strcasecmp profile info.tag ≡ pos item
unfolding get_item_id get_item_info
get_item_id-get_item_info cmp profile item info d h = elim (Option-cases (table_of profile)) [
  | inl e ↦ let no : null ≡ item_at info = rw (e, get_item_info) at h in absurd (cc)
  | inr (items, e) ↦
      let here : pointer items item ≡ item_at info = rw (e, get_item_info) at h in
      let unlike = distinct_at profile_items profile items refl e in
      let found =
        find_tag-nth cmp (tags_of items) info.tag item 0 d unlike
          (nth-pointer items item info here) in
      rw (e, get_item_id, found) (ap pos (omega arith))
]
