-- ===== src/App/Lookup.antt =====
-- The table utilities of lib/tinyapp.c. `strcasecmp` is a parameter.
pub mod Tags
use Prim.Native.String.{String}
use tinyhan.Base.{
  ℕ, zero, suc, ◌+◌, Bool, true, false, Option, none, some, List, [], ◌∷◌, if◌then◌else◌,
}
use tinyhan.Base.Int.{ℤ, pos, negsuc}
use tinyhan.App.Tables.{ItemInfo, profile_tags, profile_items}

-- What `tinyapp_get_item_info` points at: nothing, an item, the entry at the end of a table, or what
-- lies behind it.
pub data ItemPointer : Type 0 where
  null : ItemPointer
  item_at : ItemInfo → ItemPointer
  terminator : ItemPointer
  outside : ItemPointer

abbrev pub is_zero : ℤ → Bool
is_zero (pos zero) = true
is_zero (pos (suc n)) = false
is_zero (negsuc n) = false

abbrev pub nth {ℓ} : {A : Type ℓ} → List A → ℕ → Option A
nth [] n = none
nth (x ∷ xs) zero = some x
nth (x ∷ xs) (suc n) = nth xs n

abbrev pub tags_of : List ItemInfo → List String
tags_of [] = []
tags_of (i ∷ is) = i.tag ∷ tags_of is

-- `return n` or `return -1`
abbrev pub found_or : Option ℕ → ℤ
found_or none = negsuc 0
found_or (some n) = pos n

-- The loops over the tags, from the index `n` on.
unfoldable pub find_tag : (String → String → ℤ) → String → List String → ℕ → Option ℕ
find_tag strcasecmp tag [] n = none
find_tag strcasecmp tag (t ∷ ts) n =
    let rest = find_tag strcasecmp tag ts (n + 1) in
    if is_zero (strcasecmp tag t) then some n else rest

-- `tinyapp_get_profile_id`
unfoldable pub get_profile_id : (String → String → ℤ) → String → ℤ
get_profile_id strcasecmp tag = found_or (find_tag strcasecmp tag profile_tags 0)

-- `tinyapp_get_profile_tag`
unfoldable pub get_profile_tag : ℕ → Option String
get_profile_tag profile = nth profile_tags profile

-- The item table of a profile, if there is one.
abbrev pub table_of : ℕ → Option (List ItemInfo)
table_of profile = nth profile_items profile

-- `tinyapp_get_item_id`
unfoldable pub get_item_id : (String → String → ℤ) → ℕ → String → ℤ
get_item_id strcasecmp profile tag = elim (table_of profile) [
  | none ↦ negsuc 0
  | some items ↦ found_or (find_tag strcasecmp tag (tags_of items) 0)
]

-- The entry of a table at an index.
abbrev pub pointer : List ItemInfo → ℕ → ItemPointer
pointer [] zero = terminator
pointer [] (suc n) = outside
pointer (i ∷ is) zero = item_at i
pointer (i ∷ is) (suc n) = pointer is n

-- `tinyapp_get_item_info`
unfoldable pub get_item_info : ℕ → ℕ → ItemPointer
get_item_info profile item = elim (table_of profile) [
  | none ↦ null
  | some items ↦ pointer items item
]
