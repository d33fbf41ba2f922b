-- ===== src/App/Tests.antt =====
-- A packet of lib/tinyapp.c on which the theorems are run.
use Prim.Native.String.{String}
use tinyhan.Base.Int.{ℤ, pos}
use tinyhan.App.Tables.{ItemType}
use tinyhan.App.Lookup.{
  is_zero, item_at, find_tag, get_profile_id, get_profile_tag, get_item_id, get_item_info,
}
use tinyhan.App.Lookup.Tags.{IsStrcasecmp, folded, same_codes, get_item_id-get_item_info}
use tinyhan.Base.{some, refl, if_ind, if◌then◌else◌, sym, ◌≡◌, List, [], ◌∷◌, arith}
use tinyhan.App.Packet.{deserialise}
use tinyhan.App.Entries.{Entry, profile, item8, item16, text, all_bytes, calls}
use tinyhan.App.RoundTrip.{deserialise-serialise_all}

-- The name and the update rate of a node, and a temperature.
abbrev report : List Entry
report =
    profile 1 ∷ (text 1 (0x68 ∷ (0x69 ∷ [])) ∷ (item8 2 60 ∷ (profile 3 ∷ (item16 0 2150 ∷ []))))

deserialise-serialise_all_example : deserialise (0 ∷ all_bytes report) ≡ calls 0 report
deserialise-serialise_all_example =
    (deserialise-serialise_all 0 64 report
      (
        omega arith,
        (
          (omega arith, omega arith),
          ((omega arith, omega arith), (omega arith, ((omega arith, omega arith), tt))),
        ),
      )
      (omega arith)).1

-- A `strcasecmp`.
abbrev compare_tags : String → String → ℤ
compare_tags a b = if same_codes (folded a) (folded b) then pos 0 else pos 1

compare_tags-IsStrcasecmp : IsStrcasecmp compare_tags
compare_tags-IsStrcasecmp a b =
    if_ind (λ rc. is_zero rc ≡ same_codes (folded a) (folded b)) (same_codes (folded a) (folded b))
      (pos 0) (pos 1) (λ e. sym e) (λ e. sym e)

-- The profile of `tinyapp_profile_hvac_t`, and its item 6.
hvac_tag : get_profile_tag 4 ≡ some "hvac"
unfolding get_profile_tag
hvac_tag = refl

fan_speed_info :
    get_item_info 4 6 ≡ item_at (record { tag = "fan_speed"; type = ItemType.unsigned })
unfolding get_item_info
fan_speed_info = refl

get_item_id-get_item_info_example : get_item_id compare_tags 4 "fan_speed" ≡ pos 6
get_item_id-get_item_info_example =
    get_item_id-get_item_info compare_tags 4 6
      (record { tag = "fan_speed"; type = ItemType.unsigned }) compare_tags-IsStrcasecmp
      fan_speed_info

-- Case does not matter.
upper_case : get_profile_id compare_tags "HVAC" ≡ pos 4
unfolding get_profile_id find_tag
upper_case = refl
