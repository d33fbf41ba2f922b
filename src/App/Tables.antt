-- ===== src/App/Tables.antt =====
-- The conversion tables of lib/tinyapp.c, without the terminators of the item tables.
use Prim.Native.String.{String}
use tinyhan.Base.{List, [], ◌∷◌}

-- `tinyapp_type_t`
pub data ItemType : Type 0 where
  unsigned signed single_float double_float string binary : ItemType

-- `tinyapp_item_info_t`
pub record ItemInfo : Type 0 where
  pub tag : String
  pub type : ItemType

abbrev item : String → ItemType → ItemInfo
item tag type = record { tag = tag; type = type }

abbrev pub item_info_status : List ItemInfo
item_info_status =
    item "battery" ItemType.unsigned
    ∷ item "runtime" ItemType.unsigned
    ∷ item "coord_rssi" ItemType.signed
    ∷ []

abbrev pub item_info_devinfo : List ItemInfo
item_info_devinfo =
    item "type" ItemType.unsigned
    ∷ item "name" ItemType.string
    ∷ item "update_rate" ItemType.unsigned
    ∷ []

abbrev pub item_info_generic : List ItemInfo
item_info_generic =
    item "ana0" ItemType.signed
    ∷ item "ana1" ItemType.signed
    ∷ item "ana2" ItemType.signed
    ∷ item "ana3" ItemType.signed
    ∷ item "ana4" ItemType.signed
    ∷ item "ana5" ItemType.signed
    ∷ item "ana6" ItemType.signed
    ∷ item "ana7" ItemType.signed
    ∷ item "digin" ItemType.unsigned
    ∷ item "digout" ItemType.unsigned
    ∷ item "floattest" ItemType.single_float
    ∷ item "doubletest" ItemType.double_float
    ∷ []

abbrev pub item_info_env : List ItemInfo
item_info_env =
    item "temperature" ItemType.signed
    ∷ item "rh" ItemType.unsigned
    ∷ item "visible_lux" ItemType.unsigned
    ∷ item "uv_lux" ItemType.unsigned
    ∷ item "ir_lux" ItemType.unsigned
    ∷ item "ph" ItemType.signed
    ∷ item "level" ItemType.signed
    ∷ item "wind_speed_avg" ItemType.unsigned
    ∷ item "wind_speed_gust" ItemType.unsigned
    ∷ item "wind_direction" ItemType.unsigned
    ∷ item "rainfall" ItemType.unsigned
    ∷ item "pressure" ItemType.signed
    ∷ item "spl_rms" ItemType.signed
    ∷ item "spl_peak" ItemType.signed
    ∷ []

abbrev pub item_info_hvac : List ItemInfo
item_info_hvac =
    item "temperature" ItemType.signed
    ∷ item "target" ItemType.signed
    ∷ item "heat_demand" ItemType.unsigned
    ∷ item "cool_demand" ItemType.unsigned
    ∷ item "flow_temp" ItemType.signed
    ∷ item "return_temp" ItemType.signed
    ∷ item "fan_speed" ItemType.unsigned
    ∷ item "burner_power" ItemType.unsigned
    ∷ []

abbrev pub item_info_energy : List ItemInfo
item_info_energy = []

abbrev pub item_info_ha : List ItemInfo
item_info_ha = []

-- `tinyapp_profile_tags`
abbrev pub profile_tags : List String
profile_tags = "status" ∷ "info" ∷ "generic" ∷ "env" ∷ "hvac" ∷ "energy" ∷ "ha" ∷ []

-- `tinyapp_profile_items`
abbrev pub profile_items : List (List ItemInfo)
profile_items =
    item_info_status ∷ item_info_devinfo ∷ item_info_generic ∷ item_info_env ∷ item_info_hvac
    ∷ item_info_energy ∷ item_info_ha ∷ []
