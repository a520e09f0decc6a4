-- ===== src/Automation/Alerts.antt =====
-- isAc2729, integerValue and the alert list of publishDeviceAlerts (src/server/automation.cpp).
use air_ctrl_desklet.Prelude.{
  ℕ, ◌-◌, ◌*◌, ◌/◌, ◌%◌, ◌^◌, Bool, true, false, not, ◌&&◌, ◌||◌, List, [], ◌∷◌, ◌++◌, map, Option,
  none, some, String, ◌==◌, if◌then◌else◌, nat_eq, string_eq, leb, concat,
}
use mathlib.Core.Option
use Prim.Native.String.{compare}
use Prim.Native.Nat.{Ordering}
use air_ctrl_desklet.Prelude.Int.{ℤ, pos, negsuc}
use air_ctrl_desklet.Json.{Json, integer, floating, string, Double, int_double, find, is_text}
use air_ctrl_desklet.Automation.Types.{Env}
use air_ctrl_desklet.Automation.Schedule.{bytes_beq}

abbrev pub to_upper : ℕ → ℕ
to_upper b = if leb b'a' b && leb b b'z' then b - 32 else b

abbrev ac2729 : List ℕ
ac2729 = b'A' ∷ b'C' ∷ b'2' ∷ b'7' ∷ b'2' ∷ b'9' ∷ []

abbrev pub starts_with : List ℕ → List ℕ → Bool
starts_with [] bytes = true
starts_with (p ∷ ps) [] = false
starts_with (p ∷ ps) (b ∷ bs) = p == b && starts_with ps bs

-- An integral double of at most a million, as an int.
unfoldable pub integral : Double → Option ℤ
integral d =
    let size = d.magnitude / 2 ^ d.scale in
    if d.magnitude % 2 ^ d.scale == 0 && leb d.magnitude (1000000 * 2 ^ d.scale)
    then some (if d.negative && not (size == 0) then negsuc (size - 1) else pos size)
    else none

-- Whether a value denotes the given natural number.
abbrev pub equals : Option ℤ → ℕ → Bool
equals (some (pos n)) k = n == k
equals _ k = false

pub record DeviceAlert : Type 0 where
  pub id : String
  pub is_error : Bool
  pub message : String

module _ {S : Type 0} (env : Env S) where
  unfoldable pub integer_value : Option Json → Option ℤ
  unfolding integral
  integer_value (some (integer i)) = integral (int_double i)
  integer_value (some (floating d)) = integral d
  integer_value (some (string s)) = elim (env.whole_double s) [ none ↦ none | some d ↦ integral d ]
  integer_value _ = none

  abbrev is_model : List ℕ → Bool
  is_model model =
      bytes_beq (map to_upper model) ac2729
      || starts_with (ac2729 ++ b'/' ∷ []) (map to_upper model)

  abbrev type_is_ac2729 : Option Json → Bool
  type_is_ac2729 (some (string s)) = bytes_beq (map to_upper (env.bytes s)) ac2729
  type_is_ac2729 _ = false

  unfoldable pub is_ac2729 : Json → Bool
  is_ac2729 status = elim (find "modelid" status) [
    | some (string model) ↦
        if model == "" then type_is_ac2729 (find "type" status) else is_model (env.bytes model)
    | _ ↦ type_is_ac2729 (find "type" status)
  ]

  -- The notice of one filter counter, if its hours are in the last 120.
  unfoldable pub filter_alert : Json → String → String → String → List DeviceAlert
  unfolding integer_value
  filter_alert status tag id label = elim (integer_value (find tag status)) [
    | some (pos hours) ↦
        if leb hours 120
        then record {
          id = id;
          is_error = hours == 0;
          message = concat (
              (if hours == 0 then "Filterwechsel fällig: " else "Filterwechsel vorbereiten: ")
              ∷ label
              ∷ " · "
              ∷ env.number_text hours
              ∷ " Betriebsstunden Rest ("
              ∷ tag
              ∷ ")"
              ∷ []);
        }
          ∷ []
        else []
    | _ ↦ []
  ]

  unfoldable pub water_alert : Json → List DeviceAlert
  unfolding integer_value
  water_alert status =
      if is_text_at (find "func" status)
        && (equals (integer_value (find "wl" status)) 0
            || equals (integer_value (find "err" status)) 49408)
      then record {
        id = "device-water";
        is_error = false;
        message = "Wasser nachfüllen: wl=0 oder bekannter Leerstandscode 49408";
      }
        ∷ []
      else []
    where
      is_text_at : Option Json → Bool
      is_text_at none = false
      is_text_at (some v) = is_text v "PH"

  unfoldable pub clean_alert : Json → List DeviceAlert
  unfolding integer_value
  clean_alert status =
      if equals (integer_value (find "fltsts0" status)) 0
        || equals (integer_value (find "err" status)) 49153
        || equals (integer_value (find "err" status)) 49155
      then record {
        id = "device-clean";
        is_error = false;
        message = "Reinigung fällig: Vorfilter / Befeuchtungselement";
      }
        ∷ []
      else []

  -- `status.value("pwr", std::string{}) == "1"`; `none` where the value is no text, and nlohmann/json
  -- throws, which nobody catches.
  abbrev pub power_is_on : Option Json → Option Bool
  power_is_on none = some false
  power_is_on (some (string s)) = some (s == "1")
  power_is_on (some v) = none

  abbrev model_alerts : Json → List DeviceAlert
  unfolding filter_alert water_alert clean_alert
  model_alerts status =
      filter_alert status "fltsts1" "device-filter-hepa" "A3 · HEPA-Filter"
      ++ (filter_alert status "fltsts2" "device-filter-carbon" "C7 · Aktivkohlefilter"
          ++ (filter_alert status "wicksts" "device-filter-wick" "F1 · Befeuchtungsdocht"
              ++ (water_alert status ++ clean_alert status)))

  -- The alerts of a status, or `none` for the uncaught exception.
  unfoldable pub device_alerts : Json → Option (List DeviceAlert)
  unfolding is_ac2729 filter_alert water_alert clean_alert
  device_alerts status =
      if is_ac2729 status
      then Option.map (λ on. if on then model_alerts status else [])
          (power_is_on (find "pwr" status))
      else some []

-- std::sort of the parts of the digest.
unfoldable pub insert_sorted : String → List String → List String
insert_sorted t [] = t ∷ []
insert_sorted t (u ∷ us) = elim (compare u t) [
  | Ordering.lt ↦ u ∷ insert_sorted t us
  | _ ↦ t ∷ u ∷ us
]

-- The sorted parts, each an identity and a level.
unfoldable pub digest : List DeviceAlert → List String
unfolding insert_sorted
digest [] = []
digest (a ∷ rest) =
    insert_sorted (concat (a.id ∷ ":" ∷ (if a.is_error then "error" else "warning") ∷ []))
      (digest rest)

unfoldable pub highest : List DeviceAlert → String
highest [] = "none"
highest (a ∷ rest) =
    if a.is_error then "error" else if highest rest == "error" then "error" else "warning"
