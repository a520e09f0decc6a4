-- ===== src/ControlValues.antt =====
-- src/common/control_values.cpp and src/client/controlvalues.cpp: the allow-list of control requests, once
-- for each side. An empty error text is `none`.
mod Table
pub mod Allowed
pub mod Client
use air_ctrl_desklet.Prelude.{
  ℕ, ◌*◌, ◌^◌, ◌%◌, Bool, true, false, not, ◌&&◌, ◌||◌, [], ◌∷◌, Option, none, some, String, ◌==◌,
  if◌then◌else◌, nat_eq, string_eq, leb, concat,
}
use air_ctrl_desklet.Json.{
  Json, integer, floating, object, Fields, end, field, Double, int_double, is_number, is_string,
  is_boolean, is_text,
}

-- `number == k.0`
abbrev pub number_is : Double → ℕ → Bool
number_is d k = (d.magnitude == k * 2 ^ d.scale) && (not d.negative || k == 0)

-- `number >= 0.0 && number <= k.0 && number == static_cast<double>(static_cast<int>(number))`
abbrev pub is_count_upto : Double → ℕ → Bool
is_count_upto d k =
    (not d.negative || d.magnitude == 0)
    && leb d.magnitude (k * 2 ^ d.scale)
    && (d.magnitude % 2 ^ d.scale == 0)

abbrev pub number_test : (Double → Bool) → Json → Bool
number_test p (integer i) = p (int_double i)
number_test p (floating d) = p d
number_test p _ = false

-- The disjunction of control_values.cpp for one entry.
unfoldable pub is_valid : String → Json → Bool
is_valid key value =
    (key == "pwr" && is_string value && (is_text value "0" || is_text value "1"))
    || (key == "cl" && is_boolean value)
    || (key == "mode"
        && is_string value
        && (is_text value "P" || is_text value "A" || is_text value "S" || is_text value "M"))
    || (key == "om"
        && is_string value
        && (is_text value "1"
            || is_text value "2"
            || is_text value "3"
            || is_text value "s"
            || is_text value "t"))
    || (key == "func" && is_string value && (is_text value "P" || is_text value "PH"))
    || (key == "uil" && is_string value && (is_text value "0" || is_text value "1"))
    || (key == "rhset"
        && number_test (λ d. number_is d 40 || number_is d 50 || number_is d 60 || number_is d 70)
            value)
    || (key == "aqil"
        && number_test
            (λ d.
              number_is d 0
              || number_is d 25
              || number_is d 50
              || number_is d 75
              || number_is d 100)
            value)
    || (key == "dt" && number_test (λ d. is_count_upto d 12) value)

abbrev pub same : Bool → Bool → Bool
same true b = b
same false b = not b

abbrev pub empty_error : String
empty_error = "Leerer Steuerauftrag."

abbrev pub mixed_error : String
mixed_error = "Ein Steuerauftrag darf Ganzzahlen nicht mit Text- oder Boolean-Werten mischen."

-- The loop over the entries; `numbers` is what the first entry is.
unfoldable pub check_entries : Bool → Fields → Option String
check_entries numbers end = none
check_entries numbers (field key value rest) =
    let more = check_entries numbers rest in
    if not (is_valid key value)
    then some (concat ("Ungültiger Steuerwert: " ∷ key ∷ []))
    else if not (same (is_number value) numbers)
    then some mixed_error
    else more

unfoldable pub control_values_error : Json → Option String
control_values_error (object (field key value rest)) =
    check_entries (is_number value) (field key value rest)
control_values_error _ = some empty_error
