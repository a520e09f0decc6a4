-- ===== src/ControlValues/Client.antt =====
-- src/client/controlvalues.cpp: the desklet's copy of the allow-list, written with Qt's defaulting
-- conversions and string lists, and the proof that it refuses what the server refuses.
use air_ctrl_desklet.Prelude.{
  ◌≡◌, refl, Bool, true, false, not, ◌&&◌, ◌||◌, List, [], ◌∷◌, Option, none, some, String, ◌==◌,
  arith, if◌then◌else◌, nat_eq, string_eq, any, concat,
}
use air_ctrl_desklet.Json.{
  Json, null, boolean, integer, floating, string, array, object, Fields, end, field, Double,
  int_double, is_number, is_string, is_boolean,
}
use air_ctrl_desklet.ControlValues.{
  number_is, is_count_upto, is_valid, same, empty_error, mixed_error, check_entries,
  control_values_error,
}

-- QJsonValue::toString()
abbrev pub to_text : Json → String
to_text (string s) = s
to_text _ = ""

-- QJsonValue::toDouble(-1)
abbrev pub to_double : Json → Double
to_double (integer i) = int_double i
to_double (floating d) = d
to_double _ = record { negative = true; magnitude = 1; scale = 0 }

-- QStringList::contains
abbrev pub contains : List String → String → Bool
contains texts text = any (λ t. t == text) texts

unfoldable pub is_valid_client : String → Json → Bool
is_valid_client key value =
    let text = to_text value in
    let number = to_double value in
    (key == "pwr" && is_string value && (text == "0" || text == "1"))
    || (key == "cl" && is_boolean value)
    || (key == "mode" && is_string value && contains ("P" ∷ "A" ∷ "S" ∷ "M" ∷ []) text)
    || (key == "om" && is_string value && contains ("1" ∷ "2" ∷ "3" ∷ "s" ∷ "t" ∷ []) text)
    || (key == "func" && is_string value && (text == "P" || text == "PH"))
    || (key == "uil" && is_string value && (text == "0" || text == "1"))
    || (key == "rhset"
        && is_number value
        && (number_is number 40
            || number_is number 50
            || number_is number 60
            || number_is number 70))
    || (key == "aqil"
        && is_number value
        && (number_is number 0
            || number_is number 25
            || number_is number 50
            || number_is number 75
            || number_is number 100))
    || (key == "dt" && is_number value && is_count_upto number 12)

unfoldable pub check_entries_client : Bool → Fields → Option String
check_entries_client integers end = none
check_entries_client integers (field key value rest) =
    let more = check_entries_client integers rest in
    if not (is_valid_client key value)
    then some (concat ("Ungültiger Steuerwert: " ∷ key ∷ []))
    else if not (same (is_number value) integers)
    then some mixed_error
    else more

-- controlValuesError of the client, over a QJsonObject.
unfoldable pub control_values_error_client : Fields → Option String
control_values_error_client end = some empty_error
control_values_error_client (field key value rest) =
    check_entries_client (is_number value) (field key value rest)

text_beq_comm : (s t : String) → (s == t) ≡ (t == s)
text_beq_comm s t = ground (arith, string_eq.test_iff s t, string_eq.test_iff t s)

and_true : (b : Bool) → b && true ≡ b
and_true true = refl
and_true false = refl

and_assoc : (a b c : Bool) → a && b && c ≡ a && (b && c)
and_assoc true b c = refl
and_assoc false b c = refl

or_assoc : (a b c : Bool) → a || b || c ≡ a || (b || c)
or_assoc true b c = refl
or_assoc false b c = refl

and_false : (b : Bool) → b && false ≡ false
and_false true = refl
and_false false = refl

or_false : (b : Bool) → b || false ≡ b
or_false true = refl
or_false false = refl

ruleset bool_laws = (and_false, and_true, or_false, and_assoc, or_assoc)

is_valid_client-eq : (key : String) (v : Json) → is_valid_client key v ≡ is_valid key v
unfolding is_valid is_valid_client
is_valid_client-eq key (string s) = simp (
  bool_laws,
  text_beq_comm "P" s,
  text_beq_comm "A" s,
  text_beq_comm "S" s,
  text_beq_comm "M" s,
  text_beq_comm "1" s,
  text_beq_comm "2" s,
  text_beq_comm "3" s,
  text_beq_comm "s" s,
  text_beq_comm "t" s,
)
is_valid_client-eq key null = simp bool_laws
is_valid_client-eq key (boolean b) = simp bool_laws
is_valid_client-eq key (integer i) = simp bool_laws
is_valid_client-eq key (floating d) = simp bool_laws
is_valid_client-eq key (array xs) = simp bool_laws
is_valid_client-eq key (object fs) = simp bool_laws

check_entries_client-eq :
    (numbers : Bool) (fs : Fields) → check_entries_client numbers fs ≡ check_entries numbers fs
unfolding check_entries check_entries_client
check_entries_client-eq numbers end = refl
check_entries_client-eq numbers (field key value rest) =
    rw (is_valid_client-eq key value, check_entries_client-eq numbers rest)

-- Desklet and server give the same answer, with the same message, on every request: what the desklet
-- lets through is never refused by the server for its values, and the other way round.
pub control_values_error_client-eq :
    (fs : Fields) → control_values_error_client fs ≡ control_values_error (object fs)
unfolding control_values_error control_values_error_client
control_values_error_client-eq end = refl
control_values_error_client-eq (field key value rest) =
    check_entries_client-eq (is_number value) (field key value rest)
