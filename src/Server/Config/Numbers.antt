-- ===== src/Server/Config/Numbers.antt =====
-- parseInteger and parseBoolean (src/server/server.cpp).
use air_ctrl_desklet.Prelude.{
  ℕ, ◌+◌, ◌*◌, ◌-◌, Bool, true, false, ◌&&◌, ◌||◌, List, [], ◌∷◌, Option, none, some, ◌==◌,
  if◌then◌else◌, nat_eq, leb, codes, same_bytes,
}
pub mod Printed

abbrev pub is_digit : ℕ → Bool
is_digit b = leb b'0' b && leb b b'9'

-- The value of a text of digits, behind those that were read.
unfoldable pub digits_value : ℕ → List ℕ → Option ℕ
digits_value value [] = some value
digits_value value (b ∷ text) =
    let rest = digits_value (value * 10 + (b - b'0')) text in if is_digit b then rest else none

-- std::from_chars into an int, of a text that it takes whole: at least one digit, and no overflow.
-- A number below zero, but for "-0", is below every minimum that the program asks for.
abbrev pub from_digits : List ℕ → Option ℕ
unfolding digits_value
from_digits [] = none
from_digits (b ∷ text) = digits_value 0 (b ∷ text)

abbrev pub below : ℕ → Option ℕ → Option ℕ
below limit none = none
below limit (some n) = if leb n limit then some n else none

abbrev zero_only : Option ℕ → Option ℕ
zero_only none = none
zero_only (some n) = if n == 0 then some 0 else none

unfoldable pub from_chars : List ℕ → Option ℕ
unfolding digits_value
from_chars [] = none
from_chars (b ∷ text) =
    if b == b'-' then zero_only (from_digits text) else below 2147483647 (from_digits (b ∷ text))

abbrev pub within : ℕ → ℕ → Option ℕ → Option ℕ
within minimum maximum none = none
within minimum maximum (some n) = if leb minimum n && leb n maximum then some n else none

-- parseInteger; `none` is its false. The limits are not negative.
unfoldable pub parse_integer : List ℕ → ℕ → ℕ → Option ℕ
unfolding from_chars
parse_integer text minimum maximum = within minimum maximum (from_chars text)

unfoldable pub parse_boolean : List ℕ → Option Bool
parse_boolean text =
    if same_bytes text (codes "true")
      || same_bytes text (codes "1")
      || same_bytes text (codes "yes")
    then some true
    else if same_bytes text (codes "false")
        || same_bytes text (codes "0")
        || same_bytes text (codes "no")
    then some false
    else none
