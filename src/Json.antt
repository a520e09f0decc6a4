-- ===== src/Json.antt =====
-- JSON values as nlohmann/json and Qt hand them over, with the operations that the program uses.
use air_ctrl_desklet.Prelude.{
  ℕ, ◌+◌, ◌*◌, ◌^◌, Bool, true, false, not, ◌&&◌, ◌||◌, Option, none, some, String, ◌==◌,
  if◌then◌else◌, nat_eq, string_eq,
}
use air_ctrl_desklet.Prelude.Int.{ℤ, pos, negsuc}

-- A finite double: plus or minus magnitude / 2 ^ scale.
pub record Double : Type 0 where
  pub negative : Bool
  pub magnitude : ℕ
  pub scale : ℕ

-- The entries of an object stand in the order in which the program iterates over it.
mutual
  pub data Json : Type 0 where
    null : Json
    boolean : Bool → Json
    integer : ℤ → Json
    floating : Double → Json
    string : String → Json
    array : Items → Json
    object : Fields → Json

  pub data Items : Type 0 where
    nil : Items
    item : Json → Items → Items

  pub data Fields : Type 0 where
    end : Fields
    field : String → Json → Fields → Fields

-- The exact value of a number.
abbrev pub int_double : ℤ → Double
int_double (pos n) = record { negative = false; magnitude = n; scale = 0 }
int_double (negsuc n) = record { negative = true; magnitude = n + 1; scale = 0 }

-- `a == b` on doubles; the two zeros are equal.
abbrev pub double_beq : Double → Double → Bool
double_beq a b =
    (a.magnitude * 2 ^ b.scale == b.magnitude * 2 ^ a.scale)
    && (a.magnitude == 0 || same_sign a.negative b.negative)
  where
    same_sign : Bool → Bool → Bool
    same_sign true s = s
    same_sign false s = not s

abbrev pub as_number : Json → Option Double
as_number (integer i) = some (int_double i)
as_number (floating d) = some d
as_number _ = none

abbrev pub is_number : Json → Bool
is_number (integer i) = true
is_number (floating d) = true
is_number _ = false

abbrev pub is_string : Json → Bool
is_string (string s) = true
is_string _ = false

abbrev pub is_boolean : Json → Bool
is_boolean (boolean b) = true
is_boolean _ = false

abbrev pub is_object : Json → Bool
is_object (object fs) = true
is_object _ = false

abbrev pub no_fields : Fields → Bool
no_fields end = true
no_fields (field k v fs) = false

-- `value.is_object() && !value.empty()`
abbrev pub is_filled_object : Json → Bool
is_filled_object (object fs) = not (no_fields fs)
is_filled_object _ = false

-- `value == text` for a text; false at any other kind.
abbrev pub is_text : Json → String → Bool
is_text (string s) t = s == t
is_text _ t = false

-- object.find(key)
unfoldable pub find_field : String → Fields → Option Json
find_field key end = none
find_field key (field k v fs) = if k == key then some v else find_field key fs

abbrev pub find : String → Json → Option Json
unfolding find_field
find key (object fs) = find_field key fs
find key _ = none

-- value == other; numbers by value, objects by their sorted entries.
mutual
  pub json_beq : Json → Json → Bool
  json_beq null null = true
  json_beq (boolean true) (boolean b) = b
  json_beq (boolean false) (boolean b) = not b
  json_beq (integer i) (integer j) = double_beq (int_double i) (int_double j)
  json_beq (integer i) (floating d) = double_beq (int_double i) d
  json_beq (floating d) (integer j) = double_beq d (int_double j)
  json_beq (floating d) (floating e) = double_beq d e
  json_beq (string s) (string t) = s == t
  json_beq (array xs) (array ys) = items_beq xs ys
  json_beq (object fs) (object gs) = fields_beq fs gs
  json_beq _ _ = false

  pub items_beq : Items → Items → Bool
  items_beq nil nil = true
  items_beq (item x xs) (item y ys) = json_beq x y && items_beq xs ys
  items_beq _ _ = false

  pub fields_beq : Fields → Fields → Bool
  fields_beq end end = true
  fields_beq (field k v fs) (field l w gs) = (k == l) && json_beq v w && fields_beq fs gs
  fields_beq _ _ = false
