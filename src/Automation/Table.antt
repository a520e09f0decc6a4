-- ===== src/Automation/Table.antt =====
-- simpleTable of src/server/automation.cpp: a Lua table of control values as a checked request.
use air_ctrl_desklet.Prelude.{
  ◌≡◌, refl, Bool, List, [], ◌∷◌, Option, none, some, String, concat, arith, if◌then◌else◌,
}
use Prim.Native.String.{compare}
use Prim.Native.Nat.{Ordering}
use air_ctrl_desklet.Json.{Json, boolean, integer, string, object, Fields, end, field}
use air_ctrl_desklet.ControlValues.{control_values_error}
use air_ctrl_desklet.ControlValues.Allowed.{IsRequest, control_values_error-IsRequest}
use air_ctrl_desklet.Automation.Types.{
  LuaScalar, lua_boolean, lua_text, lua_integer, lua_float, lua_other, LuaKey, text_key, other_key,
  LuaArgument, table, no_table,
}

-- The result of a conversion or an API call: a value, or the text of a Lua error.
pub data Result {ℓ} (A : Type ℓ) : Type ℓ where
  ok : A → Result A
  err : String → Result A

abbrev pub refuse_if : Bool → String → Result (Unit {0})
refuse_if b problem = if b then err problem else ok tt

infixl 5 ◌>>=◌ ◌>>◌
abbrev pub ◌>>=◌ {ℓ κ} : {A : Type ℓ} {C : Type κ} → Result A → (A → Result C) → Result C
err problem >>= then_do = err problem
ok value >>= then_do = then_do value

abbrev pub ◌>>◌ {ℓ} : {C : Type ℓ} → Result (Unit {0}) → Result C → Result C
check >> rest = check >>= λ passed. rest

-- `result[key] = value` on the sorted map of nlohmann/json.
unfoldable pub assign : String → Json → Fields → Fields
assign key value end = field key value end
assign key value (field k v rest) = elim (compare key k) [
  | Ordering.lt ↦ field key value (field k v rest)
  | Ordering.eq ↦ field k value rest
  | Ordering.gt ↦ field k v (assign key value rest)
]

collect : List (LuaKey × LuaScalar) → Fields → Result Fields
collect [] result = ok result
collect ((other_key, v) ∷ rest) result = err "Steuerfelder müssen Textschlüssel haben."
collect ((text_key key, lua_boolean b) ∷ rest) result = collect rest (assign key (boolean b) result)
collect ((text_key key, lua_text s) ∷ rest) result = collect rest (assign key (string s) result)
collect ((text_key key, lua_integer i) ∷ rest) result = collect rest (assign key (integer i) result)
collect ((text_key key, lua_float) ∷ rest) result =
    err (concat ("Steuerzahlen müssen ganzzahlig sein: " ∷ key ∷ []))
collect ((text_key key, lua_other) ∷ rest) result =
    err (concat ("Unzulässiger Lua-Wert für Steuerfeld: " ∷ key ∷ []))

abbrev checked : Json → Option String → Result Json
checked result none = ok result
checked result (some problem) = err problem

unfoldable pub simple_table : LuaArgument → Result Json
unfolding collect
simple_table no_table = err "Tabelle mit Steuerwerten erwartet."
simple_table (table entries) = do
  result ← collect entries end
  checked (object result) (control_values_error (object result))

checked-IsRequest :
    (j r : Json) (o : Option String) → control_values_error j ≡ o → checked j o ≡ ok r → IsRequest r
checked-IsRequest j r none e h = (control_values_error-IsRequest r).0 (ground (arith, e))
checked-IsRequest j r (some p) e h = cc

collected :
    (m : Result Fields) (r : Json)
    → (m >>= λ result. checked (object result) (control_values_error (object result))) ≡ ok r
    → IsRequest r
collected (ok fs) r h = checked-IsRequest (object fs) r _ refl h
collected (err e) r h = cc

-- A Lua table that is taken is a request that the device protocol allows.
pub simple_table-IsRequest : (a : LuaArgument) (r : Json) → simple_table a ≡ ok r → IsRequest r
unfolding simple_table
simple_table-IsRequest no_table r h = cc
simple_table-IsRequest (table entries) r h = collected (collect entries end) r h
