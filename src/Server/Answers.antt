-- ===== src/Server/Answers.antt =====
-- What the requests have in common: identifiers, kinds and the answers of a failure (src/server/server.cpp).
use air_ctrl_desklet.Prelude.{
  ℕ, false, [], ◌∷◌, Option, none, some, String, ◌==◌, if◌then◌else◌, nat_eq, string_eq,
}
use air_ctrl_desklet.Prelude.Int.{pos}
use air_ctrl_desklet.Json.{Json, boolean, integer, string, find}
use air_ctrl_desklet.Server.Clients.{message}

-- requestId: a positive integer.
abbrev pub positive : Option Json → Option ℕ
positive (some (integer (pos n))) = if n == 0 then none else some n
positive _ = none

abbrev pub request_id : Json → Option ℕ
request_id request = positive (find "id" request)

-- The identifier that an answer carries: 0 for a request without one.
abbrev pub id_or_zero : Option ℕ → Json
id_or_zero none = integer (pos 0)
id_or_zero (some n) = integer (pos n)

-- unsignedValue
abbrev pub unsigned_value : Json → Option ℕ
unsigned_value (integer (pos n)) = some n
unsigned_value _ = none

-- The string `_airctrl`, or the empty string.
abbrev pub text_or_empty : Option Json → String
text_or_empty (some (string s)) = s
text_or_empty _ = ""

abbrev pub kind_of : Json → String
kind_of request = text_or_empty (find "_airctrl" request)

abbrev pub failure : String → Option ℕ → String → Json
failure kind id problem =
    message kind (("id", id_or_zero id) ∷ ("ok", boolean false) ∷ ("error", string problem) ∷ [])

abbrev pub error_message : String → Json
error_message problem = message "error" (("error", string problem) ∷ [])

abbrev pub text_of : Option String → String
text_of none = ""
text_of (some t) = t
