-- ===== src/Server/Config/Lines.antt =====
-- The loop of loadConfig over the lines of the file (src/server/server.cpp).
use air_ctrl_desklet.Prelude.{
  ℕ, Bool, true, ◌||◌, List, [], ◌∷◌, ◌++◌, Option, none, some, String, ◌==◌, if◌then◌else◌, nat_eq,
  is_empty,
}
use air_ctrl_desklet.Automation.Text.{newline}
use air_ctrl_desklet.Server.Connections.{trim}

-- What loadConfig can complain of.
pub data ConfigError : Type 0 where
  no_file bad_line unreadable bad_values : ConfigError
  bad_value : String → ConfigError
  unresolved no_address : List ℕ → ConfigError

pub data Loaded {ℓ} (A : Type ℓ) : Type ℓ where
  ok : A → Loaded A
  err : ConfigError → Loaded A

infixl 5 ◌>>=◌
abbrev pub ◌>>=◌ {ℓ κ} : {A : Type ℓ} {B : Type κ} → Loaded A → (A → Loaded B) → Loaded B
ok a >>= f = f a
err e >>= f = err e

-- The lines that getline gives: a last line that is empty is none.
abbrev push_byte : ℕ → List (List ℕ) → List (List ℕ)
push_byte b [] = (b ∷ []) ∷ []
push_byte b (line ∷ lines) = (b ∷ line) ∷ lines

unfoldable pub split_lines : List ℕ → List (List ℕ)
split_lines [] = []
split_lines (b ∷ bytes) =
    let lines = split_lines bytes in if b == newline then [] ∷ lines else push_byte b lines

-- line.find('='): what stands before and behind it
unfoldable pub split_at : ℕ → List ℕ → Option (List ℕ × List ℕ)
split_at separator [] = none
split_at separator (b ∷ text) =
    if b == separator then some ([], text) else elim (split_at separator text) [
      | none ↦ none
      | some (before, behind) ↦ some (b ∷ before, behind)
    ]

abbrev pub is_comment : List ℕ → Bool
is_comment [] = true
is_comment (b ∷ line) = b == b'#' || b == b';'

-- The bytes before a last `]`.
abbrev before_bracket : List ℕ → Option (List ℕ)
before_bracket [] = none
before_bracket (b ∷ []) = if b == b']' then some [] else none
before_bracket (b ∷ c ∷ text) = elim (before_bracket (c ∷ text)) [
  | none ↦ none
  | some name ↦ some (b ∷ name)
]

abbrev pub section_of : List ℕ → Option (List ℕ)
section_of [] = none
section_of (b ∷ line) = if b == b'[' then before_bracket line else none

-- The section, and the values by their keys, a later one before an earlier one.
pub record Reading : Type 0 where
  pub section : List ℕ
  pub values : List (List ℕ × List ℕ)

abbrev pub store : Option (List ℕ × List ℕ) → Reading → Loaded Reading
store none r = err bad_line
store (some (key, value)) r =
    if is_empty r.section
    then err bad_line
    else ok (record r { values = (r.section ++ b'/' ∷ trim key, trim value) ∷ r.values })

abbrev pub in_section : Option (List ℕ) → List ℕ → Reading → Loaded Reading
unfolding split_at
in_section (some name) line r = ok (record r { section = trim name })
in_section none line r = store (split_at b'=' line) r

-- One line, trimmed.
unfoldable pub read_config_line : List ℕ → Reading → Loaded Reading
unfolding split_at
read_config_line line r = if is_comment line then ok r else in_section (section_of line) line r

unfoldable pub read_lines : List (List ℕ) → Reading → Loaded Reading
unfolding read_config_line
read_lines [] r = ok r
read_lines (line ∷ lines) r = do next ← read_config_line (trim line) r; read_lines lines next
