-- ===== src/Server/StatusLog.antt =====
-- The lines of the status log: csvField, parseCsvLine, valueField, append and the head of writeRecord (src/server/statuslog.cpp), over bytes.
use air_ctrl_desklet.Prelude.{
  ℕ, Bool, true, false, not, ◌&&◌, ◌||◌, Option, none, some, List, [], ◌∷◌, ◌++◌, ◌==◌,
  if◌then◌else◌, any, is_empty, nat_eq, string_eq, map, String,
}
use air_ctrl_desklet.Json.{Json, null, boolean, string, object, Fields, end, field, find}
use air_ctrl_desklet.Automation.Types.{Env}
pub mod Header
pub mod Load

abbrev pub quote : ℕ
quote = 34

abbrev pub comma : ℕ
comma = 44

-- find_first_of(",\"\r\n")
abbrev pub is_special : ℕ → Bool
is_special b = b == comma || b == quote || b == 13 || b == 10

abbrev pub double_quotes : List ℕ → List ℕ
double_quotes [] = []
double_quotes (b ∷ value) =
    if b == quote then quote ∷ b ∷ double_quotes value else b ∷ double_quotes value

unfoldable pub csv_field : List ℕ → List ℕ
csv_field value = if any is_special value then quote ∷ double_quotes value ++ quote ∷ [] else value

-- Where parseCsvLine stands: outside of quotes, inside, or behind a quote that either ends the quoted
-- part or is the first of two, which the code finds by a look at the next byte.
pub data Mode : Type 0 where
  plain quoted behind_quote : Mode

-- The mode, the field so far, and the fields before it.
abbrev pub Scan : Type 0
Scan = Mode × List ℕ × List (List ℕ)

abbrev pub scan_plain : List ℕ → List (List ℕ) → ℕ → Scan
scan_plain text fields b =
    if b == comma
    then (plain, [], fields ++ text ∷ [])
    else if b == quote && is_empty text
    then (quoted, text, fields)
    else (plain, text ++ b ∷ [], fields)

abbrev pub scan_byte : Scan → ℕ → Scan
scan_byte (plain, text, fields) b = scan_plain text fields b
scan_byte (quoted, text, fields) b =
    if b == quote then (behind_quote, text, fields) else (quoted, text ++ b ∷ [], fields)
scan_byte (behind_quote, text, fields) b =
    if b == quote then (quoted, text ++ quote ∷ [], fields) else scan_plain text fields b

abbrev pub scan : Scan → List ℕ → Scan
scan state [] = state
scan state (b ∷ line) = scan (scan_byte state b) line

abbrev pub finish_line : Scan → Option (List (List ℕ))
finish_line (quoted, text, fields) = none
finish_line (plain, text, fields) = some (fields ++ text ∷ [])
finish_line (behind_quote, text, fields) = some (fields ++ text ∷ [])

unfoldable pub parse_csv_line : List ℕ → Option (List (List ℕ))
parse_csv_line line = finish_line (scan (plain, [], []) line)

-- "timestamp" and "_extra_json"
abbrev pub timestamp_column : List ℕ
timestamp_column = 116 ∷ 105 ∷ 109 ∷ 101 ∷ 115 ∷ 116 ∷ 97 ∷ 109 ∷ 112 ∷ []

abbrev pub extra_column : List ℕ
extra_column = 95 ∷ 101 ∷ 120 ∷ 116 ∷ 114 ∷ 97 ∷ 95 ∷ 106 ∷ 115 ∷ 111 ∷ 110 ∷ []

abbrev pub column_fields : List (List ℕ) → List ℕ
column_fields [] = []
column_fields (column ∷ columns) = comma ∷ csv_field column ++ column_fields columns

-- The first line of a new log, without its line break.
unfoldable pub header_line : List (List ℕ) → List ℕ
header_line columns = timestamp_column ++ column_fields columns ++ comma ∷ extra_column

abbrev pub is_break : ℕ → Bool
is_break b = b == 13 || b == 10

abbrev pub has_key : List String → String → Bool
has_key columns key = any (λ c. c == key) columns

-- The keys of the first status. An object is iterated in the order of its keys, so that sorting them
-- changes nothing.
abbrev pub keys : Fields → List String
keys end = []
keys (field k v rest) =
    if not (k == "timestamp") && not (k == "_extra_json") then k ∷ keys rest else keys rest

abbrev pub columns_for : List String → Fields → List String
columns_for [] status = keys status
columns_for (c ∷ columns) status = c ∷ columns

-- The entries that have no column.
abbrev pub extra_fields : List String → Fields → Fields
extra_fields columns end = end
extra_fields columns (field k v rest) =
    if has_key columns k then extra_fields columns rest else field k v (extra_fields columns rest)

module _ {S : Type 0} (env : Env S) where
  abbrev pub value_field : Json → List ℕ
  value_field null = []
  value_field (boolean true) = 49 ∷ []
  value_field (boolean false) = 48 ∷ []
  value_field (string t) = if any is_break (env.bytes t) then env.dump (string t) else env.bytes t
  value_field v = env.dump v

  abbrev pub cell : Option Json → List ℕ
  cell none = []
  cell (some v) = value_field v

  abbrev pub cells : List String → Fields → List (List ℕ)
  cells columns status = map (λ c. cell (find c (object status))) columns

  abbrev pub extra_cell : Fields → List ℕ
  extra_cell end = []
  extra_cell extra = env.dump (object extra)

  -- One record, without its line break.
  unfoldable pub record_line : List ℕ → List String → Fields → List ℕ
  record_line timestamp columns status =
      csv_field timestamp
      ++ column_fields (cells columns status)
      ++ comma ∷ csv_field (extra_cell (extra_fields columns status))

  -- append: the columns, which stay when the write fails, and the record to be written
  unfoldable pub append : List ℕ → List String → Json → List String × Option (List ℕ)
  append timestamp columns (object (field k v rest)) =
      let now_columns = columns_for columns (field k v rest) in
      (now_columns, some (record_line timestamp now_columns (field k v rest)))
  append timestamp columns _ = (columns, none)
