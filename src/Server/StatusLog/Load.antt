-- ===== src/Server/StatusLog/Load.antt =====
-- loadHeader of src/server/statuslog.cpp, as far as it reads the first line, and its agreement with the header that writeRecord writes.
use air_ctrl_desklet.Prelude.{
  ℕ, ◌≡◌, ◌≢◌, refl, ap, ◌∙◌, Bool, false, ◌||◌, Option, none, some, List, [], ◌∷◌, ◌++◌, ◌==◌,
  if◌then◌else◌, any, All, is_empty, same_bytes, other_bytes, nat_eq,
}
use air_ctrl_desklet.Server.StatusLog.{
  comma, parse_csv_line, timestamp_column, extra_column, column_fields, header_line,
}
use air_ctrl_desklet.Server.StatusLog.Header.{parse_csv_line-header_line}

-- header.pop_back() of a trailing carriage return
abbrev pub without_return : List ℕ → List ℕ
without_return [] = []
without_return (b ∷ []) = if b == 13 then [] else b ∷ []
without_return (b ∷ c ∷ line) = b ∷ without_return (c ∷ line)

abbrev refused : List (List ℕ) → List ℕ → Bool
refused seen column =
    is_empty column
    || same_bytes column timestamp_column
    || same_bytes column extra_column
    || any (same_bytes column) seen

abbrev with_column : List ℕ → Option (List (List ℕ)) → Option (List (List ℕ))
with_column column none = none
with_column column (some columns) = some (column ∷ columns)

-- The fields behind the first one: the columns, and the extra column at the end.
abbrev load_columns : List (List ℕ) → List (List ℕ) → Option (List (List ℕ))
load_columns seen [] = none
load_columns seen (last ∷ []) = if same_bytes last extra_column then some [] else none
load_columns seen (column ∷ next ∷ rest) =
    let columns = load_columns (column ∷ seen) (next ∷ rest) in
    if refused seen column then none else with_column column columns

abbrev load_fields : Option (List (List ℕ)) → Option (List (List ℕ))
load_fields none = none
load_fields (some []) = none
load_fields (some (first ∷ rest)) =
    if same_bytes first timestamp_column then load_columns [] rest else none

-- The columns of the first line, or `none` for an invalid header.
unfoldable pub load_header : List ℕ → Option (List (List ℕ))
load_header line = load_fields (parse_csv_line (without_return line))

-- Columns that may stand in a header behind those that were seen: neither empty nor reserved, nor twice.
abbrev pub Loadable : List (List ℕ) → List (List ℕ) → Type 0
Loadable seen [] = Unit
Loadable seen (column ∷ columns) =
    (column ≢ [])
    × (column ≢ timestamp_column)
    × (column ≢ extra_column)
    × All (λ c. column ≢ c) seen
    × Loadable (column ∷ seen) columns

or-false : (a b : Bool) → a ≡ false → b ≡ false → a || b ≡ false
or-false a b h k = ap (λ x. x || b) h ∙ k

none_seen :
    (column : List ℕ) (seen : List (List ℕ))
    → All (λ c. column ≢ c) seen
    → any (same_bytes column) seen ≡ false
none_seen column [] h = refl
none_seen column (c ∷ seen) h = or-false _ _ (other_bytes column c h.0) (none_seen column seen h.1)

filled : (column : List ℕ) → column ≢ [] → is_empty column ≡ false
filled [] h = elim (h refl) [ ]
filled (b ∷ column) h = refl

refused-Loadable :
    (column : List ℕ) (columns seen : List (List ℕ))
    → Loadable seen (column ∷ columns)
    → refused seen column ≡ false
refused-Loadable column columns seen (not_empty, not_timestamp, not_extra, unseen, rest) =
    or-false _ _
      (or-false _ _
        (or-false _ _ (filled column not_empty) (other_bytes column timestamp_column not_timestamp))
        (other_bytes column extra_column not_extra))
      (none_seen column seen unseen)

load_step :
    (column next : List ℕ) (tail seen : List (List ℕ))
    → refused seen column ≡ false
    → load_columns seen (column ∷ next ∷ tail)
      ≡ with_column column (load_columns (column ∷ seen) (next ∷ tail))
load_step column next tail seen h =
    ap (λ x. if x then none else with_column column (load_columns (column ∷ seen) (next ∷ tail))) h

load_columns-Loadable :
    (columns seen : List (List ℕ))
    → Loadable seen columns
    → load_columns seen (columns ++ extra_column ∷ []) ≡ some columns
load_columns-Loadable [] seen h = refl
load_columns-Loadable (c ∷ []) seen h =
    load_step c extra_column [] seen (refused-Loadable c [] seen h)
load_columns-Loadable (c ∷ d ∷ columns) seen h =
    load_step c d (columns ++ extra_column ∷ []) seen (refused-Loadable c (d ∷ columns) seen h)
    ∙ ap (with_column c) (load_columns-Loadable (d ∷ columns) (c ∷ seen) h.4)

without_return-append :
    (line : List ℕ) → without_return (line ++ comma ∷ extra_column) ≡ line ++ comma ∷ extra_column
without_return-append [] = refl
without_return-append (b ∷ []) = refl
without_return-append (b ∷ c ∷ line) = ap (λ l. b ∷ l) (without_return-append (c ∷ line))

-- A header that is written for columns that are neither empty nor reserved nor twice in it is loaded,
-- when it is read as one line, as these columns.
pub load_header-header_line :
    (columns : List (List ℕ))
    → Loadable [] columns
    → load_header (header_line columns) ≡ some columns
unfolding load_header header_line
load_header-header_line columns h =
    ap (λ l. load_fields (parse_csv_line l))
      (without_return-append (timestamp_column ++ column_fields columns))
    ∙ ap load_fields (parse_csv_line-header_line columns)
    ∙ load_columns-Loadable columns [] h
