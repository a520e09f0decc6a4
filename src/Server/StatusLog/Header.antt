-- ===== src/Server/StatusLog/Header.antt =====
-- The lines of the status log are read back as the cells that were written.
use air_ctrl_desklet.Prelude.{
  ℕ, ◌≡◌, refl, ap, sym, ◌∙◌, inl, inr, Bool, true, false, ◌||◌, some, String, List, [], ◌∷◌, ◌++◌,
  append_assoc, arith, ◌==◌, if◌then◌else◌, any, Bool-cases, append-nil, subst, nat_eq, is_empty,
  ◌&&◌, nat_beq_iff,
}
use air_ctrl_desklet.Json.{Fields}
use air_ctrl_desklet.Automation.Types.{Env}
use air_ctrl_desklet.Server.StatusLog.{
  comma, quote, is_special, double_quotes, csv_field, Mode, plain, quoted, behind_quote, Scan,
  scan_plain, scan_byte, scan, finish_line, parse_csv_line, timestamp_column, extra_column,
  column_fields, header_line, record_line, cells, extra_cell, extra_fields,
}

scan-append : (s : Scan) (xs ys : List ℕ) → scan s (xs ++ ys) ≡ scan (scan s xs) ys
scan-append s [] ys = refl
scan-append s (b ∷ xs) ys = scan-append (scan_byte s b) xs ys

or-false : (a b : Bool) → a || b ≡ false → (a ≡ false) × (b ≡ false)
or-false true b h = (h, ground arith)
or-false false b h = (refl, h)

-- A field that goes on after one more byte.
scan-after :
    (m : Mode) (b : ℕ) (value field : List ℕ) (fields : List (List ℕ)) (s : Scan)
    → s ≡ (m, (field ++ b ∷ []) ++ value, fields)
    → s ≡ (m, field ++ b ∷ value, fields)
scan-after m b value field fields s h =
    h ∙ ap (λ f. (m, f, fields)) (append_assoc field (b ∷ []) value)

scan-double_quotes :
    (value field : List ℕ) (fields : List (List ℕ))
    → scan (quoted, field, fields) (double_quotes value) ≡ (quoted, field ++ value, fields)
scan-double_quotes [] field fields = ap (λ f. (quoted, f, fields)) (sym (append-nil field))
scan-double_quotes (b ∷ value) field fields =
    let rest =
      scan-after quoted b value field fields _
        (scan-double_quotes value (field ++ b ∷ []) fields) in
    elim (Bool-cases (b == quote)) [
      | inl e ↦
          subst
            (λ c.
              scan (quoted, field, fields) (double_quotes (c ∷ value))
              ≡ (quoted, field ++ c ∷ value, fields))
            (sym ((nat_beq_iff b quote).0 e))
            (scan-after quoted quote value field fields _
              (scan-double_quotes value (field ++ quote ∷ []) fields))
      | inr e ↦
          ap
            (λ x.
              scan (quoted, field, fields)
                (if x then quote ∷ b ∷ double_quotes value else b ∷ double_quotes value))
            e
          ∙ ap
              (λ x.
                scan
                  (if x then (behind_quote, field, fields) else (quoted, field ++ b ∷ [], fields))
                  (double_quotes value))
              e
          ∙ rest
    ]

scan_plain-other :
    (b : ℕ) (field : List ℕ) (fields : List (List ℕ))
    → is_special b ≡ false
    → scan_plain field fields b ≡ (plain, field ++ b ∷ [], fields)
scan_plain-other b field fields h =
    let parts =
      or-false (b == comma) (b == quote) (or-false _ (b == 13) (or-false _ (b == 10) h).0).0 in
    ap
      (λ x.
        if x
        then (plain, [], fields ++ field ∷ [])
        else if b == quote && is_empty field
        then (quoted, field, fields)
        else (plain, field ++ b ∷ [], fields))
      parts.0
    ∙ ap
        (λ x.
          if x && is_empty field then (quoted, field, fields) else (plain, field ++ b ∷ [], fields))
        parts.1

scan-plain :
    (value field : List ℕ) (fields : List (List ℕ))
    → any is_special value ≡ false
    → scan (plain, field, fields) value ≡ (plain, field ++ value, fields)
scan-plain [] field fields h = ap (λ f. (plain, f, fields)) (sym (append-nil field))
scan-plain (b ∷ value) field fields h =
    let parts = or-false (is_special b) _ h in
    ap (λ s. scan s value) (scan_plain-other b field fields parts.0)
    ∙ scan-after plain b value field fields _ (scan-plain value (field ++ b ∷ []) fields parts.1)

-- The states in which a field may end.
data Ended (value : List ℕ) (fields : List (List ℕ)) : Scan → Type 0 where
  bare : Ended value fields (plain, value, fields)
  closed : Ended value fields (behind_quote, value, fields)

scan-csv_field :
    (value : List ℕ) (fields : List (List ℕ))
    → Ended value fields (scan (plain, [], fields) (csv_field value))
unfolding csv_field
scan-csv_field value fields = elim (Bool-cases (any is_special value)) [
  | inl e ↦
      subst
        (λ x. Ended value fields (
          scan (plain, [], fields)
            (if x then quote ∷ double_quotes value ++ quote ∷ [] else value)))
        (sym e)
        (subst (λ s. Ended value fields s)
          (sym (
            scan-append (quoted, [], fields) (double_quotes value) (quote ∷ [])
            ∙ ap (λ s. scan s (quote ∷ [])) (scan-double_quotes value [] fields)))
          closed)
  | inr e ↦
      subst
        (λ x. Ended value fields (
          scan (plain, [], fields)
            (if x then quote ∷ double_quotes value ++ quote ∷ [] else value)))
        (sym e) (subst (λ s. Ended value fields s) (sym (scan-plain value [] fields e)) bare)
]

-- A comma ends the field.
after_comma :
    (value : List ℕ) (fields : List (List ℕ)) (s : Scan)
    → Ended value fields s
    → scan_byte s comma ≡ (plain, [], fields ++ value ∷ [])
after_comma value fields _ bare = refl
after_comma value fields _ closed = refl

finish_line-Ended :
    (value : List ℕ) (fields : List (List ℕ)) (s : Scan)
    → Ended value fields s
    → finish_line s ≡ some (fields ++ value ∷ [])
finish_line-Ended value fields _ bare = refl
finish_line-Ended value fields _ closed = refl

-- Behind the cells comes the last one.
scan-cells :
    (columns : List (List ℕ)) (value last : List ℕ) (fields : List (List ℕ)) (s : Scan)
    → Ended value fields s
    → Ended last
        (fields ++ value ∷ columns)
        (scan s (column_fields columns ++ comma ∷ csv_field last))
scan-cells [] value last fields s h =
    subst (λ t. Ended last (fields ++ value ∷ []) (scan t (csv_field last)))
      (sym (after_comma value fields s h)) (scan-csv_field last (fields ++ value ∷ []))
scan-cells (column ∷ columns) value last fields s h =
    let tail = column_fields columns ++ comma ∷ csv_field last in
    let rest =
      scan-cells columns column last (fields ++ value ∷ []) _
        (scan-csv_field column (fields ++ value ∷ [])) in
    let state : scan s (column_fields (column ∷ columns) ++ comma ∷ csv_field last)
        ≡ scan (scan (plain, [], fields ++ value ∷ []) (csv_field column)) tail =
      ap (λ l. scan (scan_byte s comma) l)
        (append_assoc (csv_field column) (column_fields columns) (comma ∷ csv_field last))
      ∙ ap (λ t. scan t (csv_field column ++ tail)) (after_comma value fields s h)
      ∙ scan-append (plain, [], fields ++ value ∷ []) (csv_field column) tail in
    subst (λ t. Ended last (fields ++ value ∷ column ∷ columns) t) (sym state)
      (subst
        (λ l. Ended last l (scan (scan (plain, [], fields ++ value ∷ []) (csv_field column)) tail))
        (append_assoc fields (value ∷ []) (column ∷ columns)) rest)

-- Every line of cells is parsed as these cells.
parse-cells :
    (first last : List ℕ) (middle : List (List ℕ))
    → parse_csv_line (csv_field first ++ column_fields middle ++ comma ∷ csv_field last)
      ≡ some (first ∷ middle ++ last ∷ [])
unfolding parse_csv_line
parse-cells first last middle =
    let tail = column_fields middle ++ comma ∷ csv_field last in
    ap (λ l. finish_line (scan (plain, [], []) l))
      (append_assoc (csv_field first) (column_fields middle) (comma ∷ csv_field last))
    ∙ ap (λ s. finish_line s) (scan-append (plain, [], []) (csv_field first) tail)
    ∙ finish_line-Ended last (first ∷ middle) _
        (scan-cells middle first last [] _ (scan-csv_field first []))

bare_ends :
    (csv_field timestamp_column ≡ timestamp_column) × (csv_field extra_column ≡ extra_column)
unfolding csv_field
bare_ends = (refl, refl)

-- Whatever bytes the names of the columns have, quotes, commas and line breaks included, the header
-- that is written for them is parsed as the timestamp, the columns and the extra column.
pub parse_csv_line-header_line :
    (columns : List (List ℕ))
    → parse_csv_line (header_line columns) ≡ some (timestamp_column ∷ columns ++ extra_column ∷ [])
unfolding header_line
parse_csv_line-header_line columns =
    ap (λ first. parse_csv_line (first ++ column_fields columns ++ comma ∷ extra_column))
      (sym bare_ends.0)
    ∙ ap
        (λ last.
          parse_csv_line (csv_field timestamp_column ++ column_fields columns ++ comma ∷ last))
        (sym bare_ends.1)
    ∙ parse-cells timestamp_column extra_column columns

-- A record of a status is parsed as its timestamp, one cell for each column in the columns' order, and
-- the text of the entries without a column.
pub parse_csv_line-record_line :
    {S : Type 0} (env : Env S) (timestamp : List ℕ) (columns : List String) (status : Fields)
    → parse_csv_line (record_line env timestamp columns status)
      ≡ some (
          timestamp ∷ cells env columns status ++ extra_cell env (extra_fields columns status) ∷ [])
unfolding record_line
parse_csv_line-record_line env timestamp columns status =
    parse-cells timestamp _ (cells env columns status)
