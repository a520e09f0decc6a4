-- ===== src/Tests/Files.antt =====
-- The state file and the status log at concrete inputs.
use air_ctrl_desklet.Prelude.{ℕ, ◌≡◌, refl, false, List, [], ◌∷◌, ◌++◌, some, arith}
use air_ctrl_desklet.Prelude.Int.{pos}
use air_ctrl_desklet.Json.{Fields, integer, string, end, field}
use air_ctrl_desklet.Automation.Types.{Env, Engine}
use air_ctrl_desklet.Automation.State.{save_state}
use air_ctrl_desklet.Automation.Persistent.{
  Restored, load_persistent_state, file_of, load_persistent_state-save_state,
}
use air_ctrl_desklet.Server.StatusLog.{
  parse_csv_line, header_line, record_line, timestamp_column, extra_column, cells, extra_cell,
  extra_fields,
}
use air_ctrl_desklet.Server.StatusLog.Header.{
  parse_csv_line-header_line, parse_csv_line-record_line,
}
use air_ctrl_desklet.Server.StatusLog.Load.{load_header, load_header-header_line}
use air_ctrl_desklet.Tests.World.{world, engine}

abbrev reading : Env ℕ
reading = record world { text = λ bytes. "" }

abbrev remembering : Engine ℕ
remembering = record engine { revision = 7; handled_occurrences = "a|1" ∷ "a|2" ∷ [] }

load_persistent_state-save_state_example :
    Restored reading
      (load_persistent_state reading false (file_of (save_state remembering).1.disk.saved) engine).1
      remembering
load_persistent_state-save_state_example =
    load_persistent_state-save_state reading false remembering engine refl (omega arith)
      (omega arith) refl refl

abbrev awkward_columns : List (List ℕ)
awkward_columns = (112 ∷ 34 ∷ 44 ∷ []) ∷ [] ∷ (34 ∷ []) ∷ []

parse_csv_line-header_line_example :
    parse_csv_line (header_line awkward_columns)
    ≡ some (timestamp_column ∷ awkward_columns ++ extra_column ∷ [])
parse_csv_line-header_line_example = parse_csv_line-header_line awkward_columns

abbrev some_status : Fields
some_status = field "pm25" (integer (pos 7)) (field "pwr" (string "1") end)

parse_csv_line-record_line_example :
    parse_csv_line (record_line world (50 ∷ 48 ∷ []) ("pwr" ∷ "rh" ∷ []) some_status)
    ≡ some (
        (50 ∷ 48 ∷ []) ∷ cells world ("pwr" ∷ "rh" ∷ []) some_status
        ++ extra_cell world (extra_fields ("pwr" ∷ "rh" ∷ []) some_status) ∷ [])
parse_csv_line-record_line_example =
    parse_csv_line-record_line world (50 ∷ 48 ∷ []) ("pwr" ∷ "rh" ∷ []) some_status

abbrev two_columns : List (List ℕ)
two_columns = (112 ∷ 34 ∷ 44 ∷ []) ∷ (114 ∷ 104 ∷ []) ∷ []

load_header-header_line_example : load_header (header_line two_columns) ≡ some two_columns
load_header-header_line_example = load_header-header_line two_columns (
    (
      λ e. ground arith,
      λ e. ground arith,
      λ e. ground arith,
      tt,
      (λ e. ground arith, λ e. ground arith, λ e. ground arith, (λ e. ground arith, tt), tt),
    ))
