-- ===== src/Automation/Types.antt =====
-- The state of AutomationEngine (src/server/automation.h), and the interface to what it is built on: the
-- Lua interpreter, the calendar of the C library and the JSON library.
use air_ctrl_desklet.Prelude.{ℕ, Bool, List, Option, String}
use air_ctrl_desklet.Prelude.Int.{ℤ}
use air_ctrl_desklet.Json.{Json, Fields, Double}

-- A Lua value inside a table of control values, by `lua_type`.
pub data LuaScalar : Type 0 where
  lua_boolean : Bool → LuaScalar
  lua_text : String → LuaScalar
  lua_integer : ℤ → LuaScalar
  lua_float : LuaScalar
  lua_other : LuaScalar

-- A key met by `lua_next`.
pub data LuaKey : Type 0 where
  text_key : String → LuaKey
  other_key : LuaKey

-- An argument that should be a table of control values: its entries in the order of `lua_next`.
pub data LuaArgument : Type 0 where
  table : List (LuaKey × LuaScalar) → LuaArgument
  no_table : LuaArgument

-- The field `days` of a schedule: absent, not a table, or its elements (`none` if no integer).
pub data DaysField : Type 0 where
  all_days : DaysField
  days_no_table : DaysField
  day_list : List (Option ℤ) → DaysField

-- The field `catch_up`.
pub data FlagField : Type 0 where
  no_flag : FlagField
  flag : Bool → FlagField
  wrong_flag : FlagField

-- The table given to `airctrl.schedule`. A text field that is absent or no text is empty.
pub record ScheduleTable : Type 0 where
  pub name : List ℕ
  pub at_time : List ℕ
  pub between : List ℕ
  pub days : DaysField
  pub catch_up : FlagField
  pub set_values : LuaArgument
  pub outside : Option LuaArgument

-- What a script asks of `airctrl`.
pub data ApiCall : Type 0 where
  log : String → String → ApiCall
  set : LuaArgument → ApiCall
  schedule : ScheduleTable → ApiCall
  status : ApiCall

-- What the script gets back: nothing, a value, or a Lua error, which it may catch.
pub data Reply : Type 0 where
  returned : Reply
  value : Json → Reply
  raised : String → Reply

-- One protected call of Lua code, cut off by the instruction hook at the latest: it ends well or with
-- an error message, and before that it makes API calls and goes on by their replies.
pub data Run (S : Type 0) : Type 0 where
  done : S → Run S
  fail : S → String → Run S
  call : ApiCall → (Reply → Run S) → Run S

-- A global of the script that should be a function.
pub data Global : Type 0 where
  missing not_a_function callable : Global

-- `std::tm` as far as the program reads it.
pub record Moment : Type 0 where
  pub year : ℕ
  pub yday : ℕ
  pub wday : ℕ
  pub hour : ℕ
  pub minute : ℕ

-- What the program takes from elsewhere. `S` is the state of a loaded Lua script.
pub record Env (S : Type 0) : Type 0 where
  -- the main chunk of a script; `none` where no Lua state can be made
  pub load : String → Option (Run S)
  pub on_event : S → Global
  pub on_long_timer : S → Global
  pub call_on_event : S → Json → Run S
  pub call_on_long_timer : S → Run S
  pub local_time : ℕ → Moment
  -- mktime of today less some days, at an hour and a minute
  pub make_time : Moment → ℕ → ℕ → ℕ → Option ℕ
  pub stamp : ℕ → String
  pub minute_text : ℕ → String
  pub time_detail : ℕ → Fields
  pub dump : Json → List ℕ
  pub parse : List ℕ → Option Json
  pub bytes : String → List ℕ
  pub text : List ℕ → String
  pub lua_release : String
  -- the message of a failed atomic write
  pub write_error : String
  -- std::stod of a whole text, and std::to_string
  pub whole_double : String → Option Double
  pub number_text : ℕ → String

-- AutomationEngine::Schedule; an empty phase is `none`.
pub record Schedule : Type 0 where
  pub name : List ℕ
  pub phase : Option String
  pub hour : ℕ
  pub minute : ℕ
  pub days : List ℕ
  pub values : Json
  pub catch_up : Bool

-- AutomationAction and PendingAction; an empty occurrence key is `none`.
pub record Action : Type 0 where
  pub values : Json
  pub source : String
  pub occurrence_key : Option String

-- The server's files as the engine sees them: their contents, and whether writing succeeds.
pub record Disk : Type 0 where
  pub script : Option String
  pub script_writable : Bool
  pub state_writable : Bool
  pub saved : Option (Bool × Bool × String × ℕ × List String)

-- AutomationEngine. `lua` is `none` for a null `state_`; empty error texts are `none`.
pub record Engine (S : Type 0) : Type 0 where
  pub script_path : String
  pub disk : Disk
  pub lua : Option S
  pub enabled : Bool
  pub manual_override : Bool
  pub manual_override_reason : String
  pub connected : Bool
  pub dispatching : Bool
  pub revision : ℕ
  pub current_event : Option String
  pub last_error : Option String
  pub last_event : String
  pub last_action : String
  pub last_minute : String
  pub last_alert_digest : List String
  pub latest_status : Json
  pub schedules : List Schedule
  pub pending_actions : List Action
  pub handled_occurrences : List String
  pub log_entries : List (List ℕ)
