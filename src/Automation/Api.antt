-- ===== src/Automation/Api.antt =====
-- The functions that src/server/automation.cpp gives to the script (luaLog, luaSet, luaSchedule,
-- luaStatus), the engine's log, and a protected call of Lua code that makes such calls.
pub mod Keeps
use air_ctrl_desklet.Prelude.{
  ℕ, Bool, false, not, ◌||◌, List, [], ◌∷◌, ◌++◌, Option, none, some, String, ◌==◌, if◌then◌else◌,
  string_eq, concat, is_empty,
}
use air_ctrl_desklet.Json.{Json}
use air_ctrl_desklet.Automation.Types.{
  Env, Engine, ApiCall, log, set, schedule, status, Reply, returned, value, raised, Run, done, fail,
  call, LuaArgument, Schedule,
}
use air_ctrl_desklet.Automation.Table.{Result, ok, err, simple_table}
use air_ctrl_desklet.Automation.Text.{clean_line, push_bounded}
use air_ctrl_desklet.Automation.Schedule.{lua_schedule}

abbrev pub event_is : Option String → String → Bool
event_is none name = false
event_is (some event) name = event == name

-- The events in which `airctrl.set` is allowed.
unfoldable pub may_set : Option String → Bool
may_set event =
    event_is event "connected"
    || event_is event "status"
    || event_is event "alarm"
    || event_is event "time"
    || event_is event "long_timer"

abbrev event_name : Option String → String
event_name none = ""
event_name (some event) = event

-- luaLog: an unknown level counts as information.
log_level : String → String
log_level level =
    if level == "debug" || level == "info" || level == "warning" || level == "error"
    then level
    else "info"

-- `now` is the time that the clock shows during the operation.
module _ {S : Type 0} (env : Env S) (now : ℕ) where
  unfoldable pub append_log : String → String → Engine S → Engine S
  append_log level message e = record e {
    log_entries =
        push_bounded 50
          (env.bytes (concat (env.stamp now ∷ " [" ∷ level ∷ "] " ∷ []))
            ++ clean_line 1000 (env.bytes message))
          e.log_entries;
  }

  unfoldable pub set_problem : String → Engine S → Engine S
  unfolding append_log
  set_problem problem e = append_log "error" problem (record e { last_error = some problem })

  push_action : Option String → Result Json → Engine S → Reply × Engine S
  push_action event (err problem) e = (raised problem, e)
  push_action event (ok values) e = (
    returned,
    record e {
      pending_actions =
          e.pending_actions
          ++ record {
            values = values;
            source = concat ("Lua-Ereignis " ∷ event_name event ∷ []);
            occurrence_key = none;
          }
            ∷ [];
    },
  )

  lua_set : LuaArgument → Engine S → Reply × Engine S
  unfolding push_action
  lua_set argument e =
      if not (may_set e.current_event)
      then (
        raised
            "airctrl.set ist nur in connected-, status-, alarm-, time- oder long_timer-Ereignissen erlaubt",
        e,
      )
      else if not (is_empty e.pending_actions)
      then (raised "pro Ereignis ist nur ein airctrl.set-Auftrag erlaubt", e)
      else push_action e.current_event (simple_table argument) e

  register : Result (List Schedule) → Engine S → Reply × Engine S
  register (ok ss) e = (returned, record e { schedules = ss })
  register (err problem) e = (raised problem, e)

  unfoldable pub api_call : ApiCall → Engine S → Reply × Engine S
  unfolding lua_set register log_level append_log
  api_call (log level message) e = (returned, append_log (log_level level) message e)
  api_call (set argument) e = lua_set argument e
  -- the table of a schedule has no metamethods here
  api_call (schedule t) e = register (lua_schedule env.text e.schedules e.schedules t) e
  api_call status e = (value e.latest_status, e)

  -- lua_pcall: the engine afterwards, and the error message if there was an error.
  unfoldable pub run : Run S → Engine S → Engine S × Option String
  run (done s) e = (record e { lua = some s }, none)
  run (fail s problem) e = (record e { lua = some s }, some problem)
  run (call c rest) e = let (reply, e') = api_call c e in run (rest reply) e'
