-- ===== src/Server/Events.antt =====
-- The event methods of AutomationEngine (src/server/automation.cpp): callEvent, longTimerEvent,
-- flushActions, setConnected, commandEvent, evaluateSchedules and processTime. They take the server's
-- state, since `handler`, which the server gives to the engine, acts on it. `now` is the time that the
-- clock shows during the operation.
use air_ctrl_desklet.Prelude.{
  ℕ, Bool, true, false, not, ◌&&◌, ◌||◌, List, [], ◌∷◌, Option, none, some, String, ◌==◌,
  if◌then◌else◌, nat_eq, string_eq, concat, is_some, is_empty,
}
use air_ctrl_desklet.Json.{Json, boolean, string, object, Fields, end, field}
use air_ctrl_desklet.ControlValues.{same}
use air_ctrl_desklet.Automation.Types.{
  Env, Engine, Schedule, Action, Run, missing, not_a_function, callable,
}
use air_ctrl_desklet.Automation.Api.{set_problem, run}
use air_ctrl_desklet.Automation.State.{select, contains_key}
use air_ctrl_desklet.Server.State.{Server}
use air_ctrl_desklet.Server.Clients.{members}

-- The members of an event's detail.
abbrev pub detail_list : Fields → List (String × Json)
detail_list end = []
detail_list (field k v rest) = (k, v) ∷ detail_list rest

abbrev reason_detail : Option String → List (String × Json)
reason_detail none = []
reason_detail (some r) = ("reason", string r) ∷ []

-- `state_ == nullptr || dispatching_ || !lastError_.empty()`
abbrev pub unavailable : {S : Type 0} → Engine S → Bool
unavailable e = not (is_some e.lua) || e.dispatching || is_some e.last_error

module _ {S : Type 0} (env : Env S) (now : ℕ) (handler : Action → Server S → Server S) where
  unfoldable pub hand_over : List Action → Server S → Server S
  hand_over [] s = s
  hand_over (a ∷ rest) s = hand_over rest (handler a s)

  -- flushActions: the queue is emptied before the first action is handed over.
  unfoldable pub flush_actions : Server S → Server S
  unfolding hand_over
  flush_actions s =
      hand_over s.engine.pending_actions
        (record s { engine = record s.engine { pending_actions = [] } })

  -- The protected call between `lua_sethook` and its end.
  unfoldable pub protected : String → Run S → Engine S → Engine S × Option String
  protected event code e =
      let (e', problem) =
        run env now code (record e { current_event = some event; dispatching = true }) in
      (record e' { current_event = none; dispatching = false }, problem)

  -- What follows the protected call: a failure drops the queue, a success hands it over.
  unfoldable pub settle : String → String → Engine S × Option String → Server S → Server S
  unfolding flush_actions
  settle place label (e, some problem) s = record s {
    engine =
        set_problem env now (concat (place ∷ problem ∷ [])) (record e { pending_actions = [] });
  }
  settle place label (e, none) s =
      flush_actions (record s { engine = record e { last_event = label } })

  unfoldable pub call_loaded : String → List (String × Json) → S → Server S → Server S
  unfolding protected settle
  call_loaded event detail lua s = elim (env.on_event lua) [
    | missing ↦ s
    | not_a_function ↦ record s {
      engine = set_problem env now "Lua: on_event ist keine Funktion." s.engine;
    }
    | callable ↦
        settle (concat ("Lua-Ereignis " ∷ event ∷ ": " ∷ []))
          (concat (event ∷ " · " ∷ env.stamp now ∷ []))
          (protected event
            (env.call_on_event lua (
              object (
                members (("timestamp", string (env.stamp now)) ∷ ("type", string event) ∷ detail))))
            s.engine)
          s
  ]

  -- callEvent
  unfoldable pub call_event : String → List (String × Json) → Server S → Server S
  unfolding call_loaded
  call_event event detail s =
      if unavailable s.engine || s.engine.manual_override
      then s
      else elim s.engine.lua [ none ↦ s | some lua ↦ call_loaded event detail lua s ]

  unfoldable pub long_timer_loaded : S → Server S → Server S
  unfolding protected settle
  long_timer_loaded lua s = elim (env.on_long_timer lua) [
    | missing ↦ record s { engine = record s.engine { last_event = "long_timer · keine Funktion" } }
    | not_a_function ↦ record s {
      engine = set_problem env now "Lua: on_long_timer ist keine Funktion." s.engine;
    }
    | callable ↦
        settle "Lua-Funktion on_long_timer: " (concat ("long_timer · " ∷ env.stamp now ∷ []))
          (protected "long_timer" (env.call_on_long_timer lua) s.engine) s
  ]

  -- longTimerEvent: a manual override does not stop it.
  unfoldable pub long_timer_event : Server S → Server S
  unfolding long_timer_loaded
  long_timer_event s =
      if unavailable s.engine
      then s
      else elim s.engine.lua [ none ↦ s | some lua ↦ long_timer_loaded lua s ]

  -- commandEvent
  unfoldable pub command_event : String → Bool → String → Server S → Server S
  command_event source ok text s =
      call_event "command"
        (("source", string source) ∷ ("ok", boolean ok) ∷ ("message", string text) ∷ [])
        (record s {
          engine = record s.engine {
            last_action = concat (
                source
                ∷ " · "
                ∷ (if ok then "bestätigt" else "fehlgeschlagen")
                ∷ " · "
                ∷ env.stamp now
                ∷ []);
          };
        })

  unfoldable pub fire : Bool → Option (Schedule × ℕ × String) → Server S → Server S
  fire force none s = s
  fire force (some (schedule, at, key)) s =
      let due = record s {
        engine = record s.engine {
          last_action =
              concat ("Zeitplan " ∷ env.text schedule.name ∷ " fällig · " ∷ env.stamp at ∷ []);
        };
      } in
      if not force && contains_key key s.engine.handled_occurrences
      then s
      else handler
          (record {
            values = schedule.values;
            source = concat ("Lua-Zeitplan " ∷ env.text schedule.name ∷ []);
            occurrence_key = some key;
          })
          due

  -- evaluateSchedules
  unfoldable pub evaluate_schedules : Bool → Server S → Server S
  unfolding fire
  evaluate_schedules force s =
      let e = s.engine in
      if not (is_some e.lua)
        || is_some e.last_error
        || e.manual_override
        || not e.connected
        || is_empty e.schedules
      then s
      else fire force (select env now e.schedules none) s

  -- processTime
  unfoldable pub process_time : Server S → Server S
  process_time s =
      let e = s.engine in
      if not (is_some e.lua) || e.manual_override || env.minute_text now == e.last_minute
      then s
      else evaluate_schedules false (
          call_event "time" (detail_list (env.time_detail now))
            (record s { engine = record e { last_minute = env.minute_text now } }))

  -- setConnected
  unfoldable pub set_connected : Bool → Option String → Server S → Server S
  set_connected connected reason s =
      if same s.engine.connected connected
      then s
      else let told =
          call_event (if connected then "connected" else "disconnected") (reason_detail reason)
            (record s { engine = record s.engine { connected = connected } }) in
        if told.engine.connected then evaluate_schedules false told else told
