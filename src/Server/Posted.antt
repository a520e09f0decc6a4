-- ===== src/Server/Posted.antt =====
-- processEvents of src/server/server.cpp: the events that the worker posts and the main thread handles.
use air_ctrl_desklet.Prelude.{
  ℕ, ◌+◌, ◌%◌, ◌^◌, Bool, true, false, not, List, [], ◌∷◌, ◌++◌, Option, none, some, String, ◌==◌,
  if◌then◌else◌, string_eq,
}
use air_ctrl_desklet.Prelude.Int.{pos}
use air_ctrl_desklet.Json.{Json, boolean, integer, is_filled_object}
use air_ctrl_desklet.Automation.Types.{Env}
use air_ctrl_desklet.Server.State.{
  Server, Command, Event, started, state_changed, status_received, controlled,
}
use air_ctrl_desklet.Server.Clients.{
  message, optional_text, send, broadcast, broadcast_automation_state, state_envelope,
}
use air_ctrl_desklet.Server.Events.{command_event, set_connected}
use air_ctrl_desklet.Server.StatusEvents.{status_event}
use air_ctrl_desklet.Server.Actions.{handle_action, confirm_action}

module _ {S : Type 0} (env : Env S) (now : ℕ) where
  unfoldable pub on_started : Server S → Server S
  on_started s =
      let e =
        set_connected env now (handle_action env now) false (some "Geräte-I/O wird neu aufgebaut.")
          (record s {
            starts = (s.starts + 1) % 2 ^ 64;
            refresh_scheduled = false;
            state = "connecting";
            state_error = none;
          }) in
      broadcast_automation_state env (broadcast env (state_envelope env e) e)

  abbrev interruption : Option String → String
  interruption none = "Geräte-I/O wurde vor der Statusbestätigung unterbrochen."
  interruption (some problem) = problem

  -- A pending confirmation does not survive a change of the device state.
  unfoldable pub drop_confirmation : Option String → Server S → Server S
  drop_confirmation problem s = elim s.pending_confirmation [
    | none ↦ s
    | some c ↦
        record (command_event env now (handle_action env now) c.source false (interruption problem)
          s) { pending_confirmation = none }
  ]

  unfoldable pub on_state : String → Option String → Server S → Server S
  unfolding drop_confirmation
  on_state state problem s =
      let named = record s { state = state; state_error = problem } in
      let told =
        if state == "connected"
        then named
        else set_connected env now (handle_action env now) false problem named in
      let dropped = drop_confirmation problem told in
      broadcast_automation_state env (broadcast env (state_envelope env dropped) dropped)

  abbrev pub logged : Json → Server S → Server S
  logged status s =
      if s.status_log_writable
      then record s { status_log = s.status_log ++ status ∷ []; status_log_error_reported = false }
      else record s { status_log_error_reported = true }

  unfoldable pub on_status : Json → Server S → Option (Server S)
  on_status status s =
      if not (is_filled_object status)
      then some s
      else elim (status_event env now (handle_action env now) status (
          confirm_action env now status (record (logged status s) {
            last_status = status;
            state = "connected";
            state_error = none;
          }))) [
            | none ↦ none
            | some told ↦ some (
                broadcast_automation_state env
                  (broadcast env (message "status" (("data", status) ∷ [])) told))
          ]

  unfoldable pub on_control : Command → Bool → Option String → Server S → Server S
  on_control c accepted problem s =
      if c.automated
      then if accepted
        then record s { pending_confirmation = some c }
        else broadcast_automation_state env
            (command_event env now (handle_action env now) c.source false (text_or_none problem) s)
      else send env c.client
          (message "control"
            (("id", integer (pos c.id)) ∷ ("ok", boolean accepted) ∷ optional_text "error" problem))
          s
    where
      text_or_none : Option String → String
      text_or_none none = ""
      text_or_none (some t) = t

  -- One event; `none` is the uncaught exception of `statusEvent`, which ends the process.
  unfoldable pub process_event : Event → Server S → Option (Server S)
  unfolding on_started on_state on_status on_control
  process_event started s = some (on_started s)
  process_event (state_changed state problem) s = some (on_state state problem s)
  process_event (status_received status) s = on_status status s
  process_event (controlled c accepted problem) s = some (on_control c accepted problem s)

  unfoldable pub process_list : List Event → Server S → Option (Server S)
  process_list [] s = some s
  process_list (event ∷ rest) s = elim (process_event event s) [
    | none ↦ none
    | some t ↦ process_list rest t
  ]

  -- processEvents: the queue is swapped out first.
  unfoldable pub process_events : Server S → Option (Server S)
  unfolding process_list
  process_events s = process_list s.events (record s { events = [] })
