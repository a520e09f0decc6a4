-- ===== src/Server/Requests.antt =====
-- The requests of the clients: handle, with every kind of request but the editor's (src/server/server.cpp).
pub mod Alive
use air_ctrl_desklet.Prelude.{
  ℕ, ◌+◌, Bool, true, false, not, ◌&&◌, List, [], ◌∷◌, ◌++◌, Option, none, some, String, ◌==◌,
  if◌then◌else◌, nat_eq, string_eq, is_some, any,
}
use air_ctrl_desklet.Json.{Json, object, end, find, is_filled_object}
use air_ctrl_desklet.ControlValues.{control_values_error}
use air_ctrl_desklet.Automation.Types.{Env}
use air_ctrl_desklet.Automation.State.{set_manual_override}
use air_ctrl_desklet.Server.State.{Server, Client, Command, Event, controlled}
use air_ctrl_desklet.Server.Clients.{message, send, broadcast_automation_state}
use air_ctrl_desklet.Server.Events.{long_timer_event}
use air_ctrl_desklet.Server.StatusEvents.{reevaluate}
use air_ctrl_desklet.Server.Actions.{handle_action}
use air_ctrl_desklet.Server.Answers.{request_id, kind_of, failure, error_message}
use air_ctrl_desklet.Server.Editor.{edit_begin, edit_save, edit_cancel}

-- affectsAutomation
unfoldable pub affects_automation : Json → Bool
affects_automation values =
    any (λ key. is_some (find key values)) ("pwr" ∷ "mode" ∷ "om" ∷ "func" ∷ "rhset" ∷ "dt" ∷ [])

abbrev not_executed : Command → Event
not_executed c = controlled c false (some "Geräte-I/O wird erneuert; Befehl nicht ausgeführt.")

abbrev pub fail_all : List Command → List Event
fail_all [] = []
fail_all (c ∷ rest) = not_executed c ∷ fail_all rest

abbrev pub values_of : Option Json → Json
values_of none = object end
values_of (some v) = v

abbrev pub problem_or : Option String → String
problem_or none = "Ungültige Befehlskennung."
problem_or (some p) = p

abbrev pub checks : Option ℕ → Option String → Option ℕ
checks (some id) none = some id
checks _ _ = none

abbrev pub push_command : {S : Type 0} → ℕ → ℕ → Json → Server S → Server S
push_command client id values s = record s {
  commands =
      s.commands
      ++ record {
        client = client;
        id = id;
        values = values;
        automated = false;
        source = "";
        occurrence_key = none;
      }
        ∷ [];
}

-- refresh: the queued commands are answered as not executed.
unfoldable pub refresh : {S : Type 0} → Server S → Server S
refresh s = if s.refresh_scheduled then s else record s {
  refresh_scheduled = true;
  device_ready = false;
  reconnect_requested = true;
  commands = [];
  events = s.events ++ fail_all s.commands;
}

module _ {S : Type 0} (env : Env S) (now : ℕ) where
  -- automation_resume
  unfoldable pub resume : Server S → Server S
  resume s =
      let cleared = record s { engine = (set_manual_override env now false "" s.engine).1 } in
      broadcast_automation_state env (
        if s.engine.manual_override && is_filled_object cleared.last_status
        then reevaluate env now (handle_action env now) cleared.last_status cleared
        else cleared)

  -- A manual setting suspends the automation.
  unfoldable pub override_by : Json → Server S → Server S
  override_by values s =
      let (changed, e) =
        set_manual_override env now true "Manuelle Einstellung an einem Client" s.engine in
      if s.engine.enabled && affects_automation values
      then (if changed
          then broadcast_automation_state env (record s { engine = e })
          else record s { engine = e })
      else s

  unfoldable pub control_checked : ℕ → ℕ → Json → Server S → Server S
  unfolding override_by
  control_checked client id values s =
      if not s.device_ready
      then send env client
          (failure "control" (some id) "Der Server hat noch keine aktive Geräteverbindung.") s
      else push_command client id values (override_by values s)

  -- control
  unfoldable pub control : ℕ → Json → Server S → Server S
  unfolding control_checked
  control client request s =
      let values = values_of (find "values" request) in
      elim (checks (request_id request) (control_values_error values)) [
        | none ↦
            send env client
              (failure "control" (request_id request) (problem_or (control_values_error values))) s
        | some id ↦ control_checked client id values s
      ]

  -- handle
  unfoldable pub handle : ℕ → Json → Server S → Server S
  unfolding edit_begin edit_save edit_cancel resume refresh control
  handle client request s =
      let kind = kind_of request in
      if kind == "automation_edit_begin"
      then edit_begin env now client request s
      else if kind == "automation_edit_save"
      then edit_save env now client request s
      else if kind == "automation_edit_cancel"
      then edit_cancel env now client s
      else if kind == "automation_resume"
      then resume s
      else if kind == "long_timer"
      then broadcast_automation_state env (long_timer_event env now (handle_action env now) s)
      else if kind == "configure"
      then send env client
          (error_message "Geräteeinstellungen gehören ausschließlich in /etc/airctrld.cfg.") s
      else if kind == "refresh"
      then refresh s
      else if kind == "control"
      then control client request s
      else if kind == "ping"
      then send env client (message "pong" []) s
      else send env client (error_message "Unbekannter IPC-Befehl.") s
