-- ===== src/Desklet/Controller/Messages.antt =====
-- readServer and handleEnvelope (src/client/controller.cpp). A message that is not wanted where it
-- comes, by its number, is dropped.
use air_ctrl_desklet.Prelude.{
  ℕ, zero, suc, ◌*◌, Bool, true, false, not, ◌&&◌, ◌||◌, List, ◌++◌, Option, none, some, String,
  ◌==◌, if◌then◌else◌, nat_eq, string_eq, ltb, length, is_empty,
}
use air_ctrl_desklet.Json.{
  Json, null, boolean, string, object, end, find, is_object, is_filled_object, is_string,
}
use air_ctrl_desklet.Server.Connections.{next_line}
use air_ctrl_desklet.Desklet.Controller.State.{
  Controller, Qt, automation_state_received, automation_edit_failed, automation_edit_granted,
  automation_saved, control_accepted, status_packet_received, status_received, is_connected, emit,
  increment, set_busy, fail_command, connection_failed, abort,
}
use air_ctrl_desklet.Desklet.Controller.Requests.{cancel_automation_edit}

-- QJsonObject::value with the conversions of QJsonValue
abbrev pub value_of : String → Json → Json
value_of key envelope = elim (find key envelope) [ none ↦ null | some v ↦ v ]

abbrev pub text_or : String → Json → String
text_or default (string s) = s
text_or default _ = default

abbrev pub to_bool : Json → Bool
to_bool (boolean b) = b
to_bool _ = false

abbrev pub to_object : Json → Json
to_object (object fs) = object fs
to_object _ = object end

abbrev pub text_of : String → Json → String
text_of key envelope = text_or "" (value_of key envelope)

abbrev pub go_on : (Controller → Controller) → Bool × Controller → Controller
go_on more (true, c) = more c
go_on more (false, c) = c

abbrev pub maximum_message : ℕ
maximum_message = 1024 * 1024

module _ (qt : Qt) where
  abbrev pub number_of : String → Json → ℕ
  number_of key envelope = qt.unsigned_long_long (value_of key envelope)

  unfoldable pub on_pong : Controller → Controller
  on_pong c =
      let stopped = record c { heartbeat_watchdog = none } in
      if stopped.active && is_connected stopped.socket
      then record stopped { heartbeat = some stopped.heartbeat_ms }
      else stopped

  abbrev pub answered_edit : Controller → Controller
  answered_edit c = record c { automation_watchdog = none; pending_automation_request_id = 0 }

  unfoldable pub on_automation_edit : Json → Controller → Controller
  unfolding cancel_automation_edit
  on_automation_edit envelope c =
      let id = number_of "id" envelope in
      if id == 0 || not (id == c.pending_automation_request_id)
      then c
      else if not (to_bool (value_of "ok" envelope))
      then emit
          (automation_edit_failed
            (text_or "Lua-Editor konnte nicht geöffnet werden." (value_of "error" envelope)))
          (answered_edit c)
      else if not (is_string (value_of "script" envelope))
          || not (is_object (value_of "state" envelope))
      then emit (automation_edit_failed "Unvollständige Lua-Editor-Antwort des Servers.")
          (cancel_automation_edit (answered_edit c))
      else (let state = to_object (value_of "state" envelope) in
          emit
            (automation_edit_granted (text_of "script" envelope)
              (to_bool (value_of "enabled" state)) (number_of "revision" envelope) state)
            (record (answered_edit c) { automation_edit_held = true }))

  unfoldable pub on_automation_saved : Json → Controller → Controller
  on_automation_saved envelope c =
      let id = number_of "id" envelope in
      if id == 0 || not (id == c.pending_automation_request_id)
      then c
      else if not (to_bool (value_of "ok" envelope))
      then emit
          (automation_edit_failed
            (text_or "Lua-Skript wurde vom Server abgelehnt." (value_of "error" envelope)))
          (answered_edit c)
      else (let state = to_object (value_of "state" envelope) in
          emit (automation_saved state) (
            emit (automation_state_received state)
              (record (answered_edit c) { automation_edit_held = false })))

  abbrev pub interrupt_command : Controller → Controller
  unfolding fail_command
  interrupt_command c =
      if c.busy
      then fail_command
          "Geräte-I/O des Servers wurde während des Schaltbefehls unterbrochen · keine Wiederholung."
          c
      else c

  abbrev pub loss_reason : Json → String
  loss_reason envelope =
      let reason = qt.trimmed_text (text_of "error" envelope) in
      if reason == "" then "Geräteverbindung des Servers fehlgeschlagen." else reason

  abbrev pub with_starts : Json → Controller → Controller
  with_starts envelope c = record c { observation_starts = number_of "starts" envelope }

  unfoldable pub on_server_state : Json → Controller → Controller
  unfolding fail_command connection_failed
  on_server_state envelope c =
      let state = text_of "state" envelope in
      let seen = with_starts envelope c in
      if state == "error"
      then connection_failed qt (loss_reason envelope)
          (interrupt_command (record seen { has_status = false }))
      else if state == "connecting"
      then record seen { has_status = false; progress = "Server baut Geräte-I/O auf" }
      else seen

  unfoldable pub on_control_answer : Json → Controller → Controller
  unfolding fail_command
  on_control_answer envelope c =
      let id = number_of "id" envelope in
      if not c.busy || id == 0 || not (id == c.pending_command_id)
      then c
      else (let answered = record c { write_watchdog = none; pending_command_id = 0 } in
          if not (to_bool (value_of "ok" envelope))
          then (let reason = qt.trimmed_text (text_of "error" envelope) in
              fail_command
                (if reason == "" then "Schaltbefehl abgelehnt oder nicht bestätigt." else reason)
                answered)
          else emit control_accepted (record answered {
            awaiting_confirmation = true;
            confirmation = some answered.confirmation_ms;
          }))

  unfoldable pub on_status_data : Json → Controller → Controller
  unfolding set_busy
  on_status_data status c =
      let counted = emit status_packet_received (record c {
        has_status = true;
        failure_reported = false;
        status_count = increment c.status_count;
        progress = "Server und Geräte-I/O aktiv";
      }) in
      if counted.busy && not counted.awaiting_confirmation
      then counted
      else emit (status_received status) (
          if counted.awaiting_confirmation
          then set_busy false
              (record counted { awaiting_confirmation = false; confirmation = none })
          else counted)

  unfoldable pub handle_envelope : Json → Controller → Controller
  unfolding on_pong on_automation_edit on_automation_saved on_server_state on_control_answer
      on_status_data connection_failed
  handle_envelope envelope c =
      let kind = text_of "_airctrl" envelope in
      if kind == "pong"
      then on_pong c
      else if kind == "automation_state"
      then emit (automation_state_received envelope) c
      else if kind == "automation_edit"
      then on_automation_edit envelope c
      else if kind == "automation_saved"
      then on_automation_saved envelope c
      else if kind == "automation_edit_released"
      then c
      else if kind == "state"
      then on_server_state envelope c
      else if kind == "configured"
      then c
      else if kind == "error"
      then connection_failed qt (text_of "error" envelope) c
      else if kind == "control"
      then on_control_answer envelope c
      else if not (kind == "status") || not (is_filled_object (value_of "data" envelope))
      then connection_failed qt "Unbekannte Meldung des AirControl-Servers." c
      else on_status_data (value_of "data" envelope) c

  abbrev pub give_up : String → Controller → Controller
  unfolding abort connection_failed
  give_up reason c = connection_failed qt reason (abort qt c)

  abbrev pub take_document : Option Json → Controller → Bool × Controller
  unfolding handle_envelope abort connection_failed
  take_document (some (object fs)) c = (true, handle_envelope (object fs) c)
  take_document _ c = (false, give_up "Ungültige IPC-Nachricht des Servers." c)

  -- One turn of the loop with a complete line: whether the loop goes on, and the state.
  unfoldable pub read_line : List ℕ → List ℕ → Controller → Bool × Controller
  unfolding handle_envelope abort connection_failed
  read_line line rest c =
      if ltb maximum_message (length line)
      then (false, give_up "IPC-Nachricht des Servers ist zu groß." c)
      else (let text = qt.trimmed line in
          let taken = record c { stream = rest } in
          if is_empty text then (true, taken) else take_document (qt.from_json text) taken)

  unfoldable pub check_rest : Controller → Controller
  unfolding abort connection_failed
  check_rest c =
      if ltb maximum_message (length c.stream)
      then give_up "Unvollständige IPC-Nachricht des Servers ist zu groß." c
      else c

  abbrev pub read_next :
      (Controller → Controller) → Option (List ℕ × List ℕ) → Controller → Controller
  unfolding read_line check_rest
  read_next more none c = check_rest c
  read_next more (some (line, rest)) c = go_on more (read_line line rest c)

  -- The loop, which takes at least a newline in every turn, so that the length of the stream bounds
  -- it.
  unfoldable pub read_loop : ℕ → Controller → Controller
  unfolding read_line check_rest
  read_loop zero c = check_rest c
  read_loop (suc fuel) c = read_next (read_loop fuel) (next_line c.stream) c

  unfoldable pub read_server : List ℕ → Controller → Controller
  unfolding read_loop
  read_server bytes c =
      let longer = record c { stream = c.stream ++ bytes } in
      read_loop (length longer.stream) longer
