-- ===== src/Desklet/Controller/Requests.antt =====
-- What the desklet asks of the server (src/client/controller.cpp): settings of the device with their
-- watchdogs, the automation, and the editing of the script.
use air_ctrl_desklet.Prelude.{
  ℕ, ◌-◌, ◌^◌, ltb, Bool, true, false, not, ◌||◌, Option, none, some, String, ◌==◌, if◌then◌else◌,
  nat_eq,
}
use air_ctrl_desklet.Prelude.Int.{ℤ, pos, negsuc}
use air_ctrl_desklet.Json.{Json, boolean, integer, string, object, Fields, end, field, no_fields}
use air_ctrl_desklet.ControlValues.Client.{control_values_error_client}
use air_ctrl_desklet.Desklet.Controller.State.{
  Controller, Qt, command_failed, automation_edit_failed, is_connected, increment, emit,
  send_object, request, set_busy, fail_command, address_error,
}

-- the slots of writeWatchdog_ and confirmation_
abbrev pub on_write_timeout : Controller → Controller
unfolding fail_command
on_write_timeout c =
    fail_command
      "Keine Serverantwort auf den Schaltbefehl · Ausgang unbekannt; keine automatische Wiederholung."
      c

abbrev pub on_confirmation_timeout : Controller → Controller
unfolding fail_command
on_confirmation_timeout c =
    fail_command
      "Keine neue Statusbestätigung nach dem Schaltbefehl · keine automatische Wiederholung." c

-- static_cast<qint64> of a quint64
abbrev pub signed : ℕ → ℤ
signed n = if ltb n (2 ^ 63) then pos n else negsuc (2 ^ 64 - 1 - n)

abbrev pub id_field : String → ℕ → Fields → Fields
id_field name id rest = field name (integer (signed id)) rest

abbrev pub control_request : ℕ → Json → Fields
control_request id values =
    field "_airctrl" (string "control") (id_field "id" id (field "values" values end))

module _ (qt : Qt) where
  abbrev pub write_checked : Option String → Json → Controller → Controller
  unfolding fail_command set_busy send_object
  write_checked (some error) values c = fail_command error c
  write_checked none values c =
      if not c.active || not (is_connected c.socket) || not c.has_status
      then fail_command "Keine aktive Geräteverbindung im AirControl-Server." c
      else (let id = c.next_command_id in
          let waiting = set_busy true (record c {
            awaiting_confirmation = false;
            pending_command_id = id;
            next_command_id = increment id;
          }) in
          record (send_object (control_request id values) waiting) {
            write_watchdog = some waiting.write_ms;
          })

  unfoldable pub launch_write : Json → Controller → Controller
  unfolding address_error fail_command set_busy send_object
  launch_write values c = if c.busy then c else write_checked (address_error qt c) values c

  abbrev pub set_checked : Option String → Json → Controller → Controller
  unfolding launch_write fail_command
  set_checked (some problem) values c = fail_command problem c
  set_checked none values c = launch_write values c

  unfoldable pub set_panel_values : Fields → Controller → Controller
  unfolding launch_write fail_command
  set_panel_values values c =
      if c.busy || no_fields values
      then c
      else set_checked (control_values_error_client values) (object values) c

  abbrev pub set_power : Bool → Controller → Controller
  unfolding set_panel_values
  set_power on c = set_panel_values (field "pwr" (string (if on then "1" else "0")) end) c

  abbrev pub set_humidity : ℤ → Controller → Controller
  unfolding set_panel_values
  set_humidity percent c = set_panel_values (field "rhset" (integer percent) end) c

unfoldable pub resume_automation : Controller → Controller
unfolding send_object
resume_automation c =
    if not c.active || not (is_connected c.socket)
    then c
    else send_object (request "automation_resume") c

unfoldable pub trigger_long_timer : Controller → Controller
unfolding send_object
trigger_long_timer c =
    if not c.active || not (is_connected c.socket)
    then emit (command_failed "Keine Verbindung zum AirControl-Server für on_long_timer().") c
    else send_object (request "long_timer") c

unfoldable pub begin_automation_edit : Controller → Controller
unfolding send_object
begin_automation_edit c =
    if not (c.pending_automation_request_id == 0) || c.automation_edit_held
    then c
    else if not c.active || not (is_connected c.socket)
    then emit (automation_edit_failed "Keine Verbindung zum AirControl-Server.") c
    else (let id = c.next_automation_request_id in
        record (send_object
          (field "_airctrl" (string "automation_edit_begin") (id_field "id" id end))
          (record c {
            pending_automation_request_id = id;
            next_automation_request_id = increment id;
          })) { automation_watchdog = some 10000 })

unfoldable pub save_automation_edit : String → Bool → ℕ → Controller → Controller
unfolding send_object
save_automation_edit script enabled revision c =
    if not (c.pending_automation_request_id == 0)
    then c
    else if not c.automation_edit_held || not (is_connected c.socket)
    then emit (automation_edit_failed "Dieser Client besitzt keine Lua-Editier-Sperre.") c
    else (let id = c.next_automation_request_id in
        record (send_object
          (field "_airctrl" (string "automation_edit_save") (
            id_field "id" id (
              id_field "revision" revision
                (field "enabled" (boolean enabled) (field "script" (string script) end)))))
          (record c {
            pending_automation_request_id = id;
            next_automation_request_id = increment id;
          })) { automation_watchdog = some 10000 })

unfoldable pub cancel_automation_edit : Controller → Controller
unfolding send_object
cancel_automation_edit c =
    let stopped = record c { automation_watchdog = none; pending_automation_request_id = 0 } in
    let told =
      if is_connected stopped.socket
      then send_object (request "automation_edit_cancel") stopped
      else stopped in
    record told { automation_edit_held = false }

-- the slot of automationWatchdog_
abbrev pub on_automation_timeout : Controller → Controller
unfolding cancel_automation_edit
on_automation_timeout c =
    emit (automation_edit_failed "Keine Serverantwort auf die Lua-Editor-Anforderung.")
      (cancel_automation_edit c)
