-- ===== src/Desklet/Controller/Upkeep.antt =====
-- How Controller keeps its connection up: configure, start, stop, refresh, the heartbeat with its slots,
-- and the setters of its intervals (src/client/controller.cpp).
use air_ctrl_desklet.Prelude.{
  ◌*◌, Bool, true, false, not, ◌&&◌, ◌||◌, [], none, some, String, ◌==◌, if◌then◌else◌, nat_eq,
  string_eq,
}
use air_ctrl_desklet.Prelude.Int.{ℤ, int_beq}
use air_ctrl_desklet.Desklet.Controller.State.{
  Controller, Qt, is_connected, at_least, bounded, increment, send_object, request, set_busy,
  connection_failed, abort,
}
use air_ctrl_desklet.Desklet.Controller.Connect.{connect_server}

-- What stop clears before it aborts the connection.
abbrev pub quiet : Controller → Controller
quiet c = record c {
  active = false;
  lookup_generation = increment c.lookup_generation;
  resolving = false;
  connecting = false;
  addresses = [];
  refresh_scheduled = false;
  reconnect = none;
  connect_watchdog = none;
  write_watchdog = none;
  confirmation = none;
  heartbeat = none;
  heartbeat_watchdog = none;
  automation_watchdog = none;
  awaiting_confirmation = false;
  pending_command_id = 0;
  has_status = false;
  automation_edit_held = false;
  pending_automation_request_id = 0;
  stream = [];
}

abbrev pub with_endpoint : String → ℤ → ℤ → Controller → Controller
with_endpoint host port seconds c = record c {
  server_host = host;
  server_port = port;
  reconnect_ms = bounded 1 seconds 300 * 1000;
}

-- What configure gives up where the endpoint is another one.
abbrev pub abandoned : Controller → Controller
abandoned c = record c {
  lookup_generation = increment c.lookup_generation;
  resolving = false;
  connecting = false;
  addresses = [];
  connect_watchdog = none;
}

module _ (qt : Qt) where
  -- sendHeartbeat, the slot of heartbeat_
  unfoldable pub send_heartbeat : Controller → Controller
  unfolding send_object
  send_heartbeat c =
      if not c.active || not (is_connected c.socket)
      then c
      else record (send_object (request "ping") c) {
        heartbeat_watchdog = some c.heartbeat_timeout_ms;
      }

  -- the slot of heartbeatWatchdog_
  unfoldable pub on_heartbeat_timeout : Controller → Controller
  unfolding connection_failed abort
  on_heartbeat_timeout c =
      if not c.active || not (is_connected c.socket)
      then c
      else abort qt
          (connection_failed qt "AirControl-Server antwortet nicht auf die Verbindungsprüfung." c)

  unfoldable pub start : Controller → Controller
  unfolding connect_server
  start c =
      if c.active
      then c
      else connect_server qt (record c { active = true; launch_attempted = false })

  unfoldable pub stop : Controller → Controller
  unfolding abort set_busy
  stop c = set_busy false (abort qt (quiet c))

  abbrev pub endpoint_changed : String → ℤ → Controller → Bool
  endpoint_changed new_host port c =
      not (new_host == c.server_host) || not (int_beq port c.server_port)

  -- configure
  unfoldable pub configure : String → ℤ → ℤ → Controller → Controller
  unfolding abort connect_server
  configure host port seconds c =
      let new_host = qt.trimmed_text host in
      let set = with_endpoint new_host port seconds c in
      if endpoint_changed new_host port c && set.active
      then connect_server qt (record (abort qt (abandoned set)) { reconnect = none })
      else set

  -- refresh, and the call that it defers
  unfoldable pub schedule_refresh : Controller → Controller
  schedule_refresh c =
      if not c.active || c.busy || c.refresh_scheduled
      then c
      else record c { refresh_scheduled = true }

  unfoldable pub on_refresh : Controller → Controller
  unfolding connect_server send_object
  on_refresh c =
      let due = record c { refresh_scheduled = false } in
      if not due.active || due.busy
      then due
      else if is_connected due.socket
      then record (send_object (request "refresh") due) {
        progress = "Geräte-I/O wird im Server neu aufgebaut";
      }
      else connect_server qt (record due { reconnect = none })

abbrev pub set_watchdog_interval : ℤ → Controller → Controller
set_watchdog_interval ms c = record c { write_ms = at_least 50 ms }

abbrev pub set_confirmation_timeout : ℤ → Controller → Controller
set_confirmation_timeout ms c = record c { confirmation_ms = at_least 50 ms }

abbrev pub set_reconnect_delay : ℤ → Controller → Controller
set_reconnect_delay ms c = record c { reconnect_ms = at_least 50 ms }

abbrev pub set_heartbeat_intervals : ℤ → ℤ → Controller → Controller
set_heartbeat_intervals interval timeout c = record c {
  heartbeat_ms = at_least 50 interval;
  heartbeat_timeout_ms = at_least 50 timeout;
}
