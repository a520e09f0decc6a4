-- ===== src/Desklet/Controller/Events.antt =====
-- The life of a Controller as a sequence of what may happen to it: calls of its methods, expiring
-- timers, and what the socket and the lookup report. Every event comes with what Qt answers then.
use air_ctrl_desklet.Prelude.{
  ℕ, Bool, true, false, not, ◌||◌, List, [], ◌∷◌, none, String, ◌==◌, if◌then◌else◌, nat_eq,
  is_some,
}
use air_ctrl_desklet.Prelude.Int.{ℤ, pos}
use air_ctrl_desklet.Json.{Fields}
use air_ctrl_desklet.Desklet.Controller.State.{
  Controller, Qt, Socket, unconnected, opening, connected, is_connected, on_disconnected,
}
use air_ctrl_desklet.Desklet.Controller.Connect.{
  Lookup, SocketError, connect_server, on_lookup, on_error, on_connected, on_connect_timeout,
}
use air_ctrl_desklet.Desklet.Controller.Upkeep.{
  send_heartbeat, on_heartbeat_timeout, start, stop, configure, schedule_refresh, on_refresh,
  set_watchdog_interval, set_confirmation_timeout, set_reconnect_delay, set_heartbeat_intervals,
}
use air_ctrl_desklet.Desklet.Controller.Requests.{
  on_write_timeout, on_confirmation_timeout, set_panel_values, set_power, set_humidity,
  resume_automation, trigger_long_timer, begin_automation_edit, save_automation_edit,
  cancel_automation_edit, on_automation_timeout,
}
use air_ctrl_desklet.Desklet.Controller.Messages.{read_server}

pub data Happening : Type 0 where
  do_configure : String → ℤ → ℤ → Happening
  do_start do_stop do_refresh do_resume do_long_timer do_begin_edit do_cancel_edit : Happening
  do_power : Bool → Happening
  do_humidity : ℤ → Happening
  do_values : Fields → Happening
  do_save_edit : String → Bool → ℕ → Happening
  do_set_write do_set_confirmation do_set_reconnect : ℤ → Happening
  do_set_heartbeat : ℤ → ℤ → Happening
  refresh_due : Happening
  reconnect_expired connect_expired write_expired confirmation_expired : Happening
  heartbeat_expired heartbeat_watchdog_expired automation_expired : Happening
  looked_up : ℕ → Lookup → Happening
  socket_connected socket_disconnected : Happening
  socket_read : List ℕ → Happening
  socket_error : SocketError → String → Bool → Happening

abbrev pub is_opening : Socket → Bool
is_opening opening = true
is_opening _ = false

-- Timers expire while they are active; a lookup calls back once, so that the current one does so only
-- while the name is being resolved; a socket connects only while it is opening, and reads and
-- disconnects only when it is connected.
abbrev pub possible : Happening → Controller → Bool
possible reconnect_expired c = is_some c.reconnect
possible connect_expired c = is_some c.connect_watchdog
possible write_expired c = is_some c.write_watchdog
possible confirmation_expired c = is_some c.confirmation
possible heartbeat_expired c = is_some c.heartbeat
possible heartbeat_watchdog_expired c = is_some c.heartbeat_watchdog
possible automation_expired c = is_some c.automation_watchdog
possible (looked_up generation result) c = c.resolving || not (generation == c.lookup_generation)
possible socket_connected c = is_opening c.socket
possible socket_disconnected c = is_connected c.socket
possible (socket_read bytes) c = is_connected c.socket
possible (socket_error error text started) c = is_opening c.socket || is_connected c.socket
possible _ c = true

-- A failed attempt leaves the socket unconnected before its signal; a connection that breaks reports
-- its end by another signal.
abbrev pub after_error : Socket → Socket
after_error connected = connected
after_error _ = unconnected

unfoldable pub happen : Qt → Happening → Controller → Controller
unfolding connect_server on_lookup on_error on_connected on_connect_timeout send_heartbeat
    on_heartbeat_timeout start stop configure schedule_refresh on_refresh set_panel_values
    resume_automation trigger_long_timer begin_automation_edit save_automation_edit
    cancel_automation_edit read_server on_disconnected
happen qt (do_configure host port seconds) c = configure qt host port seconds c
happen qt do_start c = start qt c
happen qt do_stop c = stop qt c
happen qt do_refresh c = schedule_refresh qt c
happen qt do_resume c = resume_automation c
happen qt do_long_timer c = trigger_long_timer c
happen qt do_begin_edit c = begin_automation_edit c
happen qt do_cancel_edit c = cancel_automation_edit c
happen qt (do_power on) c = set_power qt on c
happen qt (do_humidity percent) c = set_humidity qt percent c
happen qt (do_values values) c = set_panel_values qt values c
happen qt (do_save_edit script enabled revision) c = save_automation_edit script enabled revision c
happen qt (do_set_write ms) c = set_watchdog_interval ms c
happen qt (do_set_confirmation ms) c = set_confirmation_timeout ms c
happen qt (do_set_reconnect ms) c = set_reconnect_delay ms c
happen qt (do_set_heartbeat interval timeout) c = set_heartbeat_intervals interval timeout c
happen qt refresh_due c = on_refresh qt c
happen qt reconnect_expired c = connect_server qt (record c { reconnect = none })
happen qt connect_expired c = on_connect_timeout qt (record c { connect_watchdog = none })
happen qt write_expired c = on_write_timeout (record c { write_watchdog = none })
happen qt confirmation_expired c = on_confirmation_timeout (record c { confirmation = none })
happen qt heartbeat_expired c = send_heartbeat qt (record c { heartbeat = none })
happen qt heartbeat_watchdog_expired c =
    on_heartbeat_timeout qt (record c { heartbeat_watchdog = none })
happen qt automation_expired c = on_automation_timeout (record c { automation_watchdog = none })
happen qt (looked_up generation result) c = on_lookup qt generation result c
happen qt socket_connected c = on_connected qt (record c { socket = connected })
happen qt socket_disconnected c = on_disconnected qt (record c { socket = unconnected })
happen qt (socket_read bytes) c = read_server qt bytes c
happen qt (socket_error error text started) c =
    on_error qt error text started (record c { socket = after_error c.socket })

-- What is not possible does not happen.
unfoldable pub step : Qt → Happening → Controller → Controller
unfolding happen
step qt happening c = if possible happening c then happen qt happening c else c

unfoldable pub live : List (Qt × Happening) → Controller → Controller
unfolding step
live [] c = c
live ((qt, happening) ∷ rest) c = live rest (step qt happening c)

-- the constructor, with the defaults of the members; the program of a test server, and the endpoint
unfoldable pub new_controller : String → String → ℕ → Controller
new_controller executable host port = record {
  executable = executable;
  server_host = host;
  server_port = pos port;
  reconnect_ms = 10000;
  write_ms = 25000;
  confirmation_ms = 90000;
  heartbeat_ms = 5000;
  heartbeat_timeout_ms = 3000;
  active = false;
  busy = false;
  has_status = false;
  awaiting_confirmation = false;
  launch_attempted = false;
  failure_reported = false;
  refresh_scheduled = false;
  status_count = 0;
  observation_starts = 0;
  next_command_id = 1;
  pending_command_id = 0;
  progress = "";
  socket = unconnected;
  addresses = [];
  next_address = 0;
  lookup_generation = 0;
  resolving = false;
  connecting = false;
  reconnect = none;
  connect_watchdog = none;
  write_watchdog = none;
  confirmation = none;
  heartbeat = none;
  heartbeat_watchdog = none;
  automation_watchdog = none;
  stream = [];
  next_automation_request_id = 1;
  pending_automation_request_id = 0;
  automation_edit_held = false;
  sent = [];
  signals = [];
  opened = [];
}
