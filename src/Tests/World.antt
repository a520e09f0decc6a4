-- ===== src/Tests/World.antt =====
-- The state of the tests: a server with a script and two clients, one of which edits.
use air_ctrl_desklet.Prelude.{ℕ, ◌≢◌, true, false, [], ◌∷◌, none, some, arith}
use air_ctrl_desklet.Prelude.Int.{pos}
use air_ctrl_desklet.Json.{Json, integer, string, object, end, field}
use air_ctrl_desklet.Automation.Types.{
  Env, Engine, Disk, Run, done, call, set, table, text_key, lua_text, callable, Moment,
}
use air_ctrl_desklet.Server.State.{Server, Client, Command}

abbrev pub power_on : Json
power_on = object (field "pwr" (string "1") end)

abbrev pub ask_lock : Json
ask_lock =
    object (field "_airctrl" (string "automation_edit_begin") (field "id" (integer (pos 7)) end))

-- A script that asks for power in every event.
abbrev pub script_run : ℕ → Run ℕ
script_run lua = call (set (table ((text_key "pwr", lua_text "1") ∷ []))) (λ reply. done lua)

abbrev pub noon : Moment
noon = record { year = 126; yday = 10; wday = 1; hour = 12; minute = 0 }

abbrev pub world : Env ℕ
world = record {
  load = λ text. some (done 0);
  on_event = λ lua. callable;
  on_long_timer = λ lua. callable;
  call_on_event = λ lua detail. script_run lua;
  call_on_long_timer = λ lua. script_run lua;
  local_time = λ t. noon;
  make_time = λ m back hour minute. some 0;
  stamp = λ t. "01.01.2026 12:00:00";
  minute_text = λ t. "2026-01-01 12:00";
  time_detail = λ t. end;
  dump = λ j. 123 ∷ 125 ∷ [];
  parse = λ bytes. some ask_lock;
  bytes = λ text. 65 ∷ [];
  text = λ bytes. "A";
  lua_release = "Lua 5.4.8";
  write_error = "Fehler";
  whole_double = λ text. none;
  number_text = λ n. "0";
}

abbrev pub disk : Disk
disk = record {
  script = some "-- leer";
  script_writable = true;
  state_writable = true;
  saved = none;
}

abbrev pub engine : Engine ℕ
engine = record {
  script_path = "/etc/airctrl.lua";
  disk = disk;
  lua = some 0;
  enabled = true;
  manual_override = false;
  manual_override_reason = "";
  connected = true;
  dispatching = false;
  revision = 1;
  current_event = none;
  last_error = none;
  last_event = "";
  last_action = "";
  last_minute = "";
  last_alert_digest = [];
  latest_status = object end;
  schedules = [];
  pending_actions = [];
  handled_occurrences = [];
  log_entries = [];
}

abbrev pub client : Client
client = record { input = 123 ∷ 125 ∷ 10 ∷ 123 ∷ []; output = []; close_after_write = false }

abbrev pub command : Command
command = record {
  client = 1;
  id = 5;
  values = power_on;
  automated = false;
  source = "";
  occurrence_key = none;
}

abbrev pub server : Server ℕ
server = record {
  engine = engine;
  clients = (1, client) ∷ (2, client) ∷ [];
  next_client = 3;
  automation_editor = 2;
  next_automation_id = 1;
  state = "connected";
  state_error = none;
  starts = 1;
  last_status = power_on;
  refresh_scheduled = false;
  accepted_any = true;
  quit_requested = false;
  exit_on_idle = false;
  stopping = false;
  device_ready = true;
  reconnect_requested = false;
  commands = command ∷ [];
  pending_confirmation = none;
  events = [];
  status_log = [];
  status_log_writable = true;
  status_log_error_reported = false;
}

pub one_not_zero : ◌≢◌ {A = ℕ} 1 0
one_not_zero = omega arith

pub two_not_zero : ◌≢◌ {A = ℕ} 2 0
two_not_zero = omega arith

pub three_not_zero : ◌≢◌ {A = ℕ} 3 0
three_not_zero = omega arith
