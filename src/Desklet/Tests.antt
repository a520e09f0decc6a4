-- ===== src/Desklet/Tests.antt =====
-- The theorems about the desklet at concrete inputs.
use air_ctrl_desklet.Prelude.{
  ℕ, zero, suc, ◌≡◌, ◌⊎◌, true, false, List, [], ◌∷◌, ◌++◌, none, some, refl, arith, length, nat_eq,
}
use air_ctrl_desklet.Prelude.Int.{pos}
use air_ctrl_desklet.Json.{Json, string, integer, object, end, field, find_field}
use air_ctrl_desklet.ControlValues.Client.{
  is_valid_client, check_entries_client, control_values_error_client,
}
use air_ctrl_desklet.Server.Connections.{next_line}
use air_ctrl_desklet.Desklet.Controller.State.{
  Controller, Qt, ipv4, unconnected, control_accepted, status_packet_received, status_received,
  busy_changed,
}
use air_ctrl_desklet.Desklet.Controller.Requests.{set_panel_values}
use air_ctrl_desklet.Desklet.Controller.Messages.{handle_envelope, read_server}
use air_ctrl_desklet.Desklet.Controller.Events.{
  Happening, do_configure, do_start, do_power, write_expired, confirmation_expired,
  socket_connected, socket_read, live, new_controller,
}
use air_ctrl_desklet.Desklet.Controller.Awake.{Awake}
use air_ctrl_desklet.Desklet.Controller.Alive.{live-new_controller-Awake, busy_ends, FailsAt}
use air_ctrl_desklet.Desklet.Controller.Stream.{Settled, read_server-Settled}
use air_ctrl_desklet.Desklet.Controller.Clogged.{Clogged}
use air_ctrl_desklet.Desklet.Controller.Clogged.Runs.{read_again-Clogged}
use air_ctrl_desklet.Desklet.Controller.Commands.{
  Outcome, set_panel_values-Outcome, Progress, handle_envelope-Progress,
}
use air_ctrl_desklet.Desklet.Controller.Exchange.{accepted, status_message, exchange}

abbrev power_status : Json
power_status = status_message "pwr" (string "1") end

abbrev number : Json → ℕ
number (integer (pos n)) = n
number _ = 0

abbrev qt : Qt
qt = record {
  is_executable = λ path. true;
  numeric = λ host. some (record { family = ipv4; text = host });
  trimmed_text = λ text. text;
  trimmed = λ line. line;
  from_json = λ line. some power_status;
  integer_text = λ i. "0";
  unsigned_long_long = number;
  error_string = "";
}

abbrev fresh : Controller
fresh = new_controller "" "10.0.0.1" 5680

-- A connection, a status, and a command.
abbrev switched_on : List (Qt × Happening)
switched_on =
    (qt, do_start)
    ∷ (qt, socket_connected)
    ∷ (qt, socket_read (123 ∷ 10 ∷ []))
    ∷ (qt, do_power true)
    ∷ []

live-new_controller-Awake_example : Awake (live switched_on (new_controller "" "10.0.0.1" 5680))
live-new_controller-Awake_example = live-new_controller-Awake "" "10.0.0.1" 5680 switched_on

switched_on_busy : (live switched_on (new_controller "" "10.0.0.1" 5680)).busy ≡ true
unfolding live new_controller next_line find_field control_values_error_client is_valid_client
    check_entries_client
switched_on_busy = refl

busy_ends_example :
    let c = live switched_on (new_controller "" "10.0.0.1" 5680) in
    FailsAt qt write_expired c.write_watchdog c.confirmation c
    ⊎ FailsAt qt confirmation_expired c.confirmation c.write_watchdog c
busy_ends_example = busy_ends "" "10.0.0.1" 5680 switched_on qt switched_on_busy

read_server-Settled_example : Settled qt (read_server qt (123 ∷ 10 ∷ 125 ∷ []) fresh)
read_server-Settled_example = read_server-Settled qt (123 ∷ 10 ∷ 125 ∷ []) fresh

set_panel_values-Outcome_example :
    Outcome
      (field "pwr" (string "1") end)
      (new_controller "" "10.0.0.1" 5680)
      (set_panel_values qt (field "pwr" (string "1") end) (new_controller "" "10.0.0.1" 5680))
unfolding new_controller
set_panel_values-Outcome_example =
    set_panel_values-Outcome qt (field "pwr" (string "1") end) (new_controller "" "10.0.0.1" 5680)
      refl refl

-- A command under the identifier 3.
abbrev commanding : Controller
commanding = record (new_controller "" "10.0.0.1" 5680) {
  busy = true;
  awaiting_confirmation = false;
  pending_command_id = 3;
}

handle_envelope-Progress_example :
    Progress qt power_status commanding (handle_envelope qt power_status commanding)
handle_envelope-Progress_example = handle_envelope-Progress qt power_status commanding refl

exchange_example :
    let d = handle_envelope qt power_status (handle_envelope qt (accepted 3) commanding) in
    (d.busy ≡ false)
    × (d.awaiting_confirmation ≡ false)
    × (d.pending_command_id ≡ 0)
    × (d.signals
        ≡ (((commanding.signals ++ control_accepted ∷ []) ++ status_packet_received ∷ [])
            ++ busy_changed false ∷ [])
          ++ status_received (object (field "pwr" (string "1") end)) ∷ [])
exchange_example = exchange qt commanding "pwr" (string "1") end 3 refl refl refl (omega arith) refl

repeated : ℕ → List ℕ
repeated zero = []
repeated (suc n) = 65 ∷ repeated n

repeated-unbroken : (n : ℕ) → next_line (repeated n) ≡ none
unfolding repeated next_line
repeated-unbroken zero = refl
repeated-unbroken (suc n) = rw (repeated-unbroken n)

length-repeated : (n : ℕ) → length (repeated n) ≡ n
unfolding repeated
length-repeated zero = refl
length-repeated (suc n) = omega (arith, length-repeated n)

abbrev too_much : Clogged (repeated 1048577 ++ [])
too_much = record {
  start = repeated 1048577;
  rest = [];
  splits = refl;
  unbroken = repeated-unbroken 1048577;
  long = omega (arith, length-repeated 1048577);
}

abbrev clogged : Controller
clogged = record (new_controller "" "10.0.0.1" 5680) { stream = repeated 1048577 ++ [] }

-- A start, another endpoint, and a new connection.
abbrev reconnected : List (Qt × Happening)
reconnected =
    (qt, do_start) ∷ (qt, do_configure "10.0.0.2" (pos 5680) (pos 1)) ∷ (qt, socket_connected) ∷ []

read_again-Clogged_example :
    let before = live reconnected clogged in
    let after = read_server qt (123 ∷ 10 ∷ []) before in
    (after.socket ≡ unconnected)
    × (after.stream ≡ before.stream ++ 123 ∷ 10 ∷ [])
    × Clogged after.stream
read_again-Clogged_example =
    read_again-Clogged reconnected qt (123 ∷ 10 ∷ []) clogged (refl, (refl, (refl, tt))) too_much
