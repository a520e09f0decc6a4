-- ===== src/Tests/Engine.antt =====
-- The protocol and the Lua engine at concrete inputs.
use air_ctrl_desklet.Prelude.{ℕ, ◌≡◌, ◌↔◌, ◌≤◌, refl, true, false, [], ◌∷◌, none, arith, length}
use air_ctrl_desklet.Json.{string, object, end, field}
use air_ctrl_desklet.ControlValues.{control_values_error, check_entries, is_valid}
use air_ctrl_desklet.ControlValues.Allowed.{IsRequest, control_values_error-IsRequest}
use air_ctrl_desklet.ControlValues.Client.{
  control_values_error_client, control_values_error_client-eq,
}
use air_ctrl_desklet.Automation.Types.{
  Schedule, ScheduleTable, table, text_key, lua_text, all_days, no_flag,
}
use air_ctrl_desklet.Automation.Table.{assign, simple_table, simple_table-IsRequest}
use air_ctrl_desklet.Automation.Text.{clean_line, IsOneLine, clean_line-IsOneLine}
use air_ctrl_desklet.Automation.Schedule.{lua_schedule}
use air_ctrl_desklet.Automation.Schedule.Conflicts.{Apart, lua_schedule-Apart}
use air_ctrl_desklet.Automation.Api.{run, may_set}
use air_ctrl_desklet.Automation.Api.Keeps.{
  Sound as EngineSound, Same, run-Sound, run-Same, run-no_set,
}
use air_ctrl_desklet.Automation.Memory.{run_allocator, run_allocator_bounded, size_limit}
use air_ctrl_desklet.Automation.Schedule.Values.{lua_schedule-AllRequests, AllRequests}
use air_ctrl_desklet.Tests.World.{power_on, script_run, world, engine}

-- The device protocol
control_values_error-IsRequest_example : (control_values_error power_on ≡ none) ↔ IsRequest power_on
control_values_error-IsRequest_example = control_values_error-IsRequest power_on

control_values_error_client-eq_example :
    control_values_error_client (field "pwr" (string "2") end)
    ≡ control_values_error (object (field "pwr" (string "2") end))
control_values_error_client-eq_example =
    control_values_error_client-eq (field "pwr" (string "2") end)

-- The Lua engine
simple_table-IsRequest_example : IsRequest power_on
unfolding simple_table control_values_error assign check_entries is_valid
simple_table-IsRequest_example =
    simple_table-IsRequest (table ((text_key "pwr", lua_text "1") ∷ [])) power_on refl

clean_line-IsOneLine_example :
    IsOneLine (clean_line 3 (65 ∷ 10 ∷ 13 ∷ 66 ∷ []))
    × (length (clean_line 3 (65 ∷ 10 ∷ 13 ∷ 66 ∷ [])) ≤ 3)
clean_line-IsOneLine_example = clean_line-IsOneLine 3 (65 ∷ 10 ∷ 13 ∷ 66 ∷ [])

-- Every day at 07:30
abbrev morning : ScheduleTable
morning = record {
  name = b'a' ∷ [];
  at_time = b'0' ∷ b'7' ∷ b':' ∷ b'3' ∷ b'0' ∷ [];
  between = [];
  days = all_days;
  catch_up = no_flag;
  set_values = table ((text_key "pwr", lua_text "1") ∷ []);
  outside = none;
}

abbrev at_morning : Schedule
at_morning = record {
  name = b'a' ∷ [];
  phase = none;
  hour = 7;
  minute = 30;
  days = 1 ∷ 2 ∷ 3 ∷ 4 ∷ 5 ∷ 6 ∷ 7 ∷ [];
  values = power_on;
  catch_up = true;
}

lua_schedule-Apart_example : Apart (at_morning ∷ [])
unfolding lua_schedule simple_table control_values_error assign check_entries is_valid
lua_schedule-Apart_example =
    lua_schedule-Apart (λ bytes. "a") [] [] morning (at_morning ∷ []) tt refl

lua_schedule-AllRequests_example : AllRequests (at_morning ∷ [])
unfolding lua_schedule simple_table control_values_error assign check_entries is_valid
lua_schedule-AllRequests_example =
    lua_schedule-AllRequests (λ bytes. "a") [] [] morning (at_morning ∷ []) tt refl

abbrev pub engine_sound : EngineSound ℕ engine
engine_sound = record {
  apart = tt;
  allowed = tt;
  log_bound = omega arith;
  handled_bound = omega arith;
  queued = tt;
}

run-Sound_example : EngineSound ℕ (run world 100 (script_run 0) engine).0
run-Sound_example = run-Sound world 100 (script_run 0) engine engine_sound

run-Same_example : Same engine (run world 100 (script_run 0) engine).0
run-Same_example = run-Same world 100 (script_run 0) engine

run-no_set_example : (run world 100 (script_run 0) engine).0.pending_actions ≡ []
unfolding may_set
run-no_set_example = run-no_set world 100 (script_run 0) engine refl

run_allocator_bounded_example :
    (run_allocator
      ((true, false, 0, 9000000) ∷ (true, false, 0, 4096) ∷ [])
      (record { used = 0; maximum = size_limit })).used
    ≤ size_limit
run_allocator_bounded_example =
    run_allocator_bounded ((true, false, 0, 9000000) ∷ (true, false, 0, 4096) ∷ [])
