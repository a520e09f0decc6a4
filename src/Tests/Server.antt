-- ===== src/Tests/Server.antt =====
-- The clients, the worker and the main loop of the server at concrete inputs.
use air_ctrl_desklet.Prelude.{
  ℕ, ◌≡◌, ◌||◌, ◌≤◌, ◌+◌, is_empty, refl, true, false, [], ◌∷◌, none, some, arith,
}
use air_ctrl_desklet.ControlValues.{control_values_error, check_entries, is_valid}
use air_ctrl_desklet.ControlValues.Allowed.{IsRequest, control_values_error-IsRequest}
use air_ctrl_desklet.Automation.Types.{Action}
use air_ctrl_desklet.Server.State.{Server, lookup, ids}
use air_ctrl_desklet.Server.Clients.{close_at, close_client}
use air_ctrl_desklet.Server.Clients.Depth.{close_client_depth}
use air_ctrl_desklet.Server.Requests.{handle, refresh}
use air_ctrl_desklet.Server.Requests.Alive.{EditorAlive, handle-EditorAlive}
use air_ctrl_desklet.Server.Connections.{next_line, input_of, take_lines, lines_left}
use air_ctrl_desklet.Server.Connections.Lines.{take_lines-finished}
use air_ctrl_desklet.Server.Device.{
  Steps, here, next, move, begin, connect, observe, observed, checked, take, answer, answered, at,
  outside, calling, session, begin_session, called, began, report, interrupted,
}
use air_ctrl_desklet.Server.Device.Serial.{Serial, Steps-Serial}
use air_ctrl_desklet.Server.Device.Answered.{
  tally, Move-tally, queued, refusals, acceptances, refresh-answers,
}
use air_ctrl_desklet.Server.Main.{shutdown, Round, ready, main_loop}
use air_ctrl_desklet.Server.Main.Sound.{ClientsSound, main_loop-ClientsSound}
use air_ctrl_desklet.Server.Device.{Restarting, leave}
use air_ctrl_desklet.Server.Main.Checked.{Checked, main_loop-Checked, AtDevice, Move-AtDevice}
use air_ctrl_desklet.Server.Main.Restart.{main_loop-Restarting}
use air_ctrl_desklet.Server.Device.Ending.{Alone, moves, steps_left, Goes, shutdown-ends}
use air_ctrl_desklet.Server.Actions.{handler_at, handle_action}
use air_ctrl_desklet.Server.Actions.Depth.{handle_action_depth}
use air_ctrl_desklet.Server.Frame.Cases.{Unless}
use air_ctrl_desklet.Tests.World.{
  power_on, ask_lock, world, command, server, one_not_zero, two_not_zero, three_not_zero,
}
use air_ctrl_desklet.Tests.Engine.{engine_sound}

-- The clients
close_client_depth_example : close_at world 5 2 server ≡ close_client world 2 server
unfolding ids
close_client_depth_example = close_client_depth world 3 2 server (one_not_zero, (two_not_zero, tt))

handle-EditorAlive_example : EditorAlive (handle world 100 1 ask_lock server)
unfolding lookup
handle-EditorAlive_example = handle-EditorAlive world 100 1 ask_lock server refl refl

take_lines-finished_example :
    next_line
      (input_of (lookup 1 (take_lines world 100 (lines_left world 100 1 server) 1 server).clients))
    ≡ none
unfolding lookup
take_lines-finished_example = take_lines-finished world 100 1 server (refl, (refl, tt))

-- The device worker: one session with one call
abbrev calling_steps : Steps (at outside server []) (
    at
      (calling command)
      (record (begin_session server) { commands = [] })
      (called command ∷ began ∷ []))
unfolding interrupted
calling_steps =
    next
      (next
        (next
          (next
            (next (next here (move (begin server [] refl)))
              (move (connect (begin_session server) (began ∷ []))))
            (move (observe false (begin_session server) (began ∷ []) refl)))
          (move (observed false (begin_session server) (began ∷ []) refl)))
        (move (checked false (begin_session server) (began ∷ []) refl)))
      (move (take false (begin_session server) (began ∷ []) command [] refl))

Steps-Serial_example : Serial (called command ∷ began ∷ [])
Steps-Serial_example =
    Steps-Serial server
      (at (calling command) (record (begin_session server) { commands = [] })
        (called command ∷ began ∷ []))
      calling_steps

Move-tally_example :
    tally (λ c. c.automated) (at (session true) (report command (answered true) server) [])
    ≡ tally (λ c. c.automated) (at (calling command) server [])
Move-tally_example = Move-tally (λ c. c.automated) (answer command server [] (answered true))

refresh-answers_example :
    (server.refresh_scheduled || is_empty (refresh server).commands ≡ true)
    × (queued (λ c. true) (refresh server).commands + refusals (λ c. true) (refresh server).events
        ≡ queued (λ c. true) server.commands + refusals (λ c. true) server.events)
    × (acceptances (λ c. true) (refresh server).events ≡ acceptances (λ c. true) server.events)
    × (refresh (refresh server) ≡ refresh server)
refresh-answers_example = refresh-answers (λ c. true) server

-- The main loop: a round with a new connection, events, and a client that sends a request
abbrev busy_round : Round
busy_round = record {
  time = 100;
  accepted = [] ∷ [];
  woken = true;
  polled = λ id.
      ready (some ((123 ∷ 10 ∷ []) ∷ [], air_ctrl_desklet.Server.Connections.drained, [])) none;
  deadline_passed = false;
}

main_loop-ClientsSound_example :
    Unless (λ t. ClientsSound t) (main_loop world (busy_round ∷ []) server)
unfolding lookup
main_loop-ClientsSound_example =
    main_loop-ClientsSound world (busy_round ∷ []) server
      (
        three_not_zero,
        (
          refl,
          (refl, (refl, tt)),
          (one_not_zero, omega arith, (two_not_zero, omega arith, tt)),
          refl,
        ),
      )
      (omega arith)

power_on-IsRequest : IsRequest power_on
unfolding control_values_error check_entries is_valid
power_on-IsRequest = (control_values_error-IsRequest power_on).0 refl

main_loop-Checked_example : Unless (λ t. Checked t) (main_loop world (busy_round ∷ []) server)
main_loop-Checked_example =
    main_loop-Checked world (busy_round ∷ []) server (engine_sound, (power_on-IsRequest, tt))

Move-AtDevice_example : AtDevice (at (session true) (report command (answered true) server) [])
Move-AtDevice_example =
    Move-AtDevice (answer command server [] (answered true))
      ((power_on-IsRequest, tt), power_on-IsRequest)

abbrev restarting : Server ℕ
restarting = record server { reconnect_requested = true }

main_loop-Restarting_example :
    Unless (λ t. Restarting t) (main_loop world (busy_round ∷ []) restarting)
main_loop-Restarting_example = main_loop-Restarting world (busy_round ∷ []) restarting refl

-- The worker has taken a command when the server shuts down; the device answers, and the session ends.
abbrev ending_path : Alone (at (calling command) (shutdown server) []) (
    at outside
      (record (report command (answered true) (shutdown server)) { device_ready = false })
      [])
unfolding shutdown report
ending_path =
    Alone.next (Alone.next Alone.here (answer command (shutdown server) [] (answered true)))
      (leave true (report command (answered true) (shutdown server)) [] refl)

shutdown-ends_example :
    (moves ending_path + steps_left outside ≤ 4)
    × Goes (
        at outside
          (record (report command (answered true) (shutdown server)) { device_ready = false })
          [])
shutdown-ends_example = shutdown-ends server (calling command) [] ending_path

abbrev power_action : Action
power_action = record { values = power_on; source = "Lua-Ereignis time"; occurrence_key = none }

handle_action_depth_example :
    handler_at world 100 4 power_action server ≡ handle_action world 100 power_action server
handle_action_depth_example = handle_action_depth world 100 3 power_action server refl
