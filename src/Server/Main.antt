-- ===== src/Server/Main.antt =====
-- AirCtrlServer::run (src/server/server.cpp): the main loop, one round for each poll. What poll and the
-- sockets answer in a round is an argument.
pub mod Sound
pub mod Keeps
pub mod Checked
pub mod Restart
use air_ctrl_desklet.Prelude.{
  ℕ, Bool, true, not, ◌&&◌, List, [], ◌∷◌, Option, none, some, if◌then◌else◌, is_empty, is_some,
}
use air_ctrl_desklet.Automation.Types.{Env}
use air_ctrl_desklet.Server.State.{Server, lookup, ids}
use air_ctrl_desklet.Server.Clients.{close_client}
use air_ctrl_desklet.Server.Events.{process_time}
use air_ctrl_desklet.Server.Actions.{handle_action}
use air_ctrl_desklet.Server.Posted.{process_events}
use air_ctrl_desklet.Server.Connections.{Sent, Ending, accept_client, read_client, flush_client}

-- What poll reports of a client: nothing, an error or hangup, or what can be read and written.
pub data Polled : Type 0 where
  silent hung_up : Polled
  ready : Option (List (List ℕ) × Ending × List Sent) → Option (List Sent) → Polled

-- One round of the loop: the connections accepted, whether the wake pipe was written, what poll
-- reports of each client, and whether the initial idle deadline has passed.
pub record Round : Type 0 where
  pub time : ℕ
  pub accepted : List (List Sent)
  pub woken : Bool
  pub polled : ℕ → Polled
  pub deadline_passed : Bool

module _ {S : Type 0} (env : Env S) where
  unfoldable pub accept_all : ℕ → List (List Sent) → Server S → Server S
  accept_all now [] s = s
  accept_all now (answers ∷ rest) s = accept_all now rest (accept_client env now answers s)

  abbrev pub connected : ℕ → Server S → Bool
  connected id s = is_some (lookup id s.clients)

  unfoldable pub read_ready :
      ℕ → ℕ → Option (List (List ℕ) × Ending × List Sent) → Server S → Server S
  read_ready now id none s = s
  read_ready now id (some (blocks, ending, answers)) s =
      if connected id s then read_client env now blocks ending answers id s else s

  unfoldable pub write_ready : ℕ → ℕ → Option (List Sent) → Server S → Server S
  write_ready now id none s = s
  write_ready now id (some answers) s =
      if connected id s then flush_client env now answers id s else s

  unfoldable pub serve : ℕ → ℕ → Polled → Server S → Server S
  unfolding read_ready write_ready
  serve now id silent s = s
  serve now id hung_up s = close_client env id s
  serve now id (ready read write) s = write_ready now id write (read_ready now id read s)

  unfoldable pub serve_all : ℕ → (ℕ → Polled) → List ℕ → Server S → Server S
  serve_all now polled [] s = s
  serve_all now polled (id ∷ rest) s = serve_all now polled rest (serve now id (polled id) s)

  -- The end of a round.
  unfoldable pub end_round : Round → Server S → Server S
  end_round r s = process_time env r.time (handle_action env r.time) (
      if s.exit_on_idle && is_empty s.clients && not s.accepted_any && r.deadline_passed
      then record s { quit_requested = true }
      else s)

  -- The clients that were polled are those from before the round.
  unfoldable pub one_round : Round → Server S → Option (Server S)
  unfolding end_round serve_all accept_all
  one_round r s =
      let accepted = accept_all r.time r.accepted s in
      elim (if r.woken then process_events env r.time accepted else some accepted) [
        | none ↦ none
        | some t ↦ some (end_round r (serve_all r.time r.polled (ids s.clients) t))
      ]

  -- run, over the rounds that poll gives; `none` for an uncaught exception
  unfoldable pub main_loop : List Round → Server S → Option (Server S)
  unfolding one_round
  main_loop [] s = some s
  main_loop (r ∷ rounds) s =
      if s.quit_requested
      then some s
      else elim (one_round r s) [ none ↦ none | some t ↦ main_loop rounds t ]

-- shutdown: the second time nothing. Joining the worker and closing descriptors leave no trace here.
unfoldable pub shutdown : {S : Type 0} → Server S → Server S
shutdown s =
    if s.stopping then s else record s { stopping = true; reconnect_requested = true; clients = [] }
