-- ===== src/Server/Frame/OfDevice.antt =====
-- The events of the device worker keep what is kept.
use air_ctrl_desklet.Prelude.{
  ℕ, Bool, true, false, not, List, [], ◌∷◌, Option, none, some, String, ◌==◌, string_eq,
}
use air_ctrl_desklet.Json.{Json, is_filled_object}
use air_ctrl_desklet.Automation.Types.{Engine}
use air_ctrl_desklet.Json.{Json}
use air_ctrl_desklet.Automation.Types.{Env}
use air_ctrl_desklet.Server.State.{
  Server, Command, Event, started, state_changed, status_received, controlled,
}
use air_ctrl_desklet.Server.Posted.{
  on_started, drop_confirmation, on_state, on_status, on_control, process_event, process_list,
  process_events, logged,
}
use air_ctrl_desklet.Server.Clients.{message, broadcast, broadcast_automation_state}
use air_ctrl_desklet.Server.Actions.{handle_action}
use air_ctrl_desklet.Server.Frame.{Kept, announce-keeps, broadcast-keeps, send-keeps}
use air_ctrl_desklet.Server.Frame.Cases.{
  Unless, Unless-if, Unless-then, Unless-bind, if-keeps, option-keeps,
}
use air_ctrl_desklet.Server.Frame.OfActions.{Queued, handle_action-keeps, confirm_action-keeps}
use air_ctrl_desklet.Server.Frame.OfEvents.{
  Handles, command_event-keeps, set_connected-keeps, status_event-keeps,
}
use air_ctrl_desklet.Server.Frame.OfEngine.{Lasting}

-- What a predicate must be indifferent to besides: what the server knows of the device, and its events.
pub record Aside (S : Type 0) (P : Server S → Type 0) : Type 0 where
  pub known :
      (s : Server S) (n : ℕ) (scheduled : Bool) (state : String) (problem : Option String)
      → P s
      → P (record s {
        starts = n;
        refresh_scheduled = scheduled;
        state = state;
        state_error = problem;
      })
  pub written :
      (s : Server S) (log : List Json) (reported : Bool)
      → P s
      → P (record s { status_log = log; status_log_error_reported = reported })
  pub received :
      (s : Server S) (status : Json)
      → P s
      → P (record s { last_status = status; state = "connected"; state_error = none })
  pub taken : (s : Server S) → P s → P (record s { events = [] })

module _ {S : Type 0} (env : Env S) (now : ℕ) (G : Engine S → Type 0) (R : Json → Type 0)
    (l : Lasting env G R) (P : Server S → Type 0) (k : Kept S G P) (q : Queued S R P)
    (a : Aside S P) where
  abbrev h : Handles env now G R l P k (handle_action env now)
  h = handle_action-keeps env now G R l P k q

  drop_confirmation-keeps :
      (problem : Option String) (s : Server S) → P s → P (drop_confirmation env now problem s)
  unfolding drop_confirmation
  drop_confirmation-keeps problem s p =
      option-keeps P s.pending_confirmation s _ p
        (λ c. q.confirm _ none (command_event-keeps env now G R l P k _ h c.source false _ s p))

  on_started-keeps : (s : Server S) → P s → P (on_started env now s)
  unfolding on_started
  on_started-keeps s p = announce-keeps env P k _ (
      broadcast-keeps env P k _ _ (
        set_connected-keeps env now G R l P k _ h false _ _
          (a.known s _ false "connecting" none p)))

  on_state-keeps :
      (state : String) (problem : Option String) (s : Server S)
      → P s
      → P (on_state env now state problem s)
  unfolding on_state
  on_state-keeps state problem s p =
      let named = a.known s s.starts s.refresh_scheduled state problem p in
      announce-keeps env P k _ (
        broadcast-keeps env P k _ _ (
          drop_confirmation-keeps problem _ (
            if-keeps P (state == "connected") _ _ named
              (set_connected-keeps env now G R l P k _ h false problem _ named))))

  logged-keeps : (status : Json) (s : Server S) → P s → P (logged env now status s)
  logged-keeps status s p =
      if-keeps P s.status_log_writable _ _ (a.written s _ false p) (a.written s s.status_log true p)

  on_status-keeps : (status : Json) (s : Server S) → P s → Unless P (on_status env now status s)
  unfolding on_status
  on_status-keeps status s p = Unless-if P (not (is_filled_object status)) _ _ p (
      Unless-bind P _
        (λ told.
          broadcast_automation_state env
            (broadcast env (message "status" (("data", status) ∷ [])) told))
        (status_event-keeps env now G R l P k _ h status _ (
          confirm_action-keeps env now G R l P k q status _
            (a.received _ status (logged-keeps status s p))))
        (λ t r. announce-keeps env P k _ (broadcast-keeps env P k _ _ r)))

  on_control-keeps :
      (c : Command) (accepted : Bool) (problem : Option String) (s : Server S)
      → P s
      → P (on_control env now c accepted problem s)
  unfolding on_control
  on_control-keeps c accepted problem s p =
      if-keeps P c.automated _ _
        (if-keeps P accepted _ _ (q.confirm s (some c) p) (
          announce-keeps env P k _
            (command_event-keeps env now G R l P k _ h c.source false _ s p)))
        (send-keeps env P k c.client _ s p)

  process_event-keeps :
      (event : Event) (s : Server S) → P s → Unless P (process_event env now event s)
  unfolding process_event
  process_event-keeps started s p = on_started-keeps s p
  process_event-keeps (state_changed state problem) s p = on_state-keeps state problem s p
  process_event-keeps (status_received status) s p = on_status-keeps status s p
  process_event-keeps (controlled c accepted problem) s p = on_control-keeps c accepted problem s p

  process_list-keeps :
      (events : List Event) (s : Server S) → P s → Unless P (process_list env now events s)
  unfolding process_list
  process_list-keeps [] s p = p
  process_list-keeps (event ∷ rest) s p =
      Unless-then P (process_event env now event s) (λ t. process_list env now rest t)
        (process_event-keeps event s p) (λ t r. process_list-keeps rest t r)

  pub process_events-keeps : (s : Server S) → P s → Unless P (process_events env now s)
  unfolding process_events
  process_events-keeps s p = process_list-keeps s.events _ (a.taken s p)
