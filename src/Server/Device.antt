-- ===== src/Server/Device.antt =====
-- The device worker of src/server/server.cpp, its loop as steps between which the main thread runs.
pub mod Serial
pub mod Answered
pub mod Ending
use air_ctrl_desklet.Prelude.{
  ◌+◌, ◌≡◌, Bool, true, false, not, ◌&&◌, ◌||◌, List, [], ◌∷◌, ◌++◌, none, some, String,
  if◌then◌else◌, is_empty,
}
use air_ctrl_desklet.Json.{Json}
use air_ctrl_desklet.Server.State.{
  Server, Command, Event, started, state_changed, status_received, controlled,
}

-- What `set_control_values` answers: accepted or not, or an exception.
pub data Answer : Type 0 where
  answered : Bool → Answer
  thrown : String → Answer

-- Where the worker stands: at the top of its loop, before its device client is made, at the top of a
-- session's loop, inside `observe_status`, after it, past the check for a restart, inside
-- `set_control_values`, at the wait before a new session, and at its end. The flag is
-- statusRequiredAfterControl.
pub data Worker : Type 0 where
  outside connecting waiting finished : Worker
  session observing picking taking : Bool → Worker
  calling : Command → Worker

-- What happened to the device, for the record.
pub data Entry : Type 0 where
  began received : Entry
  called : Command → Entry

abbrev interrupted_command : Command → Event
interrupted_command c =
    controlled c false (some "Geräte-I/O wurde unterbrochen; Befehl nicht wiederholt.")

abbrev pub fail_queue : List Command → List Event
fail_queue [] = []
fail_queue (c ∷ rest) = interrupted_command c ∷ fail_queue rest

module _ {S : Type 0} where
  abbrev pub post : Event → Server S → Server S
  post event s = record s { events = s.events ++ event ∷ [] }

  -- interrupted; the configuration generation never changes.
  unfoldable pub interrupted : Bool → Server S → Bool
  interrupted commands_interrupt s =
      s.stopping || s.reconnect_requested || commands_interrupt && not (is_empty s.commands)

  abbrev pub not_ready : Server S → Server S
  not_ready s = record s { device_ready = false }

  abbrev pub begin_session : Server S → Server S
  begin_session s = post started (record s { reconnect_requested = false })

  -- The callback of observe_status.
  abbrev pub receive : Json → Server S → Server S
  receive status s = post (status_received status) (record s { device_ready = true })

  -- What is posted after a control call, by its answer and a restart in between.
  unfoldable pub report : Command → Answer → Server S → Server S
  report c (thrown problem) s = post (controlled c false (some problem)) s
  report c (answered accepted) s =
      if s.reconnect_requested
      then post
          (controlled c false (
            some
              "Geräte-I/O wurde während des Schaltbefehls erneuert · Ausgang unbekannt; keine Wiederholung."))
          s
      else post
          (controlled c accepted
            (if accepted then none else some "Gerät hat den Schaltbefehl abgelehnt."))
          s

  -- The handler of an exception that leaves the session.
  unfoldable pub session_failed : String → Server S → Server S
  session_failed problem s = record s {
    device_ready = false;
    commands = [];
    events = s.events ++ state_changed "error" (some problem) ∷ fail_queue s.commands;
  }

-- The worker's thread beside the server that it shares with the main thread.
pub record System (S : Type 0) : Type 0 where
  pub worker : Worker
  pub server : Server S
  pub history : List Entry

-- A restart or the end is wanted.
abbrev pub Restarting : {S : Type 0} → Server S → Type 0
Restarting s = (s.stopping || s.reconnect_requested) ≡ true

abbrev pub at : {S : Type 0} → Worker → Server S → List Entry → System S
at w s h = record { worker = w; server = s; history = h }

-- deviceLoop, each step between two points where the main thread may run. `observe_status` returns when
-- its stop predicate holds, or throws.
pub data Move {S : Type 0} : System S → System S → Type 0 where
  begin :
      (s : Server S) (h : List Entry)
      → s.stopping ≡ false
      → Move (at outside s h) (at connecting (begin_session s) (began ∷ h))
  finish :
      (s : Server S) (h : List Entry) → s.stopping ≡ true → Move (at outside s h) (at finished s h)
  connect : (s : Server S) (h : List Entry) → Move (at connecting s h) (at (session false) s h)
  connect_failed :
      (s : Server S) (h : List Entry) (problem : String)
      → Move (at connecting s h) (at waiting (session_failed problem s) h)
  leave :
      (r : Bool) (s : Server S) (h : List Entry)
      → Restarting s
      → Move (at (session r) s h) (at outside (not_ready s) h)
  observe :
      (r : Bool) (s : Server S) (h : List Entry)
      → (s.stopping || s.reconnect_requested) ≡ false
      → Move (at (session r) s h) (at (observing r) s h)
  status :
      (r : Bool) (s : Server S) (h : List Entry) (value : Json)
      → Move (at (observing r) s h) (at (observing false) (receive value s) (received ∷ h))
  observe_failed :
      (r : Bool) (s : Server S) (h : List Entry) (problem : String)
      → Move (at (observing r) s h) (at waiting (session_failed problem s) h)
  observed :
      (r : Bool) (s : Server S) (h : List Entry)
      → interrupted (not r) s ≡ true
      → Move (at (observing r) s h) (at (picking r) s h)
  abandon :
      (r : Bool) (s : Server S) (h : List Entry)
      → Restarting s
      → Move (at (picking r) s h) (at outside (not_ready s) h)
  checked :
      (r : Bool) (s : Server S) (h : List Entry)
      → (s.stopping || s.reconnect_requested) ≡ false
      → Move (at (picking r) s h) (at (taking r) s h)
  take :
      (r : Bool) (s : Server S) (h : List Entry) (c : Command) (rest : List Command)
      → s.commands ≡ c ∷ rest
      → Move (at (taking r) s h) (at (calling c) (record s { commands = rest }) (called c ∷ h))
  nothing :
      (r : Bool) (s : Server S) (h : List Entry)
      → s.commands ≡ []
      → Move (at (taking r) s h) (at (session r) s h)
  answer :
      (c : Command) (s : Server S) (h : List Entry) (a : Answer)
      → Move (at (calling c) s h) (at (session true) (report c a s) h)
  wake : (s : Server S) (h : List Entry) → Move (at waiting s h) (at outside (not_ready s) h)

-- A step of the worker, or of the main thread, which never takes back a wish to restart.
pub data Step {S : Type 0} : System S → System S → Type 0 where
  move : {x y : System S} → Move x y → Step x y
  main :
      (w : Worker) (s t : Server S) (h : List Entry)
      → (Restarting s → Restarting t)
      → Step (at w s h) (at w t h)

-- Any number of steps.
pub data Steps {S : Type 0} (x : System S) : System S → Type 0 where
  here : Steps x x
  next : {y z : System S} → Steps x y → Step y z → Steps x z
