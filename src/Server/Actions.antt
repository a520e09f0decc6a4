-- ===== src/Server/Actions.antt =====
-- handleAutomationAction and confirmAutomationAction (src/server/server.cpp): what becomes of the actions
-- of the Lua script.
pub mod Depth
use air_ctrl_desklet.Prelude.{
  ℕ, zero, suc, ◌+◌, ◌%◌, ◌^◌, Bool, true, false, not, ◌&&◌, ◌||◌, [], ◌∷◌, ◌++◌, Option, none,
  some, String, if◌then◌else◌, any, is_some,
}
use air_ctrl_desklet.Json.{Json, Fields, end, field, find, json_beq, is_filled_object}
use air_ctrl_desklet.Automation.Types.{Env, Action}
use air_ctrl_desklet.Automation.State.{action_accepted}
use air_ctrl_desklet.Server.State.{Server}
use air_ctrl_desklet.Server.Clients.{broadcast_automation_state}
use air_ctrl_desklet.Server.Events.{command_event}
use air_ctrl_desklet.Server.StatusEvents.{fields_of}

-- Every wanted entry stands in the status with its value.
abbrev pub has_entry : Option Json → Json → Bool
has_entry none v = false
has_entry (some w) v = json_beq w v

unfoldable pub reached : Json → Fields → Bool
reached status end = true
reached status (field k v rest) = has_entry (find k status) v && reached status rest

abbrev not_ready_text : Option String → String
not_ready_text none = "Gerät ist nicht schaltbereit; Ereignisauftrag wurde nicht wiederholt."
not_ready_text (some key) =
    "Gerät ist noch nicht schaltbereit; der Zeitplan wird beim nächsten Zeitimpuls erneut geprüft."

module _ {S : Type 0} (env : Env S) (now : ℕ) where
  abbrev accept : Option String → Server S → Server S
  accept key s = record s { engine = action_accepted env now key s.engine }

  abbrev pub automation_busy : Server S → Bool
  automation_busy s = is_some s.pending_confirmation || any (λ c. c.automated) s.commands

  abbrev pub queue_action : Action → Server S → Server S
  queue_action a s = record s {
    engine = action_accepted env now a.occurrence_key s.engine;
    next_automation_id = (s.next_automation_id + 1) % 2 ^ 64;
    commands =
        s.commands
        ++ record {
          client = 0;
          id = s.next_automation_id;
          values = a.values;
          automated = true;
          source = a.source;
          occurrence_key = a.occurrence_key;
        }
          ∷ [];
  }

  -- handleAutomationAction, given what its own command event hands actions to
  unfoldable pub handle_by : (Action → Server S → Server S) → Action → Server S → Server S
  handle_by handler a s =
      if not s.device_ready
      then broadcast_automation_state env
          (command_event env now handler a.source false (not_ready_text a.occurrence_key) s)
      else if is_filled_object s.last_status && reached s.last_status (fields_of a.values)
      then broadcast_automation_state env (
          command_event env now handler a.source true "Gewünschter Zustand war bereits bestätigt."
            (accept a.occurrence_key s))
      else if automation_busy s
      then broadcast_automation_state env (
          command_event env now handler a.source false
            "Ein anderer Lua-Auftrag läuft bereits; keine automatische Wiederholung." s)
      else broadcast_automation_state env (queue_action a s)

  -- The handler; the number bounds how deep command events call it again.
  unfoldable pub handler_at : ℕ → Action → Server S → Server S
  handler_at zero a s = s
  handler_at (suc n) a s = handle_by (λ b t. handler_at n b t) a s

  unfoldable pub handle_action : Action → Server S → Server S
  handle_action = handler_at 1

  -- confirmAutomationAction
  unfoldable pub confirm_action : Json → Server S → Server S
  confirm_action status s = elim s.pending_confirmation [
    | none ↦ s
    | some c ↦
        let confirmed = reached status (fields_of c.values) in
        let told =
          command_event env now handle_action c.source confirmed
            (if confirmed
              then "Änderung vom Gerät bestätigt."
              else "Gerät hat den gewünschten Schaltzustand nicht bestätigt.")
            s in
        record told { pending_confirmation = none }
  ]
