-- ===== src/Server/Actions/Depth.antt =====
-- A handled action never enters the handler again: its command event may queue nothing.
use air_ctrl_desklet.Prelude.{
  ℕ, suc, ◌≡◌, refl, ap, ◌∙◌, Bool, true, false, not, ◌&&◌, ◌||◌, List, [], ◌∷◌, Option, none, some,
  String, if◌then◌else◌, Bool-cases, inl, inr,
}
use air_ctrl_desklet.Json.{Json, is_filled_object}
use air_ctrl_desklet.Automation.Types.{Env, Engine, Action, Run, missing, not_a_function, callable}
use air_ctrl_desklet.Automation.Api.{may_set, append_log, set_problem}
use air_ctrl_desklet.Automation.Api.Keeps.{run-no_set}
use air_ctrl_desklet.Automation.State.{action_accepted, save_or_log, save_state, contains_key}
use air_ctrl_desklet.Server.State.{Server}
use air_ctrl_desklet.Server.Clients.{broadcast_automation_state}
use air_ctrl_desklet.Server.Events.{
  hand_over, flush_actions, settle, protected, call_loaded, call_event, command_event, unavailable,
}
use air_ctrl_desklet.Server.StatusEvents.{fields_of}
use air_ctrl_desklet.Server.Actions.{handle_by, handler_at, handle_action, automation_busy, reached}

module _ {S : Type 0} (env : Env S) (now : ℕ) where
  abbrev Handler : Type 0
  Handler = Action → Server S → Server S

  hand_over-nothing :
      (f g : Handler) (actions : List Action) (s : Server S)
      → actions ≡ []
      → hand_over env now f actions s ≡ hand_over env now g actions s
  unfolding hand_over
  hand_over-nothing f g [] s h = refl
  hand_over-nothing f g (a ∷ rest) s h = cc

  -- With nothing queued, what follows a protected call does not use the handler.
  settle-no_handler :
      (f g : Handler) (place label : String) (r : Engine S × Option String) (s : Server S)
      → r.0.pending_actions ≡ []
      → settle env now f place label r s ≡ settle env now g place label r s
  unfolding settle flush_actions
  settle-no_handler f g place label (e, some problem) s h = refl
  settle-no_handler f g place label (e, none) s h = hand_over-nothing f g e.pending_actions _ h

  pending-protected :
      (f : Handler) (code : Run S) (e : Engine S)
      → e.pending_actions ≡ []
      → (protected env now f "command" code e).0.pending_actions ≡ []
  unfolding protected may_set
  pending-protected f code e h =
      run-no_set env now code (record e { current_event = some "command"; dispatching = true }) refl
      ∙ h

  call_loaded-no_handler :
      (f g : Handler) (detail : List (String × Json)) (lua : S) (s : Server S)
      → s.engine.pending_actions ≡ []
      → call_loaded env now f "command" detail lua s ≡ call_loaded env now g "command" detail lua s
  unfolding call_loaded protected
  call_loaded-no_handler f g detail lua s h =
      ap
        (λ z. elim (env.on_event lua) [
          | missing ↦ s
          | not_a_function ↦ record s {
            engine = set_problem env now "Lua: on_event ist keine Funktion." s.engine;
          }
          | callable ↦ z
        ])
        (settle-no_handler f g _ _ _ s (pending-protected f _ s.engine h))

  of_option :
      (o : Option S) (s : Server S) (x y : S → Server S)
      → ((lua : S) → x lua ≡ y lua)
      → elim o [ none ↦ s | some lua ↦ x lua ] ≡ elim o [ none ↦ s | some lua ↦ y lua ]
  of_option none s x y h = refl
  of_option (some lua) s x y h = h lua

  call_event-no_handler :
      (f g : Handler) (detail : List (String × Json)) (s : Server S)
      → s.engine.pending_actions ≡ []
      → call_event env now f "command" detail s ≡ call_event env now g "command" detail s
  unfolding call_event
  call_event-no_handler f g detail s h =
      ap (λ z. if unavailable s.engine || s.engine.manual_override then s else z)
        (of_option s.engine.lua s _ _ (λ lua. call_loaded-no_handler f g detail lua s h))

  command_event-no_handler :
      (f g : Handler) (source : String) (ok : Bool) (text : String) (s : Server S)
      → s.engine.pending_actions ≡ []
      → command_event env now f source ok text s ≡ command_event env now g source ok text s
  unfolding command_event
  command_event-no_handler f g source ok text s h = call_event-no_handler f g _ _ h

  pending-save_or_log : (e : Engine S) → (save_or_log env now e).pending_actions ≡ e.pending_actions
  unfolding save_or_log save_state append_log
  pending-save_or_log e = elim (Bool-cases e.disk.state_writable) [
    | inl y ↦ rw (y, save_or_log) refl
    | inr n ↦ rw (n, save_or_log) refl
  ]

  pending-action_accepted :
      (key : Option String) (e : Engine S)
      → (action_accepted env now key e).pending_actions ≡ e.pending_actions
  unfolding action_accepted
  pending-action_accepted none e = refl
  pending-action_accepted (some key) e =
      elim (Bool-cases (contains_key key e.handled_occurrences)) [
        | inl y ↦ rw y refl
        | inr n ↦ rw n (pending-save_or_log _)
      ]

  if-equal :
      (b : Bool) (x x' y y' : Server S)
      → x ≡ x'
      → y ≡ y'
      → (if b then x else y) ≡ (if b then x' else y')
  if-equal true x x' y y' p q = p
  if-equal false x x' y y' p q = q

  handle_by-no_handler :
      (f g : Handler) (a : Action) (s : Server S)
      → s.engine.pending_actions ≡ []
      → handle_by env now f a s ≡ handle_by env now g a s
  unfolding handle_by
  handle_by-no_handler f g a s h =
      let told = λ (ok : Bool) (text : String) (t : Server S) (e : t.engine.pending_actions ≡ []).
        ap (λ u. broadcast_automation_state env u)
          (command_event-no_handler f g a.source ok text t e) in
      if-equal (not s.device_ready) _ _ _ _ (told false _ s h) (
        if-equal (is_filled_object s.last_status && reached s.last_status (fields_of a.values)) _ _
          _ _ (told true _ _ (pending-action_accepted a.occurrence_key s.engine ∙ h))
          (if-equal (automation_busy env now s) _ _ _ _ (told false _ s h) refl))

  -- If no action is waiting in the engine, as it is when one is handed over, a greater bound on the
  -- depth gives the same state: the `command` event that tells the script of an action never leads to
  -- another action, whatever the script does in it.
  pub handle_action_depth :
      (n : ℕ) (a : Action) (s : Server S)
      → s.engine.pending_actions ≡ []
      → handler_at env now (suc n) a s ≡ handle_action env now a s
  unfolding handle_action handler_at
  handle_action_depth n a s h = handle_by-no_handler _ _ a s h
