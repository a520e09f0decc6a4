-- ===== src/Server/Frame/OfEvents.antt =====
-- The events of the engine keep what is kept.
use air_ctrl_desklet.Prelude.{
  ℕ, ◌≡◌, refl, Bool, true, false, not, ◌&&◌, ◌||◌, List, [], ◌∷◌, Option, none, some, String,
  if◌then◌else◌, nat_eq, string_eq, concat, All,
}
use air_ctrl_desklet.Json.{Json, object, string}
use air_ctrl_desklet.ControlValues.{same}
use air_ctrl_desklet.Automation.Types.{Env, Engine, Action, Schedule}
use air_ctrl_desklet.Automation.Alerts.{DeviceAlert, device_alerts}
use air_ctrl_desklet.Automation.Api.{set_problem}
use air_ctrl_desklet.Automation.State.{select, contains_key}
use air_ctrl_desklet.Server.State.{Server}
use air_ctrl_desklet.Server.Clients.{members}
use air_ctrl_desklet.Server.Events.{
  hand_over, flush_actions, settle, protected, call_loaded, call_event, long_timer_loaded,
  long_timer_event, command_event, fire, evaluate_schedules, process_time, set_connected,
  unavailable,
}
use air_ctrl_desklet.Server.StatusEvents.{publish, publish_device_alerts, status_event, reevaluate}
use air_ctrl_desklet.Server.Frame.{Kept}
use air_ctrl_desklet.Server.Frame.Cases.{
  if-keeps, option-keeps, global-keeps, Unless, Unless-if, Unless-bind,
}
use air_ctrl_desklet.Server.Frame.OfEngine.{
  Lasting, set_problem-good, protected-good, DueIs, select-DueIs,
}

module _ {S : Type 0} (env : Env S) (now : ℕ) (G : Engine S → Type 0) (R : Json → Type 0)
    (l : Lasting env G R) (P : Server S → Type 0) (k : Kept S G P) where
  abbrev pub Handles : (Action → Server S → Server S) → Type 0
  Handles handler = (a : Action) (s : Server S) → R a.values → P s → P (handler a s)

  -- A change of the engine that the predicate on engines does not see.
  pub unseen :
      (s : Server S) (e : Engine S)
      → e.schedules ≡ s.engine.schedules
      → e.pending_actions ≡ s.engine.pending_actions
      → e.handled_occurrences ≡ s.engine.handled_occurrences
      → e.log_entries ≡ s.engine.log_entries
      → P s
      → P (record s { engine = e })
  unseen s e a b c d p = k.engine s e p (l.others s.engine e a b c d (k.good s p))

  pub problem-keeps :
      (problem : String) (s : Server S)
      → P s
      → P (record s { engine = set_problem env now problem s.engine })
  problem-keeps problem s p =
      k.engine s _ p (set_problem-good env now G R l problem s.engine (k.good s p))

  module _ (handler : Action → Server S → Server S) (h : Handles handler) where
    hand_over-keeps :
        (actions : List Action) (s : Server S)
        → All (λ a. R a.values) actions
        → P s
        → P (hand_over env now handler actions s)
    unfolding hand_over
    hand_over-keeps [] s r p = p
    hand_over-keeps (a ∷ rest) s (r, all) p = hand_over-keeps rest (handler a s) all (h a s r p)

    settle-keeps :
        (place label : String) (r : Engine S × Option String) (s : Server S)
        → G r.0
        → P s
        → P (settle env now handler place label r s)
    unfolding settle flush_actions
    settle-keeps place label (e, some problem) s g p =
        k.engine s _ p (set_problem-good env now G R l _ _ (l.no_actions e g))
    settle-keeps place label (e, none) s g p =
        hand_over-keeps e.pending_actions _ (l.of_actions e g) (
          k.engine s _ p
            (l.others (record e { pending_actions = [] }) _ refl refl refl refl (l.no_actions e g)))

    call_loaded-keeps :
        (event : String) (detail : List (String × Json)) (lua : S) (s : Server S)
        → P s
        → P (call_loaded env now handler event detail lua s)
    unfolding call_loaded
    call_loaded-keeps event detail lua s p =
        let code = env.call_on_event lua (
          object
            (members (("timestamp", string (env.stamp now)) ∷ ("type", string event) ∷ detail))) in
        global-keeps P (env.on_event lua) _ _ _ p (problem-keeps _ s p) (
          settle-keeps (concat ("Lua-Ereignis " ∷ event ∷ ": " ∷ []))
            (concat (event ∷ " · " ∷ env.stamp now ∷ []))
            (protected env now handler event code s.engine) s
            (protected-good env now G R l handler event code s.engine (k.good s p)) p)

    long_timer_loaded-keeps :
        (lua : S) (s : Server S) → P s → P (long_timer_loaded env now handler lua s)
    unfolding long_timer_loaded
    long_timer_loaded-keeps lua s p =
        global-keeps P (env.on_long_timer lua) _ _ _ (unseen s _ refl refl refl refl p)
          (problem-keeps _ s p)
          (settle-keeps "Lua-Funktion on_long_timer: "
            (concat ("long_timer · " ∷ env.stamp now ∷ []))
            (protected env now handler "long_timer" (env.call_on_long_timer lua) s.engine) s
            (protected-good env now G R l handler "long_timer" (env.call_on_long_timer lua) s.engine
              (k.good s p))
            p)

    pub long_timer_event-keeps : (s : Server S) → P s → P (long_timer_event env now handler s)
    unfolding long_timer_event
    long_timer_event-keeps s p =
        if-keeps P (unavailable s.engine) _ _ p
          (option-keeps P s.engine.lua s _ p (λ lua. long_timer_loaded-keeps lua s p))

    pub call_event-keeps :
        (event : String) (detail : List (String × Json)) (s : Server S)
        → P s
        → P (call_event env now handler event detail s)
    unfolding call_event
    call_event-keeps event detail s p =
        if-keeps P (unavailable s.engine || s.engine.manual_override) _ _ p
          (option-keeps P s.engine.lua s _ p (λ lua. call_loaded-keeps event detail lua s p))

    pub command_event-keeps :
        (source : String) (ok : Bool) (text : String) (s : Server S)
        → P s
        → P (command_event env now handler source ok text s)
    unfolding command_event
    command_event-keeps source ok text s p =
        call_event-keeps "command" _ _ (unseen s _ refl refl refl refl p)

    fire-keeps :
        (force : Bool) (due : Option (Schedule × ℕ × String)) (s : Server S)
        → DueIs env now G R l due
        → P s
        → P (fire env now handler force due s)
    unfolding fire
    fire-keeps force none s r p = p
    fire-keeps force (some (schedule, at, key)) s r p =
        if-keeps P (not force && contains_key key s.engine.handled_occurrences) _ _ p
          (h _ _ r (unseen s _ refl refl refl refl p))

    pub evaluate_schedules-keeps :
        (force : Bool) (s : Server S) → P s → P (evaluate_schedules env now handler force s)
    unfolding evaluate_schedules
    evaluate_schedules-keeps force s p = if-keeps P _ _ _ p (
        fire-keeps force (select env now s.engine.schedules none) s
          (select-DueIs env now G R l s.engine.schedules none (l.of_schedules s.engine (k.good s p))
            tt)
          p)

    pub process_time-keeps : (s : Server S) → P s → P (process_time env now handler s)
    unfolding process_time
    process_time-keeps s p = if-keeps P _ _ _ p (
        evaluate_schedules-keeps false _
          (call_event-keeps "time" _ _ (unseen s _ refl refl refl refl p)))

    pub set_connected-keeps :
        (connected : Bool) (reason : Option String) (s : Server S)
        → P s
        → P (set_connected env now handler connected reason s)
    unfolding set_connected
    set_connected-keeps connected reason s p =
        let q =
          call_event-keeps (if connected then "connected" else "disconnected") _ _
            (unseen s _ refl refl refl refl p) in
        if-keeps P (same s.engine.connected connected) _ _ p
          (if-keeps P _ _ _ (evaluate_schedules-keeps false _ q) q)

    publish-keeps :
        (alerts : List DeviceAlert) (s : Server S) → P s → P (publish env now handler alerts s)
    unfolding publish
    publish-keeps alerts s p =
        if-keeps P _ _ _ p (call_event-keeps "alarm" _ _ (unseen s _ refl refl refl refl p))

    publish_device_alerts-keeps :
        (status : Json) (s : Server S)
        → P s
        → Unless P (publish_device_alerts env now handler status s)
    unfolding publish_device_alerts
    publish_device_alerts-keeps status s p = of_alerts (device_alerts env status)
      where
        of_alerts :
            (o : Option (List DeviceAlert))
            → Unless P
                (elim o [ none ↦ none | some alerts ↦ some (publish env now handler alerts s) ])
        of_alerts none = tt
        of_alerts (some alerts) = publish-keeps alerts s p

    told_status :
        (status : Json) (detail : List (String × Json)) (t : Server S)
        → P t
        → Unless P (
            if t.engine.manual_override
            then some t
            else elim (publish_device_alerts env now handler status
                (call_event env now handler "status" detail t)) [
                  | none ↦ none
                  | some told ↦ some (evaluate_schedules env now handler false told)
                ])
    told_status status detail t p = Unless-if P t.engine.manual_override _ _ p (
        Unless-bind P _ (λ u. evaluate_schedules env now handler false u)
          (publish_device_alerts-keeps status _ (call_event-keeps "status" detail t p))
          (λ u q. evaluate_schedules-keeps false u q))

    pub status_event-keeps :
        (status : Json) (s : Server S) → P s → Unless P (status_event env now handler status s)
    unfolding status_event
    status_event-keeps status s p =
        let stored = unseen s (record s.engine { latest_status = status }) refl refl refl refl p in
        told_status status _ _
          (if-keeps P s.engine.connected _ _ stored (set_connected-keeps true none _ stored))

    pub reevaluate-keeps :
        (status : Json) (s : Server S) → P s → P (reevaluate env now handler status s)
    unfolding reevaluate
    reevaluate-keeps status s p = if-keeps P _ _ _ p (
        evaluate_schedules-keeps true _ (
          call_event-keeps "time" _ _ (
            unseen _ _ refl refl refl refl
              (call_event-keeps "status" _ _ (unseen s _ refl refl refl refl p)))))
