-- ===== src/Server/Frame/OfEngine.antt =====
-- What the parts of an operation that change the engine alone keep of it.
use air_ctrl_desklet.Prelude.{
  ℕ, ◌≡◌, refl, Bool, true, false, List, [], ◌∷◌, Option, none, some, String, if◌then◌else◌, All,
  Bool-cases, inl, inr, ltb,
}
use air_ctrl_desklet.Json.{Json}
use air_ctrl_desklet.ControlValues.{control_values_error, same}
use air_ctrl_desklet.Automation.Types.{Env, Engine, Run, Schedule, Action}
use air_ctrl_desklet.Automation.Text.{push_bounded, clean_line}
use air_ctrl_desklet.Automation.Api.{run, append_log, set_problem}
use air_ctrl_desklet.Automation.State.{
  save_state, save_or_log, action_accepted, set_manual_override, contains_key, select, better,
  occurrence_for, Due,
}
use air_ctrl_desklet.Server.State.{Server}
use air_ctrl_desklet.Server.Events.{protected}
use air_ctrl_desklet.Server.Script.{run_chunk, close_state}

-- A predicate on engines that every primitive change keeps, with what it says of the values of
-- actions and schedules, and which checked requests have too.
pub record Lasting {S : Type 0} (env : Env S) (G : Engine S → Type 0) (R : Json → Type 0)
    : Type 0 where
  -- only the schedules, the queue of actions, the handled occurrences and the log count
  pub others :
      (e f : Engine S)
      → f.schedules ≡ e.schedules
      → f.pending_actions ≡ e.pending_actions
      → f.handled_occurrences ≡ e.handled_occurrences
      → f.log_entries ≡ e.log_entries
      → G e
      → G f
  pub log :
      (now : ℕ) (level message : String) (e : Engine S)
      → G e
      → G (append_log env now level message e)
  pub lua_run : (now : ℕ) (code : Run S) (e : Engine S) → G e → G (run env now code e).0
  pub no_actions : (e : Engine S) → G e → G (record e { pending_actions = [] })
  pub no_schedules : (e : Engine S) → G e → G (record e { schedules = [] })
  pub handled :
      (key : String) (e : Engine S)
      → G e
      → G (record e { handled_occurrences = push_bounded 64 key e.handled_occurrences })
  pub of_actions : (e : Engine S) → G e → All (λ a. R a.values) e.pending_actions
  pub of_schedules : (e : Engine S) → G e → All (λ a. R a.values) e.schedules
  pub of_requests : (values : Json) → control_values_error values ≡ none → R values

-- Of engines and values, nothing.
abbrev pub Anything : {A : Type 0} → A → Type 0
Anything a = Unit

abbrev pub anything : {S : Type 0} (env : Env S) → Lasting env (λ e. Anything e) (λ v. Anything v)
anything env = record {
  others = λ e f a b c d g. tt;
  log = λ now level message e g. tt;
  lua_run = λ now code e g. tt;
  no_actions = λ e g. tt;
  no_schedules = λ e g. tt;
  handled = λ key e g. tt;
  of_actions = λ e g. nothing_said (λ a. a.values) e.pending_actions;
  of_schedules = λ e g. nothing_said (λ a. a.values) e.schedules;
  of_requests = λ values checked. tt;
}
  where
    nothing_said : {A : Type 0} (f : A → Json) (as' : List A) → All (λ a. Anything (f a)) as'
    nothing_said f [] = tt
    nothing_said f (a ∷ rest) = (tt, nothing_said f rest)

module _ {S : Type 0} (env : Env S) (now : ℕ) (G : Engine S → Type 0) (R : Json → Type 0)
    (l : Lasting env G R) where
  pub set_problem-good : (problem : String) (e : Engine S) → G e → G (set_problem env now problem e)
  unfolding set_problem
  set_problem-good problem e g =
      l.log now "error" problem (record e { last_error = some problem })
        (l.others e _ refl refl refl refl g)

  pub protected-good :
      (handler : Action → Server S → Server S) (event : String) (code : Run S) (e : Engine S)
      → G e
      → G (protected env now handler event code e).0
  unfolding protected
  protected-good handler event code e g =
      let called = record e { current_event = some event; dispatching = true } in
      l.others (run env now code called).0 _ refl refl refl refl
        (l.lua_run now code called (l.others e called refl refl refl refl g))

  pub run_chunk-good : (code : Run S) (e : Engine S) → G e → G (run_chunk env now code e).0
  unfolding run_chunk
  run_chunk-good code e g =
      let called = record e { dispatching = true } in
      l.others (run env now code called).0 _ refl refl refl refl
        (l.lua_run now code called (l.others e called refl refl refl refl g))

  pub close_state-good : (e : Engine S) → G e → G (close_state e)
  unfolding close_state
  close_state-good e g = l.others _ _ refl refl refl refl (l.no_actions _ (l.no_schedules e g))

  pub if-good : (b : Bool) (e f : Engine S) → G e → G f → G (if b then e else f)
  if-good true e f g h = g
  if-good false e f g h = h

  second-good {ℓ} :
      {A : Type ℓ} (b : Bool) (x y : A × Engine S) → G x.1 → G y.1 → G (if b then x else y).1
  second-good true x y g h = g
  second-good false x y g h = h

  pub save_state-good : (e : Engine S) → G e → G (save_state e).1
  unfolding save_state
  save_state-good e g = second-good e.disk.state_writable _ _ (l.others e _ refl refl refl refl g) g

  pub save_or_log-good : (e : Engine S) → G e → G (save_or_log env now e)
  unfolding save_or_log
  save_or_log-good e g =
      if-good (save_state e).0 _ _ (save_state-good e g)
        (l.log now "error" env.write_error _ (save_state-good e g))

  pub action_accepted-good :
      (key : Option String) (e : Engine S) → G e → G (action_accepted env now key e)
  unfolding action_accepted
  action_accepted-good none e g = g
  action_accepted-good (some key) e g =
      if-good (contains_key key e.handled_occurrences) _ _ g
        (save_or_log-good _ (l.handled key e g))

  pub set_manual_override-good :
      (active : Bool) (reason : String) (e : Engine S)
      → G e
      → G (set_manual_override env now active reason e).1
  unfolding set_manual_override
  set_manual_override-good active reason e g =
      let changed = record e {
        manual_override = active;
        manual_override_reason =
            if active then env.text (clean_line 200 (env.bytes reason)) else "";
        last_event = if active then "Automatik manuell gesperrt" else "Automatik-Sperre aufgehoben";
      } in
      let text =
        if active
        then "Lua-Automatik durch eine manuelle Geräteeinstellung gesperrt."
        else "Manuelle Automatik-Sperre aufgehoben; Skript wird neu ausgewertet." in
      second-good (same e.manual_override active) _ _ g (
        save_or_log-good (append_log env now "info" text changed)
          (l.log now "info" text changed (l.others e changed refl refl refl refl g)))

  -- The schedule that is due is one of those registered.
  abbrev pub DueIs : Due → Type 0
  DueIs none = Unit
  DueIs (some (schedule, at, key)) = R schedule.values

  better-DueIs :
      (s : Schedule) (o : Option (ℕ × String)) (best : Due)
      → R s.values
      → DueIs best
      → DueIs (better s o best)
  better-DueIs s none best r d = d
  better-DueIs s (some (at, key)) none r d = r
  better-DueIs s (some (at, key)) (some (t, best_at, best_key)) r d =
      elim (Bool-cases (ltb best_at at)) [ inl later ↦ rw later r | inr earlier ↦ rw earlier d ]

  pub select-DueIs :
      (schedules : List Schedule) (best : Due)
      → All (λ a. R a.values) schedules
      → DueIs best
      → DueIs (select env now schedules best)
  unfolding select
  select-DueIs [] best all d = d
  select-DueIs (s ∷ rest) best (r, all) d =
      select-DueIs rest _ all (better-DueIs s (occurrence_for env s now) best r d)
