-- ===== src/Automation/State.antt =====
-- The parts of AutomationEngine that only change the engine: the persistent state, handled
-- occurrences, the manual override, and the moment at which a schedule was last due.
use air_ctrl_desklet.Prelude.{
  ℕ, zero, suc, Bool, true, false, not, ◌&&◌, ◌||◌, List, [], ◌∷◌, Option, none, some, String, ◌==◌,
  if◌then◌else◌, nat_eq, string_eq, any, ltb, concat,
}
use air_ctrl_desklet.Automation.Types.{Env, Engine, Schedule, Moment}
use air_ctrl_desklet.Automation.Text.{clean_line, push_bounded}
use air_ctrl_desklet.Automation.Api.{append_log}
use air_ctrl_desklet.ControlValues.{same}

-- savePersistentState: the state file is replaced as a whole or not at all.
unfoldable pub save_state : {S : Type 0} → Engine S → Bool × Engine S
save_state e =
    if e.disk.state_writable
    then (
      true,
      record e {
        disk = record e.disk {
          saved = some (
            e.enabled, e.manual_override, e.manual_override_reason, e.revision,
            e.handled_occurrences,
          );
        };
      },
    )
    else (false, e)

abbrev pub contains_key : String → List String → Bool
contains_key key keys = any (λ k. k == key) keys

module _ {S : Type 0} (env : Env S) (now : ℕ) where
  -- savePersistentState with its failure logged
  unfoldable pub save_or_log : Engine S → Engine S
  unfolding save_state append_log
  save_or_log e =
      let (saved, e') = save_state e in
      if saved then e' else append_log env now "error" env.write_error e'

  -- actionAccepted
  unfoldable pub action_accepted : Option String → Engine S → Engine S
  unfolding save_or_log
  action_accepted none e = e
  action_accepted (some key) e =
      if contains_key key e.handled_occurrences
      then e
      else save_or_log
          (record e { handled_occurrences = push_bounded 64 key e.handled_occurrences })

  -- setManualOverride; the result says whether anything changed.
  unfoldable pub set_manual_override : Bool → String → Engine S → Bool × Engine S
  unfolding save_or_log
  set_manual_override active reason e = if same e.manual_override active then (false, e) else (
    true,
    save_or_log (
        append_log env now "info"
          (if active
            then "Lua-Automatik durch eine manuelle Geräteeinstellung gesperrt."
            else "Manuelle Automatik-Sperre aufgehoben; Skript wird neu ausgewertet.")
          (record e {
            manual_override = active;
            manual_override_reason =
                if active then env.text (clean_line 200 (env.bytes reason)) else "";
            last_event =
                if active then "Automatik manuell gesperrt" else "Automatik-Sperre aufgehoben";
          })),
  )

-- The day of the week with Sunday as 7.
abbrev pub weekday : Moment → ℕ
weekday m = if m.wday == 0 then 7 else m.wday

abbrev same_minute : Moment → Moment → Bool
same_minute a b = a.year == b.year && a.yday == b.yday && a.hour == b.hour && a.minute == b.minute

abbrev pub Due : Type 0
Due = Option (Schedule × ℕ × String)

abbrev pub better : Schedule → Option (ℕ × String) → Due → Due
better s none best = best
better s (some (at, key)) none = some (s, at, key)
better s (some (at, key)) (some (t, best_at, best_key)) =
    if ltb best_at at then some (s, at, key) else some (t, best_at, best_key)

module _ {S : Type 0} (env : Env S) where
  abbrev occurrence : Schedule → ℕ → ℕ × String
  occurrence s at = (at, concat (env.text s.name ∷ "|" ∷ env.stamp at ∷ []))

  -- The loop of occurrenceFor over the days back; `left` is the number of rounds.
  unfoldable pub look_back : ℕ → ℕ → Schedule → ℕ → Option (ℕ × String)
  look_back zero back s now = none
  look_back (suc left) back s now =
      let earlier = look_back left (suc back) s now in
      elim (env.make_time (env.local_time now) back s.hour s.minute) [
        | none ↦ earlier
        | some at ↦
            if ltb now at || not (any (λ d. d == weekday (env.local_time at)) s.days)
            then earlier
            else if not s.catch_up && not (same_minute (env.local_time at) (env.local_time now))
            then none
            else some (occurrence s at)
      ]

  -- occurrenceFor: today and the seven days before.
  unfoldable pub occurrence_for : Schedule → ℕ → Option (ℕ × String)
  occurrence_for s now = look_back 8 0 s now

  -- The loop of evaluateSchedules: the latest due occurrence, the first of equals.
  unfoldable pub select : ℕ → List Schedule → Due → Due
  select now [] best = best
  select now (s ∷ rest) best = select now rest (better s (occurrence_for s now) best)
