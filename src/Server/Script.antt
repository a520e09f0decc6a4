-- ===== src/Server/Script.antt =====
-- loadScriptText, validateScript, readScript, saveScript and closeState of AutomationEngine
-- (src/server/automation.cpp). A script that is validated runs in an engine of its own, with no handler.
use air_ctrl_desklet.Prelude.{
  ℕ, ◌+◌, ◌*◌, ◌%◌, ◌^◌, Bool, true, false, not, ◌&&◌, [], ◌∷◌, Option, none, some, String,
  if◌then◌else◌, ltb, length, concat, is_some,
}
use air_ctrl_desklet.Json.{object, end}
use air_ctrl_desklet.Automation.Types.{Env, Engine, Action, Run}
use air_ctrl_desklet.Automation.Table.{Result, ok, err}
use air_ctrl_desklet.Automation.Api.{set_problem, run}
use air_ctrl_desklet.Automation.State.{save_state}
use air_ctrl_desklet.Server.State.{Server}
use air_ctrl_desklet.Server.Events.{call_event, process_time}

abbrev pub maximum_script_size : ℕ
maximum_script_size = 256 * 1024

unfoldable pub close_state : {S : Type 0} → Engine S → Engine S
close_state e = record e { lua = none; schedules = []; pending_actions = [] }

module _ {S : Type 0} (env : Env S) (now : ℕ) where
  unfoldable pub read_script : Engine S → Result String
  read_script e = elim e.disk.script [
    | none ↦
        err (concat ("Lua-Skript auf dem Server kann nicht gelesen werden: " ∷ e.script_path ∷ []))
    | some script ↦
        if ltb maximum_script_size (length (env.bytes script))
        then err "Lua-Skript auf dem Server ist größer als 256 KiB."
        else ok script
  ]

  abbrev pub emptied : Engine S → Engine S
  unfolding close_state
  emptied e = record (close_state e) {
    last_error = none;
    last_event = "";
    last_action = "";
    last_minute = "";
    last_alert_digest = [];
  }

  -- The main chunk, and what follows it.
  unfoldable pub run_chunk : Run S → Engine S → Engine S × Option String
  run_chunk code e =
      let (e', problem) = run env now code (record e { dispatching = true }) in
      (record e' { dispatching = false }, problem)

  abbrev loaded_ok : Server S → Bool
  loaded_ok s = is_some s.engine.lua && not (is_some s.engine.last_error)

  unfoldable pub after_chunk :
      (Action → Server S → Server S) → Engine S × Option String → Server S → Bool × Server S
  unfolding close_state
  after_chunk handler (e, some problem) s = (
    false,
    record s {
      engine = set_problem env now (concat ("Lua-Skriptfehler: " ∷ problem ∷ [])) (close_state e);
    },
  )
  after_chunk handler (e, none) s =
      let started = process_time env now handler (
        call_event env now handler "startup" (("time", object (env.time_detail now)) ∷ [])
          (record s { engine = record e { last_event = "Skript geladen" } })) in
      (loaded_ok started, started)

  -- loadScriptText with its initial events
  unfoldable pub load_script : (Action → Server S → Server S) → String → Server S → Bool × Server S
  unfolding run_chunk after_chunk
  load_script handler text s = elim (env.load text) [
    | none ↦ (
      false,
      record s {
        engine =
            set_problem env now "Lua konnte wegen des Speicherlimits nicht gestartet werden."
              (emptied s.engine);
      },
    )
    | some code ↦ after_chunk handler (run_chunk code (emptied s.engine)) s
  ]

  -- A new engine, as validateScript makes it.
  abbrev validator : Engine S → Engine S
  validator e = record {
    script_path = e.script_path;
    disk = e.disk;
    lua = none;
    enabled = true;
    manual_override = false;
    manual_override_reason = "";
    connected = false;
    dispatching = false;
    revision = 1;
    current_event = none;
    last_error = none;
    last_event = "";
    last_action = "";
    last_minute = "";
    last_alert_digest = [];
    latest_status = object end;
    schedules = [];
    pending_actions = [];
    handled_occurrences = [];
    log_entries = [];
  }

  -- validateScript: the error, if there is one
  unfoldable pub validate_script : String → Server S → Bool × Option String
  unfolding load_script
  validate_script text s =
      let (fine, t) = load_script (λ a u. u) text (record s { engine = validator s.engine }) in
      (fine, t.engine.last_error)

  abbrev with_script : Option String → Engine S → Engine S
  with_script script e = record e { disk = record e.disk { script = script } }

  abbrev previous_script : Result String → Option String → Option String
  previous_script (ok script) written = some script
  previous_script (err e) written = written

  -- The end of saveScript, once the script and the state are written.
  unfoldable pub activate :
      (Action → Server S → Server S) → String → Server S → (Bool × Option String) × Server S
  activate handler text s =
      let (fine, t) = load_script handler text s in
      if s.engine.enabled then ((fine, if fine then none else t.engine.last_error), t) else (
        (true, none),
        record s {
          engine = record (close_state s.engine) { last_error = none; last_event = "deaktiviert" };
        },
      )

  -- saveScript: whether it succeeded, the error, and the server
  unfoldable pub save_script :
      (Action → Server S → Server S) → String → Bool → Server S → (Bool × Option String) × Server S
  save_script handler text enabled s =
      let (valid, problem) = validate_script text s in
      let e = s.engine in
      let written = record (with_script (some text) e) {
        enabled = enabled;
        revision = (e.revision + 1) % 2 ^ 64;
      } in
      let (saved, kept) = save_state written in
      if ltb maximum_script_size (length (env.bytes text))
      then ((false, some "Lua-Skript ist größer als 256 KiB."), s)
      else if not valid
      then ((false, problem), s)
      else if not e.disk.script_writable
      then ((false, some env.write_error), s)
      else if not saved
      then (
        (false, some env.write_error),
        record s { engine = with_script (previous_script (read_script e) (some text)) e },
      )
      else activate handler text (record s { engine = kept })
