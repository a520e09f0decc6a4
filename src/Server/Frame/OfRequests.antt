-- ===== src/Server/Frame/OfRequests.antt =====
-- The requests of the clients and the saving of a script keep what is kept.
use air_ctrl_desklet.Prelude.{
  ℕ, ◌+◌, ◌%◌, ◌^◌, ◌≡◌, refl, Bool, true, false, not, ◌&&◌, [], ◌++◌, Option, none, some, String,
  ◌==◌, if◌then◌else◌, nat_eq, string_eq, Option-cases, inl, inr, is_some, ltb, length,
}
use air_ctrl_desklet.Json.{Json, find, is_filled_object}
use air_ctrl_desklet.Automation.Types.{Engine}
use air_ctrl_desklet.Json.{Json}
use air_ctrl_desklet.Automation.Types.{Env, Engine, Action}
use air_ctrl_desklet.Automation.Table.{Result, ok, err}
use air_ctrl_desklet.Server.State.{Server, lookup}
use air_ctrl_desklet.Server.Script.{
  emptied, close_state, load_script, after_chunk, activate, save_script, validate_script,
  read_script, maximum_script_size,
}
use air_ctrl_desklet.Server.Requests.{
  resume, refresh, override_by, control, control_checked, handle, fail_all, values_of, checks,
  affects_automation,
}
use air_ctrl_desklet.Server.Editor.{edit_begin, answer_save, edit_save, edit_cancel, save_request}
use air_ctrl_desklet.Server.Answers.{request_id, kind_of}
use air_ctrl_desklet.Automation.State.{save_state, set_manual_override}
use air_ctrl_desklet.ControlValues.{control_values_error}
use air_ctrl_desklet.Server.Frame.{Kept, announce-keeps, send-keeps}
use air_ctrl_desklet.Server.Frame.Cases.{if-keeps, option-keeps}
use air_ctrl_desklet.Server.Frame.OfActions.{Queued, handle_action-keeps}
use air_ctrl_desklet.Server.Frame.OfEvents.{
  Handles, unseen, call_event-keeps, process_time-keeps, reevaluate-keeps, long_timer_event-keeps,
}
use air_ctrl_desklet.Server.Frame.OfEngine.{
  Lasting, run_chunk-good, set_problem-good, close_state-good, save_state-good,
  set_manual_override-good,
}

-- What a predicate must be indifferent to besides: the editor's lock, taken by the client that asks, and
-- the flags of a restart.
pub record Served (S : Type 0) (P : Server S → Type 0) (client : ℕ) : Type 0 where
  pub take :
      (s : Server S)
      → P s
      → is_some (lookup client s.clients) ≡ true
      → P (record s { automation_editor = client })
  pub free : (s : Server S) → P s → P (record s { automation_editor = 0 })
  pub restart :
      (s : Server S)
      → P s
      → P (record s {
        refresh_scheduled = true;
        device_ready = false;
        reconnect_requested = true;
        commands = [];
        events = s.events ++ fail_all s.commands;
      })

checks-passed :
    (id : Option ℕ) (problem : Option String) (n : ℕ) → checks id problem ≡ some n → problem ≡ none
checks-passed (some id) none n h = refl
checks-passed (some id) (some problem) n h = cc
checks-passed none problem n h = cc

module _ {S : Type 0} (P : Server S → Type 0) where
  pair-keeps {ℓ} :
      {A : Type ℓ} (b : Bool) (x y : A × Server S) → P x.1 → P y.1 → P (if b then x else y).1
  pair-keeps true x y p q = p
  pair-keeps false x y p q = q

  result-keeps {ℓ} :
      {A : Type ℓ} (r : Result A) (f : String → Server S) (g : A → Server S)
      → ((e : String) → P (f e))
      → ((a : A) → P (g a))
      → P (elim r [ err e ↦ f e | ok a ↦ g a ])
  result-keeps (ok a) f g p q = q a
  result-keeps (err e) f g p q = p e

module _ {S : Type 0} (env : Env S) (now : ℕ) (G : Engine S → Type 0) (R : Json → Type 0)
    (l : Lasting env G R) (P : Server S → Type 0) (k : Kept S G P) where
  module _ (handler : Action → Server S → Server S) (h : Handles env now G R l P k handler) where
    after_chunk-keeps :
        (r : Engine S × Option String) (s : Server S)
        → G r.0
        → P s
        → P (after_chunk env now handler r s).1
    unfolding after_chunk
    after_chunk-keeps (e, some problem) s g p =
        k.engine s _ p (set_problem-good env now G R l _ _ (close_state-good env now G R l e g))
    after_chunk-keeps (e, none) s g p = process_time-keeps env now G R l P k handler h _ (
        call_event-keeps env now G R l P k handler h "startup" _ _
          (k.engine s _ p (l.others e _ refl refl refl refl g)))

    emptied-good : (e : Engine S) → G e → G (emptied env now e)
    unfolding close_state
    emptied-good e g =
        l.others (close_state e) _ refl refl refl refl (close_state-good env now G R l e g)

    load_script-keeps :
        (text : String) (s : Server S) → P s → P (load_script env now handler text s).1
    unfolding load_script
    load_script-keeps text s p =
        let g = emptied-good s.engine (k.good s p) in
        elim (Option-cases (env.load text)) [
          | inl e ↦ rw (e, load_script) (k.engine s _ p (set_problem-good env now G R l _ _ g))
          | inr (code, e) ↦
              rw (e, load_script)
                (after_chunk-keeps _ s
                  (run_chunk-good env now G R l code (emptied env now s.engine) g) p)
        ]

    activate-keeps : (text : String) (s : Server S) → P s → P (activate env now handler text s).1
    unfolding activate
    activate-keeps text s p = pair-keeps P s.engine.enabled _ _ (load_script-keeps text s p) (
        k.engine s _ p (
          l.others (close_state s.engine) _ refl refl refl refl
            (close_state-good env now G R l s.engine (k.good s p))))

    pub save_script-keeps :
        (text : String) (enabled : Bool) (s : Server S)
        → P s
        → P (save_script env now handler text enabled s).1
    unfolding save_script
    save_script-keeps text enabled s p =
        let written = record s.engine {
          disk = record s.engine.disk { script = some text };
          enabled = enabled;
          revision = (s.engine.revision + 1) % 2 ^ 64;
        } in
        let g =
          save_state-good env now G R l written
            (l.others s.engine written refl refl refl refl (k.good s p)) in
        pair-keeps P (ltb maximum_script_size (length (env.bytes text))) _ _ p (
          pair-keeps P (not (validate_script env now text s).0) _ _ p (
            pair-keeps P (not s.engine.disk.script_writable) _ _ p (
              pair-keeps P (not (save_state written).0) _ _
                (unseen env now G R l P k s _ refl refl refl refl p)
                (activate-keeps text _ (k.engine s _ p g)))))

  answer_save-keeps :
      {c : ℕ}
      → Served S P c
      → (client id : ℕ) (r : (Bool × Option String) × Server S) → P r.1
      → P (answer_save env now client id r)
  unfolding answer_save
  answer_save-keeps v client id ((false, problem), s) p = send-keeps env P k client _ s p
  answer_save-keeps v client id ((true, problem), s) p =
      announce-keeps env P k _ (send-keeps env P k client _ _ (v.free s p))

  override_by-keeps : (values : Json) (s : Server S) → P s → P (override_by env now values s)
  unfolding override_by
  override_by-keeps values s p =
      let (changed, e) =
        set_manual_override env now true "Manuelle Einstellung an einem Client" s.engine in
      let suspended =
        k.engine s e p (set_manual_override-good env now G R l true _ s.engine (k.good s p)) in
      if-keeps P (s.engine.enabled && affects_automation values) _ _
        (if-keeps P changed _ _ (announce-keeps env P k _ suspended) suspended) p

  module _ (q : Queued S R P) (client : ℕ) (v : Served S P client) where
    edit_begin-keeps :
        (request : Json) (s : Server S)
        → P s
        → is_some (lookup client s.clients) ≡ true
        → P (edit_begin env now client request s)
    unfolding edit_begin
    edit_begin-keeps request s p live =
        option-keeps P (request_id request) _ _ (send-keeps env P k client _ s p) (λ id.
          if-keeps P (not (s.automation_editor == 0) && not (s.automation_editor == client)) _ _
            (send-keeps env P k client _ s p)
            (result-keeps P (read_script env now s.engine) _ _
              (λ problem. send-keeps env P k client _ s p)
              (λ script.
                announce-keeps env P k _ (send-keeps env P k client _ _ (v.take s p live)))))

    edit_save-keeps : (request : Json) (s : Server S) → P s → P (edit_save env now client request s)
    unfolding edit_save
    edit_save-keeps request s p =
        let refused = send-keeps env P k client _ s p in
        option-keeps P (save_request request) _ _ refused (λ (id, script, enabled, revision).
          if-keeps P (not (s.automation_editor == client)) _ _ refused (
            if-keeps P (not (revision == s.engine.revision)) _ _ (send-keeps env P k client _ s p) (
              answer_save-keeps v client id _ (
                save_script-keeps _ (handle_action-keeps env now G R l P k q) script enabled s p))))

    edit_cancel-keeps : (s : Server S) → P s → P (edit_cancel env now client s)
    unfolding edit_cancel
    edit_cancel-keeps s p =
        let told = send-keeps env P k client _ _ (
          if-keeps P (s.automation_editor == client) (record s { automation_editor = 0 }) s
            (v.free s p) p) in
        if-keeps P (s.automation_editor == client) _ _ (announce-keeps env P k _ told) told

    resume-keeps : (s : Server S) → P s → P (resume env now s)
    unfolding resume
    resume-keeps s p =
        let cleared =
          k.engine s _ p (set_manual_override-good env now G R l false "" s.engine (k.good s p)) in
        announce-keeps env P k _ (
          if-keeps P (s.engine.manual_override && is_filled_object s.last_status) _ _
            (reevaluate-keeps env now G R l P k _ (handle_action-keeps env now G R l P k q) _ _
              cleared)
            cleared)

    control-keeps : (request : Json) (s : Server S) → P s → P (control env now client request s)
    unfolding control control_checked
    control-keeps request s p =
        let values = values_of (find "values" request) in
        elim (Option-cases (checks (request_id request) (control_values_error values))) [
          | inl e ↦ rw (e, control) (send-keeps env P k client _ s p)
          | inr (id, e) ↦
              rw (e, control)
                (if-keeps P (not s.device_ready) _ _ (send-keeps env P k client _ s p) (
                  q.push _ _ _ (l.of_requests values (checks-passed (request_id request) _ id e))
                    (override_by-keeps values s p)))
        ]

    pub handle-keeps :
        (request : Json) (s : Server S)
        → P s
        → is_some (lookup client s.clients) ≡ true
        → P (handle env now client request s)
    unfolding handle refresh
    handle-keeps request s p live =
        let kind = kind_of request in
        if-keeps P (kind == "automation_edit_begin") _ _ (edit_begin-keeps request s p live) (
          if-keeps P (kind == "automation_edit_save") _ _ (edit_save-keeps request s p) (
            if-keeps P (kind == "automation_edit_cancel") _ _ (edit_cancel-keeps s p) (
              if-keeps P (kind == "automation_resume") _ _ (resume-keeps s p) (
                if-keeps P (kind == "long_timer") _ _
                  (announce-keeps env P k _ (
                    long_timer_event-keeps env now G R l P k _
                      (handle_action-keeps env now G R l P k q) s p))
                  (if-keeps P (kind == "configure") _ _ (send-keeps env P k client _ s p) (
                    if-keeps P (kind == "refresh") _ _
                      (if-keeps P s.refresh_scheduled _ _ p (v.restart s p))
                      (if-keeps P (kind == "control") _ _ (control-keeps request s p) (
                        if-keeps P (kind == "ping") _ _ (send-keeps env P k client _ s p)
                          (send-keeps env P k client _ s p)))))))))
