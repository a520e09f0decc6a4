-- ===== src/Automation/Api/Keeps.antt =====
-- What API calls, and so whole runs of Lua code, leave true of the engine.
use air_ctrl_desklet.Prelude.{
  ℕ, ◌≤◌, ◌≡◌, refl, ap, ◌∙◌, true, false, List, [], ◌∷◌, Option, String, length, Bool-cases, inl,
  inr, is_empty,
}
use air_ctrl_desklet.Json.{Json}
use air_ctrl_desklet.ControlValues.Allowed.{IsRequest}
use air_ctrl_desklet.Automation.Types.{
  Env, Engine, Action, ApiCall, LuaArgument, log, set, schedule, status, Run, done, fail, call,
  Schedule,
}
use air_ctrl_desklet.Automation.Table.{Result, ok, err, simple_table, simple_table-IsRequest}
use air_ctrl_desklet.Automation.Text.{length-push_bounded}
use air_ctrl_desklet.Automation.Schedule.{lua_schedule}
use air_ctrl_desklet.Automation.Schedule.Values.{AllRequests, lua_schedule-AllRequests}
use air_ctrl_desklet.Automation.Schedule.Conflicts.{Apart, lua_schedule-Apart}
use air_ctrl_desklet.Automation.Api.{
  may_set, append_log, push_action, lua_set, register, api_call, run,
}

-- At most one action, and one that the device protocol allows.
abbrev pub OneRequest : List Action → Type 0
OneRequest [] = Unit
OneRequest (a ∷ rest) = IsRequest a.values × (rest ≡ [])

-- The engine's standing invariant, and what a Lua run does to the queue of its event.
pub record Sound (S : Type 0) (e : Engine S) : Type 0 where
  pub apart : Apart e.schedules
  pub allowed : AllRequests e.schedules
  pub log_bound : length e.log_entries ≤ 50
  pub handled_bound : length e.handled_occurrences ≤ 64
  pub queued : OneRequest e.pending_actions

-- The first engine with the second's Lua state, log, schedules and queue of the event.
abbrev pub overlaid : {S : Type 0} → Engine S → Engine S → Engine S
overlaid e f = record e {
  lua = f.lua;
  log_entries = f.log_entries;
  schedules = f.schedules;
  pending_actions = f.pending_actions;
}

-- The second engine differs from the first in these four fields at most.
abbrev pub Same : {S : Type 0} → Engine S → Engine S → Type 0
Same e f = f ≡ overlaid e f

Same-trans : {S : Type 0} (e f g : Engine S) → Same e f → Same f g → Same e g
Same-trans e f g h k = k ∙ ap (λ m. overlaid m g) h

nothing : (actions : List Action) → is_empty actions ≡ true → actions ≡ []
nothing [] h = refl
nothing (a ∷ rest) h = cc

module _ {S : Type 0} (env : Env S) (now : ℕ) where
  pub append_log-Sound :
      (level message : String) (e : Engine S)
      → Sound S e
      → Sound S (append_log env now level message e)
  unfolding append_log
  append_log-Sound level message e v = record {
    apart = v.apart;
    allowed = v.allowed;
    log_bound = length-push_bounded 50 _ e.log_entries v.log_bound;
    handled_bound = v.handled_bound;
    queued = v.queued;
  }

  push_action-Sound :
      (event : Option String) (r : Result Json) (e : Engine S)
      → ((j : Json) → r ≡ ok j → IsRequest j)
      → e.pending_actions ≡ []
      → Sound S e
      → Sound S (push_action env now event r e).1
  unfolding push_action
  push_action-Sound event (err p) e allowed empty v = v
  push_action-Sound event (ok j) e allowed empty v = record {
    apart = v.apart;
    allowed = v.allowed;
    log_bound = v.log_bound;
    handled_bound = v.handled_bound;
    queued = rw empty (allowed j refl, refl);
  }

  lua_set-Sound :
      (argument : LuaArgument) (e : Engine S) → Sound S e → Sound S (lua_set env now argument e).1
  unfolding lua_set
  lua_set-Sound argument e v = elim (Bool-cases (may_set e.current_event)) [
    | inr n ↦ rw (n, lua_set) v
    | inl y ↦ elim (Bool-cases (is_empty e.pending_actions)) [
      | inr n ↦ rw (y, n, lua_set) v
      | inl empty ↦
          rw (y, empty, lua_set)
            (push_action-Sound e.current_event (simple_table argument) e
              (simple_table-IsRequest argument) (nothing e.pending_actions empty) v)
    ]
  ]

  register-Sound :
      (r : Result (List Schedule)) (e : Engine S)
      → ((ss : List Schedule) → r ≡ ok ss → Apart ss × AllRequests ss)
      → Sound S e
      → Sound S (register env now r e).1
  unfolding register
  register-Sound (ok ss) e h v = record {
    apart = (h ss refl).0;
    allowed = (h ss refl).1;
    log_bound = v.log_bound;
    handled_bound = v.handled_bound;
    queued = v.queued;
  }
  register-Sound (err p) e h v = v

  api_call-Sound : (c : ApiCall) (e : Engine S) → Sound S e → Sound S (api_call env now c e).1
  unfolding api_call
  api_call-Sound (log level message) e v = append_log-Sound _ message e v
  api_call-Sound (set argument) e v = lua_set-Sound argument e v
  api_call-Sound (schedule t) e v =
      register-Sound (lua_schedule env.text e.schedules e.schedules t) e
        (λ ss h. (
          lua_schedule-Apart env.text e.schedules e.schedules t ss v.apart h,
          lua_schedule-AllRequests env.text e.schedules e.schedules t ss v.allowed h,
        ))
        v
  api_call-Sound status e v = v

  -- Whatever a script does, it leaves the schedules apart and with allowed values only, the log within
  -- fifty entries, the handled occurrences within 64, and at most one queued action, which the device
  -- protocol allows, if all of this held before.
  pub run-Sound : (r : Run S) (e : Engine S) → Sound S e → Sound S (run env now r e).0
  unfolding run
  run-Sound (done s) e v = record {
    apart = v.apart;
    allowed = v.allowed;
    log_bound = v.log_bound;
    handled_bound = v.handled_bound;
    queued = v.queued;
  }
  run-Sound (fail s p) e v = record {
    apart = v.apart;
    allowed = v.allowed;
    log_bound = v.log_bound;
    handled_bound = v.handled_bound;
    queued = v.queued;
  }
  run-Sound (call c rest) e v =
      let (reply, e') = api_call env now c e in run-Sound (rest reply) e' (api_call-Sound c e v)

  push_action-Same :
      (event : Option String) (r : Result Json) (e : Engine S)
      → Same e (push_action env now event r e).1
  unfolding push_action
  push_action-Same event (err p) e = refl
  push_action-Same event (ok j) e = refl

  lua_set-Same : (argument : LuaArgument) (e : Engine S) → Same e (lua_set env now argument e).1
  unfolding lua_set
  lua_set-Same argument e = elim (Bool-cases (may_set e.current_event)) [
    | inr n ↦ rw (n, lua_set) refl
    | inl y ↦ elim (Bool-cases (is_empty e.pending_actions)) [
      | inr n ↦ rw (y, n, lua_set) refl
      | inl empty ↦
          rw (y, empty, lua_set) (push_action-Same e.current_event (simple_table argument) e)
    ]
  ]

  register-Same : (r : Result (List Schedule)) (e : Engine S) → Same e (register env now r e).1
  unfolding register
  register-Same (ok ss) e = refl
  register-Same (err p) e = refl

  api_call-Same : (c : ApiCall) (e : Engine S) → Same e (api_call env now c e).1
  unfolding api_call append_log
  api_call-Same (log level message) e = refl
  api_call-Same (set argument) e = lua_set-Same argument e
  api_call-Same (schedule t) e = register-Same (lua_schedule env.text e.schedules e.schedules t) e
  api_call-Same status e = refl

  -- A run leaves every field of the engine as it was but the Lua state, the log, the schedules and the
  -- queue of its event.
  pub run-Same : (r : Run S) (e : Engine S) → Same e (run env now r e).0
  unfolding run
  run-Same (done s) e = refl
  run-Same (fail s p) e = refl
  run-Same (call c rest) e =
      let (reply, e') = api_call env now c e in
      Same-trans e e' (run env now (rest reply) e').0 (api_call-Same c e) (run-Same (rest reply) e')

  register-queue :
      (r : Result (List Schedule)) (e : Engine S)
      → (register env now r e).1.pending_actions ≡ e.pending_actions
  unfolding register
  register-queue (ok ss) e = refl
  register-queue (err p) e = refl

  api_call-no_set :
      (c : ApiCall) (e : Engine S)
      → may_set e.current_event ≡ false
      → (api_call env now c e).1.pending_actions ≡ e.pending_actions
  unfolding api_call lua_set append_log
  api_call-no_set (log level message) e h = refl
  api_call-no_set (set argument) e h = rw (h, lua_set)
  api_call-no_set (schedule t) e h =
      register-queue (lua_schedule env.text e.schedules e.schedules t) e
  api_call-no_set status e h = refl

  -- Outside the five events that may switch the device, no run queues an action.
  pub run-no_set :
      (r : Run S) (e : Engine S)
      → may_set e.current_event ≡ false
      → (run env now r e).0.pending_actions ≡ e.pending_actions
  unfolding run
  run-no_set (done s) e h = refl
  run-no_set (fail s p) e h = refl
  run-no_set (call c rest) e h =
      let (reply, e') = api_call env now c e in
      run-no_set (rest reply) e' (ap (λ f. may_set f.current_event) (api_call-Same c e) ∙ h)
      ∙ api_call-no_set c e h
