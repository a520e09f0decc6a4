-- ===== src/Server/Main/Checked.antt =====
-- Only requests that the device protocol allows are ever queued for the device, whoever asks.
use air_ctrl_desklet.Prelude.{
  ◌≤◌, ◌≡◌, refl, sym, subst, Bool-cases, inl, inr, List, [], ◌∷◌, All, All-append, length,
}
use air_ctrl_desklet.ControlValues.Allowed.{IsRequest, control_values_error-IsRequest}
use air_ctrl_desklet.Automation.Types.{Env, Action}
use air_ctrl_desklet.Automation.Text.{length-push_bounded}
use air_ctrl_desklet.Automation.Schedule.Conflicts.{Apart}
use air_ctrl_desklet.Automation.Schedule.Values.{AllRequests}
use air_ctrl_desklet.Automation.Api.Keeps.{Sound, OneRequest, append_log-Sound, run-Sound}
use air_ctrl_desklet.Server.State.{Server, Command}
use air_ctrl_desklet.Server.Device.{
  Worker, calling, System, Move, begin, finish, connect, connect_failed, leave, observe, status,
  observe_failed, observed, abandon, checked, take, nothing, answer, wake, report, Answer, answered,
  thrown, session_failed,
}
use air_ctrl_desklet.Server.Main.{Round, main_loop}
use air_ctrl_desklet.Server.Main.Keeps.{Everywhere, main_loop-keeps}
use air_ctrl_desklet.Server.Frame.Cases.{Unless}
use air_ctrl_desklet.Server.Frame.OfEngine.{Lasting}

actions-IsRequest :
    (actions : List Action) → OneRequest actions → All (λ a. IsRequest a.values) actions
actions-IsRequest [] q = tt
actions-IsRequest (a ∷ rest) (r, e) = (r, subst (λ xs. All (λ b. IsRequest b.values) xs) (sym e) tt)

abbrev engine_lasting : {S : Type 0} (env : Env S) → Lasting env (λ e. Sound S e) IsRequest
engine_lasting {S} env = record {
  others = λ e f a b c d v. record {
    apart = subst Apart (sym a) v.apart;
    allowed = subst AllRequests (sym a) v.allowed;
    log_bound = subst (λ x. length x ≤ 50) (sym d) v.log_bound;
    handled_bound = subst (λ x. length x ≤ 64) (sym c) v.handled_bound;
    queued = subst OneRequest (sym b) v.queued;
  };
  log = λ now level message e v. append_log-Sound env now level message e v;
  lua_run = λ now code e v. run-Sound env now code e v;
  no_actions = λ e v. record {
    apart = v.apart;
    allowed = v.allowed;
    log_bound = v.log_bound;
    handled_bound = v.handled_bound;
    queued = tt;
  };
  no_schedules = λ e v. record {
    apart = tt;
    allowed = tt;
    log_bound = v.log_bound;
    handled_bound = v.handled_bound;
    queued = v.queued;
  };
  handled = λ key e v. record {
    apart = v.apart;
    allowed = v.allowed;
    log_bound = v.log_bound;
    handled_bound = length-push_bounded 64 key e.handled_occurrences v.handled_bound;
    queued = v.queued;
  };
  of_actions = λ e v. actions-IsRequest e.pending_actions v.queued;
  of_schedules = λ e v. v.allowed;
  of_requests = λ values h. (control_values_error-IsRequest values).0 h;
}

-- The engine is sound, and every queued command has allowed values.
abbrev pub Checked : {S : Type 0} → Server S → Type 0
Checked {S} s = Sound S s.engine × All (λ c. IsRequest c.values) s.commands

abbrev checked_everywhere :
    {S : Type 0} (env : Env S) → Everywhere env (λ s. Checked s) (λ e. Sound S e) IsRequest
checked_everywhere env = record {
  lasting = engine_lasting env;
  kept = record {
    good = λ s p. p.0;
    engine = λ s e p g. (g, p.1);
    deliver = λ s id f same p. p;
    release = λ s id p own. p;
    leave = λ s id p other. p;
    quit = λ s p. p;
  };
  queued = record {
    push = λ s c n r p. (p.0, All-append (λ d. IsRequest d.values) s.commands (c ∷ []) p.1 (r, tt));
    confirm = λ s o p. p;
  };
  served = λ client. record { take = λ s p live. p; free = λ s p. p; restart = λ s p. (p.0, tt) };
  reading = record { input = λ s id f p. p };
  aside = record {
    known = λ s n scheduled state problem p. p;
    written = λ s log reported p. p;
    received = λ s status p. p;
    taken = λ s p. p;
  };
  joined = λ s n clients p. p;
}

module _ {S : Type 0} (env : Env S) where
  -- If the queued commands have values that the device protocol allows and the engine is sound (its
  -- schedules apart and allowed, its log within fifty entries, its handled occurrences within 64, and
  -- at most one action waiting), this holds after any rounds of the main loop, unless an uncaught
  -- exception has ended the process: no client and no script gets anything else into the queue.
  pub main_loop-Checked :
      (rounds : List Round) (s : Server S)
      → Checked s
      → Unless (λ t. Checked t) (main_loop env rounds s)
  main_loop-Checked =
      main_loop-keeps env (λ s. Checked s) (λ e. Sound S e) IsRequest (checked_everywhere env)

-- What the worker has in hand, or finds in the queue, has allowed values.
abbrev pub Held : Worker → Type 0
Held (calling c) = IsRequest c.values
Held _ = Unit

abbrev pub AtDevice : {S : Type 0} → System S → Type 0
AtDevice x = All (λ c. IsRequest c.values) x.server.commands × Held x.worker

commands-report :
    {S : Type 0} (c : Command) (a : Answer) (s : Server S) → (report c a s).commands ≡ s.commands
unfolding report
commands-report c (thrown problem) s = refl
commands-report c (answered accepted) s = elim (Bool-cases s.reconnect_requested) [
  | inl e ↦ rw e refl
  | inr e ↦ rw e refl
]

-- If all queued commands have allowed values, and so has the command that the worker has taken, every
-- step of the worker leaves it so: `set_control_values` is called with allowed values only.
pub Move-AtDevice : {S : Type 0} {x y : System S} → Move x y → AtDevice x → AtDevice y
unfolding session_failed
Move-AtDevice (begin s h e) (a, t) = (a, tt)
Move-AtDevice (finish s h e) (a, t) = (a, tt)
Move-AtDevice (connect s h) (a, t) = (a, tt)
Move-AtDevice (connect_failed s h problem) (a, t) = (tt, tt)
Move-AtDevice (leave r s h e) (a, t) = (a, tt)
Move-AtDevice (observe r s h e) (a, t) = (a, tt)
Move-AtDevice (status r s h value) (a, t) = (a, tt)
Move-AtDevice (observe_failed r s h problem) (a, t) = (tt, tt)
Move-AtDevice (observed r s h i) (a, t) = (a, tt)
Move-AtDevice (abandon r s h e) (a, t) = (a, tt)
Move-AtDevice (checked r s h e) (a, t) = (a, tt)
Move-AtDevice (take r s h c rest e) (a, t) =
    let (first, others) = subst (λ cs. All (λ d. IsRequest d.values) cs) e a in (others, first)
Move-AtDevice (nothing r s h e) (a, t) = (a, tt)
Move-AtDevice (answer c s h v) (a, t) =
    (subst (λ cs. All (λ d. IsRequest d.values) cs) (sym (commands-report c v s)) a, tt)
Move-AtDevice (wake s h) (a, t) = (a, tt)
