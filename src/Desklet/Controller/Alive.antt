-- ===== src/Desklet/Controller/Alive.antt =====
-- A Controller never gets stuck, over every sequence of what may happen to it.
use air_ctrl_desklet.Prelude.{
  ℕ, Bool, true, false, ◌≡◌, refl, ◌+◌, ◌++◌, List, [], ◌∷◌, Option, none, ◌⊎◌, String, arith,
  is_some, if◌then◌else◌, nat_eq, string_eq, if-cases, ap, subst, sym, Bool-cases, inl, inr,
}
use air_ctrl_desklet.Desklet.Controller.State.{
  Controller, Qt, Signal, command_failed, busy_changed, fail_command, set_busy,
}
use air_ctrl_desklet.ControlValues.{same}
use air_ctrl_desklet.Json.{string, integer, field, end}
use air_ctrl_desklet.Desklet.Controller.Events.{
  Happening, possible, happen, step, live, new_controller,
}
use air_ctrl_desklet.Desklet.Controller.Awake.{Awake, Woken, Awake-Linked, on_disconnected-Awake}
use air_ctrl_desklet.Desklet.Controller.Awake.Attempts.{connect_server-Awake}
use air_ctrl_desklet.Desklet.Controller.Awake.Connection.{
  on_lookup-Awake, after_error-Awake, on_error-Awake, on_connected-Awake, on_connect_timeout-Awake,
  send_heartbeat-Awake, on_heartbeat_timeout-Awake, start-Awake, configure-Awake,
  schedule_refresh-Awake, on_refresh-Awake,
}
use air_ctrl_desklet.Desklet.Controller.Awake.Stop.{stop-Awake}
use air_ctrl_desklet.Desklet.Controller.Awake.Requests.{
  set_panel_values-Awake, on_write_timeout-Awake, on_confirmation_timeout-Awake,
  resume_automation-Awake, trigger_long_timer-Awake, begin_automation_edit-Awake,
  save_automation_edit-Awake, cancel_automation_edit-Awake, on_automation_timeout-Awake,
}
use air_ctrl_desklet.Desklet.Controller.Awake.Messages.{read_server-Awake}

Woken-Woken : (c : Controller) → Awake c → Woken (record c { reconnect = none })
Woken-Woken c h = ground arith

module _ (qt : Qt) where
  happen-Awake :
      (e : Happening) (c : Controller) → possible e c ≡ true → Awake c → Awake (happen qt e c)
  unfolding happen
  happen-Awake (Happening.do_configure host port seconds) c p h =
      configure-Awake qt host port seconds c h
  happen-Awake Happening.do_start c p h = start-Awake qt c h
  happen-Awake Happening.do_stop c p h = stop-Awake qt c
  happen-Awake Happening.do_refresh c p h = schedule_refresh-Awake qt c h
  happen-Awake Happening.do_resume c p h = resume_automation-Awake c h
  happen-Awake Happening.do_long_timer c p h = trigger_long_timer-Awake c h
  happen-Awake Happening.do_begin_edit c p h = begin_automation_edit-Awake c h
  happen-Awake Happening.do_cancel_edit c p h = cancel_automation_edit-Awake c h
  happen-Awake (Happening.do_power on) c p h =
      set_panel_values-Awake qt (field "pwr" (string (if on then "1" else "0")) end) c h
  happen-Awake (Happening.do_humidity percent) c p h =
      set_panel_values-Awake qt (field "rhset" (integer percent) end) c h
  happen-Awake (Happening.do_values values) c p h = set_panel_values-Awake qt values c h
  happen-Awake (Happening.do_save_edit script enabled revision) c p h =
      save_automation_edit-Awake script enabled revision c h
  happen-Awake (Happening.do_set_write ms) c p h = ground arith
  happen-Awake (Happening.do_set_confirmation ms) c p h = ground arith
  happen-Awake (Happening.do_set_reconnect ms) c p h = ground arith
  happen-Awake (Happening.do_set_heartbeat interval timeout) c p h = ground arith
  happen-Awake Happening.refresh_due c p h = on_refresh-Awake qt c h
  happen-Awake Happening.reconnect_expired c p h = connect_server-Awake qt _ (Woken-Woken c h)
  happen-Awake Happening.connect_expired c p h = on_connect_timeout-Awake qt c h
  happen-Awake Happening.write_expired c p h = on_write_timeout-Awake qt c h
  happen-Awake Happening.confirmation_expired c p h = on_confirmation_timeout-Awake qt c h
  happen-Awake Happening.heartbeat_expired c p h = send_heartbeat-Awake qt c h
  happen-Awake Happening.heartbeat_watchdog_expired c p h = on_heartbeat_timeout-Awake qt c h
  happen-Awake Happening.automation_expired c p h = on_automation_timeout-Awake c h
  happen-Awake (Happening.looked_up generation result) c p h =
      on_lookup-Awake qt generation result c h p
  happen-Awake Happening.socket_connected c p h = on_connected-Awake qt c h (ground arith)
  happen-Awake Happening.socket_disconnected c p h =
      on_disconnected-Awake qt c (Awake-Linked qt c h (ground arith))
  happen-Awake (Happening.socket_read bytes) c p h = read_server-Awake qt bytes c h
  happen-Awake (Happening.socket_error error text started) c p h =
      on_error-Awake qt error text started _ (after_error-Awake qt c h) (ground arith)

live-Awake : (events : List (Qt × Happening)) (c : Controller) → Awake c → Awake (live events c)
unfolding live step
live-Awake [] c h = h
live-Awake ((qt, e) ∷ events) c h =
    live-Awake events (step qt e c)
      (if-cases Awake (possible e c) (λ p. happen-Awake qt e c p h) (λ p. h))

new_controller-Awake :
    (executable host : String) (port : ℕ) → Awake (new_controller executable host port)
unfolding new_controller
new_controller-Awake executable host port = ground arith

-- Whatever happens to a new Controller, and whatever Qt answers, it is awake: while it is active and
-- without a connection, a timer of the next attempt or of the lookup or attempt under way is running;
-- a connection has a timer of its check; a command under way has exactly one timer, that of its answer
-- or that of its confirmation, and a connection; a request for the script has its timer.
pub live-new_controller-Awake :
    (executable host : String) (port : ℕ) (events : List (Qt × Happening))
    → Awake (live events (new_controller executable host port))
live-new_controller-Awake executable host port events =
    live-Awake events _ (new_controller-Awake executable host port)

abbrev pub is_command_failed : Signal → Bool
is_command_failed (command_failed reason) = true
is_command_failed _ = false

-- how many failures of commands were told
abbrev pub failures : List Signal → ℕ
failures [] = 0
failures (s ∷ signals) = (if is_command_failed s then 1 else 0) + failures signals

pub failures-append : (xs ys : List Signal) → failures (xs ++ ys) ≡ failures xs + failures ys
failures-append [] ys = omega arith
failures-append (x ∷ xs) ys = omega (arith, failures-append xs ys)

failures-set_busy :
    (b : Bool) (c : Controller) → failures (set_busy b c).signals ≡ failures c.signals
unfolding set_busy
failures-set_busy b c =
    if-cases (λ (d : Controller). failures d.signals ≡ failures c.signals) (same c.busy b)
      (λ e. refl) (λ e. omega (arith, failures-append c.signals (busy_changed b ∷ [])))

busy-set_busy : (c : Controller) → (set_busy false c).busy ≡ false
unfolding set_busy
busy-set_busy c = ground arith

-- A command that fails is over, and its failure is told once.
abbrev pub FailedOnce : Controller → Controller → Type 0
FailedOnce c d = (d.busy ≡ false) × (failures d.signals ≡ failures c.signals + 1)

pub fail_command-FailedOnce :
    (reason : String) (c : Controller) → FailedOnce c (fail_command reason c)
unfolding fail_command
fail_command-FailedOnce reason c =
    let freed : Controller = record c {
      pending_command_id = 0;
      awaiting_confirmation = false;
      write_watchdog = none;
      confirmation = none;
    } in
    (
      busy-set_busy freed,
      omega (
        arith,
        failures-append (set_busy false freed).signals (command_failed reason ∷ []),
        failures-set_busy false freed,
      ),
    )

step-happen :
    (qt : Qt) (e : Happening) (c : Controller) → possible e c ≡ true → step qt e c ≡ happen qt e c
unfolding step
step-happen qt e c p = ap (λ b. if b then happen qt e c else c) p

write_ends :
    (qt : Qt) (c : Controller)
    → is_some c.write_watchdog ≡ true
    → FailedOnce c (step qt Happening.write_expired c)
unfolding happen
write_ends qt c p =
    subst (FailedOnce c) (sym (step-happen qt Happening.write_expired c p))
      (fail_command-FailedOnce _ (record c { write_watchdog = none }))

confirmation_ends :
    (qt : Qt) (c : Controller)
    → is_some c.confirmation ≡ true
    → FailedOnce c (step qt Happening.confirmation_expired c)
unfolding happen
confirmation_ends qt c p =
    subst (FailedOnce c) (sym (step-happen qt Happening.confirmation_expired c p))
      (fail_command-FailedOnce _ (record c { confirmation = none }))

-- One timer is running and the other is not, and when the running one expires the command has failed.
abbrev pub FailsAt : Qt → Happening → Option ℕ → Option ℕ → Controller → Type 0
FailsAt qt expiry running other c =
    (is_some running ≡ true) × (is_some other ≡ false) × FailedOnce c (step qt expiry c)

ends :
    (qt : Qt) (c : Controller)
    → Awake c
    → c.busy ≡ true
    → FailsAt qt Happening.write_expired c.write_watchdog c.confirmation c
      ⊎ FailsAt qt Happening.confirmation_expired c.confirmation c.write_watchdog c
ends qt c h b = elim (Bool-cases (is_some c.write_watchdog)) [
  | inl w ↦ inl (w, ground arith, write_ends qt c w)
  | inr w ↦
      let f : is_some c.confirmation ≡ true = ground arith in inr (f, w, confirmation_ends qt c f)
]

-- Whatever has happened to a new Controller before: if a command is under way, exactly one of the timer
-- of its answer and the timer of its confirmation is running, and when that timer expires the command has
-- failed, which is told once.
pub busy_ends :
    (executable host : String) (port : ℕ) (events : List (Qt × Happening)) (qt : Qt)
    → (live events (new_controller executable host port)).busy ≡ true
    → let c = live events (new_controller executable host port) in
      FailsAt qt Happening.write_expired c.write_watchdog c.confirmation c
      ⊎ FailsAt qt Happening.confirmation_expired c.confirmation c.write_watchdog c
busy_ends executable host port events qt b =
    ends qt _ (live-new_controller-Awake executable host port events) b
