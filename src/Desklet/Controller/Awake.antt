-- ===== src/Desklet/Controller/Awake.antt =====
-- What keeps a Controller going: whatever it waits for, a timer is running that ends the waiting.
pub mod Attempts
pub mod Connection
pub mod Stop
pub mod Requests
pub mod Messages
use air_ctrl_desklet.Prelude.{
  true, false, ◌&&◌, ◌||◌, ◌≡◌, ◌≢◌, refl, arith, is_some, if◌then◌else◌, ap, sym, subst,
}
use air_ctrl_desklet.Desklet.Controller.State.{
  Controller, Qt, Socket, unconnected, opening, connected, set_busy, fail_command,
  connection_failed, drop_edit, drop_command, report_loss, closed_by, hang_up, on_disconnected,
  abort,
}

-- Attempts, the connection and its check.
pub record Links (c : Controller) : Type 0 where
  pub asleep : c.active ≡ false → c.socket ≡ unconnected
  pub looking :
      c.resolving ≡ true
      → (c.active ≡ true)
        × (c.socket ≡ unconnected)
        × (c.connecting ≡ false)
        × (is_some c.connect_watchdog ≡ true)
  pub attempting :
      c.connecting ≡ true
      → (c.active ≡ true) × (c.socket ≢ connected) × (is_some c.connect_watchdog ≡ true)
  pub opens : c.socket ≡ opening → c.connecting ≡ true
  pub checks : c.socket ≡ connected → (is_some c.heartbeat || is_some c.heartbeat_watchdog) ≡ true

pub record Connects (c : Controller) : Type 0 where
  pub links : Links c
  pub retries :
      c.active ≡ true
      → c.socket ≡ unconnected
      → (is_some c.reconnect || c.resolving || c.connecting) ≡ true

-- The command that was sent, and the editing of the script.
pub record Waits (c : Controller) : Type 0 where
  pub busy_timer : c.busy ≡ (is_some c.write_watchdog || is_some c.confirmation)
  pub one_timer : (is_some c.write_watchdog && is_some c.confirmation) ≡ false
  pub confirming : c.awaiting_confirmation ≡ is_some c.confirmation
  pub pending : c.pending_command_id ≢ 0 → is_some c.write_watchdog ≡ true
  pub busy_connected : c.busy ≡ true → c.socket ≡ connected
  pub editing :
      c.pending_automation_request_id ≢ 0
      → (is_some c.automation_watchdog ≡ true) × (c.socket ≡ connected)
  pub held : c.automation_edit_held ≡ true → c.socket ≡ connected

pub record Awake (c : Controller) : Type 0 where
  pub connects : Connects c
  pub waits : Waits c

-- The timer of the next attempt has expired or was stopped.
pub record Woken (c : Controller) : Type 0 where
  pub links : Links c
  pub waits : Waits c

-- A connection, whether it is being checked or not.
pub record Linked (c : Controller) : Type 0 where
  pub established : c.socket ≡ connected
  pub no_lookup : c.resolving ≡ false
  pub no_attempt : c.connecting ≡ false
  pub waits : Waits c

-- What stands before a new attempt: no attempt and no connection, but perhaps no timer either.
pub record Apart (c : Controller) : Type 0 where
  pub closed : c.socket ≡ unconnected
  pub no_lookup : c.resolving ≡ false
  pub no_attempt : c.connecting ≡ false
  pub waits : Waits c

-- A connection has ended, and what waited for it waits still.
record Lost (c : Controller) : Type 0 where
  closed : c.socket ≡ unconnected
  no_lookup : c.resolving ≡ false
  no_attempt : c.connecting ≡ false
  busy_timer : c.busy ≡ (is_some c.write_watchdog || is_some c.confirmation)
  one_timer : (is_some c.write_watchdog && is_some c.confirmation) ≡ false
  confirming : c.awaiting_confirmation ≡ is_some c.confirmation
  pending : c.pending_command_id ≢ 0 → is_some c.write_watchdog ≡ true

record EditDropped (c : Controller) : Type 0 where
  lost : Lost c
  not_pending : c.pending_automation_request_id ≡ 0
  not_held : c.automation_edit_held ≡ false

-- The socket is unconnected already when the signal comes.
abbrev pub without_socket : Controller → Controller
without_socket c = record c { socket = unconnected }

module _ (qt : Qt) where
  pub connection_failed-Apart :
      (r : _) (c : Controller) → Apart c → Awake (connection_failed qt r c)
  unfolding connection_failed
  connection_failed-Apart r c h = ground arith

  pub connection_failed-Awake :
      (r : _) (c : Controller) → Awake c → Awake (connection_failed qt r c)
  unfolding connection_failed
  connection_failed-Awake r c h = ground arith

  pub fail_command-Awake : (r : _) (c : Controller) → Awake c → Awake (fail_command r c)
  unfolding fail_command set_busy
  fail_command-Awake r c h = ground arith

  report_loss-Apart : (c : Controller) → Apart c → Apart (report_loss qt c)
  unfolding connection_failed
  report_loss-Apart c h = ground arith

  report_loss-Awake : (c : Controller) → Apart c → Awake (report_loss qt c)
  unfolding connection_failed
  report_loss-Awake c h = ground arith

  drop_edit-Lost : (c : Controller) → Lost c → EditDropped (drop_edit qt c)
  drop_edit-Lost c h = ground arith

  drop_command-Apart : (c : Controller) → EditDropped c → Apart (drop_command qt c)
  unfolding fail_command set_busy
  drop_command-Apart c h = ground arith

  Lost-Apart : (c : Controller) → Lost c → Apart (drop_command qt (drop_edit qt c))
  Lost-Apart c h = drop_command-Apart _ (drop_edit-Lost c h)

  hang_up-Lost :
      (c : Controller)
      → Waits c
      → c.resolving ≡ false
      → c.connecting ≡ false
      → Lost (hang_up (without_socket c))
  hang_up-Lost c w r k = ground arith

  ended-Apart :
      (c : Controller)
      → Waits c
      → c.resolving ≡ false
      → c.connecting ≡ false
      → Apart (drop_command qt (drop_edit qt (hang_up (without_socket c))))
  ended-Apart c w r k = Lost-Apart _ (hang_up-Lost c w r k)

  pub on_disconnected-report_loss :
      (c : Controller)
      → c.connecting ≡ false
      → on_disconnected qt c ≡ report_loss qt (drop_command qt (drop_edit qt (hang_up c)))
  unfolding on_disconnected
  on_disconnected-report_loss c k =
      ap (λ b. if b then c else report_loss qt (drop_command qt (drop_edit qt (hang_up c)))) k

  pub on_disconnected-Awake :
      (c : Controller) → Linked c → Awake (on_disconnected qt (without_socket c))
  on_disconnected-Awake c h =
      subst Awake (sym (on_disconnected-report_loss (without_socket c) h.no_attempt))
        (report_loss-Awake _ (ended-Apart c h.waits h.no_lookup h.no_attempt))

  pub connection_failed-Linked :
      (r : _) (c : Controller) → Linked c → Linked (connection_failed qt r c)
  unfolding connection_failed
  connection_failed-Linked r c h = ground arith

  pub abort-Linked : (c : Controller) → Linked c → Awake (abort qt c)
  unfolding abort
  abort-Linked c h =
      subst (λ s. Awake (closed_by qt s (without_socket c))) (sym h.established)
        (on_disconnected-Awake c h)

  -- a connection that is aborted, or nothing to abort
  closed_by-Apart :
      (s : Socket) (c : Controller)
      → c.socket ≡ s
      → Waits c
      → c.resolving ≡ false
      → c.connecting ≡ false
      → Apart (closed_by qt s (without_socket c))
  unfolding on_disconnected
  closed_by-Apart connected c e w r k =
      subst Apart (sym (on_disconnected-report_loss (without_socket c) k))
        (report_loss-Apart _ (ended-Apart c w r k))
  closed_by-Apart unconnected c e w r k = ground arith
  closed_by-Apart opening c e w r k = ground arith

  pub abort-Apart :
      (c : Controller) → Waits c → c.resolving ≡ false → c.connecting ≡ false → Apart (abort qt c)
  unfolding abort
  abort-Apart c w r k = closed_by-Apart c.socket c refl w r k

  pub abort_attempt : (c : Controller) → c.socket ≢ connected → abort qt c ≡ without_socket c
  unfolding abort on_disconnected
  abort_attempt c h = helper c.socket h
    where
      helper : (s : Socket) → s ≢ connected → closed_by qt s (without_socket c) ≡ without_socket c
      helper unconnected n = refl
      helper opening n = refl
      helper connected n = elim (n refl) [ ]

  pub Awake-Linked : (c : Controller) → Awake c → c.socket ≡ connected → Linked c
  Awake-Linked c h e = ground arith

  pub abort-Awake : (c : Controller) → Awake c → Awake (abort qt c)
  unfolding abort
  abort-Awake c h = helper c.socket refl
    where
      helper : (s : Socket) → c.socket ≡ s → Awake (closed_by qt s (without_socket c))
      helper unconnected e = unfold on_disconnected in ground arith
      helper opening e = unfold on_disconnected in ground arith
      helper connected e = on_disconnected-Awake c (Awake-Linked c h e)
