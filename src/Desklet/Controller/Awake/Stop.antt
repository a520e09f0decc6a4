-- ===== src/Desklet/Controller/Awake/Stop.antt =====
-- Once it is stopped, a Controller waits for nothing.
use air_ctrl_desklet.Prelude.{false, ◌≡◌, refl, none, arith, nat_eq, string_eq, sym, subst}
use air_ctrl_desklet.Desklet.Controller.State.{
  Controller, Qt, Socket, unconnected, opening, connected, connection_failed, abort, set_busy,
  on_disconnected, closed_by, hang_up, drop_edit, drop_command, report_loss, fail_command,
}
use air_ctrl_desklet.Desklet.Controller.Upkeep.{stop, quiet}
use air_ctrl_desklet.Desklet.Controller.Awake.{Awake, without_socket, on_disconnected-report_loss}

-- Nothing runs and nothing is pending; whether a command was under way is left open.
record Silent (c : Controller) : Type 0 where
  is_stopped : c.active ≡ false
  no_lookup : c.resolving ≡ false
  no_attempt : c.connecting ≡ false
  no_write : c.write_watchdog ≡ none
  no_confirmation : c.confirmation ≡ none
  not_awaiting : c.awaiting_confirmation ≡ false
  no_command : c.pending_command_id ≡ 0
  no_request : c.pending_automation_request_id ≡ 0
  not_held : c.automation_edit_held ≡ false

module _ (qt : Qt) where
  ended-Silent :
      (c : Controller)
      → Silent c
      → Silent (report_loss qt (drop_command qt (drop_edit qt (hang_up c))))
  unfolding connection_failed fail_command set_busy
  ended-Silent c h = ground arith

  ended-unconnected :
      (c : Controller)
      → Silent c
      → c.socket ≡ unconnected
      → (report_loss qt (drop_command qt (drop_edit qt (hang_up c)))).socket ≡ unconnected
  unfolding connection_failed fail_command set_busy
  ended-unconnected c h e = ground arith

  silenced : (c : Controller) → Silent c → c.socket ≡ unconnected → Awake (set_busy false c)
  unfolding set_busy
  silenced c h e = ground arith

  closed_by-silenced :
      (s : Socket) (c : Controller)
      → Silent c
      → Awake (set_busy false (closed_by qt s (without_socket c)))
  unfolding on_disconnected
  closed_by-silenced connected c h =
      subst (λ d. Awake (set_busy false d))
        (sym (on_disconnected-report_loss qt (without_socket c) h.no_attempt))
        (silenced _ (ended-Silent (without_socket c) (ground arith))
          (ended-unconnected (without_socket c) (ground arith) refl))
  closed_by-silenced unconnected c h = silenced (without_socket c) (ground arith) refl
  closed_by-silenced opening c h = silenced (without_socket c) (ground arith) refl

  pub stop-Awake : (c : Controller) → Awake (stop qt c)
  unfolding stop abort
  stop-Awake c = closed_by-silenced c.socket (quiet c) (ground arith)
