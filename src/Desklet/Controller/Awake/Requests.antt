-- ===== src/Desklet/Controller/Awake/Requests.antt =====
-- What is asked of the server leaves the watchdog of its answer behind.
use air_ctrl_desklet.Prelude.{
  ℕ, Bool, false, not, ◌||◌, ◌≡◌, Option, none, some, String, arith, ◌==◌, nat_eq, string_eq,
  if-cases,
}
use air_ctrl_desklet.Json.{Json, object, Fields, no_fields}
use air_ctrl_desklet.Desklet.Controller.State.{
  Controller, Qt, Signal, is_connected, send_object, emit, fail_command, set_busy,
}
use air_ctrl_desklet.Desklet.Controller.Requests.{
  write_checked, launch_write, set_checked, set_panel_values, resume_automation, trigger_long_timer,
  begin_automation_edit, save_automation_edit, cancel_automation_edit, on_write_timeout,
  on_confirmation_timeout, on_automation_timeout,
}
use air_ctrl_desklet.Desklet.Controller.Awake.{Awake, fail_command-Awake}

pub emit-Awake : (signal : Signal) (c : Controller) → Awake c → Awake (emit signal c)
emit-Awake signal c h = ground arith

send_object-Awake : (fields : Fields) (c : Controller) → Awake c → Awake (send_object fields c)
unfolding send_object
send_object-Awake fields c h = ground arith

module _ (qt : Qt) where
  write_checked-Awake :
      (o : Option String) (values : Json) (c : Controller)
      → c.busy ≡ false
      → Awake c
      → Awake (write_checked qt o values c)
  unfolding fail_command set_busy send_object
  write_checked-Awake (some error) values c b h = fail_command-Awake qt error c h
  write_checked-Awake none values c b h =
      if-cases Awake (not c.active || not (is_connected c.socket) || not c.has_status)
        (λ e. fail_command-Awake qt _ c h) (λ e. ground arith)

  launch_write-Awake : (values : Json) (c : Controller) → Awake c → Awake (launch_write qt values c)
  unfolding launch_write
  launch_write-Awake values c h =
      if-cases Awake c.busy (λ e. h) (λ e. write_checked-Awake _ values c e h)

  set_checked-Awake :
      (o : Option String) (values : Json) (c : Controller)
      → Awake c
      → Awake (set_checked qt o values c)
  unfolding launch_write fail_command
  set_checked-Awake (some problem) values c h = fail_command-Awake qt problem c h
  set_checked-Awake none values c h = launch_write-Awake values c h

  pub set_panel_values-Awake :
      (values : Fields) (c : Controller) → Awake c → Awake (set_panel_values qt values c)
  unfolding set_panel_values
  set_panel_values-Awake values c h =
      if-cases Awake (c.busy || no_fields values) (λ e. h)
        (λ e. set_checked-Awake _ (object values) c h)

  pub on_write_timeout-Awake :
      (c : Controller) → Awake c → Awake (on_write_timeout (record c { write_watchdog = none }))
  unfolding fail_command set_busy
  on_write_timeout-Awake c h = ground arith

  pub on_confirmation_timeout-Awake :
      (c : Controller)
      → Awake c
      → Awake (on_confirmation_timeout (record c { confirmation = none }))
  unfolding fail_command set_busy
  on_confirmation_timeout-Awake c h = ground arith

pub resume_automation-Awake : (c : Controller) → Awake c → Awake (resume_automation c)
unfolding resume_automation
resume_automation-Awake c h =
    if-cases Awake (not c.active || not (is_connected c.socket)) (λ e. h)
      (λ e. send_object-Awake _ c h)

pub trigger_long_timer-Awake : (c : Controller) → Awake c → Awake (trigger_long_timer c)
unfolding trigger_long_timer
trigger_long_timer-Awake c h =
    if-cases Awake (not c.active || not (is_connected c.socket)) (λ e. emit-Awake _ c h)
      (λ e. send_object-Awake _ c h)

pub begin_automation_edit-Awake : (c : Controller) → Awake c → Awake (begin_automation_edit c)
unfolding begin_automation_edit send_object
begin_automation_edit-Awake c h =
    if-cases Awake (not (c.pending_automation_request_id == 0) || c.automation_edit_held) (λ e. h)
      (λ e.
        if-cases Awake (not c.active || not (is_connected c.socket)) (λ k. emit-Awake _ c h)
          (λ k. ground arith))

pub save_automation_edit-Awake :
    (script : String) (enabled : Bool) (revision : ℕ) (c : Controller)
    → Awake c
    → Awake (save_automation_edit script enabled revision c)
unfolding save_automation_edit send_object
save_automation_edit-Awake script enabled revision c h =
    if-cases Awake (not (c.pending_automation_request_id == 0)) (λ e. h)
      (λ e.
        if-cases Awake (not c.automation_edit_held || not (is_connected c.socket))
          (λ k. emit-Awake _ c h) (λ k. ground arith))

pub cancel_automation_edit-Awake : (c : Controller) → Awake c → Awake (cancel_automation_edit c)
unfolding cancel_automation_edit send_object
cancel_automation_edit-Awake c h = ground arith

pub on_automation_timeout-Awake :
    (c : Controller)
    → Awake c
    → Awake (on_automation_timeout (record c { automation_watchdog = none }))
unfolding cancel_automation_edit send_object
on_automation_timeout-Awake c h = ground arith
