-- ===== src/Desklet/Controller/Commands.antt =====
-- What becomes of a command of the desklet: it is refused, or sent as a request that the server's
-- check lets through, and then it is over by a failure or by a status that follows its acceptance.
use air_ctrl_desklet.Prelude.{
  true, false, not, ◌&&◌, ◌||◌, ◌≡◌, ◌⊎◌, inl, inr, refl, [], ◌∷◌, ◌++◌, concat, Option, none, some,
  is_some, String, arith, ◌==◌, nat_eq, string_eq, if-cases, sym, ◌∙◌,
}
use air_ctrl_desklet.ControlValues.Allowed.{IsRequest, control_values_error-IsRequest}
use air_ctrl_desklet.ControlValues.Client.{control_values_error_client-eq}
use air_ctrl_desklet.Json.{Json, object, Fields, no_fields}
use air_ctrl_desklet.Desklet.Controller.State.{
  Controller, Qt, is_connected, tell_loss, start_reconnect, server_endpoint, increment, failed,
  address_error, fail_command, set_busy, send_object, connection_failed,
}
use air_ctrl_desklet.Desklet.Controller.Requests.{
  control_request, write_checked, launch_write, set_checked, set_panel_values,
  cancel_automation_edit,
}
use air_ctrl_desklet.Desklet.Controller.Messages.{
  text_of, value_of, to_bool, number_of, interrupt_command, loss_reason, with_starts, on_pong,
  on_automation_edit, on_automation_saved, on_server_state, on_control_answer, on_status_data,
  handle_envelope,
}
use air_ctrl_desklet.Desklet.Controller.Dispatch.{handle_envelope-cases}
use air_ctrl_desklet.Desklet.Controller.Alive.{
  failures, failures-append, FailedOnce, fail_command-FailedOnce,
}

-- Nothing was sent, and a failure was told.
abbrev pub Refused : Controller → Controller → Type 0
Refused c d = (d.sent ≡ c.sent) × FailedOnce c d

-- The values were sent under the next identifier, and their answer is waited for.
pub record Sent (values : Fields) (c d : Controller) : Type 0 where
  pub message : d.sent ≡ c.sent ++ object (control_request c.next_command_id (object values)) ∷ []
  pub is_busy : d.busy ≡ true
  pub identifier : d.pending_command_id ≡ c.next_command_id
  pub timer : d.write_watchdog ≡ some c.write_ms
  pub next : d.next_command_id ≡ increment c.next_command_id

abbrev pub Outcome : Fields → Controller → Controller → Type 0
Outcome values c d = Refused c d ⊎ (IsRequest (object values) × Sent values c d)

fail_command-Refused : (reason : String) (c : Controller) → Refused c (fail_command reason c)
unfolding fail_command set_busy
fail_command-Refused reason c = (ground arith, fail_command-FailedOnce reason c)

module _ (qt : Qt) where
  write_checked-Outcome :
      (o : Option String) (values : Fields) (c : Controller)
      → c.busy ≡ false
      → IsRequest (object values)
      → Outcome values c (write_checked qt o (object values) c)
  unfolding fail_command set_busy send_object
  write_checked-Outcome (some error) values c b r = inl (fail_command-Refused error c)
  write_checked-Outcome none values c b r =
      if-cases (Outcome values c) (not c.active || not (is_connected c.socket) || not c.has_status)
        (λ e. inl (fail_command-Refused _ c)) (λ e. inr (r, ground arith))

  set_checked-Outcome :
      (o : Option String) (values : Fields) (c : Controller)
      → c.busy ≡ false
      → (o ≡ none → IsRequest (object values))
      → Outcome values c (set_checked qt o (object values) c)
  unfolding launch_write fail_command
  set_checked-Outcome (some problem) values c b r = inl (fail_command-Refused problem c)
  set_checked-Outcome none values c b r =
      if-cases (Outcome values c) c.busy (λ e. cc)
        (λ e. write_checked-Outcome (address_error qt c) values c b (r refl))

  -- If no command is under way and there are values, setting them either sends nothing and tells one
  -- failure, or sends exactly one request, which the protocol allows, and waits for its answer.
  pub set_panel_values-Outcome :
      (values : Fields) (c : Controller)
      → c.busy ≡ false
      → no_fields values ≡ false
      → Outcome values c (set_panel_values qt values c)
  unfolding set_panel_values
  set_panel_values-Outcome values c b f =
      if-cases (Outcome values c) (c.busy || no_fields values) (λ e. cc)
        (λ e. set_checked-Outcome _ values c b (λ n.
          (control_values_error-IsRequest (object values)).0
            (sym (control_values_error_client-eq values) ∙ n)))

  -- A command under way goes on, or has failed, which was told once, or is done.
  abbrev pub Progress : Json → Controller → Controller → Type 0
  Progress envelope c d =
      (d.busy ≡ true)
      ⊎ FailedOnce c d
      ⊎ ((c.awaiting_confirmation ≡ true) × (text_of "_airctrl" envelope ≡ "status"))

  unchanged :
      (envelope : Json) (c d : Controller) → c.busy ≡ true → d.busy ≡ c.busy → Progress envelope c d
  unchanged envelope c d b e = inl (e ∙ b)

  failures-tell_loss :
      (reason : String) (c : Controller)
      → failures (tell_loss reason c).signals ≡ failures c.signals
  failures-tell_loss reason c =
      if-cases (λ (d : Controller). failures d.signals ≡ failures c.signals) c.failure_reported
        (λ e. refl) (λ e. omega (arith, failures-append c.signals (failed reason ∷ [])))

  failures-start_reconnect :
      (c : Controller) → failures (start_reconnect c).signals ≡ failures c.signals
  failures-start_reconnect c =
      if-cases (λ (d : Controller). failures d.signals ≡ failures c.signals)
        (c.active && not (is_some c.reconnect)) (λ e. refl) (λ e. refl)

  failures-connection_failed :
      (reason : String) (c : Controller)
      → failures (connection_failed qt reason c).signals ≡ failures c.signals
  unfolding connection_failed
  failures-connection_failed reason c =
      failures-start_reconnect _
      ∙ failures-tell_loss reason (record c {
        has_status = false;
        progress = concat ("Warte auf AirControl-Server " ∷ server_endpoint qt c ∷ []);
      })

  busy-connection_failed :
      (reason : String) (c : Controller) → (connection_failed qt reason c).busy ≡ c.busy
  unfolding connection_failed
  busy-connection_failed reason c = ground arith

  connection_failed-FailedOnce :
      (reason : String) (c d : Controller)
      → FailedOnce c d
      → FailedOnce c (connection_failed qt reason d)
  connection_failed-FailedOnce reason c d h =
      (busy-connection_failed reason d ∙ h.0, failures-connection_failed reason d ∙ h.1)

  interrupt_command-FailedOnce :
      (c : Controller) → c.busy ≡ true → FailedOnce c (interrupt_command qt c)
  unfolding fail_command
  interrupt_command-FailedOnce c b =
      if-cases (FailedOnce c) c.busy (λ e. fail_command-FailedOnce _ c) (λ e. cc)

  on_server_state-Progress :
      (envelope : Json) (c : Controller)
      → c.busy ≡ true
      → Progress envelope c (on_server_state qt envelope c)
  unfolding on_server_state
  on_server_state-Progress envelope c b =
      let lost : Controller = record (with_starts qt envelope c) { has_status = false } in
      if-cases (Progress envelope c) (text_of "state" envelope == "error")
        (λ e. inr (
          inl (
            connection_failed-FailedOnce (loss_reason qt envelope) c (interrupt_command qt lost)
              (interrupt_command-FailedOnce lost b))))
        (λ e.
          if-cases (Progress envelope c) (text_of "state" envelope == "connecting") (λ k. inl b)
            (λ k. inl b))

  on_control_answer-Progress :
      (envelope : Json) (c : Controller)
      → c.busy ≡ true
      → Progress envelope c (on_control_answer qt envelope c)
  unfolding on_control_answer
  on_control_answer-Progress envelope c b =
      let id = number_of qt "id" envelope in
      if-cases (Progress envelope c) (not c.busy || id == 0 || not (id == c.pending_command_id))
        (λ e. inl b)
        (λ e.
          if-cases (Progress envelope c) (not (to_bool (value_of "ok" envelope)))
            (λ k. inr (
              inl (
                fail_command-FailedOnce _
                  (record c { write_watchdog = none; pending_command_id = 0 }))))
            (λ k. inl b))

  on_status_data-Progress :
      (envelope status : Json) (c : Controller)
      → c.busy ≡ true
      → text_of "_airctrl" envelope ≡ "status"
      → Progress envelope c (on_status_data qt status c)
  unfolding on_status_data
  on_status_data-Progress envelope status c b s =
      if-cases (Progress envelope c) (c.busy && not c.awaiting_confirmation) (λ e. inl b)
        (λ e. inr (inr (ground arith, s)))

  on_automation_edit-busy :
      (envelope : Json) (c : Controller) → (on_automation_edit qt envelope c).busy ≡ c.busy
  unfolding on_automation_edit cancel_automation_edit send_object
  on_automation_edit-busy envelope c = ground arith

  -- No message of the server ends a command that is under way but by a failure, which is told exactly
  -- once, or by a status that comes after the command was accepted.
  pub handle_envelope-Progress :
      (envelope : Json) (c : Controller)
      → c.busy ≡ true
      → Progress envelope c (handle_envelope qt envelope c)
  unfolding on_pong on_automation_saved connection_failed
  handle_envelope-Progress envelope c b =
      handle_envelope-cases qt (Progress envelope c) envelope c (inl b)
        (unchanged envelope c (on_pong qt c) b (ground arith)) (inl b)
        (unchanged envelope c (on_automation_edit qt envelope c) b
          (on_automation_edit-busy envelope c))
        (unchanged envelope c (on_automation_saved qt envelope c) b (ground arith))
        (on_server_state-Progress envelope c b)
        (λ reason.
          unchanged envelope c (connection_failed qt reason c) b (busy-connection_failed reason c))
        (on_control_answer-Progress envelope c b) (λ e. on_status_data-Progress envelope _ c b e)
