-- ===== src/Desklet/Controller/Dispatch.antt =====
-- What holds after every handler of a message holds after handleEnvelope.
use air_ctrl_desklet.Prelude.{◌≡◌, Bool, false, not, ◌||◌, ◌==◌, String, string_eq, if-cases, arith}
use air_ctrl_desklet.Json.{Json, is_filled_object}
use air_ctrl_desklet.Desklet.Controller.State.{
  Controller, Qt, automation_state_received, emit, connection_failed,
}
use air_ctrl_desklet.Desklet.Controller.Messages.{
  value_of, text_of, on_pong, on_automation_edit, on_automation_saved, on_server_state,
  on_control_answer, on_status_data, handle_envelope,
}

is_status : (kind : String) (b : Bool) → not (kind == "status") || b ≡ false → kind ≡ "status"
is_status kind b h = (string_eq.test_iff kind "status").0 (ground arith)

-- `status` is the kind of the one message whose handler is left to the end.
pub handle_envelope-cases {κ} :
    (qt : Qt) (P : Controller → Type κ) (envelope : Json) (c : Controller)
    → P c
    → P (on_pong qt c)
    → P (emit (automation_state_received envelope) c)
    → P (on_automation_edit qt envelope c)
    → P (on_automation_saved qt envelope c)
    → P (on_server_state qt envelope c)
    → ((reason : String) → P (connection_failed qt reason c))
    → P (on_control_answer qt envelope c)
    → (text_of "_airctrl" envelope ≡ "status" → P (on_status_data qt (value_of "data" envelope) c))
    → P (handle_envelope qt envelope c)
unfolding handle_envelope
handle_envelope-cases qt P envelope c same pong told edit saved state failed control status =
    let kind = text_of "_airctrl" envelope in
    if-cases P (kind == "pong") (λ e. pong)
      (λ e.
        if-cases P (kind == "automation_state") (λ e. told)
          (λ e.
            if-cases P (kind == "automation_edit") (λ e. edit)
              (λ e.
                if-cases P (kind == "automation_saved") (λ e. saved)
                  (λ e.
                    if-cases P (kind == "automation_edit_released") (λ e. same)
                      (λ e.
                        if-cases P (kind == "state") (λ e. state)
                          (λ e.
                            if-cases P (kind == "configured") (λ e. same)
                              (λ e.
                                if-cases P (kind == "error")
                                  (λ e. failed (text_of "error" envelope))
                                  (λ e.
                                    if-cases P (kind == "control") (λ e. control)
                                      (λ e.
                                        if-cases P
                                          (not (kind == "status")
                                            || not (is_filled_object (value_of "data" envelope)))
                                          (λ e. failed "Unbekannte Meldung des AirControl-Servers.")
                                          (λ k. status (is_status kind _ k)))))))))))
