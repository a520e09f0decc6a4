-- ===== src/Desklet/Controller/Exchange.antt =====
-- A command from its request to its confirmation.
use air_ctrl_desklet.Prelude.{
  ℕ, true, false, ◌≡◌, ◌≢◌, [], ◌∷◌, ◌++◌, String, arith, nat_eq, string_eq,
}
use air_ctrl_desklet.Prelude.Int.{pos}
use air_ctrl_desklet.Json.{Json, boolean, integer, string, object, Fields, end, field, find_field}
use air_ctrl_desklet.Desklet.Controller.State.{
  Controller, Qt, control_accepted, status_packet_received, status_received, busy_changed, set_busy,
}
use air_ctrl_desklet.Desklet.Controller.Messages.{
  on_control_answer, on_status_data, handle_envelope,
}

-- The messages of the server (controlResult and the status of its stateEnvelope).
abbrev pub accepted : ℕ → Json
accepted id = object (
    field "_airctrl" (string "control")
      (field "id" (integer (pos id)) (field "ok" (boolean true) end)))

abbrev pub status_message : String → Json → Fields → Json
status_message key value rest =
    object (field "_airctrl" (string "status") (field "data" (object (field key value rest)) end))

module _ (qt : Qt) (c : Controller) (key : String) (value : Json) (rest : Fields) where
  -- If a command is under way whose identifier is not 0 and is read back from its number, its acceptance
  -- and the next status end it, and the signals are told in this order.
  pub exchange :
      (id : ℕ)
      → c.busy ≡ true
      → c.awaiting_confirmation ≡ false
      → c.pending_command_id ≡ id
      → id ≢ 0
      → qt.unsigned_long_long (integer (pos id)) ≡ id
      → let d =
          handle_envelope qt (status_message key value rest) (handle_envelope qt (accepted id) c) in
        (d.busy ≡ false)
        × (d.awaiting_confirmation ≡ false)
        × (d.pending_command_id ≡ 0)
        × (d.signals
            ≡ (((c.signals ++ control_accepted ∷ []) ++ status_packet_received ∷ [])
                ++ busy_changed false ∷ [])
              ++ status_received (object (field key value rest)) ∷ [])
  unfolding handle_envelope on_control_answer on_status_data find_field set_busy
  exchange id b a p n u = ground arith
