-- ===== src/Server/Clients.antt =====
-- Sending, broadcasting and closing (send, broadcast, closeClient, flushClient and the envelopes of
-- src/server/server.cpp). A client whose output grows too long is closed, which may broadcast again.
pub mod Depth
use air_ctrl_desklet.Prelude.{
  ℕ, zero, suc, ◌*◌, true, not, ◌&&◌, List, [], ◌∷◌, ◌++◌, Option, none, some, String, ◌==◌,
  if◌then◌else◌, nat_eq, string_eq, ltb, length, is_empty, is_some,
}
use air_ctrl_desklet.Prelude.Int.{pos}
use air_ctrl_desklet.Json.{
  Json, boolean, integer, string, array, object, Items, nil, item, Fields, end,
}
use air_ctrl_desklet.Automation.Types.{Env, Engine}
use air_ctrl_desklet.Automation.Table.{assign}
use air_ctrl_desklet.Automation.Schedule.{existing_names}
use air_ctrl_desklet.Server.State.{Client, Server, lookup, erase, update, ids}

abbrev pub maximum_output_size : ℕ
maximum_output_size = 4 * 1024 * 1024

-- An object from its members, as `{{"key", value}, …}` in C++.
abbrev pub members : List (String × Json) → Fields
unfolding assign
members [] = end
members ((k, v) ∷ rest) = assign k v (members rest)

abbrev pub message : String → List (String × Json) → Json
unfolding members
message kind rest = object (members (("_airctrl", string kind) ∷ rest))

abbrev log_items : {S : Type 0} → Env S → List (List ℕ) → Items
log_items env [] = nil
log_items env (entry ∷ rest) = item (string (env.text entry)) (log_items env rest)

abbrev pub optional_text : String → Option String → List (String × Json)
optional_text key none = []
optional_text key (some t) = (key, string t) ∷ []

module _ {S : Type 0} (env : Env S) where
  -- AutomationEngine::stateJson
  pub state_json : Engine S → List (String × Json)
  state_json e =
      ("enabled", boolean e.enabled)
      ∷ ("loaded", boolean (is_some e.lua && not (is_some e.last_error)))
      ∷ ("manual_override", boolean e.manual_override)
      ∷ ("revision", integer (pos e.revision))
      ∷ ("schedule_count", integer (pos (length (existing_names e.schedules))))
      ∷ ("lua_version", string env.lua_release)
      ∷ ("script_path", string e.script_path)
      ∷ ("last_event", string e.last_event)
      ∷ ("last_action", string e.last_action)
      ∷ ("log", array (log_items env e.log_entries))
      ∷ (optional_text "error" e.last_error
          ++ (if e.manual_override && not (e.manual_override_reason == "")
              then ("manual_override_reason", string e.manual_override_reason) ∷ []
              else []))

  pub state_envelope : Server S → Json
  state_envelope s = message "state" (
      ("state", string s.state)
      ∷ ("starts", integer (pos s.starts))
      ∷ optional_text "error" s.state_error)

  pub automation_envelope : Server S → Json
  automation_envelope s =
      message "automation_state"
        (("editor_busy", boolean (not (s.automation_editor == 0))) ∷ state_json s.engine)

  abbrev pub longer : Json → Client → Client
  longer value c = record c { output = c.output ++ env.dump value ++ 10 ∷ [] }

  -- send, given what closes a client
  unfoldable pub send_by : (ℕ → Server S → Server S) → ℕ → Json → Server S → Server S
  send_by close client value s = elim (lookup client s.clients) [
    | none ↦ s
    | some c ↦
        let s' = record s { clients = update client (longer value) s.clients } in
        if ltb maximum_output_size (length (longer value c).output) then close client s' else s'
  ]

  unfoldable pub send_all : (ℕ → Server S → Server S) → Json → List ℕ → Server S → Server S
  send_all close value [] s = s
  send_all close value (id ∷ rest) s = send_all close value rest (send_by close id value s)

  unfoldable pub broadcast_by : (ℕ → Server S → Server S) → Json → Server S → Server S
  broadcast_by close value s = send_all close value (ids s.clients) s

  -- closeClient, given what announces that the editor's lock is free
  unfoldable pub close_by : (Server S → Server S) → ℕ → Server S → Server S
  close_by announce id s = elim (lookup id s.clients) [
    | none ↦ s
    | some c ↦
        let gone = record s { clients = erase id s.clients } in
        let freed =
          if s.automation_editor == id
          then announce (record gone { automation_editor = 0 })
          else gone in
        if freed.exit_on_idle && freed.accepted_any && is_empty freed.clients
        then record freed { quit_requested = true }
        else freed
  ]

  -- closeClient; the number bounds how deep the calls through broadcasts go.
  unfoldable pub close_at : ℕ → ℕ → Server S → Server S
  close_at zero id s = s
  close_at (suc n) id s = close_by (λ t. broadcast_by (close_at n) (automation_envelope t) t) id s

  unfoldable pub close_client : ℕ → Server S → Server S
  close_client = close_at 2

  unfoldable pub send : ℕ → Json → Server S → Server S
  send = send_by close_client

  unfoldable pub broadcast : Json → Server S → Server S
  broadcast = broadcast_by close_client

  unfoldable pub broadcast_automation_state : Server S → Server S
  broadcast_automation_state s = broadcast (automation_envelope s) s
