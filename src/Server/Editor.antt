-- ===== src/Server/Editor.antt =====
-- The requests of the script's editor in handle (src/server/server.cpp).
use air_ctrl_desklet.Prelude.{
  ℕ, Bool, true, false, not, ◌&&◌, [], ◌∷◌, Option, none, some, String, ◌==◌, if◌then◌else◌, nat_eq,
  string_eq,
}
use air_ctrl_desklet.Prelude.Int.{pos}
use air_ctrl_desklet.Json.{Json, boolean, integer, string, object, find}
use air_ctrl_desklet.Automation.Types.{Env, Engine}
use air_ctrl_desklet.Automation.Table.{ok, err}
use air_ctrl_desklet.Server.State.{Server}
use air_ctrl_desklet.Server.Clients.{message, members, state_json, send, broadcast_automation_state}
use air_ctrl_desklet.Server.Actions.{handle_action}
use air_ctrl_desklet.Server.Script.{read_script, save_script}
use air_ctrl_desklet.Server.Answers.{request_id, failure, text_of}

-- The arguments of a save request, if all have the right kind.
abbrev pub SaveRequest : Type 0
SaveRequest = ℕ × String × Bool × ℕ

abbrev pub save_parts : Option ℕ → Option Json → Option Json → Option Json → Option SaveRequest
save_parts (some id) (some (string script)) (some (boolean enabled))
      (some (integer (pos revision))) =
    some (id, script, enabled, revision)
save_parts _ _ _ _ = none

abbrev pub save_request : Json → Option SaveRequest
save_request request =
    save_parts (request_id request) (find "script" request) (find "enabled" request)
      (find "revision" request)

module _ {S : Type 0} (env : Env S) (now : ℕ) where
  abbrev state_object : Engine S → Json
  state_object e = object (members (state_json env e))

  -- automation_edit_begin
  unfoldable pub edit_begin : ℕ → Json → Server S → Server S
  edit_begin client request s = elim (request_id request) [
    | none ↦ send env client (failure "automation_edit" none "Ungültige Anforderungskennung.") s
    | some id ↦
        if not (s.automation_editor == 0) && not (s.automation_editor == client)
        then send env client
            (failure "automation_edit" (some id)
              "Das Lua-Skript wird bereits auf einem anderen Client bearbeitet.")
            s
        else elim (read_script env now s.engine) [
          | err problem ↦ send env client (failure "automation_edit" (some id) problem) s
          | ok script ↦ broadcast_automation_state env (
              send env client
                (message "automation_edit" (
                  ("id", integer (pos id))
                  ∷ ("ok", boolean true)
                  ∷ ("script", string script)
                  ∷ ("revision", integer (pos s.engine.revision))
                  ∷ ("state", state_object s.engine)
                  ∷ []))
                (record s { automation_editor = client }))
        ]
  ]

  -- The answer to a save request that has been carried out.
  unfoldable pub answer_save : ℕ → ℕ → (Bool × Option String) × Server S → Server S
  answer_save client id ((false, problem), s) =
      send env client (failure "automation_saved" (some id) (text_of problem)) s
  answer_save client id ((true, problem), s) = broadcast_automation_state env (
      send env client
        (message "automation_saved"
          (("id", integer (pos id)) ∷ ("ok", boolean true) ∷ ("state", state_object s.engine) ∷ []))
        (record s { automation_editor = 0 }))

  -- automation_edit_save
  unfoldable pub edit_save : ℕ → Json → Server S → Server S
  unfolding answer_save
  edit_save client request s =
      let refused =
        send env client
          (failure "automation_saved" (request_id request) (
            if s.automation_editor == client
            then "Ungültige Speichern-Anforderung."
            else "Dieser Client besitzt die Editier-Sperre nicht."))
          s in
      elim (save_request request) [
        | none ↦ refused
        | some (id, script, enabled, revision) ↦
            if not (s.automation_editor == client)
            then refused
            else if not (revision == s.engine.revision)
            then send env client
                (failure "automation_saved" (some id)
                  "Das Server-Skript wurde zwischenzeitlich geändert; bitte Editor neu öffnen.")
                s
            else answer_save client id
                (save_script env now (handle_action env now) script enabled s)
      ]

  -- automation_edit_cancel
  unfoldable pub edit_cancel : ℕ → Server S → Server S
  edit_cancel client s =
      let owned = s.automation_editor == client in
      let released = if owned then record s { automation_editor = 0 } else s in
      let told =
        send env client (message "automation_edit_released" (("ok", boolean owned) ∷ []))
          released in
      if owned then broadcast_automation_state env told else told
