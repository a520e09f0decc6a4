-- ===== src/Server/Requests/Alive.antt =====
-- The editor's lock is held by a client that is connected, whatever a request or a closing does.
use air_ctrl_desklet.Prelude.{ℕ, ◌≡◌, refl, ap, ◌∙◌, Bool, true, false, ◌||◌, ◌==◌, nat_eq, is_some}
use air_ctrl_desklet.Json.{Json}
use air_ctrl_desklet.Automation.Types.{Env}
use air_ctrl_desklet.Server.State.{Server, lookup}
use air_ctrl_desklet.Server.State.Distinct.{is_some-lookup-update, lookup-erase}
use air_ctrl_desklet.Server.Clients.{close_client}
use air_ctrl_desklet.Server.Requests.{handle}
use air_ctrl_desklet.Server.Frame.{Kept, close_client-keeps}
use air_ctrl_desklet.Server.Frame.OfActions.{Queued}
use air_ctrl_desklet.Server.Frame.OfEngine.{Anything, anything}
use air_ctrl_desklet.Server.Frame.OfRequests.{Served, handle-keeps}

-- The lock is free, or its owner is a client.
abbrev pub EditorAlive : {S : Type 0} → Server S → Type 0
EditorAlive s = (s.automation_editor == 0 || is_some (lookup s.automation_editor s.clients)) ≡ true

pub or-true : (b : Bool) → (b || true) ≡ true
or-true true = refl
or-true false = refl

abbrev pub alive_kept : {S : Type 0} → Kept S (λ e. Anything e) (λ s. EditorAlive s)
alive_kept = record {
  good = λ s p. tt;
  engine = λ s e p g. p;
  deliver = λ s id f same p.
      ap (λ b. s.automation_editor == 0 || b)
        (is_some-lookup-update id s.automation_editor f s.clients)
      ∙ p;
  release = λ s id p own. refl;
  leave = λ s id p other.
      ap (λ c. s.automation_editor == 0 || is_some c)
        (lookup-erase id s.automation_editor s.clients other)
      ∙ p;
  quit = λ s p. p;
}

abbrev alive_queued : {S : Type 0} → Queued S (λ v. Anything v) (λ s. EditorAlive s)
alive_queued = record { push = λ s c n r p. p; confirm = λ s o p. p }

abbrev alive_served : {S : Type 0} (client : ℕ) → Served S (λ s. EditorAlive s) client
alive_served client = record {
  take = λ s p live. ap (λ b. client == 0 || b) live ∙ or-true (client == 0);
  free = λ s p. refl;
  restart = λ s p. p;
}

module _ {S : Type 0} (env : Env S) where
  -- If the editor's lock is free or held by a connected client, closing any client leaves it so: with
  -- its owner the lock goes.
  pub close_client-EditorAlive :
      (id : ℕ) (s : Server S) → EditorAlive s → EditorAlive (close_client env id s)
  close_client-EditorAlive = close_client-keeps env (λ s. EditorAlive s) alive_kept

  -- If the editor's lock is free or held by a connected client, every request of a connected client,
  -- of whatever kind and with whatever Lua events, actions and closed clients it leads to, leaves it so.
  pub handle-EditorAlive :
      (now client : ℕ) (request : Json) (s : Server S)
      → EditorAlive s
      → is_some (lookup client s.clients) ≡ true
      → EditorAlive (handle env now client request s)
  handle-EditorAlive now client =
      handle-keeps env now (λ e. Anything e) (λ v. Anything v) (anything env) (λ s. EditorAlive s)
        alive_kept alive_queued client (alive_served client)
