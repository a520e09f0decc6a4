-- ===== src/Server/Frame.antt =====
-- What an operation of the server leaves true, shown once for every predicate that the primitive
-- changes keep: those of the client map and of the engine.
pub mod OfEngine
pub mod Cases
pub mod OfEvents
pub mod OfActions
pub mod OfRequests
pub mod OfConnections
pub mod OfDevice
use air_ctrl_desklet.Prelude.{
  ℕ, zero, suc, ◌≡◌, refl, true, false, ◌&&◌, List, [], ◌∷◌, ◌==◌, if◌then◌else◌, nat_eq,
  Bool-cases, Option-cases, inl, inr, ltb, length, is_empty,
}
use air_ctrl_desklet.Json.{Json}
use air_ctrl_desklet.Automation.Types.{Env, Engine}
use air_ctrl_desklet.Server.State.{Server, Client, lookup, erase, update, ids}
use air_ctrl_desklet.Server.Clients.{
  send_by, send_all, broadcast_by, close_by, close_at, close_client, send, broadcast,
  broadcast_automation_state, automation_envelope, longer, maximum_output_size,
}

pub record Kept (S : Type 0) (G : Engine S → Type 0) (P : Server S → Type 0) : Type 0 where
  pub good : (s : Server S) → P s → G s.engine
  pub engine : (s : Server S) (e : Engine S) → P s → G e → P (record s { engine = e })
  pub deliver :
      (s : Server S) (id : ℕ) (f : Client → Client)
      → ((c : Client) → ((f c).input ≡ c.input) × ((f c).close_after_write ≡ c.close_after_write))
      → P s
      → P (record s { clients = update id f s.clients })
  pub release :
      (s : Server S) (id : ℕ)
      → P s
      → (s.automation_editor == id) ≡ true
      → P (record s { clients = erase id s.clients; automation_editor = 0 })
  pub leave :
      (s : Server S) (id : ℕ)
      → P s
      → (s.automation_editor == id) ≡ false
      → P (record s { clients = erase id s.clients })
  pub quit : (s : Server S) → P s → P (record s { quit_requested = true })

module _ {S : Type 0} (env : Env S) {G : Engine S → Type 0} (P : Server S → Type 0)
    (k : Kept S G P) where
  abbrev Closes : (ℕ → Server S → Server S) → Type 0
  Closes close = (id : ℕ) (s : Server S) → P s → P (close id s)

  abbrev finish : Server S → Server S
  finish t =
      if t.exit_on_idle && t.accepted_any && is_empty t.clients
      then record t { quit_requested = true }
      else t

  finish-keeps : (t : Server S) → P t → P (finish t)
  finish-keeps t h = elim (Bool-cases (t.exit_on_idle && t.accepted_any && is_empty t.clients)) [
    | inl e ↦ rw e (k.quit t h)
    | inr e ↦ rw e h
  ]

  send_by-keeps :
      (close : ℕ → Server S → Server S)
      → Closes close
      → (id : ℕ) (value : Json) (s : Server S) → P s
      → P (send_by env close id value s)
  unfolding send_by
  send_by-keeps close c id value s h = elim (Option-cases (lookup id s.clients)) [
    | inl e ↦ rw (e, send_by) h
    | inr (b, e) ↦
        rw (e, send_by)
          (elim (Bool-cases (ltb maximum_output_size (length (longer env value b).output))) [
            | inl full ↦ rw full (c id _ (k.deliver s id (longer env value) (λ c. (refl, refl)) h))
            | inr fits ↦ rw fits (k.deliver s id (longer env value) (λ c. (refl, refl)) h)
          ])
  ]

  send_all-keeps :
      (close : ℕ → Server S → Server S)
      → Closes close
      → (value : Json) (targets : List ℕ) (s : Server S) → P s
      → P (send_all env close value targets s)
  unfolding send_all
  send_all-keeps close c value [] s h = h
  send_all-keeps close c value (id ∷ rest) s h =
      send_all-keeps close c value rest _ (send_by-keeps close c id value s h)

  close_by-keeps :
      (announce : Server S → Server S)
      → ((s : Server S) → P s → P (announce s))
      → Closes (close_by env announce)
  unfolding close_by
  close_by-keeps announce a id s h = elim (Option-cases (lookup id s.clients)) [
    | inl e ↦ rw (e, close_by) h
    | inr (b, e) ↦
        rw (e, close_by)
          (elim (Bool-cases (s.automation_editor == id)) [
            | inl own ↦ rw own (finish-keeps _ (a _ (k.release s id h own)))
            | inr other ↦ rw other (finish-keeps _ (k.leave s id h other))
          ])
  ]

  close_at-keeps : (n : ℕ) → Closes (close_at env n)
  unfolding close_at broadcast_by
  close_at-keeps zero id s h = h
  close_at-keeps (suc n) id s h =
      close_by-keeps _
        (λ t p.
          send_all-keeps (close_at env n) (close_at-keeps n) (automation_envelope env t)
            (ids t.clients) t p)
        id s h

  pub close_client-keeps : (id : ℕ) (s : Server S) → P s → P (close_client env id s)
  unfolding close_client
  close_client-keeps = close_at-keeps 2

  pub send-keeps : (id : ℕ) (value : Json) (s : Server S) → P s → P (send env id value s)
  unfolding send
  send-keeps = send_by-keeps (close_client env) close_client-keeps

  pub broadcast-keeps : (value : Json) (s : Server S) → P s → P (broadcast env value s)
  unfolding broadcast broadcast_by
  broadcast-keeps value s =
      send_all-keeps (close_client env) close_client-keeps value (ids s.clients) s

  pub announce-keeps : (s : Server S) → P s → P (broadcast_automation_state env s)
  unfolding broadcast_automation_state
  announce-keeps s = broadcast-keeps (automation_envelope env s) s
