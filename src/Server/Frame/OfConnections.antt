-- ===== src/Server/Frame/OfConnections.antt =====
-- Accepting, reading and flushing a client keep what is kept.
use air_ctrl_desklet.Prelude.{
  ℕ, zero, suc, ◌≡◌, refl, ap, ◌∙◌, Bool, true, not, List, [], ◌∷◌, Option, none, some, nat_eq,
  string_eq, Option-cases, inl, inr, is_some, is_empty,
}
use air_ctrl_desklet.Automation.Types.{Engine}
use air_ctrl_desklet.Json.{Json}
use air_ctrl_desklet.Automation.Types.{Env}
use air_ctrl_desklet.Server.State.{Server, Client, lookup, update}
use air_ctrl_desklet.Server.State.Distinct.{is_some-lookup-update}
use air_ctrl_desklet.Server.Connections.{
  Sent, wrote, not_yet, sending_failed, Ending, drained, closed, broken, write_out, flush_client,
  take_line, take_lines, finish_read, read_client, next_line, input_of, set_input, closing, trim,
  as_request,
}
use air_ctrl_desklet.Server.Frame.{Kept, close_client-keeps, send-keeps}
use air_ctrl_desklet.Server.Frame.Cases.{if-keeps, option-keeps}
use air_ctrl_desklet.Server.Frame.OfActions.{Queued}
use air_ctrl_desklet.Server.Frame.OfEngine.{Lasting}
use air_ctrl_desklet.Server.Frame.OfRequests.{Served, handle-keeps}

-- What a predicate must be indifferent to besides: a client's input and its closing mark.
pub record Reading (S : Type 0) (P : Server S → Type 0) : Type 0 where
  pub input :
      (s : Server S) (id : ℕ) (f : Client → Client)
      → P s
      → P (record s { clients = update id f s.clients })

-- A client with input is connected.
pub has_line :
    (o : Option Client) (r : List ℕ × List ℕ) → next_line (input_of o) ≡ some r → is_some o ≡ true
unfolding next_line
has_line none r h = ap (λ x. is_some x) h
has_line (some c) r h = refl

module _ {S : Type 0} (env : Env S) (now : ℕ) (G : Engine S → Type 0) (R : Json → Type 0)
    (l : Lasting env G R) (P : Server S → Type 0) (k : Kept S G P) (q : Queued S R P)
    (v : (client : ℕ) → Served S P client) where
  write_out-keeps :
      (id : ℕ) (s : Server S) (last : Bool) (answers : List Sent) (output : List ℕ)
      → P s
      → P (write_out env now id s last answers output)
  unfolding write_out
  write_out-keeps id s last answers [] p =
      let q = k.deliver s id _ (λ c. (refl, refl)) p in
      if-keeps P last _ _ (close_client-keeps env P k id _ q) q
  write_out-keeps id s last [] (b ∷ output) p = k.deliver s id _ (λ c. (refl, refl)) p
  write_out-keeps id s last (wrote zero ∷ answers) (b ∷ output) p =
      close_client-keeps env P k id _ (k.deliver s id _ (λ c. (refl, refl)) p)
  write_out-keeps id s last (wrote (suc n) ∷ answers) (b ∷ output) p =
      write_out-keeps id s last answers _ p
  write_out-keeps id s last (not_yet ∷ answers) (b ∷ output) p =
      k.deliver s id _ (λ c. (refl, refl)) p
  write_out-keeps id s last (sending_failed ∷ answers) (b ∷ output) p =
      close_client-keeps env P k id _ (k.deliver s id _ (λ c. (refl, refl)) p)

  pub flush_client-keeps :
      (answers : List Sent) (id : ℕ) (s : Server S) → P s → P (flush_client env now answers id s)
  unfolding flush_client
  flush_client-keeps answers id s p =
      option-keeps P (lookup id s.clients) s _ p
        (λ c. write_out-keeps id s c.close_after_write answers c.output p)

  pub take_line-keeps :
      (id : ℕ) (line : List ℕ) (s : Server S)
      → P s
      → is_some (lookup id s.clients) ≡ true
      → P (take_line env now id line s)
  unfolding take_line
  take_line-keeps id line s p live = if-keeps P (is_empty (trim line)) _ _ p (
      option-keeps P (as_request (env.parse (trim line))) _ _ (send-keeps env P k id _ s p)
        (λ request. handle-keeps env now G R l P k q id (v id) request s p live))

  module _ (r : Reading S P) where
    take_lines-keeps : (n id : ℕ) (s : Server S) → P s → P (take_lines env now n id s)
    unfolding take_lines
    take_lines-keeps zero id s p = p
    take_lines-keeps (suc n) id s p =
        elim (Option-cases (next_line (input_of (lookup id s.clients)))) [
          | inl e ↦ rw (e, take_lines) p
          | inr ((line, after), e) ↦
              let live =
                is_some-lookup-update id id (set_input after) s.clients
                ∙ has_line (lookup id s.clients) _ e in
              rw (e, take_lines)
                (take_lines-keeps n id _ (take_line-keeps id line _ (r.input s id _ p) live))
        ]

    finish_read-keeps :
        (answers : List Sent) (ending : Ending) (id : ℕ) (s : Server S)
        → P s
        → P (finish_read env now answers ending id s)
    unfolding finish_read
    finish_read-keeps answers drained id s p =
        flush_client-keeps answers id _ (take_lines-keeps _ id s p)
    finish_read-keeps answers closed id s p = close_client-keeps env P k id s p
    finish_read-keeps answers broken id s p = close_client-keeps env P k id s p

    pub read_client-keeps :
        (blocks : List (List ℕ)) (ending : Ending) (answers : List Sent) (id : ℕ) (s : Server S)
        → P s
        → P (read_client env now blocks ending answers id s)
    unfolding read_client
    read_client-keeps [] ending answers id s p = finish_read-keeps answers ending id s p
    read_client-keeps (block ∷ blocks) ending answers id s p =
        let grown = r.input s id _ p in
        if-keeps P (not (is_some (lookup id s.clients))) _ _ p (
          if-keeps P _ _ _
            (flush_client-keeps answers id _
              (r.input _ id closing (send-keeps env P k id _ _ grown)))
            (read_client-keeps blocks ending answers id _ grown))
