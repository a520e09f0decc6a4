-- ===== src/Server/Clients/Depth.antt =====
-- Closing a client never nests deeper than twice: the second level finds the editor's lock free.
use air_ctrl_desklet.Prelude.{
  ℕ, suc, ◌≡◌, ◌≢◌, refl, ap, ◌∙◌, true, false, List, [], ◌∷◌, ◌==◌, if◌then◌else◌, nat_eq, arith,
  All, Bool-cases, Option-cases, inl, inr, ltb, length, ◌&&◌, is_empty,
}
use air_ctrl_desklet.Json.{Json}
use air_ctrl_desklet.Automation.Types.{Env}
use air_ctrl_desklet.Server.State.{Client, Server, lookup, erase, ids}
use air_ctrl_desklet.Server.Clients.{
  send_by, send_all, broadcast_by, close_by, close_at, close_client, longer, maximum_output_size,
}

-- Client identifiers start at one.
abbrev pub NoZero : List ℕ → Type 0
NoZero = All (λ id. id ≢ 0)

NoZero-erase : (id : ℕ) (cs : List (ℕ × Client)) → NoZero (ids cs) → NoZero (ids (erase id cs))
unfolding ids erase
NoZero-erase id [] h = tt
NoZero-erase id ((i, c) ∷ rest) h = ground (arith, NoZero-erase id rest h.1)

module _ {S : Type 0} (env : Env S) where
  close_by-no_editor :
      (f g : Server S → Server S) (id : ℕ) (s : Server S)
      → (s.automation_editor == id) ≡ false
      → close_by env f id s ≡ close_by env g id s
  unfolding close_by
  close_by-no_editor f g id s h = elim (Option-cases (lookup id s.clients)) [
    | inl e ↦ rw (e, close_by)
    | inr (c, e) ↦ rw (e, close_by) (rw h)
  ]

  editor-close_by :
      (f : Server S → Server S) (id : ℕ) (s : Server S)
      → (s.automation_editor == id) ≡ false
      → (close_by env f id s).automation_editor ≡ s.automation_editor
  unfolding close_by
  editor-close_by f id s h = ground arith

  -- With the lock free, the depth does not matter.
  send_by-free :
      (n : ℕ) (id : ℕ) (value : Json) (s : Server S)
      → id ≢ 0
      → s.automation_editor ≡ 0
      → (send_by env (close_at env (suc n)) id value s ≡ send_by env (close_at env 1) id value s)
        × ((send_by env (close_at env 1) id value s).automation_editor ≡ 0)
  unfolding send_by close_at
  send_by-free n id value s h e =
      let other : (s.automation_editor == id) ≡ false = ground arith in
      elim (Option-cases (lookup id s.clients)) [
        | inl gone ↦ rw (gone, send_by) (refl, e)
        | inr (c, at) ↦
            rw (at, send_by)
              (elim (Bool-cases (ltb maximum_output_size (length (longer env value c).output))) [
                | inr fits ↦ rw fits (refl, e)
                | inl full ↦
                    rw full (close_by-no_editor _ _ id _ other, editor-close_by _ id _ other ∙ e)
              ])
      ]

  send_all-free :
      (n : ℕ) (value : Json) (targets : List ℕ) (s : Server S)
      → NoZero targets
      → s.automation_editor ≡ 0
      → send_all env (close_at env (suc n)) value targets s
        ≡ send_all env (close_at env 1) value targets s
  unfolding send_all
  send_all-free n value [] s h e = refl
  send_all-free n value (id ∷ rest) s h e =
      let (same, still) = send_by-free n id value s h.0 e in
      ap (send_all env (close_at env (suc n)) value rest) same
      ∙ send_all-free n value rest (send_by env (close_at env 1) id value s) h.1 still

  -- Two levels of closing are enough: any greater bound on the depth gives the same state, so the
  -- bound that `close_client` uses is never felt.
  pub close_client_depth :
      (n : ℕ) (id : ℕ) (s : Server S)
      → NoZero (ids s.clients)
      → close_at env (suc (suc n)) id s ≡ close_client env id s
  unfolding close_client close_at close_by broadcast_by
  close_client_depth n id s h = elim (Option-cases (lookup id s.clients)) [
    | inl e ↦ rw (e, close_by)
    | inr (c, e) ↦
        rw (e, close_by)
          (elim (Bool-cases (s.automation_editor == id)) [
            | inr other ↦ rw other
            | inl own ↦
                rw own (ap finish (send_all-free n _ _ _ (NoZero-erase id s.clients h) refl))
          ])
  ]
    where
      finish : Server S → Server S
      finish t =
          if t.exit_on_idle && t.accepted_any && is_empty t.clients
          then record t { quit_requested = true }
          else t
