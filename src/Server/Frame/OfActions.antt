-- ===== src/Server/Frame/OfActions.antt =====
-- The handler of actions and their confirmation keep what is kept.
use air_ctrl_desklet.Prelude.{
  ℕ, zero, suc, Bool, true, false, not, [], ◌∷◌, ◌++◌, Option, none, String, nat_eq, string_eq,
}
use air_ctrl_desklet.Json.{Json}
use air_ctrl_desklet.Automation.Types.{Env, Engine, Action}
use air_ctrl_desklet.Automation.State.{action_accepted}
use air_ctrl_desklet.Server.State.{Server, Command}
use air_ctrl_desklet.Server.Frame.{Kept, announce-keeps}
use air_ctrl_desklet.Server.Frame.Cases.{if-keeps, option-keeps}
use air_ctrl_desklet.Server.Frame.OfEngine.{Lasting, action_accepted-good}
use air_ctrl_desklet.Server.Actions.{
  handle_by, handler_at, handle_action, confirm_action, automation_busy,
}
use air_ctrl_desklet.Server.Frame.OfEvents.{Handles, command_event-keeps}

-- What a predicate must be indifferent to besides: a new command at the end of the queue, and the
-- pending confirmation.
pub record Queued (S : Type 0) (R : Json → Type 0) (P : Server S → Type 0) : Type 0 where
  pub push :
      (s : Server S) (c : Command) (n : ℕ)
      → R c.values
      → P s
      → P (record s { next_automation_id = n; commands = s.commands ++ c ∷ [] })
  pub confirm :
      (s : Server S) (o : Option Command) → P s → P (record s { pending_confirmation = o })

module _ {S : Type 0} (env : Env S) (now : ℕ) (G : Engine S → Type 0) (R : Json → Type 0)
    (l : Lasting env G R) (P : Server S → Type 0) (k : Kept S G P) (q : Queued S R P) where
  accepted-keeps :
      (key : Option String) (s : Server S)
      → P s
      → P (record s { engine = action_accepted env now key s.engine })
  accepted-keeps key s p =
      k.engine s _ p (action_accepted-good env now G R l key s.engine (k.good s p))

  handle_by-keeps :
      (handler : Action → Server S → Server S)
      → Handles env now G R l P k handler
      → Handles env now G R l P k (handle_by env now handler)
  unfolding handle_by
  handle_by-keeps handler h a s r p =
      let told = λ (ok : Bool) (text : String) (t : Server S) (u : P t).
        announce-keeps env P k _
          (command_event-keeps env now G R l P k handler h a.source ok text t u) in
      if-keeps P (not s.device_ready) _ _ (told false _ s p) (
        if-keeps P _ _ _ (told true _ _ (accepted-keeps a.occurrence_key s p)) (
          if-keeps P (automation_busy env now s) _ _ (told false _ s p)
            (announce-keeps env P k _ (q.push _ _ _ r (accepted-keeps a.occurrence_key s p)))))

  handler_at-keeps : (n : ℕ) → Handles env now G R l P k (handler_at env now n)
  unfolding handler_at
  handler_at-keeps zero a s r p = p
  handler_at-keeps (suc n) a s r p = handle_by-keeps _ (handler_at-keeps n) a s r p

  pub handle_action-keeps : Handles env now G R l P k (handle_action env now)
  unfolding handle_action
  handle_action-keeps = handler_at-keeps 1

  pub confirm_action-keeps :
      (status : Json) (s : Server S) → P s → P (confirm_action env now status s)
  unfolding confirm_action
  confirm_action-keeps status s p = option-keeps P s.pending_confirmation s _ p (λ c.
      q.confirm _ none (
        command_event-keeps env now G R l P k (handle_action env now) handle_action-keeps c.source _
          _ s p))
