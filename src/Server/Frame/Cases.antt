-- ===== src/Server/Frame/Cases.antt =====
-- A predicate over the tests, the options and the exceptions of an operation.
use air_ctrl_desklet.Prelude.{
  Bool, true, false, Option, none, some, if◌then◌else◌, nat_eq, string_eq,
}
use air_ctrl_desklet.Automation.Types.{Global, missing, not_a_function, callable}
use air_ctrl_desklet.Server.State.{Server}

module _ {S : Type 0} (P : Server S → Type 0) where
  pub if-keeps : (b : Bool) (x y : Server S) → P x → P y → P (if b then x else y)
  if-keeps true x y p q = p
  if-keeps false x y p q = q

  pub option-keeps {ℓ} :
      {A : Type ℓ} (o : Option A) (x : Server S) (f : A → Server S)
      → P x
      → ((a : A) → P (f a))
      → P (elim o [ none ↦ x | some a ↦ f a ])
  option-keeps none x f p q = p
  option-keeps (some a) x f p q = q a

  pub global-keeps :
      (g : Global) (x y z : Server S)
      → P x
      → P y
      → P z
      → P (elim g [ missing ↦ x | not_a_function ↦ y | callable ↦ z ])
  global-keeps missing x y z p q r = p
  global-keeps not_a_function x y z p q r = q
  global-keeps callable x y z p q r = r

  -- What holds of the server if the operation does not end the process.
  abbrev pub Unless : Option (Server S) → Type 0
  Unless none = Unit
  Unless (some s) = P s

  pub Unless-if :
      (b : Bool) (x y : Option (Server S)) → Unless x → Unless y → Unless (if b then x else y)
  Unless-if true x y p q = p
  Unless-if false x y p q = q

  pub Unless-then :
      (o : Option (Server S)) (f : Server S → Option (Server S))
      → Unless o
      → ((s : Server S) → P s → Unless (f s))
      → Unless (elim o [ none ↦ none | some s ↦ f s ])
  Unless-then none f u h = tt
  Unless-then (some s) f u h = h s u

  pub Unless-bind :
      (o : Option (Server S)) (f : Server S → Server S)
      → Unless o
      → ((s : Server S) → P s → P (f s))
      → Unless (elim o [ none ↦ none | some s ↦ some (f s) ])
  Unless-bind none f u h = tt
  Unless-bind (some s) f u h = h s u
