-- ===== src/Prelude/Bytes.antt =====
-- Equality of byte strings, and the bytes of texts.
use Prim.Native.Nat.{ℕ}
use Prim.Native.Char.{code}
use Prim.Native.String.{String}
use mathlib.Core.Path.{◌≡◌, refl, ap, ◌∙◌}
use mathlib.Core.Logic.{◌≢◌, inl, inr}
use mathlib.Core.Bool.{Bool, true, false, ◌&&◌}
use mathlib.Core.List.{List, [], ◌∷◌}
use native.Mathlib.Omega.{arith}
use air_ctrl_desklet.Prelude.Tests.{◌==◌, nat_eq, nat_beq_iff, Bool-cases}

-- The bytes of an ASCII text.
abbrev pub codes : String → List ℕ
codes String.[] = []
codes (String.◌∷◌ c text) = code c ∷ codes text

abbrev pub same_bytes : List ℕ → List ℕ → Bool
same_bytes [] [] = true
same_bytes (a ∷ xs) (b ∷ ys) = a == b && same_bytes xs ys
same_bytes _ _ = false

pub and-true : (a b : Bool) → a && b ≡ true → (a ≡ true) × (b ≡ true)
and-true true b h = (refl, h)
and-true false b h = (h, ground arith)

pub same_bytes-eq : (xs ys : List ℕ) → same_bytes xs ys ≡ true → xs ≡ ys
same_bytes-eq [] [] h = refl
same_bytes-eq (a ∷ xs) (b ∷ ys) h =
    let parts = and-true (a == b) _ h in
    ap (λ c. c ∷ xs) ((nat_beq_iff a b).0 parts.0) ∙ ap (λ l. b ∷ l) (same_bytes-eq xs ys parts.1)
same_bytes-eq [] (b ∷ ys) h = ground arith
same_bytes-eq (a ∷ xs) [] h = ground arith

pub other_bytes : (xs ys : List ℕ) → xs ≢ ys → same_bytes xs ys ≡ false
other_bytes xs ys h = elim (Bool-cases (same_bytes xs ys)) [
  | inl e ↦ elim (h (same_bytes-eq xs ys e)) [ ]
  | inr e ↦ e
]

pub same_bytes_refl : (xs : List ℕ) → same_bytes xs xs ≡ true
same_bytes_refl [] = refl
same_bytes_refl (a ∷ xs) =
    ap (λ b. b && same_bytes xs xs) ((nat_beq_iff a a).1 refl) ∙ same_bytes_refl xs
