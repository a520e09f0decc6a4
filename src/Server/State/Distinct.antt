-- ===== src/Server/State/Distinct.antt =====
-- The client map as a list with distinct keys: what looking up, erasing and updating do to it.
use air_ctrl_desklet.Prelude.{
  ℕ, ◌+◌, ◌<◌, ◌≡◌, ◌≢◌, refl, ap, ◌∙◌, true, false, List, [], ◌∷◌, ◌++◌, ◌==◌, nat_eq, arith,
  is_some, Bool-cases, inl, inr,
}
use air_ctrl_desklet.Server.State.{Client, lookup, erase, update}

-- No key stands twice.
abbrev pub Distinct : List (ℕ × Client) → Type 0
Distinct [] = Unit
Distinct ((i, c) ∷ rest) = (is_some (lookup i rest) ≡ false) × Distinct rest

-- Every key has been given to a client: it is below the next one, and not 0.
abbrev pub Given : ℕ → List (ℕ × Client) → Type 0
Given next [] = Unit
Given next ((i, c) ∷ rest) = (i ≢ 0) × (i < next) × Given next rest

pub is_some-lookup-update :
    (id i : ℕ) (f : Client → Client) (cs : List (ℕ × Client))
    → is_some (lookup i (update id f cs)) ≡ is_some (lookup i cs)
unfolding lookup update
is_some-lookup-update id i f [] = refl
is_some-lookup-update id i f ((j, c) ∷ rest) = ground (arith, is_some-lookup-update id i f rest)

pub lookup-erase :
    (id i : ℕ) (cs : List (ℕ × Client)) → (i == id) ≡ false → lookup i (erase id cs) ≡ lookup i cs
unfolding lookup erase
lookup-erase id i [] h = refl
lookup-erase id i ((j, c) ∷ rest) h = ground (arith, lookup-erase id i rest h)

absent-erase :
    (id i : ℕ) (cs : List (ℕ × Client))
    → is_some (lookup i cs) ≡ false
    → is_some (lookup i (erase id cs)) ≡ false
unfolding lookup erase
absent-erase id i [] h = refl
absent-erase id i ((j, c) ∷ rest) h = ground (arith, absent-erase id i rest)

pub lookup-erase-same :
    (id : ℕ) (cs : List (ℕ × Client)) → Distinct cs → is_some (lookup id (erase id cs)) ≡ false
unfolding lookup erase
lookup-erase-same id [] h = refl
lookup-erase-same id ((j, c) ∷ rest) (h, k) = ground (arith, lookup-erase-same id rest k)

pub Distinct-update :
    (id : ℕ) (f : Client → Client) (cs : List (ℕ × Client))
    → Distinct cs
    → Distinct (update id f cs)
unfolding update
Distinct-update id f [] h = tt
Distinct-update id f ((j, c) ∷ rest) (h, k) = elim (Bool-cases (j == id)) [
  | inl e ↦ rw e (h, k)
  | inr e ↦ rw e (is_some-lookup-update id j f rest ∙ h, Distinct-update id f rest k)
]

pub Distinct-erase : (id : ℕ) (cs : List (ℕ × Client)) → Distinct cs → Distinct (erase id cs)
unfolding erase
Distinct-erase id [] h = tt
Distinct-erase id ((j, c) ∷ rest) (h, k) = elim (Bool-cases (j == id)) [
  | inl e ↦ rw e k
  | inr e ↦ rw e (absent-erase id j rest h, Distinct-erase id rest k)
]

pub Given-update :
    (next id : ℕ) (f : Client → Client) (cs : List (ℕ × Client))
    → Given next cs
    → Given next (update id f cs)
unfolding update
Given-update next id f [] h = tt
Given-update next id f ((j, c) ∷ rest) (h, k, l) = elim (Bool-cases (j == id)) [
  | inl e ↦ rw e (h, k, l)
  | inr e ↦ rw e (h, k, Given-update next id f rest l)
]

pub Given-erase : (next id : ℕ) (cs : List (ℕ × Client)) → Given next cs → Given next (erase id cs)
unfolding erase
Given-erase next id [] h = tt
Given-erase next id ((j, c) ∷ rest) (h, k, l) = elim (Bool-cases (j == id)) [
  | inl e ↦ rw e l
  | inr e ↦ rw e (h, k, Given-erase next id rest l)
]

-- A key that has not been given stands nowhere.
pub Given-absent :
    (next : ℕ) (cs : List (ℕ × Client)) → Given next cs → is_some (lookup next cs) ≡ false
unfolding lookup
Given-absent next [] h = refl
Given-absent next ((j, c) ∷ rest) (h, k, l) = ground (arith, Given-absent next rest l)

pub Given-append :
    (next : ℕ) (c : Client) (cs : List (ℕ × Client))
    → next ≢ 0
    → Given next cs
    → Given (next + 1) (cs ++ (next, c) ∷ [])
Given-append next c [] n h = (n, omega arith, tt)
Given-append next c ((j, d) ∷ rest) n (h, k, l) = (h, omega arith, Given-append next c rest n l)

pub lookup-append :
    (i next : ℕ) (c : Client) (cs : List (ℕ × Client))
    → (next == i) ≡ false
    → lookup i (cs ++ (next, c) ∷ []) ≡ lookup i cs
unfolding lookup
lookup-append i next c [] h = rw h
lookup-append i next c ((j, d) ∷ rest) h = rw (lookup-append i next c rest h)

pub Distinct-append :
    (next : ℕ) (c : Client) (cs : List (ℕ × Client))
    → Given next cs
    → Distinct cs
    → Distinct (cs ++ (next, c) ∷ [])
unfolding lookup
Distinct-append next c [] g h = (refl, tt)
Distinct-append next c ((j, d) ∷ rest) (n, k, l) (h, m) =
    let other : (next == j) ≡ false = ground arith in
    (ap (λ o. is_some o) (lookup-append j next c rest other) ∙ h, Distinct-append next c rest l m)

pub is_some-lookup-append :
    (i : ℕ) (extra cs : List (ℕ × Client))
    → is_some (lookup i cs) ≡ true
    → is_some (lookup i (cs ++ extra)) ≡ true
unfolding lookup
is_some-lookup-append i extra [] h = ground arith
is_some-lookup-append i extra ((j, c) ∷ rest) h = ground (arith, is_some-lookup-append i extra rest)
