-- ===== src/ControlValues/Allowed.antt =====
-- The control requests that the AC2729 protocol allows, by its table (src/common/control_values.cpp).
use native.Mathlib.Nat.{
  div-add-mod', mul-mod_left, mul-le-mul_right, le_of_mul-le-mul_right, zero-div, zero-mul,
  one-le-pow,
}
use air_ctrl_desklet.Prelude.{
  ℕ, ◌*◌, ◌^◌, ◌≤◌, ◌<◌, ◌/◌, ◌%◌, ◌≡◌, refl, sym, ap, ◌∙◌, ◌↔◌, ◌⊎◌, inl, inr, Bool, true, false,
  List, [], ◌∷◌, Option, none, some, String, arith, eq_iff, Bool-cases, nat_eq, string_eq, any,
}
use mathlib.Core.Path.{subst}
use air_ctrl_desklet.Prelude.Int.{ℤ, pos, negsuc}
use air_ctrl_desklet.Json.{
  Json, null, boolean, integer, floating, string, array, object, Fields, end, field, Double,
  int_double, is_number,
}
use air_ctrl_desklet.ControlValues.{
  number_is, is_count_upto, is_valid, check_entries, control_values_error,
}
use air_ctrl_desklet.ControlValues.Table.{
  Domain, texts, switch, levels, counts, domain, fits, is_valid-domain,
}

-- The number stands for the natural number `k`.
abbrev pub Denotes : Json → ℕ → Type 0
Denotes (integer i) k = i ≡ pos k
Denotes (floating d) k = (d.magnitude ≡ k * 2 ^ d.scale) × ((d.negative ≡ false) ⊎ (k ≡ 0))
Denotes _ k = ⊥

abbrev pub AnyOf {ℓ} : {A : Type ℓ} → (A → Type 0) → List A → Type 0
AnyOf P [] = ⊥
AnyOf P (x ∷ xs) = P x ⊎ AnyOf P xs

abbrev pub Fits : Domain → Json → Type 0
Fits (texts ts) (string s) = AnyOf (λ t. s ≡ t) ts
Fits switch (boolean b) = Unit
Fits (levels ns) v = AnyOf (Denotes v) ns
Fits (counts n) v = (k : ℕ) × (k ≤ n) × Denotes v k
Fits _ v = ⊥

-- The key is in the table, and the value in its domain.
abbrev pub IsAllowed : String → Json → Type 0
IsAllowed key v = (d : Domain) × (domain key ≡ some d) × Fits d v

any_iff {ℓ} :
    {A : Type ℓ} (p : A → Bool) (P : A → Type 0) (xs : List A)
    → ((a : A) → (p a ≡ true) ↔ P a)
    → (any p xs ≡ true) ↔ AnyOf P xs
any_iff p P [] each = (λ h. cc, λ h. absurd h)
any_iff p P (x ∷ xs) each = (
  λ h. elim (Bool-cases (p x)) [
    | inl e ↦ inl ((each x).0 e)
    | inr n ↦ inr ((any_iff p P xs each).0 (rw n at h))
  ],
  λ h. elim h [ inl e ↦ rw ((each x).1 e) | inr r ↦ ground (arith, (any_iff p P xs each).1 r) ],
)

number_is_iff :
    (d : Double) (k : ℕ)
    → (number_is d k ≡ true) ↔ ((d.magnitude ≡ k * 2 ^ d.scale) × ((d.negative ≡ false) ⊎ (k ≡ 0)))
number_is_iff d k = (λ h. (ground arith, ground arith), λ h. ground arith)

int_is_iff : (i : ℤ) (k : ℕ) → (number_is (int_double i) k ≡ true) ↔ (i ≡ pos k)
int_is_iff (pos n) k = (λ h. ground arith, λ h. ground arith)
int_is_iff (negsuc n) k = (λ h. ground arith, λ h. cc)

abbrev Value : Double → ℕ → Type 0
Value d k = (d.magnitude ≡ k * 2 ^ d.scale) × ((d.negative ≡ false) ⊎ (k ≡ 0))

two_pow_pos : (s : ℕ) → 0 < 2 ^ s
two_pow_pos s = one-le-pow s 2 (omega arith)

div_exact : (m p : ℕ) → m % p ≡ 0 → m ≡ m / p * p
div_exact m p h = omega (arith, div-add-mod' m p)

-- A double in range that its truncation equals is a natural number in range.
count_of : (d : Double) (n : ℕ) → is_count_upto d n ≡ true → (k : ℕ) × (k ≤ n) × Value d k
count_of d n h =
    let p = 2 ^ d.scale in
    let whole : d.magnitude % p ≡ 0 = ground arith in
    let below : d.magnitude ≤ n * p = ground arith in
    let sign : (d.negative ≡ false) ⊎ (d.magnitude ≡ 0) = ground arith in
    let exact = div_exact d.magnitude p whole in
    (
      d.magnitude / p,
      le_of_mul-le-mul_right {n = n} (rw (← exact) below) (two_pow_pos d.scale),
      (exact, elim sign [ inl e ↦ inl e | inr z ↦ inr (rw z (zero-div p)) ]),
    )

is_count_of : (d : Double) (n k : ℕ) → k ≤ n → Value d k → is_count_upto d n ≡ true
is_count_of d n k l v =
    let p = 2 ^ d.scale in
    let whole : d.magnitude % p ≡ 0 = rw (v.0) (mul-mod_left k p) in
    let below : d.magnitude ≤ n * p = rw (v.0) (mul-le-mul_right p l) in
    let sign : (d.negative ≡ false) ⊎ (d.magnitude ≡ 0) = elim v.1 [
      | inl e ↦ inl e
      | inr z ↦ inr (rw (v.0, z) (zero-mul p))
    ] in
    ground arith

none_of : (ns : List ℕ) → (false ≡ true) ↔ AnyOf (λ (k : ℕ). ⊥) ns
none_of [] = (λ h. cc, λ h. absurd h)
none_of (n ∷ ns) = (λ h. cc, λ h. elim h [ inl e ↦ absurd e | inr r ↦ (none_of ns).1 r ])

levels-Fits : (v : Json) (ns : List ℕ) → (fits (some (levels ns)) v ≡ true) ↔ AnyOf (Denotes v) ns
levels-Fits (integer i) ns = any_iff _ (Denotes (integer i)) ns (int_is_iff i)
levels-Fits (floating d) ns = any_iff _ (Denotes (floating d)) ns (number_is_iff d)
levels-Fits null ns = none_of ns
levels-Fits (boolean b) ns = none_of ns
levels-Fits (string s) ns = none_of ns
levels-Fits (array xs) ns = none_of ns
levels-Fits (object fs) ns = none_of ns

counts-Fits : (v : Json) (n : ℕ) → (fits (some (counts n)) v ≡ true) ↔ Fits (counts n) v
counts-Fits (integer (pos m)) n = (λ h. (m, ground arith, refl), λ h. ground arith)
counts-Fits (integer (negsuc m)) n = (λ h. absurd (ground arith), λ h. cc (h.2))
counts-Fits (floating d) n = (count_of d n, λ h. is_count_of d n h.0 h.1 h.2)
counts-Fits null n = (λ h. cc, λ h. absurd h.2)
counts-Fits (boolean b) n = (λ h. cc, λ h. absurd h.2)
counts-Fits (string s) n = (λ h. cc, λ h. absurd h.2)
counts-Fits (array xs) n = (λ h. cc, λ h. absurd h.2)
counts-Fits (object fs) n = (λ h. cc, λ h. absurd h.2)

fits-Fits : (d : Domain) (v : Json) → (fits (some d) v ≡ true) ↔ Fits d v
fits-Fits (levels ns) v = levels-Fits v ns
fits-Fits (counts n) v = counts-Fits v n
fits-Fits (texts ts) (string s) = any_iff _ (λ t. s ≡ t) ts (eq_iff s)
fits-Fits (texts ts) null = (λ h. cc, λ h. absurd h)
fits-Fits (texts ts) (boolean b) = (λ h. cc, λ h. absurd h)
fits-Fits (texts ts) (integer i) = (λ h. cc, λ h. absurd h)
fits-Fits (texts ts) (floating d) = (λ h. cc, λ h. absurd h)
fits-Fits (texts ts) (array xs) = (λ h. cc, λ h. absurd h)
fits-Fits (texts ts) (object fs) = (λ h. cc, λ h. absurd h)
fits-Fits switch (boolean b) = (λ h. tt, λ h. refl)
fits-Fits switch null = (λ h. cc, λ h. absurd h)
fits-Fits switch (string s) = (λ h. cc, λ h. absurd h)
fits-Fits switch (integer i) = (λ h. cc, λ h. absurd h)
fits-Fits switch (floating d) = (λ h. cc, λ h. absurd h)
fits-Fits switch (array xs) = (λ h. cc, λ h. absurd h)
fits-Fits switch (object fs) = (λ h. cc, λ h. absurd h)

in_domain :
    (o : Option Domain) (v : Json) → fits o v ≡ true → (d : Domain) × (o ≡ some d) × Fits d v
in_domain none v h = absurd (not_true (fits none v) refl h)
  where
    not_true : (b : Bool) → b ≡ false → b ≡ true → ⊥
    not_true b e h = cc
in_domain (some d) v h = (d, refl, (fits-Fits d v).0 h)

pub is_valid-IsAllowed : (key : String) (v : Json) → (is_valid key v ≡ true) ↔ IsAllowed key v
is_valid-IsAllowed key v = (
  λ h. in_domain (domain key) v (sym (is_valid-domain key v) ∙ h),
  λ h. is_valid-domain key v ∙ ap (λ o. fits o v) h.1 ∙ (fits-Fits h.0 v).1 h.2,
)

-- Every entry of the request is allowed.
abbrev pub AllAllowed : Fields → Type 0
AllAllowed end = Unit
AllAllowed (field key value rest) = IsAllowed key value × AllAllowed rest

-- Every entry is a number, or none is.
abbrev pub AllNumbers : Bool → Fields → Type 0
AllNumbers numbers end = Unit
AllNumbers numbers (field key value rest) = (is_number value ≡ numbers) × AllNumbers numbers rest

abbrev pub IsRequest : Json → Type 0
IsRequest (object (field key value rest)) =
    AllAllowed (field key value rest)
    × (AllNumbers true (field key value rest) ⊎ AllNumbers false (field key value rest))
IsRequest _ = ⊥

check_entries_iff :
    (numbers : Bool) (fs : Fields)
    → (check_entries numbers fs ≡ none) ↔ (AllAllowed fs × AllNumbers numbers fs)
unfolding check_entries
check_entries_iff numbers end = (λ h. (tt, tt), λ h. refl)
check_entries_iff numbers (field key value rest) = (
  λ h.
      let valid : is_valid key value ≡ true = ground arith in
      let number : is_number value ≡ numbers = ground arith in
      let more : check_entries numbers rest ≡ none = ground arith in
      let (a, n) = (check_entries_iff numbers rest).0 more in
      (((is_valid-IsAllowed key value).0 valid, a), (number, n)),
  λ h.
      let valid = (is_valid-IsAllowed key value).1 h.0.0 in
      let more = (check_entries_iff numbers rest).1 (h.0.1, h.1.1) in ground (arith, h.1.0),
)

-- A request passes the server's check exactly when it is a non-empty object whose entries are all in
-- the protocol's table, numbers with numbers only and other values with other values only.
pub control_values_error-IsRequest : (v : Json) → (control_values_error v ≡ none) ↔ IsRequest v
unfolding control_values_error
control_values_error-IsRequest (object (field key value rest)) = (
  λ h. entries (is_number value) refl ((check_entries_iff (is_number value) _).0 h),
  λ h. (check_entries_iff (is_number value) (field key value rest)).1 (h.0, family h.1),
)
  where
    entries :
        (b : Bool)
        → is_number value ≡ b
        → AllAllowed (field key value rest) × AllNumbers (is_number value) (field key value rest)
        → IsRequest (object (field key value rest))
    entries true e h = (h.0, inl (e, subst (λ b. AllNumbers b rest) e h.1.1))
    entries false e h = (h.0, inr (e, subst (λ b. AllNumbers b rest) e h.1.1))

    family :
        AllNumbers true (field key value rest) ⊎ AllNumbers false (field key value rest)
        → AllNumbers (is_number value) (field key value rest)
    family (inl n) = (refl, subst (λ b. AllNumbers b rest) (sym n.0) n.1)
    family (inr n) = (refl, subst (λ b. AllNumbers b rest) (sym n.0) n.1)
control_values_error-IsRequest (object end) = (λ h. cc, λ h. absurd h)
control_values_error-IsRequest null = (λ h. cc, λ h. absurd h)
control_values_error-IsRequest (boolean b) = (λ h. cc, λ h. absurd h)
control_values_error-IsRequest (integer i) = (λ h. cc, λ h. absurd h)
control_values_error-IsRequest (floating d) = (λ h. cc, λ h. absurd h)
control_values_error-IsRequest (string s) = (λ h. cc, λ h. absurd h)
control_values_error-IsRequest (array xs) = (λ h. cc, λ h. absurd h)
