-- ===== src/ControlValues/Table.antt =====
-- The control values of the AC2729 protocol as a table, and that the allow-list of
-- src/common/control_values.cpp is that table.
use air_ctrl_desklet.Prelude.{
  ℕ, ◌≡◌, refl, sym, inl, inr, Bool, true, false, List, [], ◌∷◌, Option, none, some, String, ◌==◌,
  arith, eq_iff, Bool-cases, if◌then◌else◌, nat_eq, string_eq, any,
}
use mathlib.Core.Path.{subst}
use air_ctrl_desklet.Json.{Json, boolean, integer, floating, string}
use air_ctrl_desklet.ControlValues.{number_is, is_count_upto, number_test, is_valid}

-- What a key of the protocol takes.
pub data Domain : Type 0 where
  texts : List String → Domain
  switch : Domain
  levels : List ℕ → Domain
  counts : ℕ → Domain

unfoldable pub domain : String → Option Domain
domain key =
    if key == "pwr"
    then some (texts ("0" ∷ "1" ∷ []))
    else if key == "cl"
    then some switch
    else if key == "mode"
    then some (texts ("P" ∷ "A" ∷ "S" ∷ "M" ∷ []))
    else if key == "om"
    then some (texts ("1" ∷ "2" ∷ "3" ∷ "s" ∷ "t" ∷ []))
    else if key == "func"
    then some (texts ("P" ∷ "PH" ∷ []))
    else if key == "uil"
    then some (texts ("0" ∷ "1" ∷ []))
    else if key == "rhset"
    then some (levels (40 ∷ 50 ∷ 60 ∷ 70 ∷ []))
    else if key == "aqil"
    then some (levels (0 ∷ 25 ∷ 50 ∷ 75 ∷ 100 ∷ []))
    else if key == "dt"
    then some (counts 12)
    else none

abbrev pub fits : Option Domain → Json → Bool
fits (some (texts ts)) (string s) = any (λ t. s == t) ts
fits (some switch) (boolean b) = true
fits (some (levels ns)) v = number_test (λ d. any (number_is d) ns) v
fits (some (counts n)) v = number_test (λ d. is_count_upto d n) v
fits _ v = false

abbrev AtKey : String → Type 0
AtKey key = (v : Json) → is_valid key v ≡ fits (domain key) v

at_pwr : AtKey "pwr"
unfolding is_valid domain
at_pwr (string s) = ground arith
at_pwr _ = refl

at_cl : AtKey "cl"
unfolding is_valid domain
at_cl (string s) = refl
at_cl _ = refl

at_mode : AtKey "mode"
unfolding is_valid domain
at_mode (string s) = ground arith
at_mode _ = refl

at_om : AtKey "om"
unfolding is_valid domain
at_om (string s) = ground arith
at_om _ = refl

at_func : AtKey "func"
unfolding is_valid domain
at_func (string s) = ground arith
at_func _ = refl

at_uil : AtKey "uil"
unfolding is_valid domain
at_uil (string s) = ground arith
at_uil _ = refl

at_rhset : AtKey "rhset"
unfolding is_valid domain
at_rhset (integer i) = ground arith
at_rhset (floating d) = ground arith
at_rhset _ = refl

at_aqil : AtKey "aqil"
unfolding is_valid domain
at_aqil (integer i) = ground arith
at_aqil (floating d) = ground arith
at_aqil _ = refl

at_dt : AtKey "dt"
unfolding is_valid domain
at_dt (integer i) = refl
at_dt (floating d) = refl
at_dt _ = refl

moved : (key k : String) → (key == k) ≡ true → AtKey k → AtKey key
moved key k e at = subst AtKey (sym ((eq_iff key k).0 e)) at

-- The long disjunction is the table, for every key and value.
pub is_valid-domain : (key : String) (v : Json) → is_valid key v ≡ fits (domain key) v
is_valid-domain key v = elim (Bool-cases (key == "pwr")) [
  | inl e ↦ moved key "pwr" e at_pwr v
  | inr n1 ↦ elim (Bool-cases (key == "cl")) [
    | inl e ↦ moved key "cl" e at_cl v
    | inr n2 ↦ elim (Bool-cases (key == "mode")) [
      | inl e ↦ moved key "mode" e at_mode v
      | inr n3 ↦ elim (Bool-cases (key == "om")) [
        | inl e ↦ moved key "om" e at_om v
        | inr n4 ↦ elim (Bool-cases (key == "func")) [
          | inl e ↦ moved key "func" e at_func v
          | inr n5 ↦ elim (Bool-cases (key == "uil")) [
            | inl e ↦ moved key "uil" e at_uil v
            | inr n6 ↦ elim (Bool-cases (key == "rhset")) [
              | inl e ↦ moved key "rhset" e at_rhset v
              | inr n7 ↦ elim (Bool-cases (key == "aqil")) [
                | inl e ↦ moved key "aqil" e at_aqil v
                | inr n8 ↦ elim (Bool-cases (key == "dt")) [
                  | inl e ↦ moved key "dt" e at_dt v
                  | inr n9 ↦ unfold is_valid domain in rw (n1, n2, n3, n4, n5, n6, n7, n8, n9)
                ]
              ]
            ]
          ]
        ]
      ]
    ]
  ]
]
