-- ===== src/Automation/Schedule/Conflicts.antt =====
-- Registered schedules never contend for one moment.
use mathlib.Core.Path.{subst}
use air_ctrl_desklet.Prelude.{
  inl, inr, sym, append-nil, ℕ, ◌≡◌, refl, Bool, true, false, List, [], ◌∷◌, ◌++◌, String, nat_eq,
  arith, any, All, All-append, Bool-cases, append_assoc,
}
use air_ctrl_desklet.Automation.Types.{Schedule, ScheduleTable}
use air_ctrl_desklet.Automation.Table.{Result, ok, err, ◌>>=◌, refuse_if}
use air_ctrl_desklet.Automation.Schedule.{
  conflicts, conflicting, refuse_conflict, check_additions, lua_schedule, header, read_additions,
}

-- A successful chain of checks, taken apart.
pub first_passed {ℓ κ} :
    {A : Type ℓ} {C : Type κ} (check : Result A) (rest : A → Result C) {result : C}
    → (check >>= rest) ≡ ok result
    → (value : A) × (check ≡ ok value) × (rest value ≡ ok result)
first_passed (err problem) rest passed = cc
first_passed (ok value) rest passed = (value, refl, passed)

pub refuse_if-eq-ok : (b : Bool) (e : String) {u : Unit {0}} → refuse_if b e ≡ ok u → b ≡ false
refuse_if-eq-ok true e h = cc
refuse_if-eq-ok false e h = refl

-- No two schedules of the list fire at one minute of one weekday.
abbrev pub Apart : List Schedule → Type 0
Apart [] = Unit
Apart (s ∷ ss) = All (λ t. conflicts s t ≡ false) ss × Apart ss

Apart-append :
    (xs : List Schedule) (a : Schedule)
    → Apart xs
    → All (λ s. conflicts s a ≡ false) xs
    → Apart (xs ++ a ∷ [])
Apart-append [] a h k = (tt, tt)
Apart-append (x ∷ xs) a h k = (All-append _ xs (a ∷ []) h.0 (k.0, tt), Apart-append xs a h.1 k.1)

not_conflicting :
    (text : List ℕ → String) (a : Schedule) (ss : List Schedule)
    → refuse_conflict text a (conflicting a ss) ≡ ok tt
    → All (λ s. conflicts s a ≡ false) ss
unfolding conflicting refuse_conflict
not_conflicting text a [] h = tt
not_conflicting text a (s ∷ ss) h = elim (Bool-cases (conflicts s a)) [
  | inl e ↦ absurd (refused e)
  | inr n ↦ (n, not_conflicting text a ss (ground arith))
]
  where
    refused : conflicts s a ≡ true → ⊥
    refused e = ground arith

none_of_earlier :
    (a : Schedule) (ss : List Schedule)
    → any (λ s. conflicts s a) ss ≡ false
    → All (λ s. conflicts s a ≡ false) ss
none_of_earlier a [] h = tt
none_of_earlier a (s ∷ ss) h = (ground arith, none_of_earlier a ss (ground arith))

check_additions-Apart :
    (text : List ℕ → String) (existing earlier rest : List Schedule)
    → Apart (existing ++ earlier)
    → check_additions text existing earlier rest ≡ ok tt
    → Apart (existing ++ (earlier ++ rest))
unfolding check_additions
check_additions-Apart text existing earlier [] h c =
    subst (λ ss. Apart (existing ++ ss)) (sym (append-nil earlier)) h
check_additions-Apart text existing earlier (a ∷ rest) h c =
    let (_, clear, c1) = first_passed (refuse_conflict text a (conflicting a existing)) _ c in
    let (_, own, c2) = first_passed (refuse_if (any (λ s. conflicts s a) earlier) _) _ c1 in
    let apart =
      All-append _ existing earlier (not_conflicting text a existing clear)
        (none_of_earlier a earlier (refuse_if-eq-ok _ _ own)) in
    let longer =
      subst Apart (append_assoc existing earlier (a ∷ []))
        (Apart-append (existing ++ earlier) a h apart) in
    subst (λ ss. Apart (existing ++ ss)) (append_assoc earlier (a ∷ []) rest)
      (check_additions-Apart text existing (earlier ++ a ∷ []) rest longer c2)

-- Whatever a script registers, a call that succeeds keeps the schedules apart: no two of them have the
-- same hour and minute on a common weekday, so the latest due one is unique.
pub lua_schedule-Apart :
    (text : List ℕ → String) (named existing : List Schedule) (t : ScheduleTable)
    (ss : List Schedule)
    → Apart existing
    → lua_schedule text named existing t ≡ ok ss
    → Apart ss
unfolding lua_schedule
lua_schedule-Apart text named existing t ss h e =
    let (_, _, e1) = first_passed (header text named t) _ e in
    let (additions, _, e2) = first_passed (read_additions t) _ e1 in
    let (_, c, e3) = first_passed (check_additions text existing [] additions) _ e2 in
    subst Apart (some_ok e3) (
      check_additions-Apart text existing [] additions (subst Apart (sym (append-nil existing)) h)
        c)
  where
    some_ok : {xs ys : List Schedule} → ok xs ≡ ok ys → xs ≡ ys
    some_ok p = cc
