-- ===== src/Desklet/Alerts/Reports.antt =====
-- How often AlertLatch reports an alert (src/client/alerts.cpp).
use air_ctrl_desklet.Prelude.{
  ℕ, ◌+◌, ◌≤◌, ◌<◌, ◌≡◌, ap, true, false, List, [], ◌∷◌, ◌++◌, String, ◌==◌, string_eq,
  if◌then◌else◌, ltb, All, arith, if-cases, eq_iff,
}
use air_ctrl_desklet.Desklet.Alerts.{
  AlertLevel, no_alert, warning, error, Alert, level_number, value, put, AlertLatch, is_active,
  raised, note_all, update,
}
use air_ctrl_desklet.Desklet.Alerts.Latch.{
  highest_level, value-put, value-note_all, value-forget_gone,
}

-- How many of the alerts have the key.
abbrev pub count : String → List Alert → ℕ
count key [] = 0
count key (a ∷ alerts) = (if a.key == key then 1 else 0) + count key alerts

count-append :
    (key : String) (xs ys : List Alert) → count key (xs ++ ys) ≡ count key xs + count key ys
count-append key [] ys = omega arith
count-append key (x ∷ xs) ys = let rest = count-append key xs ys in ground arith

abbrev Counted : String → List Alert → List (String × ℕ) → Type 0
Counted key active notified =
    let noted = note_all active notified in
    (count key noted.0 + value key notified ≤ value key noted.1)
    × (value key notified < highest_level key active → 1 ≤ count key noted.0)

note_all-Counted :
    (key : String) (active : List Alert) (notified : List (String × ℕ))
    → Counted key active notified
unfolding note_all
note_all-Counted key [] notified = (ground arith, λ h. ground arith)
note_all-Counted key (a ∷ active) notified =
    let rest = note_all-Counted key active (put a.key (raised a notified) notified) in
    let increase = value-put key a.key (raised a notified) notified in
    let own = λ (e : a.key == key ≡ true). ap (λ l. value l notified) ((eq_iff a.key key).0 e) in
    if-cases
      (λ fresh.
        (count key fresh + value key notified
          ≤ value key (note_all active (put a.key (raised a notified) notified)).1)
        × (value key notified < highest_level key (a ∷ active) → 1 ≤ count key fresh))
      (ltb (value a.key notified) (level_number a.level)) (λ e. (ground arith, λ h. ground arith))
      (λ e. (ground arith, λ h. ground arith))

-- Updates one after the other, with all that they report.
unfoldable pub updates : List (List Alert) → AlertLatch → List Alert × AlertLatch
unfolding update
updates [] latch = ([], latch)
updates (active ∷ rounds) latch =
    let now = update active latch in let rest = updates rounds now.1 in (now.0 ++ rest.0, rest.1)

abbrev pub new_latch : AlertLatch
new_latch = record { notified = []; acknowledged = [] }

level_bound : (level : AlertLevel) → level_number level ≤ 2
level_bound no_alert = omega arith
level_bound warning = omega arith
level_bound error = omega arith

highest_level_bound : (key : String) (active : List Alert) → highest_level key active ≤ 2
highest_level_bound key [] = omega arith
highest_level_bound key (a ∷ active) =
    let rest = highest_level_bound key active in let own = level_bound a.level in ground arith

update_bound :
    (key : String) (active : List Alert) (latch : AlertLatch)
    → value key latch.notified ≤ 2
    → value key (update active latch).1.notified ≤ 2
unfolding update
update_bound key active latch h =
    let kept = value-forget_gone key active (note_all active latch.notified).1 latch.acknowledged in
    let noted = value-note_all key active latch.notified in
    let bound = highest_level_bound key active in ground arith

updates_bound :
    (key : String) (rounds : List (List Alert)) (latch : AlertLatch)
    → value key latch.notified ≤ 2
    → value key (updates rounds latch).1.notified ≤ 2
unfolding updates
updates_bound key [] latch h = h
updates_bound key (active ∷ rounds) latch h =
    updates_bound key rounds (update active latch).1 (update_bound key active latch h)

update-count :
    (key : String) (active : List Alert) (latch : AlertLatch)
    → is_active key active ≡ true
    → count key (update active latch).0 + value key latch.notified
      ≤ value key (update active latch).1.notified
unfolding update
update-count key active latch h =
    let kept = value-forget_gone key active (note_all active latch.notified).1 latch.acknowledged in
    let counted = (note_all-Counted key active latch.notified).0 in ground arith

updates-count :
    (key : String) (rounds : List (List Alert)) (latch : AlertLatch)
    → All (λ active. is_active key active ≡ true) rounds
    → count key (updates rounds latch).0 + value key latch.notified
      ≤ value key (updates rounds latch).1.notified
unfolding updates
updates-count key [] latch h = ground arith
updates-count key (active ∷ rounds) latch h =
    let now = update-count key active latch h.0 in
    let rest = updates-count key rounds (update active latch).1 h.1 in
    let both =
      count-append key (update active latch).0 (updates rounds (update active latch).1).0 in
    ground arith

reports_bounded :
    (key : String) (earlier rounds : List (List Alert))
    → All (λ active. is_active key active ≡ true) rounds
    → count key (updates rounds (updates earlier new_latch).1).0 ≤ 2
unfolding value
reports_bounded key earlier rounds h =
    let latch = (updates earlier new_latch).1 in
    let start = updates_bound key earlier new_latch (omega arith) in
    let total = updates-count key rounds latch h in
    let bound = updates_bound key rounds latch start in ground arith

reported_again :
    (key : String) (gone active : List Alert) (latch : AlertLatch)
    → is_active key gone ≡ false
    → 1 ≤ highest_level key active
    → 1 ≤ count key (update active (update gone latch).1).0
unfolding update
reported_again key gone active latch g h =
    let kept = value-forget_gone key gone (note_all gone latch.notified).1 latch.acknowledged in
    (note_all-Counted key active (update gone latch).1.notified).1 (ground arith)

-- Whatever a new latch was updated with before: while an alert stays active, it is reported at most
-- twice, as a warning and as an error; and once it was gone, it is reported when it is active again with
-- a level above none.
pub updates-reports :
    (key : String) (earlier rounds : List (List Alert)) (gone active : List Alert)
    → All (λ active. is_active key active ≡ true) rounds
    → is_active key gone ≡ false
    → 1 ≤ highest_level key active
    → let during = updates rounds (updates earlier new_latch).1 in
      (count key during.0 ≤ 2) × (1 ≤ count key (update active (update gone during.1).1).0)
updates-reports key earlier rounds gone active h g a = (
  reports_bounded key earlier rounds h,
  reported_again key gone active (updates rounds (updates earlier new_latch).1).1 g a,
)
