-- ===== src/Desklet/Alerts.antt =====
-- dataFreshness, alertReport and AlertLatch (src/client/alerts.cpp). A QMap is an association list in
-- which no key stands twice.
use air_ctrl_desklet.Prelude.{
  ℕ, max, Bool, true, false, List, [], ◌∷◌, String, ◌==◌, string_eq, if◌then◌else◌, ltb, leb, any,
}
use air_ctrl_desklet.Prelude.Int.{ℤ, pos, negsuc}
pub mod Latch
pub mod Reports
pub mod Incidents

pub data AlertLevel : Type 0 where
  no_alert warning error : AlertLevel

pub data DataFreshness : Type 0 where
  waiting fresh aging stale blinking : DataFreshness

pub record Alert : Type 0 where
  pub key : String
  pub level : AlertLevel
  pub message : String

abbrev pub at_least : ℤ → ℤ → Bool
at_least (pos n) (pos limit) = leb limit n
at_least (pos n) (negsuc limit) = true
at_least (negsuc n) (pos limit) = false
at_least (negsuc n) (negsuc limit) = leb n limit

abbrev pub is_negative : ℤ → Bool
is_negative (pos n) = false
is_negative (negsuc n) = true

unfoldable pub data_freshness : ℤ → ℤ → ℤ → ℤ → DataFreshness
data_freshness seconds warning_after stale_after blink_after =
    if is_negative seconds
    then waiting
    else if at_least seconds blink_after
    then blinking
    else if at_least seconds stale_after
    then stale
    else if at_least seconds warning_after
    then aging
    else fresh

-- int(alert.level)
abbrev pub level_number : AlertLevel → ℕ
level_number no_alert = 0
level_number warning = 1
level_number error = 2

-- value(key, 0)
unfoldable pub value : String → List (String × ℕ) → ℕ
value key [] = 0
value key ((k, n) ∷ entries) = if k == key then n else value key entries

-- entries[key] = n
unfoldable pub put : String → ℕ → List (String × ℕ) → List (String × ℕ)
put key n [] = (key, n) ∷ []
put key n ((k, m) ∷ entries) =
    let rest = put key n entries in if k == key then (key, n) ∷ entries else (k, m) ∷ rest

unfoldable pub remove : String → List (String × ℕ) → List (String × ℕ)
remove key [] = []
remove key ((k, n) ∷ entries) =
    let rest = remove key entries in if k == key then rest else (k, n) ∷ rest

pub record AlertLatch : Type 0 where
  pub notified : List (String × ℕ)
  pub acknowledged : List (String × ℕ)

-- keys.contains(key)
abbrev pub is_active : String → List Alert → Bool
is_active key active = any (λ a. a.key == key) active

abbrev pub raised : Alert → List (String × ℕ) → ℕ
unfolding value
raised a notified = max (level_number a.level) (value a.key notified)

-- The loop over the active alerts: those that are fresh, and the levels then.
unfoldable pub note_all : List Alert → List (String × ℕ) → List Alert × List (String × ℕ)
unfolding value put
note_all [] notified = ([], notified)
note_all (a ∷ active) notified =
    let rest = note_all active (put a.key (raised a notified) notified) in
    (if ltb (value a.key notified) (level_number a.level) then a ∷ rest.0 else rest.0, rest.1)

-- The loop over the levels: what is no longer active is forgotten, also as acknowledged.
unfoldable pub forget_gone : List Alert → List (String × ℕ) → List (String × ℕ) → AlertLatch
unfolding remove
forget_gone active [] acknowledged = record { notified = []; acknowledged = acknowledged }
forget_gone active ((k, n) ∷ notified) acknowledged =
    let rest =
      forget_gone active notified
        (if is_active k active then acknowledged else remove k acknowledged) in
    record rest { notified = if is_active k active then (k, n) ∷ rest.notified else rest.notified }

unfoldable pub update : List Alert → AlertLatch → List Alert × AlertLatch
unfolding note_all forget_gone
update active latch =
    let noted = note_all active latch.notified in
    (noted.0, forget_gone active noted.1 latch.acknowledged)

unfoldable pub acknowledge : List Alert → AlertLatch → AlertLatch
unfolding put
acknowledge [] latch = latch
acknowledge (a ∷ active) latch =
    acknowledge active
      (record latch { acknowledged = put a.key (level_number a.level) latch.acknowledged })

abbrev pub is_acknowledged : Alert → AlertLatch → Bool
unfolding value
is_acknowledged a latch = leb (level_number a.level) (value a.key latch.acknowledged)
