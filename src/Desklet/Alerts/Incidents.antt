-- ===== src/Desklet/Alerts/Incidents.antt =====
-- What updates and acknowledgements make of the incident of one key (src/client/alerts.cpp).
use air_ctrl_desklet.Prelude.{
  ℕ, ◌≤◌, max, ◌≡◌, refl, sym, ap, subst, ◌∙◌, Bool, true, false, List, [], ◌∷◌, String, ◌==◌,
  string_eq, if◌then◌else◌, arith,
}
use air_ctrl_desklet.Desklet.Alerts.{
  Alert, level_number, value, put, AlertLatch, is_active, update, acknowledge,
}
use air_ctrl_desklet.Desklet.Alerts.Latch.{
  highest_level, value-put, incident, next_incident, update-next_incident,
}
use air_ctrl_desklet.Desklet.Alerts.Reports.{new_latch}

-- The level that an acknowledgement of the alerts leaves for a key: that of the last one that has it.
abbrev pub last_level : String → List Alert → ℕ → ℕ
last_level key [] n = n
last_level key (a ∷ active) n =
    last_level key active (if a.key == key then level_number a.level else n)

last_level_bound :
    (key : String) (active : List Alert) (n : ℕ)
    → last_level key active n ≤ max n (highest_level key active)
last_level_bound key [] n = ground arith
last_level_bound key (a ∷ active) n =
    let rest = last_level_bound key active (if a.key == key then level_number a.level else n) in
    ground arith

acknowledge-incident :
    (key : String) (active : List Alert) (latch : AlertLatch)
    → incident key (acknowledge active latch)
      ≡ (value key latch.notified, last_level key active (value key latch.acknowledged))
unfolding acknowledge value
acknowledge-incident key [] latch = refl
acknowledge-incident key (a ∷ active) latch =
    acknowledge-incident key active
      (record latch { acknowledged = put a.key (level_number a.level) latch.acknowledged })
    ∙ ap (λ n. (value key latch.notified, last_level key active n))
        (value-put key a.key (level_number a.level) latch.acknowledged)

-- Updates one after the other; where the second part is true, the user acknowledges the alerts of the
-- update before the next one.
abbrev pub monitor : List (List Alert × Bool) → AlertLatch → AlertLatch
unfolding update acknowledge
monitor [] latch = latch
monitor ((active, confirmed) ∷ rounds) latch =
    let now = (update active latch).1 in
    monitor rounds (if confirmed then acknowledge active now else now)

-- The same for one key by itself.
abbrev pub monitor_incident : String → List (List Alert × Bool) → ℕ × ℕ → ℕ × ℕ
monitor_incident key [] state = state
monitor_incident key ((active, confirmed) ∷ rounds) state =
    let now = next_incident key active state in
    monitor_incident key rounds (if confirmed then (now.0, last_level key active now.1) else now)

round_incident :
    (key : String) (active : List Alert) (confirmed : Bool) (latch : AlertLatch)
    → value key latch.acknowledged ≤ value key latch.notified
    → let now = next_incident key active (incident key latch) in
      incident key
        (if confirmed then acknowledge active (update active latch).1 else (update active latch).1)
      ≡ (if confirmed then (now.0, last_level key active now.1) else now)
round_incident key active true latch h =
    acknowledge-incident key active (update active latch).1
    ∙ ap (λ i. (i.0, last_level key active i.1)) (update-next_incident key active latch h)
round_incident key active false latch h = update-next_incident key active latch h

no_last :
    (key : String) (active : List Alert) (n : ℕ)
    → is_active key active ≡ false
    → last_level key active n ≡ n
no_last key [] n h = refl
no_last key (a ∷ active) n h =
    let rest = no_last key active (if a.key == key then level_number a.level else n) in ground arith

round_bound :
    (key : String) (active : List Alert) (confirmed : Bool) (n a : ℕ)
    → a ≤ n
    → let now = next_incident key active (n, a) in
      let after = if confirmed then (now.0, last_level key active now.1) else now in
      after.1 ≤ after.0
round_bound key active true n a h =
    let bound = last_level_bound key active a in
    let none_there = no_last key active 0 in ground arith
round_bound key active false n a h = ground arith

monitor_from :
    (key : String) (rounds : List (List Alert × Bool)) (latch : AlertLatch)
    → value key latch.acknowledged ≤ value key latch.notified
    → incident key (monitor rounds latch) ≡ monitor_incident key rounds (incident key latch)
unfolding monitor
monitor_from key [] latch h = refl
monitor_from key ((active, confirmed) ∷ rounds) latch h =
    let after =
      if confirmed then acknowledge active (update active latch).1 else (update active latch).1 in
    let same = round_incident key active confirmed latch h in
    monitor_from key rounds after (
      subst (λ (i : ℕ × ℕ). i.1 ≤ i.0) (sym same)
        (round_bound key active confirmed (value key latch.notified) (value key latch.acknowledged)
          h))
    ∙ ap (monitor_incident key rounds) same

-- Whatever a new latch is updated with, and whenever the user acknowledges, what it knows of a key is
-- what becomes of the incident of that key alone, all other alerts left aside.
pub monitor-monitor_incident :
    (key : String) (rounds : List (List Alert × Bool))
    → incident key (monitor rounds new_latch) ≡ monitor_incident key rounds (0, 0)
unfolding value
monitor-monitor_incident key rounds = monitor_from key rounds new_latch (omega arith)
