-- ===== src/Desklet/Alerts/Latch.antt =====
-- The incidents of AlertLatch (src/client/alerts.cpp).
use air_ctrl_desklet.Prelude.{
  ℕ, ◌≤◌, max, ◌≡◌, refl, ap, subst, ◌∙◌, Bool, true, false, not, ◌&&◌, List, [], ◌∷◌, String, ◌==◌,
  string_eq, if◌then◌else◌, any, arith, if-cases, eq_iff,
}
use air_ctrl_desklet.Desklet.Alerts.{
  Alert, level_number, value, put, remove, AlertLatch, is_active, raised, note_all, forget_gone,
  update,
}

-- The highest_level level among the active alerts of a key.
abbrev pub highest_level : String → List Alert → ℕ
highest_level key [] = 0
highest_level key (a ∷ active) =
    if a.key == key
    then max (level_number a.level) (highest_level key active)
    else highest_level key active

other_name : (i j k : String) → i == j ≡ false → j == k ≡ true → i == k ≡ false
other_name i j k h e = subst (λ l. i == l ≡ false) ((eq_iff j k).0 e) h

same_name : (i j k : String) → i == j ≡ true → i == k ≡ j == k
same_name i j k e = ap (λ l. l == k) ((eq_iff i j).0 e)

pub value-put :
    (key : String) (k : String) (n : ℕ) (entries : List (String × ℕ))
    → value key (put k n entries) ≡ (if k == key then n else value key entries)
unfolding value put
value-put key k n [] = refl
value-put key k n ((i, m) ∷ entries) =
    let rest = value-put key k n entries in
    if-cases
      (λ l. value key l ≡ (if k == key then n else (if i == key then m else value key entries)))
      (i == k) (λ e. let s = same_name i k key e in ground arith)
      (λ e.
        if-cases (λ v. (if i == key then m else value key (put k n entries)) ≡ v) (k == key)
          (λ f. let o = other_name i k key e f in ground arith) (λ f. ground arith))

pub value-note_all :
    (key : String) (active : List Alert) (notified : List (String × ℕ))
    → value key (note_all active notified).1 ≡ max (value key notified) (highest_level key active)
unfolding value put note_all
value-note_all key [] notified = ground arith
value-note_all key (a ∷ active) notified =
    value-note_all key active (put a.key (raised a notified) notified)
    ∙ ap (λ n. max n (highest_level key active)) (value-put key a.key (raised a notified) notified)
    ∙ if-cases
        (λ h.
          max (if a.key == key then raised a notified else value key notified)
            (highest_level key active)
          ≡ max (value key notified) h)
        (a.key == key)
        (λ e. let s = ap (λ l. value l notified) ((eq_iff a.key key).0 e) in ground arith)
        (λ e. ground arith)

same_active :
    (j k : String) (active : List Alert) → j == k ≡ true → is_active j active ≡ is_active k active
same_active j k active e = ap (λ l. is_active l active) ((eq_iff j k).0 e)

pub value-forget_gone :
    (key : String) (active : List Alert) (notified acknowledged : List (String × ℕ))
    → value key (forget_gone active notified acknowledged).notified
      ≡ (if is_active key active then value key notified else 0)
unfolding value forget_gone
value-forget_gone key active [] acknowledged = ground arith
value-forget_gone key active ((k, n) ∷ notified) acknowledged =
    let rest =
      value-forget_gone key active notified
        (if is_active k active then acknowledged else remove k acknowledged) in
    if-cases
      (λ v.
        value key (forget_gone active ((k, n) ∷ notified) acknowledged).notified
        ≡ (if is_active key active then v else 0))
      (k == key) (λ e. let s = same_active k key active e in ground arith) (λ e. ground arith)

value-remove :
    (key : String) (k : String) (entries : List (String × ℕ))
    → value key (remove k entries) ≡ (if k == key then 0 else value key entries)
unfolding value remove
value-remove key k [] = ground arith
value-remove key k ((i, m) ∷ entries) =
    let rest = value-remove key k entries in
    if-cases
      (λ l. value key l ≡ (if k == key then 0 else (if i == key then m else value key entries)))
      (i == k) (λ e. let s = same_name i k key e in ground arith)
      (λ e.
        if-cases (λ v. (if i == key then m else value key (remove k entries)) ≡ v) (k == key)
          (λ f. let o = other_name i k key e f in ground arith) (λ f. ground arith))

abbrev has_key : String → List (String × ℕ) → Bool
has_key key = any (λ entry. entry.0 == key)

no_key :
    (key : String) (entries : List (String × ℕ))
    → has_key key entries ≡ false
    → value key entries ≡ 0
unfolding value
no_key key [] h = refl
no_key key ((k, n) ∷ entries) h = let rest = no_key key entries in ground arith

not_active :
    (key : String) (active : List Alert)
    → is_active key active ≡ false
    → highest_level key active ≡ 0
not_active key [] h = refl
not_active key (a ∷ active) h = let rest = not_active key active in ground arith

forgotten :
    (key : String) (active : List Alert) (notified acknowledged : List (String × ℕ))
    → value key (forget_gone active notified acknowledged).acknowledged
      ≡ (if not (is_active key active) && has_key key notified then 0 else value key acknowledged)
unfolding forget_gone
forgotten key active [] acknowledged = ground arith
forgotten key active ((k, n) ∷ notified) acknowledged =
    forgotten key active notified
      (if is_active k active then acknowledged else remove k acknowledged)
    ∙ if-cases
        (λ l. (if not (is_active key active) && has_key key notified then 0 else value key l) ≡ (
          if not (is_active key active) && has_key key ((k, n) ∷ notified)
          then 0
          else value key acknowledged))
        (is_active k active) (λ e. let s = same_active k key active in ground arith)
        (λ e.
          let r = value-remove key k acknowledged in
          let s = same_active k key active in ground arith)

-- What the latch knows of one key.
abbrev pub incident : String → AlertLatch → ℕ × ℕ
incident key latch = (value key latch.notified, value key latch.acknowledged)

-- The incident of one key by itself: it is raised to the highest_level level of its alerts, and ends when
-- there are none.
abbrev pub next_incident : String → List Alert → ℕ × ℕ → ℕ × ℕ
next_incident key active (notified, acknowledged) =
    if is_active key active then (max notified (highest_level key active), acknowledged) else (0, 0)

-- If no higher level of a key was acknowledged than was notified, an update does to the incident of that
-- key what it would do to it alone.
pub update-next_incident :
    (key : String) (active : List Alert) (latch : AlertLatch)
    → value key latch.acknowledged ≤ value key latch.notified
    → incident key (update active latch).1 ≡ next_incident key active (incident key latch)
unfolding update
update-next_incident key active latch h =
    let noted = value-note_all key active latch.notified in
    let kept = value-forget_gone key active (note_all active latch.notified).1 latch.acknowledged in
    let acks = forgotten key active (note_all active latch.notified).1 latch.acknowledged in
    let absent = no_key key (note_all active latch.notified).1 in
    let gone = not_active key active in ground arith
