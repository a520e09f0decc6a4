-- ===== src/Automation/Schedule.antt =====
-- AutomationEngine::luaSchedule of src/server/automation.cpp. Texts are byte lists; `text` turns them
-- into the strings of error messages.
pub mod Conflicts
pub mod Values
use air_ctrl_desklet.Prelude.{
  ℕ, ◌+◌, ◌-◌, ◌*◌, ◌^◌, ◌%◌, Bool, true, false, not, ◌&&◌, ◌||◌, List, [], ◌∷◌, ◌++◌, Option, none,
  some, String, ◌==◌, if◌then◌else◌, nat_eq, ltb, leb, length, any, all, concat, is_empty, is_some,
}
use air_ctrl_desklet.Prelude.Int.{ℤ, pos, negsuc}
use air_ctrl_desklet.Json.{Json}
use air_ctrl_desklet.Automation.Types.{
  DaysField, all_days, days_no_table, day_list, FlagField, no_flag, flag, wrong_flag, ScheduleTable,
  Schedule, LuaArgument,
}
use air_ctrl_desklet.Automation.Table.{Result, ok, err, ◌>>=◌, ◌>>◌, refuse_if, simple_table}

abbrev pub bytes_beq : List ℕ → List ℕ → Bool
bytes_beq [] [] = true
bytes_beq (a ∷ as') (b ∷ bs) = a == b && bytes_beq as' bs
bytes_beq _ _ = false

-- std::string::operator<
abbrev pub bytes_ltb : List ℕ → List ℕ → Bool
bytes_ltb [] [] = false
bytes_ltb [] (b ∷ bs) = true
bytes_ltb (a ∷ as') [] = false
bytes_ltb (a ∷ as') (b ∷ bs) = ltb a b || a == b && bytes_ltb as' bs

abbrev between_bytes : ℕ → ℕ → ℕ → Bool
between_bytes low high b = leb low b && leb b high

-- [A-Za-z0-9_./-]
name_byte : ℕ → Bool
name_byte b =
    between_bytes b'A' b'Z' b
    || between_bytes b'a' b'z' b
    || between_bytes b'0' b'9' b
    || b == b'_'
    || b == b'.'
    || b == b'/'
    || b == b'-'

-- ^[A-Za-z0-9_./-]{1,64}$
valid_name : List ℕ → Bool
unfolding name_byte
valid_name name = leb 1 (length name) && leb (length name) 64 && all name_byte name

-- ([01][0-9]|2[0-3]):[0-5][0-9]
unfoldable pub valid_clock : ℕ → ℕ → ℕ → ℕ → ℕ → Bool
valid_clock h1 h2 colon m1 m2 =
    (between_bytes b'0' b'1' h1 && between_bytes b'0' b'9' h2
      || h1 == b'2' && between_bytes b'0' b'3' h2)
    && colon == b':'
    && between_bytes b'0' b'5' m1
    && between_bytes b'0' b'9' m2

valid_time : List ℕ → Bool
unfolding valid_clock
valid_time (h1 ∷ h2 ∷ colon ∷ m1 ∷ m2 ∷ []) = valid_clock h1 h2 colon m1 m2
valid_time _ = false

valid_range : List ℕ → Bool
unfolding valid_clock
valid_range (h1 ∷ h2 ∷ c ∷ m1 ∷ m2 ∷ dash ∷ k1 ∷ k2 ∷ d ∷ n1 ∷ n2 ∷ []) =
    valid_clock h1 h2 c m1 m2 && dash == b'-' && valid_clock k1 k2 d n1 n2
valid_range _ = false

-- The number of different names, as the size of a std::set.
abbrev pub member : List ℕ → List (List ℕ) → Bool
member name names = any (bytes_beq name) names

unfoldable pub existing_names : List Schedule → List (List ℕ)
existing_names [] = []
existing_names (s ∷ ss) =
    let names = existing_names ss in if member s.name names then names else s.name ∷ names

-- static_cast<int> of a 64-bit integer, as the bit pattern of the result.
abbrev int_bits : ℤ → ℕ
int_bits (pos n) = n % 2 ^ 32
int_bits (negsuc n) = 2 ^ 32 - 1 - n % 2 ^ 32

-- std::set<int>::insert
abbrev pub insert_day : ℕ → List ℕ → List ℕ
insert_day d [] = d ∷ []
insert_day d (e ∷ es) =
    if ltb d e then d ∷ e ∷ es else if d == e then e ∷ es else e ∷ insert_day d es

collect_days : List (Option ℤ) → List ℕ → Result (List ℕ)
collect_days [] days = ok days
collect_days (none ∷ rest) days = err "number expected"
collect_days (some i ∷ rest) days =
    let more = collect_days rest (insert_day (int_bits i) days) in
    if leb 1 (int_bits i) && leb (int_bits i) 7
    then more
    else err "schedule.days: Wochentage 1 bis 7 erwartet"

abbrev pub week : List ℕ
week = 1 ∷ 2 ∷ 3 ∷ 4 ∷ 5 ∷ 6 ∷ 7 ∷ []

read_days : DaysField → Result (List ℕ)
unfolding collect_days
read_days all_days = ok week
read_days days_no_table = err "schedule.days: Tabelle erwartet"
read_days (day_list elements) = do
  days ← collect_days elements []
  refuse_if (is_empty days) "schedule.days darf nicht leer sein"
  ok days

read_flag : FlagField → Result Bool
read_flag no_flag = ok true
read_flag (flag b) = ok b
read_flag wrong_flag = err "schedule.catch_up: Boolean erwartet"

-- fieldValues: a problem of a table is reported with the field's name.
abbrev labelled {ℓ} : {A : Type ℓ} → String → Result A → Result A
labelled label (ok a) = ok a
labelled label (err e) = err (concat (label ∷ e ∷ []))

-- std::stoi of two decimal digits
abbrev two_digits : ℕ → ℕ → ℕ
two_digits a b = (a - b'0') * 10 + (b - b'0')

make_schedule : ScheduleTable → Bool → List ℕ → List ℕ → Json → Option String → Schedule
make_schedule t catch_up (h1 ∷ h2 ∷ colon ∷ m1 ∷ m2 ∷ rest) days values phase = record {
  name = t.name;
  phase = phase;
  hour = two_digits h1 h2;
  minute = two_digits m1 m2;
  days = days;
  values = values;
  catch_up = catch_up;
}
make_schedule t catch_up _ days values phase = record {
  name = t.name;
  phase = phase;
  hour = 0;
  minute = 0;
  days = days;
  values = values;
  catch_up = catch_up;
}

-- std::set_intersection is not empty
abbrev pub share_day : List ℕ → List ℕ → Bool
share_day xs ys = any (λ x. any (λ y. x == y) ys) xs

unfoldable pub conflicts : Schedule → Schedule → Bool
conflicts a b = a.hour == b.hour && a.minute == b.minute && share_day a.days b.days

abbrev next_day : ℕ → ℕ
next_day d = if d == 7 then 1 else d + 1

next_days : List ℕ → List ℕ
next_days [] = []
next_days (d ∷ ds) = insert_day (next_day d) (next_days ds)

-- The first and the second half of a checked range.
abbrev first_clock : List ℕ → List ℕ
first_clock (h1 ∷ h2 ∷ c ∷ m1 ∷ m2 ∷ rest) = h1 ∷ h2 ∷ c ∷ m1 ∷ m2 ∷ []
first_clock _ = []

abbrev second_clock : List ℕ → List ℕ
second_clock (h1 ∷ h2 ∷ c ∷ m1 ∷ m2 ∷ dash ∷ rest) = rest
second_clock _ = []

-- The checks up to the duplicate name.
header : (List ℕ → String) → List Schedule → ScheduleTable → Result (Unit {0})
unfolding valid_name valid_time valid_range existing_names
header text existing t = do
  refuse_if (not (valid_name t.name)) "schedule.name: 1-64 Zeichen aus A-Z, a-z, 0-9, _./- erwartet"
  refuse_if
      (is_empty t.at_time && is_empty t.between
        || not (is_empty t.at_time) && not (is_empty t.between))
      "schedule: genau at oder between angeben"
  refuse_if (not (is_empty t.at_time) && not (valid_time t.at_time)) "schedule.at: HH:MM erwartet"
  refuse_if (not (is_empty t.between) && not (valid_range t.between))
      "schedule.between: HH:MM-HH:MM erwartet"
  refuse_if (leb 64 (length (existing_names existing))) "höchstens 64 Zeitpläne erlaubt"
  refuse_if (any (λ s. bytes_beq s.name t.name) existing)
      (concat ("doppelter Zeitplanname: " ∷ text t.name ∷ []))

at_additions : ScheduleTable → List ℕ → Bool → Json → Result (List Schedule)
unfolding make_schedule
at_additions t days catch_up inside = do
  refuse_if (is_some t.outside) "schedule.outside ist nur mit between erlaubt"
  ok (make_schedule t catch_up t.at_time days inside none ∷ [])

-- The field `outside`, where it is absent, is no table.
outside_values : Option LuaArgument → Result Json
outside_values none = err "Tabelle mit Steuerwerten erwartet."
outside_values (some a) = simple_table a

between_additions : ScheduleTable → List ℕ → Bool → Json → Result (List Schedule)
unfolding make_schedule next_days outside_values
between_additions t days catch_up inside = do
  let start = first_clock t.between
  let stop = second_clock t.between
  refuse_if (bytes_beq start stop) "schedule.between darf nicht bei derselben Uhrzeit enden"
  outside ← labelled "schedule.outside: " (outside_values t.outside)
  let stop_days = if bytes_ltb stop start then next_days days else days
  ok (
      make_schedule t catch_up start days inside (some "Beginn")
      ∷ make_schedule t catch_up stop stop_days outside (some "Ende")
      ∷ [])

read_additions : ScheduleTable → Result (List Schedule)
unfolding read_days read_flag at_additions between_additions
read_additions t = do
  days ← read_days t.days
  catch_up ← read_flag t.catch_up
  inside ← labelled "schedule.set: " (simple_table t.set_values)
  if is_empty t.at_time
      then between_additions t days catch_up inside
      else at_additions t days catch_up inside

schedule_label : (List ℕ → String) → Schedule → String
schedule_label text s = elim s.phase [
  | none ↦ text s.name
  | some phase ↦ concat (text s.name ∷ " (" ∷ phase ∷ ")" ∷ [])
]

conflicting : Schedule → List Schedule → Option Schedule
conflicting a [] = none
conflicting a (s ∷ ss) = if conflicts s a then some s else conflicting a ss

refuse_conflict : (List ℕ → String) → Schedule → Option Schedule → Result (Unit {0})
refuse_conflict text a none = ok tt
refuse_conflict text a (some s) = err (
    concat (
      "Zeitpläne "
      ∷ schedule_label text s
      ∷ " und "
      ∷ schedule_label text a
      ∷ " überschneiden sich zur selben Uhrzeit"
      ∷ []))

check_additions :
    (List ℕ → String) → List Schedule → List Schedule → List Schedule → Result (Unit {0})
unfolding conflicting refuse_conflict schedule_label
check_additions text existing earlier [] = ok tt
check_additions text existing earlier (a ∷ rest) = do
  refuse_conflict text a (conflicting a existing)
  refuse_if (any (λ s. conflicts s a) earlier)
      (concat ("Zeitplan " ∷ text a.name ∷ " besitzt zwei gleiche Schaltzeitpunkte" ∷ []))
  check_additions text existing (earlier ++ a ∷ []) rest

-- The schedules after the call, or the Lua error that it raises. The name is compared with the schedules
-- when the call begins, and the times with those when the fields are read: a metamethod of the table may
-- have registered others in between.
unfoldable pub lua_schedule :
    (List ℕ → String) → List Schedule → List Schedule → ScheduleTable → Result (List Schedule)
unfolding header read_additions check_additions
lua_schedule text named existing t = do
  header text named t
  additions ← read_additions t
  check_additions text existing [] additions
  ok (existing ++ additions)
