-- ===== src/Automation/Schedule/Values.antt =====
-- What schedules will ask of the device has been checked when they were registered.
use air_ctrl_desklet.Prelude.{
  ◌≡◌, refl, sym, subst, Bool, true, false, List, [], ◌∷◌, Option, none, some, String, ℕ,
  if◌then◌else◌, is_empty, is_some, All, All-append,
}
use air_ctrl_desklet.Json.{Json}
use air_ctrl_desklet.ControlValues.Allowed.{IsRequest}
use air_ctrl_desklet.Automation.Types.{Schedule, ScheduleTable, LuaArgument}
use air_ctrl_desklet.Automation.Table.{
  Result, ok, err, refuse_if, simple_table, simple_table-IsRequest,
}
use air_ctrl_desklet.Automation.Schedule.{
  lua_schedule, header, read_additions, check_additions, at_additions, between_additions,
  make_schedule, outside_values, read_days, read_flag, labelled, bytes_beq, first_clock,
  second_clock,
}
use air_ctrl_desklet.Automation.Schedule.Conflicts.{first_passed}

-- All schedules of a list ask for requests that the device protocol allows.
abbrev pub AllRequests : List Schedule → Type 0
AllRequests = All (λ s. IsRequest s.values)

same_ok {ℓ} : {A : Type ℓ} {x y : A} → ok x ≡ ok y → x ≡ y
same_ok p = cc

of_labelled : (label : String) (m : Result Json) (j : Json) → labelled label m ≡ ok j → m ≡ ok j
of_labelled label (ok a) j h = h
of_labelled label (err e) j h = cc

values-make_schedule :
    (t : ScheduleTable) (catch_up : Bool) (clock days : List ℕ) (values : Json)
    (phase : Option String)
    → (make_schedule t catch_up clock days values phase).values ≡ values
unfolding make_schedule
values-make_schedule t catch_up [] days values phase = refl
values-make_schedule t catch_up (a ∷ []) days values phase = refl
values-make_schedule t catch_up (a ∷ b ∷ []) days values phase = refl
values-make_schedule t catch_up (a ∷ b ∷ c ∷ []) days values phase = refl
values-make_schedule t catch_up (a ∷ b ∷ c ∷ d ∷ []) days values phase = refl
values-make_schedule t catch_up (a ∷ b ∷ c ∷ d ∷ e ∷ rest) days values phase = refl

IsRequest-make_schedule :
    (t : ScheduleTable) (catch_up : Bool) (clock days : List ℕ) (values : Json)
    (phase : Option String)
    → IsRequest values
    → IsRequest (make_schedule t catch_up clock days values phase).values
IsRequest-make_schedule t catch_up clock days values phase r =
    subst IsRequest (sym (values-make_schedule t catch_up clock days values phase)) r

outside-IsRequest : (o : Option LuaArgument) (j : Json) → outside_values o ≡ ok j → IsRequest j
unfolding outside_values
outside-IsRequest none j h = cc
outside-IsRequest (some a) j h = simple_table-IsRequest a j h

at_additions-AllRequests :
    (t : ScheduleTable) (days : List ℕ) (catch_up : Bool) (inside : Json) (ss : List Schedule)
    → IsRequest inside
    → at_additions t days catch_up inside ≡ ok ss
    → AllRequests ss
unfolding at_additions
at_additions-AllRequests t days catch_up inside ss r e =
    let (_, _, e1) = first_passed (refuse_if (is_some t.outside) _) _ e in
    subst AllRequests (same_ok e1)
      (IsRequest-make_schedule t catch_up t.at_time days inside none r, tt)

both-AllRequests :
    (a b : Schedule) (ss : List Schedule)
    → IsRequest a.values
    → IsRequest b.values
    → ok (a ∷ b ∷ []) ≡ ok ss
    → AllRequests ss
both-AllRequests a b ss r q e = subst AllRequests (same_ok e) (r, (q, tt))

either-AllRequests :
    (b : Bool) (x y : Result (List Schedule)) (ss : List Schedule)
    → (x ≡ ok ss → AllRequests ss)
    → (y ≡ ok ss → AllRequests ss)
    → (if b then x else y) ≡ ok ss
    → AllRequests ss
either-AllRequests true x y ss f g e = f e
either-AllRequests false x y ss f g e = g e

between_additions-AllRequests :
    (t : ScheduleTable) (days : List ℕ) (catch_up : Bool) (inside : Json) (ss : List Schedule)
    → IsRequest inside
    → between_additions t days catch_up inside ≡ ok ss
    → AllRequests ss
unfolding between_additions
between_additions-AllRequests t days catch_up inside ss r e =
    let (_, _, e1) =
      first_passed (refuse_if (bytes_beq (first_clock t.between) (second_clock t.between)) _) _ e in
    let (outside, o, e2) =
      first_passed (labelled "schedule.outside: " (outside_values t.outside)) _ e1 in
    let allowed =
      outside-IsRequest t.outside outside (of_labelled _ (outside_values t.outside) outside o) in
    both-AllRequests _ _ ss (IsRequest-make_schedule t catch_up _ _ inside _ r)
      (IsRequest-make_schedule t catch_up _ _ outside _ allowed) e2

read_additions-AllRequests :
    (t : ScheduleTable) (ss : List Schedule) → read_additions t ≡ ok ss → AllRequests ss
unfolding read_additions
read_additions-AllRequests t ss e =
    let (days, _, e1) = first_passed (read_days t.days) _ e in
    let (catch_up, _, e2) = first_passed (read_flag t.catch_up) _ e1 in
    let (inside, i, e3) =
      first_passed (labelled "schedule.set: " (simple_table t.set_values)) _ e2 in
    let allowed =
      simple_table-IsRequest t.set_values inside
        (of_labelled _ (simple_table t.set_values) inside i) in
    either-AllRequests (is_empty t.at_time) _ _ ss
      (between_additions-AllRequests t days catch_up inside ss allowed)
      (at_additions-AllRequests t days catch_up inside ss allowed) e3

-- Whatever a script registers, a schedule call that succeeds leaves only schedules whose values the
-- device protocol allows, at both ends of an interval.
pub lua_schedule-AllRequests :
    (text : List ℕ → String) (named existing : List Schedule) (t : ScheduleTable)
    (ss : List Schedule)
    → AllRequests existing
    → lua_schedule text named existing t ≡ ok ss
    → AllRequests ss
unfolding lua_schedule
lua_schedule-AllRequests text named existing t ss h e =
    let (_, _, e1) = first_passed (header text named t) _ e in
    let (additions, a, e2) = first_passed (read_additions t) _ e1 in
    let (_, _, e3) = first_passed (check_additions text existing [] additions) _ e2 in
    subst AllRequests (same_ok e3)
      (All-append _ existing additions h (read_additions-AllRequests t additions a))
