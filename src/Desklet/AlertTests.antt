-- ===== src/Desklet/AlertTests.antt =====
-- The theorems about alerts and preferences of the desklet at concrete inputs.
use air_ctrl_desklet.Prelude.{
  ◌≤◌, ◌≡◌, refl, Bool, true, false, List, [], ◌∷◌, Option, none, some, String, ◌==◌, string_eq,
  if◌then◌else◌, arith,
}
use air_ctrl_desklet.Prelude.Int.{ℤ, pos, negsuc}
use air_ctrl_desklet.Desklet.Alerts.{
  AlertLevel, warning, error, Alert, value, update, data_freshness, stale,
}
use air_ctrl_desklet.Desklet.Alerts.Latch.{incident}
use air_ctrl_desklet.Desklet.Alerts.Reports.{count, updates, new_latch, updates-reports}
use air_ctrl_desklet.Desklet.Alerts.Incidents.{monitor, monitor_incident, monitor-monitor_incident}
use air_ctrl_desklet.Desklet.Preferences.{Values, load, save}
use air_ctrl_desklet.Desklet.Preferences.Kept.{Ordered, load-Ordered}
use air_ctrl_desklet.Desklet.Preferences.RoundTrip.{Laws}
use air_ctrl_desklet.Desklet.Preferences.Loaded.{load-save-load}

abbrev filter_due : AlertLevel → Alert
filter_due level = record { key = "fltsts0"; level = level; message = "" }

half_an_hour : data_freshness (pos 1800) (pos 900) (pos 1800) (pos 7200) ≡ stale
unfolding data_freshness
half_an_hour = refl

abbrev before_and_during : List (List Alert)
before_and_during =
    (filter_due warning ∷ []) ∷ (filter_due error ∷ []) ∷ (filter_due warning ∷ []) ∷ []

reported_twice : count "fltsts0" (updates before_and_during new_latch).0 ≡ 2
unfolding updates update value
reported_twice = refl

updates-reports_example :
    let during = updates before_and_during (updates [] new_latch).1 in
    (count "fltsts0" during.0 ≤ 2)
    × (1 ≤ count "fltsts0" (update (filter_due error ∷ []) (update [] during.1).1).0)
updates-reports_example =
    updates-reports "fltsts0" [] before_and_during [] (filter_due error ∷ [])
      (refl, (refl, (refl, tt))) refl (omega arith)

monitor-monitor_incident_example :
    incident "fltsts0"
      (monitor ((filter_due warning ∷ [], true) ∷ (filter_due error ∷ [], false) ∷ []) new_latch)
    ≡ monitor_incident "fltsts0"
        ((filter_due warning ∷ [], true) ∷ (filter_due error ∷ [], false) ∷ [])
        (0, 0)
monitor-monitor_incident_example =
    monitor-monitor_incident "fltsts0"
      ((filter_due warning ∷ [], true) ∷ (filter_due error ∷ [], false) ∷ [])

-- What is kept is the value itself.
data Stored : Type 0 where
  number : ℤ → Stored
  flag : Bool → Stored
  text : String → Stored
  texts : List String → Stored

abbrev as_int : Stored → ℤ
as_int (number i) = i
as_int _ = pos 0

abbrev as_bool : Stored → Bool
as_bool (flag b) = b
as_bool _ = false

abbrev as_text : Stored → String
as_text (text t) = t
as_text _ = ""

abbrev as_texts : Stored → List String
as_texts (texts ts) = ts
as_texts _ = []

abbrev typed_values : Values Stored
typed_values = record {
  of_int = number;
  to_int = as_int;
  of_bool = flag;
  to_bool = as_bool;
  of_text = text;
  to_text = as_text;
  of_texts = texts;
  to_texts = as_texts;
  trimmed = λ t. t;
}

abbrev typed_values-Laws : Laws typed_values
typed_values-Laws = record {
  int = λ n. refl;
  bool = λ b. refl;
  text = λ t. refl;
  texts = λ ts. refl;
  trim_twice = λ t. refl;
}

abbrev odd_settings : String → Option Stored
odd_settings key =
    if key == "alarms/warningMinutes"
    then some (number (pos 2000))
    else if key == "alarms/staleMinutes"
    then some (number (negsuc 4))
    else if key == "appearance/values"
    then some (texts ("pm25" ∷ "co2" ∷ "pm25" ∷ []))
    else none

load-Ordered_example : Ordered (load typed_values "localhost" 5680 odd_settings)
load-Ordered_example =
    load-Ordered typed_values "localhost" 5680 odd_settings (omega arith) (omega arith)

load-save-load_example :
    load typed_values "localhost" 5680
      (save typed_values (load typed_values "localhost" 5680 odd_settings) (λ key. none))
    ≡ load typed_values "localhost" 5680 odd_settings
load-save-load_example =
    load-save-load typed_values typed_values-Laws "localhost" 5680 odd_settings (λ key. none) refl
      refl (omega arith) (omega arith)
