-- ===== src/Desklet/Preferences.antt =====
-- Preferences::load and save (src/client/preferences.cpp), less the position, the colours and the font,
-- and the default endpoint (src/client/ipc.cpp).
use air_ctrl_desklet.Prelude.{
  ℕ, ◌+◌, ◌*◌, ◌/◌, min, max, Bool, true, false, ◌&&◌, ◌||◌, List, [], ◌∷◌, Option, none, some,
  String, ◌==◌, string_eq, nat_eq, if◌then◌else◌, ltb, leb, any,
}
use air_ctrl_desklet.Prelude.Int.{ℤ, pos, negsuc}
pub mod Kept
pub mod RoundTrip
pub mod Loaded

-- The values that QSettings keeps, of a type V, with their conversions; and QString::trimmed.
pub record Values (V : Type 0) : Type 0 where
  pub of_int : ℤ → V
  pub to_int : V → ℤ
  pub of_bool : Bool → V
  pub to_bool : V → Bool
  pub of_text : String → V
  pub to_text : V → String
  pub of_texts : List String → V
  pub to_texts : V → List String
  pub trimmed : String → String

pub record MetricLimits : Type 0 where
  pub humidity_green_delta : ℕ
  pub humidity_yellow_delta : ℕ
  pub humidity_red_delta : ℕ
  pub pm_green_high : ℕ
  pub pm_yellow_high : ℕ
  pub pm_red_high : ℕ

pub record Preferences : Type 0 where
  pub server_host : String
  pub server_port : ℕ
  pub server_reconnect_seconds : ℕ
  pub age_warning_seconds : ℕ
  pub age_stale_seconds : ℕ
  pub age_blink_seconds : ℕ
  pub metric_limits : MetricLimits
  pub desktop_alarms : Bool
  pub alarm_sound : Bool
  pub desktop : Bool
  pub hide_decoration : Bool
  pub locked : Bool
  pub transparency : ℕ
  pub visible_values : List String

-- The trimmed text of the variable for the host, empty where it is not set, and the number of the one
-- for the port, where it is one.
abbrev pub default_server_host : String → String
default_server_host test_host = if test_host == "" then "localhost" else test_host

abbrev pub default_server_port : Option ℕ → ℕ
default_server_port none = 5680
default_server_port (some value) = if ltb 0 value && leb value 65535 then value else 5680

-- qBound, of a lower and an upper bound that are not negative
abbrev pub bound : ℕ → ℤ → ℕ → ℕ
bound low (pos n) high = max low (min high n)
bound low (negsuc n) high = low

abbrev pub port_of : ℤ → ℕ → ℕ
port_of (pos n) default = if ltb n 1 || ltb 65535 n then default else n
port_of (negsuc n) default = default

abbrev pub is_allowed : String → Bool
is_allowed key = key == "rh" || key == "rhset" || key == "temp" || key == "pm25" || key == "iaql"

unfoldable pub only_allowed : List String → List String
only_allowed [] = []
only_allowed (key ∷ keys) =
    let rest = only_allowed keys in if is_allowed key then key ∷ rest else rest

-- QStringList::removeDuplicates, behind those that were met
unfoldable pub remove_duplicates : List String → List String → List String
remove_duplicates met [] = []
remove_duplicates met (key ∷ keys) =
    if any (λ k. k == key) met
    then remove_duplicates met keys
    else key ∷ remove_duplicates (key ∷ met) keys

module _ {V : Type 0} (values : Values V) where
  abbrev pub int_of : ℕ → Option V → ℤ
  int_of default none = pos default
  int_of default (some v) = values.to_int v

  abbrev pub bool_of : Bool → Option V → Bool
  bool_of default none = default
  bool_of default (some v) = values.to_bool v

  abbrev pub host_of : String → Option V → String
  host_of default none = let text = values.trimmed default in if text == "" then default else text
  host_of default (some v) =
      let text = values.trimmed (values.to_text v) in if text == "" then default else text

  abbrev pub texts_of : List String → Option V → List String
  texts_of default none = default
  texts_of default (some v) = values.to_texts v

  abbrev pub load_limits : (String → Option V) → MetricLimits
  load_limits s =
      let green = bound 0 (int_of 5 (s "metrics/humidityGreenDelta")) 98 in
      let yellow = bound (green + 1) (int_of 10 (s "metrics/humidityYellowDelta")) 99 in
      let red = bound (yellow + 1) (int_of 20 (s "metrics/humidityRedDelta")) 100 in
      let pm_green = bound 0 (int_of 15 (s "metrics/pmGreenHigh")) 997 in
      let pm_yellow = bound (pm_green + 1) (int_of 35 (s "metrics/pmYellowHigh")) 998 in
      let pm_red = bound (pm_yellow + 1) (int_of 75 (s "metrics/pmRedHigh")) 999 in
      record {
        humidity_green_delta = green;
        humidity_yellow_delta = yellow;
        humidity_red_delta = red;
        pm_green_high = pm_green;
        pm_yellow_high = pm_yellow;
        pm_red_high = pm_red;
      }

  abbrev pub load_visible : Option V → List String
  unfolding only_allowed remove_duplicates
  load_visible stored =
      remove_duplicates [] (only_allowed (texts_of ("rh" ∷ "rhset" ∷ "temp" ∷ "pm25" ∷ []) stored))

  -- Preferences::load, for the default host and port
  unfoldable pub load : String → ℕ → (String → Option V) → Preferences
  unfolding load_visible
  load host port s =
      let warning = bound 1 (int_of 15 (s "alarms/warningMinutes")) 1439 * 60 in
      let stale = bound (warning / 60 + 1) (int_of 30 (s "alarms/staleMinutes")) 1440 * 60 in
      let blink = bound (stale / 60 + 1) (int_of 120 (s "alarms/blinkMinutes")) 1441 * 60 in
      let desktop = bool_of true (s "window/desktop") in
      record {
        server_host = host_of host (s "server/host");
        server_port = port_of (int_of port (s "server/port")) port;
        server_reconnect_seconds = bound 1 (int_of 10 (s "server/reconnectSeconds")) 300;
        age_warning_seconds = warning;
        age_stale_seconds = stale;
        age_blink_seconds = blink;
        metric_limits = load_limits s;
        desktop_alarms = bool_of true (s "alarms/desktop");
        alarm_sound = bool_of false (s "alarms/sound");
        desktop = desktop;
        hide_decoration = bool_of desktop (s "window/hideDecoration");
        locked = bool_of false (s "window/locked");
        transparency = bound 0 (int_of 0 (s "appearance/transparency")) 100;
        visible_values = load_visible (s "appearance/values");
      }

  abbrev pub set_value : String → V → (String → Option V) → String → Option V
  set_value key v s k = if k == key then some v else s k

  abbrev pub remove_value : String → (String → Option V) → String → Option V
  remove_value key s k = if k == key then none else s k

  abbrev set_int : String → ℕ → (String → Option V) → String → Option V
  set_int key n = set_value key (values.of_int (pos n))

  abbrev set_bool : String → Bool → (String → Option V) → String → Option V
  set_bool key b = set_value key (values.of_bool b)

  abbrev save_limits : MetricLimits → (String → Option V) → String → Option V
  save_limits m s = set_int "metrics/pmRedHigh" m.pm_red_high (
      set_int "metrics/pmYellowHigh" m.pm_yellow_high (
        set_int "metrics/pmGreenHigh" m.pm_green_high (
          set_int "metrics/humidityRedDelta" m.humidity_red_delta (
            set_int "metrics/humidityYellowDelta" m.humidity_yellow_delta
              (set_int "metrics/humidityGreenDelta" m.humidity_green_delta s)))))

  abbrev save_server : Preferences → (String → Option V) → String → Option V
  save_server p s = remove_value "device/interval" (
      remove_value "device/port" (
        remove_value "device/host" (
          set_int "server/reconnectSeconds" p.server_reconnect_seconds (
            set_int "server/port" p.server_port
              (set_value "server/host" (values.of_text p.server_host) s)))))

  abbrev save_ages : Preferences → (String → Option V) → String → Option V
  save_ages p s = remove_value "alarms/staleSeconds" (
      remove_value "alarms/warningSeconds" (
        set_int "alarms/blinkMinutes" (p.age_blink_seconds / 60) (
          set_int "alarms/staleMinutes" (p.age_stale_seconds / 60)
            (set_int "alarms/warningMinutes" (p.age_warning_seconds / 60) s))))

  abbrev save_window : Preferences → (String → Option V) → String → Option V
  save_window p s = set_bool "window/locked" p.locked (
      set_bool "window/hideDecoration" p.hide_decoration (
        set_bool "window/desktop" p.desktop (
          remove_value "automation/enabled" (
            set_bool "alarms/sound" p.alarm_sound (set_bool "alarms/desktop" p.desktop_alarms s)))))

  unfoldable pub save : Preferences → (String → Option V) → String → Option V
  save p s = set_value "appearance/values" (values.of_texts p.visible_values) (
      set_int "appearance/transparency" p.transparency
        (save_window p (save_limits p.metric_limits (save_ages p (save_server p s)))))
