-- ===== src/Desklet/Preferences/Kept.antt =====
-- What Preferences::load makes of the settings, whatever they are (src/client/preferences.cpp).
use air_ctrl_desklet.Prelude.{
  ℕ, ◌+◌, ◌*◌, ◌/◌, ◌≤◌, ◌<◌, ◌≡◌, Option, String, string_eq, nat_eq, arith,
}
use air_ctrl_desklet.Prelude.Int.{ℤ, pos, negsuc}
use air_ctrl_desklet.Desklet.Preferences.{Values, Preferences, bound, port_of, int_of, load}

-- The limits of the numbers that are loaded: the ages of data in order and of whole minutes, and the
-- colours of the measured values in order.
pub record Ordered (p : Preferences) : Type 0 where
  pub port : (1 ≤ p.server_port) × (p.server_port ≤ 65535)
  pub reconnect : (1 ≤ p.server_reconnect_seconds) × (p.server_reconnect_seconds ≤ 300)
  pub warning : 60 ≤ p.age_warning_seconds
  pub stale : p.age_warning_seconds + 60 ≤ p.age_stale_seconds
  pub blink : p.age_stale_seconds + 60 ≤ p.age_blink_seconds
  pub day : p.age_blink_seconds ≤ 1441 * 60
  pub humidity :
      (p.metric_limits.humidity_green_delta < p.metric_limits.humidity_yellow_delta)
      × (p.metric_limits.humidity_yellow_delta < p.metric_limits.humidity_red_delta)
      × (p.metric_limits.humidity_red_delta ≤ 100)
  pub pm :
      (p.metric_limits.pm_green_high < p.metric_limits.pm_yellow_high)
      × (p.metric_limits.pm_yellow_high < p.metric_limits.pm_red_high)
      × (p.metric_limits.pm_red_high ≤ 999)
  pub transparency : p.transparency ≤ 100

bound_between :
    (low high : ℕ) (i : ℤ) → low ≤ high → (low ≤ bound low i high) × (bound low i high ≤ high)
bound_between low high (pos n) h = (ground arith, ground arith)
bound_between low high (negsuc n) h = (ground arith, h)

port_between :
    (i : ℤ) (default : ℕ)
    → (1 ≤ default) × (default ≤ 65535)
    → (1 ≤ port_of i default) × (port_of i default ≤ 65535)
port_between (pos n) default h = (ground arith, ground arith)
port_between (negsuc n) default h = h

-- Whatever the settings are, what is loaded is ordered, if the default port is a port.
pub load-Ordered :
    {V : Type 0} (values : Values V) (host : String) (port : ℕ) (settings : String → Option V)
    → 1 ≤ port
    → port ≤ 65535
    → Ordered (load values host port settings)
unfolding load
load-Ordered values host port s l u =
    let w = bound_between 1 1439 (int_of values 15 (s "alarms/warningMinutes")) (omega arith) in
    let warning = bound 1 (int_of values 15 (s "alarms/warningMinutes")) 1439 in
    let t =
      bound_between (warning * 60 / 60 + 1) 1440 (int_of values 30 (s "alarms/staleMinutes"))
        (omega (arith, w.1)) in
    let stale = bound (warning * 60 / 60 + 1) (int_of values 30 (s "alarms/staleMinutes")) 1440 in
    let b =
      bound_between (stale * 60 / 60 + 1) 1441 (int_of values 120 (s "alarms/blinkMinutes"))
        (omega (arith, t.1)) in
    let g = bound_between 0 98 (int_of values 5 (s "metrics/humidityGreenDelta")) (omega arith) in
    let green = bound 0 (int_of values 5 (s "metrics/humidityGreenDelta")) 98 in
    let y =
      bound_between (green + 1) 99 (int_of values 10 (s "metrics/humidityYellowDelta"))
        (omega (arith, g.1)) in
    let yellow = bound (green + 1) (int_of values 10 (s "metrics/humidityYellowDelta")) 99 in
    let r =
      bound_between (yellow + 1) 100 (int_of values 20 (s "metrics/humidityRedDelta"))
        (omega (arith, y.1)) in
    let pg = bound_between 0 997 (int_of values 15 (s "metrics/pmGreenHigh")) (omega arith) in
    let pm_green = bound 0 (int_of values 15 (s "metrics/pmGreenHigh")) 997 in
    let py =
      bound_between (pm_green + 1) 998 (int_of values 35 (s "metrics/pmYellowHigh"))
        (omega (arith, pg.1)) in
    let pm_yellow = bound (pm_green + 1) (int_of values 35 (s "metrics/pmYellowHigh")) 998 in
    let pr =
      bound_between (pm_yellow + 1) 999 (int_of values 75 (s "metrics/pmRedHigh"))
        (omega (arith, py.1)) in
    record {
      port = port_between (int_of values port (s "server/port")) port (l, u);
      reconnect =
          bound_between 1 300 (int_of values 10 (s "server/reconnectSeconds")) (omega arith);
      warning = omega (arith, w.0);
      stale = omega (arith, t.0);
      blink = omega (arith, b.0);
      day = omega (arith, b.1);
      humidity = (omega (arith, y.0), omega (arith, r.0), r.1);
      pm = (omega (arith, py.0), omega (arith, pr.0), pr.1);
      transparency =
          (bound_between 0 100 (int_of values 0 (s "appearance/transparency")) (omega arith)).1;
    }

pub bound_kept : (low high n : ℕ) → low ≤ n → n ≤ high → bound low (pos n) high ≡ n
bound_kept low high n l u = ground arith

pub port_kept : (n default : ℕ) → 1 ≤ n → n ≤ 65535 → port_of (pos n) default ≡ n
port_kept n default l u = ground arith
