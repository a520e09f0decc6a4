-- ===== src/Desklet/Preferences/RoundTrip.antt =====
-- Preferences that are saved are loaded as they were (src/client/preferences.cpp).
use air_ctrl_desklet.Prelude.{
  ℕ, ◌+◌, ◌*◌, ◌/◌, ◌≤◌, ◌≡◌, ap, ◌∙◌, Bool, false, List, [], Option, some, String, ◌==◌, string_eq,
  nat_eq, if◌then◌else◌, arith,
}
use air_ctrl_desklet.Prelude.Int.{pos}
use air_ctrl_desklet.Desklet.Preferences.{
  Values, Preferences, bound, port_of, only_allowed, remove_duplicates, int_of, host_of,
  load_limits, load, save,
}
use air_ctrl_desklet.Desklet.Preferences.Kept.{Ordered, bound_kept, port_kept}

-- What QSettings keeps comes back, and a trimmed text has nothing to trim_twice.
pub record Laws {V : Type 0} (values : Values V) : Type 0 where
  pub int : (n : ℕ) → values.to_int (values.of_int (pos n)) ≡ pos n
  pub bool : (b : Bool) → values.to_bool (values.of_bool b) ≡ b
  pub text : (t : String) → values.to_text (values.of_text t) ≡ t
  pub texts : (ts : List String) → values.to_texts (values.of_texts ts) ≡ ts
  pub trim_twice : (t : String) → values.trimmed (values.trimmed t) ≡ values.trimmed t

-- Preferences that load may give.
pub record Stable {V : Type 0} (values : Values V) (p : Preferences) : Type 0 where
  pub ordered : Ordered p
  pub warning : p.age_warning_seconds / 60 * 60 ≡ p.age_warning_seconds
  pub stale : p.age_stale_seconds / 60 * 60 ≡ p.age_stale_seconds
  pub blink : p.age_blink_seconds / 60 * 60 ≡ p.age_blink_seconds
  pub host : values.trimmed p.server_host ≡ p.server_host
  pub some_host : p.server_host == "" ≡ false
  pub visible : remove_duplicates [] (only_allowed p.visible_values) ≡ p.visible_values

module _ {V : Type 0} (values : Values V) (laws : Laws values) where
  kept :
      (low high n default : ℕ)
      → low ≤ n
      → n ≤ high
      → bound low (int_of values default (some (values.of_int (pos n)))) high ≡ n
  kept low high n default l u = ap (λ i. bound low i high) (laws.int n) ∙ bound_kept low high n l u

  kept_after :
      (low low' high n default : ℕ)
      → low' ≡ low
      → low ≤ n
      → n ≤ high
      → bound low' (int_of values default (some (values.of_int (pos n)))) high ≡ n
  kept_after low low' high n default e l u =
      ap (λ k. bound k (values.to_int (values.of_int (pos n))) high) e ∙ kept low high n default l u

  host_kept :
      (default host : String)
      → values.trimmed host ≡ host
      → host == "" ≡ false
      → host_of values default (some (values.of_text host)) ≡ host
  host_kept default host t e =
      ap (λ h. if h == "" then default else h) (ap values.trimmed (laws.text host) ∙ t)
      ∙ ap (λ b. if b then default else host) e

  limits_kept :
      (p : Preferences) (s : String → Option V)
      → Ordered p
      → load_limits values (save values p s) ≡ p.metric_limits
  unfolding save
  limits_kept p s o =
      let m = p.metric_limits in
      let green =
        kept 0 98 m.humidity_green_delta 5 (omega arith)
          (omega (arith, o.humidity.0, o.humidity.1, o.humidity.2)) in
      let yellow =
        kept_after (m.humidity_green_delta + 1) _ 99 m.humidity_yellow_delta 10
          (ap (λ n. n + 1) green) (omega (arith, o.humidity.0))
          (omega (arith, o.humidity.1, o.humidity.2)) in
      let red =
        kept_after (m.humidity_yellow_delta + 1) _ 100 m.humidity_red_delta 20
          (ap (λ n. n + 1) yellow) (omega (arith, o.humidity.1)) o.humidity.2 in
      let pm_green =
        kept 0 997 m.pm_green_high 15 (omega arith) (omega (arith, o.pm.0, o.pm.1, o.pm.2)) in
      let pm_yellow =
        kept_after (m.pm_green_high + 1) _ 998 m.pm_yellow_high 35 (ap (λ n. n + 1) pm_green)
          (omega (arith, o.pm.0)) (omega (arith, o.pm.1, o.pm.2)) in
      let pm_red =
        kept_after (m.pm_yellow_high + 1) _ 999 m.pm_red_high 75 (ap (λ n. n + 1) pm_yellow)
          (omega (arith, o.pm.1)) o.pm.2 in
      λ i. record {
        humidity_green_delta = green i;
        humidity_yellow_delta = yellow i;
        humidity_red_delta = red i;
        pm_green_high = pm_green i;
        pm_yellow_high = pm_yellow i;
        pm_red_high = pm_red i;
      }

  -- Preferences that load may give are loaded again as they were saved, over any other settings.
  pub load-save :
      (host : String) (port : ℕ) (p : Preferences) (s : String → Option V)
      → Stable values p
      → load values host port (save values p s) ≡ p
  unfolding load save
  load-save host port p s h =
      let o = h.ordered in
      let warning =
        ap (λ n. n * 60)
          (kept 1 1439 (p.age_warning_seconds / 60) 15 (omega (arith, o.warning))
            (omega (arith, o.stale, o.blink, o.day)))
        ∙ h.warning in
      let stale =
        ap (λ n. n * 60)
          (kept_after (p.age_warning_seconds / 60 + 1) _ 1440 (p.age_stale_seconds / 60) 30
            (ap (λ n. n / 60 + 1) warning) (omega (arith, o.stale)) (omega (arith, o.blink, o.day)))
        ∙ h.stale in
      let blink =
        ap (λ n. n * 60)
          (kept_after (p.age_stale_seconds / 60 + 1) _ 1441 (p.age_blink_seconds / 60) 120
            (ap (λ n. n / 60 + 1) stale) (omega (arith, o.blink)) (omega (arith, o.day)))
        ∙ h.blink in
      let limits = limits_kept p s o in
      λ i. record {
        server_host = host_kept host p.server_host h.host h.some_host i;
        server_port =
            (ap (λ n. port_of n port) (laws.int p.server_port)
                ∙ port_kept p.server_port port o.port.0 o.port.1)
              i;
        server_reconnect_seconds =
            kept 1 300 p.server_reconnect_seconds 10 o.reconnect.0 o.reconnect.1 i;
        age_warning_seconds = warning i;
        age_stale_seconds = stale i;
        age_blink_seconds = blink i;
        metric_limits = limits i;
        desktop_alarms = laws.bool p.desktop_alarms i;
        alarm_sound = laws.bool p.alarm_sound i;
        desktop = laws.bool p.desktop i;
        hide_decoration = laws.bool p.hide_decoration i;
        locked = laws.bool p.locked i;
        transparency = kept 0 100 p.transparency 0 (omega arith) o.transparency i;
        visible_values =
            (ap (λ ts. remove_duplicates [] (only_allowed ts)) (laws.texts p.visible_values)
                ∙ h.visible)
              i;
      }
