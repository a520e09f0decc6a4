-- ===== src/Desklet/Preferences/Loaded.antt =====
-- What Preferences::load gives is what it gives again after it was saved (src/client/preferences.cpp).
use air_ctrl_desklet.Prelude.{
  ℕ, ◌≤◌, ◌≡◌, refl, ap, ◌∙◌, true, false, List, [], ◌∷◌, Option, none, some, String, ◌==◌,
  string_eq, nat_eq, if◌then◌else◌, any, All, arith, if-cases,
}
use air_ctrl_desklet.Desklet.Preferences.{
  Values, is_allowed, only_allowed, remove_duplicates, host_of, texts_of, load, save,
}
use air_ctrl_desklet.Desklet.Preferences.Kept.{load-Ordered}
use air_ctrl_desklet.Desklet.Preferences.RoundTrip.{Laws, Stable, load-save}

Allowed : List String → Type 0
Allowed keys = All (λ k. is_allowed k ≡ true) keys

only_allowed-Allowed : (keys : List String) → Allowed (only_allowed keys)
unfolding Allowed only_allowed
only_allowed-Allowed [] = tt
only_allowed-Allowed (k ∷ keys) =
    if-cases Allowed (is_allowed k) (λ e. (e, only_allowed-Allowed keys))
      (λ e. only_allowed-Allowed keys)

remove_duplicates-Allowed :
    (met keys : List String) → Allowed keys → Allowed (remove_duplicates met keys)
unfolding Allowed remove_duplicates
remove_duplicates-Allowed met [] h = tt
remove_duplicates-Allowed met (k ∷ keys) h =
    if-cases Allowed (any (λ l. l == k) met) (λ e. remove_duplicates-Allowed met keys h.1)
      (λ e. (h.0, remove_duplicates-Allowed (k ∷ met) keys h.1))

only_allowed_kept : (keys : List String) → Allowed keys → only_allowed keys ≡ keys
unfolding Allowed only_allowed
only_allowed_kept [] h = refl
only_allowed_kept (k ∷ keys) h =
    ap (λ b. if b then k ∷ only_allowed keys else only_allowed keys) h.0
    ∙ ap (λ l. k ∷ l) (only_allowed_kept keys h.1)

remove_duplicates_twice :
    (met keys : List String)
    → remove_duplicates met (remove_duplicates met keys) ≡ remove_duplicates met keys
unfolding remove_duplicates
remove_duplicates_twice met [] = refl
remove_duplicates_twice met (k ∷ keys) =
    if-cases (λ l. remove_duplicates met l ≡ l) (any (λ l. l == k) met)
      (λ e. remove_duplicates_twice met keys)
      (λ e.
        ap
          (λ b.
            if b
            then remove_duplicates met (remove_duplicates (k ∷ met) keys)
            else k ∷ remove_duplicates (k ∷ met) (remove_duplicates (k ∷ met) keys))
          e
        ∙ ap (λ l. k ∷ l) (remove_duplicates_twice (k ∷ met) keys))

visible_kept :
    (texts : List String)
    → remove_duplicates [] (only_allowed (remove_duplicates [] (only_allowed texts)))
      ≡ remove_duplicates [] (only_allowed texts)
visible_kept texts =
    ap (remove_duplicates []) (
      only_allowed_kept (remove_duplicates [] (only_allowed texts))
        (remove_duplicates-Allowed [] (only_allowed texts) (only_allowed-Allowed texts)))
    ∙ remove_duplicates_twice [] (only_allowed texts)

module _ {V : Type 0} (values : Values V) (laws : Laws values) (host : String) (port : ℕ) where
  IsHost : String → Type 0
  IsHost h = (values.trimmed h ≡ h) × (h == "" ≡ false)

  trimmed_or-IsHost :
      (text : String)
      → IsHost host
      → IsHost (let t = values.trimmed text in if t == "" then host else t)
  unfolding IsHost
  trimmed_or-IsHost text h =
      if-cases IsHost (values.trimmed text == "") (λ e. h) (λ e. (laws.trim_twice text, e))

  host_of-IsHost : (stored : Option V) → IsHost host → IsHost (host_of values host stored)
  host_of-IsHost none h = trimmed_or-IsHost host h
  host_of-IsHost (some v) h = trimmed_or-IsHost (values.to_text v) h

  load-Stable :
      (settings : String → Option V)
      → values.trimmed host ≡ host
      → host == "" ≡ false
      → 1 ≤ port
      → port ≤ 65535
      → Stable values (load values host port settings)
  unfolding load IsHost
  load-Stable s t e l u =
      let own = host_of-IsHost (s "server/host") (t, e) in
      record {
        ordered = load-Ordered values host port s l u;
        warning = omega arith;
        stale = omega arith;
        blink = omega arith;
        host = own.0;
        some_host = own.1;
        visible =
            visible_kept
              (texts_of values ("rh" ∷ "rhset" ∷ "temp" ∷ "pm25" ∷ []) (s "appearance/values"));
      }

  -- If what QSettings keeps comes back, preferences that were loaded and saved, over any other settings,
  -- are loaded as they were, the default host being a trimmed text that is not empty, and the default port
  -- a port.
  pub load-save-load :
      (settings others : String → Option V)
      → values.trimmed host ≡ host
      → host == "" ≡ false
      → 1 ≤ port
      → port ≤ 65535
      → load values host port (save values (load values host port settings) others)
        ≡ load values host port settings
  load-save-load settings others t e l u =
      load-save values laws host port (load values host port settings) others
        (load-Stable settings t e l u)
