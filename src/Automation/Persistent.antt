-- ===== src/Automation/Persistent.antt =====
-- loadPersistentState and the text that savePersistentState writes (src/server/automation.cpp).
use air_ctrl_desklet.Prelude.{
  ℕ, ◌+◌, ◌≤◌, ◌≡◌, refl, ap, sym, ◌∙◌, subst, Bool, true, false, List, [], ◌∷◌, ◌++◌, Option, none,
  some, String, arith, max, if◌then◌else◌, ltb, lt→ltb, length, length-append, append_assoc,
  append-nil,
}
use air_ctrl_desklet.Prelude.Int.{pos}
use air_ctrl_desklet.Json.{
  Json, boolean, integer, string, array, object, Items, nil, item, end, field, find, find_field,
}
use air_ctrl_desklet.Automation.Types.{Env, Engine}
use air_ctrl_desklet.Automation.Text.{clean_line}
use air_ctrl_desklet.Automation.State.{save_state}

-- What the state file has: nothing, a text that is no JSON, or a value.
pub data StateFile : Type 0 where
  no_file not_json : StateFile
  contents : Json → StateFile

abbrev text_items : List String → Items
text_items [] = nil
text_items (t ∷ rest) = item (string t) (text_items rest)

-- The object that savePersistentState writes, its keys in sorted order.
abbrev pub saved_object : Bool × Bool × String × ℕ × List String → Json
saved_object (enabled, manual_override, reason, revision, handled) = object (
    field "enabled" (boolean enabled) (
      field "handled_occurrences" (array (text_items handled)) (
        field "manual_override" (boolean manual_override) (
          field "manual_override_reason" (string reason)
            (field "revision" (integer (pos revision)) end)))))

abbrev pub file_of : Option (Bool × Bool × String × ℕ × List String) → StateFile
file_of none = no_file
file_of (some fields) = contents (saved_object fields)

abbrev boolean_or : Bool → Option Json → Bool
boolean_or old (some (boolean b)) = b
boolean_or old _ = old

-- The texts of an array, as long as there are fewer than 64.
abbrev add_texts : Items → List String → List String
add_texts nil texts = texts
add_texts (item (string t) rest) texts =
    add_texts rest (if ltb (length texts) 64 then texts ++ t ∷ [] else texts)
add_texts (item _ rest) texts = add_texts rest texts

abbrev texts_or : List String → Option Json → List String
texts_or old (some (array items)) = add_texts items old
texts_or old _ = old

abbrev revision_or : ℕ → Option Json → ℕ
revision_or old (some (integer (pos n))) = max 1 n
revision_or old _ = old

module _ {S : Type 0} (env : Env S) where
  abbrev reason_or : String → Option Json → String
  reason_or old (some (string t)) = env.text (clean_line 200 (env.bytes t))
  reason_or old _ = old

  -- The entries of the state that have the right kind.
  unfoldable pub load_object : Json → Engine S → Engine S
  load_object state e = record e {
    enabled = boolean_or e.enabled (find "enabled" state);
    manual_override = boolean_or e.manual_override (find "manual_override" state);
    manual_override_reason =
        reason_or e.manual_override_reason (find "manual_override_reason" state);
    revision = revision_or e.revision (find "revision" state);
    handled_occurrences = texts_or e.handled_occurrences (find "handled_occurrences" state);
  }

  -- loadPersistentState: whether it succeeded, and the engine
  unfoldable pub load_persistent_state : Bool → StateFile → Engine S → Bool × Engine S
  unfolding load_object
  load_persistent_state default no_file e = (true, record e { enabled = default })
  load_persistent_state default not_json e = (false, record e { enabled = default })
  load_persistent_state default (contents (object fs)) e =
      (true, load_object (object fs) (record e { enabled = default }))
  load_persistent_state default (contents _) e = (false, record e { enabled = default })

  add_texts-all :
      (texts old : List String)
      → length old + length texts ≤ 64
      → add_texts (text_items texts) old ≡ old ++ texts
  add_texts-all [] old h = sym (append-nil old)
  add_texts-all (t ∷ rest) old h =
      ap (λ b. add_texts (text_items rest) (if b then old ++ t ∷ [] else old))
        (lt→ltb (length old) 64 (omega arith))
      ∙ add_texts-all rest (old ++ t ∷ []) (omega (arith, length-append old (t ∷ [])))
      ∙ append_assoc old (t ∷ []) rest

  -- The five saved fields of one engine are those of another.
  abbrev pub Restored : Engine S → Engine S → Type 0
  Restored f e =
      (f.enabled ≡ e.enabled)
      × (f.manual_override ≡ e.manual_override)
      × (f.manual_override_reason ≡ e.manual_override_reason)
      × (f.revision ≡ e.revision)
      × (f.handled_occurrences ≡ e.handled_occurrences)

  saved-save_state :
      (e : Engine S)
      → e.disk.state_writable ≡ true
      → (save_state e).1.disk.saved
        ≡ some (
          e.enabled, e.manual_override, e.manual_override_reason, e.revision, e.handled_occurrences,
        )
  unfolding save_state
  saved-save_state e writable =
      let written : Bool × Engine S = (
        true,
        record e {
          disk = record e.disk {
            saved = some (
              e.enabled, e.manual_override, e.manual_override_reason, e.revision,
              e.handled_occurrences,
            );
          };
        },
      ) in
      let kept : Bool × Engine S = (false, e) in
      ap (λ b. (choose b written kept).1.disk.saved) writable
    where
      choose : Bool → Bool × Engine S → Bool × Engine S → Bool × Engine S
      choose b x y = if b then x else y

  -- If the state file can be written, the revision is at least 1, at most 64 occurrences are
  -- remembered, and the reason of the override is already clean, an engine that starts with no
  -- remembered occurrences reads back what another has saved, whatever its defaults are.
  pub load_persistent_state-save_state :
      (default : Bool) (e fresh : Engine S)
      → e.disk.state_writable ≡ true
      → 1 ≤ e.revision
      → length e.handled_occurrences ≤ 64
      → env.text (clean_line 200 (env.bytes e.manual_override_reason)) ≡ e.manual_override_reason
      → fresh.handled_occurrences ≡ []
      → Restored (load_persistent_state default (file_of (save_state e).1.disk.saved) fresh).1 e
  unfolding load_persistent_state find_field
  load_persistent_state-save_state default e fresh writable positive few clean empty =
      subst (λ saved. Restored (load_persistent_state default (file_of saved) fresh).1 e)
        (sym (saved-save_state e writable))
        (
          refl,
          refl,
          clean,
          max-one e.revision positive,
          ap (λ old. add_texts (text_items e.handled_occurrences) old) empty
              ∙ add_texts-all e.handled_occurrences [] (omega arith),
        )
    where
      max-one : (n : ℕ) → 1 ≤ n → max 1 n ≡ n
      max-one n h = omega arith
