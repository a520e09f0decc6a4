-- ===== src/Server/StatusEvents.antt =====
-- statusEvent, publishDeviceAlerts and reevaluate of AutomationEngine (src/server/automation.cpp), as
-- functions of the server's state.
use air_ctrl_desklet.Prelude.{
  ℕ, Bool, true, false, not, ◌&&◌, ◌||◌, List, [], ◌∷◌, Option, none, some, String, ◌==◌,
  if◌then◌else◌, nat_eq, string_eq, is_some, length,
}
use air_ctrl_desklet.Prelude.Int.{pos}
use air_ctrl_desklet.Json.{
  Json, null, boolean, integer, string, array, object, Items, nil, item, Fields, end, field,
  find_field, json_beq, no_fields,
}
use air_ctrl_desklet.Automation.Types.{Env, Action}
use air_ctrl_desklet.Automation.Table.{assign}
use air_ctrl_desklet.Automation.Alerts.{DeviceAlert, device_alerts, digest, highest}
use air_ctrl_desklet.Server.State.{Server}
use air_ctrl_desklet.Server.Clients.{members}
use air_ctrl_desklet.Server.Events.{detail_list, call_event, evaluate_schedules, set_connected}

-- The entries of a status that differ from the one before, with both values, in sorted order.
abbrev changed_entry : Json → Json → Json
changed_entry old new = object (field "new" new (field "old" old end))

abbrev or_null : Option Json → Json
or_null none = null
or_null (some v) = v

abbrev same_value : Option Json → Json → Bool
same_value none v = false
same_value (some w) v = json_beq w v

unfoldable pub changed_now : Fields → Fields → Fields → Fields
changed_now old end result = result
changed_now old (field k v rest) result = changed_now old rest (
    if same_value (find_field k old) v
    then result
    else assign k (changed_entry (or_null (find_field k old)) v) result)

unfoldable pub changed_gone : Fields → Fields → Fields → Fields
changed_gone end new result = result
changed_gone (field k v rest) new result =
    changed_gone rest new
      (if is_some (find_field k new) then result else assign k (changed_entry v null) result)

abbrev pub fields_of : Json → Fields
fields_of (object fs) = fs
fields_of _ = end

-- Every entry as unchanged, for a re-evaluation.
unfoldable pub all_unchanged : Fields → Fields → Fields
all_unchanged end result = result
all_unchanged (field k v rest) result = all_unchanged rest (assign k (changed_entry v v) result)

unfoldable pub alert_items : List DeviceAlert → Items
alert_items [] = nil
alert_items (a ∷ rest) =
    item
      (object (
        members (
          ("id", string a.id)
          ∷ ("level", string (if a.is_error then "error" else "warning"))
          ∷ ("message", string a.message)
          ∷ [])))
      (alert_items rest)

abbrev pub same_texts : List String → List String → Bool
same_texts [] [] = true
same_texts (a ∷ as') (b ∷ bs) = a == b && same_texts as' bs
same_texts _ _ = false

module _ {S : Type 0} (env : Env S) (now : ℕ) (handler : Action → Server S → Server S) where
  -- The end of publishDeviceAlerts: an event for each new set of alerts.
  unfoldable pub publish : List DeviceAlert → Server S → Server S
  publish alerts s =
      if same_texts (digest alerts) s.engine.last_alert_digest
      then s
      else call_event env now handler "alarm"
          (("alerts", array (alert_items alerts))
            ∷ ("count", integer (pos (length alerts)))
            ∷ ("highest", string (highest alerts))
            ∷ [])
          (record s { engine = record s.engine { last_alert_digest = digest alerts } })

  -- publishDeviceAlerts, `none` for the uncaught exception of its check of `pwr`
  unfoldable pub publish_device_alerts : Json → Server S → Option (Server S)
  unfolding publish
  publish_device_alerts status s = elim (device_alerts env status) [
    | none ↦ none
    | some alerts ↦ some (publish alerts s)
  ]

  -- statusEvent
  unfoldable pub status_event : Json → Server S → Option (Server S)
  unfolding publish_device_alerts
  status_event status s =
      let old = s.engine.latest_status in
      let changed =
        changed_gone (fields_of old) (fields_of status)
          (changed_now (fields_of old) (fields_of status) end) in
      let stored = record s { engine = record s.engine { latest_status = status } } in
      let online =
        if s.engine.connected then stored else set_connected env now handler true none stored in
      if online.engine.manual_override
      then some online
      else elim (publish_device_alerts status (
          call_event env now handler "status"
            (("status", status)
              ∷ ("changed", object changed)
              ∷ ("first", boolean (no_fields (fields_of old)))
              ∷ [])
            online)) [
              | none ↦ none
              | some told ↦ some (evaluate_schedules env now handler false told)
            ]

  -- reevaluate
  unfoldable pub reevaluate : Json → Server S → Server S
  reevaluate status s =
      if s.engine.manual_override || not (is_some s.engine.lua) || is_some s.engine.last_error
      then s
      else let told =
          call_event env now handler "status"
            (("status", status)
              ∷ ("changed", object (all_unchanged (fields_of status) end))
              ∷ ("first", boolean false)
              ∷ ("reevaluation", boolean true)
              ∷ [])
            (record s { engine = record s.engine { latest_status = status } }) in
        evaluate_schedules env now handler true (
          call_event env now handler "time" (detail_list (env.time_detail now))
            (record told { engine = record told.engine { last_minute = env.minute_text now } }))
