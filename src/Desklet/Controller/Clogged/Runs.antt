-- ===== src/Desklet/Controller/Clogged/Runs.antt =====
-- A stream that is clogged stays so, whatever happens, until the Controller is stopped
-- (src/client/controller.cpp).
use air_ctrl_desklet.Prelude.{
  ℕ, Bool, true, false, not, ◌||◌, ◌≡◌, refl, List, [], ◌∷◌, ◌++◌, Option, none, some, String,
  arith, if◌then◌else◌, nat_eq, string_eq, if-cases, subst, sym, ◌∙◌, All, concat,
}
use air_ctrl_desklet.Prelude.Int.{ℤ}
use air_ctrl_desklet.ControlValues.Client.{control_values_error_client}
use air_ctrl_desklet.Json.{Json, Fields, object, string, integer, field, end}
use air_ctrl_desklet.Desklet.Controller.State.{
  Controller, Qt, Address, unconnected, abort, connection_failed, set_busy, fail_command,
  send_object, server_endpoint, ipv4, ipv6, address_error,
}
use air_ctrl_desklet.Desklet.Controller.Connect.{
  Lookup, lookup_error, found_addresses, SocketError, open_address, address_at, add_family,
  try_next_address, start_lookup, connect_checked, connect_server, take_lookup, on_lookup,
  is_remote_host_closed, may_launch, launch_server, on_error, on_connected, on_connect_timeout,
}
use air_ctrl_desklet.Desklet.Controller.Upkeep.{
  send_heartbeat, on_heartbeat_timeout, start, configure, with_endpoint, abandoned,
  schedule_refresh, on_refresh,
}
use air_ctrl_desklet.Desklet.Controller.Requests.{
  set_panel_values, set_checked, launch_write, write_checked, resume_automation, trigger_long_timer,
  begin_automation_edit, save_automation_edit, cancel_automation_edit, on_automation_timeout,
  on_write_timeout, on_confirmation_timeout,
}
use air_ctrl_desklet.Desklet.Controller.Messages.{read_server}
use air_ctrl_desklet.Desklet.Controller.Events.{
  Happening, do_configure, do_start, do_stop, do_refresh, do_resume, do_long_timer, do_begin_edit,
  do_cancel_edit, do_power, do_humidity, do_values, do_save_edit, do_set_write, do_set_confirmation,
  do_set_reconnect, do_set_heartbeat, refresh_due, reconnect_expired, connect_expired,
  write_expired, confirmation_expired, heartbeat_expired, heartbeat_watchdog_expired,
  automation_expired, looked_up, socket_connected, socket_disconnected, socket_read, socket_error,
  after_error, possible, happen, step, live,
}
use air_ctrl_desklet.Desklet.Controller.Clogged.{
  Clogged, read_server-Clogged, connection_failed-stream, closed_by-stream, on_disconnected-stream,
}

abbrev SameStream : Controller → Controller → Type 0
SameStream c d = d.stream ≡ c.stream

send_object-stream : (fs : Fields) (c : Controller) → SameStream c (send_object fs c)
unfolding send_object
send_object-stream fs c = ground arith

fail_command-stream : (reason : String) (c : Controller) → SameStream c (fail_command reason c)
unfolding fail_command set_busy
fail_command-stream reason c = ground arith

-- A call of stop.
abbrev pub is_stop : Happening → Bool
is_stop do_stop = true
is_stop _ = false

write_timeout-stream : (c : Controller) → SameStream c (on_write_timeout c)
unfolding fail_command set_busy
write_timeout-stream c = ground arith

confirmation_timeout-stream : (c : Controller) → SameStream c (on_confirmation_timeout c)
unfolding fail_command set_busy
confirmation_timeout-stream c = ground arith

automation_timeout-stream : (c : Controller) → SameStream c (on_automation_timeout c)
unfolding cancel_automation_edit send_object
automation_timeout-stream c = ground arith

module _ (qt : Qt) where
  abort-stream : (c : Controller) → SameStream c (abort qt c)
  unfolding abort
  abort-stream c = closed_by-stream qt c.socket (record c { socket = unconnected })

  open_address-stream : (o : Option Address) (c : Controller) → SameStream c (open_address qt o c)
  open_address-stream none c = refl
  open_address-stream (some a) c = refl

  try_next_address-stream : (c : Controller) → SameStream c (try_next_address qt c)
  unfolding try_next_address connection_failed
  try_next_address-stream c =
      let opened = open_address-stream (address_at c.addresses c.next_address) c in ground arith

  start_lookup-stream : (o : Option Address) (c : Controller) → SameStream c (start_lookup qt o c)
  unfolding try_next_address
  start_lookup-stream none c = refl
  start_lookup-stream (some numeric) c =
      try_next_address-stream (record c { addresses = numeric ∷ []; next_address = 0 })

  connect_checked-stream :
      (o : Option String) (c : Controller) → SameStream c (connect_checked qt o c)
  unfolding connection_failed try_next_address
  connect_checked-stream (some error) c = connection_failed-stream qt error c
  connect_checked-stream none c = start_lookup-stream (qt.numeric c.server_host) (record c {
    progress = concat ("Verbinde mit AirControl-Server " ∷ server_endpoint qt c ∷ []);
  })

  connect_server-stream : (c : Controller) → SameStream c (connect_server qt c)
  unfolding connect_server
  connect_server-stream c =
      let checked = connect_checked-stream (address_error qt c) c in ground arith

  take_lookup-stream : (l : Lookup) (c : Controller) → SameStream c (take_lookup qt l c)
  unfolding connection_failed try_next_address
  take_lookup-stream (lookup_error error) c = ground arith
  take_lookup-stream (found_addresses []) c = ground arith
  take_lookup-stream (found_addresses (a ∷ found)) c = try_next_address-stream (record c {
    addresses = add_family ipv6 (a ∷ found) (add_family ipv4 (a ∷ found) []);
    next_address = 0;
  })

  on_lookup-stream :
      (generation : ℕ) (l : Lookup) (c : Controller) → SameStream c (on_lookup qt generation l c)
  unfolding on_lookup
  on_lookup-stream generation l c =
      let taken = take_lookup-stream l (record c { resolving = false; connect_watchdog = none }) in
      ground arith

  launch_server-stream :
      (started : Bool) (c : Controller) → SameStream c (launch_server qt started c)
  unfolding launch_server connection_failed
  launch_server-stream started c = ground arith

  on_error-stream :
      (error : SocketError) (text : String) (started : Bool) (c : Controller)
      → SameStream c (on_error qt error text started c)
  unfolding on_error connection_failed
  on_error-stream error text started c =
      let stopped : Controller = record c { connect_watchdog = none } in
      let idle : Controller = record stopped { connecting = false } in
      if-cases (SameStream c) (not c.active || is_remote_host_closed error) (λ e. refl)
        (λ e.
          if-cases (SameStream c) c.connecting
            (λ k.
              if-cases (SameStream c) (may_launch qt error stopped)
                (λ l. launch_server-stream started (abort qt idle) ∙ abort-stream idle)
                (λ l. try_next_address-stream (abort qt stopped) ∙ abort-stream stopped))
            (λ k.
              if-cases (SameStream c) (may_launch qt error c) (λ l. launch_server-stream started c)
                (λ l. ground arith)))

  on_connect_timeout-stream : (c : Controller) → SameStream c (on_connect_timeout qt c)
  unfolding on_connect_timeout connection_failed
  on_connect_timeout-stream c =
      let down = abort-stream c in let tried = try_next_address-stream (abort qt c) in ground arith

  on_heartbeat_timeout-stream : (c : Controller) → SameStream c (on_heartbeat_timeout qt c)
  unfolding on_heartbeat_timeout
  on_heartbeat_timeout-stream c =
      let text : String = "AirControl-Server antwortet nicht auf die Verbindungsprüfung." in
      let told = connection_failed-stream qt text c in
      let down = abort-stream (connection_failed qt text c) in ground arith

  start-stream : (c : Controller) → SameStream c (start qt c)
  unfolding start
  start-stream c =
      let opened = connect_server-stream (record c { active = true; launch_attempted = false }) in
      ground arith

  configure-stream :
      (host : String) (port seconds : ℤ) (c : Controller)
      → SameStream c (configure qt host port seconds c)
  unfolding configure
  configure-stream host port seconds c =
      let set = abandoned (with_endpoint (qt.trimmed_text host) port seconds c) in
      let down = abort-stream set in
      let opened = connect_server-stream (record (abort qt set) { reconnect = none }) in
      ground arith

  on_refresh-stream : (c : Controller) → SameStream c (on_refresh qt c)
  unfolding on_refresh send_object
  on_refresh-stream c =
      let opened =
        connect_server-stream (record c { refresh_scheduled = false; reconnect = none }) in
      ground arith

  write_checked-stream :
      (o : Option String) (values : Json) (c : Controller)
      → SameStream c (write_checked qt o values c)
  unfolding fail_command set_busy send_object
  write_checked-stream (some error) values c = ground arith
  write_checked-stream none values c = ground arith

  launch_write-stream : (values : Json) (c : Controller) → SameStream c (launch_write qt values c)
  unfolding launch_write
  launch_write-stream values c =
      let checked = write_checked-stream (address_error qt c) values c in ground arith

  set_checked-stream :
      (o : Option String) (values : Json) (c : Controller)
      → SameStream c (set_checked qt o values c)
  unfolding launch_write fail_command
  set_checked-stream (some problem) values c = fail_command-stream problem c
  set_checked-stream none values c = launch_write-stream values c

  set_panel_values-stream :
      (values : Fields) (c : Controller) → SameStream c (set_panel_values qt values c)
  unfolding set_panel_values
  set_panel_values-stream values c =
      let checked = set_checked-stream (control_values_error_client values) (object values) c in
      ground arith

  cancel_automation_edit-stream : (c : Controller) → SameStream c (cancel_automation_edit c)
  unfolding cancel_automation_edit send_object
  cancel_automation_edit-stream c = ground arith

  kept : {s t : List ℕ} → t ≡ s → Clogged s → Clogged t
  kept e h = subst Clogged (sym e) h

  happen-Clogged :
      (e : Happening) (c : Controller)
      → is_stop e ≡ false
      → Clogged c.stream
      → Clogged (happen qt e c).stream
  unfolding happen schedule_refresh send_heartbeat on_connected resume_automation trigger_long_timer
      begin_automation_edit save_automation_edit send_object
  happen-Clogged do_stop c n h = absurd (ground arith)
  happen-Clogged (socket_read bytes) c n h = (read_server-Clogged qt bytes c h).2
  happen-Clogged (do_configure host port seconds) c n h =
      kept (configure-stream host port seconds c) h
  happen-Clogged do_start c n h = kept (start-stream c) h
  happen-Clogged do_refresh c n h = kept (ground arith) h
  happen-Clogged do_resume c n h = kept (ground arith) h
  happen-Clogged do_long_timer c n h = kept (ground arith) h
  happen-Clogged do_begin_edit c n h = kept (ground arith) h
  happen-Clogged do_cancel_edit c n h = kept (cancel_automation_edit-stream c) h
  happen-Clogged (do_power on) c n h =
      kept (set_panel_values-stream (field "pwr" (string (if on then "1" else "0")) end) c) h
  happen-Clogged (do_humidity percent) c n h =
      kept (set_panel_values-stream (field "rhset" (integer percent) end) c) h
  happen-Clogged (do_values values) c n h = kept (set_panel_values-stream values c) h
  happen-Clogged (do_save_edit script enabled revision) c n h = kept (ground arith) h
  happen-Clogged (do_set_write ms) c n h = h
  happen-Clogged (do_set_confirmation ms) c n h = h
  happen-Clogged (do_set_reconnect ms) c n h = h
  happen-Clogged (do_set_heartbeat interval timeout) c n h = kept (ground arith) h
  happen-Clogged refresh_due c n h = kept (on_refresh-stream c) h
  happen-Clogged reconnect_expired c n h =
      kept (connect_server-stream (record c { reconnect = none })) h
  happen-Clogged connect_expired c n h =
      kept (on_connect_timeout-stream (record c { connect_watchdog = none })) h
  happen-Clogged write_expired c n h =
      kept (write_timeout-stream (record c { write_watchdog = none })) h
  happen-Clogged confirmation_expired c n h =
      kept (confirmation_timeout-stream (record c { confirmation = none })) h
  happen-Clogged heartbeat_expired c n h = kept (ground arith) h
  happen-Clogged heartbeat_watchdog_expired c n h =
      kept (on_heartbeat_timeout-stream (record c { heartbeat_watchdog = none })) h
  happen-Clogged automation_expired c n h =
      kept (automation_timeout-stream (record c { automation_watchdog = none })) h
  happen-Clogged (looked_up generation result) c n h = kept (on_lookup-stream generation result c) h
  happen-Clogged socket_connected c n h = h
  happen-Clogged socket_disconnected c n h =
      kept (on_disconnected-stream qt (record c { socket = unconnected })) h
  happen-Clogged (socket_error error text started) c n h =
      kept (on_error-stream error text started (record c { socket = after_error c.socket })) h

  step-Clogged :
      (e : Happening) (c : Controller)
      → is_stop e ≡ false
      → Clogged c.stream
      → Clogged (step qt e c).stream
  unfolding step
  step-Clogged e c n h =
      if-cases (λ (d : Controller). Clogged d.stream) (possible e c) (λ p. happen-Clogged e c n h)
        (λ p. h)

live-Clogged :
    (events : List (Qt × Happening)) (c : Controller)
    → All (λ e. is_stop e.1 ≡ false) events
    → Clogged c.stream
    → Clogged (live events c).stream
unfolding live
live-Clogged [] c n h = h
live-Clogged ((qt, e) ∷ events) c n h =
    live-Clogged events (step qt e c) n.1 (step-Clogged qt e c n.0 h)

-- Once the stream begins with more than a megabyte and no newline, whatever happens but a stop, new
-- connections and another endpoint included: the next reading, of any bytes, gives its connection up, adds
-- the bytes to the stream, and leaves it beginning so.
pub read_again-Clogged :
    (events : List (Qt × Happening)) (qt : Qt) (bytes : List ℕ) (c : Controller)
    → All (λ e. is_stop e.1 ≡ false) events
    → Clogged c.stream
    → let before = live events c in
      let after = read_server qt bytes before in
      (after.socket ≡ unconnected) × (after.stream ≡ before.stream ++ bytes) × Clogged after.stream
read_again-Clogged events qt bytes c n h =
    read_server-Clogged qt bytes (live events c) (live-Clogged events c n h)
