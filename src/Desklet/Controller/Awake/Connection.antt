-- ===== src/Desklet/Controller/Awake/Connection.antt =====
-- The methods and slots that open and check the connection keep a timer running.
use air_ctrl_desklet.Prelude.{
  ℕ, Bool, true, false, not, ◌&&◌, ◌||◌, ◌≡◌, ◌≢◌, refl, [], ◌∷◌, none, some, String, arith, ◌==◌,
  nat_eq, string_eq, sym, subst, if-cases,
}
use air_ctrl_desklet.Prelude.Int.{ℤ}
use air_ctrl_desklet.Desklet.Controller.State.{
  Controller, Qt, opening, connected, is_connected, connection_failed, abort, send_object,
}
use air_ctrl_desklet.Desklet.Controller.Connect.{
  Lookup, lookup_error, found_addresses, SocketError, is_remote_host_closed, take_lookup,
  may_launch, on_lookup, launch_server, on_error, on_connected, on_connect_timeout,
  try_next_address,
}
use air_ctrl_desklet.Desklet.Controller.Upkeep.{
  send_heartbeat, on_heartbeat_timeout, start, configure, with_endpoint, abandoned,
  endpoint_changed, schedule_refresh, on_refresh,
}
use air_ctrl_desklet.Desklet.Controller.Awake.{
  Waits, Awake, Woken, Apart, connection_failed-Apart, connection_failed-Awake, abort-Apart,
  abort_attempt, Linked, connection_failed-Linked, abort-Linked,
}
use air_ctrl_desklet.Desklet.Controller.Events.{after_error}
use air_ctrl_desklet.Desklet.Controller.Awake.Attempts.{
  try_next_address-Awake, connect_server-Awake,
}

Apart-Woken : (c : Controller) → Apart c → Woken c
Apart-Woken c h = ground arith

module _ (qt : Qt) where
  take_lookup-Awake :
      (result : Lookup) (c : Controller)
      → c.active ≡ true
      → Apart c
      → Awake (take_lookup qt result c)
  unfolding connection_failed try_next_address
  take_lookup-Awake (lookup_error error) c h k = connection_failed-Apart qt _ c k
  take_lookup-Awake (found_addresses []) c h k = connection_failed-Apart qt _ c k
  take_lookup-Awake (found_addresses (a ∷ found)) c h k =
      try_next_address-Awake qt _
        (record { is_active = h; closed = k.closed; no_lookup = k.no_lookup; waits = ground arith })

  named-Apart :
      (c : Controller)
      → Awake c
      → c.resolving ≡ true
      → Apart (record c { resolving = false; connect_watchdog = none })
  named-Apart c h r = ground arith

  pub on_lookup-Awake :
      (generation : ℕ) (result : Lookup) (c : Controller)
      → Awake c
      → (c.resolving || not (generation == c.lookup_generation)) ≡ true
      → Awake (on_lookup qt generation result c)
  unfolding on_lookup
  on_lookup-Awake generation result c h p =
      if-cases Awake (not c.active || not (generation == c.lookup_generation)) (λ e. h)
        (λ e. take_lookup-Awake result _ (ground arith) (named-Apart c h (ground arith)))

  launch_server-Apart :
      (started : Bool) (c : Controller)
      → Apart c
      → (n : ℕ) → Awake (record (launch_server qt started c) { reconnect = some n })
  unfolding launch_server connection_failed
  launch_server-Apart started c h n = ground arith

  launch_server-Awake :
      (started : Bool) (c : Controller)
      → Awake c
      → (n : ℕ) → Awake (record (launch_server qt started c) { reconnect = some n })
  unfolding launch_server connection_failed
  launch_server-Awake started c h n = ground arith

  refused-Awake :
      (c : Controller)
      → Awake c
      → c.connecting ≡ true
      → Awake (try_next_address qt (abort qt (record c { connect_watchdog = none })))
  refused-Awake c h k =
      subst (λ d. Awake (try_next_address qt d))
        (sym (abort_attempt qt (record c { connect_watchdog = none }) (ground arith)))
        (try_next_address-Awake qt _ (record {
          is_active = ground arith;
          closed = refl;
          no_lookup = ground arith;
          waits = ground arith;
        }))

  pub after_error-Awake :
      (c : Controller) → Awake c → Awake (record c { socket = after_error c.socket })
  after_error-Awake c h = ground arith

  pub on_error-Awake :
      (error : SocketError) (text : String) (started : Bool) (c : Controller)
      → Awake c
      → c.socket ≢ opening
      → Awake (on_error qt error text started c)
  unfolding on_error
  on_error-Awake error text started c h n =
      if-cases Awake (not c.active || is_remote_host_closed error) (λ e. h)
        (λ e.
          if-cases Awake c.connecting
            (λ k.
              if-cases Awake (may_launch qt error (record c { connect_watchdog = none }))
                (λ l.
                  launch_server-Apart started _
                    (abort-Apart qt (record c { connect_watchdog = none; connecting = false })
                      (ground arith) (ground arith) refl)
                    100)
                (λ l. refused-Awake c h k))
            (λ k.
              if-cases Awake (may_launch qt error c) (λ l. launch_server-Awake started c h 100)
                (λ l. connection_failed-Awake qt _ c h)))

  pub on_connected-Awake :
      (c : Controller)
      → Awake c
      → c.socket ≡ opening
      → Awake (on_connected qt (record c { socket = connected }))
  unfolding on_connected
  on_connected-Awake c h e = ground arith

  timed_out-Apart :
      (c : Controller) (generation : ℕ)
      → Awake c
      → c.resolving ≡ true
      → Apart
          (record c { connect_watchdog = none; resolving = false; lookup_generation = generation })
  timed_out-Apart c generation h r = ground arith

  pub on_connect_timeout-Awake :
      (c : Controller)
      → Awake c
      → Awake (on_connect_timeout qt (record c { connect_watchdog = none }))
  unfolding on_connect_timeout
  on_connect_timeout-Awake c h =
      if-cases Awake c.resolving (λ r. connection_failed-Apart qt _ _ (timed_out-Apart c _ h r))
        (λ r.
          if-cases Awake c.connecting (λ k. refused-Awake c h k)
            (λ k.
              connection_failed-Apart qt _ _
                (abort-Apart qt (record c { connect_watchdog = none }) (ground arith) r k)))

  pub send_heartbeat-Awake :
      (c : Controller) → Awake c → Awake (send_heartbeat qt (record c { heartbeat = none }))
  unfolding send_heartbeat send_object
  send_heartbeat-Awake c h =
      if-cases Awake (not c.active || not (is_connected c.socket)) (λ e. ground arith)
        (λ e. ground arith)

  unchecked-Linked :
      (c : Controller)
      → Awake c
      → c.socket ≡ connected
      → Linked (record c { heartbeat_watchdog = none })
  unchecked-Linked c h e = ground arith

  pub on_heartbeat_timeout-Awake :
      (c : Controller)
      → Awake c
      → Awake (on_heartbeat_timeout qt (record c { heartbeat_watchdog = none }))
  unfolding on_heartbeat_timeout
  on_heartbeat_timeout-Awake c h =
      if-cases Awake (not c.active || not (is_connected c.socket)) (λ e. ground arith)
        (λ e.
          abort-Linked qt _ (connection_failed-Linked qt _ _ (unchecked-Linked c h (ground arith))))

  pub start-Awake : (c : Controller) → Awake c → Awake (start qt c)
  unfolding start
  start-Awake c h =
      if-cases Awake c.active (λ e. h)
        (λ e.
          connect_server-Awake qt (record c { active = true; launch_attempted = false })
            (ground arith))

  aborted-Woken :
      (c : Controller)
      → Waits c
      → c.resolving ≡ false
      → c.connecting ≡ false
      → Woken (record (abort qt c) { reconnect = none })
  aborted-Woken c h r k = let a : Apart (abort qt c) = abort-Apart qt c h r k in ground arith

  abandoned-Waits :
      (host : String) (port seconds : ℤ) (c : Controller)
      → Awake c
      → Waits (abandoned (with_endpoint host port seconds c))
  abandoned-Waits host port seconds c h = ground arith

  with_endpoint-Awake :
      (host : String) (port seconds : ℤ) (c : Controller)
      → Awake c
      → Awake (with_endpoint host port seconds c)
  with_endpoint-Awake host port seconds c h = ground arith

  pub configure-Awake :
      (host : String) (port seconds : ℤ) (c : Controller)
      → Awake c
      → Awake (configure qt host port seconds c)
  unfolding configure
  configure-Awake host port seconds c h =
      let new_host = qt.trimmed_text host in
      if-cases Awake (endpoint_changed qt new_host port c && c.active)
        (λ e.
          connect_server-Awake qt _
            (aborted-Woken _ (abandoned-Waits new_host port seconds c h) refl refl))
        (λ e. with_endpoint-Awake new_host port seconds c h)

  pub schedule_refresh-Awake : (c : Controller) → Awake c → Awake (schedule_refresh qt c)
  unfolding schedule_refresh
  schedule_refresh-Awake c h =
      if-cases Awake (not c.active || c.busy || c.refresh_scheduled) (λ e. h) (λ e. ground arith)

  pub on_refresh-Awake : (c : Controller) → Awake c → Awake (on_refresh qt c)
  unfolding on_refresh send_object
  on_refresh-Awake c h =
      if-cases Awake (not c.active || c.busy) (λ e. ground arith)
        (λ e.
          if-cases Awake (is_connected c.socket) (λ k. ground arith)
            (λ k.
              connect_server-Awake qt (record c { refresh_scheduled = false; reconnect = none })
                (ground arith)))
