-- ===== src/Desklet/Controller/Connect.antt =====
-- How Controller opens its connection: connectServer with its lookup, tryNextAddress, launchServer and
-- the slots of the socket and of connectWatchdog_ (src/client/controller.cpp).
use air_ctrl_desklet.Prelude.{
  ℕ, zero, suc, ◌+◌, Bool, true, false, not, ◌&&◌, ◌||◌, List, [], ◌∷◌, ◌++◌, Option, none, some,
  String, ◌==◌, if◌then◌else◌, nat_eq, string_eq, any, concat, length, leb,
}
use air_ctrl_desklet.Desklet.Controller.State.{
  opening, Family, ipv4, ipv6, other_family, Address, Controller, Qt, is_unconnected, increment,
  server_endpoint, connection_failed, abort, address_error,
}

abbrev family_beq : Family → Family → Bool
family_beq ipv4 ipv4 = true
family_beq ipv6 ipv6 = true
family_beq other_family other_family = true
family_beq _ _ = false

abbrev address_beq : Address → Address → Bool
address_beq a b = family_beq a.family b.family && a.text == b.text

-- addresses.at(index), and what stands behind it
abbrev pub address_at : List Address → ℕ → Option Address
address_at [] n = none
address_at (a ∷ addresses) zero = some a
address_at (a ∷ addresses) (suc n) = address_at addresses n

-- The addresses of one family that are not there yet, in their order.
abbrev pub add_family : Family → List Address → List Address → List Address
add_family family [] addresses = addresses
add_family family (a ∷ found) addresses = add_family family found (
    if family_beq a.family family && not (any (address_beq a) addresses)
    then addresses ++ a ∷ []
    else addresses)

-- What QHostInfo hands over: an error's text, or addresses.
pub data Lookup : Type 0 where
  lookup_error : String → Lookup
  found_addresses : List Address → Lookup

-- The errors of QTcpSocket that are told apart.
pub data SocketError : Type 0 where
  remote_host_closed connection_refused other_error : SocketError

abbrev pub is_remote_host_closed : SocketError → Bool
is_remote_host_closed remote_host_closed = true
is_remote_host_closed _ = false

abbrev pub is_connection_refused : SocketError → Bool
is_connection_refused connection_refused = true
is_connection_refused _ = false

module _ (qt : Qt) where
  -- connectToHost leaves the socket opening; what follows is a signal of its own, also where Qt sends
  -- it before connectToHost returns, since all callers end with this call.
  abbrev pub open_address : Option Address → Controller → Controller
  open_address none c = c
  open_address (some address) c = record c {
    next_address = c.next_address + 1;
    connecting = true;
    connect_watchdog = some 3000;
    socket = opening;
    opened = c.opened ++ address ∷ [];
  }

  unfoldable pub try_next_address : Controller → Controller
  unfolding connection_failed
  try_next_address c =
      if not c.active
      then c
      else if leb (length c.addresses) c.next_address
      then connection_failed qt
          (concat (
            "AirControl-Server "
            ∷ server_endpoint qt c
            ∷ " auf keiner seiner Adressen erreichbar."
            ∷ []))
          (record c { connecting = false; addresses = [] })
      else open_address (address_at c.addresses c.next_address) c

  abbrev pub start_lookup : Option Address → Controller → Controller
  unfolding try_next_address
  start_lookup (some numeric) c =
      try_next_address (record c { addresses = numeric ∷ []; next_address = 0 })
  start_lookup none c = record c {
    resolving = true;
    lookup_generation = increment c.lookup_generation;
    connect_watchdog = some 3000;
  }

  abbrev pub connect_checked : Option String → Controller → Controller
  unfolding connection_failed try_next_address
  connect_checked (some error) c = connection_failed qt error c
  connect_checked none c = start_lookup (qt.numeric c.server_host) (record c {
    progress = concat ("Verbinde mit AirControl-Server " ∷ server_endpoint qt c ∷ []);
  })

  unfoldable pub connect_server : Controller → Controller
  unfolding address_error connection_failed try_next_address
  connect_server c =
      if not c.active || c.resolving || c.connecting || not (is_unconnected c.socket)
      then c
      else connect_checked (address_error qt c) c

  abbrev pub not_found : String → Controller → Controller
  unfolding connection_failed
  not_found error c =
      connection_failed qt
        (concat ("AirControl-Server " ∷ server_endpoint qt c ∷ " nicht auflösbar: " ∷ error ∷ [])) c

  abbrev pub take_lookup : Lookup → Controller → Controller
  unfolding connection_failed try_next_address
  take_lookup (lookup_error error) c = not_found error c
  take_lookup (found_addresses []) c = not_found qt.error_string c
  take_lookup (found_addresses (a ∷ found)) c = try_next_address (record c {
    addresses = add_family ipv6 (a ∷ found) (add_family ipv4 (a ∷ found) []);
    next_address = 0;
  })

  -- the callback of QHostInfo::lookupHost
  unfoldable pub on_lookup : ℕ → Lookup → Controller → Controller
  unfolding connection_failed try_next_address
  on_lookup generation result c =
      if not c.active || not (generation == c.lookup_generation)
      then c
      else take_lookup result (record c { resolving = false; connect_watchdog = none })

  -- launchServer; whether startDetached succeeds is given
  unfoldable pub launch_server : Bool → Controller → Controller
  unfolding connection_failed
  launch_server started c =
      let launched = record c { launch_attempted = true } in
      if started
      then launched
      else connection_failed qt
          (concat ("Testserver konnte nicht gestartet werden: " ∷ c.executable ∷ [])) launched

  abbrev pub may_launch : SocketError → Controller → Bool
  may_launch error c =
      not (c.executable == "") && not c.launch_attempted && is_connection_refused error

  -- the slot on QTcpSocket::errorOccurred, with the socket's own text of the error
  unfoldable pub on_error : SocketError → String → Bool → Controller → Controller
  unfolding connection_failed abort launch_server try_next_address
  on_error error text started c =
      if not c.active || is_remote_host_closed error
      then c
      else if c.connecting
      then (let stopped = record c { connect_watchdog = none } in
          if may_launch error stopped
          then (let launched =
                launch_server started (abort qt (record stopped { connecting = false })) in
              record launched { reconnect = some 100 })
          else try_next_address (abort qt stopped))
      else if may_launch error c
      then (let launched = launch_server started c in record launched { reconnect = some 100 })
      else connection_failed qt
          (concat ("AirControl-Server " ∷ server_endpoint qt c ∷ " nicht erreichbar: " ∷ text ∷ []))
          c

  -- the slot on QTcpSocket::connected
  unfoldable pub on_connected : Controller → Controller
  on_connected c = record c {
    connect_watchdog = none;
    connecting = false;
    addresses = [];
    heartbeat_watchdog = none;
    heartbeat = some c.heartbeat_ms;
    failure_reported = false;
    progress = concat ("Mit AirControl-Server " ∷ server_endpoint qt c ∷ " verbunden" ∷ []);
  }

  -- the slot of connectWatchdog_
  unfoldable pub on_connect_timeout : Controller → Controller
  unfolding connection_failed abort try_next_address
  on_connect_timeout c =
      if c.resolving
      then connection_failed qt "Namensauflösung des AirControl-Servers dauerte zu lange."
          (record c { resolving = false; lookup_generation = increment c.lookup_generation })
      else if c.connecting
      then try_next_address (abort qt c)
      else connection_failed qt "Keine Verbindung zum AirControl-Server." (abort qt c)
