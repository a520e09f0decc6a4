-- ===== src/Desklet/Controller/State.antt =====
-- The state of Controller (src/client/controller.hpp), what it takes from Qt, and the primitives that
-- the other methods share: setBusy, failCommand, connectionFailed, send and the end of a connection.
use air_ctrl_desklet.Prelude.{
  ℕ, ◌+◌, ◌%◌, ◌^◌, Bool, true, false, not, ◌&&◌, ◌||◌, List, [], ◌∷◌, ◌++◌, Option, none, some,
  String, ◌==◌, if◌then◌else◌, nat_eq, string_eq, ltb, leb, concat, is_some,
}
use air_ctrl_desklet.Prelude.Int.{ℤ, pos, negsuc}
use air_ctrl_desklet.ControlValues.{same}
use air_ctrl_desklet.Json.{Json, string, object, Fields, end, field}

-- The states of QTcpSocket that are left behind when a handler returns; nothing here closes a
-- connection with a delay.
pub data Socket : Type 0 where
  unconnected opening connected : Socket

pub data Family : Type 0 where
  ipv4 ipv6 other_family : Family

pub record Address : Type 0 where
  pub family : Family
  pub text : String

pub data Signal : Type 0 where
  busy_changed : Bool → Signal
  failed command_failed automation_edit_failed : String → Signal
  control_accepted status_packet_received : Signal
  status_received automation_state_received automation_saved : Json → Signal
  automation_edit_granted : String → Bool → ℕ → Json → Signal

-- A single-shot timer is `some` interval in milliseconds while it is active. The last three fields
-- stand outside of the class: what the socket was given to write, the signals, and the addresses that
-- it was told to open.
pub record Controller : Type 0 where
  pub executable : String
  pub server_host : String
  pub server_port : ℤ
  pub reconnect_ms : ℕ
  pub write_ms : ℕ
  pub confirmation_ms : ℕ
  pub heartbeat_ms : ℕ
  pub heartbeat_timeout_ms : ℕ
  pub active : Bool
  pub busy : Bool
  pub has_status : Bool
  pub awaiting_confirmation : Bool
  pub launch_attempted : Bool
  pub failure_reported : Bool
  pub refresh_scheduled : Bool
  pub status_count : ℕ
  pub observation_starts : ℕ
  pub next_command_id : ℕ
  pub pending_command_id : ℕ
  pub progress : String
  pub socket : Socket
  pub addresses : List Address
  pub next_address : ℕ
  pub lookup_generation : ℕ
  pub resolving : Bool
  pub connecting : Bool
  pub reconnect : Option ℕ
  pub connect_watchdog : Option ℕ
  pub write_watchdog : Option ℕ
  pub confirmation : Option ℕ
  pub heartbeat : Option ℕ
  pub heartbeat_watchdog : Option ℕ
  pub automation_watchdog : Option ℕ
  pub stream : List ℕ
  pub next_automation_request_id : ℕ
  pub pending_automation_request_id : ℕ
  pub automation_edit_held : Bool
  pub sent : List Json
  pub signals : List Signal
  pub opened : List Address

-- What Qt and the system answer.
pub record Qt : Type 0 where
  pub is_executable : String → Bool
  -- QHostAddress::setAddress of a text that is a numeric address
  pub numeric : String → Option Address
  pub trimmed_text : String → String
  pub trimmed : List ℕ → List ℕ
  pub from_json : List ℕ → Option Json
  pub integer_text : ℤ → String
  -- toVariant().toULongLong()
  pub unsigned_long_long : Json → ℕ
  pub error_string : String

abbrev pub is_connected : Socket → Bool
is_connected connected = true
is_connected _ = false

abbrev pub is_unconnected : Socket → Bool
is_unconnected unconnected = true
is_unconnected _ = false

-- qMax(minimum, value), and qBound(minimum, value, maximum)
abbrev pub at_least : ℕ → ℤ → ℕ
at_least minimum (pos n) = if ltb n minimum then minimum else n
at_least minimum (negsuc n) = minimum

abbrev pub bounded : ℕ → ℤ → ℕ → ℕ
bounded minimum value maximum =
    let n = at_least minimum value in if ltb maximum n then maximum else n

abbrev pub is_port : ℤ → Bool
is_port (pos n) = leb 1 n && leb n 65535
is_port (negsuc n) = false

-- value++ of a quint64
abbrev pub increment : ℕ → ℕ
increment n = (n + 1) % 2 ^ 64

abbrev pub emit : Signal → Controller → Controller
emit signal c = record c { signals = c.signals ++ signal ∷ [] }

-- send
unfoldable pub send_object : Fields → Controller → Controller
send_object fields c =
    if not (is_connected c.socket) then c else record c { sent = c.sent ++ object fields ∷ [] }

abbrev pub request : String → Fields
request kind = field "_airctrl" (string kind) end

unfoldable pub set_busy : Bool → Controller → Controller
set_busy busy c =
    if same c.busy busy then c else emit (busy_changed busy) (record c { busy = busy })

unfoldable pub fail_command : String → Controller → Controller
unfolding set_busy
fail_command reason c = emit (command_failed reason) (
    set_busy false (record c {
      pending_command_id = 0;
      awaiting_confirmation = false;
      write_watchdog = none;
      confirmation = none;
    }))

-- A loss is told once, until there is a connection or a status again.
abbrev pub tell_loss : String → Controller → Controller
tell_loss reason c =
    if c.failure_reported then c else emit (failed reason) (record c { failure_reported = true })

abbrev pub start_reconnect : Controller → Controller
start_reconnect c =
    if c.active && not (is_some c.reconnect)
    then record c { reconnect = some c.reconnect_ms }
    else c

-- what the end of a connection clears in any case
abbrev pub hang_up : Controller → Controller
hang_up c = record c {
  connect_watchdog = none;
  heartbeat = none;
  heartbeat_watchdog = none;
  launch_attempted = false;
  has_status = false;
}

module _ (qt : Qt) where
  abbrev pub server_endpoint : Controller → String
  server_endpoint c = concat (c.server_host ∷ ":" ∷ qt.integer_text c.server_port ∷ [])

  unfoldable pub connection_failed : String → Controller → Controller
  connection_failed reason c = start_reconnect (
      tell_loss reason (record c {
        has_status = false;
        progress = concat ("Warte auf AirControl-Server " ∷ server_endpoint c ∷ []);
      }))

  -- the end of an editing session, or of the request for one, with its connection
  abbrev pub drop_edit : Controller → Controller
  drop_edit c =
      if c.automation_edit_held || not (c.pending_automation_request_id == 0)
      then emit
          (automation_edit_failed
            "Serververbindung während der Lua-Bearbeitung beendet; Sperre wurde freigegeben.")
          (record c {
            automation_edit_held = false;
            pending_automation_request_id = 0;
            automation_watchdog = none;
          })
      else c

  abbrev pub drop_command : Controller → Controller
  unfolding fail_command
  drop_command c =
      if c.busy
      then fail_command
          "Serververbindung wurde während des Schaltbefehls beendet · keine Wiederholung." c
      else c

  abbrev pub report_loss : Controller → Controller
  unfolding connection_failed
  report_loss c =
      if c.active then connection_failed "Verbindung zum AirControl-Server wurde beendet." c else c

  -- the slot on QTcpSocket::disconnected
  unfoldable pub on_disconnected : Controller → Controller
  unfolding fail_command connection_failed
  on_disconnected c = if c.connecting then c else report_loss (drop_command (drop_edit (hang_up c)))

  abbrev pub closed_by : Socket → Controller → Controller
  unfolding on_disconnected
  closed_by connected c = on_disconnected c
  closed_by _ c = c

  -- QTcpSocket::abort: the signal `disconnected` is delivered at once, and only where the socket was
  -- connected.
  unfoldable pub abort : Controller → Controller
  unfolding on_disconnected
  abort c = closed_by c.socket (record c { socket = unconnected })

  -- addressError; an empty text is `none`.
  unfoldable pub address_error : Controller → Option String
  address_error c =
      if c.server_host == "" || not (is_port c.server_port)
      then some "Ungültiger Servername oder TCP-Port."
      else if not (c.executable == "") && not (qt.is_executable c.executable)
      then some (concat ("Testserver fehlt: " ∷ c.executable ∷ []))
      else none
