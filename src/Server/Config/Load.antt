-- ===== src/Server/Config/Load.antt =====
-- loadConfig with resolveAllowedHosts and defaultAutomationDirectory (src/server/server.cpp).
use air_ctrl_desklet.Prelude.{
  ℕ, Bool, false, not, ◌||◌, List, [], ◌∷◌, ◌++◌, Option, none, some, String, ◌==◌, if◌then◌else◌,
  nat_eq, is_empty, any, codes, same_bytes,
}
use air_ctrl_desklet.Server.Connections.{trim}
use air_ctrl_desklet.Server.Config.Numbers.{parse_integer, parse_boolean}
use air_ctrl_desklet.Server.Config.Lines.{
  no_file, unreadable, bad_values, bad_value, Loaded, ok, err, ◌>>=◌, read_lines, split_lines,
}
use air_ctrl_desklet.Server.Config.Hosts.{System, hosts_of, resolve_allowed_hosts}
pub mod Valid

pub record DeviceConfig : Type 0 where
  pub host : List ℕ
  pub port : ℕ
  pub local_port : ℕ
  pub reconnect_ms : ℕ
  pub request_ms : ℕ
  pub initial_status_ms : ℕ
  pub idle_ms : ℕ
  pub keepalive_ms : ℕ
  pub observe_refreshes : ℕ
  pub cancel_grace_ms : ℕ

-- ServerConfig, with the fields of AutomationConfig.
pub record ServerConfig : Type 0 where
  pub listen_address : List ℕ
  pub listen_port : ℕ
  pub allowed_hosts : List (List ℕ)
  pub allowed_addresses : List (List ℕ)
  pub status_log_path : List ℕ
  pub device : DeviceConfig
  pub script_path : List ℕ
  pub state_path : List ℕ
  pub enabled_by_default : Bool

abbrev pub is_absolute : List ℕ → Bool
is_absolute [] = false
is_absolute (b ∷ path) = b == b'/'

abbrev ends_in_slash : List ℕ → Bool
ends_in_slash [] = false
ends_in_slash (b ∷ []) = b == b'/'
ends_in_slash (b ∷ c ∷ path) = ends_in_slash (c ∷ path)

-- std::filesystem::path / with a relative name
abbrev join : List ℕ → List ℕ → List ℕ
join [] name = name
join (b ∷ path) name =
    if ends_in_slash (b ∷ path) then (b ∷ path) ++ name else (b ∷ path) ++ b'/' ∷ name

abbrev below_home : Option (List ℕ) → List ℕ
below_home none = []
below_home (some []) = []
below_home (some (b ∷ home)) = join (join (b ∷ home) (codes ".config")) (codes "airctrl-server")

unfoldable pub default_automation_directory : System → List ℕ
default_automation_directory system = elim system.xdg_config_home [
  | none ↦ below_home system.home
  | some xdg ↦ if is_absolute xdg then join xdg (codes "airctrl-server") else below_home system.home
]

-- values.find
unfoldable pub find_value : String → List (List ℕ × List ℕ) → Option (List ℕ)
find_value name [] = none
find_value name ((key, value) ∷ values) =
    if same_bytes key (codes name) then some value else find_value name values

abbrev pub trimmed_or : List ℕ → Option (List ℕ) → List ℕ
trimmed_or default none = default
trimmed_or default (some value) = trim value

abbrev flag_of : Option (List ℕ) → Loaded Bool
unfolding parse_boolean
flag_of none = ok false
flag_of (some value) = elim (parse_boolean (trim value)) [
  | none ↦ err (bad_value "automation/enabled")
  | some b ↦ ok b
]

abbrev pub checked : String → Option ℕ → Loaded ℕ
checked name none = err (bad_value name)
checked name (some n) = ok n

-- one row of the table of settings: its name, limits, and default
unfoldable pub setting : String → ℕ → ℕ → ℕ → List (List ℕ × List ℕ) → Loaded ℕ
unfolding find_value parse_integer
setting name minimum maximum default values = elim (find_value name values) [
  | none ↦ ok default
  | some value ↦ checked name (parse_integer value minimum maximum)
]

abbrev pub has_break : List ℕ → Bool
has_break = any (λ b. b == 13 || b == 10)

-- The condition of the last check, negated.
abbrev pub values_fit : System → ServerConfig → Bool
values_fit system c = not (
    is_empty c.listen_address
    || not (system.is_ip c.listen_address)
    || is_empty c.device.host
    || is_empty c.status_log_path
    || not (is_absolute c.status_log_path)
    || has_break c.status_log_path
    || is_empty c.script_path
    || is_empty c.state_path
    || not (is_absolute c.script_path)
    || not (is_absolute c.state_path)
    || same_bytes c.script_path c.state_path
    || has_break c.script_path
    || has_break c.state_path)

-- The rows of the table in their order.
unfoldable pub read_device : List ℕ → List (List ℕ × List ℕ) → Loaded (ℕ × DeviceConfig)
unfolding setting
read_device host values = do
  listen_port ← setting "server/port" 1 65535 5680 values
  port ← setting "device/port" 1 65535 5683 values
  local_port ← setting "device/local_port" 0 65535 5680 values
  reconnect_ms ← setting "device/reconnect_ms" 50 300000 10000 values
  request_ms ← setting "device/request_ms" 50 86400000 60000 values
  initial_status_ms ← setting "device/initial_status_ms" 50 86400000 120000 values
  idle_ms ← setting "device/idle_ms" 50 86400000 90000 values
  keepalive_ms ← setting "device/keepalive_ms" 0 86400000 20000 values
  observe_refreshes ← setting "device/observe_refreshes" 0 10 1 values
  cancel_grace_ms ← setting "device/cancel_grace_ms" 0 10000 300 values
  ok (
    listen_port,
    record {
      host = host;
      port = port;
      local_port = local_port;
      reconnect_ms = reconnect_ms;
      request_ms = request_ms;
      initial_status_ms = initial_status_ms;
      idle_ms = idle_ms;
      keepalive_ms = keepalive_ms;
      observe_refreshes = observe_refreshes;
      cancel_grace_ms = cancel_grace_ms;
    },
  )

-- The configuration, before the addresses of the allowed hosts are looked up.
abbrev pub assembled :
    System → List (List ℕ × List ℕ) → List (List ℕ) → Bool → ℕ × DeviceConfig → ServerConfig
unfolding find_value default_automation_directory
assembled system values hosts enabled (port, device) =
    let directory = default_automation_directory system in
    record {
      listen_address = trimmed_or (codes "0.0.0.0") (find_value "server/listen_address" values);
      listen_port = port;
      allowed_hosts = hosts;
      allowed_addresses = [];
      status_log_path =
          trimmed_or (codes "/var/log/airctrl.log") (find_value "logging/status_file" values);
      device = device;
      script_path =
          trimmed_or (join directory (codes "automation.lua"))
            (find_value "automation/script_file" values);
      state_path =
          trimmed_or (join directory (codes "automation-state.json"))
            (find_value "automation/state_file" values);
      enabled_by_default = enabled;
    }

abbrev pub fitting : System → ServerConfig → Loaded ServerConfig
unfolding resolve_allowed_hosts
fitting system config =
    if values_fit system config
    then resolve_allowed_hosts system config.allowed_hosts []
      >>= (λ addresses. ok (record config { allowed_addresses = addresses }))
    else err bad_values

-- What stands behind the loop over the lines.
unfoldable pub load_values : System → List (List ℕ × List ℕ) → Loaded ServerConfig
unfolding hosts_of flag_of find_value read_device assembled fitting
load_values system values = do
  hosts ← hosts_of (find_value "server/allowed_hosts" values)
  enabled ← flag_of (find_value "automation/enabled" values)
  numbers ← read_device (trimmed_or (codes "AC2729-10") (find_value "device/host" values)) values
  fitting system (assembled system values hosts enabled numbers)

-- The bytes of the file, if it can be opened, and whether reading them ended at the end of the file.
unfoldable pub load_config : System → Option (List ℕ × Bool) → Loaded ServerConfig
unfolding split_lines read_lines load_values
load_config system none = err no_file
load_config system (some (bytes, whole)) = do
  reading ← read_lines (split_lines bytes) (record { section = []; values = [] })
  if whole then load_values system reading.values else err unreadable
