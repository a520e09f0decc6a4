-- ===== src/Server/Config/Tests.antt =====
-- The theorems about loadConfig at concrete inputs (src/server/server.cpp).
use air_ctrl_desklet.Prelude.{
  ℕ, ◌≡◌, refl, true, false, List, [], ◌∷◌, ◌++◌, none, some, if◌then◌else◌, arith, codes,
  same_bytes,
}
use air_ctrl_desklet.Automation.Text.{newline}
use air_ctrl_desklet.Server.Config.Numbers.{parse_integer}
use air_ctrl_desklet.Server.Config.Numbers.Printed.{decimal, parse_integer-decimal}
use air_ctrl_desklet.Server.Config.Lines.{Loaded, ok, err}
use air_ctrl_desklet.Server.Config.Load.{ServerConfig, load_config}
use air_ctrl_desklet.Server.Config.Hosts.{System, resolved}
use air_ctrl_desklet.Server.Config.Load.Valid.{IsValid, load_config-IsValid}

-- A system without the two variables, on which one name has an address, and where a text that begins
-- with a digit is taken for an address.
abbrev system : System
system = record {
  xdg_config_home = some (codes "/etc");
  home = none;
  is_ip = λ text. same_bytes text (codes "0.0.0.0");
  resolve = λ host. if same_bytes host (codes "desk") then some (codes "10.0.0.2" ∷ []) else none;
}

abbrev file : List ℕ
file =
    codes "# test"
    ++ newline ∷ codes "[server]"
    ++ newline ∷ codes "port = 5681"
    ++ newline ∷ codes "allowed_hosts = desk"

abbrev default_config : ServerConfig
default_config = record {
  listen_address = [];
  listen_port = 0;
  allowed_hosts = [];
  allowed_addresses = [];
  status_log_path = [];
  device = record {
    host = [];
    port = 0;
    local_port = 0;
    reconnect_ms = 0;
    request_ms = 0;
    initial_status_ms = 0;
    idle_ms = 0;
    keepalive_ms = 0;
    observe_refreshes = 0;
    cancel_grace_ms = 0;
  };
  script_path = [];
  state_path = [];
  enabled_by_default = false;
}

abbrev result : Loaded ServerConfig → ServerConfig
result (ok c) = c
result (err e) = default_config

abbrev loaded : ServerConfig
unfolding load_config
loaded = result (load_config system (some (file, true)))

loaded_port : loaded.listen_port ≡ 5681
unfolding loaded resolved
loaded_port = refl

loaded_address : loaded.allowed_addresses ≡ codes "10.0.0.2" ∷ []
unfolding loaded resolved
loaded_address = refl

load_config-IsValid_example : IsValid system loaded
unfolding loaded load_config resolved
load_config-IsValid_example = load_config-IsValid system (some (file, true)) loaded refl

parse_integer-decimal_example : parse_integer (decimal 5681) 1 65535 ≡ some 5681
parse_integer-decimal_example = parse_integer-decimal 5681 1 65535 (omega arith)
