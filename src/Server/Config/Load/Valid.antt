-- ===== src/Server/Config/Load/Valid.antt =====
-- What a configuration that was loaded satisfies.
use air_ctrl_desklet.Prelude.{
  ℕ, ◌≤◌, ◌≡◌, ◌≢◌, refl, sym, subst, Bool, true, false, ◌&&◌, List, [], ◌∷◌, Option, none, some,
  String, nat_eq, leb, is_empty, All, codes, same_bytes, same_bytes_refl, arith, if-cases,
}
use air_ctrl_desklet.Server.Connections.{trim}
use air_ctrl_desklet.Server.Config.Numbers.{within, from_chars, parse_integer}
use air_ctrl_desklet.Server.Config.Lines.{Loaded, ok, ◌>>=◌, read_lines, split_lines}
use air_ctrl_desklet.Server.Config.Load.{
  DeviceConfig, ServerConfig, is_absolute, trimmed_or, find_value, flag_of, checked, setting,
  has_break, values_fit, assembled, fitting, read_device, load_values, load_config,
}
use air_ctrl_desklet.Server.Config.Hosts.{
  System, is_host, split_commas, read_hosts, hosts_of, resolve_allowed_hosts,
}
use air_ctrl_desklet.Server.Config.Ensures.{Ensures, Ensures-bind, Ensures-any, Ensures-both}
use air_ctrl_desklet.Server.Config.Hosts.Admitted.{
  Grown, Contains, Admitted, resolve_allowed_hosts-Admitted,
}
use air_ctrl_desklet.Server.Config.Hosts.Only.{Only, owned, resolve_allowed_hosts-Only}

abbrev Between : ℕ → ℕ → ℕ → Type 0
Between minimum maximum n = (minimum ≤ n) × (n ≤ maximum)

within-Between :
    (minimum maximum : ℕ) (name : String) (o : Option ℕ)
    → Ensures (Between minimum maximum) (checked name (within minimum maximum o))
within-Between minimum maximum name none = tt
within-Between minimum maximum name (some n) =
    if-cases (λ (p : Option ℕ). Ensures (Between minimum maximum) (checked name p))
      (leb minimum n && leb n maximum) (λ e. ground arith) (λ e. tt)

setting-Between :
    (name : String) (minimum maximum default : ℕ) (values : List (List ℕ × List ℕ))
    → Between minimum maximum default
    → Ensures (Between minimum maximum) (setting name minimum maximum default values)
unfolding setting parse_integer
setting-Between name minimum maximum default values h = found (find_value name values)
  where
    found :
        (o : Option (List ℕ))
        → Ensures (Between minimum maximum) (elim o [
          | none ↦ ok default
          | some value ↦ checked name (parse_integer value minimum maximum)
        ])
    found none = h
    found (some value) = within-Between minimum maximum name (from_chars value)

-- The limits of the table of settings.
pub record InLimits (port : ℕ) (device : DeviceConfig) : Type 0 where
  pub listen_port : Between 1 65535 port
  pub device_port : Between 1 65535 device.port
  pub local_port : device.local_port ≤ 65535
  pub reconnect : Between 50 300000 device.reconnect_ms
  pub request : Between 50 86400000 device.request_ms
  pub initial_status : Between 50 86400000 device.initial_status_ms
  pub idle : Between 50 86400000 device.idle_ms
  pub keepalive : device.keepalive_ms ≤ 86400000
  pub observe_refreshes : device.observe_refreshes ≤ 10
  pub cancel_grace : device.cancel_grace_ms ≤ 10000

abbrev Numbers : List ℕ → ℕ × DeviceConfig → Type 0
Numbers host (port, device) = InLimits port device × (device.host ≡ host)

limited :
    (name : String) (minimum maximum default : ℕ) (host : List ℕ) (values : List (List ℕ × List ℕ))
    (f : ℕ → Loaded (ℕ × DeviceConfig))
    → Between minimum maximum default
    → ((n : ℕ) → Between minimum maximum n → Ensures (Numbers host) (f n))
    → Ensures (Numbers host) (setting name minimum maximum default values >>= f)
limited name minimum maximum default host values f h k =
    Ensures-bind (Between minimum maximum) (Numbers host)
      (setting name minimum maximum default values) f
      (setting-Between name minimum maximum default values h) k

read_device-Numbers :
    (host : List ℕ) (values : List (List ℕ × List ℕ))
    → Ensures (Numbers host) (read_device host values)
unfolding read_device
read_device-Numbers host values =
    limited "server/port" 1 65535 5680 host values _ (omega arith) λ a pa.
      limited "device/port" 1 65535 5683 host values _ (omega arith) λ b pb.
        limited "device/local_port" 0 65535 5680 host values _ (omega arith) λ c pc.
          limited "device/reconnect_ms" 50 300000 10000 host values _ (omega arith) λ d pd.
            limited "device/request_ms" 50 86400000 60000 host values _ (omega arith) λ e pe.
              limited "device/initial_status_ms" 50 86400000 120000 host values _ (omega arith)
                λ f pf.
                  limited "device/idle_ms" 50 86400000 90000 host values _ (omega arith) λ g pg.
                    limited "device/keepalive_ms" 0 86400000 20000 host values _ (omega arith)
                      λ h ph.
                        limited "device/observe_refreshes" 0 10 1 host values _ (omega arith)
                          λ i pi.
                            limited "device/cancel_grace_ms" 0 10000 300 host values _ (omega arith)
                              λ j pj. (
                                record {
                                  listen_port = pa;
                                  device_port = pb;
                                  local_port = pc.1;
                                  reconnect = pd;
                                  request = pe;
                                  initial_status = pf;
                                  idle = pg;
                                  keepalive = ph.1;
                                  observe_refreshes = pi.1;
                                  cancel_grace = pj.1;
                                },
                                refl,
                              )

-- What the last check of the values asks for.
pub record Paths (system : System) (c : ServerConfig) : Type 0 where
  pub listen_address : system.is_ip c.listen_address ≡ true
  pub device_host : is_empty c.device.host ≡ false
  pub status_log : is_absolute c.status_log_path ≡ true
  pub status_log_line : has_break c.status_log_path ≡ false
  pub script : is_absolute c.script_path ≡ true
  pub script_line : has_break c.script_path ≡ false
  pub state : is_absolute c.state_path ≡ true
  pub state_line : has_break c.state_path ≡ false
  pub apart : c.script_path ≢ c.state_path

same_bytes-apart : (xs ys : List ℕ) → same_bytes xs ys ≡ false → xs ≢ ys
same_bytes-apart xs ys h e =
    let twice : same_bytes xs xs ≡ false = subst (λ l. same_bytes xs l ≡ false) (sym e) h in
    let once = same_bytes_refl xs in ground arith

values_fit-Paths :
    (system : System) (c : ServerConfig) → values_fit system c ≡ true → Paths system c
values_fit-Paths system c h = record {
  listen_address = ground arith;
  device_host = ground arith;
  status_log = ground arith;
  status_log_line = ground arith;
  script = ground arith;
  script_line = ground arith;
  state = ground arith;
  state_line = ground arith;
  apart = same_bytes-apart c.script_path c.state_path (ground arith);
}

read_hosts-All :
    (pieces : List (List ℕ)) → Ensures (All (λ h. is_host h ≡ true)) (read_hosts pieces)
unfolding read_hosts
read_hosts-All [] = tt
read_hosts-All (piece ∷ pieces) =
    if-cases (Ensures (All (λ h. is_host h ≡ true))) (is_host (trim piece))
      (λ e. Ensures-bind _ _ (read_hosts pieces) _ (read_hosts-All pieces) (λ hosts h. (e, h)))
      (λ e. tt)

hosts_of-All : (o : Option (List ℕ)) → Ensures (All (λ h. is_host h ≡ true)) (hosts_of o)
unfolding hosts_of
hosts_of-All none = tt
hosts_of-All (some list) = read_hosts-All (split_commas list)

-- What a configuration that was loaded satisfies.
pub record IsValid (system : System) (c : ServerConfig) : Type 0 where
  pub limits : InLimits c.listen_port c.device
  pub paths : Paths system c
  pub hosts : All (λ h. is_host h ≡ true) c.allowed_hosts
  pub admitted : All (Admitted system c.allowed_addresses) c.allowed_hosts
  pub only : (a : List ℕ) → Contains c.allowed_addresses a → owned system c.allowed_hosts a ≡ true

fitting-IsValid :
    (system : System) (c : ServerConfig)
    → InLimits c.listen_port c.device
    → All (λ h. is_host h ≡ true) c.allowed_hosts
    → Ensures (IsValid system) (fitting system c)
unfolding fitting
fitting-IsValid system c limits hosts =
    if-cases (Ensures (IsValid system)) (values_fit system c)
      (λ e.
        Ensures-bind _ (IsValid system) (resolve_allowed_hosts system c.allowed_hosts []) _
          (Ensures-both (λ after. Grown [] after × All (Admitted system after) c.allowed_hosts)
            (Only (owned system c.allowed_hosts) [])
            (resolve_allowed_hosts system c.allowed_hosts [])
            (resolve_allowed_hosts-Admitted system c.allowed_hosts [])
            (resolve_allowed_hosts-Only system c.allowed_hosts []))
          (λ addresses h. record {
            limits = limits;
            paths = values_fit-Paths system (record c { allowed_addresses = addresses }) e;
            hosts = hosts;
            admitted = h.0.1;
            only = λ a k. let allows = h.1 a k in ground arith;
          }))
      (λ e. tt)

load_values-IsValid :
    (system : System) (values : List (List ℕ × List ℕ))
    → Ensures (IsValid system) (load_values system values)
unfolding load_values assembled
load_values-IsValid system values =
    let host = trimmed_or (codes "AC2729-10") (find_value "device/host" values) in
    Ensures-bind (All (λ h. is_host h ≡ true)) (IsValid system)
      (hosts_of (find_value "server/allowed_hosts" values)) _
      (hosts_of-All (find_value "server/allowed_hosts" values))
      (λ hosts h.
        Ensures-bind (λ b. Unit) (IsValid system) (flag_of (find_value "automation/enabled" values))
          _ (Ensures-any (flag_of (find_value "automation/enabled" values)))
          (λ enabled u.
            Ensures-bind (Numbers host) (IsValid system) (read_device host values) _
              (read_device-Numbers host values)
              (λ numbers n.
                fitting-IsValid system (assembled system values hosts enabled numbers) n.0 h)))

load_config-Ensures :
    (system : System) (file : Option (List ℕ × Bool))
    → Ensures (IsValid system) (load_config system file)
unfolding load_config
load_config-Ensures system none = tt
load_config-Ensures system (some (bytes, whole)) =
    Ensures-bind (λ r. Unit) (IsValid system)
      (read_lines (split_lines bytes) (record { section = []; values = [] })) _ (Ensures-any _)
      (λ r u.
        if-cases (Ensures (IsValid system)) whole (λ h. load_values-IsValid system r.values)
          (λ h. tt))

-- A configuration that is loaded has every number within its limits, an IP address to listen on, a
-- host of the device, absolute paths without line breaks, the script's and the state's apart, and
-- allowed hosts without spaces that all resolve. The allowed addresses are addresses of these hosts,
-- every one that has a text, and at least one for each host.
pub load_config-IsValid :
    (system : System) (file : Option (List ℕ × Bool)) (c : ServerConfig)
    → load_config system file ≡ ok c
    → IsValid system c
load_config-IsValid system file c e =
    subst (Ensures (IsValid system)) e (load_config-Ensures system file)
