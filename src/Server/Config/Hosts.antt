-- ===== src/Server/Config/Hosts.antt =====
-- The list of the allowed hosts in loadConfig, and resolveAllowedHosts (src/server/server.cpp).
use air_ctrl_desklet.Prelude.{
  ℕ, Bool, not, ◌||◌, List, [], ◌∷◌, Option, none, some, ◌==◌, if◌then◌else◌, nat_eq, is_empty, any,
  same_bytes,
}
use air_ctrl_desklet.Server.Connections.{trim, is_space}
use air_ctrl_desklet.Server.Config.Lines.{bad_value, unresolved, no_address, Loaded, ok, err, ◌>>=◌}
pub mod Admitted
pub mod Only

-- What the system says: environment variables, addresses, and names. `resolve` gives the numeric texts
-- of a host's addresses, an empty one where getnameinfo fails.
pub record System : Type 0 where
  pub xdg_config_home : Option (List ℕ)
  pub home : Option (List ℕ)
  pub is_ip : List ℕ → Bool
  pub resolve : List ℕ → Option (List (List ℕ))

-- The list of server/allowed_hosts at its commas; at least one piece.
abbrev push_first : ℕ → List (List ℕ) → List (List ℕ)
push_first b [] = (b ∷ []) ∷ []
push_first b (piece ∷ pieces) = (b ∷ piece) ∷ pieces

unfoldable pub split_commas : List ℕ → List (List ℕ)
split_commas [] = [] ∷ []
split_commas (b ∷ text) =
    let pieces = split_commas text in if b == b',' then [] ∷ pieces else push_first b pieces

abbrev pub is_host : List ℕ → Bool
is_host host = not (is_empty host || any is_space host)

unfoldable pub read_hosts : List (List ℕ) → Loaded (List (List ℕ))
read_hosts [] = ok []
read_hosts (piece ∷ pieces) =
    let host = trim piece in
    let rest = read_hosts pieces in
    if is_host host
    then rest >>= (λ hosts. ok (host ∷ hosts))
    else err (bad_value "server/allowed_hosts")

unfoldable pub hosts_of : Option (List ℕ) → Loaded (List (List ℕ))
unfolding split_commas read_hosts
hosts_of none = ok []
hosts_of (some list) = read_hosts (split_commas list)

abbrev pub insert_new : List ℕ → List (List ℕ) → List (List ℕ)
insert_new address addresses =
    if any (same_bytes address) addresses then addresses else address ∷ addresses

-- The addresses of one host that have a text, and those that are there.
unfoldable pub add_addresses : List (List ℕ) → List (List ℕ) → List (List ℕ)
add_addresses [] addresses = addresses
add_addresses (numeric ∷ found) addresses =
    add_addresses found (if is_empty numeric then addresses else insert_new numeric addresses)

unfoldable pub resolved : List ℕ → List (List ℕ) → Option (List (List ℕ)) → Loaded (List (List ℕ))
unfolding add_addresses
resolved host addresses none = err (unresolved host)
resolved host addresses (some found) =
    if any (λ numeric. not (is_empty numeric)) found
    then ok (add_addresses found addresses)
    else err (no_address host)

unfoldable pub resolve_allowed_hosts :
    System → List (List ℕ) → List (List ℕ) → Loaded (List (List ℕ))
unfolding add_addresses
resolve_allowed_hosts system [] addresses = ok addresses
resolve_allowed_hosts system (host ∷ hosts) addresses =
    resolved host addresses (system.resolve host) >>= resolve_allowed_hosts system hosts
