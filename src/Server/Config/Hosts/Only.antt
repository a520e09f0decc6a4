-- ===== src/Server/Config/Hosts/Only.antt =====
-- Only the addresses of the allowed hosts are allowed, by resolveAllowedHosts.
use air_ctrl_desklet.Prelude.{
  ℕ, ◌≡◌, Bool, true, false, not, ◌||◌, List, [], ◌∷◌, Option, none, some, if◌then◌else◌, nat_eq,
  is_empty, any, same_bytes, arith, if-cases,
}
use air_ctrl_desklet.Server.Config.Hosts.{
  System, insert_new, add_addresses, resolved, resolve_allowed_hosts,
}
use air_ctrl_desklet.Server.Config.Ensures.{Ensures, Ensures-bind, Ensures-map}
use air_ctrl_desklet.Server.Config.Hosts.Admitted.{Contains}

abbrev pub has_address : List ℕ → Option (List (List ℕ)) → Bool
has_address a none = false
has_address a (some found) = any (same_bytes a) found

-- Whether an address is one of the hosts'.
abbrev pub owned : System → List (List ℕ) → List ℕ → Bool
owned system hosts a = any (λ host. has_address a (system.resolve host)) hosts

-- A lookup adds nothing but what the second test allows.
abbrev pub Only : (List ℕ → Bool) → List (List ℕ) → List (List ℕ) → Type 0
Only allows before after =
    (a : List ℕ) → Contains after a → allows a || any (same_bytes a) before ≡ true

insert_new-Only :
    (n : List ℕ) (addresses : List (List ℕ))
    → Only
        (λ a. same_bytes a n)
        addresses
        (if is_empty n then addresses else insert_new n addresses)
insert_new-Only n addresses a =
    if-cases (λ l. Contains l a → same_bytes a n || any (same_bytes a) addresses ≡ true)
      (is_empty n) (λ e h. ground arith)
      (λ e.
        if-cases (λ l. Contains l a → same_bytes a n || any (same_bytes a) addresses ≡ true)
          (any (same_bytes n) addresses) (λ e' h. ground arith) (λ e' h. h))

add_addresses-Only :
    (found addresses : List (List ℕ))
    → Only (λ a. any (same_bytes a) found) addresses (add_addresses found addresses)
unfolding add_addresses
add_addresses-Only [] addresses a h = h
add_addresses-Only (n ∷ found) addresses a h =
    let rest = add_addresses-Only found _ a h in
    let first = insert_new-Only n addresses a in ground arith

resolved-Only :
    (host : List ℕ) (addresses : List (List ℕ)) (o : Option (List (List ℕ)))
    → Ensures (Only (λ a. has_address a o) addresses) (resolved host addresses o)
unfolding resolved
resolved-Only host addresses none = tt
resolved-Only host addresses (some found) =
    if-cases (Ensures (Only (λ a. has_address a (some found)) addresses))
      (any (λ numeric. not (is_empty numeric)) found) (λ h. add_addresses-Only found addresses)
      (λ h. tt)

pub resolve_allowed_hosts-Only :
    (system : System) (hosts addresses : List (List ℕ))
    → Ensures (Only (owned system hosts) addresses) (resolve_allowed_hosts system hosts addresses)
unfolding resolve_allowed_hosts
resolve_allowed_hosts-Only system [] addresses = λ a h. h
resolve_allowed_hosts-Only system (host ∷ hosts) addresses =
    Ensures-bind (Only (λ a. has_address a (system.resolve host)) addresses) _
      (resolved host addresses (system.resolve host)) (resolve_allowed_hosts system hosts)
      (resolved-Only host addresses (system.resolve host))
      (λ between h.
        Ensures-map _ _ (resolve_allowed_hosts system hosts between)
          (λ after k a c. let late = k a c in let early = h a in ground arith)
          (resolve_allowed_hosts-Only system hosts between))
