-- ===== src/Server/Config/Hosts/Admitted.antt =====
-- The addresses of the allowed hosts, by resolveAllowedHosts.
use air_ctrl_desklet.Prelude.{
  ℕ, ◌≡◌, refl, ap, Bool, true, false, not, ◌||◌, List, [], ◌∷◌, Option, none, some, if◌then◌else◌,
  nat_eq, is_empty, any, All, All-map, same_bytes, same_bytes_refl, arith, if-cases,
}
use air_ctrl_desklet.Server.Config.Hosts.{
  System, insert_new, add_addresses, resolved, resolve_allowed_hosts,
}
use air_ctrl_desklet.Server.Config.Ensures.{Ensures, Ensures-bind, Ensures-map}

abbrev pub Contains : List (List ℕ) → List ℕ → Type 0
Contains addresses a = any (same_bytes a) addresses ≡ true

-- A host that may connect: its name resolves, and every address of it that has a text is allowed, one
-- at least.
pub record Admitted (system : System) (addresses : List (List ℕ)) (host : List ℕ) : Type 0 where
  pub addresses_of : List (List ℕ)
  pub resolves : system.resolve host ≡ some addresses_of
  pub allowed : All (λ a. is_empty a ≡ false → Contains addresses a) addresses_of
  pub some_address : any (λ a. not (is_empty a)) addresses_of ≡ true

or-true : (a b : Bool) → b ≡ true → a || b ≡ true
or-true true b h = refl
or-true false b h = h

insert_new-keeps :
    (n a : List ℕ) (addresses : List (List ℕ))
    → Contains addresses a
    → Contains (if is_empty n then addresses else insert_new n addresses) a
insert_new-keeps n a addresses h =
    if-cases (λ l. Contains l a) (is_empty n) (λ e. h)
      (λ e.
        if-cases (λ l. Contains l a) (any (same_bytes n) addresses) (λ e'. h) (λ e'. or-true _ _ h))

insert_new-adds :
    (n : List ℕ) (addresses : List (List ℕ))
    → is_empty n ≡ false
    → Contains (if is_empty n then addresses else insert_new n addresses) n
insert_new-adds n addresses h =
    if-cases (λ l. Contains l n) (is_empty n) (λ e. ground arith)
      (λ e.
        if-cases (λ l. Contains l n) (any (same_bytes n) addresses) (λ e'. e')
          (λ e'. ap (λ b. b || any (same_bytes n) addresses) (same_bytes_refl n)))

add_addresses-keeps :
    (found addresses : List (List ℕ)) (a : List ℕ)
    → Contains addresses a
    → Contains (add_addresses found addresses) a
unfolding add_addresses
add_addresses-keeps [] addresses a h = h
add_addresses-keeps (n ∷ found) addresses a h =
    add_addresses-keeps found _ a (insert_new-keeps n a addresses h)

add_addresses-All :
    (found addresses : List (List ℕ))
    → All (λ a. is_empty a ≡ false → Contains (add_addresses found addresses) a) found
unfolding add_addresses
add_addresses-All [] addresses = tt
add_addresses-All (n ∷ found) addresses =
    (λ h. add_addresses-keeps found _ n (insert_new-adds n addresses h), add_addresses-All found _)

abbrev pub Grown : List (List ℕ) → List (List ℕ) → Type 0
Grown before after = (a : List ℕ) → Contains before a → Contains after a

Admitted-Grown :
    (system : System) (before after : List (List ℕ)) (host : List ℕ)
    → Grown before after
    → Admitted system before host
    → Admitted system after host
Admitted-Grown system before after host grown h = record {
  addresses_of = h.addresses_of;
  resolves = h.resolves;
  allowed =
      All-map (λ a. is_empty a ≡ false → Contains before a)
        (λ a. is_empty a ≡ false → Contains after a) h.addresses_of (λ a k e. grown a (k e))
        h.allowed;
  some_address = h.some_address;
}

resolved-Admitted :
    (system : System) (host : List ℕ) (addresses : List (List ℕ)) (o : Option (List (List ℕ)))
    → system.resolve host ≡ o
    → Ensures
        (λ after. Grown addresses after × Admitted system after host)
        (resolved host addresses o)
unfolding resolved
resolved-Admitted system host addresses none e = tt
resolved-Admitted system host addresses (some found) e =
    if-cases (λ m. Ensures (λ after. Grown addresses after × Admitted system after host) m)
      (any (λ numeric. not (is_empty numeric)) found)
      (λ h. (
        λ a k. add_addresses-keeps found addresses a k,
        record {
          addresses_of = found;
          resolves = e;
          allowed = add_addresses-All found addresses;
          some_address = h;
        },
      ))
      (λ h. tt)

pub resolve_allowed_hosts-Admitted :
    (system : System) (hosts addresses : List (List ℕ))
    → Ensures
        (λ after. Grown addresses after × All (Admitted system after) hosts)
        (resolve_allowed_hosts system hosts addresses)
unfolding resolve_allowed_hosts
resolve_allowed_hosts-Admitted system [] addresses = (λ a h. h, tt)
resolve_allowed_hosts-Admitted system (host ∷ hosts) addresses =
    Ensures-bind (λ after. Grown addresses after × Admitted system after host) _
      (resolved host addresses (system.resolve host)) (resolve_allowed_hosts system hosts)
      (resolved-Admitted system host addresses (system.resolve host) refl)
      (λ between h.
        Ensures-map _ _ (resolve_allowed_hosts system hosts between)
          (λ after k.
            (λ a c. k.0 a (h.0 a c), (Admitted-Grown system between after host k.0 h.1, k.1)))
          (resolve_allowed_hosts-Admitted system hosts between))
