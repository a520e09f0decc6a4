-- ===== src/Desklet/Controller/Awake/Attempts.antt =====
-- Attempts to connect leave a timer behind.
use air_ctrl_desklet.Prelude.{
  ℕ, zero, suc, ◌<◌, true, false, not, ◌||◌, ◌≡◌, refl, List, [], ◌∷◌, Option, none, some, String,
  arith, nat_eq, string_eq, if-cases, leb, length,
}
use air_ctrl_desklet.Desklet.Controller.State.{
  Controller, Qt, unconnected, is_unconnected, Address, connection_failed,
}
use air_ctrl_desklet.Desklet.Controller.Connect.{
  address_at, open_address, try_next_address, start_lookup, connect_checked, connect_server,
}
use air_ctrl_desklet.Desklet.Controller.Awake.{Waits, Awake, Woken, Apart, connection_failed-Apart}

address_at-some :
    (addresses : List Address) (n : ℕ)
    → n < length addresses
    → (a : Address) × (address_at addresses n ≡ some a)
address_at-some [] n h = elim h [ ]
address_at-some (a ∷ addresses) zero h = (a, refl)
address_at-some (a ∷ addresses) (suc n) h = address_at-some addresses n (omega arith)

-- An attempt is due: nothing is connected, and no name is being resolved.
pub record Due (c : Controller) : Type 0 where
  pub is_active : c.active ≡ true
  pub closed : c.socket ≡ unconnected
  pub no_lookup : c.resolving ≡ false
  pub waits : Waits c

module _ (qt : Qt) where
  open_address-Awake :
      (o : Option Address) (c : Controller)
      → Due c
      → (a : Address) × (o ≡ some a)
      → Awake (open_address qt o c)
  open_address-Awake (some a) c h e = ground arith
  open_address-Awake none c h (a, e) = cc

  open_next :
      (c : Controller)
      → Due c
      → leb (length c.addresses) c.next_address ≡ false
      → Awake (open_address qt (address_at c.addresses c.next_address) c)
  open_next c h e =
      open_address-Awake _ c h (address_at-some c.addresses c.next_address (ground arith))

  given_up-Apart :
      (c : Controller) → Due c → Apart (record c { connecting = false; addresses = [] })
  given_up-Apart c h = ground arith

  pub try_next_address-Awake : (c : Controller) → Due c → Awake (try_next_address qt c)
  unfolding try_next_address
  try_next_address-Awake c h =
      if-cases Awake (not c.active) (λ e. cc)
        (λ e.
          if-cases Awake (leb (length c.addresses) c.next_address)
            (λ e. connection_failed-Apart qt _ _ (given_up-Apart c h)) (λ e. open_next c h e))

  start_lookup-Awake :
      (o : Option Address) (c : Controller)
      → c.active ≡ true
      → Apart c
      → Awake (start_lookup qt o c)
  unfolding try_next_address
  start_lookup-Awake (some a) c h k =
      try_next_address-Awake _
        (record { is_active = h; closed = k.closed; no_lookup = k.no_lookup; waits = ground arith })
  start_lookup-Awake none c h k = ground arith

  progress-Apart : (text : String) (c : Controller) → Apart c → Apart (record c { progress = text })
  progress-Apart text c h = ground arith

  connect_checked-Awake :
      (o : Option String) (c : Controller)
      → c.active ≡ true
      → Apart c
      → Awake (connect_checked qt o c)
  unfolding connection_failed try_next_address
  connect_checked-Awake (some error) c h k = connection_failed-Apart qt error c k
  connect_checked-Awake none c h k = start_lookup-Awake _ _ h (progress-Apart _ c k)

  -- A timer that has expired, or an end that was asked for, is followed by an attempt or a new timer.
  pub connect_server-Awake : (c : Controller) → Woken c → Awake (connect_server qt c)
  unfolding connect_server
  connect_server-Awake c h =
      if-cases Awake (not c.active || c.resolving || c.connecting || not (is_unconnected c.socket))
        (λ e. ground arith) (λ e. connect_checked-Awake _ c (ground arith) (ground arith))
