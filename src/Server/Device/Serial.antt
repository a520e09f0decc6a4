-- ===== src/Server/Device/Serial.antt =====
-- The worker calls the device for one command at a time and loses none of them.
use air_ctrl_desklet.Prelude.{
  ◌≡◌, ◌⊎◌, inl, inr, refl, Bool, true, false, not, ◌||◌, List, [], ◌∷◌, arith,
}
use air_ctrl_desklet.Server.State.{Server}
use air_ctrl_desklet.Server.Device.{
  Worker, outside, connecting, waiting, finished, session, observing, picking, taking, calling,
  Entry, began, received, called, System, Move, move, Step, Steps, here, next, begin, finish,
  connect, connect_failed, leave, observe, status, observe_failed, observed, abandon, checked, take,
  nothing, answer, wake, main, Restarting, interrupted,
}

-- Since the last call of the device a status has come, or a session has begun.
abbrev pub Fresh : List Entry → Type 0
Fresh [] = Unit
Fresh (called c ∷ h) = ⊥
Fresh (received ∷ h) = Unit
Fresh (began ∷ h) = Unit

-- Between two calls a status came or a session began.
abbrev pub Serial : List Entry → Type 0
Serial [] = Unit
Serial (called c ∷ h) = Fresh h × Serial h
Serial (received ∷ h) = Serial h
Serial (began ∷ h) = Serial h

-- What the worker's flag promises.
abbrev Promised : {S : Type 0} → Worker → Server S → List Entry → Type 0
Promised connecting s h = Fresh h
Promised (session r) s h = (r ≡ false) → Fresh h
Promised (observing r) s h = (r ≡ false) → Fresh h
Promised (picking r) s h = Restarting s ⊎ Fresh h
Promised (taking r) s h = Fresh h
Promised _ s h = Unit

abbrev Kept : {S : Type 0} → System S → Type 0
Kept x = Serial x.history × Promised x.worker x.server x.history

Promised-main :
    {S : Type 0} (w : Worker) (s t : Server S) (h : List Entry)
    → (Restarting s → Restarting t)
    → Promised w s h
    → Promised w t h
Promised-main outside s t h m p = tt
Promised-main connecting s t h m p = p
Promised-main waiting s t h m p = tt
Promised-main finished s t h m p = tt
Promised-main (session r) s t h m p = p
Promised-main (observing r) s t h m p = p
Promised-main (picking r) s t h m (inl q) = inl (m q)
Promised-main (picking r) s t h m (inr q) = inr q
Promised-main (taking r) s t h m p = p
Promised-main (calling c) s t h m p = tt

picked :
    {S : Type 0} (r : Bool) (s : Server S) (h : List Entry)
    → interrupted (not r) s ≡ true
    → ((r ≡ false) → Fresh h)
    → Restarting s ⊎ Fresh h
unfolding interrupted
picked false s h i p = inr (p refl)
picked true s h i p = inl (only s.stopping s.reconnect_requested i)
  where
    only : (a b : Bool) → (a || b || false) ≡ true → (a || b) ≡ true
    only true b i = refl
    only false true i = refl
    only false false i = i

clash {ℓ} : {A : Type ℓ} (b : Bool) → b ≡ true → b ≡ false → A
clash b p q = ground arith

Move-Kept : {S : Type 0} {x y : System S} → Move x y → Kept x → Kept y
Move-Kept (begin s h e) (a, p) = (a, tt)
Move-Kept (finish s h e) (a, p) = (a, tt)
Move-Kept (connect s h) (a, p) = (a, λ e. p)
Move-Kept (connect_failed s h problem) (a, p) = (a, tt)
Move-Kept (leave r s h e) (a, p) = (a, tt)
Move-Kept (observe r s h e) (a, p) = (a, p)
Move-Kept (status r s h value) (a, p) = (a, λ e. tt)
Move-Kept (observe_failed r s h problem) (a, p) = (a, tt)
Move-Kept (observed r s h i) (a, p) = (a, picked r s h i p)
Move-Kept (abandon r s h e) (a, p) = (a, tt)
Move-Kept (checked r s h e) (a, inl q) = clash (s.stopping || s.reconnect_requested) q e
Move-Kept (checked r s h e) (a, inr q) = (a, q)
Move-Kept (take r s h c rest e) (a, p) = ((p, a), tt)
Move-Kept (nothing r s h e) (a, p) = (a, λ f. p)
Move-Kept (answer c s h v) (a, p) = (a, λ e. clash true refl e)
Move-Kept (wake s h) (a, p) = (a, tt)

Step-Kept : {S : Type 0} {x y : System S} → Step x y → Kept x → Kept y
Step-Kept (move m) k = Move-Kept m k
Step-Kept (main w s t h m) (a, p) = (a, Promised-main w s t h m p)

Steps-Kept : {S : Type 0} {x y : System S} → Steps x y → Kept x → Kept y
Steps-Kept here k = k
Steps-Kept (next steps step) k = Step-Kept step (Steps-Kept steps k)

-- From the start of the worker, whatever the device answers, whatever the main thread does and however
-- the two interleave, the device is never called for a second command unless a status has come, or a
-- new session has begun, since the call before.
pub Steps-Serial :
    {S : Type 0} (s : Server S) (x : System S)
    → Steps (record { worker = outside; server = s; history = [] }) x
    → Serial x.history
Steps-Serial s x steps = (Steps-Kept steps (tt, tt)).0
