-- ===== src/Server/Device/Ending.antt =====
-- After shutdown the device worker comes to its end (src/server/server.cpp, shutdown and deviceLoop).
use air_ctrl_desklet.Prelude.{
  ℕ, ◌+◌, ◌≤◌, ◌<◌, ◌≡◌, ◌⊎◌, inl, inr, refl, ap, Bool, true, false, ◌||◌, List, [], ◌∷◌, arith,
}
use air_ctrl_desklet.Server.State.{Server, Command}
use air_ctrl_desklet.Server.Device.{
  Worker, outside, connecting, waiting, finished, session, observing, picking, taking, calling,
  Entry, System, at, Move, begin, finish, connect, connect_failed, leave, observe, status,
  observe_failed, observed, abandon, checked, take, nothing, answer, wake, report, thrown, answered,
  interrupted, session_failed,
}
use air_ctrl_desklet.Server.Main.{shutdown}

-- How many steps but statuses the worker is away from its end, at most, when the end is wanted.
abbrev pub steps_left : Worker → ℕ
steps_left finished = 0
steps_left outside = 1
steps_left waiting = 2
steps_left (session r) = 2
steps_left (picking r) = 2
steps_left connecting = 3
steps_left (observing r) = 3
steps_left (calling c) = 3
steps_left (taking r) = 4

steps_left_bound : (w : Worker) → steps_left w ≤ 4
steps_left_bound finished = omega arith
steps_left_bound outside = omega arith
steps_left_bound waiting = omega arith
steps_left_bound (session r) = omega arith
steps_left_bound (picking r) = omega arith
steps_left_bound connecting = omega arith
steps_left_bound (observing r) = omega arith
steps_left_bound (calling c) = omega arith
steps_left_bound (taking r) = omega arith

module _ {S : Type 0} where
  -- A status that is observed is not counted: the device may report any number of them until
  -- `observe_status` returns.
  abbrev pub counted : {x y : System S} → Move x y → ℕ
  counted (status r s h value) = 0
  counted (begin s h e) = 1
  counted (finish s h e) = 1
  counted (connect s h) = 1
  counted (connect_failed s h problem) = 1
  counted (leave r s h e) = 1
  counted (observe r s h e) = 1
  counted (observe_failed r s h problem) = 1
  counted (observed r s h i) = 1
  counted (abandon r s h e) = 1
  counted (checked r s h e) = 1
  counted (take r s h c rest e) = 1
  counted (nothing r s h e) = 1
  counted (answer c s h a) = 1
  counted (wake s h) = 1

  -- The worker alone: the main thread waits for it.
  pub data Alone (x : System S) : System S → Type 0 where
    here : Alone x x
    next : {y z : System S} → Alone x y → Move y z → Alone x z

  abbrev pub moves : {x y : System S} → Alone x y → ℕ
  moves here = 0
  moves (next path m) = moves path + counted m

  Move-ending :
      {x y : System S} (m : Move x y)
      → x.server.stopping ≡ true
      → (y.server.stopping ≡ true) × (counted m + steps_left y.worker ≤ steps_left x.worker)
  unfolding report session_failed
  Move-ending (begin s h e) k = absurd (ground arith)
  Move-ending (finish s h e) k = (k, omega arith)
  Move-ending (connect s h) k = (k, omega arith)
  Move-ending (connect_failed s h problem) k = (k, omega arith)
  Move-ending (leave r s h e) k = (k, omega arith)
  Move-ending (observe r s h e) k = absurd (ground arith)
  Move-ending (status r s h value) k = (k, omega arith)
  Move-ending (observe_failed r s h problem) k = (k, omega arith)
  Move-ending (observed r s h i) k = (k, omega arith)
  Move-ending (abandon r s h e) k = (k, omega arith)
  Move-ending (checked r s h e) k = absurd (ground arith)
  Move-ending (take r s h c rest e) k = (k, omega arith)
  Move-ending (nothing r s h e) k = (k, omega arith)
  Move-ending (answer c s h (thrown problem)) k = (k, omega arith)
  Move-ending (answer c s h (answered accepted)) k = (ground arith, omega arith)
  Move-ending (wake s h) k = (k, omega arith)

  Alone-ending :
      {x y : System S} (path : Alone x y)
      → x.server.stopping ≡ true
      → (y.server.stopping ≡ true) × (moves path + steps_left y.worker ≤ steps_left x.worker)
  Alone-ending here k = (k, omega arith)
  Alone-ending (next path m) k =
      let before = Alone-ending path k in
      let last = Move-ending m before.0 in (last.0, omega (arith, before.1, last.1))

  -- It has ended, or can take a step that brings it nearer to its end.
  abbrev pub Goes : System S → Type 0
  Goes x =
      (x.worker ≡ finished)
      ⊎ ((y : System S) × Move x y × (steps_left y.worker < steps_left x.worker))

  taking-Goes :
      (r : Bool) (s : Server S) (h : List Entry) (cs : List Command)
      → s.commands ≡ cs
      → Goes (at (taking r) s h)
  taking-Goes r s h [] e = inr (_, nothing r s h e, omega arith)
  taking-Goes r s h (c ∷ rest) e = inr (_, take r s h c rest e, omega arith)

  worker-Goes : (w : Worker) (s : Server S) (h : List Entry) → s.stopping ≡ true → Goes (at w s h)
  unfolding interrupted
  worker-Goes finished s h k = inl refl
  worker-Goes outside s h k = inr (_, finish s h k, omega arith)
  worker-Goes waiting s h k = inr (_, wake s h, omega arith)
  worker-Goes (session r) s h k =
      inr (_, leave r s h (ap (λ b. b || s.reconnect_requested) k), omega arith)
  worker-Goes (picking r) s h k =
      inr (_, abandon r s h (ap (λ b. b || s.reconnect_requested) k), omega arith)
  worker-Goes connecting s h k = inr (_, connect s h, omega arith)
  worker-Goes (observing r) s h k = inr (_, observed r s h (ground arith), omega arith)
  worker-Goes (calling c) s h k = inr (_, answer c s h (answered false), omega arith)
  worker-Goes (taking r) s h k = taking-Goes r s h s.commands refl

  shutdown-stopping : (s : Server S) → (shutdown s).stopping ≡ true
  unfolding shutdown
  shutdown-stopping s = ground arith

  -- Wherever the worker stands when the server shuts down, it takes at most four more steps besides the
  -- statuses that it still observes, and until it has ended it can take one that brings it nearer to its
  -- end.
  pub shutdown-ends :
      (s : Server S) (w : Worker) (h : List Entry) {y : System S}
      (path : Alone (at w (shutdown s) h) y)
      → (moves path + steps_left y.worker ≤ 4) × Goes y
  shutdown-ends s w h {y} path =
      let ending = Alone-ending path (shutdown-stopping s) in
      (
        omega (arith, ending.1, steps_left_bound w),
        worker-Goes y.worker y.server y.history ending.0,
      )
