-- ===== src/Server/Device/Answered.antt =====
-- No command is lost and none is answered twice: what is queued, at the device or answered is conserved.
use air_ctrl_desklet.Prelude.{
  ℕ, ◌+◌, ◌≡◌, inl, inr, refl, sym, ap, ◌∙◌, Bool, true, false, List, [], ◌∷◌, ◌++◌, none, some,
  String, if◌then◌else◌, ◌||◌, is_empty, arith, Bool-cases,
}
use air_ctrl_desklet.Server.State.{
  Server, Command, Event, started, state_changed, status_received, controlled,
}
use air_ctrl_desklet.Server.Requests.{refresh, fail_all}
use air_ctrl_desklet.Server.Device.{
  Worker, calling, System, Move, begin, finish, connect, connect_failed, leave, observe, status,
  observe_failed, observed, abandon, checked, take, nothing, answer, wake, report, Answer, answered,
  thrown, fail_queue, session_failed,
}

module _ (p : Command → Bool) where
  -- How many commands of a kind stand in a queue.
  abbrev pub queued : List Command → ℕ
  queued [] = 0
  queued (c ∷ rest) = (if p c then 1 else 0) + queued rest

  -- How many commands of the kind events answer.
  abbrev pub answers : List Event → ℕ
  answers [] = 0
  answers (controlled c accepted problem ∷ rest) = (if p c then 1 else 0) + answers rest
  answers (started ∷ rest) = answers rest
  answers (state_changed state problem ∷ rest) = answers rest
  answers (status_received value ∷ rest) = answers rest

  -- How many the worker has taken.
  abbrev pub held : Worker → ℕ
  held (calling c) = if p c then 1 else 0
  held _ = 0

  -- The commands of the kind that are queued, at the device, or answered.
  abbrev pub tally : {S : Type 0} → System S → ℕ
  tally x = queued x.server.commands + held x.worker + answers x.server.events

  answers-append : (es fs : List Event) → answers (es ++ fs) ≡ answers es + answers fs
  answers-append [] fs = omega arith
  answers-append (controlled c accepted problem ∷ rest) fs = omega (arith, answers-append rest fs)
  answers-append (started ∷ rest) fs = answers-append rest fs
  answers-append (state_changed state problem ∷ rest) fs = answers-append rest fs
  answers-append (status_received value ∷ rest) fs = answers-append rest fs

  answers-fail_queue : (cs : List Command) → answers (fail_queue cs) ≡ queued cs
  answers-fail_queue [] = refl
  answers-fail_queue (c ∷ rest) = ap (λ n. (if p c then 1 else 0) + n) (answers-fail_queue rest)

  answers-report :
      {S : Type 0} (c : Command) (a : Answer) (s : Server S)
      → (queued (report c a s).commands ≡ queued s.commands)
        × (answers (report c a s).events ≡ answers s.events + (if p c then 1 else 0))
  unfolding report
  answers-report c (thrown problem) s =
      (refl, omega (arith, answers-append s.events (controlled c false (some problem) ∷ [])))
  answers-report c (answered accepted) s = elim (Bool-cases s.reconnect_requested) [
    | inl e ↦
        rw e (refl, omega (arith, answers-append s.events (controlled c false (some unknown) ∷ [])))
    | inr e ↦ rw e (
      refl,
      omega (
        arith,
        answers-append s.events (
            controlled c accepted
              (if accepted then none else some "Gerät hat den Schaltbefehl abgelehnt.")
            ∷ []),
      ),
    )
  ]
    where
      unknown : String
      unknown =
          "Geräte-I/O wurde während des Schaltbefehls erneuert · Ausgang unbekannt; keine Wiederholung."

  -- Every step of the worker, failed sessions and failed calls included, keeps the number of commands
  -- of any kind that are queued, at the device, or answered: none is lost, none answered twice.
  pub Move-tally : {S : Type 0} {x y : System S} → Move x y → tally y ≡ tally x
  unfolding session_failed
  Move-tally (begin s h e) = omega (arith, answers-append s.events (started ∷ []))
  Move-tally (finish s h e) = refl
  Move-tally (connect s h) = refl
  Move-tally (connect_failed s h problem) = omega (
    arith,
    answers-append s.events (state_changed "error" (some problem) ∷ fail_queue s.commands),
    answers-fail_queue s.commands,
  )
  Move-tally (leave r s h e) = refl
  Move-tally (observe r s h e) = refl
  Move-tally (status r s h value) =
      omega (arith, answers-append s.events (status_received value ∷ []))
  Move-tally (observe_failed r s h problem) = omega (
    arith,
    answers-append s.events (state_changed "error" (some problem) ∷ fail_queue s.commands),
    answers-fail_queue s.commands,
  )
  Move-tally (observed r s h i) = refl
  Move-tally (abandon r s h e) = refl
  Move-tally (checked r s h e) = refl
  Move-tally (take r s h c rest e) = omega (arith, ap (λ cs. queued cs) e)
  Move-tally (nothing r s h e) = refl
  Move-tally (answer c s h a) = omega (arith, answers-report c a s)
  Move-tally (wake s h) = refl

  -- The effect of a refresh while none is under way.
  abbrev restarted : {S : Type 0} → Server S → Server S
  restarted s = record s {
    refresh_scheduled = true;
    device_ready = false;
    reconnect_requested = true;
    commands = [];
    events = s.events ++ fail_all s.commands;
  }

  refresh-scheduled : {S : Type 0} (s : Server S) → s.refresh_scheduled ≡ true → refresh s ≡ s
  unfolding refresh
  refresh-scheduled s e = ap (λ b. if b then s else restarted s) e

  refresh-fresh :
      {S : Type 0} (s : Server S) → s.refresh_scheduled ≡ false → refresh s ≡ restarted s
  unfolding refresh
  refresh-fresh s e = ap (λ b. if b then s else restarted s) e

  -- How many commands of the kind events answer as not executed, and as executed.
  abbrev pub refusals : List Event → ℕ
  refusals [] = 0
  refusals (controlled c false (some problem) ∷ rest) = (if p c then 1 else 0) + refusals rest
  refusals (_ ∷ rest) = refusals rest

  abbrev pub acceptances : List Event → ℕ
  acceptances [] = 0
  acceptances (controlled c true problem ∷ rest) = (if p c then 1 else 0) + acceptances rest
  acceptances (_ ∷ rest) = acceptances rest

  refusals-fail_all :
      (es : List Event) (cs : List Command) → refusals (es ++ fail_all cs) ≡ refusals es + queued cs
  refusals-fail_all [] [] = refl
  refusals-fail_all [] (c ∷ cs) = omega (arith, refusals-fail_all [] cs)
  refusals-fail_all (controlled c false (some problem) ∷ es) cs =
      omega (arith, refusals-fail_all es cs)
  refusals-fail_all (controlled c false none ∷ es) cs = refusals-fail_all es cs
  refusals-fail_all (controlled c true problem ∷ es) cs = refusals-fail_all es cs
  refusals-fail_all (started ∷ es) cs = refusals-fail_all es cs
  refusals-fail_all (state_changed state problem ∷ es) cs = refusals-fail_all es cs
  refusals-fail_all (status_received value ∷ es) cs = refusals-fail_all es cs

  acceptances-fail_all :
      (es : List Event) (cs : List Command) → acceptances (es ++ fail_all cs) ≡ acceptances es
  acceptances-fail_all [] [] = refl
  acceptances-fail_all [] (c ∷ cs) = acceptances-fail_all [] cs
  acceptances-fail_all (controlled c false problem ∷ es) cs = acceptances-fail_all es cs
  acceptances-fail_all (controlled c true problem ∷ es) cs =
      omega (arith, acceptances-fail_all es cs)
  acceptances-fail_all (started ∷ es) cs = acceptances-fail_all es cs
  acceptances-fail_all (state_changed state problem ∷ es) cs = acceptances-fail_all es cs
  acceptances-fail_all (status_received value ∷ es) cs = acceptances-fail_all es cs

  -- A refresh leaves no command in the queue, unless another one has been asked for before and no session
  -- has begun since; every command of any kind that leaves the queue is answered as not executed, with a
  -- reason, and none as executed; and another refresh before the device worker has begun its new session
  -- changes nothing more.
  pub refresh-answers :
      {S : Type 0} (s : Server S)
      → (s.refresh_scheduled || is_empty (refresh s).commands ≡ true)
        × (queued (refresh s).commands + refusals (refresh s).events
            ≡ queued s.commands + refusals s.events)
        × (acceptances (refresh s).events ≡ acceptances s.events)
        × (refresh (refresh s) ≡ refresh s)
  refresh-answers s = elim (Bool-cases s.refresh_scheduled) [
    | inl e ↦ (
      ap (λ b. b || is_empty (refresh s).commands) e,
      ap (λ t. queued t.commands + refusals t.events) (refresh-scheduled s e),
      ap (λ t. acceptances t.events) (refresh-scheduled s e),
      ap (λ t. refresh t) (refresh-scheduled s e),
    )
    | inr e ↦ (
      ap (λ b. b || is_empty (refresh s).commands) e
          ∙ ap (λ t. is_empty t.commands) (refresh-fresh s e),
      ap (λ t. queued t.commands + refusals t.events) (refresh-fresh s e)
          ∙ omega (arith, refusals-fail_all s.events s.commands),
      ap (λ t. acceptances t.events) (refresh-fresh s e) ∙ acceptances-fail_all s.events s.commands,
      ap (λ t. refresh t) (refresh-fresh s e)
          ∙ refresh-scheduled (restarted s) refl
          ∙ sym (refresh-fresh s e),
    )
  ]
