-- ===== src/Server/Main/Sound.antt =====
-- The client map and the editor's lock stay sound in every round of the main loop.
use air_ctrl_desklet.Prelude.{
  ℕ, ◌+◌, ◌%◌, ◌^◌, ◌<◌, ◌≡◌, ◌≢◌, refl, sym, ap, subst, ◌∙◌, Bool, true, false, ◌||◌, List, [],
  ◌∷◌, ◌++◌, Option, none, some, ◌==◌, nat_eq, string_eq, arith, is_some, length, Bool-cases, inl,
  inr,
}
use air_ctrl_desklet.Automation.Types.{Env}
use air_ctrl_desklet.Server.State.{Server, Client, lookup, update, ids}
use air_ctrl_desklet.Server.State.Distinct.{
  Distinct, Given, is_some-lookup-update, lookup-erase, Distinct-update, Distinct-erase,
  Distinct-append, Given-update, Given-erase, Given-append, is_some-lookup-append,
}
use air_ctrl_desklet.Server.Connections.{Sent, Ending, accept_client}
use air_ctrl_desklet.Server.Main.{
  Round, Polled, silent, hung_up, ready, accept_all, read_ready, write_ready, serve, serve_all,
  end_round, one_round, main_loop, connected,
}
use air_ctrl_desklet.Server.Requests.Alive.{EditorAlive, or-true}
use air_ctrl_desklet.Server.Frame.{Kept, close_client-keeps, send-keeps}
use air_ctrl_desklet.Server.Frame.Cases.{Unless, Unless-bind, Unless-if, if-keeps}
use air_ctrl_desklet.Server.Frame.OfActions.{Queued, handle_action-keeps}
use air_ctrl_desklet.Server.Frame.OfEvents.{process_time-keeps}
use air_ctrl_desklet.Server.Frame.OfEngine.{Anything, anything}
use air_ctrl_desklet.Server.Frame.OfRequests.{Served}
use air_ctrl_desklet.Server.Frame.OfConnections.{Reading, flush_client-keeps, read_client-keeps}
use air_ctrl_desklet.Server.Frame.OfDevice.{Aside, process_events-keeps}

-- Client identifiers are distinct, from 1 up to the next one, and the lock's owner is connected.
abbrev pub Sound : {S : Type 0} → ℕ → Server S → Type 0
Sound n s = (s.next_client ≡ n) × Distinct s.clients × Given n s.clients × EditorAlive s

alive_again :
    (editor : ℕ) (b c : Bool) → b ≡ c → (editor == 0 || c) ≡ true → (editor == 0 || b) ≡ true
alive_again editor b c e p = ap (λ x. editor == 0 || x) e ∙ p

module _ {S : Type 0} (n : ℕ) where
  abbrev P : Server S → Type 0
  P s = Sound n s

  P-update :
      (s : Server S) (id : ℕ) (f : Client → Client)
      → P s
      → P (record s { clients = update id f s.clients })
  P-update s id f (e, d, g, a) = (
    e,
    Distinct-update id f s.clients d,
    Given-update n id f s.clients g,
    alive_again s.automation_editor _ _ (is_some-lookup-update id s.automation_editor f s.clients)
        a,
  )

  abbrev sound_kept : Kept S (λ e. Anything e) P
  sound_kept = record {
    good = λ s p. tt;
    engine = λ s e p g. p;
    deliver = λ s id f same p. P-update s id f p;
    release = λ s id (e, d, g, a) own.
        (e, Distinct-erase id s.clients d, Given-erase n id s.clients g, refl);
    leave = λ s id (e, d, g, a) other. (
      e,
      Distinct-erase id s.clients d,
      Given-erase n id s.clients g,
      alive_again s.automation_editor _ _
          (ap (λ o. is_some o) (lookup-erase id s.automation_editor s.clients other)) a,
    );
    quit = λ s p. p;
  }

  abbrev sound_queued : Queued S (λ v. Anything v) P
  sound_queued = record { push = λ s c m r p. p; confirm = λ s o p. p }

  abbrev sound_served : (client : ℕ) → Served S P client
  sound_served client = record {
    take =
        λ s (e, d, g, a) live. (e, d, g, ap (λ b. client == 0 || b) live ∙ or-true (client == 0));
    free = λ s (e, d, g, a). (e, d, g, refl);
    restart = λ s p. p;
  }

  abbrev sound_reading : Reading S P
  sound_reading = record { input = P-update }

  abbrev sound_aside : Aside S P
  sound_aside = record {
    known = λ s m scheduled state problem p. p;
    written = λ s log reported p. p;
    received = λ s status p. p;
    taken = λ s p. p;
  }

module _ {S : Type 0} (env : Env S) (now : ℕ) where
  EditorAlive-append :
      (editor : ℕ) (extra cs : List (ℕ × Client))
      → (editor == 0 || is_some (lookup editor cs)) ≡ true
      → (editor == 0 || is_some (lookup editor (cs ++ extra))) ≡ true
  EditorAlive-append editor extra cs a = elim (Bool-cases (editor == 0)) [
    | inl free ↦ rw free refl
    | inr held ↦ rw held (
        is_some-lookup-append editor extra cs
          (ap (λ b. b || is_some (lookup editor cs)) (sym held) ∙ a))
  ]

  accept_client-Sound :
      (answers : List Sent) (s : Server S)
      → s.next_client ≢ 0
      → s.next_client + 1 < 2 ^ 64
      → Sound s.next_client s
      → Sound (s.next_client + 1) (accept_client env now answers s)
  unfolding accept_client
  accept_client-Sound answers s nonzero small (e, d, g, a) =
      let n = s.next_client + 1 in
      let k = sound_kept {S = S} n in
      let new : Client = record { input = []; output = []; close_after_write = false } in
      let known =
        send-keeps env (Sound n) k s.next_client _
          (record s {
            next_client = (s.next_client + 1) % 2 ^ 64;
            clients = s.clients ++ (s.next_client, new) ∷ [];
            accepted_any = true;
          })
          (
            omega arith,
            Distinct-append s.next_client new s.clients g d,
            Given-append s.next_client new s.clients nonzero g,
            EditorAlive-append s.automation_editor ((s.next_client, new) ∷ []) s.clients a,
          ) in
      flush_client-keeps env now (λ e. Anything e) (λ v. Anything v) (anything env) (Sound n) k
        (sound_queued n) (sound_served n) answers s.next_client _
        (send-keeps env (Sound n) k s.next_client _ _
          (if-keeps (Sound n) _ _ _ (send-keeps env (Sound n) k s.next_client _ _ known) known))

  accept_all-Sound :
      (n : ℕ) (accepted : List (List Sent)) (s : Server S)
      → n ≢ 0
      → n + length accepted < 2 ^ 64
      → Sound n s
      → Sound (n + length accepted) (accept_all env now accepted s)
  unfolding accept_all
  accept_all-Sound n [] s nonzero small p = subst (λ m. Sound m s) (omega arith) p
  accept_all-Sound n (answers ∷ rest) s nonzero small p =
      let at = sym p.0 in
      let first : Sound (n + 1) (accept_client env now answers s) =
        subst (λ m. Sound (m + 1) (accept_client env now answers s)) p.0
          (accept_client-Sound answers s (subst (λ m. m ≢ 0) at nonzero)
            (subst (λ m. m + 1 < 2 ^ 64) at (omega arith)) (subst (λ m. Sound m s) at p)) in
      subst (λ m. Sound m (accept_all env now (answers ∷ rest) s)) (omega arith)
        (accept_all-Sound (n + 1) rest (accept_client env now answers s) (omega arith) (omega arith)
          first)

  module _ (n : ℕ) where
    read_ready-Sound :
        (id : ℕ) (read : Option (List (List ℕ) × Ending × List Sent)) (s : Server S)
        → Sound n s
        → Sound n (read_ready env now id read s)
    unfolding read_ready
    read_ready-Sound id none s p = p
    read_ready-Sound id (some (blocks, ending, answers)) s p =
        if-keeps (Sound n) (connected env id s) _ _
          (read_client-keeps env now (λ e. Anything e) (λ v. Anything v) (anything env) (Sound n)
            (sound_kept n) (sound_queued n) (sound_served n) (sound_reading n) blocks ending answers
            id s p)
          p

    write_ready-Sound :
        (id : ℕ) (write : Option (List Sent)) (s : Server S)
        → Sound n s
        → Sound n (write_ready env now id write s)
    unfolding write_ready
    write_ready-Sound id none s p = p
    write_ready-Sound id (some answers) s p =
        if-keeps (Sound n) (connected env id s) _ _
          (flush_client-keeps env now (λ e. Anything e) (λ v. Anything v) (anything env) (Sound n)
            (sound_kept n) (sound_queued n) (sound_served n) answers id s p)
          p

    serve-Sound :
        (id : ℕ) (polled : Polled) (s : Server S) → Sound n s → Sound n (serve env now id polled s)
    unfolding serve
    serve-Sound id silent s p = p
    serve-Sound id hung_up s p = close_client-keeps env (Sound n) (sound_kept n) id s p
    serve-Sound id (ready read write) s p =
        write_ready-Sound id write _ (read_ready-Sound id read s p)

    serve_all-Sound :
        (polled : ℕ → Polled) (targets : List ℕ) (s : Server S)
        → Sound n s
        → Sound n (serve_all env now polled targets s)
    unfolding serve_all
    serve_all-Sound polled [] s p = p
    serve_all-Sound polled (id ∷ rest) s p =
        serve_all-Sound polled rest _ (serve-Sound id (polled id) s p)

-- The client map and the editor's lock are sound, whatever number comes next.
abbrev pub ClientsSound : {S : Type 0} → Server S → Type 0
ClientsSound s = (s.next_client ≢ 0) × Sound s.next_client s

-- How many clients some rounds accept.
abbrev pub arrivals : List Round → ℕ
arrivals [] = 0
arrivals (r ∷ rounds) = length r.accepted + arrivals rounds

module _ {S : Type 0} (env : Env S) where
  end_round-Sound : (n : ℕ) (r : Round) (s : Server S) → Sound n s → Sound n (end_round env r s)
  unfolding end_round
  end_round-Sound n r s p =
      process_time-keeps env r.time (λ e. Anything e) (λ v. Anything v) (anything env) (Sound n)
        (sound_kept n) _
        (handle_action-keeps env r.time (λ e. Anything e) (λ v. Anything v) (anything env) (Sound n)
          (sound_kept n) (sound_queued n))
        _ (if-keeps (Sound n) _ _ _ p p)

  one_round-Sound :
      (n : ℕ) (r : Round) (s : Server S)
      → n ≢ 0
      → n + length r.accepted < 2 ^ 64
      → Sound n s
      → Unless (Sound (n + length r.accepted)) (one_round env r s)
  unfolding one_round
  one_round-Sound n r s nonzero small p =
      let m = n + length r.accepted in
      let accepted = accept_all-Sound env r.time n r.accepted s nonzero small p in
      Unless-bind (Sound m) _
        (λ t. end_round env r (serve_all env r.time r.polled (ids s.clients) t))
        (Unless-if (Sound m) r.woken _ _
          (process_events-keeps env r.time (λ e. Anything e) (λ v. Anything v) (anything env)
            (Sound m) (sound_kept m) (sound_queued m) (sound_aside m) _ accepted)
          accepted)
        (λ t q.
          end_round-Sound m r (serve_all env r.time r.polled (ids s.clients) t)
            (serve_all-Sound env r.time m r.polled (ids s.clients) t q))

  -- If client identifiers are distinct, stand between 1 and the next one, and the editor's lock is free
  -- or held by a connected client, and if the connections that the rounds bring do not use up the
  -- 64-bit identifiers, then after any rounds of the main loop the same holds again, unless an
  -- uncaught exception has ended the process.
  pub main_loop-ClientsSound :
      (rounds : List Round) (s : Server S)
      → ClientsSound s
      → s.next_client + arrivals rounds < 2 ^ 64
      → Unless (λ t. ClientsSound t) (main_loop env rounds s)
  unfolding main_loop
  main_loop-ClientsSound [] s p small = p
  main_loop-ClientsSound (r ∷ rounds) s p small =
      let m = s.next_client + length r.accepted in
      Unless-if (λ t. ClientsSound t) s.quit_requested _ _ p
        (rounds-then (one_round env r s) (one_round-Sound s.next_client r s p.0 (omega arith) p.1)
          (λ t q.
            main_loop-ClientsSound rounds t
              (subst (λ k. k ≢ 0) (sym q.0) (omega arith), subst (λ k. Sound k t) (sym q.0) q)
              (subst (λ k. k + arrivals rounds < 2 ^ 64) (sym q.0) (omega arith))))
    where
      rounds-then :
          (o : Option (Server S))
          → Unless (Sound (s.next_client + length r.accepted)) o
          → ((t : Server S)
              → Sound (s.next_client + length r.accepted) t
              → Unless (λ t. ClientsSound t) (main_loop env rounds t))
          → Unless (λ t. ClientsSound t) (elim o [ none ↦ none | some t ↦ main_loop env rounds t ])
      rounds-then none u h = tt
      rounds-then (some t) u h = h t u
