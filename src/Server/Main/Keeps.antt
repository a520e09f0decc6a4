-- ===== src/Server/Main/Keeps.antt =====
-- The rounds of the main loop keep what is kept, if a new client does not disturb it either.
use air_ctrl_desklet.Prelude.{ℕ, true, List, [], ◌∷◌, Option, none, some, string_eq}
use air_ctrl_desklet.Json.{Json}
use air_ctrl_desklet.Automation.Types.{Env, Engine}
use air_ctrl_desklet.Server.State.{Server, Client, ids}
use air_ctrl_desklet.Server.Connections.{Sent, Ending, accept_client}
use air_ctrl_desklet.Server.Main.{
  Round, Polled, silent, hung_up, ready, accept_all, read_ready, write_ready, serve, serve_all,
  end_round, one_round, main_loop, connected,
}
use air_ctrl_desklet.Server.Frame.{Kept, close_client-keeps, send-keeps}
use air_ctrl_desklet.Server.Frame.Cases.{Unless, Unless-bind, Unless-if, Unless-then, if-keeps}
use air_ctrl_desklet.Server.Frame.OfActions.{Queued, handle_action-keeps}
use air_ctrl_desklet.Server.Frame.OfEngine.{Lasting}
use air_ctrl_desklet.Server.Frame.OfEvents.{process_time-keeps}
use air_ctrl_desklet.Server.Frame.OfRequests.{Served}
use air_ctrl_desklet.Server.Frame.OfConnections.{Reading, flush_client-keeps, read_client-keeps}
use air_ctrl_desklet.Server.Frame.OfDevice.{Aside, process_events-keeps}

-- Everything that a predicate must be indifferent to.
pub record Everywhere {S : Type 0} (env : Env S) (P : Server S → Type 0) (G : Engine S → Type 0)
    (R : Json → Type 0) : Type 0 where
  pub lasting : Lasting env G R
  pub kept : Kept S G P
  pub queued : Queued S R P
  pub served : (client : ℕ) → Served S P client
  pub reading : Reading S P
  pub aside : Aside S P
  pub joined :
      (s : Server S) (n : ℕ) (clients : List (ℕ × Client))
      → P s
      → P (record s { next_client = n; clients = clients; accepted_any = true })

module _ {S : Type 0} (env : Env S) (P : Server S → Type 0) (G : Engine S → Type 0)
    (R : Json → Type 0) (w : Everywhere env P G R) where
  flushed :
      (now : ℕ) (answers : List Sent) (id : ℕ) (s : Server S)
      → P s
      → P (air_ctrl_desklet.Server.Connections.flush_client env now answers id s)
  flushed now answers id s p =
      flush_client-keeps env now G R w.lasting P w.kept w.queued w.served answers id s p

  accept_client-keeps :
      (now : ℕ) (answers : List Sent) (s : Server S) → P s → P (accept_client env now answers s)
  unfolding accept_client
  accept_client-keeps now answers s p =
      let known = send-keeps env P w.kept s.next_client _ _ (w.joined s _ _ p) in
      flushed now answers s.next_client _ (
        send-keeps env P w.kept s.next_client _ _
          (if-keeps P _ _ _ (send-keeps env P w.kept s.next_client _ _ known) known))

  accept_all-keeps :
      (now : ℕ) (accepted : List (List Sent)) (s : Server S)
      → P s
      → P (accept_all env now accepted s)
  unfolding accept_all
  accept_all-keeps now [] s p = p
  accept_all-keeps now (answers ∷ rest) s p =
      accept_all-keeps now rest _ (accept_client-keeps now answers s p)

  read_ready-keeps :
      (now id : ℕ) (read : Option (List (List ℕ) × Ending × List Sent)) (s : Server S)
      → P s
      → P (read_ready env now id read s)
  unfolding read_ready
  read_ready-keeps now id none s p = p
  read_ready-keeps now id (some (blocks, ending, answers)) s p =
      if-keeps P (connected env id s) _ _
        (read_client-keeps env now G R w.lasting P w.kept w.queued w.served w.reading blocks ending
          answers id s p)
        p

  write_ready-keeps :
      (now id : ℕ) (write : Option (List Sent)) (s : Server S)
      → P s
      → P (write_ready env now id write s)
  unfolding write_ready
  write_ready-keeps now id none s p = p
  write_ready-keeps now id (some answers) s p =
      if-keeps P (connected env id s) _ _ (flushed now answers id s p) p

  serve-keeps : (now id : ℕ) (polled : Polled) (s : Server S) → P s → P (serve env now id polled s)
  unfolding serve
  serve-keeps now id silent s p = p
  serve-keeps now id hung_up s p = close_client-keeps env P w.kept id s p
  serve-keeps now id (ready read write) s p =
      write_ready-keeps now id write _ (read_ready-keeps now id read s p)

  serve_all-keeps :
      (now : ℕ) (polled : ℕ → Polled) (targets : List ℕ) (s : Server S)
      → P s
      → P (serve_all env now polled targets s)
  unfolding serve_all
  serve_all-keeps now polled [] s p = p
  serve_all-keeps now polled (id ∷ rest) s p =
      serve_all-keeps now polled rest _ (serve-keeps now id (polled id) s p)

  end_round-keeps : (r : Round) (s : Server S) → P s → P (end_round env r s)
  unfolding end_round
  end_round-keeps r s p =
      process_time-keeps env r.time G R w.lasting P w.kept _
        (handle_action-keeps env r.time G R w.lasting P w.kept w.queued) _
        (if-keeps P _ _ _ (w.kept.quit s p) p)

  pub one_round-keeps : (r : Round) (s : Server S) → P s → Unless P (one_round env r s)
  unfolding one_round
  one_round-keeps r s p =
      let accepted = accept_all-keeps r.time r.accepted s p in
      Unless-bind P _ (λ t. end_round env r (serve_all env r.time r.polled (ids s.clients) t))
        (Unless-if P r.woken _ _
          (process_events-keeps env r.time G R w.lasting P w.kept w.queued w.aside _ accepted)
          accepted)
        (λ t q.
          end_round-keeps r (serve_all env r.time r.polled (ids s.clients) t)
            (serve_all-keeps r.time r.polled (ids s.clients) t q))

  pub main_loop-keeps :
      (rounds : List Round) (s : Server S) → P s → Unless P (main_loop env rounds s)
  unfolding main_loop
  main_loop-keeps [] s p = p
  main_loop-keeps (r ∷ rounds) s p = Unless-if P s.quit_requested _ _ p (
      Unless-then P (one_round env r s) (λ t. main_loop env rounds t) (one_round-keeps r s p)
        (λ t q. main_loop-keeps rounds t q))
