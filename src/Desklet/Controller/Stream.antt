-- ===== src/Desklet/Controller/Stream.antt =====
-- The loop of readServer over its stream ends within its bound, and what it leaves.
use air_ctrl_desklet.Prelude.{
  ℕ, zero, suc, ◌≤◌, Bool, true, false, ◌≡◌, ◌⊎◌, inl, inr, refl, List, ◌++◌, Option, none, some,
  String, arith, nat_eq, string_eq, if-cases, subst, sym, ◌∙◌, ltb, length, is_empty,
}
use air_ctrl_desklet.Json.{Json, null, boolean, integer, floating, string, array, object}
use air_ctrl_desklet.Server.Connections.{next_line}
use air_ctrl_desklet.Server.Connections.Lines.{Shorter, next_line-Shorter, no_line}
use air_ctrl_desklet.Desklet.Controller.State.{
  Controller, Qt, Socket, unconnected, opening, connected, abort, connection_failed, set_busy,
  fail_command, on_disconnected, closed_by, send_object,
}
use air_ctrl_desklet.Desklet.Controller.Dispatch.{handle_envelope-cases}
use air_ctrl_desklet.Desklet.Controller.Requests.{cancel_automation_edit}
use air_ctrl_desklet.Desklet.Controller.Messages.{
  on_pong, on_automation_edit, on_automation_saved, on_server_state, on_control_answer,
  on_status_data, handle_envelope, maximum_message, give_up, take_document, read_line, check_rest,
  go_on, read_next, read_loop, read_server,
}

module _ (qt : Qt) where
  connection_failed-socket :
      (reason : String) (c : Controller) → (connection_failed qt reason c).socket ≡ c.socket
  unfolding connection_failed
  connection_failed-socket reason c = ground arith

  on_disconnected-socket : (c : Controller) → (on_disconnected qt c).socket ≡ c.socket
  unfolding on_disconnected connection_failed fail_command set_busy
  on_disconnected-socket c = ground arith

  closed_by-socket : (s : Socket) (c : Controller) → (closed_by qt s c).socket ≡ c.socket
  unfolding on_disconnected
  closed_by-socket connected c = on_disconnected-socket c
  closed_by-socket unconnected c = refl
  closed_by-socket opening c = refl

  pub give_up-unconnected :
      (reason : String) (c : Controller) → (give_up qt reason c).socket ≡ unconnected
  unfolding abort
  give_up-unconnected reason c =
      connection_failed-socket reason (abort qt c)
      ∙ closed_by-socket c.socket (record c { socket = unconnected })

  on_server_state-stream :
      (envelope : Json) (c : Controller) → (on_server_state qt envelope c).stream ≡ c.stream
  unfolding on_server_state connection_failed fail_command set_busy
  on_server_state-stream envelope c = ground arith

  on_automation_edit-stream :
      (envelope : Json) (c : Controller) → (on_automation_edit qt envelope c).stream ≡ c.stream
  unfolding on_automation_edit cancel_automation_edit send_object
  on_automation_edit-stream envelope c = ground arith

  on_control_answer-stream :
      (envelope : Json) (c : Controller) → (on_control_answer qt envelope c).stream ≡ c.stream
  unfolding on_control_answer fail_command set_busy
  on_control_answer-stream envelope c = ground arith

  handle_envelope-stream :
      (envelope : Json) (c : Controller) → (handle_envelope qt envelope c).stream ≡ c.stream
  unfolding on_pong on_automation_saved on_status_data connection_failed set_busy
  handle_envelope-stream envelope c =
      handle_envelope-cases qt (λ d. d.stream ≡ c.stream) envelope c refl (ground arith) refl
        (on_automation_edit-stream envelope c) (ground arith) (on_server_state-stream envelope c)
        (λ reason. ground arith) (on_control_answer-stream envelope c) (λ e. ground arith)

  -- Where the loop may stand when it ends: the connection was given up, or what is left is the
  -- beginning of a line, no longer than a message may be.
  abbrev pub Settled : Controller → Type 0
  Settled c =
      (c.socket ≡ unconnected) ⊎ ((next_line c.stream ≡ none) × (length c.stream ≤ maximum_message))

  check_rest-Settled : (c : Controller) → next_line c.stream ≡ none → Settled (check_rest qt c)
  unfolding check_rest
  check_rest-Settled c h =
      if-cases Settled (ltb maximum_message (length c.stream)) (λ e. inl (give_up-unconnected _ c))
        (λ e. inr (h, ground arith))

  -- A turn that goes on leaves the rest of the stream, and one that does not has given up.
  abbrev Turned : List ℕ → Bool × Controller → Type 0
  Turned rest (true, c) = c.stream ≡ rest
  Turned rest (false, c) = c.socket ≡ unconnected

  take_document-Turned :
      (rest : List ℕ) (o : Option Json) (c : Controller)
      → c.stream ≡ rest
      → Turned rest (take_document qt o c)
  unfolding handle_envelope abort connection_failed
  take_document-Turned rest (some (object fs)) c h = handle_envelope-stream (object fs) c ∙ h
  take_document-Turned rest none c h = give_up-unconnected _ c
  take_document-Turned rest (some null) c h = give_up-unconnected _ c
  take_document-Turned rest (some (boolean b)) c h = give_up-unconnected _ c
  take_document-Turned rest (some (integer i)) c h = give_up-unconnected _ c
  take_document-Turned rest (some (floating d)) c h = give_up-unconnected _ c
  take_document-Turned rest (some (string s)) c h = give_up-unconnected _ c
  take_document-Turned rest (some (array xs)) c h = give_up-unconnected _ c

  read_line-Turned : (line rest : List ℕ) (c : Controller) → Turned rest (read_line qt line rest c)
  unfolding read_line
  read_line-Turned line rest c =
      if-cases (Turned rest) (ltb maximum_message (length line)) (λ e. give_up-unconnected _ c)
        (λ e.
          if-cases (Turned rest) (is_empty (qt.trimmed line)) (λ k. refl)
            (λ k. take_document-Turned rest _ (record c { stream = rest }) refl))

  go_on-Settled :
      (more : Controller → Controller) (rest : List ℕ) (r : Bool × Controller)
      → ((c : Controller) → c.stream ≡ rest → Settled (more c))
      → Turned rest r
      → Settled (go_on more r)
  go_on-Settled more rest (true, c) k h = k c h
  go_on-Settled more rest (false, c) k h = inl h

  read_next-Settled :
      (n : ℕ) (more : Controller → Controller) (o : Option (List ℕ × List ℕ)) (c : Controller)
      → next_line c.stream ≡ o
      → Shorter (suc n) o
      → ((d : Controller) → length d.stream ≤ n → Settled (more d))
      → Settled (read_next qt more o c)
  unfolding read_line check_rest
  read_next-Settled n more none c e h k = check_rest-Settled c e
  read_next-Settled n more (some (line, rest)) c e h k =
      go_on-Settled more rest _ (λ d same. k d (subst (λ t. length t ≤ n) (sym same) (omega arith)))
        (read_line-Turned line rest c)

  Shorter-le : (m n : ℕ) (o : Option (List ℕ × List ℕ)) → m ≤ n → Shorter m o → Shorter n o
  Shorter-le m n none h k = tt
  Shorter-le m n (some (line, after)) h k = omega arith

  read_loop-Settled : (n : ℕ) (c : Controller) → length c.stream ≤ n → Settled (read_loop qt n c)
  unfolding read_loop
  read_loop-Settled zero c h = check_rest-Settled c (no_line c.stream h)
  read_loop-Settled (suc n) c h =
      read_next-Settled n (read_loop qt n) (next_line c.stream) c refl
        (Shorter-le (length c.stream) (suc n) (next_line c.stream) h (next_line-Shorter c.stream))
        (read_loop-Settled n)

  -- Whatever bytes come in whatever pieces, the loop over them ends within its bound, the length of
  -- the stream: the connection was given up, or no complete line is left, and what is left is no longer
  -- than a megabyte.
  pub read_server-Settled : (bytes : List ℕ) (c : Controller) → Settled (read_server qt bytes c)
  unfolding read_server
  read_server-Settled bytes c =
      read_loop-Settled (length (c.stream ++ bytes)) (record c { stream = c.stream ++ bytes })
        (omega arith)
