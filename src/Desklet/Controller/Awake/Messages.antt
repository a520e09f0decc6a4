-- ===== src/Desklet/Controller/Awake/Messages.antt =====
-- Whatever the server sends, the Controller keeps the timers of what it waits for.
use air_ctrl_desklet.Prelude.{
  ℕ, zero, suc, Bool, true, false, not, ◌&&◌, ◌||◌, List, ◌++◌, Option, none, some, String, arith,
  ◌==◌, nat_eq, string_eq, if-cases, ltb, length, is_empty,
}
use air_ctrl_desklet.Json.{
  Json, null, boolean, integer, floating, string, array, object, is_object, is_string,
}
use air_ctrl_desklet.Server.Connections.{next_line}
use air_ctrl_desklet.Desklet.Controller.State.{
  Controller, Qt, is_connected, fail_command, set_busy, connection_failed, abort,
}
use air_ctrl_desklet.Desklet.Controller.Messages.{
  value_of, text_of, to_bool, number_of, answered_edit, interrupt_command, on_pong,
  on_automation_edit, on_automation_saved, on_server_state, on_control_answer, on_status_data,
  handle_envelope, maximum_message, give_up, take_document, read_line, check_rest, go_on, read_next,
  read_loop, read_server,
}
use air_ctrl_desklet.Desklet.Controller.Dispatch.{handle_envelope-cases}
use air_ctrl_desklet.Desklet.Controller.Awake.{
  Awake, fail_command-Awake, connection_failed-Awake, abort-Awake,
}
use air_ctrl_desklet.Desklet.Controller.Awake.Requests.{emit-Awake, cancel_automation_edit-Awake}

module _ (qt : Qt) where
  on_pong-Awake : (c : Controller) → Awake c → Awake (on_pong qt c)
  unfolding on_pong
  on_pong-Awake c h =
      if-cases Awake (c.active && is_connected c.socket) (λ e. ground arith) (λ e. ground arith)

  answered_edit-Awake : (c : Controller) → Awake c → Awake (answered_edit qt c)
  answered_edit-Awake c h = ground arith

  on_automation_edit-Awake :
      (envelope : Json) (c : Controller) → Awake c → Awake (on_automation_edit qt envelope c)
  unfolding on_automation_edit
  on_automation_edit-Awake envelope c h =
      let id = number_of qt "id" envelope in
      if-cases Awake (id == 0 || not (id == c.pending_automation_request_id)) (λ e. h)
        (λ e.
          if-cases Awake (not (to_bool (value_of "ok" envelope))) (λ k. ground arith)
            (λ k.
              if-cases Awake
                (not (is_string (value_of "script" envelope))
                  || not (is_object (value_of "state" envelope)))
                (λ l. emit-Awake _ _ (cancel_automation_edit-Awake _ (answered_edit-Awake c h)))
                (λ l. ground arith)))

  on_automation_saved-Awake :
      (envelope : Json) (c : Controller) → Awake c → Awake (on_automation_saved qt envelope c)
  unfolding on_automation_saved
  on_automation_saved-Awake envelope c h =
      let id = number_of qt "id" envelope in
      if-cases Awake (id == 0 || not (id == c.pending_automation_request_id)) (λ e. h)
        (λ e.
          if-cases Awake (not (to_bool (value_of "ok" envelope))) (λ k. ground arith)
            (λ k. ground arith))

  seen-Awake :
      (n : ℕ) (c : Controller)
      → Awake c
      → Awake (record c { observation_starts = n; has_status = false })
  seen-Awake n c h = ground arith

  interrupt_command-Awake : (c : Controller) → Awake c → Awake (interrupt_command qt c)
  unfolding fail_command
  interrupt_command-Awake c h = if-cases Awake c.busy (λ e. fail_command-Awake qt _ c h) (λ e. h)

  on_server_state-Awake :
      (envelope : Json) (c : Controller) → Awake c → Awake (on_server_state qt envelope c)
  unfolding on_server_state
  on_server_state-Awake envelope c h =
      if-cases Awake (text_of "state" envelope == "error")
        (λ e.
          connection_failed-Awake qt _ _
            (interrupt_command-Awake _ (seen-Awake (number_of qt "starts" envelope) c h)))
        (λ e.
          if-cases Awake (text_of "state" envelope == "connecting") (λ k. ground arith)
            (λ k. ground arith))

  on_control_answer-Awake :
      (envelope : Json) (c : Controller) → Awake c → Awake (on_control_answer qt envelope c)
  unfolding on_control_answer fail_command set_busy
  on_control_answer-Awake envelope c h =
      let id = number_of qt "id" envelope in
      if-cases Awake (not c.busy || id == 0 || not (id == c.pending_command_id)) (λ e. h)
        (λ e.
          if-cases Awake (not (to_bool (value_of "ok" envelope))) (λ k. ground arith)
            (λ k. ground arith))

  on_status_data-Awake :
      (status : Json) (c : Controller) → Awake c → Awake (on_status_data qt status c)
  unfolding on_status_data set_busy
  on_status_data-Awake status c h =
      if-cases Awake (c.busy && not c.awaiting_confirmation) (λ e. ground arith) (λ e. ground arith)

  handle_envelope-Awake :
      (envelope : Json) (c : Controller) → Awake c → Awake (handle_envelope qt envelope c)
  handle_envelope-Awake envelope c h =
      handle_envelope-cases qt Awake envelope c h (on_pong-Awake c h) (emit-Awake _ c h)
        (on_automation_edit-Awake envelope c h) (on_automation_saved-Awake envelope c h)
        (on_server_state-Awake envelope c h) (λ reason. connection_failed-Awake qt reason c h)
        (on_control_answer-Awake envelope c h) (λ e. on_status_data-Awake _ c h)

  give_up-Awake : (reason : String) (c : Controller) → Awake c → Awake (give_up qt reason c)
  unfolding abort connection_failed
  give_up-Awake reason c h = connection_failed-Awake qt reason _ (abort-Awake qt c h)

  longer-Awake : (stream : List ℕ) (c : Controller) → Awake c → Awake (record c { stream = stream })
  longer-Awake stream c h = ground arith

  take_document-Awake :
      (o : Option Json) (c : Controller) → Awake c → Awake (take_document qt o c).1
  unfolding handle_envelope abort connection_failed
  take_document-Awake (some (object fs)) c h = handle_envelope-Awake (object fs) c h
  take_document-Awake none c h = give_up-Awake _ c h
  take_document-Awake (some null) c h = give_up-Awake _ c h
  take_document-Awake (some (boolean b)) c h = give_up-Awake _ c h
  take_document-Awake (some (integer i)) c h = give_up-Awake _ c h
  take_document-Awake (some (floating d)) c h = give_up-Awake _ c h
  take_document-Awake (some (string s)) c h = give_up-Awake _ c h
  take_document-Awake (some (array xs)) c h = give_up-Awake _ c h

  read_line-Awake :
      (line rest : List ℕ) (c : Controller) → Awake c → Awake (read_line qt line rest c).1
  unfolding read_line
  read_line-Awake line rest c h =
      if-cases (λ (r : Bool × Controller). Awake r.1) (ltb (maximum_message) (length line))
        (λ e. give_up-Awake _ c h)
        (λ e.
          if-cases (λ (r : Bool × Controller). Awake r.1) (is_empty (qt.trimmed line))
            (λ k. longer-Awake rest c h) (λ k. take_document-Awake _ _ (longer-Awake rest c h)))

  check_rest-Awake : (c : Controller) → Awake c → Awake (check_rest qt c)
  unfolding check_rest
  check_rest-Awake c h =
      if-cases Awake (ltb (maximum_message) (length c.stream)) (λ e. give_up-Awake _ c h) (λ e. h)

  go_on-Awake :
      (more : Controller → Controller) (r : Bool × Controller)
      → ((c : Controller) → Awake c → Awake (more c))
      → Awake r.1
      → Awake (go_on more r)
  go_on-Awake more (true, c) k h = k c h
  go_on-Awake more (false, c) k h = h

  read_next-Awake :
      (more : Controller → Controller) (o : Option (List ℕ × List ℕ)) (c : Controller)
      → ((d : Controller) → Awake d → Awake (more d))
      → Awake c
      → Awake (read_next qt more o c)
  unfolding read_line check_rest
  read_next-Awake more none c k h = check_rest-Awake c h
  read_next-Awake more (some (line, rest)) c k h =
      go_on-Awake more _ k (read_line-Awake line rest c h)

  read_loop-Awake : (fuel : ℕ) (c : Controller) → Awake c → Awake (read_loop qt fuel c)
  unfolding read_loop
  read_loop-Awake zero c h = check_rest-Awake c h
  read_loop-Awake (suc fuel) c h =
      read_next-Awake (read_loop qt fuel) (next_line c.stream) c (read_loop-Awake fuel) h

  pub read_server-Awake :
      (bytes : List ℕ) (c : Controller) → Awake c → Awake (read_server qt bytes c)
  unfolding read_server
  read_server-Awake bytes c h =
      read_loop-Awake (length (c.stream ++ bytes)) _ (longer-Awake (c.stream ++ bytes) c h)
