-- ===== src/Server/Connections.antt =====
-- acceptClients, readClient and flushClient (src/server/server.cpp). What a socket gives or takes is an
-- argument: the blocks that recv returns and how the reading ends, and what each ::send takes.
pub mod Lines
use air_ctrl_desklet.Prelude.{
  ℕ, zero, suc, ◌+◌, ◌*◌, ◌%◌, ◌^◌, Bool, true, false, not, ◌&&◌, ◌||◌, List, [], ◌∷◌, ◌++◌, Option,
  none, some, ◌==◌, if◌then◌else◌, nat_eq, string_eq, ltb, length, is_some, is_empty,
}
use air_ctrl_desklet.Json.{Json, is_object, is_filled_object}
use air_ctrl_desklet.Automation.Types.{Env}
use air_ctrl_desklet.Automation.Text.{newline, carriage_return, space}
use air_ctrl_desklet.Server.State.{Server, Client, lookup, update}
use air_ctrl_desklet.Server.Clients.{
  message, state_envelope, automation_envelope, send, close_client,
}
use air_ctrl_desklet.Server.Requests.{handle}
use air_ctrl_desklet.Server.Answers.{error_message}

abbrev pub maximum_input_size : ℕ
maximum_input_size = 1024 * 1024

-- How a loop of recv ends: nothing left, the peer has closed, or another error.
pub data Ending : Type 0 where
  drained closed broken : Ending

-- What ::send answers: some bytes taken, not ready, or another error.
pub data Sent : Type 0 where
  wrote : ℕ → Sent
  not_yet sending_failed : Sent

-- trim
abbrev pub is_space : ℕ → Bool
is_space b = b == space || b == 9 || b == carriage_return || b == newline

abbrev pub skip_spaces : List ℕ → List ℕ
skip_spaces [] = []
skip_spaces (b ∷ rest) = if is_space b then skip_spaces rest else b ∷ rest

abbrev pub backwards : List ℕ → List ℕ → List ℕ
backwards [] done = done
backwards (b ∷ rest) done = backwards rest (b ∷ done)

abbrev pub trim : List ℕ → List ℕ
trim text = backwards (skip_spaces (backwards (skip_spaces text) [])) []

-- The bytes before the first newline and those after it.
unfoldable pub next_line : List ℕ → Option (List ℕ × List ℕ)
next_line [] = none
next_line (b ∷ rest) =
    if b == newline
    then some ([], rest)
    else elim (next_line rest) [ none ↦ none | some (line, after) ↦ some (b ∷ line, after) ]

abbrev pub drop : ℕ → List ℕ → List ℕ
drop zero bytes = bytes
drop (suc n) [] = []
drop (suc n) (b ∷ bytes) = drop n bytes

abbrev pub as_request : Option Json → Option Json
as_request none = none
as_request (some value) = if is_object value then some value else none

abbrev pub input_of : Option Client → List ℕ
input_of none = []
input_of (some c) = c.input

abbrev pub set_input : List ℕ → Client → Client
set_input bytes c = record c { input = bytes }

abbrev pub closing : Client → Client
closing c = record c { close_after_write = true }

abbrev pub set_output : List ℕ → Client → Client
set_output bytes c = record c { output = bytes }

module _ {S : Type 0} (env : Env S) (now : ℕ) where
  abbrev with_client : ℕ → (Client → Client) → Server S → Server S
  with_client id f s = record s { clients = update id f s.clients }

  abbrev left_over : ℕ → List ℕ → Server S → Server S
  left_over id output s = with_client id (set_output output) s

  -- The loop of ::send, `output` being what is left and `last` whether the client goes after it.
  unfoldable pub write_out : ℕ → Server S → Bool → List Sent → List ℕ → Server S
  write_out id s last answers [] =
      if last then close_client env id (left_over id [] s) else left_over id [] s
  write_out id s last [] (b ∷ output) = left_over id (b ∷ output) s
  write_out id s last (wrote zero ∷ answers) (b ∷ output) =
      close_client env id (left_over id (b ∷ output) s)
  write_out id s last (wrote (suc n) ∷ answers) (b ∷ output) =
      write_out id s last answers (drop n output)
  write_out id s last (not_yet ∷ answers) (b ∷ output) = left_over id (b ∷ output) s
  write_out id s last (sending_failed ∷ answers) (b ∷ output) =
      close_client env id (left_over id (b ∷ output) s)

  -- flushClient
  unfoldable pub flush_client : List Sent → ℕ → Server S → Server S
  unfolding write_out
  flush_client answers id s = elim (lookup id s.clients) [
    | none ↦ s
    | some c ↦ write_out id s c.close_after_write answers c.output
  ]

  -- acceptClients, for one connection that the allow-list admits
  unfoldable pub accept_client : List Sent → Server S → Server S
  accept_client answers s =
      let id = s.next_client in
      let known = send env id (state_envelope env s) (record s {
        next_client = (s.next_client + 1) % 2 ^ 64;
        clients =
            s.clients ++ (id, record { input = []; output = []; close_after_write = false }) ∷ [];
        accepted_any = true;
      }) in
      let told =
        if known.state == "connected" && is_filled_object known.last_status
        then send env id (message "status" (("data", known.last_status) ∷ [])) known
        else known in
      flush_client answers id (send env id (automation_envelope env told) told)

  -- One line of input.
  unfoldable pub take_line : ℕ → List ℕ → Server S → Server S
  take_line id line s =
      if is_empty (trim line) then s else elim (as_request (env.parse (trim line))) [
        | none ↦ send env id (error_message "Ungültiges IPC-JSON.") s
        | some request ↦ handle env now id request s
      ]

  -- The loop over the lines of the input; the number bounds its rounds.
  unfoldable pub take_lines : ℕ → ℕ → Server S → Server S
  take_lines zero id s = s
  take_lines (suc n) id s = elim (next_line (input_of (lookup id s.clients))) [
    | none ↦ s
    | some (line, after) ↦ take_lines n id (take_line id line (with_client id (set_input after) s))
  ]

  abbrev pub lines_left : ℕ → Server S → ℕ
  lines_left id s = length (input_of (lookup id s.clients))

  -- What follows the reading: all complete lines, then a flush.
  unfoldable pub finish_read : List Sent → Ending → ℕ → Server S → Server S
  finish_read answers drained id s = flush_client answers id (take_lines (lines_left id s) id s)
  finish_read answers closed id s = close_client env id s
  finish_read answers broken id s = close_client env id s

  -- readClient
  unfoldable pub read_client : List (List ℕ) → Ending → List Sent → ℕ → Server S → Server S
  read_client [] ending answers id s = finish_read answers ending id s
  read_client (block ∷ blocks) ending answers id s =
      let input = input_of (lookup id s.clients) ++ block in
      let grown = with_client id (set_input input) s in
      let rest = read_client blocks ending answers id grown in
      if not (is_some (lookup id s.clients))
      then s
      else if ltb maximum_input_size (length input)
      then flush_client answers id
          (with_client id closing (send env id (error_message "IPC-Nachricht ist zu groß.") grown))
      else rest
