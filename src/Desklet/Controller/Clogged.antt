-- ===== src/Desklet/Controller/Clogged.antt =====
-- A stream that begins with more than a megabyte and no newline outlives the connection: readServer
-- gives the connection up and leaves the stream as it is, and nothing but stop clears it.
use air_ctrl_desklet.Prelude.{
  ℕ, zero, suc, ◌≤◌, ◌<◌, Bool, true, false, ◌≡◌, refl, List, [], ◌∷◌, ◌++◌, Option, none, some,
  String, arith, ◌==◌, if◌then◌else◌, nat_eq, string_eq, if-cases, ap, subst, sym, ◌∙◌, ltb, length,
  length-append, append_assoc,
}
use air_ctrl_desklet.Automation.Text.{newline}
use air_ctrl_desklet.Server.Connections.{next_line}
use air_ctrl_desklet.Desklet.Controller.State.{
  Controller, Qt, Socket, unconnected, opening, connected, abort, connection_failed, set_busy,
  fail_command, on_disconnected, closed_by,
}
use air_ctrl_desklet.Desklet.Controller.Messages.{
  maximum_message, give_up, read_line, check_rest, go_on, read_next, read_loop, read_server,
}
use air_ctrl_desklet.Desklet.Controller.Stream.{give_up-unconnected}
pub mod Runs

pub record Clogged (stream : List ℕ) : Type 0 where
  pub start : List ℕ
  pub rest : List ℕ
  pub splits : stream ≡ start ++ rest
  pub unbroken : next_line start ≡ none
  pub long : maximum_message < length start

-- What is read first, if anything, is as long as the start.
abbrev Long : ℕ → Option (List ℕ × List ℕ) → Type 0
Long n none = Unit
Long n (some (line, after)) = n ≤ length line

Long-cons :
    (n b : ℕ) (o : Option (List ℕ × List ℕ))
    → Long n o
    → Long (suc n) (elim o [ none ↦ none | some (line, after) ↦ some (b ∷ line, after) ])
Long-cons n b none h = tt
Long-cons n b (some (line, after)) h = omega arith

Long-zero : (o : Option (List ℕ × List ℕ)) → Long 0 o
Long-zero none = tt
Long-zero (some (line, after)) = omega arith

unbroken_tail :
    (b : ℕ) (start : List ℕ)
    → next_line (b ∷ start) ≡ none
    → (b == newline ≡ false) × (next_line start ≡ none)
unfolding next_line
unbroken_tail b start h = unread (b == newline) (next_line start) h
  where
    unread :
        (t : Bool) (o : Option (List ℕ × List ℕ))
        → (if◌then◌else◌ {A = Option (List ℕ × List ℕ)} t
            (some ([], start))
            (elim o [ none ↦ none | some (line, after) ↦ some (b ∷ line, after) ]))
          ≡ none
        → (t ≡ false) × (o ≡ none)
    unread true o e = cc
    unread false none e = (refl, refl)
    unread false (some (line, after)) e = cc

next_line-Long :
    (start rest : List ℕ) → next_line start ≡ none → Long (length start) (next_line (start ++ rest))
unfolding next_line
next_line-Long [] rest h = Long-zero (next_line rest)
next_line-Long (b ∷ start) rest h =
    let parts = unbroken_tail b start h in
    subst
      (λ x. Long (suc (length start)) (
        if x then some ([], start ++ rest) else elim (next_line (start ++ rest)) [
          | none ↦ none
          | some (line, after) ↦ some (b ∷ line, after)
        ]))
      (sym parts.0)
      (Long-cons (length start) b (next_line (start ++ rest)) (next_line-Long start rest parts.1))

start-le : (stream : List ℕ) (h : Clogged stream) → length h.start ≤ length stream
start-le stream h = omega (arith, ap length h.splits, length-append h.start h.rest)

stream_long : (stream : List ℕ) → Clogged stream → maximum_message < length stream
stream_long stream h = omega (arith, h.long, start-le stream h)

module _ (qt : Qt) where
  pub connection_failed-stream :
      (reason : String) (c : Controller) → (connection_failed qt reason c).stream ≡ c.stream
  unfolding connection_failed
  connection_failed-stream reason c = ground arith

  pub on_disconnected-stream : (c : Controller) → (on_disconnected qt c).stream ≡ c.stream
  unfolding on_disconnected connection_failed fail_command set_busy
  on_disconnected-stream c = ground arith

  pub closed_by-stream : (s : Socket) (c : Controller) → (closed_by qt s c).stream ≡ c.stream
  unfolding on_disconnected
  closed_by-stream connected c = on_disconnected-stream c
  closed_by-stream unconnected c = refl
  closed_by-stream opening c = refl

  give_up-stream : (reason : String) (c : Controller) → (give_up qt reason c).stream ≡ c.stream
  unfolding abort
  give_up-stream reason c =
      connection_failed-stream reason (abort qt c)
      ∙ closed_by-stream c.socket (record c { socket = unconnected })

  abbrev GivenUp : Controller → Controller → Type 0
  GivenUp c d = (d.socket ≡ unconnected) × (d.stream ≡ c.stream)

  give_up-GivenUp : (reason : String) (c : Controller) → GivenUp c (give_up qt reason c)
  give_up-GivenUp reason c = (give_up-unconnected qt reason c, give_up-stream reason c)

  check_rest-GivenUp :
      (c : Controller) → maximum_message < length c.stream → GivenUp c (check_rest qt c)
  unfolding check_rest
  check_rest-GivenUp c h =
      if-cases (GivenUp c) (ltb maximum_message (length c.stream)) (λ e. give_up-GivenUp _ c)
        (λ e. absurd (ground arith))

  read_next-GivenUp :
      (more : Controller → Controller) (o : Option (List ℕ × List ℕ)) (c : Controller) (n : ℕ)
      → maximum_message < n
      → n ≤ length c.stream
      → Long n o
      → GivenUp c (read_next qt more o c)
  unfolding read_line check_rest
  read_next-GivenUp more none c n m l h = check_rest-GivenUp c (omega arith)
  read_next-GivenUp more (some (line, rest)) c n m l h =
      if-cases (λ (r : Bool × Controller). GivenUp c (go_on more r))
        (ltb maximum_message (length line)) (λ e. give_up-GivenUp _ c) (λ e. absurd (ground arith))

  read_loop-GivenUp :
      (fuel : ℕ) (c : Controller) → Clogged c.stream → GivenUp c (read_loop qt fuel c)
  unfolding read_loop
  read_loop-GivenUp zero c h = check_rest-GivenUp c (stream_long c.stream h)
  read_loop-GivenUp (suc fuel) c h =
      read_next-GivenUp (read_loop qt fuel) (next_line c.stream) c (length h.start) h.long
        (start-le c.stream h)
        (subst (λ l. Long (length h.start) (next_line l)) (sym h.splits)
          (next_line-Long h.start h.rest h.unbroken))

  Clogged-append : (stream bytes : List ℕ) → Clogged stream → Clogged (stream ++ bytes)
  Clogged-append stream bytes h = record {
    start = h.start;
    rest = h.rest ++ bytes;
    splits = ap (λ l. l ++ bytes) h.splits ∙ append_assoc h.start h.rest bytes;
    unbroken = h.unbroken;
    long = h.long;
  }

  pub read_server-Clogged :
      (bytes : List ℕ) (c : Controller)
      → Clogged c.stream
      → let d = read_server qt bytes c in
        (d.socket ≡ unconnected) × (d.stream ≡ c.stream ++ bytes) × Clogged d.stream
  unfolding read_server
  read_server-Clogged bytes c h =
      let longer = Clogged-append c.stream bytes h in
      let given =
        read_loop-GivenUp (length (c.stream ++ bytes)) (record c { stream = c.stream ++ bytes })
          longer in
      (given.0, given.1, subst Clogged (sym given.1) longer)
