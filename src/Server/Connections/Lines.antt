-- ===== src/Server/Connections/Lines.antt =====
-- The loop over the lines of a client's input ends within the bound, with no complete line left.
use air_ctrl_desklet.Prelude.{
  ℕ, zero, suc, ◌≤◌, ◌<◌, ◌≡◌, refl, sym, subst, ◌∙◌, true, false, List, [], ◌∷◌, Option, none,
  some, ◌==◌, nat_eq, arith, is_some, length, Bool-cases, Option-cases, inl, inr,
}
use air_ctrl_desklet.Automation.Types.{Env}
use air_ctrl_desklet.Automation.Text.{newline}
use air_ctrl_desklet.Server.State.{Server, Client, lookup, erase, update}
use air_ctrl_desklet.Server.State.Distinct.{
  Distinct, is_some-lookup-update, lookup-erase, lookup-erase-same, Distinct-update, Distinct-erase,
}
use air_ctrl_desklet.Server.Connections.{next_line, input_of, set_input, take_lines, lines_left}
use air_ctrl_desklet.Server.Frame.{Kept}
use air_ctrl_desklet.Server.Frame.OfActions.{Queued}
use air_ctrl_desklet.Server.Frame.OfEngine.{Anything, anything}
use air_ctrl_desklet.Server.Frame.OfRequests.{Served}
use air_ctrl_desklet.Server.Frame.OfConnections.{take_line-keeps, has_line}

-- A line taken off, and its newline, leave less.
abbrev pub Shorter : ℕ → Option (List ℕ × List ℕ) → Type 0
Shorter n none = Unit
Shorter n (some (line, after)) = length after < n

pub next_line-Shorter : (bytes : List ℕ) → Shorter (length bytes) (next_line bytes)
unfolding next_line
next_line-Shorter [] = tt
next_line-Shorter (b ∷ rest) = elim (Bool-cases (b == newline)) [
  | inl e ↦ rw e (omega arith)
  | inr e ↦ rw e (longer (next_line rest) (next_line-Shorter rest))
]
  where
    longer :
        (o : Option (List ℕ × List ℕ))
        → Shorter (length rest) o
        → Shorter
            (suc (length rest))
            (elim o [ none ↦ none | some (line, after) ↦ some (b ∷ line, after) ])
    longer none h = tt
    longer (some (line, after)) h = omega arith

pub no_line : (bytes : List ℕ) → length bytes ≤ 0 → next_line bytes ≡ none
unfolding next_line
no_line [] h = refl
no_line (b ∷ rest) h = ground arith

-- The input of a client is no longer than a bound, and no identifier stands twice.
abbrev Within : {S : Type 0} → ℕ → ℕ → Server S → Type 0
Within id n s = Distinct s.clients × (length (input_of (lookup id s.clients)) ≤ n)

input-erase :
    (i id : ℕ) (cs : List (ℕ × Client))
    → Distinct cs
    → length (input_of (lookup id (erase i cs))) ≤ length (input_of (lookup id cs))
input-erase i id cs d = elim (Bool-cases (id == i)) [
  | inl e ↦
      subst (λ k. length (input_of (lookup k (erase i cs))) ≤ length (input_of (lookup k cs)))
        (same_key i id e)
        (subst (λ m. m ≤ length (input_of (lookup i cs)))
          (sym (no_input (lookup i (erase i cs)) (lookup-erase-same i cs d))) (omega arith))
  | inr e ↦
      subst (λ o. length (input_of o) ≤ length (input_of (lookup id cs)))
        (sym (lookup-erase i id cs e)) (omega arith)
]
  where
    same_key : (i id : ℕ) → (id == i) ≡ true → i ≡ id
    same_key i id e = ground arith

    no_input : (o : Option Client) → is_some o ≡ false → length (input_of o) ≡ 0
    no_input none h = refl
    no_input (some c) h = ground arith

input-update :
    (i id : ℕ) (f : Client → Client) (cs : List (ℕ × Client))
    → ((c : Client) → (f c).input ≡ c.input)
    → input_of (lookup id (update i f cs)) ≡ input_of (lookup id cs)
unfolding lookup update
input-update i id f [] h = refl
input-update i id f ((j, c) ∷ rest) h = elim (Bool-cases (j == i)) [
  | inl e ↦
      rw e (elim (Bool-cases (j == id)) [ inl here ↦ rw here (h c) | inr there ↦ rw there refl ])
  | inr e ↦ rw e (elim (Bool-cases (j == id)) [
    | inl here ↦ rw here refl
    | inr there ↦ rw there (input-update i id f rest h)
  ])
]

input-set :
    (id : ℕ) (bytes : List ℕ) (cs : List (ℕ × Client))
    → length (input_of (lookup id (update id (set_input bytes) cs))) ≤ length bytes
unfolding lookup update
input-set id bytes [] = omega arith
input-set id bytes ((j, c) ∷ rest) = elim (Bool-cases (j == id)) [
  | inl e ↦ rw e (rw e (omega arith))
  | inr e ↦ rw e (rw e (input-set id bytes rest))
]

module _ {S : Type 0} (id n : ℕ) where
  abbrev Q : Server S → Type 0
  Q s = Within id n s

  abbrev within_kept : Kept S (λ e. Anything e) Q
  within_kept = record {
    good = λ s p. tt;
    engine = λ s e p g. p;
    deliver = λ s i f same (d, w). (
      Distinct-update i f s.clients d,
      subst (λ bytes. length bytes ≤ n) (sym (input-update i id f s.clients (λ c. (same c).0))) w,
    );
    release = λ s i (d, w) own. (Distinct-erase i s.clients d, shrink i s d w);
    leave = λ s i (d, w) other. (Distinct-erase i s.clients d, shrink i s d w);
    quit = λ s p. p;
  }
    where
      shrink :
          (i : ℕ) (s : Server S)
          → Distinct s.clients
          → length (input_of (lookup id s.clients)) ≤ n
          → length (input_of (lookup id (erase i s.clients))) ≤ n
      shrink i s d w = omega (arith, input-erase i id s.clients d)

  abbrev within_queued : Queued S (λ v. Anything v) Q
  within_queued = record { push = λ s c m r p. p; confirm = λ s o p. p }

  abbrev within_served : (client : ℕ) → Served S Q client
  within_served client = record { take = λ s p live. p; free = λ s p. p; restart = λ s p. p }

module _ {S : Type 0} (env : Env S) (now : ℕ) where
  take_lines-enough :
      (n id : ℕ) (s : Server S)
      → Within id n s
      → next_line (input_of (lookup id (take_lines env now n id s).clients)) ≡ none
  unfolding take_lines
  take_lines-enough zero id s (d, w) = no_line (input_of (lookup id s.clients)) w
  take_lines-enough (suc n) id s (d, w) =
      elim (Option-cases (next_line (input_of (lookup id s.clients)))) [
        | inl e ↦ rw (e, take_lines) e
        | inr ((line, after), e) ↦
            let live =
              is_some-lookup-update id id (set_input after) s.clients
              ∙ has_line (lookup id s.clients) _ e in
            let shorter =
              subst (λ o. Shorter (length (input_of (lookup id s.clients))) o) e
                (next_line-Shorter (input_of (lookup id s.clients))) in
            rw (e, take_lines)
              (take_lines-enough n id _ (
                take_line-keeps env now (λ e. Anything e) (λ v. Anything v) (anything env)
                  (Within id n) (within_kept id n) (within_queued id n) (within_served id n) id line
                  _
                  (
                    Distinct-update id (set_input after) s.clients d,
                    omega (arith, shorter, w, input-set id after s.clients),
                  )
                  live))
      ]

  -- If no client identifier stands twice, the loop over the input of a client leaves no complete line,
  -- its bound being the length of that input: a request that a line carries is always handled.
  pub take_lines-finished :
      (id : ℕ) (s : Server S)
      → Distinct s.clients
      → next_line (input_of (lookup id (take_lines env now (lines_left env now id s) id s).clients))
        ≡ none
  take_lines-finished id s d = take_lines-enough (lines_left env now id s) id s (d, omega arith)
