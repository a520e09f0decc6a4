-- ===== src/Server/Config/Numbers/Printed.antt =====
-- A number that is written in decimal is read back, whatever the limits that it meets.
use air_ctrl_desklet.Prelude.{
  ℕ, zero, suc, ◌+◌, ◌*◌, ◌/◌, ◌%◌, ◌≤◌, ◌<◌, ◌≡◌, refl, ap, ◌∙◌, true, ◌&&◌, List, [], ◌∷◌, Option,
  none, some, ◌==◌, if◌then◌else◌, nat_eq, leb, arith, if-cases,
}
use air_ctrl_desklet.Server.Config.Numbers.{
  is_digit, digits_value, below, from_chars, within, parse_integer,
}

-- The decimal digits of a number, before those that stand behind it. As many rounds as the number, and
-- one more, are enough.
decimal_before : ℕ → ℕ → List ℕ → List ℕ
decimal_before zero n behind = behind
decimal_before (suc rounds) n behind =
    let digits = (b'0' + n % 10) ∷ behind in
    let more = decimal_before rounds (n / 10) digits in if leb 10 n then more else digits

pub decimal : ℕ → List ℕ
decimal n = decimal_before (suc n) n []

read_digit :
    (value n : ℕ) (behind : List ℕ)
    → digits_value value ((b'0' + n % 10) ∷ behind) ≡ digits_value (value * 10 + n % 10) behind
unfolding digits_value
read_digit value n behind =
    if-cases (λ (o : Option ℕ). o ≡ digits_value (value * 10 + n % 10) behind)
      (is_digit (b'0' + n % 10)) (λ e. ap (λ k. digits_value k behind) (omega arith))
      (λ e. absurd (ground arith))

read_decimal :
    (rounds n : ℕ) (behind : List ℕ)
    → n < rounds
    → digits_value 0 (decimal_before rounds n behind) ≡ digits_value n behind
unfolding decimal_before
read_decimal zero n behind h = elim h [ ]
read_decimal (suc rounds) n behind h =
    if-cases (λ (l : List ℕ). digits_value 0 l ≡ digits_value n behind) (leb 10 n)
      (λ e.
        read_decimal rounds (n / 10) _ (ground arith)
        ∙ read_digit (n / 10) n behind
        ∙ ap (λ k. digits_value k behind) (omega arith))
      (λ e. read_digit 0 n behind ∙ ap (λ k. digits_value k behind) (ground arith))

-- A text that begins with a digit.
abbrev Digital : List ℕ → Type 0
Digital [] = ⊥
Digital (b ∷ text) = is_digit b ≡ true

decimal_before-Digital :
    (rounds n : ℕ) (behind : List ℕ) → Digital behind → Digital (decimal_before rounds n behind)
unfolding decimal_before
decimal_before-Digital zero n behind h = h
decimal_before-Digital (suc rounds) n behind h =
    if-cases Digital (leb 10 n) (λ e. decimal_before-Digital rounds (n / 10) _ (ground arith))
      (λ e. ground arith)

from_chars-Digital :
    (text : List ℕ) → Digital text → from_chars text ≡ below 2147483647 (digits_value 0 text)
unfolding from_chars
from_chars-Digital [] h = elim h [ ]
from_chars-Digital (b ∷ text) h =
    if-cases (λ (o : Option ℕ). o ≡ below 2147483647 (digits_value 0 (b ∷ text))) (b == b'-')
      (λ e. ground arith) (λ e. refl)

decimal-Digital : (n : ℕ) → Digital (decimal n)
unfolding decimal decimal_before
decimal-Digital n =
    if-cases Digital (leb 10 n) (λ e. decimal_before-Digital n (n / 10) _ (ground arith))
      (λ e. ground arith)

digits_value-decimal : (n : ℕ) → digits_value 0 (decimal n) ≡ some n
unfolding decimal digits_value
digits_value-decimal n = read_decimal (suc n) n [] (omega arith)

below_le : (limit n : ℕ) → n ≤ limit → below limit (some n) ≡ some n
below_le limit n h = ground arith

-- A number that an int can hold, written in decimal, is accepted exactly when it lies between the
-- limits, and as itself.
pub parse_integer-decimal :
    (n minimum maximum : ℕ)
    → n ≤ 2147483647
    → parse_integer (decimal n) minimum maximum
      ≡ (if leb minimum n && leb n maximum then some n else none)
unfolding parse_integer
parse_integer-decimal n minimum maximum h = ap (within minimum maximum) (
    from_chars-Digital (decimal n) (decimal-Digital n)
    ∙ ap (below 2147483647) (digits_value-decimal n)
    ∙ below_le 2147483647 n h)
