-- ===== src/Automation/Text.antt =====
-- cleanLine and appendLog of src/server/automation.cpp, over bytes.
use air_ctrl_desklet.Prelude.{
  ℕ, zero, suc, ◌≤◌, ◌≡◌, ◌≢◌, refl, ◌||◌, List, [], ◌∷◌, ◌++◌, map, arith, ltb, ◌==◌,
  if◌then◌else◌, nat_eq, length, length-append, All,
}

-- text.resize(n) of a longer text
abbrev pub take : ℕ → List ℕ → List ℕ
take zero bytes = []
take (suc n) [] = []
take (suc n) (b ∷ bytes) = b ∷ take n bytes

abbrev pub newline : ℕ
newline = 10

abbrev pub carriage_return : ℕ
carriage_return = 13

abbrev pub space : ℕ
space = 32

abbrev blank : ℕ → ℕ
blank b = if b == newline || b == carriage_return then space else b

pub clean_line : ℕ → List ℕ → List ℕ
clean_line maximum text = map blank (if ltb maximum (length text) then take maximum text else text)

abbrev pub without_first {ℓ} : {A : Type ℓ} → List A → List A
without_first [] = []
without_first (x ∷ xs) = xs

-- vector::push_back and, past the limit, erase(begin())
abbrev pub push_bounded {ℓ} : {A : Type ℓ} → ℕ → A → List A → List A
push_bounded limit entry entries =
    let longer = entries ++ entry ∷ [] in
    if ltb limit (length longer) then without_first longer else longer

abbrev pub IsOneLine : List ℕ → Type 0
IsOneLine = All (λ b. (b ≢ newline) × (b ≢ carriage_return))

map-blank-IsOneLine : (text : List ℕ) → IsOneLine (map blank text)
map-blank-IsOneLine [] = tt
map-blank-IsOneLine (b ∷ text) = ((λ e. ground arith, λ e. ground arith), map-blank-IsOneLine text)

length-map-blank : (text : List ℕ) → length (map blank text) ≡ length text
length-map-blank [] = refl
length-map-blank (b ∷ text) = omega (arith, length-map-blank text)

length-take-le : (n : ℕ) (text : List ℕ) → length (take n text) ≤ n
length-take-le zero text = omega arith
length-take-le (suc n) [] = omega arith
length-take-le (suc n) (b ∷ text) = omega (arith, length-take-le n text)

-- A cleaned text is one line of at most the given size, whatever it was.
pub clean_line-IsOneLine :
    (maximum : ℕ) (text : List ℕ)
    → IsOneLine (clean_line maximum text) × (length (clean_line maximum text) ≤ maximum)
unfolding clean_line
clean_line-IsOneLine maximum text = (
  map-blank-IsOneLine _,
  ground (
    arith,
    length-map-blank text,
    length-map-blank (take maximum text),
    length-take-le maximum text,
  ),
)

pub length-push_bounded {ℓ} :
    {A : Type ℓ} (limit : ℕ) (entry : A) (entries : List A)
    → length entries ≤ limit
    → length (push_bounded limit entry entries) ≤ limit
length-push_bounded limit entry [] h = ground arith
length-push_bounded limit entry (x ∷ xs) h = ground (arith, length-append xs (entry ∷ []))
