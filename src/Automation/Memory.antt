-- ===== src/Automation/Memory.antt =====
-- AutomationEngine::allocator: the memory limit of the Lua state.
use air_ctrl_desklet.Prelude.{
  ℕ, ◌+◌, ◌-◌, ◌*◌, ◌≤◌, ◌≡◌, refl, Bool, true, false, ◌||◌, arith, ltb, ◌==◌, if◌then◌else◌,
  nat_eq, List, [], ◌∷◌, ◌∙◌,
}

pub record MemoryLimit : Type 0 where
  pub used : ℕ
  pub maximum : ℕ

abbrev pub size_limit : ℕ
size_limit = 8 * 1024 * 1024

-- `oldSize > memory->used ? 0U : memory->used - oldSize`
abbrev released : MemoryLimit → ℕ → ℕ
released m old = if ltb m.used old then 0 else m.used - old

-- A request to free, to grow or shrink a block (`known`: the pointer is not null), or to allocate one.
-- `granted` is the answer of `realloc`. The result says whether a block is returned.
pub allocate : Bool → Bool → ℕ → ℕ → MemoryLimit → Bool × MemoryLimit
allocate granted known old new m =
    if new == 0
    then (false, record m { used = released m old })
    else let base = if known then released m old else m.used in
      if ltb m.maximum new || ltb (m.maximum - new) base
      then (false, m)
      else if granted
      then (true, record m { used = base + new })
      else (false, m)

pub record IsWithin (m : MemoryLimit) : Type 0 where
  pub within : m.used ≤ m.maximum

pub allocate-IsWithin :
    (granted known : Bool) (old new : ℕ) (m : MemoryLimit)
    → IsWithin m
    → IsWithin (allocate granted known old new m).1
unfolding allocate
allocate-IsWithin granted known old new m v = ground arith

-- A sequence of allocator calls, each with the sizes that Lua names.
pub run_allocator : List (Bool × Bool × ℕ × ℕ) → MemoryLimit → MemoryLimit
run_allocator [] m = m
run_allocator ((granted, known, old, new) ∷ rest) m =
    run_allocator rest (allocate granted known old new m).1

maximum-allocate :
    (granted known : Bool) (old new : ℕ) (m : MemoryLimit)
    → (allocate granted known old new m).1.maximum ≡ m.maximum
unfolding allocate
maximum-allocate granted known old new m = ground arith

run_allocator-keeps :
    (calls : List (Bool × Bool × ℕ × ℕ)) (m : MemoryLimit)
    → IsWithin m
    → IsWithin (run_allocator calls m) × ((run_allocator calls m).maximum ≡ m.maximum)
unfolding run_allocator
run_allocator-keeps [] m v = (v, refl)
run_allocator-keeps ((granted, known, old, new) ∷ rest) m v =
    let (w, e) =
      run_allocator-keeps rest (allocate granted known old new m).1
        (allocate-IsWithin granted known old new m v) in
    (w, e ∙ maximum-allocate granted known old new m)

-- Whatever Lua asks for, and whatever the allocator below answers, from a fresh state the accounted
-- memory never passes the eight megabytes.
pub run_allocator_bounded :
    (calls : List (Bool × Bool × ℕ × ℕ))
    → (run_allocator calls (record { used = 0; maximum = size_limit })).used ≤ size_limit
run_allocator_bounded calls =
    let (w, e) =
      run_allocator-keeps calls (record { used = 0; maximum = size_limit })
        (record { within = omega arith }) in
    omega arith
