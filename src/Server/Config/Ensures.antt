-- ===== src/Server/Config/Ensures.antt =====
-- What holds of a result of loadConfig, if there is one.
use air_ctrl_desklet.Prelude.{nat_eq}
use air_ctrl_desklet.Server.Config.Lines.{Loaded, ok, err, ◌>>=◌}

-- A result that satisfies a predicate, if it is one.
abbrev pub Ensures {ℓ κ} : {A : Type ℓ} → (A → Type κ) → Loaded A → Type κ
Ensures P (ok a) = P a
Ensures P (err e) = Unit

pub Ensures-bind {ℓ κ μ ν} :
    {A : Type ℓ} {B : Type κ} (P : A → Type μ) (Q : B → Type ν) (m : Loaded A) (f : A → Loaded B)
    → Ensures P m
    → ((a : A) → P a → Ensures Q (f a))
    → Ensures Q (m >>= f)
Ensures-bind P Q (ok a) f h k = k a h
Ensures-bind P Q (err e) f h k = tt

pub Ensures-map {ℓ μ ν} :
    {A : Type ℓ} (P : A → Type μ) (Q : A → Type ν) (m : Loaded A)
    → ((a : A) → P a → Q a)
    → Ensures P m
    → Ensures Q m
Ensures-map P Q (ok a) k h = k a h
Ensures-map P Q (err e) k h = tt

pub Ensures-any {ℓ} : {A : Type ℓ} (m : Loaded A) → Ensures {ℓ, 0} (λ a. Unit) m
Ensures-any (ok a) = tt
Ensures-any (err e) = tt

pub Ensures-both {ℓ μ ν} :
    {A : Type ℓ} (P : A → Type μ) (Q : A → Type ν) (m : Loaded A)
    → Ensures P m
    → Ensures Q m
    → Ensures (λ a. P a × Q a) m
Ensures-both P Q (ok a) h k = (h, k)
Ensures-both P Q (err e) h k = tt
