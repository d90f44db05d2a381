-- ===== src/Tools/Promises.antt =====
-- What results promise, and how the promises chain.
use picobot.Base.{Text, ◌⊎◌, inl, inr, ◌≡◌, refl}
use picobot.Kernel.Tool.{Result, ok, err, ◌>>=◌}
use picobot.Tools.Input.{or_error}

-- What a result promises, if it is not an error.
abbrev pub Holds : {A : Type 0} → (A → Type 0) → Result A → Type 0
Holds P (ok a) = P a
Holds P (err e) = Unit

pub Holds-bind :
    {A B : Type 0} (P : A → Type 0) (Q : B → Type 0) (r : Result A) (f : A → Result B)
    → Holds P r
    → ((a : A) → P a → Holds Q (f a))
    → Holds Q (r >>= f)
Holds-bind P Q (ok a) f h g = g a h
Holds-bind P Q (err e) f h g = tt

pub Holds-or_error :
    {A : Type 0} {P : A → Type 0} (r : Text ⊎ A)
    → ((a : A) → r ≡ inr a → P a)
    → Holds P (or_error r)
Holds-or_error (inl e) h = tt
Holds-or_error (inr a) h = h a refl

pub trivial : {A : Type 0} (r : Result A) → Holds (λ a. Unit) r
trivial (ok a) = tt
trivial (err e) = tt
