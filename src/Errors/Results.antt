-- ===== src/Errors/Results.antt =====
-- How a fallible result splits.
use ngh.Base.{◌≡◌, refl, ◌⊎◌, inl, inr}
use ngh.Errors.{Error, Result, ok, err, ◌>>=◌}

pub Result-cases :
    {A : Type 0} (r : Result A) → ((e : Error) × (r ≡ err e)) ⊎ ((a : A) × (r ≡ ok a))
Result-cases (ok a) = inr (a, refl)
Result-cases (err e) = inl (e, refl)

-- A chain that succeeds went through its first part.
pub bind_ok :
    {A B : Type 0} (f : A → Result B) (b : B) (r : Result A)
    → (r >>= f) ≡ ok b
    → (a : A) × (f a ≡ ok b) × (ok a ≡ r)
bind_ok f b (err x) e = cc
bind_ok f b (ok a) e = (a, e, refl)
