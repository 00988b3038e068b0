-- ===== src/Calls/Failed.antt =====
-- What a method does on a connection that has failed.
pub mod Streams
pub mod Controls
use ngh.Base.{Bool, true, false, ◌≡◌}
use ngh.Errors.{Result, ok, err}
use ngh.Connection.{Connection}

abbrev is_err {ℓ} : {A : Type ℓ} → Result A → Bool
is_err (ok a) = false
is_err (err e) = true

-- The call raised, and nothing has changed.
abbrev pub Refuses {ℓ} : {S : Type 0} {A : Type ℓ} → Connection S → Result A × Connection S → Type 0
Refuses c (r, d) = (is_err r ≡ true) × (d ≡ c)

-- The connection has failed.
abbrev pub HasFailed : {S : Type 0} → Connection S → Type 0
HasFailed c = (c.initialized ≡ true) × (c.failed ≡ true)
