-- ===== src/Connection/Ensures.antt =====
-- Actions of a connection that leave it with a property when they return.
use ngh.Base.{◌≡◌, Bool, true, false, refl}
use ngh.Errors.{Error, Result, ok, err}
use ngh.Connection.State.{Connection, Action, ◌>>=◌, ◌>>◌, raise_if, get}
use ngh.Connection.Keeps.{Keeps}

pub record Ensures {S A : Type 0} (Q : Connection S → Type 0) (m : Action S A) : Type 0 where
  pub ensures : (c : Connection S) (b : A) → (m c).0 ≡ ok b → Q (m c).1

-- The rest of an action, after its first part.
abbrev continues :
    {S A B : Type 0} → (A → Action S B) → Result A × Connection S → Result B × Connection S
continues f (r, d) = elim r [ ok a ↦ f a d | err e ↦ (err e, d) ]

module _ {S : Type 0} {Q : Connection S → Type 0} where
  continues-Ensures :
      {A B : Type 0} (f : A → Action S B) (r : Result A × Connection S) (b : B)
      → ((a : A) → Ensures Q (f a))
      → (continues f r).0 ≡ ok b
      → Q (continues f r).1
  continues-Ensures f (ok a, d) b k e = (k a).ensures d b e
  continues-Ensures f (err x, d) b k e = cc

  continues-Keeps :
      {A B : Type 0} (f : A → Action S B) (r : Result A × Connection S) (b : B)
      → ((a : A) → r.0 ≡ ok a → Q r.1)
      → ((a : A) → Keeps Q (f a))
      → (continues f r).0 ≡ ok b
      → Q (continues f r).1
  continues-Keeps f (ok a, d) b h k e = (k a).keeps d (h a refl)
  continues-Keeps f (err x, d) b h k e = cc

  -- The first part does not matter.
  pub skip-Ensures :
      {A B : Type 0} (m : Action S A) {f : A → Action S B}
      → ((a : A) → Ensures Q (f a))
      → Ensures Q (m >>= f)
  skip-Ensures m {f = f} k = record { ensures = λ c b. continues-Ensures f (m c) b k }

  -- The first part brings the property, and the rest keeps it.
  pub first-Ensures :
      {A B : Type 0} {m : Action S A} {f : A → Action S B}
      → Ensures Q m
      → ((a : A) → Keeps Q (f a))
      → Ensures Q (m >>= f)
  first-Ensures {m = m} {f = f} h k = record {
    ensures = λ c b. continues-Keeps f (m c) b (h.ensures c) k;
  }

  -- What follows a guard can count on it.
  pub guard-Ensures :
      {B : Type 0} (b : Bool) (e : Error) {k : Action S B}
      → (b ≡ false → Ensures Q k)
      → Ensures Q (raise_if b e >> k)
  guard-Ensures true e h = record { ensures = λ c b p. cc }
  guard-Ensures false e h = record { ensures = (h refl).ensures }

  pub get-Ensures :
      {B : Type 0} {f : Connection S → Action S B}
      → ((d : Connection S) → Ensures Q (f d))
      → Ensures Q (get >>= f)
  get-Ensures h = record { ensures = λ c. (h c).ensures c }
