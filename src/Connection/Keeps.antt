-- ===== src/Connection/Keeps.antt =====
-- Actions of a connection that keep a property of it, whether they return or raise.
use ngh.Base.{Bool, true, false, if◌then◌else◌}
use ngh.Errors.{Error, Result, ok, err}
use ngh.Connection.State.{Connection, Action, ◌>>=◌, ◌>>◌, raise_if, lift, get, pure}

pub record Keeps {S A : Type 0} (P : Connection S → Type 0) (m : Action S A) : Type 0 where
  pub keeps : (c : Connection S) → P c → P (m c).1

-- The rest of an action, after its first part.
abbrev continues :
    {S A B : Type 0} → (A → Action S B) → Result A × Connection S → Result B × Connection S
continues f (r, d) = elim r [ ok a ↦ f a d | err e ↦ (err e, d) ]

module _ {S : Type 0} {P : Connection S → Type 0} where
  continues-Keeps :
      {A B : Type 0} (f : A → Action S B) (r : Result A × Connection S)
      → P r.1
      → ((a : A) (d : Connection S) → P d → P (f a d).1)
      → P (continues f r).1
  continues-Keeps f (ok a, d) h k = k a d h
  continues-Keeps f (err e, d) h k = h

  pub bind-Keeps :
      {A B : Type 0} {m : Action S A} {f : A → Action S B}
      → Keeps P m
      → ((a : A) → Keeps P (f a))
      → Keeps P (m >>= f)
  bind-Keeps {m = m} {f = f} a b = record {
    keeps = λ c h. continues-Keeps f (m c) (a.keeps c h) λ x. (b x).keeps;
  }

  pub then-Keeps :
      {B : Type 0} {m : Action S (Unit {0})} {k : Action S B}
      → Keeps P m
      → Keeps P k
      → Keeps P (m >> k)
  then-Keeps a b = bind-Keeps a λ _. b

  pub get-Keeps :
      {B : Type 0} {f : Connection S → Action S B}
      → ((d : Connection S) → Keeps P (f d))
      → Keeps P (get >>= f)
  get-Keeps a = record { keeps = λ c h. (a c).keeps c h }

  pub lift-Keeps : {A : Type 0} (r : Result A) → Keeps P (lift r)
  lift-Keeps r = record { keeps = λ c h. h }

  pub raise_if-Keeps : (b : Bool) (e : Error) → Keeps P (raise_if b e)
  raise_if-Keeps true e = record { keeps = λ c h. h }
  raise_if-Keeps false e = record { keeps = λ c h. h }

  pub pure-Keeps : {A : Type 0} (a : A) → Keeps P (pure a)
  pure-Keeps a = record { keeps = λ c h. h }

  pub choose-Keeps :
      {A : Type 0} (b : Bool) {m k : Action S A}
      → Keeps P m
      → Keeps P k
      → Keeps P (if b then m else k)
  choose-Keeps true a b = a
  choose-Keeps false a b = b
