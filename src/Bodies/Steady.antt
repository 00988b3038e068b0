-- ===== src/Bodies/Steady.antt =====
-- The bodies over a method that leaves them alone, or drops them all.
use ngh.Base.{[], ◌⊎◌, inl, inr, ◌≡◌, ◌∙◌, refl}
use ngh.Connection.{Connection, Action}
use ngh.Connection.Keeps.{Keeps}
use ngh.Calls.Calm.{Calm}
use ngh.Bodies.Ledger.{Accounted, Counted-empty}
use ngh.Bodies.Callbacks.{Accounted-same}

-- The bodies are as they were, or none is left.
abbrev pub Steady : {S : Type 0} → Connection S → Connection S → Type 0
Steady c d =
    (d.is_server ≡ c.is_server)
    × (d.initialized ≡ c.initialized)
    × (((d.bodies ≡ c.bodies)
          × (d.queued_body_size ≡ c.queued_body_size)
          × (d.responses ≡ c.responses))
        ⊎ ((d.bodies ≡ []) × (d.queued_body_size ≡ 0)))

module _ {S : Type 0} where
  pub Steady-self : (c : Connection S) → Steady c c
  Steady-self c = (refl, refl, inl (refl, refl, refl))

  pub Steady-Accounted : (c d : Connection S) → Accounted c → Steady c d → Accounted d
  Steady-Accounted c d a (i, n, inl (b, q, rs)) = Accounted-same c d a (b, q, (rs, i, n))
  Steady-Accounted c d a (i, n, inr (b, q)) = record {
    ready = n ∙ a.ready;
    counted = rw (b, q) Counted-empty;
    covered = λ s. rw b tt;
  }

  pub Calm-Accounted : (c d : Connection S) → Accounted c → Calm c d → Accounted d
  Calm-Accounted c d a (i, n, ev, bodies, k) = Steady-Accounted c d a (i, n, bodies)

  -- An action that keeps the bodies accounted for.
  abbrev pub Tracks : {A : Type 0} → Action S A → Type 0
  Tracks m = Keeps Accounted m

  pub Steady-Tracks :
      {A : Type 0} (m : Action S A) → ((c : Connection S) → Steady c (m c).1) → Tracks m
  Steady-Tracks m h = record { keeps = λ c a. Steady-Accounted c (m c).1 a (h c) }
