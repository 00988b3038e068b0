-- ===== src/Closing.antt =====
-- The end of a connection: `_closed` of `class Connection` (src/ngh2/_core.pyx) and the
-- ConnectionClosed events.
pub mod Callbacks
pub mod Methods
pub mod Sequences
pub mod Reason
use ngh.Base.{ℕ, ◌+◌, ◌≤◌, ◌≡◌, refl, Bool, true, false, List, [], ◌∷◌, ◌++◌, arith, if◌then◌else◌}
use ngh.Events.{Event, connection_closed}
use ngh.Connection.{Connection}

-- The ConnectionClosed events of a list.
abbrev pub closing_events : Event → ℕ
closing_events (connection_closed code debug_data) = 1
closing_events _ = 0

abbrev pub closings : List Event → ℕ
closings [] = 0
closings (event ∷ events) = closing_events event + closings events

pub closings-append : (es fs : List Event) → closings (es ++ fs) ≡ closings es + closings fs
closings-append [] fs = omega arith
closings-append (e ∷ es) fs = omega (arith, closings-append es fs)

-- How many such events the connection may still publish.
abbrev pub allowance : Bool → ℕ
allowance closed = if closed then 0 else 1

-- From `c` to `d` an event of this kind is published at most where the connection closes.
abbrev pub Once : {S : Type 0} → Connection S → Connection S → Type 0
Once c d = closings d.events + allowance d.closed ≤ closings c.events + allowance c.closed

-- None is published, and the connection does not close.
abbrev pub Silent : {S : Type 0} → Connection S → Connection S → Type 0
Silent c d = (closings d.events ≡ closings c.events) × (d.closed ≡ c.closed)
