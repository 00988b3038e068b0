-- ===== src/Calls/Safety.antt =====
-- What a method must keep so that it never goes through a NULL session pointer.
pub mod Streams
pub mod Controls
use ngh.Base.{ℕ, Bool, true, not, ◌||◌, is_some, ◌≡◌, arith}
use ngh.Values.{Value, iterate}
use ngh.Errors.{or_raise, type_error}
use ngh.Config.{Role, Configuration}
use ngh.Engine.{Engine}
use ngh.Connection.{Connection, Action, modify}
use ngh.Connection.Keeps.{Keeps, bind-Keeps, lift-Keeps}
use ngh.Setup.Keeps.{initialize-Keeps}
use ngh.Setup.{Argument, initialize, keep_limits, installed}
use ngh.Controls.{send_origins, origin_list}

-- An active connection has a session, and so has one that is initialised and has not failed.
abbrev pub IsSafe : {S : Type 0} → Connection S → Type 0
IsSafe c =
    (not c.active || is_some c.session ≡ true)
    × (not c.initialized || c.failed || is_some c.session ≡ true)

module _ {S : Type 0} where
  -- An action that keeps the connection safe.
  abbrev pub Safe : {A : Type 0} → Action S A → Type 0
  Safe m = Keeps IsSafe m

  keep_limits-Safe :
      (auto : Bool) (frame_size settings : ℕ) (config : Configuration)
      → Safe (keep_limits auto frame_size settings config)
  unfolding keep_limits
  keep_limits-Safe auto frame_size settings config = record { keeps = λ c h. ground arith }

module _ {S : Type 0} (g : Engine S) where
  installed-Safe :
      (role : Role) (config : Configuration) (s : S) → Safe (modify (installed g role config s))
  unfolding installed
  installed-Safe role config s = record { keeps = λ c h. ground arith }

  pub initialize-Safe :
      (role : Argument Role) (config : Argument Configuration) → Safe (initialize g role config)
  initialize-Safe role config =
      initialize-Keeps IsSafe keep_limits-Safe g role config installed-Safe

  pub send_origins-Safe : (origins : Value) → Safe (send_origins g origins)
  unfolding send_origins
  send_origins-Safe origins =
      bind-Keeps (lift-Keeps (or_raise (iterate origins) type_error)) λ items.
        bind-Keeps (lift-Keeps (origin_list items)) λ values. record { keeps = λ d h. ground arith }
