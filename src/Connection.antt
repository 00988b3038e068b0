-- ===== src/Connection.antt =====
-- `class Connection` of src/ngh2/_core.pyx: its state, `__cinit__`, the guards of its methods, and
-- how it fails and ends. A method is an action: the state comes back after a raise too.
pub mod Keeps
pub mod Ensures
mod State
pub use State.*
use ngh.Base.{
  ℕ, Bool, true, false, not, ◌&&◌, ◌||◌, Option, none, some, List, [], ◌∷◌, ◌++◌, if◌then◌else◌,
}
use ngh.Base.Int.{ℤ, pos}
use ngh.Errors.{
  Error, Result, ok, err, NativeError, Status, done, failure, nghttp2_error, connection_state,
  stream_unavailable, null_session,
}
use ngh.Events.{new_connection_closed}
use ngh.Engine.{Engine}

module _ {S : Type 0} where
  -- `_discard_pending_state`
  unfoldable pub discard_pending_state : Connection S → Connection S
  discard_pending_state c = record c {
    bodies = [];
    queued_body_size = 0;
    current_headers = [];
    current_header_size = 0;
    data_payload = none;
    data_size = 0;
    responses = [];
    unconsumed = [];
    local_stream_errors = [];
    deferred_resets = [];
  }

  -- `_fail`
  unfoldable pub fail : Connection S → Connection S
  unfolding discard_pending_state
  fail c =
      record (discard_pending_state (record c {
        session = none;
        output = none;
        output_remaining = pos 0;
        callback_error = none;
      })) { failed = true; active = false; terminating = false; closing = false; closed = true }

  -- `_require_created`
  unfoldable pub require_created : Action S (Unit {0})
  require_created = do
    c ← get
    raise_if (not c.initialized) connection_state
    raise_if c.failed connection_state
    raise_if c.active connection_state

  -- `_require_drivable`
  unfoldable pub require_drivable : Action S (Unit {0})
  require_drivable = do
    c ← get
    raise_if c.failed connection_state
    raise_if (not c.active) connection_state

  -- `_require_active`
  unfoldable pub require_active : Action S (Unit {0})
  unfolding require_drivable
  require_active = do require_drivable; c ← get; raise_if c.terminating connection_state

module _ {S : Type 0} (g : Engine S) where
  -- `_require_stream`
  unfoldable pub require_stream : ℕ → Action S (Unit {0})
  require_stream stream_id = do
    closed ← reads (g.stream_local_close stream_id)
    elim closed [ none ↦ raise stream_unavailable | some _ ↦ pure tt ]

  -- `_raise_native_error`
  unfoldable pub raise_native_error {ℓ} : {A : Type ℓ} → NativeError → Action S A
  unfolding fail
  raise_native_error code c = (err (nghttp2_error code), if g.is_fatal code then fail c else c)

  -- `if result < 0: self._raise_native_error(result)`
  unfoldable pub check_result : Status → Action S ℕ
  unfolding raise_native_error
  check_result (done n) = pure n
  check_result (failure code) = raise_native_error code

  raise_callback_or : NativeError → Option Error → Action S ℕ
  unfolding raise_native_error fail
  raise_callback_or code none c = raise_native_error code c
  raise_callback_or code (some error) c = (err error, fail c)

  -- `_raise_callback_or_native`
  unfoldable pub raise_callback_or_native : Status → Action S ℕ
  unfolding raise_callback_or
  raise_callback_or_native (done n) c = pure n c
  raise_callback_or_native (failure code) c = raise_callback_or code c.callback_error c

  terminal_state : S → Connection S → Connection S
  unfolding discard_pending_state
  terminal_state s c =
      if not (g.want_read s) && not (g.want_write s)
      then record (discard_pending_state (record c { terminating = true })) {
        closed = true;
        events = c.events ++ new_connection_closed c.close_error_code c.close_debug_data ∷ [];
      }
      else c

  -- `_update_terminal_state`
  unfoldable pub update_terminal_state : Action S (Unit {0})
  unfolding terminal_state
  update_terminal_state c =
      if c.active && not c.closed
      then (with_session λ s d. (ok tt, terminal_state s d)) c
      else (ok tt, c)
