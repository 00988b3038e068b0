-- ===== src/Transport.antt =====
-- The methods of `Connection` that move bytes: `receive_data`, `events` and `data_to_send` of
-- src/ngh2/_core.pyx.
pub mod Limit
pub mod Keeps
use ngh.Base.{ℕ, ◌||◌, Bool, true, false, not, none, some, List, [], ◌==◌, if◌then◌else◌}
use ngh.Base.Int.{ℤ, pos, negsuc}
use ngh.Base.Lists.{length}
use ngh.Values.{Value, Bytes, bytes, bytearray, memoryview, none_value}
use ngh.Errors.{Result, ok, err, internal, type_error, buffer_error, connection_state}
use ngh.Integers.{nonnegative_size}
use ngh.Events.{Event}
use ngh.Engine.{Engine}
use ngh.Connection.{
  Action, pure, raise_if, get, modify, lift, ◌>>=◌, ◌>>◌, fail, require_active,
  raise_callback_or_native, update_terminal_state,
}
use ngh.Output.{resize}
use ngh.Drive.{run}

-- `PyObject_GetBuffer(data, &view, PyBUF_CONTIG_RO)`
unfoldable pub buffer_of : Value → Result Bytes
buffer_of (bytes exact bs) = ok bs
buffer_of (bytearray bs) = ok bs
buffer_of (memoryview true bs) = ok bs
buffer_of (memoryview false bs) = err buffer_error
buffer_of _ = err type_error

-- `amount`, or no limit.
pub limit_of : Value → Result ℤ
unfolding nonnegative_size
limit_of none_value = ok (negsuc 0)
limit_of amount = elim (nonnegative_size amount) [ ok n ↦ ok (pos n) | err e ↦ err e ]

module _ {S : Type 0} where
  -- `events`
  unfoldable pub take_events : Action S (List Event)
  take_events c = (ok c.events, record c { events = [] })

  -- The trimmed output, and NULL in its place.
  unfoldable pub take_output : Action S Bytes
  take_output c = elim c.output [
    | none ↦ (ok [], c)
    | some block ↦ (ok (resize block c.output_size), record c { output = none })
  ]

  -- `except BaseException: self._fail(); raise`
  unfoldable pub or_fail {ℓ} : {A : Type ℓ} → Action S A → Action S A
  unfolding fail
  or_fail m c = let (r, d) = m c in elim r [ ok a ↦ (ok a, d) | err e ↦ (err e, fail d) ]

module _ {S : Type 0} (g : Engine S) where
  -- `if self._closing: self._update_terminal_state()`
  unfoldable pub update_if_closing : Action S (Unit {0})
  unfolding update_terminal_state
  update_if_closing c = if c.closing then update_terminal_state g c else (ok tt, c)

  -- The engine took `taken` bytes of the `size` that it was given.
  unfoldable pub check_consumed : ℕ → ℕ → Action S (Unit {0})
  unfolding fail
  check_consumed taken size c = if taken == size then (ok tt, c) else (err internal, fail c)

  -- `receive_data`
  unfoldable pub receive_data : Value → Action S (Unit {0})
  unfolding buffer_of require_active check_consumed run raise_callback_or_native update_if_closing
  receive_data value = do
    received ← lift (buffer_of value)
    require_active
    modify (λ c. record c { callback_error = none })
    status ← run g (g.mem_recv received)
    taken ← raise_callback_or_native g status
    check_consumed taken (length received)
    update_if_closing

  unfoldable pub send_output : Action S Bytes
  unfolding run raise_callback_or_native update_if_closing take_output
  send_output = do
    status ← run g g.send
    result ← raise_callback_or_native g status
    update_if_closing
    take_output

  unfoldable pub send_within : ℤ → Action S Bytes
  unfolding send_output or_fail
  send_within limit = do
    modify (λ c. record c { output_size = 0; output_remaining = limit; callback_error = none })
    output ← or_fail send_output
    modify (λ c. record c { output_remaining = pos 0 })
    pure output

  pub is_zero : ℤ → Bool
  is_zero (pos n) = n == 0
  is_zero (negsuc _) = false

  -- `data_to_send`
  unfoldable pub data_to_send : Value → Action S Bytes
  unfolding limit_of send_within is_zero
  data_to_send amount = do
    limit ← lift (limit_of amount)
    c ← get
    raise_if c.failed connection_state
    if is_zero limit || not c.active then pure [] else send_within limit
