-- ===== src/Controls.antt =====
-- The remaining methods of `Connection`: settings, PING, GOAWAY, flow control, priorities and
-- advertisements, and its read-only properties (src/ngh2/_core.pyx).
pub mod Consumption
use ngh.Base.{
  ℕ, ◌&&◌, ◌||◌, Bool, true, false, not, Option, none, some, List, [], ◌∷◌, ltb, ◌-◌, ◌==◌,
  if◌then◌else◌,
}
use ngh.Base.Int.{ℤ}
use ngh.Base.Lists.{length}
use ngh.Base.Dict.{lookup, insert, erase, get_or}
use ngh.Values.{Value, Bytes, bytes, priority, none_value, iterate, truthy}
use ngh.Errors.{
  Result, ok, err, Status, type_error, value_error, memory_error, connection_state, or_raise,
}
use ngh.Integers.{stream_id, uint31, uint32, nonnegative_size}
use ngh.Enums.{Setting, setting_id, all_settings}
use ngh.Settings.{normalize_settings}
use ngh.Engine.{Engine}
use ngh.Connection.{
  Connection, Action, BodySource, pure, raise, raise_if, get, modify, lift, reads, native, ◌>>=◌,
  ◌>>◌, require_active, require_drivable, require_stream, check_result, discard_pending_state,
}
use ngh.Setup.{prepare_settings}

-- `PyBytes_Check`, with the bytes.
unfoldable pub bytes_argument : Value → Result Bytes
bytes_argument (bytes exact bs) = ok bs
bytes_argument _ = err type_error

-- `last_stream_id` may be left out.
last_id : Value → Result (Option ℕ)
unfolding uint31
last_id none_value = ok none
last_id v = elim (uint31 v) [ ok n ↦ ok (some n) | err e ↦ err e ]

-- Each origin is checked before any native call.
pub origin_list : List Value → Result (List Bytes)
unfolding bytes_argument
origin_list [] = ok []
origin_list (v ∷ vs) =
    let rest = origin_list vs in
    elim (bytes_argument v) [
      | err e ↦ err e
      | ok origin ↦ elim rest [ err e ↦ err e | ok origins ↦ ok (origin ∷ origins) ]
    ]

-- A `Priority`, by its fields.
priority_fields : Value → Result (Value × Value)
priority_fields (priority urgency incremental) = ok (urgency, incremental)
priority_fields _ = err type_error

module _ {S : Type 0} where
  server_only : Action S (Unit {0})
  server_only = do c ← get; raise_if (not c.is_server) connection_state

  client_only : Action S (Unit {0})
  client_only = do c ← get; raise_if c.is_server connection_state

  -- `queued_body_size`; `None` asks for the connection's total.
  unfoldable pub queued_body_size : Value → Action S ℕ
  unfolding stream_id
  queued_body_size none_value c = (ok c.queued_body_size, c)
  queued_body_size v c = elim (stream_id v) [
    | err e ↦ (err e, c)
    | ok stream ↦ (ok (elim (lookup stream c.bodies) [ none ↦ 0 | some b ↦ b.queued_size ]), c)
  ]

module _ {S : Type 0} (g : Engine S) where
  -- `result = …; if result < 0: self._raise_native_error(result)`
  submit : (S → Status × S) → Action S (Unit {0})
  unfolding check_result
  submit f = do status ← native f; result ← check_result g status; pure tt

  -- `update_settings`
  unfoldable pub update_settings : Value → Action S (Unit {0})
  unfolding normalize_settings require_active prepare_settings submit
  update_settings settings = do
    entries ← lift (normalize_settings settings)
    require_active
    prepared ← prepare_settings g entries
    submit (g.submit_settings prepared)

  -- `send_ping`
  unfoldable pub send_ping : Value → Action S (Unit {0})
  unfolding require_active bytes_argument submit
  send_ping opaque_data = do
    require_active
    payload ← lift (bytes_argument opaque_data)
    raise_if (not (length payload == 8)) value_error
    submit (g.submit_ping payload)

  last_or_processed : Option ℕ → Action S ℕ
  last_or_processed none = reads g.last_proc_stream_id
  last_or_processed (some last) = pure last

  -- `send_goaway`
  unfoldable pub send_goaway : Value → Value → Value → Action S (Unit {0})
  unfolding uint32 last_id bytes_argument require_active last_or_processed submit
  send_goaway error_code last_stream_id debug_data = do
    code ← lift (uint32 error_code)
    given ← lift (last_id last_stream_id)
    debug ← lift (bytes_argument debug_data)
    require_active
    last ← last_or_processed given
    submit (g.submit_goaway last code debug)

  -- `send_shutdown_notice`
  unfoldable pub send_shutdown_notice : Action S (Unit {0})
  unfolding require_active server_only submit
  send_shutdown_notice = do require_active; server_only; submit g.submit_shutdown_notice

  terminate : ℕ → Option ℕ → S → Status × S
  terminate code none = g.terminate code
  terminate code (some last) = g.terminate_at last code

  -- `terminate_connection`
  unfoldable pub terminate_connection : Value → Value → Action S (Unit {0})
  unfolding uint32 last_id require_active terminate submit discard_pending_state
  terminate_connection error_code last_stream_id = do
    code ← lift (uint32 error_code)
    given ← lift (last_id last_stream_id)
    require_active
    submit (terminate code given)
    modify (λ c. discard_pending_state (record c { terminating = true; closing = true }))

  -- What is left to consume on the stream.
  settle : ℕ → ℕ → Connection S → Connection S
  settle stream remaining c = record c {
    unconsumed =
        if remaining == 0 then erase stream c.unconsumed else insert stream remaining c.unconsumed;
  }

  consume : ℕ → ℕ → Action S (Unit {0})
  unfolding submit settle
  consume stream amount = do
    c ← get
    raise_if (ltb (get_or stream 0 c.unconsumed) amount) value_error
    submit (g.consume stream amount)
    modify (settle stream (get_or stream 0 c.unconsumed - amount))

  -- `consume_received_data`
  unfoldable pub consume_received_data : Value → Value → Action S (Unit {0})
  unfolding stream_id nonnegative_size require_active consume
  consume_received_data stream_value amount_value = do
    stream ← lift (stream_id stream_value)
    amount ← lift (nonnegative_size amount_value)
    require_active
    c ← get
    raise_if c.auto_window_update connection_state
    if amount == 0 then pure tt else consume stream amount

  -- The stream of a scope; zero is the connection.
  require_scope : ℕ → Action S (Unit {0})
  unfolding require_stream
  require_scope stream = if stream == 0 then pure tt else require_stream g stream

  unfoldable pub resize_window : ℕ → ℕ → Action S (Unit {0})
  unfolding require_active require_scope submit
  resize_window window stream = do
    require_active
    require_scope stream
    submit (g.set_local_window_size stream window)

  -- `set_local_window_size`
  unfoldable pub set_local_window_size : Value → Value → Action S (Unit {0})
  unfolding uint31 resize_window
  set_local_window_size window_value stream_value = do
    window ← lift (uint31 window_value)
    stream ← lift (uint31 stream_value)
    resize_window window stream

  submit_update : ℕ → Value → Action S Bool
  unfolding bytes_argument submit
  submit_update stream field_value = do
    field ← lift (bytes_argument field_value)
    submit (g.submit_priority_update stream field)
    pure true

  -- `send_priority_update`
  unfoldable pub send_priority_update : Value → Value → Action S Bool
  unfolding stream_id require_active client_only submit_update
  send_priority_update stream_value field_value = do
    stream ← lift (stream_id stream_value)
    require_active
    client_only
    enabled ← reads (g.remote_settings 9)
    if enabled == 0 then pure false else submit_update stream field_value

  change_priority : ℕ → ℕ → Bool → Bool → Action S Bool
  unfolding require_stream submit
  change_priority stream urgency incremental ignore = do
    require_stream g stream
    submit (g.change_priority stream urgency incremental ignore)
    pure true

  -- `set_stream_priority`
  unfoldable pub set_stream_priority : Value → Value → Bool → Action S Bool
  unfolding stream_id priority_fields uint32 truthy require_active server_only change_priority
  set_stream_priority stream_value priority_value ignore_client_signal = do
    stream ← lift (stream_id stream_value)
    fields ← lift (priority_fields priority_value)
    urgency ← lift (uint32 fields.0)
    require_active
    server_only
    c ← get
    if c.local_priority
        then change_priority stream urgency (truthy fields.1) ignore_client_signal
        else pure false

  read_priority : ℕ → Action S (Option (ℕ × Bool))
  unfolding require_stream
  read_priority stream = do
    require_stream g stream
    current ← reads (g.get_priority stream)
    pure (some current)

  -- `get_stream_priority`
  unfoldable pub get_stream_priority : Value → Action S (Option (ℕ × Bool))
  unfolding stream_id require_active server_only read_priority
  get_stream_priority stream_value = do
    stream ← lift (stream_id stream_value)
    require_active
    server_only
    c ← get
    if c.local_priority then read_priority stream else pure none

  -- `send_alt_svc`
  unfoldable pub send_alt_svc : Value → Value → Value → Action S (Unit {0})
  unfolding uint31 bytes_argument require_active server_only submit
  send_alt_svc field_value stream_value origin_value = do
    stream ← lift (uint31 stream_value)
    field ← lift (bytes_argument field_value)
    origin ← lift (bytes_argument origin_value)
    require_active
    server_only
    submit (g.submit_altsvc stream origin field)

  unfoldable pub submit_origins : List Bytes → Action S (Unit {0})
  unfolding require_active server_only submit
  submit_origins values = do
    require_active
    server_only
    raise_if (not (length values == 0) && not (g.allocates (length values))) memory_error
    submit (g.submit_origin values)

  -- `send_origins`
  unfoldable pub send_origins : Value → Action S (Unit {0})
  unfolding iterate origin_list submit_origins
  send_origins origins = do
    items ← lift (or_raise (iterate origins) type_error)
    values ← lift (origin_list items)
    submit_origins values

  -- `want_read`, `want_write`, `next_stream_id`
  unfoldable pub want_read : Action S Bool
  unfolding require_drivable
  want_read = do require_drivable; reads g.want_read

  unfoldable pub want_write : Action S Bool
  unfolding require_drivable
  want_write = do require_drivable; reads g.want_write

  unfoldable pub next_stream_id : Action S ℕ
  unfolding require_active
  next_stream_id = do require_active; reads g.next_stream_id

  -- `can_send_request`
  unfoldable pub can_send_request : Action S Bool
  unfolding require_drivable
  can_send_request = do
    require_drivable
    c ← get
    if c.terminating then pure false else reads g.check_request_allowed

  window_size : (S → ℤ) → (ℕ → S → ℤ) → ℕ → Action S ℤ
  unfolding require_stream
  window_size connection of_stream stream =
      if stream == 0
      then reads connection
      else (require_stream g stream >> reads (of_stream stream))

  -- `remote_window_size`, `local_window_size`
  unfoldable pub remote_window_size : Value → Action S ℤ
  unfolding uint31 require_active window_size
  remote_window_size stream_value = do
    stream ← lift (uint31 stream_value)
    require_active
    window_size g.remote_window_size g.stream_remote_window_size stream

  unfoldable pub local_window_size : Value → Action S ℤ
  unfolding uint31 require_active window_size
  local_window_size stream_value = do
    stream ← lift (uint31 stream_value)
    require_active
    window_size g.local_window_size g.stream_local_window_size stream

  -- `_settings_snapshot`
  snapshot : (ℕ → S → ℕ) → List Setting → S → List (Setting × ℕ)
  unfolding setting_id
  snapshot read [] s = []
  snapshot read (setting ∷ settings) s =
      (setting, read (setting_id setting) s) ∷ snapshot read settings s

  -- `local_settings`, `remote_settings`
  unfoldable pub local_settings : Action S (List (Setting × ℕ))
  unfolding require_active snapshot
  local_settings = do require_active; reads (snapshot g.local_settings all_settings)

  unfoldable pub remote_settings : Action S (List (Setting × ℕ))
  unfolding require_active snapshot
  remote_settings = do require_active; reads (snapshot g.remote_settings all_settings)
