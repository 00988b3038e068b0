-- ===== src/Setup.antt =====
-- How a connection comes to be: `__init__`, `_apply_configuration`, `initiate_connection` and
-- `initiate_upgrade` of src/ngh2/_core.pyx.
pub mod Keeps
pub mod Limits
use ngh.Base.{
  ℕ, ◌&&◌, Bool, true, false, not, none, some, List, [], ◌∷◌, ltb, leb, ◌==◌, if◌then◌else◌,
}
use ngh.Base.Lists.{length}
use ngh.Values.{Value, Bytes, bytes, bool, none_value, unpack_pair}
use ngh.Errors.{
  Result, ok, err, Status, done, failure, nghttp2_error, value_error, type_error, connection_state,
  or_raise,
}
use ngh.Integers.{uint32, uint64, size, positive_size, nonnegative_size}
use ngh.Config.{Role, client, server, Configuration, default_configuration}
use ngh.Settings.{Entry, normalize_settings, make_settings}
use ngh.Engine.{Engine, Options}
use ngh.Connection.{
  Connection, Action, pure, raise, raise_if, get, modify, lift, native, ◌>>=◌, ◌>>◌, fail,
  require_created, raise_callback_or_native, check_result,
}
use ngh.Drive.{run}

-- `type(auto_window_update) is not bool`
pub strict_bool : Value → Result Bool
strict_bool (bool b) = ok b
strict_bool _ = err type_error

-- `(9, 1) in entries`
unfoldable pub enables_priority : List Entry → Bool
enables_priority [] = false
enables_priority ((key, value) ∷ entries) =
    if key == 9 && value == 1 then true else enables_priority entries

module _ {S : Type 0} where
  -- A token bucket `(burst, rate)`.
  unfoldable pub unpack_limit : Value → Action S (Value × Value)
  unfolding unpack_pair
  unpack_limit v = lift (or_raise (unpack_pair v) type_error)

  -- The validated values are kept, with the limits on inbound header blocks.
  unfoldable pub keep_limits : Bool → ℕ → ℕ → Configuration → Action S (Unit {0})
  unfolding nonnegative_size
  keep_limits auto_update frame_size settings config = do
    modify (λ c. record c {
      auto_window_update = auto_update;
      max_send_data_frame_size = frame_size;
      max_settings = settings;
    })
    list_size ← lift (nonnegative_size config.max_inbound_header_list_size)
    modify (λ c. record c { max_inbound_header_list_size = list_size })
    count ← lift (nonnegative_size config.max_inbound_header_count)
    modify (λ c. record c { max_inbound_header_count = count })

  -- `_apply_configuration`, up to the native setters, which cannot fail.
  unfoldable pub apply_configuration : Configuration → Action S Options
  unfolding unpack_limit keep_limits strict_bool uint32 uint64 size positive_size nonnegative_size
  apply_configuration config = do
    peer_max ← lift (uint32 config.initial_peer_max_concurrent_streams)
    reserved ← lift (uint32 config.max_reserved_remote_streams)
    block_length ← lift (size config.max_send_header_block_length)
    table_size ← lift (size config.max_deflate_dynamic_table_size)
    outbound_ack ← lift (size config.max_outbound_ack)
    settings ← lift (positive_size config.max_settings)
    continuations ← lift (size config.max_continuations)
    frame_size ← lift (uint32 config.max_send_data_frame_size)
    auto_update ← lift (strict_bool config.auto_window_update)
    reset ← unpack_limit config.stream_reset_rate_limit
    glitch ← unpack_limit config.glitch_rate_limit
    reset_burst ← lift (uint64 reset.0)
    reset_rate ← lift (uint64 reset.1)
    glitch_burst ← lift (uint64 glitch.0)
    glitch_rate ← lift (uint64 glitch.1)
    raise_if (not (leb 1 frame_size && leb frame_size 0xFFFFFF)) value_error
    keep_limits auto_update frame_size settings config
    pure (record {
      no_auto_window_update = not auto_update;
      peer_max_concurrent_streams = peer_max;
      max_reserved_remote_streams = reserved;
      max_send_header_block_length = block_length;
      max_deflate_dynamic_table_size = table_size;
      max_outbound_ack = outbound_ack;
      max_settings = settings;
      stream_reset_rate_limit = (reset_burst, reset_rate);
      max_continuations = continuations;
      glitch_rate_limit = (glitch_burst, glitch_rate);
    })

  -- A failure before the session exists: translated, with no connection to invalidate.
  unfoldable pub raise_status : Status → Action S (Unit {0})
  unfolding nghttp2_error
  raise_status (done n) = pure tt
  raise_status (failure code) = raise (nghttp2_error code)

-- The arguments of `__init__`: an object that is a role or a configuration, or is not.
pub data Argument (A : Type 0) : Type 0 where
  missing wrong_type : Argument A
  given : A → Argument A

pub configuration_of : Argument Configuration → Result Configuration
configuration_of missing = ok default_configuration
configuration_of wrong_type = err type_error
configuration_of (given config) = ok config

pub role_of : Argument Role → Result Role
role_of (given role) = ok role
role_of _ = err type_error

is_server_role : Role → Bool
is_server_role client = false
is_server_role server = true

module _ {S : Type 0} (g : Engine S) where
  pub new_session : Role → Options → Status × S
  new_session client options = g.client_new options
  new_session server options = g.server_new options

  -- The attributes that `__init__` assigns at its end.
  unfoldable pub installed : Role → Configuration → S → Connection S → Connection S
  unfolding is_server_role
  installed role config session c = record c {
    role = some role;
    is_server = is_server_role role;
    config = some config;
    session = some session;
    initialized = true;
  }

  -- `__init__`
  unfoldable pub initialize : Argument Role → Argument Configuration → Action S (Unit {0})
  unfolding configuration_of role_of raise_status apply_configuration new_session installed
  initialize role_argument config_argument = do
    c ← get
    raise_if c.initialized connection_state
    role ← lift (role_of role_argument)
    config ← lift (configuration_of config_argument)
    raise_status g.callbacks_new
    raise_status g.option_new
    options ← apply_configuration config
    raise_status (new_session role options).0
    modify (installed role config (new_session role options).1)

  -- The entries fit the limit, and an array for them is made.
  unfoldable pub prepare_settings : List Entry → Action S (List Entry)
  unfolding make_settings
  prepare_settings entries = do
    c ← get
    raise_if (ltb c.max_settings (length entries)) value_error
    lift (make_settings g.allocates entries)

  -- `initiate_connection`
  unfoldable pub initiate_connection : Value → Action S (Unit {0})
  unfolding normalize_settings prepare_settings require_created check_result enables_priority
  initiate_connection settings = do
    entries ← lift (normalize_settings settings)
    require_created
    prepared ← prepare_settings entries
    status ← native (g.submit_settings prepared)
    result ← check_result g status
    modify (λ c. record c { local_priority = enables_priority entries; active = true })

  -- `if result < 0: self._fail(); raise _nghttp2_error(result)`
  unfoldable pub fail_if : Status → Action S (Unit {0})
  unfolding nghttp2_error fail
  fail_if (done n) c = (ok tt, c)
  fail_if (failure code) c = (err (nghttp2_error code), fail c)

  -- The payload is `bytes`, of a subclass too.
  pub payload_of : Value → Result Bytes
  payload_of (bytes exact bs) = ok bs
  payload_of _ = err type_error

  pub is_none : Value → Bool
  is_none none_value = true
  is_none _ = false

  -- The settings that a server sends after the upgrade.
  unfoldable pub submit_upgrade_settings : List Entry → List Entry → Action S (Unit {0})
  unfolding fail_if enables_priority
  submit_upgrade_settings entries prepared = do
    status ← native (g.submit_settings prepared)
    fail_if status
    modify (λ c. record c { local_priority = enables_priority entries })

  -- The upgrade's status is checked, and the connection becomes active.
  unfoldable pub complete_upgrade : Bool → List Entry → List Entry → Status → Action S (Unit {0})
  unfolding raise_callback_or_native submit_upgrade_settings
  complete_upgrade is_server entries prepared status = do
    result ← raise_callback_or_native g status
    if is_server then submit_upgrade_settings entries prepared else pure tt
    modify (λ d. record d { active = true })

  -- `initiate_upgrade`
  unfoldable pub initiate_upgrade : Value → Value → Bool → Action S (Unit {0})
  unfolding is_none payload_of normalize_settings require_created prepare_settings run
      raise_callback_or_native submit_upgrade_settings
  initiate_upgrade settings_payload local_settings head_request = do
    c ← get
    raise_if (not c.is_server && not (is_none local_settings)) value_error
    payload ← lift (payload_of settings_payload)
    entries ← lift (if c.is_server then normalize_settings local_settings else ok [])
    require_created
    prepared ← (if c.is_server then prepare_settings entries else pure [])
    modify (λ d. record d { callback_error = none })
    status ← run g (g.upgrade payload head_request)
    complete_upgrade c.is_server entries prepared status
