-- ===== src/Events.antt =====
-- The event classes of src/ngh2/events.pyx, by the fields that their constructors store.
use ngh.Base.{ℕ, Bool, Option, List, [], ◌∷◌}
use ngh.Base.Dict.{Dict, insert}
use ngh.Values.{Bytes}
use ngh.Errors.{Error}
use ngh.Enums.{Setting, ErrorCode, Coded, error_code, setting_key}
use ngh.Headers.{Header}
use ngh.Settings.{Entry}

pub data Event : Type 0 where
  request_received : ℕ → List Header → Bool → Event
  response_received : ℕ → List Header → Bool → Event
  informational_response_received : ℕ → List Header → Event
  trailers_received : ℕ → List Header → Event
  pushed_stream_received : ℕ → ℕ → List Header → Event
  data_received : ℕ → Bytes → Bool → Event
  stream_reset : ℕ → Coded ErrorCode → Event
  stream_closed : ℕ → Coded ErrorCode → Option Error → Event
  settings_received : List (Coded Setting × ℕ) → Event
  settings_acknowledged : Event
  ping_received : Bytes → Event
  ping_acknowledged : Bytes → Event
  window_updated : ℕ → ℕ → Event
  goaway_received : ℕ → Coded ErrorCode → Bytes → Event
  connection_closed : Coded ErrorCode → Bytes → Event
  alt_svc_received : ℕ → Bytes → Bytes → Event
  origin_received : List Bytes → Event
  priority_update_received : ℕ → Bytes → Event

-- The constructors that coerce a wire code.
unfoldable pub new_stream_reset : ℕ → ℕ → Event
unfolding error_code
new_stream_reset stream_id code = stream_reset stream_id (error_code code)

unfoldable pub new_stream_closed : ℕ → ℕ → Option Error → Event
unfolding error_code
new_stream_closed stream_id code local_error = stream_closed stream_id (error_code code) local_error

unfoldable pub new_goaway_received : ℕ → ℕ → Bytes → Event
unfolding error_code
new_goaway_received last code debug_data = goaway_received last (error_code code) debug_data

unfoldable pub new_connection_closed : ℕ → Bytes → Event
unfolding error_code
new_connection_closed code debug_data = connection_closed (error_code code) debug_data

known_keys : Dict ℕ → List (Coded Setting × ℕ)
unfolding setting_key
known_keys [] = []
known_keys ((key, value) ∷ settings) = (setting_key key, value) ∷ known_keys settings

-- `SettingsReceived.__init__`
unfoldable pub new_settings_received : Dict ℕ → Event
unfolding known_keys
new_settings_received settings = settings_received (known_keys settings)

-- The dict that `_settings_received` builds: a later entry of one identifier replaces an earlier one.
unfoldable pub settings_dict : Dict ℕ → List Entry → Dict ℕ
settings_dict d [] = d
settings_dict d ((key, value) ∷ entries) = settings_dict (insert key value d) entries
