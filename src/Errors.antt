-- ===== src/Errors.antt =====
-- The exception classes (src/ngh2/exceptions.py), the engine's error codes as far as
-- src/ngh2/_core.pyx names them, the translation of one into the other, and fallible results.
pub mod Translation
pub mod Results
use ngh.Base.{ℕ, zero, suc, Bool, true, false, Option, none, some, if◌then◌else◌}

-- The classes that the module raises or handles. `null_session` is no Python exception: it stands
-- for a call of the engine through a NULL session pointer, which is undefined behaviour.
pub data Error : Type 0 where
  ngh2_error connection_state connection_closing no_available_stream_id : Error
  stream_state stream_unavailable push_disabled : Error
  protocol connection_protocol stream_protocol denial_of_service internal : Error
  type_error value_error key_error index_error buffer_error memory_error : Error
  null_session : Error

-- The base class that exceptions.py declares; the builtins end the chain.
unfoldable pub base_class : Error → Option Error
base_class connection_state = some ngh2_error
base_class connection_closing = some connection_state
base_class no_available_stream_id = some connection_state
base_class stream_state = some ngh2_error
base_class stream_unavailable = some stream_state
base_class push_disabled = some stream_state
base_class protocol = some ngh2_error
base_class connection_protocol = some protocol
base_class stream_protocol = some protocol
base_class denial_of_service = some connection_protocol
base_class internal = some ngh2_error
base_class _ = none

pub is_ngh2_error : Error → Bool
is_ngh2_error ngh2_error = true
is_ngh2_error _ = false

-- `isinstance(error, NGH2Error)`: up the chain of base classes, which is at most three links long.
is_instance_fuel : ℕ → Error → Bool
unfolding base_class is_ngh2_error
is_instance_fuel zero e = is_ngh2_error e
is_instance_fuel (suc n) e =
    if is_ngh2_error e
    then true
    else elim (base_class e) [ none ↦ false | some b ↦ is_instance_fuel n b ]

unfoldable pub is_ngh2_instance : Error → Bool
unfolding is_instance_fuel
is_ngh2_instance e = is_instance_fuel 3 e

-- The private error codes of the engine that the module compares with; `other` is any further one.
pub data NativeError : Type 0 where
  wouldblock nomem callback_failure deferred pause temporal_callback_failure : NativeError
  invalid_argument proto stream_id_not_available stream_closed stream_closing : NativeError
  stream_shut_wr invalid_stream_id invalid_stream_state start_stream_not_allowed : NativeError
  push_disabled data_exist session_closing too_many_settings frame_size_error : NativeError
  bad_client_magic flooded too_many_continuations : NativeError
  other : ℕ → NativeError

-- What a native call returns: a number, or below zero an error code.
pub data Status : Type 0 where
  done : ℕ → Status
  failure : NativeError → Status

-- `_nghttp2_error`
unfoldable pub nghttp2_error : NativeError → Error
nghttp2_error nomem = memory_error
nghttp2_error stream_id_not_available = no_available_stream_id
nghttp2_error invalid_stream_id = stream_unavailable
nghttp2_error stream_closed = stream_unavailable
nghttp2_error stream_closing = stream_unavailable
nghttp2_error stream_shut_wr = stream_unavailable
nghttp2_error NativeError.push_disabled = Error.push_disabled
nghttp2_error start_stream_not_allowed = connection_closing
nghttp2_error session_closing = connection_closing
nghttp2_error data_exist = stream_state
nghttp2_error bad_client_magic = connection_protocol
nghttp2_error flooded = denial_of_service
nghttp2_error too_many_continuations = denial_of_service
nghttp2_error invalid_argument = value_error
nghttp2_error too_many_settings = value_error
nghttp2_error _ = internal

-- `_frame_not_sent_error`, past its two tests on the code.
ngh2_or_internal : Error → Error
unfolding is_ngh2_instance
ngh2_or_internal error = if is_ngh2_instance error then error else internal

-- `_frame_not_sent_error`
unfoldable pub frame_not_sent_error : NativeError → Error
unfolding ngh2_or_internal nghttp2_error
frame_not_sent_error frame_size_error = stream_protocol
frame_not_sent_error proto = stream_protocol
frame_not_sent_error invalid_stream_state = stream_protocol
frame_not_sent_error code = ngh2_or_internal (nghttp2_error code)

-- A call that returns or raises.
pub data Result {ℓ} (A : Type ℓ) : Type ℓ where
  ok : A → Result A
  err : Error → Result A

infixl 5 ◌>>=◌ ◌>>◌
abbrev pub ◌>>=◌ {ℓ κ} : {A : Type ℓ} {B : Type κ} → Result A → (A → Result B) → Result B
ok value >>= next = next value
err error >>= next = err error

abbrev pub ◌>>◌ {ℓ} : {B : Type ℓ} → Result (Unit {0}) → Result B → Result B
m >> k = m >>= λ _. k

abbrev pub raise_if : Bool → Error → Result (Unit {0})
raise_if true e = err e
raise_if false e = ok tt

abbrev pub or_raise {ℓ} : {A : Type ℓ} → Option A → Error → Result A
or_raise none e = err e
or_raise (some a) e = ok a
