-- ===== src/Connection/State.antt =====
-- The fields of a `Connection` and of a `_BodySource` (src/ngh2/_core.pyx), and the monad of the
-- methods: state and exceptions, with the session as a part of the state.
use ngh.Base.{ℕ, Bool, true, false, Option, none, some, List, []}
use ngh.Base.Int.{ℤ, pos}
use ngh.Base.Dict.{Dict}
use ngh.Values.{Bytes, Value}
use ngh.Errors.{Error, Result, ok, err, Status, null_session}
use ngh.Config.{Role, Configuration}
use ngh.Events.{Event}
use ngh.Headers.{Header}

-- `_BodySource`: a chunk that has been sent is `none`.
pub record BodySource : Type 0 where
  pub chunks : List (Option Bytes)
  pub head : ℕ
  pub offset : ℕ
  pub queued_size : ℕ
  pub ended : Bool
  pub deferred : Bool
  pub trailers : Option (List Value)

abbrev pub new_body : BodySource
new_body = record {
  chunks = [];
  head = 0;
  offset = 0;
  queued_size = 0;
  ended = false;
  deferred = false;
  trailers = none;
}

-- A field is the attribute without its underscore; `server` and `local_priority` shorten `_server`
-- and `_local_extensible_priority`. NULL is `none`. `output` is the whole block of the bytes object.
pub record Connection (S : Type 0) : Type 0 where
  pub role : Option Role
  pub config : Option Configuration
  pub is_server : Bool
  pub session : Option S
  pub output : Option Bytes
  pub output_size : ℕ
  pub output_remaining : ℤ
  pub callback_error : Option Error
  pub initialized : Bool
  pub active : Bool
  pub failed : Bool
  pub terminating : Bool
  pub closing : Bool
  pub closed : Bool
  pub close_error_code : ℕ
  pub close_debug_data : Bytes
  pub local_priority : Bool
  pub auto_window_update : Bool
  pub max_settings : ℕ
  pub max_inbound_header_list_size : ℕ
  pub max_inbound_header_count : ℕ
  pub events : List Event
  pub bodies : Dict BodySource
  pub queued_body_size : ℕ
  pub current_headers : List Header
  pub current_header_size : ℕ
  pub max_send_data_frame_size : ℕ
  pub data_payload : Option Bytes
  pub data_size : ℕ
  pub data_stream_id : ℕ
  pub responses : List ℕ
  pub unconsumed : Dict ℕ
  pub local_stream_errors : Dict Error
  pub deferred_resets : Dict ℕ

-- `__cinit__`; a field that it leaves out starts at zero.
abbrev pub created : (S : Type 0) → Connection S
created S = record {
  role = none;
  config = none;
  is_server = false;
  session = none;
  output = none;
  output_size = 0;
  output_remaining = pos 0;
  callback_error = none;
  initialized = false;
  active = false;
  failed = false;
  terminating = false;
  closing = false;
  closed = false;
  close_error_code = 0;
  close_debug_data = [];
  local_priority = false;
  auto_window_update = false;
  max_settings = 0;
  max_inbound_header_list_size = 0;
  max_inbound_header_count = 0;
  events = [];
  bodies = [];
  queued_body_size = 0;
  current_headers = [];
  current_header_size = 0;
  max_send_data_frame_size = 0;
  data_payload = none;
  data_size = 0;
  data_stream_id = 0;
  responses = [];
  unconsumed = [];
  local_stream_errors = [];
  deferred_resets = [];
}

abbrev pub Action {ℓ} : Type 0 → Type ℓ → Type ℓ
Action S A = Connection S → Result A × Connection S

module _ {S : Type 0} where
  abbrev pub pure {ℓ} : {A : Type ℓ} → A → Action S A
  pure a c = (ok a, c)

  abbrev pub raise {ℓ} : {A : Type ℓ} → Error → Action S A
  raise e c = (err e, c)

  abbrev pub get : Action S (Connection S)
  get c = (ok c, c)

  abbrev pub modify : (Connection S → Connection S) → Action S (Unit {0})
  modify f c = (ok tt, f c)

  abbrev pub raise_if : Bool → Error → Action S (Unit {0})
  raise_if true e c = (err e, c)
  raise_if false e c = (ok tt, c)

  abbrev pub lift {ℓ} : {A : Type ℓ} → Result A → Action S A
  lift r c = (r, c)

  infixl 5 ◌>>=◌ ◌>>◌
  abbrev pub ◌>>=◌ {ℓ κ} : {A : Type ℓ} {B : Type κ} → Action S A → (A → Action S B) → Action S B
  ◌>>=◌ m f c = let (r, d) = m c in elim r [ ok a ↦ f a d | err e ↦ (err e, d) ]

  abbrev pub ◌>>◌ {κ} : {B : Type κ} → Action S (Unit {0}) → Action S B → Action S B
  m >> k = m >>= λ _. k

  -- A native call through the session pointer.
  abbrev pub with_session {ℓ} : {A : Type ℓ} → (S → Action S A) → Action S A
  with_session f c = elim c.session [ none ↦ (err null_session, c) | some s ↦ f s c ]

  -- A native function that only reads the session.
  abbrev pub reads {ℓ} : {A : Type ℓ} → (S → A) → Action S A
  reads f = with_session λ s. pure (f s)

  -- A native function that returns a status and changes the session.
  abbrev pub native : (S → Status × S) → Action S Status
  native f =
      with_session λ s c. let (status, s') = f s in (ok status, record c { session = some s' })
