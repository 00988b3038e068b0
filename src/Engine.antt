-- ===== src/Engine.antt =====
-- The engine, libnghttp2, which is not part of the repository: the parameter of the model. A session
-- is a value of an abstract type, and a native function takes it to its next state. A function that
-- calls back returns a `Run`, a tree of callbacks, so that it ends after finitely many of them.
use ngh.Base.{ℕ, Bool, Option, List}
use ngh.Base.Int.{ℤ}
use ngh.Values.{Bytes}
use ngh.Errors.{Status, NativeError}
use ngh.Headers.{Header}
use ngh.Settings.{Entry}

-- A frame header: the stream, and the flags that the module tests.
pub record FrameHead : Type 0 where
  pub stream_id : ℕ
  pub end_stream : Bool
  pub ack : Bool

-- `frame.headers.cat`, which the module only compares with NGHTTP2_HCAT_REQUEST.
pub data Category : Type 0 where
  request_category other_category : Category

-- A frame by its type, with the payload that the module reads.
pub data Frame : Type 0 where
  headers_frame : FrameHead → Category → Frame
  push_promise_frame : FrameHead → ℕ → Frame
  data_frame : FrameHead → ℕ → Frame
  settings_frame : FrameHead → List Entry → Frame
  rst_stream_frame : FrameHead → ℕ → Frame
  ping_frame : FrameHead → Bytes → Frame
  window_update_frame : FrameHead → ℕ → Frame
  goaway_frame : FrameHead → ℕ → ℕ → Bytes → Frame
  altsvc_frame : FrameHead → Bytes → Bytes → Frame
  origin_frame : FrameHead → List Bytes → Frame
  priority_update_frame : FrameHead → ℕ → Bytes → Frame
  other_frame : FrameHead → Frame

-- The callbacks that `_configure_callbacks` registers, and the read callback of a body provider,
-- with the arguments that they read. A frame's type stands in `begin_frame` as the test for DATA.
pub data Callback : Type 0 where
  collect_output : Bytes → Callback
  send_body : FrameHead → ℕ → Bytes → ℕ → Callback
  data_frame_length : ℕ → ℕ → Callback
  read_body : ℕ → ℕ → Callback
  begin_frame : Bool → ℕ → ℕ → Callback
  begin_headers : Callback
  header : Bytes → Bytes → Bool → Callback
  invalid_header : Callback
  data_chunk : ℕ → Bytes → Callback
  frame_received : Frame → Callback
  stream_closed : ℕ → ℕ → Callback
  frame_not_sent : Frame → NativeError → Callback
  frame_sent : Frame → Callback
  random_bytes : ℕ → Callback

-- What a callback hands back: its return value, the flags NO_COPY, EOF and NO_END_STREAM of
-- `data_flags`, and the bytes that it wrote into the engine's buffer.
pub record Reply : Type 0 where
  pub status : Status
  pub no_copy : Bool
  pub eof : Bool
  pub no_end_stream : Bool
  pub buffer : Bytes

pub data Run (S : Type 0) : Type 0 where
  finished : Status → S → Run S
  calls : Callback → S → (Reply → S → Run S) → Run S

-- The options that `_apply_configuration` sets.
pub record Options : Type 0 where
  pub no_auto_window_update : Bool
  pub peer_max_concurrent_streams : ℕ
  pub max_reserved_remote_streams : ℕ
  pub max_send_header_block_length : ℕ
  pub max_deflate_dynamic_table_size : ℕ
  pub max_outbound_ack : ℕ
  pub max_settings : ℕ
  pub stream_reset_rate_limit : ℕ × ℕ
  pub max_continuations : ℕ
  pub glitch_rate_limit : ℕ × ℕ

-- The native functions, without their prefix, with the allocator and the system's randomness.
-- `none` for a local or remote close is the -1 of a stream that does not exist.
pub record Engine (S : Type 0) : Type 0 where
  pub allocates : ℕ → Bool
  pub urandom : ℕ → Option Bytes
  pub is_fatal : NativeError → Bool
  pub callbacks_new : Status
  pub option_new : Status
  pub client_new : Options → Status × S
  pub server_new : Options → Status × S
  pub pack_settings : ℕ → List Entry → Status × Bytes
  pub submit_settings : List Entry → S → Status × S
  pub upgrade : Bytes → Bool → S → Run S
  pub mem_recv : Bytes → S → Run S
  pub send : S → Run S
  pub check_request_allowed : S → Bool
  pub submit_request : List Header → Bool → S → Status × S
  pub submit_response : ℕ → List Header → Bool → S → Status × S
  pub submit_headers : ℕ → List Header → S → Status × S
  pub submit_trailer : ℕ → List Header → S → Status × S
  pub submit_push_promise : ℕ → List Header → S → Status × S
  pub resume_data : ℕ → S → Status × S
  pub stream_local_close : ℕ → S → Option Bool
  pub stream_remote_close : ℕ → S → Option Bool
  pub submit_rst_stream : ℕ → ℕ → S → Status × S
  pub submit_ping : Bytes → S → Status × S
  pub submit_goaway : ℕ → ℕ → Bytes → S → Status × S
  pub last_proc_stream_id : S → ℕ
  pub submit_shutdown_notice : S → Status × S
  pub terminate : ℕ → S → Status × S
  pub terminate_at : ℕ → ℕ → S → Status × S
  pub consume : ℕ → ℕ → S → Status × S
  pub consume_connection : ℕ → S → Status × S
  pub set_local_window_size : ℕ → ℕ → S → Status × S
  pub remote_settings : ℕ → S → ℕ
  pub local_settings : ℕ → S → ℕ
  pub submit_priority_update : ℕ → Bytes → S → Status × S
  pub change_priority : ℕ → ℕ → Bool → Bool → S → Status × S
  pub get_priority : ℕ → S → ℕ × Bool
  pub submit_altsvc : ℕ → Bytes → Bytes → S → Status × S
  pub submit_origin : List Bytes → S → Status × S
  pub want_read : S → Bool
  pub want_write : S → Bool
  pub next_stream_id : S → ℕ
  pub remote_window_size : S → ℤ
  pub stream_remote_window_size : ℕ → S → ℤ
  pub local_window_size : S → ℤ
  pub stream_local_window_size : ℕ → S → ℤ
