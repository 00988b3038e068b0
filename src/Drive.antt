-- ===== src/Drive.antt =====
-- A native call that calls back: the registration of `_configure_callbacks` (src/ngh2/_core.pyx) as
-- the dispatch from a callback to its function, and the run of the engine against the connection.
pub mod Limit
pub mod Quiet
use ngh.Base.{none, some}
use ngh.Errors.{Status, ok}
use ngh.Engine.{Engine, Run, finished, calls, Callback, Reply}
use ngh.Connection.{Connection, Action, with_session}
use ngh.Callbacks.{random_bytes}
use ngh.Output.{collect_output, send_body, data_frame_length, read_body}
use ngh.Receive.{begin_headers, header, invalid_header, begin_frame, data_chunk, frame_received}
use ngh.Lifecycle.{stream_closed, frame_sent, frame_not_sent}

module _ {S : Type 0} (g : Engine S) where
  -- `_configure_callbacks`
  unfoldable pub dispatch : Callback → Connection S → Reply × Connection S
  dispatch (Callback.collect_output payload) = collect_output g payload
  dispatch (Callback.send_body hd padlen frame_header size) =
      send_body g hd padlen frame_header size
  dispatch (Callback.data_frame_length stream_id remote_max) =
      λ c. (data_frame_length stream_id remote_max c, c)
  dispatch (Callback.read_body stream_id size) = read_body g stream_id size
  dispatch (Callback.begin_frame is_data size stream_id) = begin_frame g is_data size stream_id
  dispatch Callback.begin_headers = begin_headers
  dispatch (Callback.header name value no_index) = header name value no_index
  dispatch Callback.invalid_header = invalid_header
  dispatch (Callback.data_chunk stream_id fragment) = data_chunk stream_id fragment
  dispatch (Callback.frame_received frame) = frame_received frame
  dispatch (Callback.stream_closed stream_id code) = stream_closed g stream_id code
  dispatch (Callback.frame_not_sent frame code) = frame_not_sent g frame code
  dispatch (Callback.frame_sent frame) = frame_sent g frame
  dispatch (Callback.random_bytes size) = λ c. (random_bytes g size, c)

  -- The session as a callback left it; no callback releases it.
  pub session_or : S → Connection S → S
  session_or s c = elim c.session [ none ↦ s | some t ↦ t ]

  -- The engine's side of the call, one callback after another.
  unfoldable pub drive : Run S → Connection S → Status × Connection S
  unfolding dispatch session_or
  drive (finished status s) c = (status, record c { session = some s })
  drive (calls callback s resume) c =
      let (reply, d) = dispatch callback (record c { session = some s }) in
      drive (resume reply (session_or s d)) d

  -- A native function that calls back.
  unfoldable pub run : (S → Run S) → Action S Status
  unfolding drive
  run f = with_session λ s c. let (status, d) = drive (f s) c in (ok status, d)
