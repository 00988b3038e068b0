-- ===== src/Receive.antt =====
-- Inbound callbacks of src/ngh2/_core.pyx: header blocks, DATA payloads, and the handlers that
-- `_frame_received` dispatches to.
pub mod Fields
pub mod Blocks
pub mod Settings
pub mod Payload
use ngh.Base.{
  ℕ, ◌+◌, ◌%◌, Bool, true, false, not, ◌&&◌, ◌||◌, Option, none, some, List, [], ◌∷◌, ◌++◌, ltb,
  leb, ◌==◌, if◌then◌else◌,
}
use ngh.Base.Lists.{length, take, replicate, write_at}
use ngh.Base.Dict.{lookup, insert, get_or}
use ngh.Base.Word.{size_mod, add_size}
use ngh.Values.{Bytes}
use ngh.Errors.{
  Error, Result, ok, err, Status, done, failure, nghttp2_error, memory_error, internal,
  denial_of_service, temporal_callback_failure,
}
use ngh.Events.{
  Event, request_received, response_received, informational_response_received, trailers_received,
  pushed_stream_received, data_received, settings_acknowledged, ping_received, ping_acknowledged,
  window_updated, alt_svc_received, origin_received, priority_update_received, new_stream_reset,
  new_goaway_received, new_settings_received, settings_dict,
}
use ngh.Headers.{Header}
use ngh.Settings.{Entry}
use ngh.Engine.{
  Engine, Frame, FrameHead, Category, request_category, other_category, Reply, headers_frame,
  push_promise_frame, data_frame, settings_frame, rst_stream_frame, ping_frame, window_update_frame,
  goaway_frame, altsvc_frame, origin_frame, priority_update_frame, other_frame,
}
use ngh.Connection.{Connection, Action, pure, raise, raise_if, get, modify, native, ◌>>=◌, ◌>>◌}
use ngh.Callbacks.{replies, guarded}

-- `bytes.__eq__`
unfoldable pub same_bytes : Bytes → Bytes → Bool
same_bytes [] [] = true
same_bytes [] (y ∷ ys) = false
same_bytes (x ∷ xs) [] = false
same_bytes (x ∷ xs) (y ∷ ys) = x == y && same_bytes xs ys

-- `b":status"`
abbrev pub status_name : Bytes
status_name = b':' ∷ b's' ∷ b't' ∷ b'a' ∷ b't' ∷ b'u' ∷ b's' ∷ []

-- The value of the first `:status` field, or `b""`.
unfoldable pub status_of : List Header → Bytes
unfolding same_bytes
status_of [] = []
status_of (header ∷ headers) =
    if same_bytes header.name status_name then header.value else status_of headers

-- The event of a header block that is no request, by its status.
response_event : FrameHead → List Header → Bytes → Event
response_event hd headers [] = trailers_received hd.stream_id headers
response_event hd headers (digit ∷ status) =
    if digit == b'1'
    then informational_response_received hd.stream_id headers
    else response_received hd.stream_id headers hd.end_stream

headers_event : FrameHead → Category → List Header → Event
unfolding response_event status_of
headers_event hd request_category headers = request_received hd.stream_id headers hd.end_stream
headers_event hd other_category headers = response_event hd headers (status_of headers)

module _ {S : Type 0} where
  -- `connection._events.append(event)`
  unfoldable pub publish : Event → Connection S → Connection S
  publish event c = record c { events = c.events ++ event ∷ [] }

  -- `_begin_headers`
  unfoldable pub begin_headers : Connection S → Reply × Connection S
  begin_headers c = (replies (done 0), record c { current_headers = []; current_header_size = 0 })

  header_body : Bytes → Bytes → Bool → Action S Reply
  header_body name value no_index = do
    modify (λ c. record c {
      current_header_size = (c.current_header_size + (length name + length value + 32)) % size_mod;
    })
    c ← get
    raise_if (ltb c.max_inbound_header_list_size c.current_header_size) denial_of_service
    raise_if (leb c.max_inbound_header_count (length c.current_headers)) denial_of_service
    modify (λ d. record d {
      current_headers =
          d.current_headers ++ record { name = name; value = value; no_index = no_index } ∷ [];
    })
    pure (replies (done 0))

  -- `_header`
  unfoldable pub header : Bytes → Bytes → Bool → Connection S → Reply × Connection S
  unfolding header_body guarded
  header name value no_index = guarded (header_body name value no_index)

  -- `_invalid_header`
  unfoldable pub invalid_header : Connection S → Reply × Connection S
  invalid_header c = (replies (failure temporal_callback_failure), c)

  -- `payload is None or …`: the fragment fits no open frame of its stream.
  misfit : ℕ → Bytes → Connection S → Bool
  unfolding add_size
  misfit stream_id fragment c = elim c.data_payload [
    | none ↦ true
    | some payload ↦
        not (stream_id == c.data_stream_id)
        || ltb (length payload) (add_size c.data_size (length fragment))
  ]

  write_payload : Bytes → Connection S → Connection S
  write_payload fragment c = elim c.data_payload [
    | none ↦ c
    | some payload ↦ record c {
      data_payload = some (write_at payload c.data_size fragment);
      data_size = c.data_size + length fragment;
    }
  ]

  data_chunk_body : ℕ → Bytes → Action S Reply
  unfolding misfit write_payload
  data_chunk_body stream_id fragment = do
    c ← get
    raise_if (misfit stream_id fragment c) internal
    modify (write_payload fragment)
    pure (replies (done 0))

  -- `_data_chunk`
  unfoldable pub data_chunk : ℕ → Bytes → Connection S → Reply × Connection S
  unfolding data_chunk_body guarded
  data_chunk stream_id fragment = guarded (data_chunk_body stream_id fragment)

  -- `_headers_received`
  unfoldable pub headers_received : FrameHead → Category → Connection S → Connection S
  unfolding headers_event publish
  headers_received hd category c =
      record (publish (headers_event hd category c.current_headers) c) { current_headers = [] }

  -- `_push_promise_received`
  unfoldable pub push_promise_received : FrameHead → ℕ → Connection S → Connection S
  unfolding publish
  push_promise_received hd promised c =
      record (publish (pushed_stream_received hd.stream_id promised c.current_headers) c) {
        current_headers = [];
      }

  -- The application data of the frame, without its padding.
  unfoldable pub frame_payload : Connection S → Bytes
  frame_payload c = elim c.data_payload [
    | none ↦ []
    | some payload ↦ if c.data_size == 0 then [] else take c.data_size payload
  ]

  -- `if payload and not connection._auto_window_update: …`
  charge : ℕ → Bytes → Connection S → Connection S
  charge stream_id payload c =
      if not (length payload == 0) && not c.auto_window_update
      then record c {
        unconsumed =
            insert stream_id (get_or stream_id 0 c.unconsumed + length payload) c.unconsumed;
      }
      else c

  -- `_data_frame_received`
  unfoldable pub data_frame_received : FrameHead → Connection S → Connection S
  unfolding frame_payload charge publish
  data_frame_received hd c =
      let payload = frame_payload c in
      publish (data_received hd.stream_id payload hd.end_stream)
        (charge hd.stream_id payload (record c { data_payload = none; data_size = 0 }))

  -- `_settings_received`
  unfoldable pub settings_received : FrameHead → List Entry → Connection S → Connection S
  unfolding publish
  settings_received hd entries =
      if hd.ack
      then publish settings_acknowledged
      else publish (new_settings_received (settings_dict [] entries))

  -- `_reset_received`, `_ping_received`, `_window_update_received`
  unfoldable pub reset_received : FrameHead → ℕ → Connection S → Connection S
  unfolding publish
  reset_received hd code = publish (new_stream_reset hd.stream_id code)

  unfoldable pub received_ping : FrameHead → Bytes → Connection S → Connection S
  unfolding publish
  received_ping hd opaque_data =
      publish (if hd.ack then ping_acknowledged opaque_data else ping_received opaque_data)

  unfoldable pub window_update_received : FrameHead → ℕ → Connection S → Connection S
  unfolding publish
  window_update_received hd increment = publish (window_updated hd.stream_id increment)

  -- `_goaway_received`
  unfoldable pub received_goaway : ℕ → ℕ → Bytes → Connection S → Connection S
  unfolding publish
  received_goaway last code debug_data c =
      publish (new_goaway_received last code debug_data)
        (record c { closing = true; close_error_code = code; close_debug_data = debug_data })

  -- `_altsvc_received`, `_origin_received`, `_priority_update_received`
  unfoldable pub altsvc_received : FrameHead → Bytes → Bytes → Connection S → Connection S
  unfolding publish
  altsvc_received hd origin field_value = publish (alt_svc_received hd.stream_id origin field_value)

  unfoldable pub received_origin : List Bytes → Connection S → Connection S
  unfolding publish
  received_origin origins = publish (origin_received origins)

  unfoldable pub received_priority_update : ℕ → Bytes → Connection S → Connection S
  unfolding publish
  received_priority_update stream_id field_value =
      publish (priority_update_received stream_id field_value)

  -- The dispatch of `_frame_received`.
  unfoldable pub handle_frame : Frame → Connection S → Connection S
  unfolding headers_received push_promise_received data_frame_received settings_received
      reset_received received_ping window_update_received received_goaway altsvc_received
      received_origin received_priority_update
  handle_frame (headers_frame hd category) = headers_received hd category
  handle_frame (push_promise_frame hd promised) = push_promise_received hd promised
  handle_frame (data_frame hd padlen) = data_frame_received hd
  handle_frame (settings_frame hd entries) = settings_received hd entries
  handle_frame (rst_stream_frame hd code) = reset_received hd code
  handle_frame (ping_frame hd opaque_data) = received_ping hd opaque_data
  handle_frame (window_update_frame hd increment) = window_update_received hd increment
  handle_frame (goaway_frame hd last code debug_data) = received_goaway last code debug_data
  handle_frame (altsvc_frame hd origin field_value) = altsvc_received hd origin field_value
  handle_frame (origin_frame hd origins) = received_origin origins
  handle_frame (priority_update_frame hd stream_id field_value) =
      received_priority_update stream_id field_value
  handle_frame (other_frame hd) = λ c. c

  -- `_frame_received`; a handler raises only where Python has no memory for the objects it makes.
  unfoldable pub frame_received : Frame → Connection S → Reply × Connection S
  unfolding handle_frame
  frame_received frame c = (replies (done 0), handle_frame frame c)

module _ {S : Type 0} (g : Engine S) where
  -- A native call of a callback, whose failure is raised as a public exception.
  unfoldable pub call_or_raise : (S → Status × S) → Action S (Unit {0})
  unfolding nghttp2_error
  call_or_raise f = do
    status ← native f
    elim status [ done _ ↦ pure tt | failure code ↦ raise (nghttp2_error code) ]

  -- `_discard_data_payload`
  unfoldable pub discard_data_payload : Action S (Unit {0})
  unfolding call_or_raise
  discard_data_payload = do
    c ← get
    modify (λ d. record d { data_payload = none; data_size = 0 })
    if not (c.data_size == 0) && not c.auto_window_update
        then call_or_raise (g.consume_connection c.data_size)
        else pure tt

  begin_frame_body : ℕ → ℕ → Action S Reply
  unfolding discard_data_payload
  begin_frame_body size stream_id = do
    discard_data_payload
    raise_if (not (g.allocates size)) memory_error
    modify (λ c. record c { data_payload = some (replicate size 0); data_stream_id = stream_id })
    pure (replies (done 0))

  -- `_begin_frame`; memory that was not written yet reads as zeros.
  unfoldable pub begin_frame : Bool → ℕ → ℕ → Connection S → Reply × Connection S
  unfolding begin_frame_body guarded
  begin_frame is_data size stream_id c =
      if not is_data then (replies (done 0), c) else guarded (begin_frame_body size stream_id) c
