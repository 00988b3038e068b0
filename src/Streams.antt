-- ===== src/Streams.antt =====
-- The methods of `Connection` that send on a stream: requests, responses, bodies, trailers, pushes
-- and resets (src/ngh2/_core.pyx).
pub mod Order
pub mod Final
pub mod Resume
pub mod Ended
use ngh.Base.{
  ℕ, ◌&&◌, ◌||◌, Bool, true, false, not, Option, none, some, List, [], ◌∷◌, ◌==◌, if◌then◌else◌,
}
use ngh.Base.Lists.{length}
use ngh.Base.Dict.{lookup, insert, contains}
use ngh.Base.Word.{add_size}
use ngh.Values.{Value, Bytes, bytes, bytearray, memoryview}
use ngh.Errors.{
  Result, ok, err, Status, type_error, connection_state, connection_closing, stream_state,
}
use ngh.Integers.{stream_id, uint32}
use ngh.Headers.{Header, normalize_headers, make_headers}
use ngh.Engine.{Engine}
use ngh.Connection.{
  Connection, Action, BodySource, new_body, pure, raise, raise_if, get, modify, lift, reads, native,
  ◌>>=◌, ◌>>◌, require_active, require_stream, check_result,
}
use ngh.Body.{append_chunk}

-- `stream_id in self._responses`
unfoldable pub is_member : ℕ → List ℕ → Bool
is_member k [] = false
is_member k (x ∷ xs) = if x == k then true else is_member k xs

-- The body bytes of `send_data`, copied unless they are `bytes` already.
unfoldable pub chunk_of : Value → Result Bytes
chunk_of (bytes exact bs) = ok bs
chunk_of (bytearray bs) = ok bs
chunk_of (memoryview contiguous bs) = ok bs
chunk_of _ = err type_error

module _ {S : Type 0} where
  unfoldable pub open_body : ℕ → Connection S → Connection S
  open_body stream c = record c { bodies = insert stream new_body c.bodies }

  -- The open body of a stream, which was not ended yet.
  unfoldable pub unended_body : ℕ → Action S BodySource
  unended_body stream = do
    c ← get
    b ← elim (lookup stream c.bodies) [ none ↦ raise stream_state | some b ↦ pure b ]
    raise_if b.ended stream_state
    pure b

  unfoldable pub set_body : ℕ → BodySource → Connection S → Connection S
  set_body stream b c = record c { bodies = insert stream b c.bodies }

  -- The chunk is queued and counted, and the body ends with it or not.
  unfoldable pub queue_chunk : ℕ → BodySource → Bytes → Bool → Connection S → Connection S
  unfolding append_chunk add_size
  queue_chunk stream b chunk end_stream c = record c {
    bodies = insert stream (record (append_chunk b chunk) { ended = end_stream }) c.bodies;
    queued_body_size =
        if length chunk == 0
        then c.queued_body_size
        else add_size c.queued_body_size (length chunk);
  }

module _ {S : Type 0} (g : Engine S) where
  -- The fields of an immediate header block.
  unfoldable pub native_headers : Value → Result (List Header)
  unfolding normalize_headers make_headers
  native_headers headers = elim (normalize_headers false headers) [
    | ok fields ↦ make_headers g.allocates fields
    | err e ↦ err e
  ]

  -- `send_request`
  unfoldable pub send_request : Value → Bool → Action S ℕ
  unfolding native_headers require_active check_result open_body
  send_request headers end_stream = do
    fields ← lift (native_headers headers)
    require_active
    c ← get
    raise_if c.is_server connection_state
    allowed ← reads g.check_request_allowed
    raise_if (not allowed) connection_closing
    status ← native (g.submit_request fields (not end_stream))
    stream ← check_result g status
    modify (if end_stream then (λ d. d) else open_body stream)
    pure stream

  -- A server's stream on which no final response is pending.
  unanswered : ℕ → Action S (Unit {0})
  unfolding require_active require_stream is_member
  unanswered stream = do
    require_active
    c ← get
    raise_if (not c.is_server) connection_state
    require_stream g stream
    raise_if (is_member stream c.responses) stream_state

  -- `send_response`
  unfoldable pub send_response : Value → Value → Bool → Action S (Unit {0})
  unfolding stream_id native_headers unanswered check_result open_body
  send_response stream_value headers end_stream = do
    stream ← lift (stream_id stream_value)
    fields ← lift (native_headers headers)
    unanswered stream
    status ← native (g.submit_response stream fields (not end_stream))
    result ← check_result g status
    modify (λ c. record c { responses = stream ∷ c.responses })
    modify (if end_stream then (λ d. d) else open_body stream)

  -- `send_informational_response`
  unfoldable pub send_informational_response : Value → Value → Action S (Unit {0})
  unfolding stream_id native_headers unanswered check_result
  send_informational_response stream_value headers = do
    stream ← lift (stream_id stream_value)
    fields ← lift (native_headers headers)
    unanswered stream
    status ← native (g.submit_headers stream fields)
    result ← check_result g status
    pure tt

  -- `if body.deferred: … resume … body.deferred = False`
  unfoldable pub resume_if : Bool → ℕ → BodySource → Action S (Unit {0})
  unfolding check_result set_body
  resume_if false stream b = pure tt
  resume_if true stream b = do
    status ← native (g.resume_data stream)
    result ← check_result g status
    modify (set_body stream (record b { deferred = false }))

  -- `send_trailers`
  unfoldable pub send_trailers : Value → Value → Action S (Unit {0})
  unfolding stream_id normalize_headers require_active unended_body set_body resume_if
  send_trailers stream_value headers = do
    stream ← lift (stream_id stream_value)
    fields ← lift (normalize_headers true headers)
    require_active
    b ← unended_body stream
    let ended = record b { trailers = some fields; ended = true }
    modify (set_body stream ended)
    resume_if b.deferred stream ended

  -- `send_push_promise`
  unfoldable pub send_push_promise : Value → Value → Action S ℕ
  unfolding stream_id native_headers require_active require_stream check_result
  send_push_promise stream_value headers = do
    stream ← lift (stream_id stream_value)
    fields ← lift (native_headers headers)
    require_active
    c ← get
    raise_if (not c.is_server) connection_state
    require_stream g stream
    status ← native (g.submit_push_promise stream fields)
    check_result g status

  -- `send_data`
  unfoldable pub send_data : Value → Value → Bool → Action S (Unit {0})
  unfolding stream_id chunk_of require_active unended_body queue_chunk resume_if
  send_data stream_value value end_stream = do
    stream ← lift (stream_id stream_value)
    chunk ← lift (chunk_of value)
    require_active
    b ← unended_body stream
    modify (queue_chunk stream b chunk end_stream)
    resume_if (b.deferred && (not (length chunk == 0) || end_stream)) stream
        (record (append_chunk b chunk) { ended = end_stream })

  -- `end_stream`
  unfoldable pub end_stream : Value → Action S (Unit {0})
  unfolding send_data
  end_stream stream_value = send_data stream_value (bytes true []) true

  -- The local direction is ended, or will be by what is queued.
  is_ended : ℕ → Connection S → Bool
  unfolding is_member
  is_ended stream c = elim (lookup stream c.bodies) [
    | some b ↦ b.ended
    | none ↦ not c.is_server || is_member stream c.responses
  ]

  submit_reset : ℕ → ℕ → Action S (Unit {0})
  unfolding check_result
  submit_reset stream code = do
    status ← native (g.submit_rst_stream stream code)
    result ← check_result g status
    pure tt

  defer_reset : ℕ → ℕ → Action S (Unit {0})
  unfolding is_ended
  defer_reset stream code = do
    c ← get
    raise_if (not (is_ended stream c)) stream_state
    modify (λ d. record d { deferred_resets = insert stream code d.deferred_resets })

  -- The stream exists; its local direction is closed, or the reset waits for that.
  reset_after_end : ℕ → ℕ → Action S (Unit {0})
  unfolding require_stream submit_reset defer_reset
  reset_after_end stream code = do
    require_stream g stream
    local ← reads (g.stream_local_close stream)
    elim local [ some false ↦ defer_reset stream code | _ ↦ submit_reset stream code ]

  -- `reset_stream`
  unfoldable pub reset_stream : Value → Value → Bool → Action S (Unit {0})
  unfolding stream_id uint32 require_active reset_after_end submit_reset
  reset_stream stream_value code_value after_end_stream = do
    stream ← lift (stream_id stream_value)
    code ← lift (uint32 code_value)
    require_active
    if after_end_stream then reset_after_end stream code else submit_reset stream code
