-- ===== src/Lifecycle.antt =====
-- The callbacks that follow a stream and a sent frame: `_stream_closed`, `_frame_sent` and
-- `_frame_not_sent` of src/ngh2/_core.pyx.
pub mod Deferred
use ngh.Base.{ℕ, Bool, true, false, ◌&&◌, Option, none, some, List, [], ◌∷◌, ◌==◌, if◌then◌else◌}
use ngh.Base.Dict.{lookup, insert, erase}
use ngh.Base.Word.{sub_size}
use ngh.Errors.{NativeError, done, failure, nghttp2_error, frame_not_sent_error}
use ngh.Enums.{code_value, internal_error}
use ngh.Events.{new_stream_closed}
use ngh.Engine.{
  Engine, Frame, FrameHead, request_category, other_category, Reply, headers_frame,
  push_promise_frame, data_frame, goaway_frame,
}
use ngh.Connection.{Connection, Action, pure, raise, get, modify, reads, native, ◌>>=◌, ◌>>◌}
use ngh.Callbacks.{replies, guarded}
use ngh.Receive.{publish, discard_data_payload, call_or_raise}

-- `set.discard`
unfoldable pub discard : ℕ → List ℕ → List ℕ
discard k [] = []
discard k (x ∷ xs) = if x == k then discard k xs else x ∷ discard k xs

-- The head of a frame that may end a stream: DATA or HEADERS.
stream_frame : Frame → Option FrameHead
stream_frame (headers_frame hd category) = some hd
stream_frame (data_frame hd padlen) = some hd
stream_frame _ = none

-- `ends_stream`, with the stream that ends.
ended_stream : Bool → Option FrameHead → Option ℕ
ended_stream resets (some hd) = if resets && hd.end_stream then some hd.stream_id else none
ended_stream resets none = none

-- The stream of a HEADERS or PUSH_PROMISE frame, and whether it exists already.
pub unsent_stream : Frame → Option (ℕ × Bool)
unsent_stream (headers_frame hd request_category) = some (hd.stream_id, false)
unsent_stream (headers_frame hd other_category) = some (hd.stream_id, true)
unsent_stream (push_promise_frame hd promised) = some (promised, false)
unsent_stream _ = none

-- The codes of a stream or session that is closing anyway.
pub is_closing_code : NativeError → Bool
is_closing_code NativeError.stream_closed = true
is_closing_code NativeError.stream_closing = true
is_closing_code NativeError.stream_shut_wr = true
is_closing_code NativeError.session_closing = true
is_closing_code _ = false

-- The failures of the reset that `_frame_not_sent` tolerates.
is_tolerated : NativeError → Bool
is_tolerated NativeError.stream_closed = true
is_tolerated NativeError.stream_closing = true
is_tolerated NativeError.session_closing = true
is_tolerated _ = false

module _ {S : Type 0} where
  -- `connection._bodies.pop(stream_id, None)`, and the bytes that leave the count with it.
  unfoldable pub drop_body : ℕ → Connection S → Connection S
  unfolding sub_size
  drop_body stream_id c = elim (lookup stream_id c.bodies) [
    | none ↦ c
    | some b ↦ record c {
      bodies = erase stream_id c.bodies;
      queued_body_size = sub_size c.queued_body_size b.queued_size;
    }
  ]

  -- The rest of the stream's state goes, and its end is published.
  forget_stream : ℕ → ℕ → Connection S → Connection S
  unfolding discard publish
  forget_stream stream_id code c =
      publish (new_stream_closed stream_id code (lookup stream_id c.local_stream_errors))
        (record c {
          responses = discard stream_id c.responses;
          deferred_resets = erase stream_id c.deferred_resets;
          local_stream_errors = erase stream_id c.local_stream_errors;
        })

  -- The reason of a GOAWAY that was sent.
  unfoldable pub remember_goaway : Frame → Connection S → Connection S
  remember_goaway (goaway_frame hd last code debug_data) c = record c {
    closing = true;
    close_error_code = code;
    close_debug_data = debug_data;
  }
  remember_goaway _ c = c

module _ {S : Type 0} (g : Engine S) where
  close_stream : ℕ → ℕ → Action S Reply
  unfolding drop_body forget_stream
  close_stream stream_id code = do
    modify (drop_body stream_id)
    c ← get
    if c.data_stream_id == stream_id then discard_data_payload g else pure tt
    modify (forget_stream stream_id code)
    pure (replies (done 0))

  -- `_stream_closed`
  unfoldable pub stream_closed : ℕ → ℕ → Connection S → Reply × Connection S
  unfolding close_stream guarded discard_data_payload
  stream_closed stream_id code = guarded (close_stream stream_id code)

  -- The reset that waited for the end of the stream, unless the peer has ended it too.
  reset_if_open : ℕ → Option ℕ → Action S (Unit {0})
  reset_if_open stream_id none = pure tt
  reset_if_open stream_id (some code) = do
    remote ← reads (g.stream_remote_close stream_id)
    elim remote [ some false ↦ call_or_raise g (g.submit_rst_stream stream_id code) | _ ↦ pure tt ]

  end_of_stream : ℕ → Action S Reply
  unfolding reset_if_open
  end_of_stream stream_id = do
    c ← get
    modify (λ d. record d { deferred_resets = erase stream_id d.deferred_resets })
    reset_if_open stream_id (lookup stream_id c.deferred_resets)
    pure (replies (done 0))

  has_resets : Connection S → Bool
  has_resets c = elim c.deferred_resets [ [] ↦ false | _ ∷ _ ↦ true ]

  -- `_frame_sent`
  unfoldable pub frame_sent : Frame → Connection S → Reply × Connection S
  unfolding end_of_stream has_resets stream_frame ended_stream remember_goaway guarded call_or_raise
  frame_sent frame c = elim (ended_stream (has_resets c) (stream_frame frame)) [
    | some stream_id ↦ guarded (end_of_stream stream_id) c
    | none ↦ (replies (done 0), remember_goaway frame c)
  ]

  -- An existing stream is reset with INTERNAL_ERROR.
  reset_existing : ℕ → Bool → Action S (Unit {0})
  unfolding code_value is_tolerated nghttp2_error
  reset_existing stream_id false = pure tt
  reset_existing stream_id true = do
    status ← native (g.submit_rst_stream stream_id (code_value internal_error))
    elim status [
      | done _ ↦ pure tt
      | failure code ↦ if is_tolerated code then pure tt else raise (nghttp2_error code)
    ]

  unfoldable pub fold_failure : NativeError → ℕ × Bool → Action S Reply
  unfolding reset_existing frame_not_sent_error
  fold_failure code (stream_id, exists) = do
    modify (λ c. record c {
      local_stream_errors = insert stream_id (frame_not_sent_error code) c.local_stream_errors;
    })
    reset_existing stream_id exists
    pure (replies (done 0))

  -- `_frame_not_sent`
  unfoldable pub frame_not_sent : Frame → NativeError → Connection S → Reply × Connection S
  unfolding fold_failure unsent_stream is_closing_code guarded
  frame_not_sent frame code c = elim (unsent_stream frame) [
    | none ↦ (replies (done 0), c)
    | some stream ↦
        if is_closing_code code then (replies (done 0), c) else guarded (fold_failure code stream) c
  ]
