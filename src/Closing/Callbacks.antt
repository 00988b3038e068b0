-- ===== src/Closing/Callbacks.antt =====
-- No callback publishes a ConnectionClosed event.
use ngh.Base.{
  ℕ, ◌≡◌, refl, ap, ◌∙◌, inl, inr, Bool, Bool-cases, Option-cases, some, List, [], ◌∷◌, ◌++◌, arith,
}
use ngh.Values.{Bytes}
use ngh.Errors.{NativeError}
use ngh.Events.{
  Event, new_stream_closed, new_stream_reset, new_goaway_received, new_settings_received,
}
use ngh.Engine.{Engine, Run, finished, calls, Callback, Reply, Frame, FrameHead}
use ngh.Connection.{Connection}
use ngh.Callbacks.{guarded}
use ngh.Output.{collect_output, send_body, read_body}
use ngh.Receive.{begin_headers, header, begin_frame, data_chunk, frame_received, invalid_header}
use ngh.Lifecycle.{
  stream_closed, frame_sent, frame_not_sent, unsent_stream, is_closing_code, fold_failure,
}
use ngh.Drive.{dispatch, drive, session_or, run}
use ngh.Closing.{closings, closings-append, closing_events, Silent}

abbrev Silently : {S : Type 0} → Connection S → Reply × Connection S → Type 0
Silently c (reply, d) = Silent c d

closings-publish :
    (events : List Event) (e : Event)
    → closing_events e ≡ 0
    → closings (events ++ e ∷ []) ≡ closings events
closings-publish events e h = omega (arith, h, closings-append events (e ∷ []))

module _ {S : Type 0} where
  begin_headers-Silent : (c : Connection S) → Silently c (begin_headers c)
  unfolding begin_headers
  begin_headers-Silent c = (refl, refl)

  header-Silent :
      (name value : Bytes) (no_index : Bool) (c : Connection S)
      → Silently c (header name value no_index c)
  unfolding header
  header-Silent name value no_index c = ground arith

  data_chunk-Silent :
      (stream_id : ℕ) (fragment : Bytes) (c : Connection S)
      → Silently c (data_chunk stream_id fragment c)
  unfolding data_chunk
  data_chunk-Silent stream_id fragment c = ground arith

  -- A handler publishes one event of another kind.
  publish-Silent :
      (e : Event) (c d : Connection S)
      → closing_events e ≡ 0
      → (d.events ≡ c.events ++ e ∷ []) × (d.closed ≡ c.closed)
      → Silent c d
  publish-Silent e c d h (p, k) = (ap closings p ∙ closings-publish c.events e h, k)

  frame_received-Silent : (frame : Frame) (c : Connection S) → Silently c (frame_received frame c)
  unfolding frame_received new_stream_reset new_goaway_received new_settings_received
  frame_received-Silent frame c = grind (arith, closings-append)

module _ {S : Type 0} (g : Engine S) where
  collect_output-Silent : (p : Bytes) (c : Connection S) → Silently c (collect_output g p c)
  unfolding collect_output
  collect_output-Silent p c = ground arith

  send_body-Silent :
      (hd : FrameHead) (padlen : ℕ) (head : Bytes) (size : ℕ) (c : Connection S)
      → Silently c (send_body g hd padlen head size c)
  unfolding send_body
  send_body-Silent hd padlen head size c = ground arith

  read_body-Silent :
      (stream_id size : ℕ) (c : Connection S) → Silently c (read_body g stream_id size c)
  unfolding read_body
  read_body-Silent stream_id size c = ground arith

  begin_frame-Silent :
      (is_data : Bool) (size stream_id : ℕ) (c : Connection S)
      → Silently c (begin_frame g is_data size stream_id c)
  unfolding begin_frame
  begin_frame-Silent is_data size stream_id c = ground arith

  stream_closed-Silent :
      (stream_id code : ℕ) (c : Connection S) → Silently c (stream_closed g stream_id code c)
  unfolding stream_closed new_stream_closed
  stream_closed-Silent stream_id code c = grind (arith, closings-append)

  frame_sent-Silent : (frame : Frame) (c : Connection S) → Silently c (frame_sent g frame c)
  unfolding frame_sent
  frame_sent-Silent frame c = ground arith

  fold_failure-Silent :
      (code : NativeError) (stream : ℕ × Bool) (c : Connection S)
      → Silently c (guarded (fold_failure g code stream) c)
  unfolding fold_failure guarded
  fold_failure-Silent code (stream_id, exists) c = ground arith

  frame_not_sent-Silent :
      (frame : Frame) (code : NativeError) (c : Connection S)
      → Silently c (frame_not_sent g frame code c)
  unfolding frame_not_sent
  frame_not_sent-Silent frame code c = elim (Option-cases (unsent_stream frame)) [
    | inl e ↦ rw (frame_not_sent, e) (refl, refl)
    | inr (stream, e) ↦
        rw (frame_not_sent, e)
          elim (Bool-cases (is_closing_code code)) [
            | inl k ↦ rw k (refl, refl)
            | inr k ↦ rw k (fold_failure-Silent code stream c)
          ]
  ]

  dispatch-Silent : (callback : Callback) (c : Connection S) → Silently c (dispatch g callback c)
  unfolding dispatch invalid_header
  dispatch-Silent (Callback.collect_output payload) c = collect_output-Silent payload c
  dispatch-Silent (Callback.send_body hd padlen head size) c =
      send_body-Silent hd padlen head size c
  dispatch-Silent (Callback.data_frame_length stream_id remote_max) c = (refl, refl)
  dispatch-Silent (Callback.read_body stream_id size) c = read_body-Silent stream_id size c
  dispatch-Silent (Callback.begin_frame is_data size stream_id) c =
      begin_frame-Silent is_data size stream_id c
  dispatch-Silent Callback.begin_headers c = begin_headers-Silent c
  dispatch-Silent (Callback.header name value no_index) c = header-Silent name value no_index c
  dispatch-Silent Callback.invalid_header c = (refl, refl)
  dispatch-Silent (Callback.data_chunk stream_id fragment) c =
      data_chunk-Silent stream_id fragment c
  dispatch-Silent (Callback.frame_received frame) c = frame_received-Silent frame c
  dispatch-Silent (Callback.stream_closed stream_id code) c = stream_closed-Silent stream_id code c
  dispatch-Silent (Callback.frame_not_sent frame code) c = frame_not_sent-Silent frame code c
  dispatch-Silent (Callback.frame_sent frame) c = frame_sent-Silent frame c
  dispatch-Silent (Callback.random_bytes size) c = (refl, refl)

  Silent-trans : (c d e : Connection S) → Silent c d → Silent d e → Silent c e
  Silent-trans c d e a b = (b.0 ∙ a.0, b.1 ∙ a.1)

  drive-Silent : (r : Run S) (c : Connection S) → Silent c (drive g r c).1
  unfolding drive
  drive-Silent (finished status s) c = (refl, refl)
  drive-Silent (calls callback s resume) c =
      let (reply, d) = dispatch g callback (record c { session = some s }) in
      Silent-trans c d (drive g (resume reply (session_or g s d)) d).1
        (dispatch-Silent callback (record c { session = some s }))
        (drive-Silent (resume reply (session_or g s d)) d)

  -- Whatever the engine calls back.
  pub run-Silent : (f : S → Run S) (c : Connection S) → Silent c (run g f c).1
  unfolding run
  run-Silent f c = elim (Option-cases c.session) [
    | inl e ↦ ground arith
    | inr (s, e) ↦ ground (arith, drive-Silent (f s) c)
  ]
