-- ===== src/Drive/Limit.antt =====
-- How callbacks treat the output limit of `data_to_send`.
use ngh.Base.{
  ℕ, ◌+◌, ◌≤◌, ◌≡◌, ap, ap₂, min, ◌∙◌, ◌⊎◌, inl, inr, Bool-cases, Option-cases, true, false, not,
  ◌&&◌, ◌||◌, none, some, arith, ◌==◌,
}
use ngh.Base.Int.{is_neg, pos_part}
use ngh.Base.Lists.{length, length-take}
use ngh.Base.Word.{add_size}
use ngh.Base.Dict.{lookup}
use ngh.Values.{Bytes}
use ngh.Errors.{Status, done, failure, callback_failure}
use ngh.Engine.{Engine, Run, finished, calls, Callback, Reply, FrameHead}
use ngh.Connection.{Connection, BodySource}
use ngh.Callbacks.{guarded}
use ngh.Output.{
  collect_output, send_body, read_body, accepted, accept_output, reserve_output, grow_output,
  send_frame, no_room_for_frame,
}
use ngh.Receive.{begin_headers, header, begin_frame, data_chunk, frame_received, invalid_header}
use ngh.Lifecycle.{stream_closed, frame_sent, frame_not_sent}
use ngh.Drive.Quiet.{
  Quiet, begin_headers-Quiet, header-Quiet, data_chunk-Quiet, frame_received-Quiet,
  begin_frame-Quiet, frame_sent-Quiet, frame_not_sent-Quiet,
}
use ngh.Drive.{dispatch, drive, session_or}

-- What is written and what is left of the limit come to `limit`.
abbrev pub Counts : {S : Type 0} → ℕ → Connection S → Type 0
Counts limit c =
    (is_neg c.output_remaining ≡ false) × (c.output_size + pos_part c.output_remaining ≡ limit)

-- The output is as it was.
abbrev pub SameOutput : {S : Type 0} → Connection S → Reply × Connection S → Type 0
SameOutput c (reply, d) =
    (d.output_remaining ≡ c.output_remaining) × (d.output_size ≡ c.output_size)

module _ {S : Type 0} (g : Engine S) where
  stream_closed-SameOutput :
      (stream_id code : ℕ) (c : Connection S) → SameOutput c (stream_closed g stream_id code c)
  unfolding stream_closed
  stream_closed-SameOutput stream_id code c = ground arith

  read_body-SameOutput :
      (stream_id size : ℕ) (c : Connection S) → SameOutput c (read_body g stream_id size c)
  unfolding read_body
  read_body-SameOutput stream_id size c = ground arith

  -- An answer that is no failure keeps the count.
  abbrev pub Keeps : ℕ → Reply × Connection S → Type 0
  Keeps limit (reply, d) = (reply.status ≡ failure callback_failure) ⊎ Counts limit d

  SameOutput-Keeps :
      (limit : ℕ) (c : Connection S) (r : Reply × Connection S)
      → Counts limit c
      → SameOutput c r
      → Keeps limit r
  SameOutput-Keeps limit c (reply, d) (e, f) (p, q) =
      inr (ap is_neg p ∙ e, ap₂ (λ k m. k + pos_part m) q p ∙ f)

  Quiet-Keeps :
      (limit : ℕ) (c : Connection S) (r : Reply × Connection S)
      → Counts limit c
      → Quiet c r
      → Keeps limit r
  Quiet-Keeps limit c r h q = SameOutput-Keeps limit c r h (q.0, q.1)

  length-accepted :
      (c : Connection S) (p : Bytes)
      → is_neg c.output_remaining ≡ false
      → length (accepted g c.output_remaining p) ≤ pos_part c.output_remaining
  unfolding accepted
  length-accepted c p h =
      ground (arith, length-take (min (length p) (pos_part c.output_remaining)) p)

  accept_output-Keeps :
      (limit : ℕ) (p : Bytes) (c : Connection S)
      → Counts limit c
      → length p ≤ pos_part c.output_remaining
      → Keeps limit (guarded (accept_output g p) c)
  unfolding accept_output guarded reserve_output grow_output
  accept_output-Keeps limit p c h le = ground arith

  collect_output-Keeps :
      (limit : ℕ) (payload : Bytes) (c : Connection S)
      → Counts limit c
      → Keeps limit (collect_output g payload c)
  unfolding collect_output
  collect_output-Keeps limit payload c h =
      elim (Bool-cases (not (is_neg c.output_remaining) && pos_part c.output_remaining == 0)) [
        | inl k ↦ rw k (inr h)
        | inr k ↦ rw k (
            accept_output-Keeps limit (accepted g c.output_remaining payload) c h
              (length-accepted c payload h.0))
      ]

  send_frame-Keeps :
      (limit stream_id size : ℕ) (head : Bytes) (b : BodySource) (c : Connection S)
      → Counts limit c
      → add_size size 9 ≤ pos_part c.output_remaining
      → Keeps limit (guarded (send_frame g stream_id head size b) c)
  unfolding send_frame guarded reserve_output grow_output add_size
  send_frame-Keeps limit stream_id size head b c h le = ground arith

  room_for_frame :
      (padlen size : ℕ) (c : Connection S)
      → is_neg c.output_remaining ≡ false
      → not (padlen == 0) || no_room_for_frame g size c ≡ false
      → add_size size 9 ≤ pos_part c.output_remaining
  unfolding no_room_for_frame
  room_for_frame padlen size c h k = ground arith

  send_body-send_frame :
      (hd : FrameHead) (padlen : ℕ) (head : Bytes) (size : ℕ) (b : BodySource) (c : Connection S)
      → not (padlen == 0) || no_room_for_frame g size c ≡ false
      → lookup hd.stream_id c.bodies ≡ some b
      → send_body g hd padlen head size c ≡ guarded (send_frame g hd.stream_id head size b) c
  unfolding send_body
  send_body-send_frame hd padlen head size b c k e = ground arith

  send_body_fails :
      (hd : FrameHead) (padlen : ℕ) (head : Bytes) (size : ℕ) (c : Connection S)
      → (not (padlen == 0) || no_room_for_frame g size c ≡ true)
        ⊎ (lookup hd.stream_id c.bodies ≡ none)
      → (send_body g hd padlen head size c).0.status ≡ failure callback_failure
  unfolding send_body
  send_body_fails hd padlen head size c (inl k) = ground arith
  send_body_fails hd padlen head size c (inr e) = ground arith

  send_body-Keeps :
      (limit : ℕ) (hd : FrameHead) (padlen : ℕ) (head : Bytes) (size : ℕ) (c : Connection S)
      → Counts limit c
      → Keeps limit (send_body g hd padlen head size c)
  send_body-Keeps limit hd padlen head size c h =
      elim (Bool-cases (not (padlen == 0) || no_room_for_frame g size c)) [
        | inl k ↦ inl (send_body_fails hd padlen head size c (inl k))
        | inr k ↦ elim (Option-cases (lookup hd.stream_id c.bodies)) [
          | inl e ↦ inl (send_body_fails hd padlen head size c (inr e))
          | inr (b, e) ↦ rw (send_body-send_frame hd padlen head size b c k e) (
              send_frame-Keeps limit hd.stream_id size head b c h
                (room_for_frame padlen size c h.0 k))
        ]
      ]

  dispatch-Keeps :
      (limit : ℕ) (callback : Callback) (c : Connection S)
      → Counts limit c
      → Keeps limit (dispatch g callback c)
  unfolding dispatch invalid_header
  dispatch-Keeps limit (Callback.collect_output payload) c h =
      collect_output-Keeps limit payload c h
  dispatch-Keeps limit (Callback.send_body hd padlen head size) c h =
      send_body-Keeps limit hd padlen head size c h
  dispatch-Keeps limit (Callback.data_frame_length stream_id remote_max) c h = inr h
  dispatch-Keeps limit (Callback.read_body stream_id size) c h =
      SameOutput-Keeps limit c (read_body g stream_id size c) h
        (read_body-SameOutput stream_id size c)
  dispatch-Keeps limit (Callback.begin_frame is_data size stream_id) c h =
      Quiet-Keeps limit c (begin_frame g is_data size stream_id c) h
        (begin_frame-Quiet g is_data size stream_id c)
  dispatch-Keeps limit Callback.begin_headers c h =
      Quiet-Keeps limit c (begin_headers c) h (begin_headers-Quiet c)
  dispatch-Keeps limit (Callback.header name value no_index) c h =
      Quiet-Keeps limit c (header name value no_index c) h (header-Quiet name value no_index c)
  dispatch-Keeps limit Callback.invalid_header c h = inr h
  dispatch-Keeps limit (Callback.data_chunk stream_id fragment) c h =
      Quiet-Keeps limit c (data_chunk stream_id fragment c) h
        (data_chunk-Quiet stream_id fragment c)
  dispatch-Keeps limit (Callback.frame_received frame) c h =
      Quiet-Keeps limit c (frame_received frame c) h (frame_received-Quiet frame c)
  dispatch-Keeps limit (Callback.stream_closed stream_id code) c h =
      SameOutput-Keeps limit c (stream_closed g stream_id code c) h
        (stream_closed-SameOutput stream_id code c)
  dispatch-Keeps limit (Callback.frame_not_sent frame code) c h =
      Quiet-Keeps limit c (frame_not_sent g frame code c) h (frame_not_sent-Quiet g frame code c)
  dispatch-Keeps limit (Callback.frame_sent frame) c h =
      Quiet-Keeps limit c (frame_sent g frame c) h (frame_sent-Quiet g frame c)
  dispatch-Keeps limit (Callback.random_bytes size) c h = inr h

-- The call ends with an error, with no further callback.
abbrev pub Fails : {S : Type 0} → Run S → Type 0
Fails (finished (done n) s) = ⊥
Fails (finished (failure code) s) = Unit
Fails (calls callback s resume) = ⊥

-- The engine ends a call with an error as soon as a callback returns NGHTTP2_ERR_CALLBACK_FAILURE,
-- as it is documented to.
abbrev pub Heeds : {S : Type 0} → Run S → Type 0
Heeds (finished status s) = Unit
Heeds {S = S} (calls callback s resume) =
    (reply : Reply) (t : S)
    → (reply.status ≡ failure callback_failure → Fails (resume reply t)) × Heeds (resume reply t)

-- A call that succeeds keeps the count.
abbrev pub Completes : {S : Type 0} → ℕ → Status × Connection S → Type 0
Completes limit (done n, d) = Counts limit d
Completes limit (failure code, d) = Unit

module _ {S : Type 0} (g : Engine S) where
  Fails-Completes :
      (limit : ℕ) (r : Run S) (c : Connection S) → Fails r → Completes limit (drive g r c)
  unfolding drive
  Fails-Completes limit (finished (done n) s) c f = absurd f
  Fails-Completes limit (finished (failure code) s) c f = tt
  Fails-Completes limit (calls callback s resume) c f = absurd f

  drive_after :
      (limit : ℕ) (r : Run S) (reply : Reply) (d : Connection S)
      → Keeps g limit (reply, d)
      → (reply.status ≡ failure callback_failure → Fails r)
      → (Counts limit d → Completes limit (drive g r d))
      → Completes limit (drive g r d)
  drive_after limit r reply d (inl e) f k = Fails-Completes limit r d (f e)
  drive_after limit r reply d (inr h) f k = k h

  pub drive-Completes :
      (limit : ℕ) (r : Run S) (c : Connection S)
      → Heeds r
      → Counts limit c
      → Completes limit (drive g r c)
  unfolding drive
  drive-Completes limit (finished (done n) s) c h k = k
  drive-Completes limit (finished (failure code) s) c h k = tt
  drive-Completes limit (calls callback s resume) c h k =
      let (reply, d) = dispatch g callback (record c { session = some s }) in
      drive_after limit (resume reply (session_or g s d)) reply d
        (dispatch-Keeps g limit callback (record c { session = some s }) k)
        (h reply (session_or g s d)).0
        (drive-Completes limit (resume reply (session_or g s d)) d (h reply (session_or g s d)).1)
