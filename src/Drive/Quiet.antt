-- ===== src/Drive/Quiet.antt =====
-- The callbacks that leave bodies and output alone.
use ngh.Base.{ℕ, refl, ◌≡◌, inl, inr, Bool, Bool-cases, Option-cases, arith}
use ngh.Values.{Bytes}
use ngh.Errors.{NativeError}
use ngh.Engine.{Engine, Reply, Frame}
use ngh.Connection.{Connection}
use ngh.Callbacks.{guarded}
use ngh.Receive.{begin_headers, header, begin_frame, data_chunk, frame_received}
use ngh.Lifecycle.{frame_sent, frame_not_sent, fold_failure, unsent_stream, is_closing_code}

-- What a callback on headers, frames or received data has no part in.
abbrev pub Same : {S : Type 0} → Connection S → Connection S → Type 0
Same c d =
    (d.output_remaining ≡ c.output_remaining)
    × (d.output_size ≡ c.output_size)
    × (d.bodies ≡ c.bodies)
    × (d.queued_body_size ≡ c.queued_body_size)
    × (d.responses ≡ c.responses)
    × (d.is_server ≡ c.is_server)
    × (d.initialized ≡ c.initialized)
    × (d.closed ≡ c.closed)

abbrev pub Quiet : {S : Type 0} → Connection S → Reply × Connection S → Type 0
Quiet c (reply, d) = Same c d

abbrev pub same : {S : Type 0} (c : Connection S) → Same c c
same c = (refl, refl, refl, refl, refl, refl, refl, refl)

module _ {S : Type 0} where
  pub begin_headers-Quiet : (c : Connection S) → Quiet c (begin_headers c)
  unfolding begin_headers
  begin_headers-Quiet c = (refl, refl, refl, refl, refl, refl, refl, refl)

  pub header-Quiet :
      (name value : Bytes) (no_index : Bool) (c : Connection S)
      → Quiet c (header name value no_index c)
  unfolding header
  header-Quiet name value no_index c = ground arith

  pub data_chunk-Quiet :
      (stream_id : ℕ) (fragment : Bytes) (c : Connection S)
      → Quiet c (data_chunk stream_id fragment c)
  unfolding data_chunk
  data_chunk-Quiet stream_id fragment c = ground arith

  pub frame_received-Quiet : (frame : Frame) (c : Connection S) → Quiet c (frame_received frame c)
  unfolding frame_received
  frame_received-Quiet frame c = ground arith

module _ {S : Type 0} (g : Engine S) where
  pub begin_frame-Quiet :
      (is_data : Bool) (size stream_id : ℕ) (c : Connection S)
      → Quiet c (begin_frame g is_data size stream_id c)
  unfolding begin_frame
  begin_frame-Quiet is_data size stream_id c = ground arith

  pub frame_sent-Quiet : (frame : Frame) (c : Connection S) → Quiet c (frame_sent g frame c)
  unfolding frame_sent
  frame_sent-Quiet frame c = ground arith

  fold_failure-Quiet :
      (code : NativeError) (stream : ℕ × Bool) (c : Connection S)
      → Quiet c (guarded (fold_failure g code stream) c)
  unfolding fold_failure guarded
  fold_failure-Quiet code (stream_id, exists) c = ground arith

  pub frame_not_sent-Quiet :
      (frame : Frame) (code : NativeError) (c : Connection S)
      → Quiet c (frame_not_sent g frame code c)
  unfolding frame_not_sent
  frame_not_sent-Quiet frame code c = elim (Option-cases (unsent_stream frame)) [
    | inl e ↦ rw (frame_not_sent, e) (same c)
    | inr (stream, e) ↦
        rw (frame_not_sent, e)
          elim (Bool-cases (is_closing_code code)) [
            | inl k ↦ rw k (same c)
            | inr k ↦ rw k (fold_failure-Quiet code stream c)
          ]
  ]
