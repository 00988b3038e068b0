-- ===== src/Output.antt =====
-- Outbound bytes: `_reserve_output`, `_collect_output`, `_send_body`, `_data_frame_length` and
-- `_read_body` of src/ngh2/_core.pyx.
pub mod Buffer
pub mod Collect
pub mod Frames
pub mod Ends
use ngh.Base.{
  ℕ, ◌+◌, ◌-◌, ◌*◌, ◌/◌, min, max, Bool, true, false, not, ◌&&◌, ◌||◌, Option, none, some, List, [],
  ◌∷◌, ◌++◌, ltb, leb, ◌==◌, if◌then◌else◌,
}
use ngh.Base.Int.{ℤ, pos, negsuc, pos_part, is_neg, sub_ℕ}
use ngh.Base.Lists.{length, take, replicate, write_at}
use ngh.Base.Dict.{lookup, insert}
use ngh.Base.Word.{size_mod, ssize_max, add_size}
use ngh.Values.{Bytes, Value}
use ngh.Errors.{
  Error, Result, ok, err, NativeError, Status, done, failure, nghttp2_error, memory_error, internal,
  key_error, wouldblock, pause, deferred,
}
use ngh.Headers.{make_headers}
use ngh.Engine.{Engine, FrameHead, Reply}
use ngh.Connection.{
  Connection, Action, BodySource, pure, raise, raise_if, get, modify, lift, native, ◌>>=◌, ◌>>◌,
}
use ngh.Body.{Copy, copy_body, copy_progress}
use ngh.Callbacks.{replies, guarded}

-- `_PyBytes_Resize`; memory that was never written reads as zeros.
abbrev pub resize : Bytes → ℕ → Bytes
resize block n = take n block ++ replicate (n - length block) 0

abbrev pub block_of : Option Bytes → Bytes
block_of none = []
block_of (some block) = block

-- With no buffer there is no room, so that nothing is written.
abbrev pub write_block : Option Bytes → ℕ → Bytes → Option Bytes
write_block none offset payload = none
write_block (some block) offset payload = some (write_at block offset payload)

-- The capacity to grow to: doubled, unless that could overflow.
unfoldable pub grown : ℕ → ℕ → ℕ
grown capacity target =
    if ltb capacity ((size_mod - 1) / 4) then max (max target (2 * capacity)) 4096 else target

module _ {S : Type 0} where
  -- `body` and the connection's count after `_copy_body`.
  pub store_copy : ℕ → Copy → Connection S → Connection S
  store_copy stream_id s c = record c {
    bodies = insert stream_id s.body c.bodies;
    queued_body_size = s.total;
  }

  pub store_body : ℕ → BodySource → Connection S → Connection S
  store_body stream_id b c = record c { bodies = insert stream_id b c.bodies }

  -- `memcpy(connection output + offset, data)`
  pub write_output : ℕ → Bytes → Connection S → Connection S
  write_output offset payload c = record c { output = write_block c.output offset payload }

  -- `if connection._output_remaining >= 0: connection._output_remaining -= amount`
  pub spend : ℕ → Connection S → Connection S
  spend amount c =
      if is_neg c.output_remaining
      then c
      else record c { output_remaining = sub_ℕ (pos_part c.output_remaining) amount }

  -- `connection._bodies[stream_id]`
  pub body_of : ℕ → Action S BodySource
  body_of stream_id c = elim (lookup stream_id c.bodies) [
    | none ↦ (err key_error, c)
    | some b ↦ (ok b, c)
  ]

  -- `_data_frame_length`; no lookup in a dict keyed by integers raises.
  unfoldable pub data_frame_length : ℕ → ℕ → Connection S → Reply
  data_frame_length stream_id remote_max_frame_size c =
      let size = min c.max_send_data_frame_size remote_max_frame_size in
      replies (
        done (elim (lookup stream_id c.bodies) [
          | none ↦ size
          | some b ↦ max 1 (min size b.queued_size)
        ]))

module _ {S : Type 0} (g : Engine S) where
  -- The buffer is replaced by one of the new capacity; a failed resize releases it.
  unfoldable pub grow_output : ℕ → ℕ → Action S (Unit {0})
  unfolding grown
  grow_output used target c =
      let capacity = length (block_of c.output) in
      if ltb capacity target
      then if g.allocates (grown capacity target)
        then (
          ok tt,
          record c { output = some (resize (block_of c.output) (grown capacity target)) },
        )
        else (err memory_error, record c { output = none })
      else (ok tt, c)

  -- `_reserve_output`; the pointer that it returns is the offset in the buffer.
  unfoldable pub reserve_output : ℕ → Action S ℕ
  reserve_output size = do
    c ← get
    raise_if (ltb (ssize_max - c.output_size) size) memory_error
    grow_output c.output_size (c.output_size + size)
    modify (λ d. record d { output_size = c.output_size + size })
    pure c.output_size

  unfoldable pub accept_output : Bytes → Action S Reply
  unfolding write_output spend
  accept_output payload = do
    offset ← reserve_output (length payload)
    modify (write_output offset payload)
    modify (spend (length payload))
    pure (replies (done (length payload)))

  -- The bytes of `data` that the limit lets in.
  unfoldable pub accepted : ℤ → Bytes → Bytes
  accepted (pos remaining) payload = take (min (length payload) remaining) payload
  accepted (negsuc _) payload = payload

  -- `_collect_output`
  unfoldable pub collect_output : Bytes → Connection S → Reply × Connection S
  unfolding accept_output accepted guarded reserve_output grow_output
  collect_output payload c =
      if not (is_neg c.output_remaining) && pos_part c.output_remaining == 0
      then (replies (failure wouldblock), c)
      else guarded (accept_output (accepted c.output_remaining payload)) c

  -- `0 <= connection._output_remaining < length + 9`
  unfoldable pub no_room_for_frame : ℕ → Connection S → Bool
  unfolding add_size
  no_room_for_frame size c =
      not (is_neg c.output_remaining) && ltb (pos_part c.output_remaining) (add_size size 9)

  -- `_copy_body` on the body of a stream, with what it writes; a raise keeps its progress.
  unfoldable pub copy_out :
      ℕ → ℕ → BodySource → (Bytes → Connection S → Connection S) → Action S Copy
  unfolding store_copy
  copy_out stream_id size b write c = elim (copy_body b c.queued_body_size size) [
    | ok s ↦ (ok s, write s.copied (store_copy stream_id s c))
    | err e ↦
        let s = copy_progress b c.queued_body_size size in
        (err e, write s.copied (store_copy stream_id s c))
  ]

  unfoldable pub send_frame : ℕ → Bytes → ℕ → BodySource → Action S Reply
  unfolding write_output spend copy_out
  send_frame stream_id frame_header size b = do
    raise_if (ltb (ssize_max - 9) size) memory_error
    offset ← reserve_output (size + 9)
    modify (write_output offset (take 9 frame_header))
    s ← copy_out stream_id size b (write_output (offset + 9))
    raise_if (not (length s.copied == size)) internal
    modify (spend (size + 9))
    pure (replies (done 0))

  -- `_send_body`
  unfoldable pub send_body : FrameHead → ℕ → Bytes → ℕ → Connection S → Reply × Connection S
  unfolding send_frame no_room_for_frame body_of guarded reserve_output grow_output copy_body
  send_body hd padlen frame_header size = guarded do
    c ← get
    raise_if (not (padlen == 0) || no_room_for_frame size c) internal
    b ← body_of hd.stream_id
    send_frame hd.stream_id frame_header size b

  -- What `_read_body` has prepared: the byte count, whether the body ends with it, and the flags.
  pub record Prepared : Type 0 where
    pub copied : ℕ
    pub complete : Bool
    pub no_copy : Bool
    pub buffer : Bytes

  -- The frame fits whole and is left to `_send_body`.
  whole_frame : ℕ → BodySource → Prepared
  whole_frame size b = record {
    copied = min size b.queued_size;
    complete = b.ended && min size b.queued_size == b.queued_size;
    no_copy = true;
    buffer = [];
  }

  -- The payload is copied into the engine's buffer.
  copied_frame : ℕ → ℕ → BodySource → Action S Prepared
  unfolding copy_out copy_body
  copied_frame stream_id size b = do
    s ← copy_out stream_id size b (λ payload c. c)
    pure (record {
      copied = length s.copied;
      complete = s.body.ended && s.body.head == length s.body.chunks;
      no_copy = false;
      buffer = s.copied;
    })

  -- No limit, or one with room for the frame.
  fits_whole : ℕ → BodySource → Connection S → Bool
  unfolding add_size
  fits_whole size b c =
      is_neg c.output_remaining
      || leb (add_size (min size b.queued_size) 9) (pos_part c.output_remaining)

  prepare : ℕ → ℕ → BodySource → Action S Prepared
  unfolding whole_frame copied_frame fits_whole
  prepare stream_id size b c =
      if fits_whole size b c then (ok (whole_frame size b), c) else copied_frame stream_id size b c

  -- The trailers are submitted, with the frame that ends the body.
  submit_trailers : ℕ → BodySource → List Value → Action S (Unit {0})
  unfolding make_headers store_body nghttp2_error
  submit_trailers stream_id b trailers = do
    fields ← lift (make_headers g.allocates trailers)
    status ← native (g.submit_trailer stream_id fields)
    elim status [ done _ ↦ pure tt | failure code ↦ raise (nghttp2_error code) ]
    modify (store_body stream_id (record b { trailers = none }))

  -- The body is complete: the frame ends the stream, or the trailers do.
  end_body : ℕ → Prepared → BodySource → Option (List Value) → Action S Reply
  end_body stream_id p b none = pure (record {
    status = done p.copied;
    no_copy = p.no_copy;
    eof = true;
    no_end_stream = false;
    buffer = p.buffer;
  })
  end_body stream_id p b (some trailers) = do
    submit_trailers stream_id b trailers
    pure (record {
      status = done p.copied;
      no_copy = p.no_copy;
      eof = true;
      no_end_stream = true;
      buffer = p.buffer;
    })

  finish_body : ℕ → Prepared → BodySource → Action S Reply
  unfolding end_body
  finish_body stream_id p b = end_body stream_id p b b.trailers

  -- An empty queue that may still grow is deferred.
  continue_body : ℕ → Prepared → BodySource → Action S Reply
  unfolding store_body
  continue_body stream_id p b = do
    modify (if p.copied == 0 then store_body stream_id (record b { deferred = true }) else λ c. c)
    pure (record {
      status = if p.copied == 0 then failure NativeError.deferred else done p.copied;
      no_copy = p.no_copy;
      eof = false;
      no_end_stream = false;
      buffer = p.buffer;
    })

  -- `_read_body`
  unfoldable pub read_body : ℕ → ℕ → Connection S → Reply × Connection S
  unfolding prepare finish_body submit_trailers continue_body body_of guarded
  read_body stream_id size c =
      if not (is_neg c.output_remaining) && pos_part c.output_remaining == 0
      then (replies (failure pause), c)
      else (guarded do
        b ← body_of stream_id
        p ← prepare stream_id size b
        now ← body_of stream_id
        if p.complete then finish_body stream_id p now else continue_body stream_id p now)
          c
