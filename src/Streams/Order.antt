-- ===== src/Streams/Order.antt =====
-- The order of what is sent on a stream: queued bytes, the end of a body, the final response.
use ngh.Base.{
  ℕ, ◌+◌, ◌%◌, ◌≡◌, refl, ap, ◌∙◌, Bool, true, false, some, ◌++◌, arith, ◌==◌, if◌then◌else◌,
}
use ngh.Base.Lists.{length, length-append}
use ngh.Base.Dict.{lookup, lookup-insert}
use ngh.Base.Word.{size_mod, add_size}
use ngh.Values.{Value, Bytes}
use ngh.Errors.{ok}
use ngh.Integers.{stream_id}
use ngh.Engine.{Engine}
use ngh.Connection.{Connection, BodySource}
use ngh.Body.{append_chunk}
use ngh.Body.Queue.{pending, append_chunk_lem}
use ngh.Streams.{chunk_of, queue_chunk, send_data}
use ngh.Output.Frames.{HasBody}

-- The connection takes calls.
pub record IsActive {S : Type 0} (c : Connection S) : Type 0 where
  pub usable : c.failed ≡ false
  pub initiated : c.active ≡ true
  pub open_ended : c.terminating ≡ false

module _ {S : Type 0} (g : Engine S) where
  -- `send_data` past its guards, on a body that the engine does not wait for.
  send_data-queue_chunk :
      (n : ℕ) (stream_value value : Value) (chunk : Bytes) (ends : Bool) (b : BodySource)
      (c : Connection S)
      → IsActive c
      → stream_id stream_value ≡ ok n
      → chunk_of value ≡ ok chunk
      → lookup n c.bodies ≡ some b
      → b.ended ≡ false
      → b.deferred ≡ false
      → send_data g stream_value value ends c ≡ (ok tt, queue_chunk n b chunk ends c)
  unfolding send_data
  send_data-queue_chunk n stream_value value chunk ends b c a es ec e nend ndef = ground arith

count_chunk :
    (others p m k t : ℕ)
    → t ≡ (others + p) % size_mod
    → k ≡ p + m
    → (if m == 0 then t else add_size t m) ≡ (others + k) % size_mod
unfolding add_size
count_chunk others p m k t e f = ground arith

-- The queue after a chunk.
queue_chunk_lem :
    {S : Type 0} (others n : ℕ) (chunk : Bytes) (ends : Bool) (b : BodySource) (c : Connection S)
    → HasBody others n b c
    → (b' : BodySource) × HasBody others n b' (queue_chunk n b chunk ends c)
      × (pending b' ≡ pending b ++ chunk)
      × (b'.ended ≡ ends)
unfolding queue_chunk
queue_chunk_lem others n chunk ends b c h =
    let (v, e) = append_chunk_lem b chunk h.valid in
    (
      record (append_chunk b chunk) { ended = ends },
      record {
        found =
            ground
              (arith, lookup-insert n n (record (append_chunk b chunk) { ended = ends }) c.bodies);
        valid = record { in_bounds = v.in_bounds; in_order = v.in_order; counted = v.counted };
        totalled =
            count_chunk others (length (pending b)) (length chunk)
              (length (pending (append_chunk b chunk))) c.queued_body_size h.totalled
              (ap length e ∙ length-append (pending b) chunk);
      },
      e,
      refl,
    )

module _ {S : Type 0} (g : Engine S) where
  -- On an active connection, `send_data` on a body that is open and not deferred succeeds and puts
  -- the bytes, of whichever class, behind all that is queued on the stream; both counts follow, and
  -- the body is ended exactly if the caller says so.
  pub send_data_lem :
      (others n : ℕ) (stream_value value : Value) (chunk : Bytes) (ends : Bool) (b : BodySource)
      (c : Connection S)
      → IsActive c
      → stream_id stream_value ≡ ok n
      → chunk_of value ≡ ok chunk
      → HasBody others n b c
      → b.ended ≡ false
      → b.deferred ≡ false
      → let (r, d) = send_data g stream_value value ends c in
        (r ≡ ok tt)
        × (b' : BodySource) × HasBody others n b' d
        × (pending b' ≡ pending b ++ chunk)
        × (b'.ended ≡ ends)
  send_data_lem others n stream_value value chunk ends b c a es ec h nend ndef =
      let (b', hb, e, f) = queue_chunk_lem others n chunk ends b c h in
      rw (send_data-queue_chunk g n stream_value value chunk ends b c a es ec h.found nend ndef)
        (refl, b', hb, e, f)
