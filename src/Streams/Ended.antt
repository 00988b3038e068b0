-- ===== src/Streams/Ended.antt =====
-- A body that the application ended: `send_data` with `end_stream=True`, `end_stream` and
-- `send_trailers` of src/ngh2/_core.pyx.
use ngh.Base.{
  Bool, true, false, Option, none, ℕ, List, [], some, ◌≡◌, refl, arith, inl, inr, Option-cases,
}
use ngh.Base.Dict.{lookup, insert, lookup-insert}
use ngh.Values.{Value, Bytes, bytes}
use ngh.Errors.{ok, err, stream_state}
use ngh.Integers.{stream_id}
use ngh.Headers.{normalize_headers}
use ngh.Engine.{Engine}
use ngh.Connection.{Connection, Action, BodySource}
use ngh.Body.{append_chunk}
use ngh.Errors.Results.{Result-cases}
use ngh.Streams.{chunk_of, send_data, end_stream, send_trailers}
use ngh.Streams.Order.{IsActive}

-- The calls that end a body.
pub data Ending : Type 0 where
  by_data by_trailers : Value → Ending
  by_end_stream : Ending

module _ {S : Type 0} (g : Engine S) where
  abbrev pub finish_with : Ending → Value → Action S (Unit {0})
  finish_with (by_data value) stream = send_data g stream value true
  finish_with (by_trailers headers) stream = send_trailers g stream headers
  finish_with by_end_stream stream = end_stream g stream

  abbrev ended_at : Option BodySource → Bool
  ended_at none = false
  ended_at (some b) = b.ended

  -- The connection takes calls and the body of the stream is ended.
  abbrev IsEnded : ℕ → Connection S → Type 0
  IsEnded n d = IsActive d × (ended_at (lookup n d.bodies) ≡ true)

  send_data-IsEnded_body :
      (stream value : Value) (n : ℕ) (chunk : Bytes) (b : BodySource) (c : Connection S)
      → stream_id stream ≡ ok n
      → chunk_of value ≡ ok chunk
      → lookup n c.bodies ≡ some b
      → (send_data g stream value true c).0 ≡ ok tt
      → IsEnded n (send_data g stream value true c).1
  unfolding send_data
  send_data-IsEnded_body stream value n chunk b c h k f e =
      let b' : BodySource = record (append_chunk b chunk) { ended = true } in
      ground (
        arith,
        lookup-insert n n b' c.bodies,
        lookup-insert n n (record b' { deferred = false }) (insert n b' c.bodies),
      )

  send_data-some :
      (stream value : Value) (n : ℕ) (c : Connection S)
      → stream_id stream ≡ ok n
      → (send_data g stream value true c).0 ≡ ok tt
      → (chunk : Bytes) × (b : BodySource) × (chunk_of value ≡ ok chunk)
        × (lookup n c.bodies ≡ some b)
  unfolding send_data
  send_data-some stream value n c h e = elim (Result-cases (chunk_of value)) [
    | inl (x, p) ↦ ground arith
    | inr (chunk, p) ↦ elim (Option-cases (lookup n c.bodies)) [
      | inl q ↦ ground arith
      | inr (b, q) ↦ (chunk, b, p, q)
    ]
  ]

  send_trailers-IsEnded_body :
      (stream headers : Value) (n : ℕ) (fields : List Value) (b : BodySource) (c : Connection S)
      → stream_id stream ≡ ok n
      → normalize_headers true headers ≡ ok fields
      → lookup n c.bodies ≡ some b
      → (send_trailers g stream headers c).0 ≡ ok tt
      → IsEnded n (send_trailers g stream headers c).1
  unfolding send_trailers
  send_trailers-IsEnded_body stream headers n fields b c h k f e =
      let b' : BodySource = record b { trailers = some fields; ended = true } in
      ground (
        arith,
        lookup-insert n n b' c.bodies,
        lookup-insert n n (record b' { deferred = false }) (insert n b' c.bodies),
      )

  send_trailers-some :
      (stream headers : Value) (n : ℕ) (c : Connection S)
      → stream_id stream ≡ ok n
      → (send_trailers g stream headers c).0 ≡ ok tt
      → (fields : List Value) × (b : BodySource) × (normalize_headers true headers ≡ ok fields)
        × (lookup n c.bodies ≡ some b)
  unfolding send_trailers
  send_trailers-some stream headers n c h e = elim (Result-cases (normalize_headers true headers)) [
    | inl (x, p) ↦ ground arith
    | inr (fields, p) ↦ elim (Option-cases (lookup n c.bodies)) [
      | inl q ↦ ground arith
      | inr (b, q) ↦ (fields, b, p, q)
    ]
  ]

  finish_with-IsEnded :
      (ending : Ending) (stream : Value) (n : ℕ) (c : Connection S)
      → stream_id stream ≡ ok n
      → (finish_with ending stream c).0 ≡ ok tt
      → IsEnded n (finish_with ending stream c).1
  unfolding end_stream
  finish_with-IsEnded (by_data value) stream n c h e =
      let (chunk, b, p, q) = send_data-some stream value n c h e in
      send_data-IsEnded_body stream value n chunk b c h p q e
  finish_with-IsEnded (by_trailers headers) stream n c h e =
      let (fields, b, p, q) = send_trailers-some stream headers n c h e in
      send_trailers-IsEnded_body stream headers n fields b c h p q e
  finish_with-IsEnded by_end_stream stream n c h e =
      let (chunk, b, p, q) = send_data-some stream (bytes true []) n c h e in
      send_data-IsEnded_body stream (bytes true []) n chunk b c h p q e

  data_refused :
      (stream value : Value) (bs : Bytes) (ends : Bool) (n : ℕ) (d : Connection S)
      → stream_id stream ≡ ok n
      → chunk_of value ≡ ok bs
      → IsEnded n d
      → send_data g stream value ends d ≡ (err stream_state, d)
  unfolding send_data
  data_refused stream value bs ends n d h k i = ground (arith, i.0, i.1)

  trailers_refused :
      (stream headers : Value) (fields : List Value) (n : ℕ) (d : Connection S)
      → stream_id stream ≡ ok n
      → normalize_headers true headers ≡ ok fields
      → IsEnded n d
      → send_trailers g stream headers d ≡ (err stream_state, d)
  unfolding send_trailers
  trailers_refused stream headers fields n d h k i = ground (arith, i.0, i.1)

  end_refused :
      (stream : Value) (n : ℕ) (d : Connection S)
      → stream_id stream ≡ ok n
      → IsEnded n d
      → end_stream g stream d ≡ (err stream_state, d)
  unfolding end_stream chunk_of
  end_refused stream n d h i = data_refused stream (bytes true []) [] true n d h refl i

  -- Once `send_data` with `end_stream`, `end_stream` or `send_trailers` has succeeded on a stream,
  -- nothing more is accepted for its body: `send_data` of any bytes, `end_stream` and
  -- `send_trailers` with any proper fields each raise a StreamStateError, and leave the connection,
  -- with all that is queued, as it was.
  pub ended_body_stays :
      (ending : Ending) (stream value headers : Value) (ends : Bool) (n : ℕ) (bs : Bytes)
      (fields : List Value) (c : Connection S)
      → stream_id stream ≡ ok n
      → chunk_of value ≡ ok bs
      → normalize_headers true headers ≡ ok fields
      → (finish_with ending stream c).0 ≡ ok tt
      → let d = (finish_with ending stream c).1 in
        (send_data g stream value ends d ≡ (err stream_state, d))
        × (end_stream g stream d ≡ (err stream_state, d))
        × (send_trailers g stream headers d ≡ (err stream_state, d))
  ended_body_stays ending stream value headers ends n bs fields c h k l e =
      let i = finish_with-IsEnded ending stream n c h e in
      let d = (finish_with ending stream c).1 in
      (
        data_refused stream value bs ends n d h k i,
        end_refused stream n d h i,
        trailers_refused stream headers fields n d h l i,
      )
