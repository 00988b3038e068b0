-- ===== src/Streams/Resume.antt =====
-- A body that `_read_body` deferred is resumed by what the application adds to it.
use ngh.Base.{ℕ, List, ◌<◌, Bool, true, false, some, ◌≡◌, ◌⊎◌, refl, ap, ◌∙◌, arith}
use ngh.Base.Lists.{length}
use ngh.Base.Dict.{lookup, insert, lookup-insert_same}
use ngh.Base.Word.{size_mod}
use ngh.Values.{Value, Bytes}
use ngh.Errors.{NativeError, ok, done, failure}
use ngh.Integers.{stream_id}
use ngh.Headers.{normalize_headers}
use ngh.Engine.{Engine}
use ngh.Connection.{Connection, BodySource}
use ngh.Body.{append_chunk}
use ngh.Body.Queue.{pending}
use ngh.Output.{read_body}
use ngh.Output.Frames.{HasBody}
use ngh.Output.Ends.{read_body-defers}
use ngh.Streams.{send_data, send_trailers, chunk_of}
use ngh.Streams.Order.{IsActive}

module _ {S : Type 0} (g : Engine S) where
  resumed_by :
      (stream value : Value) (ends : Bool) (n k : ℕ) (s : S) (chunk : Bytes) (b : BodySource)
      (c : Connection S)
      → IsActive c
      → stream_id stream ≡ ok n
      → chunk_of value ≡ ok chunk
      → (0 < length chunk) ⊎ (ends ≡ true)
      → lookup n c.bodies ≡ some b
      → b.ended ≡ false
      → b.deferred ≡ true
      → c.session ≡ some s
      → (g.resume_data n s).0 ≡ done k
      → let b' : BodySource = record (append_chunk b chunk) { ended = ends } in
        let (r, d) = send_data g stream value ends c in
        (r ≡ ok tt)
        × (d.session ≡ some (g.resume_data n s).1)
        × (d.bodies ≡ insert n (record b' { deferred = false }) (insert n b' c.bodies))
  unfolding send_data
  resumed_by stream value ends n k s chunk b c a hs hc some_ e open_ deferred h r = ground arith

  -- When `_read_body` defers a body, and the application then sends bytes on the stream or ends it,
  -- on an active connection, the engine is told to resume the stream and the body is no longer
  -- deferred.
  pub deferred_body_resumes :
      (others n size k : ℕ) (stream value : Value) (ends : Bool) (s : S) (chunk : Bytes)
      (b : BodySource) (c : Connection S)
      → HasBody others n b c
      → length (pending b) < size_mod
      → 0 < size
      → (read_body g n size c).0.status ≡ failure NativeError.deferred
      → IsActive (read_body g n size c).1
      → (read_body g n size c).1.session ≡ some s
      → stream_id stream ≡ ok n
      → chunk_of value ≡ ok chunk
      → (0 < length chunk) ⊎ (ends ≡ true)
      → (g.resume_data n s).0 ≡ done k
      → let (r, d) = send_data g stream value ends (read_body g n size c).1 in
        (r ≡ ok tt)
        × (d.session ≡ some (g.resume_data n s).1)
        × (b' : BodySource) × (lookup n d.bodies ≡ some b')
        × (b'.deferred ≡ false)
        × (b'.ended ≡ ends)
  deferred_body_resumes others n size k stream value ends s chunk b c hb small room e a h hs hc more
        r =
      let (empty, ended, b', found, deferred, open_) =
        read_body-defers g others n size b c hb small room e in
      let (done_, session, bodies) =
        resumed_by stream value ends n k s chunk b' (read_body g n size c).1 a hs hc more found
          open_ deferred h r in
      let now : BodySource = record (append_chunk b' chunk) { ended = ends } in
      (
        done_,
        session,
        record now { deferred = false },
        ap (lookup n) bodies
            ∙ lookup-insert_same n (record now { deferred = false })
                (insert n now (read_body g n size c).1.bodies),
        refl,
        refl,
      )

  trailers_resume :
      (stream headers : Value) (n k : ℕ) (s : S) (fields : List Value) (b : BodySource)
      (c : Connection S)
      → IsActive c
      → stream_id stream ≡ ok n
      → normalize_headers true headers ≡ ok fields
      → lookup n c.bodies ≡ some b
      → b.ended ≡ false
      → b.deferred ≡ true
      → c.session ≡ some s
      → (g.resume_data n s).0 ≡ done k
      → let b' : BodySource = record b { trailers = some fields; ended = true } in
        let (r, d) = send_trailers g stream headers c in
        (r ≡ ok tt)
        × (d.session ≡ some (g.resume_data n s).1)
        × (d.bodies ≡ insert n (record b' { deferred = false }) (insert n b' c.bodies))
  unfolding send_trailers
  trailers_resume stream headers n k s fields b c a hs hf e open_ deferred h r = ground arith

  -- When `_read_body` defers a body, and the application then sends trailers on the stream, on an
  -- active connection, the engine is told to resume the stream, and the body is no longer deferred,
  -- ended, and has the fields of the trailers.
  pub deferred_trailers_resume :
      (others n size k : ℕ) (stream headers : Value) (s : S) (fields : List Value) (b : BodySource)
      (c : Connection S)
      → HasBody others n b c
      → length (pending b) < size_mod
      → 0 < size
      → (read_body g n size c).0.status ≡ failure NativeError.deferred
      → IsActive (read_body g n size c).1
      → (read_body g n size c).1.session ≡ some s
      → stream_id stream ≡ ok n
      → normalize_headers true headers ≡ ok fields
      → (g.resume_data n s).0 ≡ done k
      → let (r, d) = send_trailers g stream headers (read_body g n size c).1 in
        (r ≡ ok tt)
        × (d.session ≡ some (g.resume_data n s).1)
        × (b' : BodySource) × (lookup n d.bodies ≡ some b')
        × (b'.deferred ≡ false)
        × (b'.ended ≡ true)
        × (b'.trailers ≡ some fields)
  deferred_trailers_resume others n size k stream headers s fields b c hb small room e a h hs hf r =
      let (empty, ended, b', found, deferred, open_) =
        read_body-defers g others n size b c hb small room e in
      let (done_, session, bodies) =
        trailers_resume stream headers n k s fields b' (read_body g n size c).1 a hs hf found open_
          deferred h r in
      let now : BodySource = record b' { trailers = some fields; ended = true } in
      (
        done_,
        session,
        record now { deferred = false },
        ap (lookup n) bodies
            ∙ lookup-insert_same n (record now { deferred = false })
                (insert n now (read_body g n size c).1.bodies),
        refl,
        refl,
        refl,
      )
