-- ===== src/Tests/Ends.antt =====
-- The ends of bodies, streams and connections.
use ngh.Setup.Limits.{frame_lengths_in_range}
use ngh.Base.{◌++◌, ℕ, ◌≤◌, ◌≡◌, ◌≢◌, ◌⊎◌, refl, inl, true, false, none, some, List, [], ◌∷◌, arith}
use ngh.Base.Lists.{length}
use ngh.Base.Dict.{lookup}
use ngh.Values.{none_value, bytes, bytearray, sequence, list_kind, nil}
use ngh.Config.{natural, client}
use ngh.Errors.{NativeError, ok, err, stream_state, done, failure}
use ngh.Integers.{stream_id, uint32}
use ngh.Engine.{FrameHead, Engine, Frame, data_frame, goaway_frame, Callback, calls, finished}
use ngh.Connection.{Connection, BodySource, created, new_body}
use ngh.Body.{Copy, copy_body, copy_loop}
use ngh.Body.Queue.{pending, BodyIsValid}
use ngh.Body.Slots.{IsCompact, copy_body-IsCompact}
use ngh.Body.Loop.Fuel.{copy_loop_terminates}
use ngh.Output.{data_frame_length, read_body}
use ngh.Output.Frames.{HasBody}
use ngh.Output.Ends.{read_body-eof}
use ngh.Lifecycle.{frame_sent}
use ngh.Lifecycle.Deferred.{Resets, deferred_reset_lem}
use ngh.Setup.{initialize, initiate_connection, given, missing}
use ngh.Transport.{receive_data, take_events}
use ngh.Receive.{frame_received}
use ngh.Events.{new_goaway_received, new_connection_closed}
use ngh.Streams.{
  send_data, send_trailers, end_stream, send_response, send_informational_response, reset_stream,
  chunk_of,
}
use ngh.Streams.Order.{IsActive}
use ngh.Streams.Final.{final_response_once}
use ngh.Streams.Resume.{deferred_body_resumes, deferred_trailers_resume}
use ngh.Streams.Ended.{Ending, finish_with, ended_body_stays}
use ngh.Headers.{normalize_headers}
use ngh.Calls.{Call, perform}
use ngh.Body.Fifo.{Use, append, copy, uses_of, body_refines_queue}
use ngh.Closing.Reason.{Closes, goaway-Closes}
use ngh.Closing.{closings}
use ngh.Closing.Sequences.{received, connection_closed_once}
use ngh.Tests.{counting_engine, two_chunks, sending}

two_chunks-Valid : BodyIsValid two_chunks
two_chunks-Valid = record {
  in_bounds = omega arith;
  in_order = (omega arith, (omega arith, refl));
  counted = refl;
}

copy_loop_terminates_example :
    let start : Copy = record { body = two_chunks; total = 2; copied = [] } in
    (s : Copy) × (copy_loop 2 1 start ≡ ok s)
    × ((length s.body.chunks ≤ s.body.head) ⊎ (1 ≤ length s.copied))
    × (copy_loop 5 1 start ≡ ok s)
copy_loop_terminates_example = copy_loop_terminates 3 0 1 2 two_chunks two_chunks-Valid refl

-- One byte of the body is left.
abbrev one_left : BodySource
one_left = record two_chunks {
  chunks = none ∷ some (3 ∷ []) ∷ [];
  head = 1;
  offset = 0;
  queued_size = 1;
}

copied_one : copy_body two_chunks 2 1 ≡ ok (record { body = one_left; total = 1; copied = 2 ∷ [] })
unfolding copy_body
copied_one = refl

copy_body-IsCompact_example : IsCompact one_left
copy_body-IsCompact_example =
    copy_body-IsCompact two_chunks 2 1 (record { body = one_left; total = 1; copied = 2 ∷ [] })
      copied_one

-- The body is ended.
abbrev ending : Connection ℕ
ending = record sending { bodies = (1, record two_chunks { ended = true }) ∷ [] }

ending-HasBody : HasBody 0 1 (record two_chunks { ended = true }) ending
ending-HasBody = record {
  found = refl;
  valid = record {
    in_bounds = omega arith;
    in_order = (omega arith, (omega arith, refl));
    counted = refl;
  };
  totalled = refl;
}

reads_to_the_end : (read_body counting_engine 1 5 ending).0.eof ≡ true
unfolding read_body
reads_to_the_end = refl

read_body-eof_example : (true ≡ true) × (2 ≤ 5)
read_body-eof_example =
    read_body-eof counting_engine 0 1 5 (record two_chunks { ended = true }) ending ending-HasBody
      (omega arith) reads_to_the_end

-- The body is empty.
abbrev waiting : Connection ℕ
waiting = record sending { bodies = (1, new_body) ∷ []; queued_body_size = 0 }

waiting-HasBody : HasBody 0 1 new_body waiting
waiting-HasBody = record {
  found = refl;
  valid = record { in_bounds = omega arith; in_order = refl; counted = refl };
  totalled = refl;
}

defers : (read_body counting_engine 1 5 waiting).0.status ≡ failure NativeError.deferred
unfolding read_body
defers = refl

read_body-IsActive : IsActive (read_body counting_engine 1 5 waiting).1
unfolding read_body
read_body-IsActive = record { usable = refl; initiated = refl; open_ended = refl }

keeps_session : (read_body counting_engine 1 5 waiting).1.session ≡ some 0
unfolding read_body
keeps_session = refl

stream_1 : stream_id (natural 1) ≡ ok 1
unfolding stream_id
stream_1 = refl

four : chunk_of (bytearray (4 ∷ [])) ≡ ok (4 ∷ [])
unfolding chunk_of
four = refl

deferred_body_resumes_example :
    let (r, d) =
      send_data counting_engine
        (natural 1)
        (bytearray (4 ∷ []))
        false
        (read_body counting_engine 1 5 waiting).1 in
    (r ≡ ok tt)
    × (d.session ≡ some 1)
    × (b : BodySource) × (lookup 1 d.bodies ≡ some b)
    × (b.deferred ≡ false)
    × (b.ended ≡ false)
deferred_body_resumes_example =
    deferred_body_resumes counting_engine 0 1 5 0 (natural 1) (bytearray (4 ∷ [])) false 0 (4 ∷ [])
      new_body waiting waiting-HasBody (omega arith) (omega arith) defers read_body-IsActive
      keeps_session stream_1 four (inl (omega arith)) refl

no_fields : normalize_headers true (sequence list_kind nil) ≡ ok []
unfolding normalize_headers
no_fields = refl

deferred_trailers_resume_example :
    let (r, d) =
      send_trailers counting_engine
        (natural 1)
        (sequence list_kind nil)
        (read_body counting_engine 1 5 waiting).1 in
    (r ≡ ok tt)
    × (d.session ≡ some 1)
    × (b : BodySource) × (lookup 1 d.bodies ≡ some b)
    × (b.deferred ≡ false)
    × (b.ended ≡ true)
    × (b.trailers ≡ some [])
deferred_trailers_resume_example =
    deferred_trailers_resume counting_engine 0 1 5 0 (natural 1) (sequence list_kind nil) 0 []
      new_body waiting waiting-HasBody (omega arith) (omega arith) defers read_body-IsActive
      keeps_session stream_1 no_fields refl

ends_with_trailers :
    (finish_with counting_engine
      (Ending.by_trailers (sequence list_kind nil))
      (natural 1)
      waiting).0
    ≡ ok tt
unfolding send_trailers
ends_with_trailers = refl

ended_body_stays_example :
    let d =
      (finish_with counting_engine
        (Ending.by_trailers (sequence list_kind nil))
        (natural 1)
        waiting).1 in
    (send_data counting_engine (natural 1) (bytearray (4 ∷ [])) false d ≡ (err stream_state, d))
    × (end_stream counting_engine (natural 1) d ≡ (err stream_state, d))
    × (send_trailers counting_engine (natural 1) (sequence list_kind nil) d ≡ (err stream_state, d))
ended_body_stays_example =
    ended_body_stays counting_engine (Ending.by_trailers (sequence list_kind nil)) (natural 1)
      (bytearray (4 ∷ [])) (sequence list_kind nil) false 1 (4 ∷ []) [] waiting stream_1 four
      no_fields ends_with_trailers

-- A server that has answered nothing yet.
abbrev serving : Connection ℕ
serving = record (created ℕ) {
  is_server = true;
  session = some 0;
  initialized = true;
  active = true;
}

answers :
    (send_response counting_engine (natural 1) (sequence list_kind nil) false serving).0 ≡ ok tt
unfolding send_response
answers = refl

final_response_once_example :
    let d = (send_response counting_engine (natural 1) (sequence list_kind nil) false serving).1 in
    ((send_response counting_engine (natural 1) none_value true d).0 ≢ ok tt)
    × ((send_response counting_engine (natural 1) none_value true d).1 ≡ d)
    × ((send_informational_response counting_engine (natural 1) none_value d).0 ≢ ok tt)
    × ((send_informational_response counting_engine (natural 1) none_value d).1 ≡ d)
final_response_once_example =
    final_response_once counting_engine (natural 1) (sequence list_kind nil) none_value false true 1
      serving stream_1 answers

code_8 : uint32 (natural 8) ≡ ok 8
unfolding uint32
code_8 = refl

resets : (reset_stream counting_engine (natural 1) (natural 8) true ending).0 ≡ ok tt
unfolding reset_stream
resets = refl

abbrev last_frame : Frame
last_frame = data_frame (record { stream_id = 1; end_stream = true; ack = false }) 0

deferred_reset_lem_example :
    let d = (reset_stream counting_engine (natural 1) (natural 8) true ending).1 in
    let e = (frame_sent counting_engine last_frame d).1 in
    (d.session ≡ some 0)
    × Resets counting_engine 1 8 0 e.session
    × ((frame_sent counting_engine last_frame e).1.session ≡ e.session)
deferred_reset_lem_example =
    deferred_reset_lem counting_engine (natural 1) (natural 8) 1 8 0 ending last_frame stream_1
      code_8 refl tt refl resets (refl, refl)

-- The peer says goodbye in whatever is received, and nothing is left to do.
abbrev closing_engine : Engine ℕ
closing_engine = record counting_engine {
  mem_recv = λ p s.
      calls
        (Callback.frame_received
          (goaway_frame (record { stream_id = 0; end_stream = false; ack = false }) 0 0 []))
        s λ r t. finished (done (length p)) t;
  want_read = λ s. false;
  want_write = λ s. false;
}

abbrev goodbyes : List Call
goodbyes =
    Call.initialize (given client) missing
    ∷ Call.initiate_connection none_value
    ∷ Call.receive_data (bytes true (0 ∷ []))
    ∷ Call.events
    ∷ Call.receive_data (bytes true (0 ∷ []))
    ∷ []

connection_closed_once_example : closings (received closing_engine goodbyes (created ℕ)) ≤ 1
connection_closed_once_example = connection_closed_once closing_engine goodbyes

closes : closings (received closing_engine goodbyes (created ℕ)) ≡ 1
unfolding perform initialize initiate_connection receive_data frame_received new_goaway_received
    new_connection_closed take_events
closes = refl

abbrev uses : List Use
uses = append (1 ∷ 2 ∷ []) ∷ copy 1 ∷ append [] ∷ append (3 ∷ []) ∷ copy 9 ∷ []

body_refines_queue_example :
    (b : BodySource) × (uses_of uses new_body ≡ ok (1 ∷ 2 ∷ 3 ∷ [], b))
    × (pending b ≡ [])
    × ((1 ∷ 2 ∷ 3 ∷ []) ++ pending b ≡ 1 ∷ 2 ∷ 3 ∷ [])
body_refines_queue_example = body_refines_queue uses

abbrev idle_engine : Engine ℕ
idle_engine = record counting_engine { want_read = λ s. false; want_write = λ s. false }

abbrev goaway_head : FrameHead
goaway_head = record { stream_id = 0; end_stream = false; ack = false }

goaway-Closes_example :
    Closes idle_engine 2 (7 ∷ []) (frame_received (goaway_frame goaway_head 1 2 (7 ∷ [])) sending).1
    × Closes idle_engine 2
        (7 ∷ [])
        (frame_sent idle_engine (goaway_frame goaway_head 1 2 (7 ∷ [])) sending).1
goaway-Closes_example =
    goaway-Closes idle_engine 0 goaway_head 1 2 (7 ∷ []) sending refl refl refl refl refl

accepted_by_init : (initialize counting_engine (given client) missing (created ℕ)).0 ≡ ok tt
unfolding initialize
accepted_by_init = refl

frame_lengths_in_range_example :
    (size : ℕ) × ((data_frame_length 1 16_384
        (initialize counting_engine (given client) missing (created ℕ)).1).status
      ≡ done size)
    × (1 ≤ size)
    × (size ≤ 16_384)
    × (size ≤ 0xFFFFFF)
frame_lengths_in_range_example =
    frame_lengths_in_range counting_engine (given client) missing (created ℕ)
      (initialize counting_engine (given client) missing (created ℕ)).1 1 16_384 accepted_by_init
      refl (omega arith)
