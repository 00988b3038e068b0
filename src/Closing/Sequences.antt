-- ===== src/Closing/Sequences.antt =====
-- The ConnectionClosed events of a whole sequence of calls.
use ngh.Base.{◌+◌, ◌≤◌, refl, true, List, [], ◌∷◌, ◌++◌, arith}
use ngh.Values.{bytes}
use ngh.Errors.{Result, ok, err}
use ngh.Events.{Event}
use ngh.Engine.{Engine}
use ngh.Connection.{Connection, created}
use ngh.Transport.{data_to_send, take_events}
use ngh.Streams.{send_request, end_stream}
use ngh.Controls.{queued_body_size}
use ngh.Calls.{Call, perform}
use ngh.Calls.Cases.{dropped, perform-Calm}
use ngh.Closing.{closings, closings-append, allowance, Once}
use ngh.Closing.Methods.{
  Calm-Once, initialize-Once, initiate_upgrade-Once, receive_data-Once, data_to_send-Once,
  send_request-Once, send_response-Once, send_trailers-Once, send_data-Once, queued_body_size-Once,
}

-- The events that a call hands out.
abbrev handed : {S : Type 0} → Call → Connection S → List Event
handed Call.events c = c.events
handed _ c = []

-- All that the application receives by `events` in a sequence of calls, and what is left to receive.
abbrev pub received : {S : Type 0} → Engine S → List Call → Connection S → List Event
received g [] c = c.events
received g (call ∷ rest) c = handed call c ++ received g rest (perform g call c).1

module _ {S : Type 0} (g : Engine S) where
  dropped-Once :
      {A : Type 0} (c : Connection S) (r : Result A × Connection S)
      → Once c r.1
      → Once c (dropped r).1
  dropped-Once c (ok a, d) h = h
  dropped-Once c (err e, d) h = h

  -- What a call hands out counts as well.
  abbrev Handed : Call → Connection S → Connection S → Type 0
  Handed call c d =
      closings (handed call c) + (closings d.events + allowance d.closed)
      ≤ closings c.events + allowance c.closed

  handed_none :
      (c d : Connection S)
      → Once c d
      → 0 + (closings d.events + allowance d.closed) ≤ closings c.events + allowance c.closed
  handed_none c d h = omega (arith, h)

  perform-Handed : (call : Call) (c : Connection S) → Handed call c (perform g call c).1
  unfolding perform take_events end_stream
  perform-Handed (Call.initialize role config) c =
      handed_none c (perform g (Call.initialize role config) c).1 (initialize-Once g role config c)
  perform-Handed (Call.initiate_upgrade payload settings head) c =
      handed_none c (perform g (Call.initiate_upgrade payload settings head) c).1
        (initiate_upgrade-Once g payload settings head c)
  perform-Handed (Call.receive_data value) c =
      handed_none c (perform g (Call.receive_data value) c).1 (receive_data-Once g value c)
  perform-Handed (Call.data_to_send amount) c =
      handed_none c (perform g (Call.data_to_send amount) c).1
        (dropped-Once c (data_to_send g amount c) (data_to_send-Once g amount c))
  perform-Handed (Call.send_request headers ends) c =
      handed_none c (perform g (Call.send_request headers ends) c).1
        (dropped-Once c (send_request g headers ends c) (send_request-Once g headers ends c))
  perform-Handed (Call.send_response stream headers ends) c =
      handed_none c (perform g (Call.send_response stream headers ends) c).1
        (send_response-Once g stream headers ends c)
  perform-Handed (Call.send_trailers stream headers) c =
      handed_none c (perform g (Call.send_trailers stream headers) c).1
        (send_trailers-Once g stream headers c)
  perform-Handed (Call.send_data stream body ends) c =
      handed_none c (perform g (Call.send_data stream body ends) c).1
        (send_data-Once g stream body ends c)
  perform-Handed (Call.end_stream stream) c =
      handed_none c (perform g (Call.end_stream stream) c).1
        (send_data-Once g stream (bytes true []) true c)
  perform-Handed Call.events c = omega arith
  perform-Handed (Call.queued_body_size stream) c =
      handed_none c (perform g (Call.queued_body_size stream) c).1
        (dropped-Once c (queued_body_size stream c) (queued_body_size-Once g stream c))
  perform-Handed call c =
      handed_none c (perform g call c).1
        (Calm-Once c (perform g call c).1 (perform-Calm g call refl c))

  received-closings :
      (sequence : List Call) (c : Connection S)
      → closings (received g sequence c) ≤ closings c.events + allowance c.closed
  received-closings [] c = omega arith
  received-closings (call ∷ rest) c = omega (
    arith,
    closings-append (handed call c) (received g rest (perform g call c).1),
    perform-Handed call c,
    received-closings rest (perform g call c).1,
  )

-- Over any sequence of calls on a new connection, failed calls included, with any arguments and any
-- engine, and whatever the engine calls back, the application receives at most one ConnectionClosed
-- event by `events`, those that are still to be received included.
pub connection_closed_once :
    {S : Type 0} (g : Engine S) (sequence : List Call)
    → closings (received g sequence (created S)) ≤ 1
connection_closed_once {S = S} g sequence = received-closings g sequence (created S)
