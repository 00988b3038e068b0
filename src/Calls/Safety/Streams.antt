-- ===== src/Calls/Safety/Streams.antt =====
-- No method that opens a connection or sends on a stream lets the session pointer get lost.
use ngh.Base.{Bool, arith}
use ngh.Values.{Value}
use ngh.Engine.{Engine}
use ngh.Connection.{Connection}
use ngh.Calls.Safety.{IsSafe}
use ngh.Setup.{initiate_connection}
use ngh.Streams.{
  send_request, send_response, send_informational_response, send_trailers, send_push_promise,
  send_data, end_stream, reset_stream,
}

module _ {S : Type 0} (g : Engine S) where
  pub initiate_connection-IsSafe :
      (settings : Value) (c : Connection S) → IsSafe c → IsSafe (initiate_connection g settings c).1
  unfolding initiate_connection
  initiate_connection-IsSafe settings c h = ground arith

  pub send_request-IsSafe :
      (headers : Value) (ends : Bool) (c : Connection S)
      → IsSafe c
      → IsSafe (send_request g headers ends c).1
  unfolding send_request
  send_request-IsSafe headers ends c h = ground arith

  pub send_response-IsSafe :
      (stream headers : Value) (ends : Bool) (c : Connection S)
      → IsSafe c
      → IsSafe (send_response g stream headers ends c).1
  unfolding send_response
  send_response-IsSafe stream headers ends c h = ground arith

  pub send_informational_response-IsSafe :
      (stream headers : Value) (c : Connection S)
      → IsSafe c
      → IsSafe (send_informational_response g stream headers c).1
  unfolding send_informational_response
  send_informational_response-IsSafe stream headers c h = ground arith

  pub send_trailers-IsSafe :
      (stream headers : Value) (c : Connection S)
      → IsSafe c
      → IsSafe (send_trailers g stream headers c).1
  unfolding send_trailers
  send_trailers-IsSafe stream headers c h = ground arith

  pub send_push_promise-IsSafe :
      (stream headers : Value) (c : Connection S)
      → IsSafe c
      → IsSafe (send_push_promise g stream headers c).1
  unfolding send_push_promise
  send_push_promise-IsSafe stream headers c h = ground arith

  pub send_data-IsSafe :
      (stream body : Value) (ends : Bool) (c : Connection S)
      → IsSafe c
      → IsSafe (send_data g stream body ends c).1
  unfolding send_data
  send_data-IsSafe stream body ends c h = ground arith

  pub end_stream-IsSafe :
      (stream : Value) (c : Connection S) → IsSafe c → IsSafe (end_stream g stream c).1
  unfolding end_stream
  end_stream-IsSafe stream c h = ground arith

  pub reset_stream-IsSafe :
      (stream code : Value) (after : Bool) (c : Connection S)
      → IsSafe c
      → IsSafe (reset_stream g stream code after c).1
  unfolding reset_stream
  reset_stream-IsSafe stream code after c h = ground arith
