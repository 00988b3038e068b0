-- ===== src/Calls/Failed/Streams.antt =====
-- The methods that open a connection, move its bytes or send on a stream, after a failure.
use ngh.Base.{Bool, arith}
use ngh.Values.{Value}
use ngh.Config.{Role, Configuration}
use ngh.Engine.{Engine}
use ngh.Connection.{Connection}
use ngh.Setup.{Argument}
use ngh.Setup.{initialize, initiate_connection, initiate_upgrade}
use ngh.Transport.{receive_data, data_to_send}
use ngh.Streams.{
  send_request, send_response, send_informational_response, send_trailers, send_push_promise,
  send_data, end_stream, reset_stream,
}
use ngh.Calls.Failed.{Refuses, HasFailed}

module _ {S : Type 0} (g : Engine S) where
  pub initialize-Refuses :
      (role : Argument Role) (config : Argument Configuration) (c : Connection S)
      → HasFailed c
      → Refuses c (initialize g role config c)
  unfolding initialize
  initialize-Refuses role config c h = ground arith

  pub initiate_connection-Refuses :
      (settings : Value) (c : Connection S)
      → HasFailed c
      → Refuses c (initiate_connection g settings c)
  unfolding initiate_connection
  initiate_connection-Refuses settings c h = ground arith

  pub initiate_upgrade-Refuses :
      (payload settings : Value) (head : Bool) (c : Connection S)
      → HasFailed c
      → Refuses c (initiate_upgrade g payload settings head c)
  unfolding initiate_upgrade
  initiate_upgrade-Refuses payload settings head c h = ground arith

  pub receive_data-Refuses :
      (received : Value) (c : Connection S) → HasFailed c → Refuses c (receive_data g received c)
  unfolding receive_data
  receive_data-Refuses received c h = ground arith

  pub data_to_send-Refuses :
      (amount : Value) (c : Connection S) → HasFailed c → Refuses c (data_to_send g amount c)
  unfolding data_to_send
  data_to_send-Refuses amount c h = ground arith

  pub send_request-Refuses :
      (headers : Value) (ends : Bool) (c : Connection S)
      → HasFailed c
      → Refuses c (send_request g headers ends c)
  unfolding send_request
  send_request-Refuses headers ends c h = ground arith

  pub send_response-Refuses :
      (stream headers : Value) (ends : Bool) (c : Connection S)
      → HasFailed c
      → Refuses c (send_response g stream headers ends c)
  unfolding send_response
  send_response-Refuses stream headers ends c h = ground arith

  pub send_informational_response-Refuses :
      (stream headers : Value) (c : Connection S)
      → HasFailed c
      → Refuses c (send_informational_response g stream headers c)
  unfolding send_informational_response
  send_informational_response-Refuses stream headers c h = ground arith

  pub send_trailers-Refuses :
      (stream headers : Value) (c : Connection S)
      → HasFailed c
      → Refuses c (send_trailers g stream headers c)
  unfolding send_trailers
  send_trailers-Refuses stream headers c h = ground arith

  pub send_push_promise-Refuses :
      (stream headers : Value) (c : Connection S)
      → HasFailed c
      → Refuses c (send_push_promise g stream headers c)
  unfolding send_push_promise
  send_push_promise-Refuses stream headers c h = ground arith

  pub send_data-Refuses :
      (stream body : Value) (ends : Bool) (c : Connection S)
      → HasFailed c
      → Refuses c (send_data g stream body ends c)
  unfolding send_data
  send_data-Refuses stream body ends c h = ground arith

  pub end_stream-Refuses :
      (stream : Value) (c : Connection S) → HasFailed c → Refuses c (end_stream g stream c)
  unfolding end_stream
  end_stream-Refuses stream c h = ground arith

  pub reset_stream-Refuses :
      (stream code : Value) (after : Bool) (c : Connection S)
      → HasFailed c
      → Refuses c (reset_stream g stream code after c)
  unfolding reset_stream
  reset_stream-Refuses stream code after c h = ground arith
