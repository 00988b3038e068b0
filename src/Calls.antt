-- ===== src/Calls.antt =====
-- The methods of `Connection` (src/ngh2/_core.pyx) as one type of calls.
pub mod Calm
pub mod Cases
pub mod Failed
pub mod Failure
pub mod Safety
pub mod Runs
pub mod Session
use ngh.Base.{ℕ, Bool, true, false}
use ngh.Values.{Value}
use ngh.Errors.{Result, ok, err}
use ngh.Config.{Role, Configuration}
use ngh.Engine.{Engine}
use ngh.Connection.{Connection, Action, pure, ◌>>=◌}
use ngh.Setup.{Argument}
use ngh.Setup as Setup
use ngh.Transport as Transport
use ngh.Streams as Streams
use ngh.Controls as Controls

-- A method or a property, with its arguments.
pub data Call : Type 0 where
  initialize : Argument Role → Argument Configuration → Call
  initiate_connection : Value → Call
  initiate_upgrade : Value → Value → Bool → Call
  receive_data data_to_send : Value → Call
  events : Call
  send_request : Value → Bool → Call
  send_response : Value → Value → Bool → Call
  send_informational_response send_trailers send_push_promise : Value → Value → Call
  send_data : Value → Value → Bool → Call
  end_stream : Value → Call
  reset_stream : Value → Value → Bool → Call
  update_settings send_ping : Value → Call
  send_goaway : Value → Value → Value → Call
  send_shutdown_notice : Call
  terminate_connection consume_received_data set_local_window_size : Value → Value → Call
  send_priority_update : Value → Value → Call
  set_stream_priority : Value → Value → Bool → Call
  get_stream_priority : Value → Call
  send_alt_svc : Value → Value → Value → Call
  send_origins : Value → Call
  want_read want_write next_stream_id can_send_request : Call
  queued_body_size remote_window_size local_window_size : Value → Call
  local_settings remote_settings : Call

-- The two calls that never look at the state of the connection.
abbrev pub is_query : Call → Bool
is_query events = true
is_query (queued_body_size stream) = true
is_query _ = false

module _ {S : Type 0} (g : Engine S) where
  -- What a method returns is dropped.
  abbrev done_with : {A : Type 0} → Action S A → Action S (Unit {0})
  done_with m = m >>= λ _. pure tt

  unfoldable pub perform : Call → Action S (Unit {0})
  perform (initialize role config) = Setup.initialize g role config
  perform (initiate_connection settings) = Setup.initiate_connection g settings
  perform (initiate_upgrade payload settings head) = Setup.initiate_upgrade g payload settings head
  perform (receive_data received) = Transport.receive_data g received
  perform (data_to_send amount) = done_with (Transport.data_to_send g amount)
  perform events = done_with Transport.take_events
  perform (send_request headers ends) = done_with (Streams.send_request g headers ends)
  perform (send_response stream headers ends) = Streams.send_response g stream headers ends
  perform (send_informational_response stream headers) =
      Streams.send_informational_response g stream headers
  perform (send_trailers stream headers) = Streams.send_trailers g stream headers
  perform (send_push_promise stream headers) =
      done_with (Streams.send_push_promise g stream headers)
  perform (send_data stream body ends) = Streams.send_data g stream body ends
  perform (end_stream stream) = Streams.end_stream g stream
  perform (reset_stream stream code after) = Streams.reset_stream g stream code after
  perform (update_settings settings) = Controls.update_settings g settings
  perform (send_ping opaque_data) = Controls.send_ping g opaque_data
  perform (send_goaway code last debug_data) = Controls.send_goaway g code last debug_data
  perform send_shutdown_notice = Controls.send_shutdown_notice g
  perform (terminate_connection code last) = Controls.terminate_connection g code last
  perform (consume_received_data stream amount) = Controls.consume_received_data g stream amount
  perform (set_local_window_size size stream) = Controls.set_local_window_size g size stream
  perform (send_priority_update stream field) =
      done_with (Controls.send_priority_update g stream field)
  perform (set_stream_priority stream urgency ignore) =
      done_with (Controls.set_stream_priority g stream urgency ignore)
  perform (get_stream_priority stream) = done_with (Controls.get_stream_priority g stream)
  perform (send_alt_svc field stream origin) = Controls.send_alt_svc g field stream origin
  perform (send_origins origins) = Controls.send_origins g origins
  perform want_read = done_with (Controls.want_read g)
  perform want_write = done_with (Controls.want_write g)
  perform next_stream_id = done_with (Controls.next_stream_id g)
  perform can_send_request = done_with (Controls.can_send_request g)
  perform (queued_body_size stream) = done_with (Controls.queued_body_size stream)
  perform (remote_window_size stream) = done_with (Controls.remote_window_size g stream)
  perform (local_window_size stream) = done_with (Controls.local_window_size g stream)
  perform local_settings = done_with (Controls.local_settings g)
  perform remote_settings = done_with (Controls.remote_settings g)
