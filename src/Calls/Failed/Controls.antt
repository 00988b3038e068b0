-- ===== src/Calls/Failed/Controls.antt =====
-- The methods on the connection after a failure.
use ngh.Base.{Bool, arith}
use ngh.Values.{Value}
use ngh.Engine.{Engine}
use ngh.Connection.{Connection}
use ngh.Controls.{
  update_settings, send_ping, send_goaway, send_shutdown_notice, terminate_connection,
  consume_received_data, set_local_window_size, send_priority_update, set_stream_priority,
  get_stream_priority, send_alt_svc, send_origins, want_read, want_write, next_stream_id,
  can_send_request, remote_window_size, local_window_size, local_settings, remote_settings,
}
use ngh.Calls.Failed.{Refuses, HasFailed}

module _ {S : Type 0} (g : Engine S) where
  pub update_settings-Refuses :
      (settings : Value) (c : Connection S) → HasFailed c → Refuses c (update_settings g settings c)
  unfolding update_settings
  update_settings-Refuses settings c h = ground arith

  pub send_ping-Refuses :
      (opaque_data : Value) (c : Connection S) → HasFailed c → Refuses c (send_ping g opaque_data c)
  unfolding send_ping
  send_ping-Refuses opaque_data c h = ground arith

  pub send_goaway-Refuses :
      (code last debug_data : Value) (c : Connection S)
      → HasFailed c
      → Refuses c (send_goaway g code last debug_data c)
  unfolding send_goaway
  send_goaway-Refuses code last debug_data c h = ground arith

  pub send_shutdown_notice-Refuses :
      (c : Connection S) → HasFailed c → Refuses c (send_shutdown_notice g c)
  unfolding send_shutdown_notice
  send_shutdown_notice-Refuses c h = ground arith

  pub terminate_connection-Refuses :
      (code last : Value) (c : Connection S)
      → HasFailed c
      → Refuses c (terminate_connection g code last c)
  unfolding terminate_connection
  terminate_connection-Refuses code last c h = ground arith

  pub consume_received_data-Refuses :
      (stream amount : Value) (c : Connection S)
      → HasFailed c
      → Refuses c (consume_received_data g stream amount c)
  unfolding consume_received_data
  consume_received_data-Refuses stream amount c h = ground arith

  pub set_local_window_size-Refuses :
      (size stream : Value) (c : Connection S)
      → HasFailed c
      → Refuses c (set_local_window_size g size stream c)
  unfolding set_local_window_size
  set_local_window_size-Refuses size stream c h = ground arith

  pub send_priority_update-Refuses :
      (stream field : Value) (c : Connection S)
      → HasFailed c
      → Refuses c (send_priority_update g stream field c)
  unfolding send_priority_update
  send_priority_update-Refuses stream field c h = ground arith

  pub set_stream_priority-Refuses :
      (stream urgency : Value) (ignore : Bool) (c : Connection S)
      → HasFailed c
      → Refuses c (set_stream_priority g stream urgency ignore c)
  unfolding set_stream_priority
  set_stream_priority-Refuses stream urgency ignore c h = ground arith

  pub get_stream_priority-Refuses :
      (stream : Value) (c : Connection S) → HasFailed c → Refuses c (get_stream_priority g stream c)
  unfolding get_stream_priority
  get_stream_priority-Refuses stream c h = ground arith

  pub send_alt_svc-Refuses :
      (field stream origin : Value) (c : Connection S)
      → HasFailed c
      → Refuses c (send_alt_svc g field stream origin c)
  unfolding send_alt_svc
  send_alt_svc-Refuses field stream origin c h = ground arith

  pub send_origins-Refuses :
      (origins : Value) (c : Connection S) → HasFailed c → Refuses c (send_origins g origins c)
  unfolding send_origins
  send_origins-Refuses origins c h = ground arith

  pub want_read-Refuses : (c : Connection S) → HasFailed c → Refuses c (want_read g c)
  unfolding want_read
  want_read-Refuses c h = ground arith

  pub want_write-Refuses : (c : Connection S) → HasFailed c → Refuses c (want_write g c)
  unfolding want_write
  want_write-Refuses c h = ground arith

  pub next_stream_id-Refuses : (c : Connection S) → HasFailed c → Refuses c (next_stream_id g c)
  unfolding next_stream_id
  next_stream_id-Refuses c h = ground arith

  pub can_send_request-Refuses : (c : Connection S) → HasFailed c → Refuses c (can_send_request g c)
  unfolding can_send_request
  can_send_request-Refuses c h = ground arith

  pub remote_window_size-Refuses :
      (stream : Value) (c : Connection S) → HasFailed c → Refuses c (remote_window_size g stream c)
  unfolding remote_window_size
  remote_window_size-Refuses stream c h = ground arith

  pub local_window_size-Refuses :
      (stream : Value) (c : Connection S) → HasFailed c → Refuses c (local_window_size g stream c)
  unfolding local_window_size
  local_window_size-Refuses stream c h = ground arith

  pub local_settings-Refuses : (c : Connection S) → HasFailed c → Refuses c (local_settings g c)
  unfolding local_settings
  local_settings-Refuses c h = ground arith

  pub remote_settings-Refuses : (c : Connection S) → HasFailed c → Refuses c (remote_settings g c)
  unfolding remote_settings
  remote_settings-Refuses c h = ground arith
