-- ===== src/Calls/Calm.antt =====
-- The methods that leave bodies and events alone, or fail.
use ngh.Base.{ℕ, Bool, true, List, [], ◌⊎◌, inl, ◌≡◌, refl, arith}
use ngh.Values.{Value, Bytes, iterate}
use ngh.Integers.{uint31}
use ngh.Errors.{Result, ok, err, or_raise, type_error}
use ngh.Engine.{Engine}
use ngh.Connection.{Connection, Action, lift, ◌>>=◌}
use ngh.Setup.{initiate_connection}
use ngh.Streams.{send_informational_response, send_push_promise, reset_stream}
use ngh.Controls.{
  set_local_window_size, resize_window, send_origins, submit_origins, origin_list, update_settings,
  send_ping, send_goaway, send_shutdown_notice, terminate_connection, consume_received_data,
  send_priority_update, set_stream_priority, get_stream_priority, send_alt_svc, want_read,
  want_write, next_stream_id, can_send_request, remote_window_size, local_window_size,
  local_settings, remote_settings,
}

-- Nothing is opened, queued or published: the bodies stay, or all of them are dropped.
abbrev pub Calm : {S : Type 0} → Connection S → Connection S → Type 0
Calm c d =
    (d.is_server ≡ c.is_server)
    × (d.initialized ≡ c.initialized)
    × (d.events ≡ c.events)
    × (((d.bodies ≡ c.bodies)
          × (d.queued_body_size ≡ c.queued_body_size)
          × (d.responses ≡ c.responses))
        ⊎ ((d.bodies ≡ []) × (d.queued_body_size ≡ 0)))
    × ((d.closed ≡ c.closed) ⊎ (d.closed ≡ true))

module _ {S : Type 0} where
  pub Calm-self : (c : Connection S) → Calm c c
  Calm-self c = (refl, refl, refl, inl (refl, refl, refl), inl refl)

  lift-Calm :
      {A B : Type 0} (r : Result A) (k : A → Action S B) (c : Connection S)
      → ((a : A) → Calm c (k a c).1)
      → Calm c ((lift r >>= k) c).1
  lift-Calm (ok a) k c h = h a
  lift-Calm (err e) k c h = Calm-self c

module _ {S : Type 0} (g : Engine S) where
  pub initiate_connection-Calm :
      (settings : Value) (c : Connection S) → Calm c (initiate_connection g settings c).1
  unfolding initiate_connection
  initiate_connection-Calm settings c = ground arith

  pub send_informational_response-Calm :
      (stream headers : Value) (c : Connection S)
      → Calm c (send_informational_response g stream headers c).1
  unfolding send_informational_response
  send_informational_response-Calm stream headers c = ground arith

  pub send_push_promise-Calm :
      (stream headers : Value) (c : Connection S) → Calm c (send_push_promise g stream headers c).1
  unfolding send_push_promise
  send_push_promise-Calm stream headers c = ground arith

  pub reset_stream-Calm :
      (stream code : Value) (after : Bool) (c : Connection S)
      → Calm c (reset_stream g stream code after c).1
  unfolding reset_stream
  reset_stream-Calm stream code after c = ground arith

  pub update_settings-Calm :
      (settings : Value) (c : Connection S) → Calm c (update_settings g settings c).1
  unfolding update_settings
  update_settings-Calm settings c = ground arith

  pub send_ping-Calm :
      (opaque_data : Value) (c : Connection S) → Calm c (send_ping g opaque_data c).1
  unfolding send_ping
  send_ping-Calm opaque_data c = ground arith

  pub send_goaway-Calm :
      (code last debug_data : Value) (c : Connection S)
      → Calm c (send_goaway g code last debug_data c).1
  unfolding send_goaway
  send_goaway-Calm code last debug_data c = ground arith

  pub send_shutdown_notice-Calm : (c : Connection S) → Calm c (send_shutdown_notice g c).1
  unfolding send_shutdown_notice
  send_shutdown_notice-Calm c = ground arith

  pub terminate_connection-Calm :
      (code last : Value) (c : Connection S) → Calm c (terminate_connection g code last c).1
  unfolding terminate_connection
  terminate_connection-Calm code last c = ground arith

  pub consume_received_data-Calm :
      (stream amount : Value) (c : Connection S)
      → Calm c (consume_received_data g stream amount c).1
  unfolding consume_received_data
  consume_received_data-Calm stream amount c = ground arith

  pub send_priority_update-Calm :
      (stream field : Value) (c : Connection S) → Calm c (send_priority_update g stream field c).1
  unfolding send_priority_update
  send_priority_update-Calm stream field c = ground arith

  pub set_stream_priority-Calm :
      (stream urgency : Value) (ignore : Bool) (c : Connection S)
      → Calm c (set_stream_priority g stream urgency ignore c).1
  unfolding set_stream_priority
  set_stream_priority-Calm stream urgency ignore c = ground arith

  pub get_stream_priority-Calm :
      (stream : Value) (c : Connection S) → Calm c (get_stream_priority g stream c).1
  unfolding get_stream_priority
  get_stream_priority-Calm stream c = ground arith

  pub send_alt_svc-Calm :
      (field stream origin : Value) (c : Connection S)
      → Calm c (send_alt_svc g field stream origin c).1
  unfolding send_alt_svc
  send_alt_svc-Calm field stream origin c = ground arith

  pub want_read-Calm : (c : Connection S) → Calm c (want_read g c).1
  unfolding want_read
  want_read-Calm c = ground arith

  pub want_write-Calm : (c : Connection S) → Calm c (want_write g c).1
  unfolding want_write
  want_write-Calm c = ground arith

  pub next_stream_id-Calm : (c : Connection S) → Calm c (next_stream_id g c).1
  unfolding next_stream_id
  next_stream_id-Calm c = ground arith

  pub can_send_request-Calm : (c : Connection S) → Calm c (can_send_request g c).1
  unfolding can_send_request
  can_send_request-Calm c = ground arith

  pub remote_window_size-Calm :
      (stream : Value) (c : Connection S) → Calm c (remote_window_size g stream c).1
  unfolding remote_window_size
  remote_window_size-Calm stream c = ground arith

  pub local_window_size-Calm :
      (stream : Value) (c : Connection S) → Calm c (local_window_size g stream c).1
  unfolding local_window_size
  local_window_size-Calm stream c = ground arith

  pub local_settings-Calm : (c : Connection S) → Calm c (local_settings g c).1
  unfolding local_settings
  local_settings-Calm c = ground arith

  pub remote_settings-Calm : (c : Connection S) → Calm c (remote_settings g c).1
  unfolding remote_settings
  remote_settings-Calm c = ground arith

  resize_window-Calm :
      (window stream : ℕ) (c : Connection S) → Calm c (resize_window g window stream c).1
  unfolding resize_window
  resize_window-Calm window stream c = ground arith

  pub set_local_window_size-Calm :
      (size stream : Value) (c : Connection S) → Calm c (set_local_window_size g size stream c).1
  unfolding set_local_window_size
  set_local_window_size-Calm size stream c =
      lift-Calm (uint31 size) (λ w. lift (uint31 stream) >>= resize_window g w) c
        λ w. lift-Calm (uint31 stream) (resize_window g w) c λ s. resize_window-Calm w s c

  submit_origins-Calm :
      (values : List Bytes) (c : Connection S) → Calm c (submit_origins g values c).1
  unfolding submit_origins
  submit_origins-Calm values c = ground arith

  pub send_origins-Calm : (origins : Value) (c : Connection S) → Calm c (send_origins g origins c).1
  unfolding send_origins
  send_origins-Calm origins c =
      lift-Calm (or_raise (iterate origins) type_error)
        (λ items. lift (origin_list items) >>= submit_origins g) c
        λ items.
          lift-Calm (origin_list items) (submit_origins g) c λ values. submit_origins-Calm values c
