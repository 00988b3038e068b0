-- ===== src/Closing/Methods.antt =====
-- A method publishes a ConnectionClosed event at most where the connection closes with it.
use ngh.Base.{◌⊎◌, ℕ, ◌≡◌, refl, inl, Bool, true, none, List, arith}
use ngh.Base.Int.{pos}
use ngh.Values.{Value, Bytes}
use ngh.Errors.{Status}
use ngh.Config.{Role, Configuration}
use ngh.Settings.{Entry}
use ngh.Events.{new_connection_closed}
use ngh.Engine.{Engine, Run}
use ngh.Connection.{
  Connection, Action, modify, fail, require_active, require_created, raise_callback_or_native,
  update_terminal_state,
}
use ngh.Connection.Keeps.{Keeps, bind-Keeps}
use ngh.Drive.{run}
use ngh.Transport.{check_consumed, update_if_closing, receive_data, take_output, data_to_send}
use ngh.Transport.Keeps.{Steps, receive_data-Keeps, data_to_send-Keeps, initiate_upgrade-Keeps}
use ngh.Setup.{
  Argument, initialize, initiate_upgrade, prepare_settings, complete_upgrade, keep_limits,
  installed,
}
use ngh.Setup.Keeps.{initialize-Keeps}
use ngh.Streams.{send_request, send_response, send_data, send_trailers}
use ngh.Controls.{queued_body_size}
use ngh.Calls.Calm.{Calm}
use ngh.Closing.{closings-append, Once, Silent}
use ngh.Closing.Callbacks.{run-Silent}

-- Nothing is published, and the connection may close.
abbrev pub Mute : {S : Type 0} → Connection S → Connection S → Type 0
Mute c d = (d.events ≡ c.events) × ((d.closed ≡ c.closed) ⊎ (d.closed ≡ true))

module _ {S : Type 0} where
  pub Mute-Once : (c d : Connection S) → Mute c d → Once c d
  Mute-Once c d h = ground arith

  Silent-Once : (c d : Connection S) → Silent c d → Once c d
  Silent-Once c d h = ground arith

  pub Calm-Once : (c d : Connection S) → Calm c d → Once c d
  Calm-Once c d (i, n, events, b, closed) = Mute-Once c d (events, closed)

  fail-Mute : (c : Connection S) → Mute c (fail c)
  unfolding fail
  fail-Mute c = ground arith

-- What holds of every result of an action from `start`.
module _ {S : Type 0} (start : Connection S) where
  Once-Keeps :
      {A : Type 0} (m : Action S A) → ((c : Connection S) → Once c (m c).1) → Keeps (Once start) m
  Once-Keeps m h = record { keeps = λ c a. omega (arith, a, h c) }

  Mute-Keeps :
      {A : Type 0} (m : Action S A) → ((c : Connection S) → Mute c (m c).1) → Keeps (Once start) m
  Mute-Keeps m h = Once-Keeps m λ c. Mute-Once c (m c).1 (h c)

  require_active-Keeps : Keeps {A = Unit {0}} (Once start) require_active
  unfolding require_active
  require_active-Keeps = Mute-Keeps {A = Unit {0}} require_active λ c. ground arith

  require_created-Keeps : Keeps {A = Unit {0}} (Once start) require_created
  unfolding require_created
  require_created-Keeps = Mute-Keeps {A = Unit {0}} require_created λ c. ground arith

  take_output-Keeps : Keeps {A = Bytes} (Once start) take_output
  unfolding take_output
  take_output-Keeps = Mute-Keeps {A = Bytes} take_output λ c. ground arith

  keep_limits-Keeps :
      (auto : Bool) (frame_size settings : ℕ) (config : Configuration)
      → Keeps (Once start) (keep_limits auto frame_size settings config)
  unfolding keep_limits
  keep_limits-Keeps auto frame_size settings config =
      Mute-Keeps (keep_limits auto frame_size settings config) λ c. ground arith

module _ {S : Type 0} (g : Engine S) (start : Connection S) where
  raise_callback_or_native-Keeps :
      (status : Status) → Keeps (Once start) (raise_callback_or_native g status)
  unfolding raise_callback_or_native
  raise_callback_or_native-Keeps status =
      Mute-Keeps start (raise_callback_or_native g status) λ c. ground arith

  check_consumed-Keeps : (taken size : ℕ) → Keeps (Once start) (check_consumed g taken size)
  unfolding check_consumed
  check_consumed-Keeps taken size = Mute-Keeps start (check_consumed g taken size) λ c. ground arith

  update_if_closing-Once : (c : Connection S) → Once c (update_if_closing g c).1
  unfolding update_if_closing update_terminal_state new_connection_closed
  update_if_closing-Once c = grind (arith, closings-append)

  assigns-Keeps :
      (f : Connection S → Connection S)
      → ((c : Connection S) → Mute c (f c))
      → Keeps (Once start) (modify f)
  assigns-Keeps f h = Mute-Keeps start (modify f) h

  run-Keeps : (f : S → Run S) → Keeps (Once start) (run g f)
  run-Keeps f = Once-Keeps start (run g f) λ c. Silent-Once c (run g f c).1 (run-Silent g f c)

  steps : Steps g (Once start)
  steps = record {
    clears = assigns-Keeps (λ c. record c { callback_error = none }) λ c. (refl, inl refl);
    activates = require_active-Keeps start;
    runs = run-Keeps;
    raises = raise_callback_or_native-Keeps;
    checks = check_consumed-Keeps;
    updates = Once-Keeps start {A = Unit {0}} (update_if_closing g) update_if_closing-Once;
    begins = λ limit.
        assigns-Keeps
          (λ c. record c { output_size = 0; output_remaining = limit; callback_error = none })
          λ c. (refl, inl refl);
    takes = take_output-Keeps start;
    ends = assigns-Keeps (λ c. record c { output_remaining = pos 0 }) λ c. (refl, inl refl);
    fails = λ c a. omega (arith, a, Mute-Once c (fail c) (fail-Mute c));
  }

  complete_upgrade-Keeps :
      (is_server : Bool) (entries prepared : List Entry) (status : Status)
      → Keeps (Once start) (complete_upgrade g is_server entries prepared status)
  unfolding complete_upgrade
  complete_upgrade-Keeps is_server entries prepared status =
      Mute-Keeps start (complete_upgrade g is_server entries prepared status) λ c. ground arith

  prepare_settings-Keeps : (entries : List Entry) → Keeps (Once start) (prepare_settings g entries)
  unfolding prepare_settings
  prepare_settings-Keeps entries = Mute-Keeps start (prepare_settings g entries) λ c. ground arith

  installed-Keeps :
      (role : Role) (config : Configuration) (s : S)
      → Keeps (Once start) (modify (installed g role config s))
  unfolding installed
  installed-Keeps role config s =
      Mute-Keeps start (modify (installed g role config s)) λ c. (refl, inl refl)

-- The methods that Calls/Calm.antt leaves out.
module _ {S : Type 0} (g : Engine S) where
  from : (c : Connection S) → Once c c
  from c = omega arith

  pub receive_data-Once :
      (received : Value) (c : Connection S) → Once c (receive_data g received c).1
  receive_data-Once received c =
      (receive_data-Keeps g (Once c) (steps g c) received).keeps c (from c)

  pub data_to_send-Once : (amount : Value) (c : Connection S) → Once c (data_to_send g amount c).1
  data_to_send-Once amount c = (data_to_send-Keeps g (Once c) (steps g c) amount).keeps c (from c)

  pub initiate_upgrade-Once :
      (payload settings : Value) (head : Bool) (c : Connection S)
      → Once c (initiate_upgrade g payload settings head c).1
  initiate_upgrade-Once payload settings head c =
      (initiate_upgrade-Keeps g (Once c) (steps g c) payload settings head (require_created-Keeps c)
          (prepare_settings-Keeps g c)
          λ is_server entries prepared bs.
            bind-Keeps (run-Keeps g c (g.upgrade bs head))
              λ status. complete_upgrade-Keeps g c is_server entries prepared status).keeps
        c (from c)

  pub initialize-Once :
      (role : Argument Role) (config : Argument Configuration) (c : Connection S)
      → Once c (initialize g role config c).1
  initialize-Once role config c =
      (initialize-Keeps (Once c) (keep_limits-Keeps c) g role config (installed-Keeps g c)).keeps c
        (from c)

  send_request-Mute :
      (headers : Value) (ends : Bool) (c : Connection S) → Mute c (send_request g headers ends c).1
  unfolding send_request
  send_request-Mute headers ends c = ground arith

  send_response-Mute :
      (stream headers : Value) (ends : Bool) (c : Connection S)
      → Mute c (send_response g stream headers ends c).1
  unfolding send_response
  send_response-Mute stream headers ends c = ground arith

  send_trailers-Mute :
      (stream headers : Value) (c : Connection S) → Mute c (send_trailers g stream headers c).1
  unfolding send_trailers
  send_trailers-Mute stream headers c = ground arith

  send_data-Mute :
      (stream value : Value) (ends : Bool) (c : Connection S)
      → Mute c (send_data g stream value ends c).1
  unfolding send_data
  send_data-Mute stream value ends c = ground arith

  queued_body_size-Mute : (stream : Value) (c : Connection S) → Mute c (queued_body_size stream c).1
  unfolding queued_body_size
  queued_body_size-Mute stream c = ground arith

  pub send_request-Once :
      (headers : Value) (ends : Bool) (c : Connection S) → Once c (send_request g headers ends c).1
  send_request-Once headers ends c =
      Mute-Once c (send_request g headers ends c).1 (send_request-Mute headers ends c)

  pub send_response-Once :
      (stream headers : Value) (ends : Bool) (c : Connection S)
      → Once c (send_response g stream headers ends c).1
  send_response-Once stream headers ends c =
      Mute-Once c (send_response g stream headers ends c).1
        (send_response-Mute stream headers ends c)

  pub send_trailers-Once :
      (stream headers : Value) (c : Connection S) → Once c (send_trailers g stream headers c).1
  send_trailers-Once stream headers c =
      Mute-Once c (send_trailers g stream headers c).1 (send_trailers-Mute stream headers c)

  pub send_data-Once :
      (stream value : Value) (ends : Bool) (c : Connection S)
      → Once c (send_data g stream value ends c).1
  send_data-Once stream value ends c =
      Mute-Once c (send_data g stream value ends c).1 (send_data-Mute stream value ends c)

  pub queued_body_size-Once :
      (stream : Value) (c : Connection S) → Once c (queued_body_size stream c).1
  queued_body_size-Once stream c =
      Mute-Once c (queued_body_size stream c).1 (queued_body_size-Mute stream c)
