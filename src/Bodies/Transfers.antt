-- ===== src/Bodies/Transfers.antt =====
-- The bodies over the methods in which the engine calls back.
use ngh.Base.{ℕ, Bool, none, List, arith}
use ngh.Base.Int.{pos}
use ngh.Values.{Value, Bytes}
use ngh.Errors.{Status}
use ngh.Settings.{Entry}
use ngh.Engine.{Engine}
use ngh.Connection.{
  Connection, modify, fail, require_active, require_created, raise_callback_or_native,
}
use ngh.Connection.Keeps.{bind-Keeps}
use ngh.Transport.{check_consumed, update_if_closing, receive_data, take_output, data_to_send}
use ngh.Transport.Keeps.{Steps, receive_data-Keeps, data_to_send-Keeps, initiate_upgrade-Keeps}
use ngh.Setup.{initiate_upgrade, prepare_settings, complete_upgrade}
use ngh.Bodies.Ledger.{Accounted}
use ngh.Bodies.Steady.{Steady, Steady-self, Steady-Accounted, Tracks, Steady-Tracks}
use ngh.Bodies.Runs.{run-Accounted}

module _ {S : Type 0} where
  fail-Steady : (c : Connection S) → Steady c (fail c)
  unfolding fail
  fail-Steady c = ground arith

  require_active-Tracks : Tracks {S = S} {A = Unit {0}} require_active
  unfolding require_active
  require_active-Tracks = Steady-Tracks {A = Unit {0}} require_active λ c. ground arith

  require_created-Tracks : Tracks {S = S} {A = Unit {0}} require_created
  unfolding require_created
  require_created-Tracks = Steady-Tracks {A = Unit {0}} require_created λ c. ground arith

  take_output-Tracks : Tracks {S = S} {A = Bytes} take_output
  unfolding take_output
  take_output-Tracks = Steady-Tracks {A = Bytes} take_output λ c. ground arith

  assigns-Tracks :
      (f : Connection S → Connection S) → ((c : Connection S) → Steady c (f c)) → Tracks (modify f)
  assigns-Tracks f h = Steady-Tracks (modify f) h

module _ {S : Type 0} (g : Engine S) where
  raise_callback_or_native-Tracks : (status : Status) → Tracks (raise_callback_or_native g status)
  unfolding raise_callback_or_native
  raise_callback_or_native-Tracks status =
      Steady-Tracks (raise_callback_or_native g status) λ c. ground arith

  check_consumed-Tracks : (taken size : ℕ) → Tracks (check_consumed g taken size)
  unfolding check_consumed
  check_consumed-Tracks taken size = Steady-Tracks (check_consumed g taken size) λ c. ground arith

  update_if_closing-Tracks : Tracks (update_if_closing g)
  unfolding update_if_closing
  update_if_closing-Tracks = Steady-Tracks {A = Unit {0}} (update_if_closing g) λ c. ground arith

  steps : Steps g Accounted
  steps = record {
    clears = assigns-Tracks (λ c. record c { callback_error = none }) λ c. Steady-self c;
    activates = require_active-Tracks;
    runs = λ f. record { keeps = run-Accounted g f };
    raises = raise_callback_or_native-Tracks;
    checks = check_consumed-Tracks;
    updates = update_if_closing-Tracks;
    begins = λ limit.
        assigns-Tracks
          (λ c. record c { output_size = 0; output_remaining = limit; callback_error = none })
          λ c. Steady-self c;
    takes = take_output-Tracks;
    ends = assigns-Tracks (λ c. record c { output_remaining = pos 0 }) λ c. Steady-self c;
    fails = λ c a. Steady-Accounted c (fail c) a (fail-Steady c);
  }

  pub receive_data-Tracks : (received : Value) → Tracks (receive_data g received)
  receive_data-Tracks = receive_data-Keeps g Accounted steps

  pub data_to_send-Tracks : (amount : Value) → Tracks (data_to_send g amount)
  data_to_send-Tracks = data_to_send-Keeps g Accounted steps

  complete_upgrade-Tracks :
      (is_server : Bool) (entries prepared : List Entry) (status : Status)
      → Tracks (complete_upgrade g is_server entries prepared status)
  unfolding complete_upgrade
  complete_upgrade-Tracks is_server entries prepared status =
      Steady-Tracks (complete_upgrade g is_server entries prepared status) λ c. ground arith

  prepare_settings-Tracks : (entries : List Entry) → Tracks (prepare_settings g entries)
  unfolding prepare_settings
  prepare_settings-Tracks entries = Steady-Tracks (prepare_settings g entries) λ c. ground arith

  pub initiate_upgrade-Tracks :
      (payload settings : Value) (head : Bool) → Tracks (initiate_upgrade g payload settings head)
  initiate_upgrade-Tracks payload settings head =
      initiate_upgrade-Keeps g Accounted steps payload settings head require_created-Tracks
        prepare_settings-Tracks
        λ is_server entries prepared bs.
          bind-Keeps (record { keeps = run-Accounted g (g.upgrade bs head) })
            λ status. complete_upgrade-Tracks is_server entries prepared status
