-- ===== src/Calls/Runs.antt =====
-- The methods in which the engine calls back, and the session.
use ngh.Base.{ℕ, Bool, Option-cases, true, is_some, none, some, List, ◌≡◌, refl, inl, inr, arith}
use ngh.Base.Int.{pos}
use ngh.Values.{Value}
use ngh.Errors.{Status, done, failure}
use ngh.Settings.{Entry}
use ngh.Engine.{Engine, Run, finished, calls}
use ngh.Connection.{
  Connection, Action, ◌>>=◌, modify, fail, require_active, require_created,
  raise_callback_or_native,
}
use ngh.Drive.{drive, run, dispatch, session_or}
use ngh.Transport.{check_consumed, update_if_closing, receive_data, take_output, data_to_send}
use ngh.Transport.Keeps.{Steps, receive_data-Keeps, data_to_send-Keeps, initiate_upgrade-Keeps}
use ngh.Setup.{initiate_upgrade, prepare_settings, complete_upgrade}
use ngh.Calls.Safety.{IsSafe, Safe}

module _ {S : Type 0} where
  clear-Safe : Safe (modify (λ (c : Connection S). record c { callback_error = none }))
  clear-Safe = record { keeps = λ c h. h }

  require_active-Safe : Safe {S = S} require_active
  unfolding require_active
  require_active-Safe = record { keeps = λ c h. ground arith }

  require_created-Safe : Safe {S = S} require_created
  unfolding require_created
  require_created-Safe = record { keeps = λ c h. ground arith }

  take_output-Safe : Safe {S = S} take_output
  unfolding take_output
  take_output-Safe = record { keeps = λ c h. ground arith }

  -- A failure leaves no session, and no way to use one.
  fail-IsSafe : (c : Connection S) → IsSafe (fail c)
  unfolding fail
  fail-IsSafe c = ground arith

module _ {S : Type 0} (g : Engine S) where
  drive-session : (r : Run S) (c : Connection S) → is_some (drive g r c).1.session ≡ true
  unfolding drive
  drive-session (finished status s) c = refl
  drive-session (calls callback s resume) c =
      let (reply, d) = dispatch g callback (record c { session = some s }) in
      drive-session (resume reply (session_or g s d)) d

  run-IsSafe : (f : S → Run S) (c : Connection S) → IsSafe c → IsSafe (run g f c).1
  unfolding run
  run-IsSafe f c h = elim (Option-cases c.session) [
    | inl e ↦ ground arith
    | inr (s, e) ↦ ground (arith, drive-session (f s) c)
  ]

  run-Safe : (f : S → Run S) → Safe (run g f)
  run-Safe f = record { keeps = run-IsSafe f }

  raise_callback_or_native-Safe : (status : Status) → Safe (raise_callback_or_native g status)
  unfolding raise_callback_or_native
  raise_callback_or_native-Safe (done n) = record { keeps = λ c h. h }
  raise_callback_or_native-Safe (failure code) = record { keeps = λ c h. ground arith }

  check_consumed-Safe : (taken size : ℕ) → Safe (check_consumed g taken size)
  unfolding check_consumed
  check_consumed-Safe taken size = record { keeps = λ c h. ground arith }

  update_if_closing-Safe : Safe (update_if_closing g)
  unfolding update_if_closing
  update_if_closing-Safe = record { keeps = λ c h. ground arith }

  assigns-Safe :
      (f : Connection S → Connection S)
      → ((c : Connection S) → IsSafe c → IsSafe (f c))
      → Safe (modify f)
  assigns-Safe f h = record { keeps = h }

  steps : Steps g IsSafe
  steps = record {
    clears = clear-Safe;
    activates = require_active-Safe;
    runs = run-Safe;
    raises = raise_callback_or_native-Safe;
    checks = check_consumed-Safe;
    updates = update_if_closing-Safe;
    begins = λ limit.
        assigns-Safe
          (λ c. record c { output_size = 0; output_remaining = limit; callback_error = none })
          λ c h. h;
    takes = take_output-Safe;
    ends = assigns-Safe (λ c. record c { output_remaining = pos 0 }) λ c h. h;
    fails = λ c h. fail-IsSafe c;
  }

  pub receive_data-Safe : (received : Value) → Safe (receive_data g received)
  receive_data-Safe = receive_data-Keeps g IsSafe steps

  pub data_to_send-Safe : (amount : Value) → Safe (data_to_send g amount)
  data_to_send-Safe = data_to_send-Keeps g IsSafe steps

  complete_upgrade-IsSafe :
      (is_server : Bool) (entries prepared : List Entry) (status : Status) (c : Connection S)
      → is_some c.session ≡ true
      → IsSafe (complete_upgrade g is_server entries prepared status c).1
  unfolding complete_upgrade
  complete_upgrade-IsSafe is_server entries prepared status c e = ground arith

  run_then :
      {A : Type 0} (f : S → Run S) (k : Status → Action S A) (c : Connection S)
      → ((status : Status) (d : Connection S) → is_some d.session ≡ true → IsSafe (k status d).1)
      → IsSafe c
      → IsSafe ((run g f >>= k) c).1
  unfolding run
  run_then f k c h i = elim (Option-cases c.session) [
    | inl e ↦ ground arith
    | inr (s, e) ↦ ground (arith, h (drive g (f s) c).0 (drive g (f s) c).1 (drive-session (f s) c))
  ]

  run_then-Safe :
      {A : Type 0} (f : S → Run S) (k : Status → Action S A)
      → ((status : Status) (d : Connection S) → is_some d.session ≡ true → IsSafe (k status d).1)
      → Safe (run g f >>= k)
  run_then-Safe f k h = record { keeps = λ c. run_then f k c h }

  prepare_settings-Safe : (entries : List Entry) → Safe (prepare_settings g entries)
  unfolding prepare_settings
  prepare_settings-Safe entries = record { keeps = λ c h. ground arith }

  pub initiate_upgrade-Safe :
      (payload settings : Value) (head : Bool) → Safe (initiate_upgrade g payload settings head)
  initiate_upgrade-Safe payload settings head =
      initiate_upgrade-Keeps g IsSafe steps payload settings head require_created-Safe
        prepare_settings-Safe
        λ is_server entries prepared bs.
          run_then-Safe (g.upgrade bs head) (complete_upgrade g is_server entries prepared)
            (complete_upgrade-IsSafe is_server entries prepared)
