-- ===== src/Transport/Keeps.antt =====
-- `receive_data`, `data_to_send` and `initiate_upgrade` keep every property that their steps keep.
use ngh.Base.{ℕ, Bool, not, ◌&&◌, ◌||◌, none, List, [], if◌then◌else◌}
use ngh.Base.Int.{ℤ, pos}
use ngh.Base.Lists.{length}
use ngh.Values.{Value, Bytes}
use ngh.Errors.{Result, ok, err, Status, connection_state, value_error}
use ngh.Settings.{Entry, normalize_settings}
use ngh.Engine.{Engine, Run}
use ngh.Connection.{
  Connection, Action, ◌>>=◌, modify, fail, require_active, require_created,
  raise_callback_or_native,
}
use ngh.Connection.Keeps.{
  Keeps, bind-Keeps, then-Keeps, get-Keeps, lift-Keeps, raise_if-Keeps, pure-Keeps, choose-Keeps,
}
use ngh.Drive.{run}
use ngh.Transport.{
  buffer_of, limit_of, check_consumed, update_if_closing, receive_data, or_fail, send_output,
  send_within, take_output, is_zero, data_to_send,
}
use ngh.Setup.{initiate_upgrade, payload_of, prepare_settings, complete_upgrade, is_none}

-- The steps of the methods that move bytes.
pub record Steps {S : Type 0} (g : Engine S) (P : Connection S → Type 0) : Type 0 where
  pub clears : Keeps P (modify (λ c. record c { callback_error = none }))
  pub activates : Keeps {A = Unit {0}} P require_active
  pub runs : (f : S → Run S) → Keeps P (run g f)
  pub raises : (status : Status) → Keeps P (raise_callback_or_native g status)
  pub checks : (taken size : ℕ) → Keeps P (check_consumed g taken size)
  pub updates : Keeps {A = Unit {0}} P (update_if_closing g)
  pub begins :
      (limit : ℤ)
      → Keeps P (
          modify
            (λ c. record c { output_size = 0; output_remaining = limit; callback_error = none }))
  pub takes : Keeps {A = Bytes} P take_output
  pub ends : Keeps P (modify (λ c. record c { output_remaining = pos 0 }))
  pub fails : (c : Connection S) → P c → P (fail c)

module _ {S : Type 0} (g : Engine S) (P : Connection S → Type 0) (s : Steps g P) where
  abbrev failing : {A : Type 0} → Result A × Connection S → Result A × Connection S
  failing (r, d) = elim r [ ok a ↦ (ok a, d) | err e ↦ (err e, fail d) ]

  failing-Keeps : {A : Type 0} (r : Result A × Connection S) → P r.1 → P (failing r).1
  failing-Keeps (ok a, d) h = h
  failing-Keeps (err e, d) h = s.fails d h

  or_fail-Keeps : {A : Type 0} {m : Action S A} → Keeps P m → Keeps P (or_fail m)
  unfolding or_fail
  or_fail-Keeps {m = m} t = record { keeps = λ c a. failing-Keeps (m c) (t.keeps c a) }

  pub receive_data-Keeps : (received : Value) → Keeps P (receive_data g received)
  unfolding receive_data
  receive_data-Keeps received = bind-Keeps (lift-Keeps (buffer_of received)) λ bs.
      then-Keeps s.activates (
        then-Keeps s.clears (
          bind-Keeps (s.runs (g.mem_recv bs)) λ status.
            bind-Keeps (s.raises status)
              λ taken. then-Keeps (s.checks taken (length bs)) s.updates))

  send_output-Keeps : Keeps P (send_output g)
  unfolding send_output
  send_output-Keeps =
      bind-Keeps (s.runs g.send)
        λ status. bind-Keeps (s.raises status) λ result. then-Keeps s.updates s.takes

  send_within-Keeps : (limit : ℤ) → Keeps P (send_within g limit)
  unfolding send_within
  send_within-Keeps limit =
      then-Keeps (s.begins limit) (
        bind-Keeps (or_fail-Keeps send_output-Keeps)
          λ output. then-Keeps s.ends (pure-Keeps output))

  pub data_to_send-Keeps : (amount : Value) → Keeps P (data_to_send g amount)
  unfolding data_to_send
  data_to_send-Keeps amount = bind-Keeps (lift-Keeps (limit_of amount)) λ limit. get-Keeps λ c.
      then-Keeps (raise_if-Keeps c.failed connection_state)
        (choose-Keeps (is_zero g limit || not c.active) (pure-Keeps []) (send_within-Keeps limit))

  -- The call of the engine and what follows it are one step, since only the run makes sure of the
  -- session.
  pub initiate_upgrade-Keeps :
      (payload settings : Value) (head : Bool)
      → Keeps {A = Unit {0}} P require_created
      → ((entries : List Entry) → Keeps P (prepare_settings g entries))
      → ((is_server : Bool) (entries prepared : List Entry) (bs : Bytes)
          → Keeps P (run g (g.upgrade bs head) >>= complete_upgrade g is_server entries prepared))
      → Keeps P (initiate_upgrade g payload settings head)
  unfolding initiate_upgrade
  initiate_upgrade-Keeps payload settings head creates prepares completes = get-Keeps λ c.
      then-Keeps (raise_if-Keeps (not c.is_server && not (is_none g settings)) value_error) (
        bind-Keeps (lift-Keeps (payload_of g payload)) λ bs.
          bind-Keeps (lift-Keeps (if c.is_server then normalize_settings settings else ok []))
            λ entries. then-Keeps creates (
              bind-Keeps (choose-Keeps c.is_server (prepares entries) (pure-Keeps []))
                λ prepared. then-Keeps s.clears (completes c.is_server entries prepared bs)))
