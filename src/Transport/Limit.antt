-- ===== src/Transport/Limit.antt =====
-- The limit of `data_to_send`.
use ngh.Base.{
  ℕ, ◌≤◌, ◌≡◌, refl, inl, inr, Bool-cases, Option-cases, true, false, not, ◌||◌, none, some, [],
  arith, ◌==◌,
}
use ngh.Base.Int.{pos}
use ngh.Base.Lists.{length}
use ngh.Values.{Bytes, Value}
use ngh.Errors.{connection_state, null_session, Status, done, failure, Result, ok, err}
use ngh.Integers.{nonnegative_size}
use ngh.Engine.{Engine}
use ngh.Connection.{Connection, Action, ◌>>=◌, raise_callback_or_native}
use ngh.Output.Buffer.{length-resize}
use ngh.Drive.{drive, run}
use ngh.Drive.Limit.{Counts, Heeds, Completes, drive-Completes}
use ngh.Transport.{
  limit_of, take_output, or_fail, update_if_closing, send_output, send_within, data_to_send,
}

-- What is returned has no more than `limit` bytes.
abbrev pub Within : {S : Type 0} → ℕ → Result Bytes × Connection S → Type 0
Within limit (ok output, c) = length output ≤ limit
Within limit (err e, c) = Unit

limit_of-nonnegative_size :
    (amount : Value) (n : ℕ) → nonnegative_size amount ≡ ok n → limit_of amount ≡ ok (pos n)
unfolding limit_of nonnegative_size
limit_of-nonnegative_size amount n h = ground arith

module _ {S : Type 0} where
  Within-trans :
      (n limit : ℕ) (r : Result Bytes × Connection S) → Within n r → n ≤ limit → Within limit r
  Within-trans n limit (ok output, c) h le = omega (arith, h, le)
  Within-trans n limit (err e, c) h le = tt

  take_output-Within : (c : Connection S) → Within c.output_size (take_output c)
  unfolding take_output
  take_output-Within c = elim (Option-cases c.output) [
    | inl e ↦ rw e (omega arith)
    | inr (block, e) ↦ rw e (omega (arith, length-resize block c.output_size))
  ]

  or_fail-Within :
      (limit : ℕ) (m : Action S Bytes) (c : Connection S)
      → Within limit (m c)
      → Within limit (or_fail m c)
  unfolding or_fail
  or_fail-Within limit m c h = ground arith

  -- The output is handed on, and the limit is off.
  abbrev kept : Result Bytes × Connection S → Result Bytes × Connection S
  kept (r, d) = elim r [
    | ok output ↦ (ok output, record d { output_remaining = pos 0 })
    | err e ↦ (err e, d)
  ]

  kept-Within :
      (limit : ℕ) (r : Result Bytes × Connection S) → Within limit r → Within limit (kept r)
  kept-Within limit (ok output, d) h = h
  kept-Within limit (err e, d) h = tt

module _ {S : Type 0} (g : Engine S) where
  -- What follows the native call.
  abbrev after_send : Status → Action S Bytes
  after_send status =
      raise_callback_or_native g status >>= λ taken. update_if_closing g >>= λ u. take_output

  update_if_closing-size :
      (c : Connection S) → (update_if_closing g c).1.output_size ≡ c.output_size
  unfolding update_if_closing
  update_if_closing-size c = ground arith

  -- The output is taken once the connection was found closing or not.
  abbrev after_update : Result (Unit {0}) × Connection S → Result Bytes × Connection S
  after_update (r, d) = elim r [ ok u ↦ take_output d | err e ↦ (err e, d) ]

  after_update-Within :
      (limit : ℕ) (r : Result (Unit {0}) × Connection S)
      → r.1.output_size ≤ limit
      → Within limit (after_update r)
  after_update-Within limit (ok u, d) h =
      Within-trans d.output_size limit (take_output d) (take_output-Within d) h
  after_update-Within limit (err e, d) h = tt

  after_send-Within :
      (limit : ℕ) (r : Status × Connection S)
      → Completes limit r
      → Within limit (after_send r.0 r.1)
  unfolding raise_callback_or_native
  after_send-Within limit (done n, d) h =
      after_update-Within limit (update_if_closing g d)
        (omega (arith, update_if_closing-size d, h.1))
  after_send-Within limit (failure code, d) h = elim (Option-cases d.callback_error) [
    | inl e ↦ rw e tt
    | inr (error, e) ↦ rw e tt
  ]

  send_output-after_send :
      (s : S) (c : Connection S)
      → c.session ≡ some s
      → send_output g c ≡ after_send (drive g (g.send s) c).0 (drive g (g.send s) c).1
  unfolding send_output run
  send_output-after_send s c e = rw e refl

  send_output_null : (c : Connection S) → c.session ≡ none → send_output g c ≡ (err null_session, c)
  unfolding send_output run
  send_output_null c e = rw e refl

  send_output-Within :
      (limit : ℕ) (c : Connection S)
      → ((s : S) → Heeds (g.send s))
      → Counts limit c
      → Within limit (send_output g c)
  send_output-Within limit c heeds h = elim (Option-cases c.session) [
    | inl e ↦ rw (send_output_null c e) tt
    | inr (s, e) ↦ rw (send_output-after_send s c e) (
        after_send-Within limit (drive g (g.send s) c)
          (drive-Completes g limit (g.send s) c (heeds s) h))
  ]

  abbrev within_limit : ℕ → Connection S → Connection S
  within_limit limit c = record c {
    output_size = 0;
    output_remaining = pos limit;
    callback_error = none;
  }

  send_within-Within :
      (limit : ℕ) (c : Connection S)
      → ((s : S) → Heeds (g.send s))
      → Within limit (send_within g (pos limit) c)
  unfolding send_within
  send_within-Within limit c heeds =
      kept-Within limit (or_fail (send_output g) (within_limit limit c)) (
        or_fail-Within limit (send_output g) (within_limit limit c)
          (send_output-Within limit (within_limit limit c) heeds (refl, omega arith)))

  data_to_send_failed :
      (limit : ℕ) (amount : Value) (c : Connection S)
      → limit_of amount ≡ ok (pos limit)
      → c.failed ≡ true
      → data_to_send g amount c ≡ (err connection_state, c)
  unfolding data_to_send
  data_to_send_failed limit amount c e f = ground arith

  data_to_send_idle :
      (limit : ℕ) (amount : Value) (c : Connection S)
      → limit_of amount ≡ ok (pos limit)
      → c.failed ≡ false
      → limit == 0 || not c.active ≡ true
      → data_to_send g amount c ≡ (ok [], c)
  unfolding data_to_send
  data_to_send_idle limit amount c e f k = ground arith

  data_to_send-send_within :
      (limit : ℕ) (amount : Value) (c : Connection S)
      → limit_of amount ≡ ok (pos limit)
      → c.failed ≡ false
      → limit == 0 || not c.active ≡ false
      → data_to_send g amount c ≡ send_within g (pos limit) c
  unfolding data_to_send
  data_to_send-send_within limit amount c e f k = ground arith

  -- Where the engine ends a call after a failed callback, whatever else it does and whichever
  -- callbacks it makes, `data_to_send` with a limit never returns more bytes than the limit.
  pub data_to_send-Within :
      (limit : ℕ) (amount : Value) (c : Connection S)
      → ((s : S) → Heeds (g.send s))
      → nonnegative_size amount ≡ ok limit
      → Within limit (data_to_send g amount c)
  data_to_send-Within limit amount c heeds e =
      let l = limit_of-nonnegative_size amount limit e in
      elim (Bool-cases c.failed) [
        | inl f ↦ rw (data_to_send_failed limit amount c l f) tt
        | inr f ↦ elim (Bool-cases (limit == 0 || not c.active)) [
          | inl k ↦ rw (data_to_send_idle limit amount c l f k) (omega arith)
          | inr k ↦
              rw (data_to_send-send_within limit amount c l f k) (send_within-Within limit c heeds)
        ]
      ]
