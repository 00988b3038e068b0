-- ===== src/Callbacks.antt =====
-- How a callback ends: `_callback_failed` of src/ngh2/_core.pyx, the `try` around each callback's
-- body, and `_random_bytes`, the one callback that swallows its exception.
use ngh.Base.{ℕ, false, none, some, []}
use ngh.Base.Lists.{replicate}
use ngh.Errors.{Error, ok, err, Status, done, failure, callback_failure}
use ngh.Engine.{Engine, Reply}
use ngh.Connection.{Connection, Action}

-- A return value, with no flag set and nothing written.
abbrev pub replies : Status → Reply
replies status = record {
  status = status;
  no_copy = false;
  eof = false;
  no_end_stream = false;
  buffer = [];
}

module _ {S : Type 0} where
  -- `_callback_failed`
  unfoldable pub callback_failed : Error → Connection S → Reply × Connection S
  callback_failed error c =
      (replies (failure callback_failure), record c { callback_error = some error })

  -- `try: … except BaseException as error: return _callback_failed(connection, error)`
  unfoldable pub guarded : Action S Reply → Connection S → Reply × Connection S
  unfolding callback_failed
  guarded body c =
      let (result, d) = body c in
      elim result [ ok reply ↦ (reply, d) | err error ↦ callback_failed error d ]

-- `_random_bytes`: zeros where the system gives no randomness.
unfoldable pub random_bytes : {S : Type 0} → Engine S → ℕ → Reply
random_bytes g size = record {
  status = done 0;
  no_copy = false;
  eof = false;
  no_end_stream = false;
  buffer = elim (g.urandom size) [ none ↦ replicate size 0 | some value ↦ value ];
}
