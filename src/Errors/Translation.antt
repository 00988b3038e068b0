-- ===== src/Errors/Translation.antt =====
-- What the translation of the engine's error codes promises to the caller.
use ngh.Base.{◌≡◌, true, arith}
use ngh.Errors.{NativeError, frame_not_sent_error, is_ngh2_instance}

-- A delayed failure that an event carries is always an NGH2Error, whatever code the engine gave.
pub frame_not_sent_error-is_ngh2_instance :
    (code : NativeError) → is_ngh2_instance (frame_not_sent_error code) ≡ true
unfolding frame_not_sent_error
frame_not_sent_error-is_ngh2_instance code = ground arith
