-- ===== src/Streams/Final.antt =====
-- A server answers a request with one final response.
use ngh.Base.{ℕ, Bool, true, ◌≡◌, ◌≢◌, arith}
use ngh.Values.{Value}
use ngh.Errors.{ok}
use ngh.Integers.{stream_id}
use ngh.Engine.{Engine}
use ngh.Connection.{Connection}
use ngh.Streams.{send_response, send_informational_response, is_member}

module _ {S : Type 0} (g : Engine S) where
  answered :
      (stream headers : Value) (ends : Bool) (n : ℕ) (c : Connection S)
      → stream_id stream ≡ ok n
      → (send_response g stream headers ends c).0 ≡ ok tt
      → is_member n (send_response g stream headers ends c).1.responses ≡ true
  unfolding send_response is_member
  answered stream headers ends n c h k = ground arith

  send_response_again :
      (stream headers : Value) (ends : Bool) (n : ℕ) (d : Connection S)
      → stream_id stream ≡ ok n
      → is_member n d.responses ≡ true
      → ((send_response g stream headers ends d).0 ≢ ok tt)
        × ((send_response g stream headers ends d).1 ≡ d)
  unfolding send_response
  send_response_again stream headers ends n d h k = ground arith

  informational_again :
      (stream headers : Value) (n : ℕ) (d : Connection S)
      → stream_id stream ≡ ok n
      → is_member n d.responses ≡ true
      → ((send_informational_response g stream headers d).0 ≢ ok tt)
        × ((send_informational_response g stream headers d).1 ≡ d)
  unfolding send_informational_response
  informational_again stream headers n d h k = ground arith

  -- Once `send_response` has succeeded on a stream, no further response on it succeeds, final or
  -- informational, with any headers, and the attempt changes nothing.
  pub final_response_once :
      (stream headers again : Value) (ends ends_again : Bool) (n : ℕ) (c : Connection S)
      → stream_id stream ≡ ok n
      → (send_response g stream headers ends c).0 ≡ ok tt
      → let d = (send_response g stream headers ends c).1 in
        ((send_response g stream again ends_again d).0 ≢ ok tt)
        × ((send_response g stream again ends_again d).1 ≡ d)
        × ((send_informational_response g stream again d).0 ≢ ok tt)
        × ((send_informational_response g stream again d).1 ≡ d)
  final_response_once stream headers again ends ends_again n c h k =
      let d = (send_response g stream headers ends c).1 in
      let m = answered stream headers ends n c h k in
      let (raised, same) = send_response_again stream again ends_again n d h m in
      let (raised', same') = informational_again stream again n d h m in
      (raised, same, raised', same')
