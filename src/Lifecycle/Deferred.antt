-- ===== src/Lifecycle/Deferred.antt =====
-- A reset that waits for the end of its stream: `reset_stream(…, after_end_stream=True)` and
-- `_frame_sent` of src/ngh2/_core.pyx.
use ngh.Base.{
  ℕ, Bool, true, false, Option, none, some, ◌≡◌, ◌≢◌, ◌⊎◌, inl, inr, refl, ap, ◌∙◌, arith,
  if◌then◌else◌, Bool-cases,
}
use ngh.Base.Dict.{lookup, insert, erase, lookup-insert, lookup-erase_self, IsDict, insert-IsDict}
use ngh.Values.{Value}
use ngh.Errors.{ok, done}
use ngh.Integers.{stream_id, uint32}
use ngh.Engine.{Engine, headers_frame, data_frame, Frame}
use ngh.Connection.{Connection}
use ngh.Streams.{reset_stream}
use ngh.Receive.{call_or_raise}
use ngh.Callbacks.{guarded, replies}
use ngh.Base.Lists.{List-cases}
use ngh.Lifecycle.{
  frame_sent, end_of_stream, reset_if_open, remember_goaway, has_resets, ended_stream, stream_frame,
}

-- A DATA or HEADERS frame that ends the stream.
abbrev pub EndsStream : ℕ → Frame → Type 0
EndsStream n (headers_frame hd category) = (hd.end_stream ≡ true) × (hd.stream_id ≡ n)
EndsStream n (data_frame hd padlen) = (hd.end_stream ≡ true) × (hd.stream_id ≡ n)
EndsStream n _ = ⊥

is_open : (o : Option Bool) → (o ≡ some false) ⊎ (o ≢ some false)
is_open none = inr λ e. cc
is_open (some true) = inr λ e. cc
is_open (some false) = inl refl

module _ {S : Type 0} (g : Engine S) where
  -- A reset that waits for the end of the stream is noted.
  reset_noted :
      (stream code : Value) (n k : ℕ) (s : S) (c : Connection S)
      → stream_id stream ≡ ok n
      → uint32 code ≡ ok k
      → c.session ≡ some s
      → g.stream_local_close n s ≡ some false
      → (reset_stream g stream code true c).0 ≡ ok tt
      → reset_stream g stream code true c
        ≡ (ok tt, record c { deferred_resets = insert n k c.deferred_resets })
  unfolding reset_stream
  reset_noted stream code n k s c h j e l r = ground arith

  has_resets-lookup :
      (n k : ℕ) (c : Connection S) → lookup n c.deferred_resets ≡ some k → has_resets g c ≡ true
  unfolding has_resets
  has_resets-lookup n k c e = elim (List-cases c.deferred_resets) [
    | inl p ↦ cc
    | inr (x, xs, p) ↦ rw p refl
  ]

  frame_sent-ends :
      (n : ℕ) (c : Connection S) (frame : Frame)
      → EndsStream n frame
      → frame_sent g frame c
        ≡ (if has_resets g c then guarded (end_of_stream g n) c else (replies (done 0), c))
  unfolding frame_sent ended_stream stream_frame remember_goaway
  frame_sent-ends n c (headers_frame hd category) (e, i) = ground arith
  frame_sent-ends n c (data_frame hd padlen) (e, i) = ground arith
  frame_sent-ends n c _ h = absurd h

  end_of_stream-submits :
      (n k : ℕ) (s : S) (c : Connection S)
      → c.session ≡ some s
      → lookup n c.deferred_resets ≡ some k
      → g.stream_remote_close n s ≡ some false
      → ((guarded (end_of_stream g n) c).1.session ≡ some (g.submit_rst_stream n k s).1)
        × ((guarded (end_of_stream g n) c).1.deferred_resets ≡ erase n c.deferred_resets)
  unfolding end_of_stream guarded reset_if_open call_or_raise
  end_of_stream-submits n k s c e l r = rw (guarded, end_of_stream, l, reset_if_open) (ground arith)

  end_of_stream-spares :
      (n k : ℕ) (s : S) (c : Connection S)
      → c.session ≡ some s
      → lookup n c.deferred_resets ≡ some k
      → g.stream_remote_close n s ≢ some false
      → ((guarded (end_of_stream g n) c).1.session ≡ some s)
        × ((guarded (end_of_stream g n) c).1.deferred_resets ≡ erase n c.deferred_resets)
  unfolding end_of_stream guarded reset_if_open call_or_raise
  end_of_stream-spares n k s c e l r = rw (guarded, end_of_stream, l, reset_if_open) (ground arith)

  end_of_stream-leaves :
      (n : ℕ) (c : Connection S)
      → lookup n c.deferred_resets ≡ none
      → (guarded (end_of_stream g n) c).1.session ≡ c.session
  unfolding end_of_stream guarded reset_if_open call_or_raise
  end_of_stream-leaves n c l = ground arith

  -- What the frame that ends a stream does where a reset waits, and where none does.
  frame_sent-submits :
      (n k : ℕ) (s : S) (c : Connection S) (frame : Frame)
      → EndsStream n frame
      → c.session ≡ some s
      → lookup n c.deferred_resets ≡ some k
      → g.stream_remote_close n s ≡ some false
      → ((frame_sent g frame c).1.session ≡ some (g.submit_rst_stream n k s).1)
        × ((frame_sent g frame c).1.deferred_resets ≡ erase n c.deferred_resets)
  frame_sent-submits n k s c frame e h l r =
      rw (frame_sent-ends n c frame e, has_resets-lookup n k c l)
        (end_of_stream-submits n k s c h l r)

  frame_sent-spares :
      (n k : ℕ) (s : S) (c : Connection S) (frame : Frame)
      → EndsStream n frame
      → c.session ≡ some s
      → lookup n c.deferred_resets ≡ some k
      → g.stream_remote_close n s ≢ some false
      → ((frame_sent g frame c).1.session ≡ some s)
        × ((frame_sent g frame c).1.deferred_resets ≡ erase n c.deferred_resets)
  frame_sent-spares n k s c frame e h l r =
      rw (frame_sent-ends n c frame e, has_resets-lookup n k c l)
        (end_of_stream-spares n k s c h l r)

  frame_sent-leaves :
      (n : ℕ) (c : Connection S) (frame : Frame)
      → EndsStream n frame
      → lookup n c.deferred_resets ≡ none
      → (frame_sent g frame c).1.session ≡ c.session
  frame_sent-leaves n c frame e l =
      rw (frame_sent-ends n c frame e) (elim (Bool-cases (has_resets g c)) [
        | inl h ↦ rw h (end_of_stream-leaves n c l)
        | inr h ↦ rw h refl
      ])

  -- What becomes of the session when the stream has ended: the reset is submitted, unless the peer
  -- has ended the stream too or the engine does not know it any more.
  abbrev pub Resets : ℕ → ℕ → S → Option S → Type 0
  Resets n k s session =
      ((g.stream_remote_close n s ≡ some false) × (session ≡ some (g.submit_rst_stream n k s).1))
      ⊎ ((g.stream_remote_close n s ≢ some false) × (session ≡ some s))

  frame_sent-Resets :
      (n k : ℕ) (s : S) (c : Connection S) (frame : Frame)
      → EndsStream n frame
      → c.session ≡ some s
      → lookup n c.deferred_resets ≡ some k
      → Resets n k s (frame_sent g frame c).1.session
        × ((frame_sent g frame c).1.deferred_resets ≡ erase n c.deferred_resets)
  frame_sent-Resets n k s c frame e h l = elim (is_open (g.stream_remote_close n s)) [
    | inl r ↦
        let (session, erased) = frame_sent-submits n k s c frame e h l r in
        (inl (r, session), erased)
    | inr r ↦
        let (session, erased) = frame_sent-spares n k s c frame e h l r in
        (inr (r, session), erased)
  ]

  -- A `reset_stream` that is to wait for the end of its stream leaves the session alone when it
  -- succeeds, while the stream's own direction is still open. The DATA or HEADERS frame that then
  -- ends the stream submits the reset with the caller's code exactly if the stream is still there
  -- and the peer has not ended it, and leaves the session alone otherwise; another such frame
  -- submits none.
  pub deferred_reset_lem :
      (stream code : Value) (n k : ℕ) (s : S) (c : Connection S) (frame : Frame)
      → stream_id stream ≡ ok n
      → uint32 code ≡ ok k
      → c.session ≡ some s
      → IsDict c.deferred_resets
      → g.stream_local_close n s ≡ some false
      → (reset_stream g stream code true c).0 ≡ ok tt
      → EndsStream n frame
      → let d = (reset_stream g stream code true c).1 in
        let e = (frame_sent g frame d).1 in
        (d.session ≡ some s)
        × Resets n k s e.session
        × ((frame_sent g frame e).1.session ≡ e.session)
  deferred_reset_lem stream code n k s c frame hs hc h dict l done_ ends =
      let d : Connection S = record c { deferred_resets = insert n k c.deferred_resets } in
      let p : (reset_stream g stream code true c).1 ≡ d =
        ap (λ q. q.1) (reset_noted stream code n k s c hs hc h l done_) in
      let (submitted, erased) =
        frame_sent-Resets n k s d frame ends h
          (ground (arith, lookup-insert n n k c.deferred_resets)) in
      let gone : lookup n (frame_sent g frame d).1.deferred_resets ≡ none =
        ap (lookup n) erased
        ∙ lookup-erase_self n (insert n k c.deferred_resets)
            (insert-IsDict n k c.deferred_resets dict) in
      rw p (h, submitted, frame_sent-leaves n (frame_sent g frame d).1 frame ends gone)
