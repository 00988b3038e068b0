-- ===== src/Closing/Reason.antt =====
-- What a ConnectionClosed event says.
use ngh.Base.{ℕ, ap₂, ◌∙◌, false, ◌≡◌, refl, true, false, some, [], ◌∷◌, ◌++◌, arith}
use ngh.Values.{Bytes}
use ngh.Engine.{Engine, FrameHead, goaway_frame}
use ngh.Events.{new_connection_closed}
use ngh.Connection.{Connection}
use ngh.Receive.{frame_received}
use ngh.Lifecycle.{frame_sent}
use ngh.Transport.{update_if_closing}

module _ {S : Type 0} (g : Engine S) where
  -- The GOAWAY is kept as the reason to close.
  received_reason :
      (hd : FrameHead) (last code : ℕ) (debug_data : Bytes) (c : Connection S)
      → let d = (frame_received (goaway_frame hd last code debug_data) c).1 in
        (d.closing ≡ true)
        × (d.close_error_code ≡ code)
        × (d.close_debug_data ≡ debug_data)
        × (d.session ≡ c.session)
        × (d.active ≡ c.active)
        × (d.closed ≡ c.closed)
  unfolding frame_received
  received_reason hd last code debug_data c = (refl, refl, refl, refl, refl, refl)

  sent_reason :
      (hd : FrameHead) (last code : ℕ) (debug_data : Bytes) (c : Connection S)
      → let d = (frame_sent g (goaway_frame hd last code debug_data) c).1 in
        (d.closing ≡ true)
        × (d.close_error_code ≡ code)
        × (d.close_debug_data ≡ debug_data)
        × (d.session ≡ c.session)
        × (d.active ≡ c.active)
        × (d.closed ≡ c.closed)
  unfolding frame_sent
  sent_reason hd last code debug_data c = ground arith

  closes :
      (s : S) (d : Connection S)
      → d.closing ≡ true
      → d.session ≡ some s
      → d.active ≡ true
      → d.closed ≡ false
      → g.want_read s ≡ false
      → g.want_write s ≡ false
      → let e = (update_if_closing g d).1 in
        (e.events ≡ d.events ++ new_connection_closed d.close_error_code d.close_debug_data ∷ [])
        × (e.closed ≡ true)
        × (e.bodies ≡ [])
  unfolding update_if_closing
  closes s d h1 h2 h3 h4 h5 h6 = ground arith

  -- The connection closes with that reason, in one event, and keeps no body.
  abbrev pub Closes : ℕ → Bytes → Connection S → Type 0
  Closes code debug_data d =
      let e = (update_if_closing g d).1 in
      (e.events ≡ d.events ++ new_connection_closed code debug_data ∷ [])
      × (e.closed ≡ true)
      × (e.bodies ≡ [])

  update-Closes :
      (s : S) (code : ℕ) (debug_data : Bytes) (c d : Connection S)
      → c.session ≡ some s
      → c.active ≡ true
      → c.closed ≡ false
      → g.want_read s ≡ false
      → g.want_write s ≡ false
      → (d.closing ≡ true)
        × (d.close_error_code ≡ code)
        × (d.close_debug_data ≡ debug_data)
        × (d.session ≡ c.session)
        × (d.active ≡ c.active)
        × (d.closed ≡ c.closed)
      → Closes code debug_data d
  update-Closes s code debug_data c d hs ha hc hr hw (closing, k, p, session, active, closed) =
      let (events, closes_, bodies) =
        closes s d closing (session ∙ hs) (active ∙ ha) (closed ∙ hc) hr hw in
      (events ∙ ap₂ (λ x y. d.events ++ new_connection_closed x y ∷ []) k p, closes_, bodies)

  -- On an active connection that is not closed, a GOAWAY, received or sent, becomes the reason of
  -- its end: when the engine then wants neither to read nor to write, one ConnectionClosed event
  -- with the code and the debug data of the GOAWAY is published, the connection is closed and its
  -- bodies are dropped.
  pub goaway-Closes :
      (s : S) (hd : FrameHead) (last code : ℕ) (debug_data : Bytes) (c : Connection S)
      → c.session ≡ some s
      → c.active ≡ true
      → c.closed ≡ false
      → g.want_read s ≡ false
      → g.want_write s ≡ false
      → Closes code debug_data (frame_received (goaway_frame hd last code debug_data) c).1
        × Closes code debug_data (frame_sent g (goaway_frame hd last code debug_data) c).1
  goaway-Closes s hd last code debug_data c hs ha hc hr hw = (
    update-Closes s code debug_data c (frame_received (goaway_frame hd last code debug_data) c).1 hs
        ha hc hr hw (received_reason hd last code debug_data c),
    update-Closes s code debug_data c (frame_sent g (goaway_frame hd last code debug_data) c).1 hs
        ha hc hr hw (sent_reason hd last code debug_data c),
  )
