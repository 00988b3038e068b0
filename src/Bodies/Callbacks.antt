-- ===== src/Bodies/Callbacks.antt =====
-- What each callback makes of the bodies of its connection.
use ngh.Base.{ℕ, ◌+◌, ◌%◌, ◌≡◌, refl, sym, ap, ◌∙◌, ◌⊎◌, true, none, some, arith}
use ngh.Base.Lists.{length}
use ngh.Base.Dict.{Dict, lookup, insert, erase}
use ngh.Base.Word.{size_mod, sub_size}
use ngh.Values.{Bytes}
use ngh.Errors.{ok}
use ngh.Engine.{Engine, Reply, FrameHead}
use ngh.Connection.{Connection, BodySource}
use ngh.Body.{Copy, copy_body}
use ngh.Body.Queue.{pending, BodyIsValid}
use ngh.Body.Loop.{CopyResult, copy_body_lem}
use ngh.Callbacks.{guarded}
use ngh.Output.{
  collect_output, accept_output, reserve_output, grow_output, send_body, read_body, send_frame,
}
use ngh.Lifecycle.{stream_closed, discard}
use ngh.Bodies.Ledger.{
  Counted, Covered, Accounted, total, AllValid-lookup, total-erase, Counted-replace, Covered-lookup,
  Covered-insert,
}

-- The fields around the bodies are as they were.
abbrev pub SameStreams : {S : Type 0} → Connection S → Connection S → Type 0
SameStreams c d =
    (d.responses ≡ c.responses) × (d.is_server ≡ c.is_server) × (d.initialized ≡ c.initialized)

-- The bodies and their count are these, and nothing around them changed.
abbrev pub Holds : {S : Type 0} → Dict BodySource → ℕ → Connection S → Connection S → Type 0
Holds bodies queued c d = (d.bodies ≡ bodies) × (d.queued_body_size ≡ queued) × SameStreams c d

-- The queue is the same, whatever is noted about its end.
abbrev pub SameQueue : BodySource → BodySource → Type 0
SameQueue b b' =
    (b'.chunks ≡ b.chunks)
    × (b'.head ≡ b.head)
    × (b'.offset ≡ b.offset)
    × (b'.queued_size ≡ b.queued_size)

pub SameQueue-IsValid :
    (b b' : BodySource) → BodyIsValid b → SameQueue b b' → BodyIsValid b' × (pending b' ≡ pending b)
SameQueue-IsValid b b' v (cs, h, o, q) = (
  record {
    in_bounds = rw (cs, h) v.in_bounds;
    in_order = rw (cs, h, o) v.in_order;
    counted = rw (cs, h, o, q) v.counted;
  },
  rw (cs, h, o) refl,
)

module _ {S : Type 0} where
  pub Accounted-held :
      (bodies : Dict BodySource) (queued : ℕ) (c d : Connection S)
      → Accounted c
      → Counted bodies queued
      → (c.is_server ≡ true → Covered bodies c.responses)
      → Holds bodies queued c d
      → Accounted d
  Accounted-held bodies queued c d a k v h = record {
    ready = h.2.2 ∙ a.ready;
    counted = rw (h.0, h.1) k;
    covered = λ s. rw (h.0, h.2.0) (v (sym h.2.1 ∙ s));
  }

  pub Accounted-same :
      (c d : Connection S) → Accounted c → Holds c.bodies c.queued_body_size c d → Accounted d
  Accounted-same c d a h = Accounted-held c.bodies c.queued_body_size c d a a.counted a.covered h

  -- A stream's body is replaced by another that is in order.
  pub Accounted-replace :
      (n queued : ℕ) (b b' : BodySource) (c d : Connection S)
      → Accounted c
      → lookup n c.bodies ≡ some b
      → BodyIsValid b'
      → queued ≡ (total (erase n c.bodies) + length (pending b')) % size_mod
      → Holds (insert n b' c.bodies) queued c d
      → Accounted d
  Accounted-replace n queued b b' c d a e v q h =
      Accounted-held (insert n b' c.bodies) queued c d a
        (Counted-replace n queued b b' c.bodies a.counted e v q)
        (λ s.
          Covered-insert n b' c.bodies c.responses
            (Covered-lookup n b c.bodies c.responses (a.covered s) e) (a.covered s))
        h

  -- Something is noted about a body's end: its queue stays.
  pub Accounted-mark :
      (n : ℕ) (b b' : BodySource) (c d : Connection S)
      → Accounted c
      → lookup n c.bodies ≡ some b
      → SameQueue b b'
      → Holds (insert n b' c.bodies) c.queued_body_size c d
      → Accounted d
  Accounted-mark n b b' c d a e m h =
      let v = AllValid-lookup n b c.bodies a.counted.bodies e in
      let (w, p) = SameQueue-IsValid b b' v m in
      Accounted-replace n c.queued_body_size b b' c d a e w
        (a.counted.sum
          ∙ ap (λ t. t % size_mod)
              (total-erase n b c.bodies e ∙ ap (λ k. total (erase n c.bodies) + length k) (sym p)))
        h

  -- What `_copy_body` does to a body of the connection.
  pub copied :
      (n size : ℕ) (b : BodySource) (c : Connection S)
      → Accounted c
      → lookup n c.bodies ≡ some b
      → (s : Copy) × (copy_body b c.queued_body_size size ≡ ok s)
        × CopyResult (total (erase n c.bodies)) size b s
  copied n size b c a e =
      copy_body_lem (total (erase n c.bodies)) size c.queued_body_size b
        (AllValid-lookup n b c.bodies a.counted.bodies e)
        (a.counted.sum ∙ ap (λ t. t % size_mod) (total-erase n b c.bodies e))

  pub Accounted-copied :
      (n size : ℕ) (b : BodySource) (s : Copy) (c d : Connection S)
      → Accounted c
      → lookup n c.bodies ≡ some b
      → CopyResult (total (erase n c.bodies)) size b s
      → Holds (insert n s.body c.bodies) s.total c d
      → Accounted d
  Accounted-copied n size b s c d a e r h =
      Accounted-replace n s.total b s.body c d a e r.valid.valid r.valid.totalled h

module _ {S : Type 0} (g : Engine S) where
  -- Nothing changes, or the copied body is stored.
  abbrev pub Stores : ℕ → Copy → Connection S → Reply × Connection S → Type 0
  Stores n s c (reply, d) =
      Holds c.bodies c.queued_body_size c d ⊎ Holds (insert n s.body c.bodies) s.total c d

  abbrev pub Stays : Connection S → Reply × Connection S → Type 0
  Stays c (reply, d) = Holds c.bodies c.queued_body_size c d

  accept_output-Stays : (p : Bytes) (c : Connection S) → Stays c (guarded (accept_output g p) c)
  unfolding accept_output guarded reserve_output grow_output
  accept_output-Stays p c = ground arith

  pub collect_output-Stays : (p : Bytes) (c : Connection S) → Stays c (collect_output g p c)
  unfolding collect_output
  collect_output-Stays p c = ground arith

  pub send_frame-Stores :
      (n size : ℕ) (head : Bytes) (b : BodySource) (s : Copy) (c : Connection S)
      → copy_body b c.queued_body_size size ≡ ok s
      → Stores n s c (guarded (send_frame g n head size b) c)
  unfolding send_frame guarded reserve_output grow_output
  send_frame-Stores n size head b s c e = ground arith

  pub send_body-Stays :
      (hd : FrameHead) (padlen : ℕ) (head : Bytes) (size : ℕ) (c : Connection S)
      → lookup hd.stream_id c.bodies ≡ none
      → Stays c (send_body g hd padlen head size c)
  unfolding send_body
  send_body-Stays hd padlen head size c e = ground arith

  pub send_body-send_frame :
      (hd : FrameHead) (padlen : ℕ) (head : Bytes) (size : ℕ) (b : BodySource) (c : Connection S)
      → lookup hd.stream_id c.bodies ≡ some b
      → Stays c (send_body g hd padlen head size c)
        ⊎ (send_body g hd padlen head size c ≡ guarded (send_frame g hd.stream_id head size b) c)
  unfolding send_body
  send_body-send_frame hd padlen head size b c e = ground arith

  pub stream_closed-drops :
      (n code : ℕ) (b : BodySource) (c : Connection S)
      → lookup n c.bodies ≡ some b
      → let d = (stream_closed g n code c).1 in
        (d.bodies ≡ erase n c.bodies)
        × (d.queued_body_size ≡ sub_size c.queued_body_size b.queued_size)
        × ((d.responses ≡ c.responses) ⊎ (d.responses ≡ discard n c.responses))
        × (d.is_server ≡ c.is_server)
        × (d.initialized ≡ c.initialized)
  unfolding stream_closed
  stream_closed-drops n code b c e = ground arith

  pub stream_closed-none :
      (n code : ℕ) (c : Connection S)
      → lookup n c.bodies ≡ none
      → let d = (stream_closed g n code c).1 in
        (d.bodies ≡ c.bodies)
        × (d.queued_body_size ≡ c.queued_body_size)
        × ((d.responses ≡ c.responses) ⊎ (d.responses ≡ discard n c.responses))
        × (d.is_server ≡ c.is_server)
        × (d.initialized ≡ c.initialized)
  unfolding stream_closed
  stream_closed-none n code c e = ground arith

  -- How `_read_body` leaves the bodies, where it finds one.
  abbrev pub Reads : ℕ → BodySource → Copy → Connection S → Reply × Connection S → Type 0
  Reads n b s c (reply, d) =
      Holds c.bodies c.queued_body_size c d
      ⊎ (Holds (insert n (record b { deferred = true }) c.bodies) c.queued_body_size c d
          ⊎ (Holds (insert n (record b { trailers = none }) c.bodies) c.queued_body_size c d
              ⊎ (Holds (insert n s.body c.bodies) s.total c d
                  ⊎ (Holds (insert n (record s.body { deferred = true }) (insert n s.body c.bodies))
                        s.total c d
                      ⊎ Holds
                          (insert n (record s.body { trailers = none }) (insert n s.body c.bodies))
                          s.total c d))))

  pub read_body-Stays :
      (n size : ℕ) (c : Connection S) → lookup n c.bodies ≡ none → Stays c (read_body g n size c)
  unfolding read_body
  read_body-Stays n size c e = ground arith

  pub read_body-Reads :
      (n size : ℕ) (b : BodySource) (s : Copy) (c : Connection S)
      → lookup n c.bodies ≡ some b
      → copy_body b c.queued_body_size size ≡ ok s
      → lookup n (insert n s.body c.bodies) ≡ some s.body
      → Reads n b s c (read_body g n size c)
  unfolding read_body
  read_body-Reads n size b s c e f k = ground arith
