-- ===== src/Bodies/Runs.antt =====
-- The bodies over a native call, whatever the engine calls back.
use ngh.Base.{
  ℕ, List, ◌≡◌, refl, sym, subst, ◌∙◌, inl, inr, Option-cases, ◌⊎◌, true, none, some, arith,
}
use ngh.Base.Dict.{lookup-insert_same, Dict, lookup, insert, erase, lookup-erase_self}
use ngh.Body.Loop.{CopyResult}
use ngh.Values.{Bytes}
use ngh.Errors.{ok, err, null_session}
use ngh.Engine.{Engine, Run, finished, calls, Callback, Reply, FrameHead}
use ngh.Connection.{Connection, BodySource}
use ngh.Body.{Copy}
use ngh.Callbacks.{guarded}
use ngh.Output.{collect_output, send_body, read_body, send_frame}
use ngh.Receive.{begin_headers, header, begin_frame, data_chunk, frame_received, invalid_header}
use ngh.Lifecycle.{stream_closed, frame_sent, frame_not_sent, discard}
use ngh.Drive.Quiet.{
  Quiet, begin_headers-Quiet, header-Quiet, data_chunk-Quiet, frame_received-Quiet,
  begin_frame-Quiet, frame_sent-Quiet, frame_not_sent-Quiet,
}
use ngh.Drive.{dispatch, drive, session_or, run}
use ngh.Bodies.Ledger.{total, Covered, Accounted, Counted-drop, Covered-erase, Covered-discard}
use ngh.Bodies.Callbacks.{
  Accounted-same, Accounted-mark, Accounted-copied, copied, Stores, Stays, Reads,
  collect_output-Stays, read_body-Stays, read_body-Reads, send_frame-Stores, send_body-Stays,
  send_body-send_frame, stream_closed-drops, stream_closed-none,
}

module _ {S : Type 0} (g : Engine S) where
  Stays-Accounted :
      (c : Connection S) (r : Reply × Connection S) → Accounted c → Stays g c r → Accounted r.1
  Stays-Accounted c (reply, d) a h = Accounted-same c d a h

  Quiet-Accounted :
      (c : Connection S) (r : Reply × Connection S) → Accounted c → Quiet c r → Accounted r.1
  Quiet-Accounted c (reply, d) a (size, left, b, q, rs, i, n, k) =
      Accounted-same c d a (b, q, (rs, i, n))

  Stores-Accounted :
      (n size : ℕ) (b : BodySource) (s : Copy) (c : Connection S) (r : Reply × Connection S)
      → Accounted c
      → lookup n c.bodies ≡ some b
      → CopyResult (total (erase n c.bodies)) size b s
      → Stores g n s c r
      → Accounted r.1
  Stores-Accounted n size b s c (reply, d) a e k (inl h) = Accounted-same c d a h
  Stores-Accounted n size b s c (reply, d) a e k (inr h) = Accounted-copied n size b s c d a e k h

  send_frame-Accounted :
      (n size : ℕ) (head : Bytes) (b : BodySource) (c : Connection S)
      → Accounted c
      → lookup n c.bodies ≡ some b
      → Accounted (guarded (send_frame g n head size b) c).1
  send_frame-Accounted n size head b c a e =
      let (s, k, r) = copied n size b c a e in
      Stores-Accounted n size b s c (guarded (send_frame g n head size b) c) a e r
        (send_frame-Stores g n size head b s c k)

  send_body-Accounted :
      (hd : FrameHead) (padlen : ℕ) (head : Bytes) (size : ℕ) (c : Connection S)
      → Accounted c
      → Accounted (send_body g hd padlen head size c).1
  send_body-Accounted hd padlen head size c a = elim (Option-cases (lookup hd.stream_id c.bodies)) [
    | inl e ↦
        Stays-Accounted c (send_body g hd padlen head size c) a
          (send_body-Stays g hd padlen head size c e)
    | inr (b, e) ↦ elim (send_body-send_frame g hd padlen head size b c e) [
      | inl h ↦ Stays-Accounted c (send_body g hd padlen head size c) a h
      | inr p ↦ rw p (send_frame-Accounted hd.stream_id size head b c a e)
    ]
  ]

  Reads-Accounted :
      (n size : ℕ) (b : BodySource) (s : Copy) (c : Connection S) (r : Reply × Connection S)
      → Accounted c
      → lookup n c.bodies ≡ some b
      → CopyResult (total (erase n c.bodies)) size b s
      → Reads g n b s c r
      → Accounted r.1
  Reads-Accounted n size b s c (reply, d) a e k h =
      let stored : Connection S = record c {
        bodies = insert n s.body c.bodies;
        queued_body_size = s.total;
      } in
      let after : Accounted stored =
        Accounted-copied n size b s c stored a e k (refl, refl, (refl, refl, refl)) in
      let now : lookup n stored.bodies ≡ some s.body = lookup-insert_same n s.body c.bodies in
      elim h [
        | inl h ↦ Accounted-same c d a h
        | inr (inl h) ↦
            Accounted-mark n b (record b { deferred = true }) c d a e (refl, refl, refl, refl) h
        | inr (inr (inl h)) ↦
            Accounted-mark n b (record b { trailers = none }) c d a e (refl, refl, refl, refl) h
        | inr (inr (inr (inl h))) ↦ Accounted-copied n size b s c d a e k h
        | inr (inr (inr (inr (inl h)))) ↦
            Accounted-mark n s.body (record s.body { deferred = true }) stored d after now
              (refl, refl, refl, refl) h
        | inr (inr (inr (inr (inr h)))) ↦
            Accounted-mark n s.body (record s.body { trailers = none }) stored d after now
              (refl, refl, refl, refl) h
      ]

  read_body-Accounted :
      (n size : ℕ) (c : Connection S) → Accounted c → Accounted (read_body g n size c).1
  read_body-Accounted n size c a = elim (Option-cases (lookup n c.bodies)) [
    | inl e ↦ Stays-Accounted c (read_body g n size c) a (read_body-Stays g n size c e)
    | inr (b, e) ↦
        let (s, k, r) = copied n size b c a e in
        Reads-Accounted n size b s c (read_body g n size c) a e r
          (read_body-Reads g n size b s c e k (lookup-insert_same n s.body c.bodies))
  ]

  -- The bodies after a stream has ended: its response is no longer pending.
  closed-Covered :
      (n : ℕ) (d : Dict BodySource) (rs rs' : List ℕ)
      → lookup n d ≡ none
      → Covered d rs
      → (rs' ≡ rs) ⊎ (rs' ≡ discard n rs)
      → Covered d rs'
  closed-Covered n d rs rs' e v (inl p) = rw p v
  closed-Covered n d rs rs' e v (inr p) = rw p (Covered-discard n d rs e v)

  stream_closed-Accounted :
      (n code : ℕ) (c : Connection S) → Accounted c → Accounted (stream_closed g n code c).1
  stream_closed-Accounted n code c a = elim (Option-cases (lookup n c.bodies)) [
    | inl e ↦
        let (b, q, rs, i, ready) = stream_closed-none g n code c e in
        record {
          ready = ready ∙ a.ready;
          counted = rw (b, q) a.counted;
          covered = λ s. rw b (
              closed-Covered n c.bodies c.responses (stream_closed g n code c).1.responses e
                (a.covered (sym i ∙ s)) rs);
        }
    | inr (body, e) ↦
        let (b, q, rs, i, ready) = stream_closed-drops g n code body c e in
        record {
          ready = ready ∙ a.ready;
          counted = rw (b, q) (Counted-drop n body c.bodies a.counted e);
          covered = λ s. rw b (
              closed-Covered n (erase n c.bodies) c.responses (stream_closed g n code c).1.responses
                (lookup-erase_self n c.bodies a.counted.keys)
                (Covered-erase n c.bodies c.responses (a.covered (sym i ∙ s))) rs);
        }
  ]

  dispatch-Accounted :
      (callback : Callback) (c : Connection S) → Accounted c → Accounted (dispatch g callback c).1
  unfolding dispatch invalid_header
  dispatch-Accounted (Callback.collect_output payload) c a =
      Stays-Accounted c (collect_output g payload c) a (collect_output-Stays g payload c)
  dispatch-Accounted (Callback.send_body hd padlen head size) c a =
      send_body-Accounted hd padlen head size c a
  dispatch-Accounted (Callback.data_frame_length stream_id remote_max) c a = a
  dispatch-Accounted (Callback.read_body stream_id size) c a =
      read_body-Accounted stream_id size c a
  dispatch-Accounted (Callback.begin_frame is_data size stream_id) c a =
      Quiet-Accounted c (begin_frame g is_data size stream_id c) a
        (begin_frame-Quiet g is_data size stream_id c)
  dispatch-Accounted Callback.begin_headers c a =
      Quiet-Accounted c (begin_headers c) a (begin_headers-Quiet c)
  dispatch-Accounted (Callback.header name value no_index) c a =
      Quiet-Accounted c (header name value no_index c) a (header-Quiet name value no_index c)
  dispatch-Accounted Callback.invalid_header c a = a
  dispatch-Accounted (Callback.data_chunk stream_id fragment) c a =
      Quiet-Accounted c (data_chunk stream_id fragment c) a (data_chunk-Quiet stream_id fragment c)
  dispatch-Accounted (Callback.frame_received frame) c a =
      Quiet-Accounted c (frame_received frame c) a (frame_received-Quiet frame c)
  dispatch-Accounted (Callback.stream_closed stream_id code) c a =
      stream_closed-Accounted stream_id code c a
  dispatch-Accounted (Callback.frame_not_sent frame code) c a =
      Quiet-Accounted c (frame_not_sent g frame code c) a (frame_not_sent-Quiet g frame code c)
  dispatch-Accounted (Callback.frame_sent frame) c a =
      Quiet-Accounted c (frame_sent g frame c) a (frame_sent-Quiet g frame c)
  dispatch-Accounted (Callback.random_bytes size) c a = a

  with_session-Accounted :
      (s : S) (c : Connection S) → Accounted c → Accounted (record c { session = some s })
  with_session-Accounted s c a = record {
    ready = a.ready;
    counted = a.counted;
    covered = a.covered;
  }

  drive-Accounted : (r : Run S) (c : Connection S) → Accounted c → Accounted (drive g r c).1
  unfolding drive
  drive-Accounted (finished status s) c a = with_session-Accounted s c a
  drive-Accounted (calls callback s resume) c a =
      let (reply, d) = dispatch g callback (record c { session = some s }) in
      drive-Accounted (resume reply (session_or g s d)) d
        (dispatch-Accounted callback (record c { session = some s }) (with_session-Accounted s c a))

  run-none :
      (f : S → Run S) (c : Connection S) → c.session ≡ none → run g f c ≡ (err null_session, c)
  unfolding run
  run-none f c e = ground arith

  run-some :
      (f : S → Run S) (s : S) (c : Connection S)
      → c.session ≡ some s
      → run g f c ≡ (ok (drive g (f s) c).0, (drive g (f s) c).1)
  unfolding run
  run-some f s c e = ground arith

  pub run-Accounted : (f : S → Run S) (c : Connection S) → Accounted c → Accounted (run g f c).1
  run-Accounted f c a = elim (Option-cases c.session) [
    | inl e ↦ subst (λ r. Accounted r.1) (sym (run-none f c e)) a
    | inr (s, e) ↦ subst (λ r. Accounted r.1) (sym (run-some f s c e)) (drive-Accounted (f s) c a)
  ]
