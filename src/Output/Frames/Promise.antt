-- ===== src/Output/Frames/Promise.antt =====
-- The two callbacks of one DATA frame together: what `_read_body` promises, `_send_body` can keep.
use ngh.Base.{
  ℕ, ◌+◌, ◌%◌, ◌≤◌, ◌<◌, min, ◌≡◌, refl, sym, ap, ap₂, subst, ◌∙◌, ◌⊎◌, inl, inr, Bool, Bool-cases,
  true, false, not, ◌&&◌, Option, none, some, List, ◌++◌, arith, ◌==◌, if◌then◌else◌,
}
use ngh.Base.Int.{pos_part, is_neg}
use ngh.Base.Lists.{length, take, drop}
use ngh.Base.Dict.{lookup, insert, lookup-insert}
use ngh.Base.Word.{ssize_max, size_mod}
use ngh.Values.{Bytes, Value}
use ngh.Errors.{Result, ok, err, NativeError, done, failure}
use ngh.Engine.{Engine, FrameHead, Reply}
use ngh.Connection.{Connection, BodySource, pure, ◌>>◌}
use ngh.Body.Queue.{contents, pending, IsQueue, BodyIsValid}
use ngh.Callbacks.{replies, guarded}
use ngh.Output.{
  block_of, Prepared, whole_frame, fits_whole, submit_trailers, finish_body, end_body,
  continue_body, store_body, read_body, send_body,
}
use ngh.Output.Buffer.{written, OutputIsValid}
use ngh.Output.Frames.{HasBody, HasRoom, send_body_lem}

-- The same bytes are queued, and the same output stands, as before the call.
pub record Untouched {S : Type 0} (stream_id : ℕ) (b : BodySource) (c d : Connection S)
    : Type 0 where
  pub output : d.output ≡ c.output
  pub output_size : d.output_size ≡ c.output_size
  pub output_remaining : d.output_remaining ≡ c.output_remaining
  pub queued : d.queued_body_size ≡ c.queued_body_size
  pub now : BodySource
  pub found : lookup stream_id d.bodies ≡ some now
  pub chunks : now.chunks ≡ b.chunks
  pub head : now.head ≡ b.head
  pub offset : now.offset ≡ b.offset
  pub queued_size : now.queued_size ≡ b.queued_size

module _ {S : Type 0} (g : Engine S) where
  unchanged :
      (stream_id : ℕ) (b : BodySource) (c : Connection S)
      → lookup stream_id c.bodies ≡ some b
      → Untouched stream_id b c c
  unchanged stream_id b c e = record {
    output = refl;
    output_size = refl;
    output_remaining = refl;
    queued = refl;
    now = b;
    found = e;
    chunks = refl;
    head = refl;
    offset = refl;
    queued_size = refl;
  }

  -- A reply that promises nothing, or one of at most `n` bytes over an untouched queue.
  abbrev Promises : ℕ → ℕ → BodySource → Connection S → Reply × Connection S → Type 0
  Promises n stream_id b c (r, d) =
      (r.no_copy ≡ false)
      ⊎ ((r.status ≡ failure NativeError.deferred) × Untouched stream_id b c d)
      ⊎ ((r.status ≡ done n) × Untouched stream_id b c d)

  -- The trailers are handed over and forgotten, and nothing else changes but the session.
  submit_trailers_ok :
      (stream_id : ℕ) (b : BodySource) (t : List Value) (c : Connection S)
      → (submit_trailers g stream_id b t c).0 ≡ ok tt
      → (submit_trailers g stream_id b t c).1 ≡ record c {
        session = (submit_trailers g stream_id b t c).1.session;
        bodies = insert stream_id (record b { trailers = none }) c.bodies;
      }
  unfolding submit_trailers
  submit_trailers_ok stream_id b t c h = ground arith

  trailers-Untouched :
      (stream_id : ℕ) (b b' : BodySource) (o : Option S) (c : Connection S)
      → b'.chunks ≡ b.chunks
      → b'.head ≡ b.head
      → b'.offset ≡ b.offset
      → b'.queued_size ≡ b.queued_size
      → Untouched stream_id b c (record c { session = o; bodies = insert stream_id b' c.bodies })
  trailers-Untouched stream_id b b' o c e₀ e₁ e₂ e₃ = record {
    output = refl;
    output_size = refl;
    output_remaining = refl;
    queued = refl;
    now = b';
    found = ground (arith, lookup-insert stream_id stream_id b' c.bodies);
    chunks = e₀;
    head = e₁;
    offset = e₂;
    queued_size = e₃;
  }

  -- A step that may raise, and then the reply.
  after-Promises :
      (n stream_id : ℕ) (b : BodySource) (c : Connection S) (q : Reply)
      → q.status ≡ done n
      → (r : Result (Unit {0}) × Connection S) → (r.0 ≡ ok tt → Untouched stream_id b c r.1)
      → Promises n stream_id b c (guarded ((λ _. r) >> pure q) c)
  unfolding guarded
  after-Promises n stream_id b c q e (ok tt, d) u = inr (inr (e, u refl))
  after-Promises n stream_id b c q e (err x, d) u = inl refl

  end_body-Promises :
      (stream_id : ℕ) (p : Prepared g) (b : BodySource) (c : Connection S) (o : Option (List Value))
      → lookup stream_id c.bodies ≡ some b
      → Promises p.copied stream_id b c (guarded (end_body g stream_id p b o) c)
  unfolding end_body guarded
  end_body-Promises stream_id p b c none e = inr (inr (refl, unchanged stream_id b c e))
  end_body-Promises stream_id p b c (some t) e =
      after-Promises p.copied stream_id b c _ refl (submit_trailers g stream_id b t c) λ h.
        subst (Untouched stream_id b c) (sym (submit_trailers_ok stream_id b t c h)) (
          trailers-Untouched stream_id b (record b { trailers = none })
            (submit_trailers g stream_id b t c).1.session c refl refl refl refl)

  continue_body-Promises :
      (stream_id : ℕ) (p : Prepared g) (b : BodySource) (c : Connection S)
      → lookup stream_id c.bodies ≡ some b
      → Promises p.copied stream_id b c (guarded (continue_body g stream_id p b) c)
  unfolding continue_body guarded store_body
  continue_body-Promises stream_id p b c e = elim (Bool-cases (p.copied == 0)) [
    | inl z ↦ rw z (
        inr (
          inl (
            refl,
            trailers-Untouched stream_id b (record b { deferred = true }) c.session c refl refl refl
                refl,
          )))
    | inr nz ↦ rw nz (inr (inr (refl, unchanged stream_id b c e)))
  ]

  finish_body-no_copy :
      (stream_id : ℕ) (p : Prepared g) (b : BodySource) (o : Option (List Value)) (c : Connection S)
      → (guarded (end_body g stream_id p b o) c).0.no_copy ≡ true
      → p.no_copy ≡ true
  unfolding end_body guarded
  finish_body-no_copy stream_id p b none c h = h
  finish_body-no_copy stream_id p b (some t) c h = ground arith

  continue_body-no_copy :
      (stream_id : ℕ) (p : Prepared g) (b : BodySource) (c : Connection S)
      → (guarded (continue_body g stream_id p b) c).0.no_copy ≡ true
      → p.no_copy ≡ true
  unfolding continue_body guarded
  continue_body-no_copy stream_id p b c h = h

  -- NO_COPY is set only where the frame fits whole.
  read_body-no_copy :
      (stream_id size : ℕ) (b : BodySource) (c : Connection S)
      → lookup stream_id c.bodies ≡ some b
      → (read_body g stream_id size c).0.no_copy ≡ true
      → fits_whole g size b c ≡ true
  unfolding read_body
  read_body-no_copy stream_id size b c e h = ground arith

  abbrev finished_body : ℕ → ℕ → BodySource → Connection S → Reply × Connection S
  finished_body stream_id size b =
      let p = whole_frame g size b in
      if p.complete
      then guarded (finish_body g stream_id p b)
      else guarded (continue_body g stream_id p b)

  abbrev paused : Connection S → Bool
  paused c = not (is_neg c.output_remaining) && pos_part c.output_remaining == 0

  read_body-whole :
      (stream_id size : ℕ) (b : BodySource) (c : Connection S)
      → lookup stream_id c.bodies ≡ some b
      → fits_whole g size b c ≡ true
      → paused c ≡ false
      → read_body g stream_id size c ≡ finished_body stream_id size b c
  unfolding read_body
  read_body-whole stream_id size b c e h u = ground arith

  finished_body-Promises :
      (stream_id size : ℕ) (b : BodySource) (c : Connection S)
      → lookup stream_id c.bodies ≡ some b
      → Promises (min size b.queued_size) stream_id b c (finished_body stream_id size b c)
  unfolding finish_body whole_frame continue_body
  finished_body-Promises stream_id size b c e = elim (Bool-cases (whole_frame g size b).complete) [
    | inl h ↦ rw h (end_body-Promises stream_id (whole_frame g size b) b c b.trailers e)
    | inr h ↦ rw h (continue_body-Promises stream_id (whole_frame g size b) b c e)
  ]

  read_body-Promises :
      (stream_id size : ℕ) (b : BodySource) (c : Connection S)
      → lookup stream_id c.bodies ≡ some b
      → (read_body g stream_id size c).0.no_copy ≡ true
      → Promises (min size b.queued_size) stream_id b c (read_body g stream_id size c)
  read_body-Promises stream_id size b c e h = elim (Bool-cases (paused c)) [
    | inl u ↦ unfold read_body in (rw u (inl refl))
    | inr u ↦
        rw (read_body-whole stream_id size b c e (read_body-no_copy stream_id size b c e h) u)
          (finished_body-Promises stream_id size b c e)
  ]

  promise_kept :
      (m n stream_id : ℕ) (b : BodySource) (c : Connection S) (r : Reply × Connection S)
      → Promises m stream_id b c r
      → r.0.no_copy ≡ true
      → r.0.status ≡ done n
      → (n ≡ m) × Untouched stream_id b c r.1
  promise_kept m n stream_id b c r (inl f) nc st = cc
  promise_kept m n stream_id b c r (inr (inl (s, u))) nc st = cc
  promise_kept m n stream_id b c r (inr (inr (s, u))) nc st = let e : n ≡ m = ground arith in (e, u)

  frame_room :
      (size n : ℕ) (b : BodySource) (c : Connection S)
      → fits_whole g size b c ≡ true
      → n ≡ min size b.queued_size
      → n + 9 < size_mod
      → (is_neg c.output_remaining ≡ true) ⊎ (n + 9 ≤ pos_part c.output_remaining)
  unfolding fits_whole
  frame_room size n b c h e small = ground arith

-- The queue of a body is given by four of its fields.
same-pending :
    (b b' : BodySource)
    → b'.chunks ≡ b.chunks
    → b'.head ≡ b.head
    → b'.offset ≡ b.offset
    → pending b' ≡ pending b
same-pending b b' e₀ e₁ e₂ =
    ap (λ k. drop k (contents (drop b'.head b'.chunks))) e₂
    ∙ ap₂ (λ h k. drop b.offset (contents (drop h k))) e₁ e₀

same-IsValid :
    (b b' : BodySource)
    → b'.chunks ≡ b.chunks
    → b'.head ≡ b.head
    → b'.offset ≡ b.offset
    → b'.queued_size ≡ b.queued_size
    → BodyIsValid b
    → BodyIsValid b'
same-IsValid b b' e₀ e₁ e₂ e₃ v = record {
  in_bounds = omega (arith, v.in_bounds, e₁, ap length e₀);
  in_order =
      subst (λ k. IsQueue k (drop b'.head b'.chunks)) (sym e₂)
        (subst (IsQueue b.offset) (sym (ap₂ drop e₁ e₀)) v.in_order);
  counted = e₃ ∙ v.counted ∙ ap (λ k. length k % size_mod) (sym (same-pending b b' e₀ e₁ e₂));
}

module _ {S : Type 0} (g : Engine S) (room : (n : ℕ) → g.allocates n ≡ true) where
  send_body-Untouched :
      (others n : ℕ) (hd : FrameHead) (b : BodySource) (c d : Connection S) (header : Bytes)
      → OutputIsValid c
      → HasBody others hd.stream_id b c
      → HasRoom c n
      → length header ≡ 9
      → n ≤ length (pending b)
      → Untouched hd.stream_id b c d
      → (e : Connection S) × (send_body g hd 0 header n d ≡ (replies (done 0), e))
        × (written e ≡ written c ++ (header ++ take n (pending b)))
  send_body-Untouched others n hd b c d header v hb fits l le u =
      let same : pending u.now ≡ pending b = same-pending b u.now u.chunks u.head u.offset in
      let (e, eq, sends) =
        send_body_lem g room others n hd u.now d header
          (omega (arith, v, u.output_size, ap (λ o. length (block_of o)) u.output))
          (record {
            found = u.found;
            valid = same-IsValid b u.now u.chunks u.head u.offset u.queued_size hb.valid;
            totalled = u.queued ∙ hb.totalled ∙ ap (λ k. (others + length k) % size_mod) (sym same);
          })
          (
            subst (λ r. (is_neg r ≡ true) ⊎ (n + 9 ≤ pos_part r)) (sym u.output_remaining) fits.0,
            omega (arith, fits.1, u.output_size),
          )
          l (omega (arith, le, ap length same)) in
      (
        e,
        eq,
        sends.wrote
            ∙ ap₂ (λ x y. x ++ (header ++ take n y))
                (ap₂ (λ k o. take k (block_of o)) u.output_size u.output) same,
      )

  -- Where `_read_body` answers `n` bytes with NO_COPY, `_send_body` for these `n` bytes does not
  -- fail: the whole frame, its header and the next `n` bytes of the body, stands behind what was
  -- written before both calls. The body is in order and shorter than the address space, memory is
  -- to be had, and the output stays addressable.
  pub read_body-send_body :
      (others size n : ℕ) (hd : FrameHead) (b : BodySource) (c : Connection S) (header : Bytes)
      → OutputIsValid c
      → HasBody others hd.stream_id b c
      → length (pending b) < size_mod
      → (read_body g hd.stream_id size c).0.no_copy ≡ true
      → (read_body g hd.stream_id size c).0.status ≡ done n
      → c.output_size + (n + 9) ≤ ssize_max
      → length header ≡ 9
      → (n ≡ min size (length (pending b)))
        × (e : Connection S) × (send_body g hd 0 header n (read_body g hd.stream_id size c).1
            ≡ (replies (done 0), e))
        × (written e ≡ written c ++ (header ++ take n (pending b)))
  read_body-send_body others size n hd b c header v hb small nc st addr l =
      let (m, u) =
        promise_kept g (min size b.queued_size) n hd.stream_id b c (read_body g hd.stream_id size c)
          (read_body-Promises g hd.stream_id size b c hb.found nc) nc st in
      let q : n ≡ min size (length (pending b)) = omega (arith, m, hb.valid.counted) in
      let (e, eq, wrote) =
        send_body-Untouched others n hd b c (read_body g hd.stream_id size c).1 header v hb
          (
            frame_room g size n b c (read_body-no_copy g hd.stream_id size b c hb.found nc) m
                (omega (arith, addr)),
            addr,
          )
          l (omega (arith, q)) u in
      (q, e, eq, wrote)
