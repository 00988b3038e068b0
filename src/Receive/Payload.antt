-- ===== src/Receive/Payload.antt =====
-- One DATA frame from its header to its event.
use mathlib.Core.List.{append_assoc, append-nil, flatten}
use ngh.Base.{
  ℕ, ◌+◌, ◌≤◌, ◌<◌, ◌≡◌, refl, sym, ap, subst, ◌∙◌, ◌⊎◌, inl, inr, Bool, true, false, none, some,
  List, [], ◌∷◌, ◌++◌, arith, if◌then◌else◌,
}
use ngh.Base.Lists.{
  length, take, replicate, write_at, length-append, length-replicate, length-write_at,
  take-write_at,
}
use ngh.Base.Dict.{get_or, lookup-insert}
use ngh.Base.Word.{size_mod, ssize_max}
use ngh.Values.{Bytes}
use ngh.Errors.{done, failure, callback_failure, internal}
use ngh.Events.{data_received}
use ngh.Engine.{Engine, Reply, FrameHead}
use ngh.Connection.{Connection}
use ngh.Callbacks.{replies}
use ngh.Receive.{begin_frame, data_chunk, data_frame_received, frame_payload}

-- A frame of `size` bytes for the stream was opened on `c₀`, and `got` has arrived since.
pub record Assembles {S : Type 0} (c₀ : Connection S) (size stream_id : ℕ) (got : Bytes)
    (c : Connection S) : Type 0 where
  pub block : Bytes
  pub allocated : c.data_payload ≡ some block
  pub capacity : length block ≡ size
  pub arrived : take (length got) block ≡ got
  pub counted : c.data_size ≡ length got
  pub stream : c.data_stream_id ≡ stream_id
  pub events : c.events ≡ c₀.events
  pub unconsumed : c.unconsumed ≡ c₀.unconsumed
  pub auto : c.auto_window_update ≡ c₀.auto_window_update

-- The callbacks for the fragments, as far as they succeed; the answer says whether all did.
abbrev pub receive_fragments : {S : Type 0} → ℕ → List Bytes → Connection S → Bool × Connection S
receive_fragments stream_id [] c = (true, c)
receive_fragments stream_id (fragment ∷ fragments) c =
    let (reply, d) = data_chunk stream_id fragment c in
    let rest = receive_fragments stream_id fragments d in
    elim reply.status [ done _ ↦ rest | failure _ ↦ (false, d) ]

-- What the fragments come to.
abbrev pub Gathers : {S : Type 0} → Connection S → ℕ → ℕ → Bytes → Bool × Connection S → Type 0
Gathers c₀ size stream_id got (all, d) =
    ((length got ≤ size) × (all ≡ true) × Assembles c₀ size stream_id got d)
    ⊎ ((size < length got) × (all ≡ false) × (d.callback_error ≡ some internal))

abbrev Step : {S : Type 0} → Connection S → ℕ → ℕ → Bytes → Bytes → Reply × Connection S → Type 0
Step c₀ size stream_id got fragment (reply, d) =
    ((length got + length fragment ≤ size)
      × (reply ≡ replies (done 0))
      × Assembles c₀ size stream_id (got ++ fragment) d)
    ⊎ ((size < length got + length fragment)
        × (reply ≡ replies (failure callback_failure))
        × (d.callback_error ≡ some internal))

-- The connection after a fragment that fits.
abbrev written : {S : Type 0} → Bytes → Bytes → Bytes → Connection S → Connection S
written block got fragment c = record c {
  data_payload = some (write_at block (length got) fragment);
  data_size = length got + length fragment;
}

abbrev Answers :
    {S : Type 0} → ℕ → Bytes → Bytes → Bytes → Connection S → Reply × Connection S → Type 0
Answers size got fragment block c r =
    ((length got + length fragment ≤ size) × (r ≡ (replies (done 0), written block got fragment c)))
    ⊎ ((size < length got + length fragment)
        × (r ≡ (replies (failure callback_failure), record c { callback_error = some internal })))

module _ {S : Type 0} where
  data_chunk-Answers :
      (size stream_id : ℕ) (got fragment block : Bytes) (c : Connection S)
      → c.data_payload ≡ some block
      → length block ≡ size
      → c.data_size ≡ length got
      → c.data_stream_id ≡ stream_id
      → length got + length fragment < size_mod
      → Answers size got fragment block c (data_chunk stream_id fragment c)
  unfolding data_chunk
  data_chunk-Answers size stream_id got fragment block c e₀ e₁ e₂ e₃ small = ground arith

module _ {S : Type 0} (c₀ : Connection S) (size stream_id : ℕ) (bounded : size ≤ ssize_max) where
  written-Assembles :
      (got fragment : Bytes) (c : Connection S)
      → (a : Assembles c₀ size stream_id got c) → length got + length fragment ≤ size
      → Assembles c₀ size stream_id (got ++ fragment) (written a.block got fragment c)
  written-Assembles got fragment c a h = record {
    block = write_at a.block (length got) fragment;
    allocated = refl;
    capacity = length-write_at a.block (length got) fragment ∙ a.capacity;
    arrived =
        ap (λ k. take k (write_at a.block (length got) fragment)) (length-append got fragment)
        ∙ take-write_at a.block (length got) fragment (omega (arith, a.capacity, h))
        ∙ ap (λ k. k ++ fragment) a.arrived;
    counted = sym (length-append got fragment);
    stream = a.stream;
    events = a.events;
    unconsumed = a.unconsumed;
    auto = a.auto;
  }

  Answers-Step :
      (got fragment : Bytes) (c : Connection S) (r : Reply × Connection S)
      → (a : Assembles c₀ size stream_id got c) → Answers size got fragment a.block c r
      → Step c₀ size stream_id got fragment r
  Answers-Step got fragment c (reply, d) a (inl (h, e)) = inl (
    h,
    ap (λ k. k.0) e,
    subst (Assembles c₀ size stream_id (got ++ fragment)) (sym (ap (λ k. k.1) e))
        (written-Assembles got fragment c a h),
  )
  Answers-Step got fragment c (reply, d) a (inr (h, e)) =
      inr (h, ap (λ k. k.0) e, ap (λ k. k.1.callback_error) e)

  -- The rest of the frame, after the answer to one fragment.
  abbrev after_fragment : List Bytes → Reply × Connection S → Bool × Connection S
  after_fragment fs (reply, d) =
      let rest = receive_fragments stream_id fs d in
      elim reply.status [ done _ ↦ rest | failure _ ↦ (false, d) ]

  after_fragment-Gathers :
      (got fragment : Bytes) (fs : List Bytes) (r : Reply × Connection S)
      → Step c₀ size stream_id got fragment r
      → ((d : Connection S)
          → Assembles c₀ size stream_id (got ++ fragment) d
          → length (got ++ fragment) ≤ size
          → Gathers c₀ size stream_id
              (got ++ (fragment ++ flatten fs))
              (receive_fragments stream_id fs d))
      → Gathers c₀ size stream_id (got ++ (fragment ++ flatten fs)) (after_fragment fs r)
  after_fragment-Gathers got fragment fs (reply, d) (inl (h, er, a)) ih =
      subst
        (λ q.
          Gathers c₀ size stream_id (got ++ (fragment ++ flatten fs)) (after_fragment fs (q, d)))
        (sym er) (ih d a (omega (arith, h, length-append got fragment)))
  after_fragment-Gathers got fragment fs (reply, d) (inr (h, er, e)) ih =
      subst
        (λ q.
          Gathers c₀ size stream_id (got ++ (fragment ++ flatten fs)) (after_fragment fs (q, d)))
        (sym er)
        (inr (
          omega (
            arith,
            h,
            length-append got (fragment ++ flatten fs),
            length-append fragment (flatten fs),
          ),
          refl,
          e,
        ))

  receive_fragments-Gathers :
      (fs : List Bytes) (got : Bytes) (c : Connection S)
      → length (flatten fs) ≤ ssize_max
      → Assembles c₀ size stream_id got c
      → length got ≤ size
      → Gathers c₀ size stream_id (got ++ flatten fs) (receive_fragments stream_id fs c)
  unfolding flatten
  receive_fragments-Gathers [] got c small a h =
      subst (λ k. Gathers c₀ size stream_id k (true, c)) (sym (append-nil got)) (inl (h, refl, a))
  receive_fragments-Gathers (f ∷ fs) got c small a h =
      after_fragment-Gathers got f fs (data_chunk stream_id f c)
        (Answers-Step got f c (data_chunk stream_id f c) a (
          data_chunk-Answers size stream_id got f a.block c a.allocated a.capacity a.counted
            a.stream (omega (arith, small, h, bounded, length-append f (flatten fs)))))
        λ d b le.
          subst (λ k. Gathers c₀ size stream_id k (receive_fragments stream_id fs d))
            (append_assoc got f (flatten fs))
            (receive_fragments-Gathers fs (got ++ f) d
              (omega (arith, small, length-append f (flatten fs))) b le)

-- The frame is handed over: its event, and the bytes that the application has to give back.
abbrev pub HandsOver : {S : Type 0} → Connection S → FrameHead → Bytes → Connection S → Type 0
HandsOver c₀ hd payload d =
    (d.events ≡ c₀.events ++ data_received hd.stream_id payload hd.end_stream ∷ [])
    × (get_or hd.stream_id 0 d.unconsumed
        ≡ get_or hd.stream_id 0 c₀.unconsumed
          + (if c₀.auto_window_update then 0 else length payload))
    × (d.data_payload ≡ none)
    × (d.data_size ≡ 0)

module _ {S : Type 0} where
  frame_payload-Assembles :
      (c₀ : Connection S) (size stream_id : ℕ) (got : Bytes) (c : Connection S)
      → Assembles c₀ size stream_id got c
      → frame_payload c ≡ got
  unfolding frame_payload
  frame_payload-Assembles c₀ size stream_id [] c a = ground (arith, a.counted)
  frame_payload-Assembles c₀ size stream_id (x ∷ got) c a =
      ground (arith, a.counted, a.allocated, a.arrived)

  data_frame_received-HandsOver :
      (hd : FrameHead) (payload : Bytes) (c : Connection S)
      → frame_payload c ≡ payload
      → HandsOver c hd payload (data_frame_received hd c)
  unfolding data_frame_received
  data_frame_received-HandsOver hd payload c e = rw e (
    ground arith,
    ground (
      arith,
      lookup-insert hd.stream_id hd.stream_id (get_or hd.stream_id 0 c.unconsumed + length payload)
          c.unconsumed,
    ),
    ground arith,
    ground arith,
  )

  HandsOver-from :
      (c₀ : Connection S) (size stream_id : ℕ) (got : Bytes) (hd : FrameHead) (c d : Connection S)
      → Assembles c₀ size stream_id got c
      → HandsOver c hd got d
      → HandsOver c₀ hd got d
  HandsOver-from c₀ size stream_id got hd c d a (e, f, p, q) = (
    e ∙ ap (λ k. k ++ data_received hd.stream_id got hd.end_stream ∷ []) a.events,
    f
        ∙ ap (λ k. get_or hd.stream_id 0 k + (if c.auto_window_update then 0 else length got))
            a.unconsumed
        ∙ ap (λ k. get_or hd.stream_id 0 c₀.unconsumed + (if k then 0 else length got)) a.auto,
    p,
    q,
  )

module _ {S : Type 0} (g : Engine S) where
  opened : ℕ → ℕ → Connection S → Connection S
  opened size stream_id c = record c {
    data_payload = some (replicate size 0);
    data_size = 0;
    data_stream_id = stream_id;
  }

  begin_frame-opened :
      (size stream_id : ℕ) (c : Connection S)
      → c.data_size ≡ 0
      → g.allocates size ≡ true
      → begin_frame g true size stream_id c ≡ (replies (done 0), opened size stream_id c)
  unfolding begin_frame opened
  begin_frame-opened size stream_id c e a = ground arith

  opened-Assembles :
      (size stream_id : ℕ) (c : Connection S)
      → Assembles c size stream_id [] (opened size stream_id c)
  unfolding opened
  opened-Assembles size stream_id c = record {
    block = replicate size 0;
    allocated = refl;
    capacity = length-replicate size 0;
    arrived = refl;
    counted = refl;
    stream = refl;
    events = refl;
    unconsumed = refl;
    auto = refl;
  }

  -- A DATA frame that is announced with its size, with no frame still open, is assembled from the
  -- fragments of its payload, whatever their number and sizes. If they fit the size, all are taken,
  -- and the end of the frame publishes one DataReceived event with their concatenation and the
  -- END_STREAM flag of the frame, adds the bytes to the stream's balance exactly if flow control is
  -- manual, and closes the buffer. If they do not fit, the fragment that exceeds the size is refused with an
  -- InternalError.
  pub data_frame_lem :
      (size : ℕ) (fragments : List Bytes) (hd : FrameHead) (c : Connection S)
      → c.data_size ≡ 0
      → g.allocates size ≡ true
      → size ≤ ssize_max
      → length (flatten fragments) ≤ ssize_max
      → let (reply, opening) = begin_frame g true size hd.stream_id c in
        let (all, d) = receive_fragments hd.stream_id fragments opening in
        (reply ≡ replies (done 0))
        × (((length (flatten fragments) ≤ size)
              × (all ≡ true)
              × HandsOver c hd (flatten fragments) (data_frame_received hd d))
            ⊎ ((size < length (flatten fragments))
                × (all ≡ false)
                × (d.callback_error ≡ some internal)))
  data_frame_lem size fragments hd c e a bounded small =
      rw (begin_frame-opened size hd.stream_id c e a) (
        refl,
        elim (receive_fragments-Gathers c size hd.stream_id bounded fragments []
            (opened size hd.stream_id c) small (opened-Assembles size hd.stream_id c)
            (omega arith)) [
              | inl (h, all, b) ↦ inl (
                h,
                all,
                HandsOver-from c size hd.stream_id (flatten fragments) hd
                    (receive_fragments hd.stream_id fragments (opened size hd.stream_id c)).1
                    (data_frame_received hd
                      (receive_fragments hd.stream_id fragments (opened size hd.stream_id c)).1)
                    b
                    (data_frame_received-HandsOver hd (flatten fragments)
                      (receive_fragments hd.stream_id fragments (opened size hd.stream_id c)).1
                      (frame_payload-Assembles c size hd.stream_id (flatten fragments)
                        (receive_fragments hd.stream_id fragments (opened size hd.stream_id c)).1
                        b)),
              )
              | inr h ↦ inr h
            ],
      )
