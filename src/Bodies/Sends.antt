-- ===== src/Bodies/Sends.antt =====
-- The bodies over the methods that open them and fill them.
use ngh.Base.{
  ℕ, ◌+◌, ◌%◌, Bool, Option-cases, true, false, none, some, List, ◌++◌, ◌⊎◌, inl, inr, ◌≡◌, refl,
  sym, ◌∙◌, ap, arith, if◌then◌else◌, ◌==◌,
}
use ngh.Base.Lists.{length, length-append}
use ngh.Base.Dict.{lookup-insert_same, lookup, insert, erase}
use ngh.Base.Word.{size_mod, add_size}
use ngh.Values.{Value, Bytes}
use ngh.Errors.Results.{Result-cases}
use ngh.Errors.{Result, ok, err, Error}
use ngh.Integers.{stream_id}
use ngh.Headers.{normalize_headers}
use ngh.Engine.{Engine}
use ngh.Connection.{Connection, BodySource}
use ngh.Body.{append_chunk}
use ngh.Body.Queue.{BodyIsValid, pending, append_chunk_lem}
use ngh.Streams.{send_data, send_trailers, chunk_of}
use ngh.Bodies.Ledger.{Accounted, AllValid-lookup, total, total-erase}
use ngh.Bodies.Callbacks.{
  Holds, Accounted-same, Accounted-mark, Accounted-replace, SameQueue-IsValid,
}
use ngh.Bodies.Steady.{Steady, Steady-Accounted}

-- What `queue_chunk` makes of a body, and of the count.
abbrev filled : BodySource → Bytes → Bool → BodySource
filled b chunk ends = record (append_chunk b chunk) { ended = ends }

abbrev recount : ℕ → Bytes → ℕ
recount queued chunk = if length chunk == 0 then queued else add_size queued (length chunk)

filled-IsValid :
    (b : BodySource) (chunk : Bytes) (ends : Bool)
    → BodyIsValid b
    → BodyIsValid (filled b chunk ends) × (pending (filled b chunk ends) ≡ pending b ++ chunk)
filled-IsValid b chunk ends v =
    let (w, p) = append_chunk_lem b chunk v in
    let (w', p') =
      SameQueue-IsValid (append_chunk b chunk) (filled b chunk ends) w (refl, refl, refl, refl) in
    (w', p' ∙ p)

recount_lem :
    (t q : ℕ) (p chunk : Bytes)
    → q ≡ (t + length p) % size_mod
    → recount q chunk ≡ (t + length (p ++ chunk)) % size_mod
unfolding add_size
recount_lem t q p chunk e = ground (arith, e, length-append p chunk)

module _ {S : Type 0} where
  Accounted-fill :
      (n : ℕ) (b : BodySource) (chunk : Bytes) (ends : Bool) (c d : Connection S)
      → Accounted c
      → lookup n c.bodies ≡ some b
      → Holds (insert n (filled b chunk ends) c.bodies) (recount c.queued_body_size chunk) c d
      → Accounted d
  Accounted-fill n b chunk ends c d a e h =
      let v = filled-IsValid b chunk ends (AllValid-lookup n b c.bodies a.counted.bodies e) in
      let q = a.counted.sum ∙ ap (λ t. t % size_mod) (total-erase n b c.bodies e) in
      Accounted-replace n (recount c.queued_body_size chunk) b (filled b chunk ends) c d a e v.0
        (recount_lem (total (erase n c.bodies)) c.queued_body_size (pending b) chunk q
          ∙ ap (λ k. (total (erase n c.bodies) + length k) % size_mod) (sym v.1))
        h

  -- The connection is left alone or failed, or the body is replaced, and then marked.
  abbrev Noted : ℕ → BodySource → BodySource → ℕ → Connection S → Connection S → Type 0
  Noted n b b' q c d =
      Steady c d
      ⊎ (Holds (insert n b c.bodies) q c d ⊎ Holds (insert n b' (insert n b c.bodies)) q c d)

  Accounted-resumed :
      (n : ℕ) (b : BodySource) (q : ℕ) (c d : Connection S)
      → Accounted c
      → Accounted (record c { bodies = insert n b c.bodies; queued_body_size = q })
      → Noted n b (record b { deferred = false }) q c d
      → Accounted d
  Accounted-resumed n b q c d a k (inl h) = Steady-Accounted c d a h
  Accounted-resumed n b q c d a k (inr (inl h)) =
      Accounted-same (record c { bodies = insert n b c.bodies; queued_body_size = q }) d k h
  Accounted-resumed n b q c d a k (inr (inr h)) =
      Accounted-mark n b (record b { deferred = false })
        (record c { bodies = insert n b c.bodies; queued_body_size = q }) d k
        (lookup-insert_same n b c.bodies) (refl, refl, refl, refl) h

-- An argument is refused, or there is no body to extend.
abbrev Idle : {S A : Type 0} → Result ℕ → Result A → Connection S → Type 0
Idle stream value c =
    ((e : Error) × (stream ≡ err e))
    ⊎ (((e : Error) × (value ≡ err e)) ⊎ ((n : ℕ) × (stream ≡ ok n) × (lookup n c.bodies ≡ none)))

module _ {S : Type 0} (g : Engine S) where
  send_data-Steady :
      (stream value : Value) (ends : Bool) (c : Connection S)
      → Idle (stream_id stream) (chunk_of value) c
      → Steady c (send_data g stream value ends c).1
  unfolding send_data
  send_data-Steady stream value ends c (inl (e, h)) = ground arith
  send_data-Steady stream value ends c (inr (inl (e, h))) = ground arith
  send_data-Steady stream value ends c (inr (inr (n, h, k))) = ground arith

  send_data-Noted :
      (stream value : Value) (ends : Bool) (n : ℕ) (chunk : Bytes) (b : BodySource)
      (c : Connection S)
      → stream_id stream ≡ ok n
      → chunk_of value ≡ ok chunk
      → lookup n c.bodies ≡ some b
      → Noted n
          (filled b chunk ends)
          (record (filled b chunk ends) { deferred = false })
          (recount c.queued_body_size chunk)
          c
          (send_data g stream value ends c).1
  unfolding send_data
  send_data-Noted stream value ends n chunk b c h k e = ground arith

  send_data-Idle :
      (stream value : Value) (ends : Bool) (c : Connection S)
      → Accounted c
      → Idle (stream_id stream) (chunk_of value) c
      → Accounted (send_data g stream value ends c).1
  send_data-Idle stream value ends c a h =
      Steady-Accounted c (send_data g stream value ends c).1 a
        (send_data-Steady stream value ends c h)

  pub send_data-Accounted :
      (stream value : Value) (ends : Bool) (c : Connection S)
      → Accounted c
      → Accounted (send_data g stream value ends c).1
  send_data-Accounted stream value ends c a = elim (Result-cases (stream_id stream)) [
    | inl h ↦ send_data-Idle stream value ends c a (inl h)
    | inr (n, h) ↦ elim (Result-cases (chunk_of value)) [
      | inl k ↦ send_data-Idle stream value ends c a (inr (inl k))
      | inr (chunk, k) ↦ elim (Option-cases (lookup n c.bodies)) [
        | inl e ↦ send_data-Idle stream value ends c a (inr (inr (n, h, e)))
        | inr (b, e) ↦
            let d : Connection S = record c {
              bodies = insert n (filled b chunk ends) c.bodies;
              queued_body_size = recount c.queued_body_size chunk;
            } in
            Accounted-resumed n (filled b chunk ends) (recount c.queued_body_size chunk) c
              (send_data g stream value ends c).1 a
              (Accounted-fill n b chunk ends c d a e (refl, refl, (refl, refl, refl)))
              (send_data-Noted stream value ends n chunk b c h k e)
      ]
    ]
  ]

  send_trailers-Steady :
      (stream headers : Value) (c : Connection S)
      → Idle (stream_id stream) (normalize_headers true headers) c
      → Steady c (send_trailers g stream headers c).1
  unfolding send_trailers
  send_trailers-Steady stream headers c (inl (e, h)) = ground arith
  send_trailers-Steady stream headers c (inr (inl (e, h))) = ground arith
  send_trailers-Steady stream headers c (inr (inr (n, h, k))) = ground arith

  send_trailers-Noted :
      (stream headers : Value) (n : ℕ) (fields : List Value) (b : BodySource) (c : Connection S)
      → stream_id stream ≡ ok n
      → normalize_headers true headers ≡ ok fields
      → lookup n c.bodies ≡ some b
      → let ended = record b { trailers = some fields; ended = true } in
        Noted n ended
          (record ended { deferred = false })
          c.queued_body_size
          c
          (send_trailers g stream headers c).1
  unfolding send_trailers
  send_trailers-Noted stream headers n fields b c h k e = ground arith

  send_trailers-Idle :
      (stream headers : Value) (c : Connection S)
      → Accounted c
      → Idle (stream_id stream) (normalize_headers true headers) c
      → Accounted (send_trailers g stream headers c).1
  send_trailers-Idle stream headers c a h =
      Steady-Accounted c (send_trailers g stream headers c).1 a
        (send_trailers-Steady stream headers c h)

  pub send_trailers-Accounted :
      (stream headers : Value) (c : Connection S)
      → Accounted c
      → Accounted (send_trailers g stream headers c).1
  send_trailers-Accounted stream headers c a = elim (Result-cases (stream_id stream)) [
    | inl h ↦ send_trailers-Idle stream headers c a (inl h)
    | inr (n, h) ↦ elim (Result-cases (normalize_headers true headers)) [
      | inl k ↦ send_trailers-Idle stream headers c a (inr (inl k))
      | inr (fields, k) ↦ elim (Option-cases (lookup n c.bodies)) [
        | inl e ↦ send_trailers-Idle stream headers c a (inr (inr (n, h, e)))
        | inr (b, e) ↦
            let ended : BodySource = record b { trailers = some fields; ended = true } in
            let d : Connection S = record c { bodies = insert n ended c.bodies } in
            Accounted-resumed n ended c.queued_body_size c (send_trailers g stream headers c).1 a
              (Accounted-mark n b ended c d a e (refl, refl, refl, refl)
                (refl, refl, (refl, refl, refl)))
              (send_trailers-Noted stream headers n fields b c h k e)
      ]
    ]
  ]
