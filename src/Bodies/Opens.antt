-- ===== src/Bodies/Opens.antt =====
-- The bodies over `__init__` and the methods that open a body.
use ngh.Base.{
  false≢true, ℕ, Bool, Option-cases, true, false, none, List, [], ◌∷◌, ◌⊎◌, inl, inr, ◌≡◌, ◌∙◌,
  refl, sym, ◌∙◌, arith,
}
use ngh.Base.Dict.{lookup, insert}
use ngh.Values.{Value}
use ngh.Errors.Results.{Result-cases}
use ngh.Errors.{ok, err, Error}
use ngh.Integers.{stream_id}
use ngh.Config.{Role, Configuration}
use ngh.Engine.{Engine}
use ngh.Connection.{Connection, created, new_body, modify}
use ngh.Setup.{Argument, initialize, keep_limits, installed}
use ngh.Setup.Keeps.{initialize-Keeps}
use ngh.Connection.Keeps.{Keeps}
use ngh.Streams.{send_request, send_response, is_member}
use ngh.Bodies.Ledger.{
  Accounted, Counted-open, Counted-empty, Covered-lookup, Covered-insert, Covered-cons,
}
use ngh.Bodies.Callbacks.{Holds, Accounted-held}
use ngh.Bodies.Steady.{Steady, Steady-Accounted}

is_member_self : (n : ℕ) (rs : List ℕ) → is_member n (n ∷ rs) ≡ true
unfolding is_member
is_member_self n rs = ground arith

module _ {S : Type 0} (g : Engine S) where
  send_request-raises :
      (headers : Value) (ends : Bool) (e : Error) (c : Connection S)
      → (send_request g headers ends c).0 ≡ err e
      → Steady c (send_request g headers ends c).1
  unfolding send_request
  send_request-raises headers ends e c h = ground arith

  send_request-ends :
      (headers : Value) (n : ℕ) (c : Connection S)
      → (send_request g headers true c).0 ≡ ok n
      → Steady c (send_request g headers true c).1
  unfolding send_request
  send_request-ends headers n c h = ground arith

  send_request-opens :
      (headers : Value) (n : ℕ) (c : Connection S)
      → (send_request g headers false c).0 ≡ ok n
      → (c.is_server ≡ false)
        × Holds (insert n new_body c.bodies) c.queued_body_size c (send_request g headers false c).1
  unfolding send_request
  send_request-opens headers n c h = ground arith

  send_response-raises :
      (stream headers : Value) (ends : Bool) (e : Error) (c : Connection S)
      → stream_id stream ≡ err e
      → Steady c (send_response g stream headers ends c).1
  unfolding send_response
  send_response-raises stream headers ends e c h = ground arith

  -- The response becomes pending, and its body is opened or not.
  abbrev Answers : ℕ → Connection S → Connection S → Type 0
  Answers n c d =
      (is_member n c.responses ≡ false)
      × (c.is_server ≡ true)
      × (d.is_server ≡ c.is_server)
      × (d.initialized ≡ c.initialized)
      × (d.responses ≡ n ∷ c.responses)
      × (d.queued_body_size ≡ c.queued_body_size)
      × ((d.bodies ≡ c.bodies) ⊎ (d.bodies ≡ insert n new_body c.bodies))

  send_response-Answers :
      (stream headers : Value) (ends : Bool) (n : ℕ) (c : Connection S)
      → stream_id stream ≡ ok n
      → Steady c (send_response g stream headers ends c).1
        ⊎ Answers n c (send_response g stream headers ends c).1
  unfolding send_response
  send_response-Answers stream headers ends n c h = ground arith

  -- A body on a server that has none for the stream yet.
  unanswered-none :
      (n : ℕ) (c : Connection S)
      → Accounted c
      → c.is_server ≡ true
      → is_member n c.responses ≡ false
      → lookup n c.bodies ≡ none
  unanswered-none n c a s h = elim (Option-cases (lookup n c.bodies)) [
    | inl e ↦ e
    | inr (b, e) ↦ let k = Covered-lookup n b c.bodies c.responses (a.covered s) e in cc
  ]

  Answers-Accounted : (n : ℕ) (c d : Connection S) → Accounted c → Answers n c d → Accounted d
  Answers-Accounted n c d a (h, s, i, ready, rs, q, inl b) = record {
    ready = ready ∙ a.ready;
    counted = rw (b, q) a.counted;
    covered = λ _. rw (b, rs) (Covered-cons n c.bodies c.responses (a.covered s));
  }
  Answers-Accounted n c d a (h, s, i, ready, rs, q, inr b) = record {
    ready = ready ∙ a.ready;
    counted = rw (b, q) (Counted-open n c.bodies a.counted (unanswered-none n c a s h));
    covered = λ _.
        rw (b, rs)
          (Covered-insert n new_body c.bodies (n ∷ c.responses) (is_member_self n c.responses)
            (Covered-cons n c.bodies c.responses (a.covered s)));
  }

  pub send_response-Accounted :
      (stream headers : Value) (ends : Bool) (c : Connection S)
      → Accounted c
      → Accounted (send_response g stream headers ends c).1
  send_response-Accounted stream headers ends c a =
      let d = (send_response g stream headers ends c).1 in
      elim (Result-cases (stream_id stream)) [
        | inl (e, h) ↦ Steady-Accounted c d a (send_response-raises stream headers ends e c h)
        | inr (n, h) ↦ elim (send_response-Answers stream headers ends n c h) [
          | inl k ↦ Steady-Accounted c d a k
          | inr k ↦ Answers-Accounted n c d a k
        ]
      ]

  send_request-made :
      (headers : Value) (ends : Bool) (n : ℕ) (c : Connection S)
      → Accounted c
      → lookup n c.bodies ≡ none
      → (send_request g headers ends c).0 ≡ ok n
      → Accounted (send_request g headers ends c).1
  send_request-made headers true n c a e h =
      Steady-Accounted c (send_request g headers true c).1 a (send_request-ends headers n c h)
  send_request-made headers false n c a e h =
      let (client, held) = send_request-opens headers n c h in
      Accounted-held (insert n new_body c.bodies) c.queued_body_size c
        (send_request g headers false c).1 a (Counted-open n c.bodies a.counted e)
        (λ s. absurd (false≢true (sym client ∙ s))) held

  -- No stream is opened under an identifier that a body still has: the engine never uses an
  -- identifier twice.
  abbrev pub Fresh : Value → Bool → Connection S → Type 0
  Fresh headers ends c =
      (n : ℕ) → (send_request g headers ends c).0 ≡ ok n → lookup n c.bodies ≡ none

  pub send_request-Accounted :
      (headers : Value) (ends : Bool) (c : Connection S)
      → Accounted c
      → Fresh headers ends c
      → Accounted (send_request g headers ends c).1
  send_request-Accounted headers ends c a fresh =
      let d = (send_request g headers ends c).1 in
      elim (Result-cases (send_request g headers ends c).0) [
        | inl (e, h) ↦ Steady-Accounted c d a (send_request-raises headers ends e c h)
        | inr (n, h) ↦ send_request-made headers ends n c a (fresh n h) h
      ]

  pub initialize-done :
      (role : Argument Role) (config : Argument Configuration) (c : Connection S)
      → c.initialized ≡ true
      → (initialize g role config c).1 ≡ c
  unfolding initialize
  initialize-done role config c h = ground arith

  -- No body yet.
  abbrev IsBlank : Connection S → Type 0
  IsBlank c = (c.bodies ≡ []) × (c.queued_body_size ≡ 0)

  keep_limits-IsBlank :
      (auto : Bool) (frame_size settings : ℕ) (config : Configuration)
      → Keeps IsBlank (keep_limits auto frame_size settings config)
  unfolding keep_limits
  keep_limits-IsBlank auto frame_size settings config = record { keeps = λ c h. ground arith }

  installed-IsBlank :
      (role : Role) (config : Configuration) (s : S)
      → Keeps IsBlank (modify (installed g role config s))
  unfolding installed
  installed-IsBlank role config s = record { keeps = λ c h. h }

  pub initialize-Accounted :
      (role : Argument Role) (config : Argument Configuration)
      → (initialize g role config (created S)).1.initialized ≡ true
      → Accounted (initialize g role config (created S)).1
  initialize-Accounted role config h =
      let blank =
        (initialize-Keeps IsBlank keep_limits-IsBlank g role config installed-IsBlank).keeps
          (created S) (refl, refl) in
      record {
        ready = h;
        counted = rw (blank.0, blank.1) Counted-empty;
        covered = λ _. rw blank.0 tt;
      }
