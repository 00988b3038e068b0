-- ===== src/Body/Fifo.antt =====
-- A body as the byte queue that it stands for, over any sequence of appends and copies.
use mathlib.Core.List.{append_assoc, append-nil}
use ngh.Base.{ℕ, ◌≡◌, refl, sym, ap, ◌∙◌, List, [], ◌∷◌, ◌++◌, arith}
use ngh.Base.Lists.{take, drop, take-append-drop}
use ngh.Values.{Bytes}
use ngh.Errors.{Result, ok, ◌>>=◌}
use ngh.Connection.{BodySource, new_body}
use ngh.Body.{copy_body, append_chunk}
use ngh.Body.Queue.{pending, BodyIsValid, append_chunk_lem}
use ngh.Body.Loop.{copy_body_lem}

-- What happens to the body of a stream: the application appends a chunk, or a frame takes up to
-- `size` bytes.
pub data Use : Type 0 where
  append : Bytes → Use
  copy : ℕ → Use

-- All that is appended, in order.
abbrev pub appended : List Use → Bytes
appended [] = []
appended (append chunk ∷ uses) = chunk ++ appended uses
appended (copy size ∷ uses) = appended uses

-- The queue itself: what is taken from it and what is left in it.
abbrev pub queue : List Use → Bytes → Bytes × Bytes
queue [] q = ([], q)
queue (append chunk ∷ uses) q = queue uses (q ++ chunk)
queue (copy size ∷ uses) q =
    let (out, rest) = queue uses (drop size q) in (take size q ++ out, rest)

-- The body that the code keeps, and what it copies out.
abbrev pub uses_of : List Use → BodySource → Result (Bytes × BodySource)
uses_of [] b = ok ([], b)
uses_of (append chunk ∷ uses) b = uses_of uses (append_chunk b chunk)
uses_of (copy size ∷ uses) b = do
  s ← copy_body b b.queued_size size
  (out, rest) ← uses_of uses s.body
  ok (s.copied ++ out, rest)

abbrev Refines : List Use → BodySource → Bytes → Type 0
Refines uses b q =
    (rest : BodySource) × (uses_of uses b ≡ ok ((queue uses q).0, rest))
    × (pending rest ≡ (queue uses q).1)
    × BodyIsValid rest

uses_of-Refines :
    (uses : List Use) (b : BodySource) (q : Bytes)
    → BodyIsValid b
    → pending b ≡ q
    → Refines uses b q
uses_of-Refines [] b q v h = (b, refl, h, v)
uses_of-Refines (append chunk ∷ uses) b q v h =
    let (w, p) = append_chunk_lem b chunk v in
    uses_of-Refines uses (append_chunk b chunk) (q ++ chunk) w (p ∙ ap (λ k. k ++ chunk) h)
uses_of-Refines (copy size ∷ uses) b q v h =
    let (s, e, r) = copy_body_lem 0 size b.queued_size b v (omega (arith, v.counted)) in
    let (rest, e', p, w) =
      uses_of-Refines uses s.body (drop size q) r.valid.valid (r.left ∙ ap (drop size) h) in
    (
      rest,
      rw (e, e')
          (ap {B = Result (Bytes × BodySource)} (λ k. ok (k ++ (queue uses (drop size q)).0, rest))
            (r.bytes ∙ ap (take size) h)),
      p,
      w,
    )

-- Nothing is lost, added or reordered.
queue_lem :
    (uses : List Use) (q : Bytes) → (queue uses q).0 ++ (queue uses q).1 ≡ q ++ appended uses
queue_lem [] q = sym (append-nil q)
queue_lem (append chunk ∷ uses) q =
    queue_lem uses (q ++ chunk) ∙ append_assoc q chunk (appended uses)
queue_lem (copy size ∷ uses) q =
    append_assoc (take size q) (queue uses (drop size q)).0 (queue uses (drop size q)).1
    ∙ ap (◌++◌ (take size q)) (queue_lem uses (drop size q))
    ∙ sym (append_assoc (take size q) (drop size q) (appended uses))
    ∙ ap (λ k. k ++ appended uses) (take-append-drop size q)

new_body-Valid : BodyIsValid new_body
new_body-Valid = record { in_bounds = omega arith; in_order = refl; counted = refl }

-- Over any sequence of appends and copies of any sizes on a new body, no copy raises, the bytes that
-- are copied out are those that a plain byte queue gives, and together with the bytes that are left
-- they are all the appended bytes in order.
pub body_refines_queue :
    (uses : List Use)
    → (b : BodySource) × (uses_of uses new_body ≡ ok ((queue uses []).0, b))
      × (pending b ≡ (queue uses []).1)
      × ((queue uses []).0 ++ pending b ≡ appended uses)
body_refines_queue uses =
    let (b, e, p, v) = uses_of-Refines uses new_body [] new_body-Valid refl in
    (b, e, p, ap (λ k. (queue uses []).0 ++ k) p ∙ queue_lem uses [])
