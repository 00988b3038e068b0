-- ===== src/Output/Ends.antt =====
-- When `_read_body` ends a body, and when it defers it.
use ngh.Base.{
  ℕ, ◌≤◌, ◌<◌, min, true, false, none, some, ◌≡◌, ◌⊎◌, inl, inr, refl, sym, ap, ◌∙◌, ◌&&◌, List, [],
  ◌∷◌, ◌++◌, Option, arith, ◌==◌,
}
use ngh.Base.Lists.{length, length-append, drop, length-drop, length-take, drop_all}
use ngh.Base.Dict.{lookup-insert_same, lookup, insert}
use ngh.Base.Word.{size_mod}
use ngh.Errors.{NativeError, ok, failure}
use ngh.Engine.{Engine}
use ngh.Connection.{Connection, BodySource}
use ngh.Body.{Copy, copy_body}
use ngh.Body.Queue.{pending, contents, BodyIsValid, IsQueue}
use ngh.Body.Loop.{copy_body_lem}
use ngh.Values.{Bytes}
use ngh.Output.{read_body}
use ngh.Output.Frames.{HasBody}

module _ {S : Type 0} (g : Engine S) where
  eof_cases :
      (n size : ℕ) (b : BodySource) (s : Copy) (c : Connection S)
      → lookup n c.bodies ≡ some b
      → copy_body b c.queued_body_size size ≡ ok s
      → lookup n (insert n s.body c.bodies) ≡ some s.body
      → (read_body g n size c).0.eof ≡ true
      → ((b.ended ≡ true) × (b.queued_size ≤ size))
        ⊎ ((s.body.ended ≡ true) × (s.body.head ≡ length s.body.chunks))
  unfolding read_body
  eof_cases n size b s c e k l h = ground arith

  deferred_cases :
      (n size : ℕ) (b : BodySource) (s : Copy) (c : Connection S)
      → lookup n c.bodies ≡ some b
      → copy_body b c.queued_body_size size ≡ ok s
      → lookup n (insert n s.body c.bodies) ≡ some s.body
      → (read_body g n size c).0.status ≡ failure NativeError.deferred
      → ((min size b.queued_size ≡ 0)
          × ((b.ended && min size b.queued_size == b.queued_size) ≡ false)
          × ((read_body g n size c).1.bodies ≡ insert n (record b { deferred = true }) c.bodies))
        ⊎ ((length s.copied ≡ 0)
            × ((s.body.ended && s.body.head == length s.body.chunks) ≡ false)
            × ((read_body g n size c).1.bodies
                ≡ insert n (record s.body { deferred = true }) (insert n s.body c.bodies)))
  unfolding read_body
  deferred_cases n size b s c e k l h = ground arith

-- No chunk is left exactly if no byte is.
all_sent : (b : BodySource) → b.head ≡ length b.chunks → pending b ≡ []
all_sent b e =
    ap (λ k. drop b.offset (contents k)) (drop_all b.head b.chunks (omega (arith, e)))
    ∙ drop_all b.offset [] (omega arith)

IsQueue-empty :
    (o : ℕ) (cs : List (Option Bytes))
    → IsQueue o cs
    → length (drop o (contents cs)) ≡ 0
    → length cs ≡ 0
IsQueue-empty o [] q e = refl
IsQueue-empty o (none ∷ cs) q e = absurd q
IsQueue-empty o (some c ∷ cs) q e =
    absurd (omega (arith, q.0, e, length-drop o (c ++ contents cs), length-append c (contents cs)))

none_left : (b : BodySource) → BodyIsValid b → length (pending b) ≡ 0 → b.head ≡ length b.chunks
none_left b v e = omega (
  arith,
  v.in_bounds,
  length-drop b.head b.chunks,
  IsQueue-empty b.offset (drop b.head b.chunks) v.in_order e,
)

module _ {S : Type 0} (g : Engine S) where
  -- `_read_body` sets the EOF flag only on a body that the application has ended, with room for all
  -- that is still queued in the frame that carries the flag.
  pub read_body-eof :
      (others n size : ℕ) (b : BodySource) (c : Connection S)
      → HasBody others n b c
      → length (pending b) < size_mod
      → (read_body g n size c).0.eof ≡ true
      → (b.ended ≡ true) × (length (pending b) ≤ size)
  read_body-eof others n size b c hb small e =
      let (s, k, r) = copy_body_lem others size c.queued_body_size b hb.valid hb.totalled in
      elim (eof_cases g n size b s c hb.found k (lookup-insert_same n s.body c.bodies) e) [
        | inl (ended, le) ↦ (ended, omega (arith, le, hb.valid.counted, small))
        | inr (ended, h) ↦ (
          sym r.kept.0 ∙ ended,
          omega (arith, ap length (sym r.left ∙ all_sent s.body h), length-drop size (pending b)),
        )
      ]

  -- With room for a byte, `_read_body` defers a body only if nothing of it is queued and it has not
  -- ended, and it marks the body as deferred.
  pub read_body-defers :
      (others n size : ℕ) (b : BodySource) (c : Connection S)
      → HasBody others n b c
      → length (pending b) < size_mod
      → 0 < size
      → (read_body g n size c).0.status ≡ failure NativeError.deferred
      → (length (pending b) ≡ 0)
        × (b.ended ≡ false)
        × (b' : BodySource) × (lookup n (read_body g n size c).1.bodies ≡ some b')
        × (b'.deferred ≡ true)
        × (b'.ended ≡ false)
  read_body-defers others n size b c hb small room e =
      let (s, k, r) = copy_body_lem others size c.queued_body_size b hb.valid hb.totalled in
      elim (deferred_cases g n size b s c hb.found k (lookup-insert_same n s.body c.bodies) e) [
        | inl (m, open_, bodies) ↦
            let empty : length (pending b) ≡ 0 = omega (arith, m, hb.valid.counted, small, room) in
            let open_ended : b.ended ≡ false = ground (arith, m, open_, hb.valid.counted, empty) in
            (
              empty,
              open_ended,
              record b { deferred = true },
              ap (lookup n) bodies ∙ lookup-insert_same n (record b { deferred = true }) c.bodies,
              refl,
              open_ended,
            )
        | inr (m, open_, bodies) ↦
            let empty : length (pending b) ≡ 0 =
              omega (arith, m, ap length r.bytes, length-take size (pending b), room) in
            let left : length (pending s.body) ≡ 0 =
              omega (arith, ap length r.left, length-drop size (pending b), empty) in
            let h = none_left s.body r.valid.valid left in
            let open_ended : s.body.ended ≡ false = ground (arith, open_, h) in
            (
              empty,
              sym r.kept.0 ∙ open_ended,
              record s.body { deferred = true },
              ap (lookup n) bodies
                  ∙ lookup-insert_same n (record s.body { deferred = true })
                      (insert n s.body c.bodies),
              refl,
              open_ended,
            )
      ]
