-- ===== src/Body/Queue.antt =====
-- The bytes that a body still holds, and what keeps its fields together.
use mathlib.Core.List.{append_assoc, append-nil}
use ngh.Base.{
  ℕ, ◌%◌, ◌≤◌, ◌<◌, ◌≡◌, refl, subst, sym, ap, ◌∙◌, Option, none, some, List, [], ◌∷◌, ◌++◌, arith,
}
use ngh.Base.Lists.{length, drop, length-append, drop-append_of_le}
use ngh.Base.Word.{size_mod, add_size, add_size-mod}
use ngh.Values.{Bytes}
use ngh.Connection.{BodySource}
use ngh.Body.{append_chunk}

-- The bytes of the chunks that are left.
abbrev pub contents : List (Option Bytes) → Bytes
contents [] = []
contents (none ∷ cs) = contents cs
contents (some c ∷ cs) = c ++ contents cs

-- The bytes that are queued, in the order in which they will be sent.
abbrev pub pending : BodySource → Bytes
pending b = drop b.offset (contents (drop b.head b.chunks))

-- No chunk from the head on is released or empty, and the offset stands inside the first.
abbrev pub IsQueue : ℕ → List (Option Bytes) → Type 0
IsQueue offset [] = offset ≡ 0
IsQueue offset (none ∷ cs) = ⊥
IsQueue offset (some c ∷ cs) = (offset < length c) × IsQueue 0 cs

-- The queue is in order, and the count is the number of its bytes, in a word.
pub record BodyIsValid (b : BodySource) : Type 0 where
  pub in_bounds : b.head ≤ length b.chunks
  pub in_order : IsQueue b.offset (drop b.head b.chunks)
  pub counted : b.queued_size ≡ length (pending b) % size_mod

IsQueue-append :
    (n : ℕ) (cs : List (Option Bytes)) (c : Bytes)
    → 0 < length c
    → IsQueue n cs
    → IsQueue n (cs ++ some c ∷ [])
IsQueue-append n [] c h q = (omega arith, refl)
IsQueue-append n (none ∷ cs) c h q = q
IsQueue-append n (some d ∷ cs) c h q = (q.0, IsQueue-append 0 cs c h q.1)

contents-append : (cs ds : List (Option Bytes)) → contents (cs ++ ds) ≡ contents cs ++ contents ds
contents-append [] ds = refl
contents-append (none ∷ cs) ds = contents-append cs ds
contents-append (some c ∷ cs) ds = simp (contents-append cs ds, append_assoc)

-- The offset is within the contents.
pub offset-le-contents :
    (n : ℕ) (cs : List (Option Bytes)) → IsQueue n cs → n ≤ length (contents cs)
offset-le-contents n [] q = omega arith
offset-le-contents n (none ∷ cs) q = absurd q
offset-le-contents n (some c ∷ cs) q = omega (arith, length-append c (contents cs))

append_chunk_nonempty :
    (b : BodySource) (x : ℕ) (xs : Bytes)
    → BodyIsValid b
    → BodyIsValid (append_chunk b (x ∷ xs))
      × (pending (append_chunk b (x ∷ xs)) ≡ pending b ++ x ∷ xs)
unfolding append_chunk
append_chunk_nonempty b x xs v =
    let c : List (Option Bytes) = some (x ∷ xs) ∷ [] in
    let cut : drop b.head (b.chunks ++ c) ≡ drop b.head b.chunks ++ c =
      drop-append_of_le b.head b.chunks c v.in_bounds in
    let all : contents (drop b.head (b.chunks ++ c)) ≡ contents (drop b.head b.chunks) ++ x ∷ xs =
      ap contents cut
      ∙ contents-append (drop b.head b.chunks) c
      ∙ ap (◌++◌ (contents (drop b.head b.chunks))) (append-nil (x ∷ xs)) in
    let now : drop b.offset (contents (drop b.head (b.chunks ++ c))) ≡ pending b ++ x ∷ xs =
      ap (drop b.offset) all
      ∙ drop-append_of_le b.offset (contents (drop b.head b.chunks)) (x ∷ xs)
          (offset-le-contents b.offset (drop b.head b.chunks) v.in_order) in
    (
      record {
        in_bounds = omega (arith, v.in_bounds, length-append b.chunks c);
        in_order =
            subst (IsQueue b.offset) (sym cut)
              (IsQueue-append b.offset (drop b.head b.chunks) (x ∷ xs) (omega arith) v.in_order);
        counted =
            ap (λ k. add_size k (length (x ∷ xs))) v.counted
            ∙ add_size-mod (length (pending b)) (length (x ∷ xs))
            ∙ ap (λ k. k % size_mod)
                (sym (length-append (pending b) (x ∷ xs)) ∙ sym (ap length now));
      },
      now,
    )

-- What is appended is sent after all that was queued, and counted.
pub append_chunk_lem :
    (b : BodySource) (xs : Bytes)
    → BodyIsValid b
    → BodyIsValid (append_chunk b xs) × (pending (append_chunk b xs) ≡ pending b ++ xs)
unfolding append_chunk
append_chunk_lem b [] v = (v, sym (append-nil (pending b)))
append_chunk_lem b (x ∷ xs) v = append_chunk_nonempty b x xs v
