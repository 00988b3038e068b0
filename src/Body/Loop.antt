-- ===== src/Body/Loop.antt =====
-- The loop of `_copy_body` and the function as a whole, on rounds that `Body.Drain` describes.
pub mod Fuel
use mathlib.Core.List.{append_assoc, append-nil}
use ngh.Base.{
  ℕ, Bool, zero, suc, ◌+◌, ◌-◌, ◌%◌, ◌*◌, ◌≤◌, ◌<◌, ◌≡◌, refl, sym, ap, ap₂, subst, ◌∙◌, ◌⊎◌, inl,
  inr, true, false, Option, none, some, List, [], ◌∷◌, ◌++◌, arith, ltb, leb, ◌==◌, ◌&&◌,
  Bool-cases,
}
use ngh.Base.Lists.{
  length, take, drop, length-append, length-take, length-drop, take_nil, drop_all, take-add,
  drop-drop, lt-of_drop, List-cases,
}
use ngh.Base.Word.{size_mod}
use ngh.Values.{Bytes}
use ngh.Errors.{ok}
use ngh.Connection.{BodySource}
use ngh.Body.{Copy, chunk_at, copy_chunk, copy_loop, reclaim, copy_body}
use ngh.Body.Queue.{contents, pending, IsQueue, BodyIsValid}
use ngh.Body.Drain.{
  CopyIsValid, Moved, KeepsEnd, taken, chunk_at_lem, copy_chunk-Round, copied_now, totalled_now,
  taken-le-pending,
}

-- What the loop has done when it ends at `s'`.
pub record Drained (others n : ℕ) (s s' : Copy) : Type 0 where
  pub valid : CopyIsValid others s'
  pub moved : Moved n s s'

-- Nothing is left, or there is no room.
Drained-stop :
    (others n : ℕ) (s : Copy)
    → CopyIsValid others s
    → (pending s.body ≡ []) ⊎ (n ≡ 0)
    → Drained others n s s
Drained-stop others n s v (inl e) = record {
  valid = v;
  moved = record {
    taken =
        sym (
          ap (λ k. s.copied ++ take n k) e ∙ ap (◌++◌ s.copied) (take_nil n) ∙ append-nil s.copied);
    left = e ∙ sym (ap (drop n) e ∙ drop_all n [] (omega arith));
    kept = (refl, refl, refl);
  };
}
Drained-stop others n s v (inr e) = record {
  valid = v;
  moved = record {
    taken = sym (ap (λ k. s.copied ++ take k (pending s.body)) e ∙ append-nil s.copied);
    left = sym (ap (λ k. drop k (pending s.body)) e);
    kept = (refl, refl, refl);
  };
}

-- A round that takes `t` bytes, and then the rest.
Moved-trans : (m t n : ℕ) (s u w : Copy) → n ≡ t + m → Moved t s u → Moved m u w → Moved n s w
Moved-trans m t n s u w e a b = record {
  taken =
      b.taken
      ∙ ap₂ (λ x y. x ++ take m y) a.taken a.left
      ∙ append_assoc s.copied (take t (pending s.body)) (take m (drop t (pending s.body)))
      ∙ ap (◌++◌ s.copied) (take-add t m (pending s.body))
      ∙ ap (λ k. s.copied ++ take k (pending s.body)) (sym e);
  left =
      b.left
      ∙ ap (drop m) a.left
      ∙ drop-drop m t (pending s.body)
      ∙ ap (λ k. drop k (pending s.body)) (sym e);
  kept = (b.kept.0 ∙ a.kept.0, b.kept.1 ∙ a.kept.1, b.kept.2 ∙ a.kept.2);
}

module _ (others size : ℕ) (s : Copy) (c : Bytes) (cs : List (Option Bytes))
    (v : CopyIsValid others s) (e : drop s.body.head s.body.chunks ≡ some c ∷ cs) where
  abbrev step_taken : ℕ
  step_taken = taken others size s c cs v e

  next_copy : Copy
  next_copy = copy_chunk size s c

  next-IsValid : CopyIsValid others next_copy
  unfolding next_copy copy_chunk
  next-IsValid = record {
    valid = (copy_chunk-Round others size s c cs v e).0;
    totalled =
        totalled_now others size s c cs v e
        ∙ ap (λ k. (others + length k) % size_mod)
            (sym (copy_chunk-Round others size s c cs v e).1);
  }

  next-Moved : Moved step_taken s next_copy
  unfolding next_copy copy_chunk
  next-Moved = record {
    taken = copied_now others size s c cs v e;
    left = (copy_chunk-Round others size s c cs v e).1;
    kept = (copy_chunk-Round others size s c cs v e).3;
  }

  length-next : length next_copy.copied ≡ length s.copied + step_taken
  length-next =
      ap length next-Moved.taken
      ∙ length-append s.copied (take step_taken (pending s.body))
      ∙ ap (◌+◌ (length s.copied)) (
          omega (
            arith,
            length-take step_taken (pending s.body),
            taken-le-pending others size s c cs v e,
          ))

abbrev more : ℕ → Copy → Bool
more size s = ltb s.body.head (length s.body.chunks) && ltb (length s.copied) size

copy_loop_stop : (fuel size : ℕ) (s : Copy) → more size s ≡ false → copy_loop fuel size s ≡ ok s
unfolding copy_loop
copy_loop_stop zero size s h = refl
copy_loop_stop (suc fuel) size s h = rw h

copy_loop_next :
    (fuel size : ℕ) (s : Copy) (c : Bytes)
    → more size s ≡ true
    → chunk_at s.body ≡ ok c
    → copy_loop (suc fuel) size s ≡ copy_loop fuel size (copy_chunk size s c)
unfolding copy_loop
copy_loop_next fuel size s c h e = rw (h, e)

-- The loop ends with the bytes that there is room for.
abbrev pub Ends : ℕ → ℕ → ℕ → Copy → Type 0
Ends fuel others size s =
    (s' : Copy) × (copy_loop fuel size s ≡ ok s') × Drained others (size - length s.copied) s s'

Ends-stop :
    (fuel others size : ℕ) (s : Copy)
    → CopyIsValid others s
    → more size s ≡ false
    → (pending s.body ≡ []) ⊎ (size - length s.copied ≡ 0)
    → Ends fuel others size s
Ends-stop fuel others size s v h d =
    (s, copy_loop_stop fuel size s h, Drained-stop others (size - length s.copied) s v d)

Ends-next :
    (fuel others size : ℕ) (s : Copy) (c : Bytes) (cs : List (Option Bytes))
    (v : CopyIsValid others s) (e : drop s.body.head s.body.chunks ≡ some c ∷ cs)
    → more size s ≡ true
    → Ends fuel others size (next_copy others size s c cs v e)
    → Ends (suc fuel) others size s
unfolding next_copy
Ends-next fuel others size s c cs v e h (s', same, d) = (
  s',
  copy_loop_next fuel size s c h (chunk_at_lem s.body c cs e) ∙ same,
  record {
    valid = d.valid;
    moved =
        Moved-trans (size - length (copy_chunk size s c).copied) (step_taken others size s c cs v e)
          (size - length s.copied) s (copy_chunk size s c) s'
          (omega (arith, length-next others size s c cs v e)) (next-Moved others size s c cs v e)
          d.moved;
  },
)

-- The rounds left after one.
next-rounds :
    (fuel others size : ℕ) (s : Copy) (c : Bytes) (cs : List (Option Bytes))
    (v : CopyIsValid others s) (e : drop s.body.head s.body.chunks ≡ some c ∷ cs)
    → length (drop s.body.head s.body.chunks) ≤ suc fuel
    → let u = next_copy others size s c cs v e in
      (length (drop u.body.head u.body.chunks) ≤ fuel) ⊎ (size ≤ length u.copied)
unfolding next_copy copy_chunk
next-rounds fuel others size s c cs v e m = elim (copy_chunk-Round others size s c cs v e).2 [
  | inl rest ↦ inl (omega (arith, ap length rest, ap length e))
  | inr full ↦ inr (omega (arith, length-next others size s c cs v e))
]

more-lt : (size : ℕ) (s : Copy) → more size s ≡ true → length s.copied < size
more-lt size s h = ground arith

-- A chunk is left, and no room.
not-more-le :
    (size : ℕ) (s : Copy) (x : Option Bytes) (cs : List (Option Bytes))
    → drop s.body.head s.body.chunks ≡ x ∷ cs
    → more size s ≡ false
    → size ≤ length s.copied
not-more-le size s x cs e h = ground (arith, lt-of_drop s.body.head s.body.chunks e)

Ends-empty :
    (fuel others size : ℕ) (s : Copy)
    → CopyIsValid others s
    → drop s.body.head s.body.chunks ≡ []
    → Ends fuel others size s
Ends-empty fuel others size s v e =
    Ends-stop fuel others size s v
      (ground (arith, length-drop s.body.head s.body.chunks, ap length e))
      (inl (ap (λ k. drop s.body.offset (contents k)) e ∙ drop_all s.body.offset [] (omega arith)))

abbrev Rounds : ℕ → ℕ → Copy → Type 0
Rounds fuel size s = (length (drop s.body.head s.body.chunks) ≤ fuel) ⊎ (size ≤ length s.copied)

-- With a round for each chunk left, or no room, the loop ends with the bytes that there is room for.
pub copy_loop_lem :
    (fuel others size : ℕ) (s : Copy)
    → CopyIsValid others s
    → Rounds fuel size s
    → Ends fuel others size s
copy_loop_lem zero others size s v m = elim (List-cases (drop s.body.head s.body.chunks)) [
  | inl e ↦ Ends-empty zero others size s v e
  | inr (x, cs, e) ↦
      let full : size ≤ length s.copied = omega (arith, m, ap length e) in
      Ends-stop zero others size s v (ground arith) (inr (omega arith))
]
copy_loop_lem (suc fuel) others size s v m = elim (List-cases (drop s.body.head s.body.chunks)) [
  | inl e ↦ Ends-empty (suc fuel) others size s v e
  | inr (none, cs, e) ↦ absurd (subst (IsQueue s.body.offset) e v.valid.in_order)
  | inr (some c, cs, e) ↦ elim (Bool-cases (more size s)) [
    | inl h ↦ Ends-next fuel others size s c cs v e h (
        copy_loop_lem fuel others size (next_copy others size s c cs v e)
          (next-IsValid others size s c cs v e)
          (elim m [
            | inl rounds ↦ next-rounds fuel others size s c cs v e rounds
            | inr full ↦ absurd (omega (arith, more-lt size s h, full))
          ]))
    | inr h ↦
        Ends-stop (suc fuel) others size s v h
          (inr (omega (arith, not-more-le size s (some c) cs e h)))
  ]
]

-- The same queue in fewer slots.
shorter : BodySource → List (Option Bytes) → BodySource
shorter b cs = record b { chunks = cs; head = 0 }

abbrev Reclaimed : BodySource → BodySource → Type 0
Reclaimed b b' = BodyIsValid b' × (pending b' ≡ pending b) × KeepsEnd b b'

shorter-Reclaimed :
    (b : BodySource) (cs : List (Option Bytes))
    → BodyIsValid b
    → cs ≡ drop b.head b.chunks
    → Reclaimed b (shorter b cs)
unfolding shorter
shorter-Reclaimed b cs v e =
    let same : drop b.offset (contents cs) ≡ pending b = ap (λ k. drop b.offset (contents k)) e in
    (
      record {
        in_bounds = omega arith;
        in_order = subst (IsQueue b.offset) (sym e) v.in_order;
        counted = v.counted ∙ ap (λ k. length k % size_mod) (sym same);
      },
      same,
      (refl, refl, refl),
    )

-- Reclaiming the slots of sent chunks changes none of the bytes.
reclaim-Reclaimed : (b : BodySource) → BodyIsValid b → Reclaimed b (reclaim b)
unfolding reclaim shorter
reclaim-Reclaimed b v = elim (Bool-cases (b.head == length b.chunks)) [
  | inl e ↦ rw e (shorter-Reclaimed b [] v (sym (drop_all b.head b.chunks (ground arith))))
  | inr ne ↦ rw ne (elim (Bool-cases (leb 32 b.head && leb (length b.chunks) (2 * b.head))) [
    | inl e ↦ rw e (shorter-Reclaimed b (drop b.head b.chunks) v refl)
    | inr e ↦ rw e (v, refl, (refl, refl, refl))
  ])
]

-- What a call of `_copy_body` has done.
pub record CopyResult (others size : ℕ) (b : BodySource) (s : Copy) : Type 0 where
  pub bytes : s.copied ≡ take size (pending b)
  pub left : pending s.body ≡ drop size (pending b)
  pub kept : KeepsEnd b s.body
  pub valid : CopyIsValid others s

reclaim-CopyResult :
    (others size total : ℕ) (b : BodySource) (s : Copy)
    → Drained others (size - 0) (record { body = b; total = total; copied = [] }) s
    → CopyResult others size b (record s { body = reclaim s.body })
reclaim-CopyResult others size total b s d =
    let e : size - 0 ≡ size = omega arith in
    let r = reclaim-Reclaimed s.body d.valid.valid in
    record {
      bytes = d.moved.taken ∙ ap (λ k. take k (pending b)) e;
      left = r.1 ∙ d.moved.left ∙ ap (λ k. drop k (pending b)) e;
      kept = (r.2.0 ∙ d.moved.kept.0, r.2.1 ∙ d.moved.kept.1, r.2.2 ∙ d.moved.kept.2);
      valid = record {
        valid = r.0;
        totalled = d.valid.totalled ∙ ap (λ k. (others + length k) % size_mod) (sym r.1);
      };
    }

-- From a body that is in order, `_copy_body` never raises: it gives out the first `size` of the
-- pending bytes, or all there are, keeps the rest in order with both counters right, and leaves the
-- end of the stream, its deferral and its trailers alone.
pub copy_body_lem :
    (others size total : ℕ) (b : BodySource)
    → BodyIsValid b
    → total ≡ (others + length (pending b)) % size_mod
    → (s : Copy) × (copy_body b total size ≡ ok s) × CopyResult others size b s
unfolding copy_body
copy_body_lem others size total b v t =
    let (s, e, d) =
      copy_loop_lem (length b.chunks) others size (record { body = b; total = total; copied = [] })
        (record { valid = v; totalled = t }) (inl (omega (arith, length-drop b.head b.chunks))) in
    (record s { body = reclaim s.body }, rw e, reclaim-CopyResult others size total b s d)
