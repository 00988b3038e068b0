-- ===== src/Body/Drain.antt =====
-- `_copy_body` takes the next bytes of the queue, in order, and as many as there is room for.
use ngh.Base.{
  ℕ, ◌+◌, ◌-◌, ◌%◌, ◌≤◌, ◌<◌, min, ◌≡◌, refl, sym, ap, subst, ◌∙◌, ◌⊎◌, inl, inr, Option, none,
  some, List, ◌∷◌, ◌++◌, arith, ◌==◌, ◌≢◌, Bool-cases,
}
use ngh.Base.Lists.{
  length, take, drop, length-append, length-drop, get_elem?-drop, length-set, lt-of_drop,
  drop-set_next, drop-append_of_le, take-append_of_le, drop-drop, drop_all,
}
use ngh.Base.Word.{size_mod, sub_size, sub_size-mod}
use ngh.Values.{Bytes}
use ngh.Errors.{ok}
use ngh.Connection.{BodySource}
use ngh.Body.{Copy, chunk_at, copy_chunk, release_chunk}
use ngh.Body.Queue.{contents, pending, IsQueue, BodyIsValid}

-- The loop's invariant: `others` is what the connection's count holds for the other bodies.
pub record CopyIsValid (others : ℕ) (s : Copy) : Type 0 where
  pub valid : BodyIsValid s.body
  pub totalled : s.total ≡ (others + length (pending s.body)) % size_mod

-- The copying leaves the stream's end alone.
abbrev pub KeepsEnd : BodySource → BodySource → Type 0
KeepsEnd b b' = (b'.ended ≡ b.ended) × (b'.deferred ≡ b.deferred) × (b'.trailers ≡ b.trailers)

-- From `s` to `s'` exactly `n` bytes move, or all there are.
pub record Moved (n : ℕ) (s s' : Copy) : Type 0 where
  pub taken : s'.copied ≡ s.copied ++ take n (pending s.body)
  pub left : pending s'.body ≡ drop n (pending s.body)
  pub kept : KeepsEnd s.body s'.body

pub chunk_at_lem :
    (b : BodySource) (c : Bytes) (cs : List (Option Bytes))
    → drop b.head b.chunks ≡ some c ∷ cs
    → chunk_at b ≡ ok c
unfolding chunk_at
chunk_at_lem b c cs e = rw (get_elem?-drop b.head b.chunks e, chunk_at)

-- A cut of a chunk that is followed by others.
drop-chunk :
    (off t : ℕ) (c rest : Bytes) → off + t ≡ length c → drop t (drop off (c ++ rest)) ≡ rest
drop-chunk off t c rest h =
    drop-drop t off (c ++ rest)
    ∙ drop-append_of_le (off + t) c rest (omega arith)
    ∙ ap (λ k. k ++ rest) (drop_all (off + t) c (omega arith))

take-chunk :
    (off t : ℕ) (c rest : Bytes)
    → off + t ≤ length c
    → take t (drop off c) ≡ take t (drop off (c ++ rest))
take-chunk off t c rest h =
    sym (take-append_of_le t (drop off c) rest (omega (arith, length-drop off c)))
    ∙ ap (take t) (sym (drop-append_of_le off c rest (omega arith)))

-- The count of a queue from which `t` bytes are taken.
count-drop :
    (others t : ℕ) (p : Bytes)
    → t ≤ length p
    → sub_size ((others + length p) % size_mod) t ≡ (others + length (drop t p)) % size_mod
count-drop others t p h =
    sub_size-mod (others + length p) t (omega arith)
    ∙ ap (λ k. k % size_mod) (omega (arith, length-drop t p))

-- One round on the chunk at the head: `t` bytes of it are taken.
module _ (others size : ℕ) (s : Copy) (c : Bytes) (cs : List (Option Bytes))
    (v : CopyIsValid others s) (e : drop s.body.head s.body.chunks ≡ some c ∷ cs) where
  abbrev pub taken : ℕ
  taken = min (length c - s.body.offset) (size - length s.copied)

  pending_eq : pending s.body ≡ drop s.body.offset (c ++ contents cs)
  pending_eq = ap (λ k. drop s.body.offset (contents k)) e

  order : (s.body.offset < length c) × IsQueue 0 cs
  order = subst (IsQueue s.body.offset) e v.valid.in_order

  taken-le : s.body.offset + taken ≤ length c
  taken-le = omega (arith, order.0)

  advanced : BodySource
  advanced = record s.body {
    offset = s.body.offset + taken;
    queued_size = sub_size s.body.queued_size taken;
  }

  pending-advanced : pending advanced ≡ drop taken (pending s.body)
  unfolding advanced
  pending-advanced = sym (drop-drop taken s.body.offset (contents (drop s.body.head s.body.chunks)))

  pending-release_chunk :
      s.body.offset + taken ≡ length c
      → pending (release_chunk advanced) ≡ drop taken (pending s.body)
  unfolding release_chunk advanced
  pending-release_chunk full =
      ap contents (drop-set_next s.body.head s.body.chunks none e)
      ∙ sym (drop-chunk s.body.offset taken c (contents cs) full)
      ∙ ap (drop taken) (sym pending_eq)

  pub taken-le-pending : taken ≤ length (pending s.body)
  taken-le-pending = omega (
    arith,
    ap length pending_eq,
    length-drop s.body.offset (c ++ contents cs),
    length-append c (contents cs),
    taken-le,
  )

  counted_now : sub_size s.body.queued_size taken ≡ length (drop taken (pending s.body)) % size_mod
  counted_now =
      ap (λ k. sub_size k taken) v.valid.counted
      ∙ ap (λ k. sub_size (k % size_mod) taken) {x = length (pending s.body)}
          {y = 0 + length (pending s.body)} (omega arith)
      ∙ count-drop 0 taken (pending s.body) taken-le-pending
      ∙ ap (λ k. k % size_mod) {x = 0 + length (drop taken (pending s.body))} (omega arith)

  advanced-IsValid : s.body.offset + taken < length c → BodyIsValid advanced
  unfolding advanced
  advanced-IsValid more = record {
    in_bounds = v.valid.in_bounds;
    in_order = subst (IsQueue (s.body.offset + taken)) (sym e) (more, order.1);
    counted = counted_now ∙ ap (λ k. length k % size_mod) (sym pending-advanced);
  }

  release_chunk-IsValid : s.body.offset + taken ≡ length c → BodyIsValid (release_chunk advanced)
  unfolding release_chunk advanced
  release_chunk-IsValid full = record {
    in_bounds =
        omega (
          arith,
          lt-of_drop s.body.head s.body.chunks e,
          length-set s.body.chunks s.body.head none,
        );
    in_order = subst (IsQueue 0) (sym (drop-set_next s.body.head s.body.chunks none e)) order.1;
    counted = counted_now ∙ ap (λ k. length k % size_mod) (sym (pending-release_chunk full));
  }

  pub copied_now :
      s.copied ++ take taken (drop s.body.offset c) ≡ s.copied ++ take taken (pending s.body)
  copied_now =
      ap (◌++◌ s.copied)
        (take-chunk s.body.offset taken c (contents cs) taken-le ∙ ap (take taken) (sym pending_eq))

  pub totalled_now :
      sub_size s.total taken ≡ (others + length (drop taken (pending s.body))) % size_mod
  totalled_now =
      ap (λ k. sub_size k taken) v.totalled
      ∙ count-drop others taken (pending s.body) taken-le-pending

  -- What holds after the round, in either of its two endings.
  abbrev pub Round : BodySource → Type 0
  Round b =
      BodyIsValid b
      × (pending b ≡ drop taken (pending s.body))
      × ((drop b.head b.chunks ≡ cs) ⊎ (size ≤ length s.copied + taken))
      × KeepsEnd s.body b

  release_chunk-Round : s.body.offset + taken ≡ length c → Round (release_chunk advanced)
  unfolding release_chunk advanced
  release_chunk-Round full = (
    release_chunk-IsValid full,
    pending-release_chunk full,
    inl (drop-set_next s.body.head s.body.chunks none e),
    (refl, refl, refl),
  )

  advanced-Round : s.body.offset + taken ≢ length c → Round advanced
  unfolding advanced
  advanced-Round more = (
    advanced-IsValid (omega (arith, taken-le)),
    pending-advanced,
    inr (omega (arith, taken-le)),
    (refl, refl, refl),
  )

  pub copy_chunk-Round : Round (copy_chunk size s c).body
  unfolding copy_chunk advanced
  copy_chunk-Round = elim (Bool-cases (s.body.offset + taken == length c)) [
    | inl full ↦ rw full (release_chunk-Round (ground arith))
    | inr more ↦ rw more (advanced-Round (ground arith))
  ]
