-- ===== src/Body/Loop/Fuel.antt =====
-- The `while` loop of `_copy_body` ends by its condition, never for want of rounds.
use ngh.Base.{
  ◌%◌, ◌⊎◌, [], ℕ, zero, suc, ◌+◌, ◌≤◌, ◌≡◌, sym, subst, ◌∙◌, inl, inr, none, some, Bool-cases, ap,
  false, arith,
}
use ngh.Base.Lists.{length, drop, length-drop, List-cases}
use ngh.Base.Word.{size_mod}
use ngh.Errors.{ok}
use ngh.Connection.{BodySource}
use ngh.Body.{Copy, copy_loop}
use ngh.Body.Queue.{IsQueue, BodyIsValid, pending}
use ngh.Body.Drain.{CopyIsValid, chunk_at_lem}
use ngh.Body.Loop.{
  copy_loop_lem, Rounds, more, copy_loop_stop, copy_loop_next, next_copy, next-IsValid, next-rounds,
}

both_stop :
    (fuel extra size : ℕ) (s : Copy)
    → more size s ≡ false
    → copy_loop (fuel + extra) size s ≡ copy_loop fuel size s
both_stop fuel extra size s h =
    copy_loop_stop (fuel + extra) size s h ∙ sym (copy_loop_stop fuel size s h)

empty_stops :
    (size : ℕ) (s : Copy) → length (drop s.body.head s.body.chunks) ≡ 0 → more size s ≡ false
empty_stops size s e = ground (arith, length-drop s.body.head s.body.chunks)

full_stops : (size : ℕ) (s : Copy) → size ≤ length s.copied → more size s ≡ false
full_stops size s h = ground arith

-- On a body that is in order, any number of rounds from the chunks left upwards gives the same.
copy_loop_fuel :
    (fuel extra others size : ℕ) (s : Copy)
    → CopyIsValid others s
    → Rounds fuel size s
    → copy_loop (fuel + extra) size s ≡ copy_loop fuel size s
unfolding next_copy
copy_loop_fuel zero extra others size s v (inl e) =
    both_stop 0 extra size s (empty_stops size s (omega arith))
copy_loop_fuel fuel extra others size s v (inr e) =
    both_stop fuel extra size s (full_stops size s e)
copy_loop_fuel (suc fuel) extra others size s v (inl m) =
    elim (List-cases (drop s.body.head s.body.chunks)) [
      | inl e ↦ both_stop (suc fuel) extra size s (empty_stops size s (ap length e))
      | inr (none, cs, e) ↦ absurd (subst (IsQueue s.body.offset) e v.valid.in_order)
      | inr (some c, cs, e) ↦ elim (Bool-cases (more size s)) [
        | inl h ↦
            ap (λ k. copy_loop k size s) {x = suc fuel + extra} {y = suc (fuel + extra)}
              (omega arith)
            ∙ copy_loop_next (fuel + extra) size s c h (chunk_at_lem s.body c cs e)
            ∙ copy_loop_fuel fuel extra others size (next_copy others size s c cs v e)
                (next-IsValid others size s c cs v e) (next-rounds fuel others size s c cs v e m)
            ∙ sym (copy_loop_next fuel size s c h (chunk_at_lem s.body c cs e))
        | inr h ↦ both_stop (suc fuel) extra size s h
      ]
    ]

stops_there :
    (fuel size : ℕ) (s s' : Copy)
    → more size s ≡ false
    → copy_loop fuel size s ≡ ok s'
    → more size s' ≡ false
stops_there fuel size s s' h e = let k = copy_loop_stop fuel size s h in cc

copy_loop_ends :
    (fuel others size : ℕ) (s s' : Copy)
    → CopyIsValid others s
    → Rounds fuel size s
    → copy_loop fuel size s ≡ ok s'
    → more size s' ≡ false
unfolding next_copy
copy_loop_ends zero others size s s' v (inl m) =
    stops_there 0 size s s' (empty_stops size s (omega arith))
copy_loop_ends fuel others size s s' v (inr m) = stops_there fuel size s s' (full_stops size s m)
copy_loop_ends (suc fuel) others size s s' v (inl m) =
    elim (List-cases (drop s.body.head s.body.chunks)) [
      | inl e ↦ stops_there (suc fuel) size s s' (empty_stops size s (ap length e))
      | inr (none, cs, e) ↦ absurd (subst (IsQueue s.body.offset) e v.valid.in_order)
      | inr (some c, cs, e) ↦ elim (Bool-cases (more size s)) [
        | inl h ↦ λ r.
            copy_loop_ends fuel others size (next_copy others size s c cs v e) s'
              (next-IsValid others size s c cs v e) (next-rounds fuel others size s c cs v e m)
              (sym (copy_loop_next fuel size s c h (chunk_at_lem s.body c cs e)) ∙ r)
        | inr h ↦ stops_there (suc fuel) size s s' h
      ]
    ]

exit_reason :
    (size : ℕ) (s : Copy)
    → more size s ≡ false
    → (length s.body.chunks ≤ s.body.head) ⊎ (size ≤ length s.copied)
exit_reason size s h = ground arith

-- From a body that is in order and counted, the loop of `_copy_body` on a round for each chunk
-- returns, ends because no chunk is left or the destination is full, and gives the same on any more
-- rounds.
pub copy_loop_terminates :
    (extra others size total : ℕ) (b : BodySource)
    → BodyIsValid b
    → total ≡ (others + length (pending b)) % size_mod
    → let start : Copy = record { body = b; total = total; copied = [] } in
      (s : Copy) × (copy_loop (length b.chunks) size start ≡ ok s)
      × ((length s.body.chunks ≤ s.body.head) ⊎ (size ≤ length s.copied))
      × (copy_loop (length b.chunks + extra) size start ≡ ok s)
copy_loop_terminates extra others size total b v t =
    let start : Copy = record { body = b; total = total; copied = [] } in
    let valid : CopyIsValid others start = record { valid = v; totalled = t } in
    let rounds : Rounds (length b.chunks) size start =
      inl (omega (arith, length-drop b.head b.chunks)) in
    let (s, e, d) = copy_loop_lem (length b.chunks) others size start valid rounds in
    (
      s,
      e,
      exit_reason size s (copy_loop_ends (length b.chunks) others size start s valid rounds e),
      copy_loop_fuel (length b.chunks) extra others size start valid rounds ∙ e,
    )
