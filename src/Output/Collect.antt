-- ===== src/Output/Collect.antt =====
-- `_collect_output` appends what the caller's limit lets in, and no more.
use ngh.Base.{
  ℕ, zero, suc, not, ◌&&◌, ◌==◌, Bool-cases, ◌+◌, ◌≤◌, min, ◌≡◌, refl, ap, ◌∙◌, ◌≢◌, ◌⊎◌, inl, inr,
  true, false, [], ◌∷◌, ◌++◌, arith,
}
use ngh.Base.Int.{ℤ, pos, negsuc, sub_ℕ, pos_part, is_neg}
use ngh.Base.Lists.{length, take, length-take, take_nil}
use ngh.Base.Word.{ssize_max}
use ngh.Values.{Bytes}
use ngh.Errors.{ok, done, failure, wouldblock}
use ngh.Engine.{Engine}
use ngh.Connection.{Connection}
use ngh.Callbacks.{replies}
use ngh.Output.{write_block, accept_output, accepted, collect_output}
use ngh.Output.Buffer.{
  written, OutputIsValid, reserve_output_lem, take-write_block, length-write_block,
}

-- The limit after `n` bytes; below zero there is none.
abbrev pub spent : ℤ → ℕ → ℤ
spent (pos remaining) n = sub_ℕ remaining n
spent (negsuc k) n = negsuc k

-- Only the output fields of `c` change, to those of `d`, and `p` stands behind what was written.
pub record Appends {S : Type 0} (c : Connection S) (p : Bytes) (d : Connection S) : Type 0 where
  pub only : d ≡ record c {
    output = d.output;
    output_size = d.output_size;
    output_remaining = d.output_remaining;
  }
  pub limit : d.output_remaining ≡ spent c.output_remaining (length p)
  pub wrote : written d ≡ written c ++ p
  pub valid : OutputIsValid d

-- The bytes within the limit.
abbrev pub within : ℤ → Bytes → Bytes
within (pos remaining) p = take remaining p
within (negsuc _) p = p

length-within : (r : ℤ) (p : Bytes) → length (within r p) ≤ length p
length-within (pos n) p = omega (arith, length-take n p)
length-within (negsuc n) p = omega arith

take-min : (n : ℕ) (p : Bytes) → take (min (length p) n) p ≡ take n p
take-min zero p = ap (λ k. take k p) {x = min (length p) zero} {y = zero} (omega arith)
take-min (suc n) [] = take_nil (min 0 (suc n))
take-min (suc n) (x ∷ p) =
    let e : min (suc (length p)) (suc n) ≡ suc (min (length p) n) = omega arith in
    ap (λ k. take k (x ∷ p)) e ∙ ap (◌∷◌ x) (take-min n p)

module _ {S : Type 0} (g : Engine S) (room : (n : ℕ) → g.allocates n ≡ true) where
  accept_output_lem :
      (c : Connection S) (p : Bytes)
      → OutputIsValid c
      → c.output_size + length p ≤ ssize_max
      → (d : Connection S) × (accept_output g p c ≡ (ok (replies (done (length p))), d))
        × Appends c p d
  unfolding accept_output
  accept_output_lem c p v h =
      let (o, e, fits, same) = reserve_output_lem g room c (length p) v h in
      (
        record c {
          output = write_block o c.output_size p;
          output_size = c.output_size + length p;
          output_remaining = spent c.output_remaining (length p);
        },
        ground (arith, e),
        record {
          only = refl;
          limit = refl;
          wrote = take-write_block o c.output_size p fits ∙ ap (λ k. k ++ p) same;
          valid = omega (arith, fits, length-write_block o c.output_size p);
        },
      )

  accepted-within : (r : ℤ) (p : Bytes) → accepted g r p ≡ within r p
  unfolding accepted
  accepted-within (pos n) p = take-min n p
  accepted-within (negsuc n) p = refl

  collected :
      (c : Connection S) (p : Bytes) (d : Connection S)
      → (not (is_neg c.output_remaining) && pos_part c.output_remaining == 0) ≡ false
      → accept_output g (within c.output_remaining p) c
        ≡ (ok (replies (done (length (within c.output_remaining p)))), d)
      → collect_output g p c ≡ (replies (done (length (within c.output_remaining p))), d)
  unfolding collect_output
  collected c p d h e = ground (arith, accepted-within c.output_remaining p, e)

  -- With the limit used up the engine is told to wait, and nothing changes. Otherwise the reply is
  -- the number of bytes taken: all of them where there is no limit, and as many as are left of it
  -- where there is one. They stand in order behind what was written, the limit falls by their number,
  -- and no other field of the connection changes.
  pub collect_output_lem :
      (c : Connection S) (p : Bytes)
      → OutputIsValid c
      → c.output_size + length p ≤ ssize_max
      → let q = within c.output_remaining p in
        ((c.output_remaining ≡ pos 0) × (collect_output g p c ≡ (replies (failure wouldblock), c)))
        ⊎ ((c.output_remaining ≢ pos 0)
            × (d : Connection S) × (collect_output g p c ≡ (replies (done (length q)), d))
            × Appends c q d)
  collect_output_lem c p v h =
      elim (Bool-cases (not (is_neg c.output_remaining) && pos_part c.output_remaining == 0)) [
        | inl stop ↦ inl (ground arith, unfold collect_output in (rw stop))
        | inr go ↦
            let q : Bytes = within c.output_remaining p in
            let (d, e, a) =
              accept_output_lem c q v (omega (arith, length-within c.output_remaining p)) in
            inr (ground arith, d, collected c p d go e, a)
      ]
