-- ===== src/Output/Buffer.antt =====
-- The output buffer seen as the bytes written so far: growing it keeps them, a write appends.
use mathlib.Core.List.{append-nil, append_assoc}
use ngh.Base.{
  ℕ, ◌+◌, ◌-◌, ◌≤◌, ◌≡◌, refl, sym, ap, ◌∙◌, inl, inr, Bool-cases, true, false, Option, none, some,
  [], ◌∷◌, ◌++◌, arith, ltb,
}
use ngh.Base.Lists.{
  length, take, replicate, length-append, length-take, length-replicate, length-write_at, take_all,
  take-append_of_le, take-write_at, take_nil,
}
use ngh.Base.Word.{ssize_max}
use ngh.Values.{Bytes}
use ngh.Errors.{ok}
use ngh.Engine.{Engine}
use ngh.Connection.{Connection}
use ngh.Output.{resize, block_of, write_block, grown, grow_output, reserve_output}

-- What `data_to_send` would return.
abbrev pub written : {S : Type 0} → Connection S → Bytes
written c = take c.output_size (block_of c.output)

abbrev pub OutputIsValid : {S : Type 0} → Connection S → Type 0
OutputIsValid c = c.output_size ≤ length (block_of c.output)

le-grown : (capacity target : ℕ) → target ≤ grown capacity target
unfolding grown
le-grown capacity target = ground arith

pub length-resize : (block : Bytes) (n : ℕ) → length (resize block n) ≡ n
length-resize block n = omega (
  arith,
  length-append (take n block) (replicate (n - length block) 0),
  length-take n block,
  length-replicate {A = ℕ} (n - length block) 0,
)

take-resize :
    (k n : ℕ) (block : Bytes)
    → length block ≤ n
    → k ≤ length block
    → take k (resize block n) ≡ take k block
take-resize k n block h p =
    take-append_of_le k (take n block) (replicate (n - length block) 0)
      (omega (arith, length-take n block))
    ∙ ap (take k) (take_all n block h)

module _ {S : Type 0} (g : Engine S) (room : (n : ℕ) → g.allocates n ≡ true) where
  abbrev Grows : Connection S → ℕ → Type 0
  Grows c target =
      (o : Option Bytes) × (grow_output g c.output_size target c ≡ (ok tt, record c { output = o }))
      × (target ≤ length (block_of o))
      × (take c.output_size (block_of o) ≡ written c)

  grow_output_lem : (c : Connection S) (target : ℕ) → OutputIsValid c → Grows c target
  unfolding grow_output
  grow_output_lem c target v = elim (Bool-cases (ltb (length (block_of c.output)) target)) [
    | inl h ↦ (
      some (resize (block_of c.output) (grown (length (block_of c.output)) target)),
      rw (h, room (grown (length (block_of c.output)) target)),
      omega (
        arith,
        length-resize (block_of c.output) (grown (length (block_of c.output)) target),
        le-grown (length (block_of c.output)) target,
      ),
      take-resize c.output_size (grown (length (block_of c.output)) target) (block_of c.output)
          (ground (arith, le-grown (length (block_of c.output)) target)) v,
    )
    | inr h ↦ (c.output, rw h, ground arith, refl)
  ]

  -- Space for `n` more bytes, behind what is written.
  abbrev pub Reserves : Connection S → ℕ → Type 0
  Reserves c n =
      (o : Option Bytes) × (reserve_output g n c
        ≡ (ok c.output_size, record c { output = o; output_size = c.output_size + n }))
      × (c.output_size + n ≤ length (block_of o))
      × (take c.output_size (block_of o) ≡ written c)

  pub reserve_output_lem :
      (c : Connection S) (n : ℕ) → OutputIsValid c → c.output_size + n ≤ ssize_max → Reserves c n
  unfolding reserve_output
  reserve_output_lem c n v h =
      let (o, e, fits, same) = grow_output_lem c (c.output_size + n) v in
      let small : ltb (ssize_max - c.output_size) n ≡ false = ground arith in
      (o, ground (arith, e), fits, same)

pub take-write_block :
    (o : Option Bytes) (k : ℕ) (p : Bytes)
    → k + length p ≤ length (block_of o)
    → take (k + length p) (block_of (write_block o k p)) ≡ take k (block_of o) ++ p
take-write_block none k [] h = take_nil (k + 0) ∙ sym (append-nil (take k []) ∙ take_nil k)
take-write_block none k (x ∷ p) h = absurd (omega arith)
take-write_block (some block) k p h = take-write_at block k p h

pub length-write_block :
    (o : Option Bytes) (k : ℕ) (p : Bytes)
    → length (block_of (write_block o k p)) ≡ length (block_of o)
length-write_block none k p = refl
length-write_block (some block) k p = length-write_at block k p

-- Two writes in a row.
pub take-write_block_twice :
    (o : Option Bytes) (k m n : ℕ) (p q : Bytes)
    → length p ≡ m
    → length q ≡ n
    → k + (n + m) ≤ length (block_of o)
    → take (k + (n + m)) (block_of (write_block (write_block o k p) (k + m) q))
      ≡ take k (block_of o) ++ (p ++ q)
take-write_block_twice o k m n p q ep eq h =
    let o' : Option Bytes = write_block o k p in
    let cut : k + (n + m) ≡ k + m + length q = omega arith in
    let first : k + m ≡ k + length p = omega arith in
    ap (λ j. take j (block_of (write_block o' (k + m) q))) cut
    ∙ take-write_block o' (k + m) q (omega (arith, length-write_block o k p))
    ∙ ap (λ j. take j (block_of o') ++ q) first
    ∙ ap (λ r. r ++ q) (take-write_block o k p (omega arith))
    ∙ append_assoc (take k (block_of o)) p q
