-- ===== src/Output/Frames.antt =====
-- `_send_body` writes the frame that the engine has prepared.
pub mod Promise
use mathlib.Core.List.{append_assoc}
use ngh.Base.{
  ℕ, ◌+◌, ◌-◌, ◌%◌, ◌≤◌, ◌<◌, min, ◌≡◌, refl, sym, ap, ap₂, subst, ◌∙◌, ◌⊎◌, inl, inr, Bool, true,
  false, not, ◌&&◌, ◌||◌, Option, none, some, List, [], ◌∷◌, ◌++◌, arith, ltb, ◌==◌,
}
use ngh.Base.Int.{ℤ, pos, negsuc, sub_ℕ, pos_part, is_neg}
use ngh.Base.Lists.{length, take, length-take, take_all}
use ngh.Base.Dict.{lookup, insert}
use ngh.Base.Word.{ssize_max, size_mod, add_size}
use ngh.Values.{Bytes}
use ngh.Errors.{ok, done}
use ngh.Engine.{Engine, FrameHead, Reply}
use ngh.Connection.{Connection, BodySource}
use ngh.Body.{Copy, copy_body}
use ngh.Body.Queue.{pending, BodyIsValid}
use ngh.Body.Loop.{CopyResult, copy_body_lem}
use ngh.Callbacks.{replies}
use ngh.Output.{block_of, write_block, reserve_output, send_frame, send_body, no_room_for_frame}
use ngh.Output.Buffer.{
  written, OutputIsValid, reserve_output_lem, take-write_block_twice, length-write_block,
}
use ngh.Output.Collect.{spent}

-- A frame of `size` payload bytes is within the limit, and within the address space.
abbrev pub HasRoom : {S : Type 0} → Connection S → ℕ → Type 0
HasRoom c size =
    ((is_neg c.output_remaining ≡ true) ⊎ (size + 9 ≤ pos_part c.output_remaining))
    × (c.output_size + (size + 9) ≤ ssize_max)

-- The stream has a body in order, which the connection's count includes.
pub record HasBody {S : Type 0} (others stream_id : ℕ) (b : BodySource) (c : Connection S)
    : Type 0 where
  pub found : lookup stream_id c.bodies ≡ some b
  pub valid : BodyIsValid b
  pub totalled : c.queued_body_size ≡ (others + length (pending b)) % size_mod

-- The whole frame stands behind what was written, and its payload has left the queue.
pub record SendsFrame {S : Type 0} (others stream_id : ℕ) (b : BodySource) (c : Connection S)
    (header : Bytes) (size : ℕ) (d : Connection S) : Type 0 where
  pub wrote : written d ≡ written c ++ (header ++ take size (pending b))
  pub limit : d.output_remaining ≡ spent c.output_remaining (size + 9)
  pub valid : OutputIsValid d
  pub copy :
      (s : Copy) × CopyResult others size b s
      × (d ≡ record c {
        output = d.output;
        output_size = d.output_size;
        output_remaining = d.output_remaining;
        bodies = insert stream_id s.body c.bodies;
        queued_body_size = s.total;
      })

module _ {S : Type 0} (g : Engine S) (room : (n : ℕ) → g.allocates n ≡ true) where
  send_frame_lem :
      (others stream_id size : ℕ) (b : BodySource) (c : Connection S) (header : Bytes)
      → OutputIsValid c
      → HasBody others stream_id b c
      → length header ≡ 9
      → size ≤ length (pending b)
      → c.output_size + (size + 9) ≤ ssize_max
      → (d : Connection S) × (send_frame g stream_id header size b c ≡ (ok (replies (done 0)), d))
        × SendsFrame others stream_id b c header size d
  unfolding send_frame
  send_frame_lem others stream_id size b c header v hb l le h =
      let (o, e, fits, same) = reserve_output_lem g room c (size + 9) v h in
      let (s, es, r) = copy_body_lem others size c.queued_body_size b hb.valid hb.totalled in
      let n : length s.copied ≡ size =
        ap length r.bytes ∙ omega (arith, length-take size (pending b)) in
      let nine : take 9 header ≡ header = take_all 9 header (omega arith) in
      (
        record c {
          output =
              write_block (write_block o c.output_size (take 9 header)) (c.output_size + 9)
                s.copied;
          output_size = c.output_size + (size + 9);
          output_remaining = spent c.output_remaining (size + 9);
          bodies = insert stream_id s.body c.bodies;
          queued_body_size = s.total;
        },
        ground (arith, e, es, n),
        record {
          wrote =
              take-write_block_twice o c.output_size 9 size (take 9 header) s.copied
                (ap length nine ∙ l) n fits
              ∙ ap (λ k. k ++ (take 9 header ++ s.copied)) same
              ∙ ap₂ (λ x y. written c ++ (x ++ y)) nine r.bytes;
          limit = refl;
          valid = omega (
            arith,
            fits,
            length-write_block o c.output_size (take 9 header),
            length-write_block (write_block o c.output_size (take 9 header)) (c.output_size + 9)
                s.copied,
          );
          copy = (s, r, refl);
        },
      )

  -- With room for it, and at least `size` bytes in the body, `_send_body` writes the frame header
  -- and the next `size` bytes of the body, and nothing else of the connection changes but the body
  -- and the counts: it never reports a failure to the engine.
  pub send_body_lem :
      (others size : ℕ) (hd : FrameHead) (b : BodySource) (c : Connection S) (header : Bytes)
      → OutputIsValid c
      → HasBody others hd.stream_id b c
      → HasRoom c size
      → length header ≡ 9
      → size ≤ length (pending b)
      → (d : Connection S) × (send_body g hd 0 header size c ≡ (replies (done 0), d))
        × SendsFrame others hd.stream_id b c header size d
  unfolding send_body
  send_body_lem others size hd b c header v hb (fits, h) l le =
      let (d, e, sends) = send_frame_lem others hd.stream_id size b c header v hb l le h in
      (d, ground (arith, hb.found, e), sends)
