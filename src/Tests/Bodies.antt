-- ===== src/Tests/Bodies.antt =====
-- Bodies that are queued and sent.
use ngh.Base.{ℕ, ◌≡◌, ◌≢◌, min, ◌⊎◌, refl, inr, true, false, [], ◌∷◌, ◌++◌, arith}
use ngh.Base.Int.{pos}
use ngh.Base.Lists.{length, take}
use ngh.Values.{Bytes, bytearray}
use ngh.Config.{natural}
use ngh.Errors.{ok, done, failure, wouldblock}
use ngh.Engine.{FrameHead}
use ngh.Connection.{Connection, BodySource}
use ngh.Body.{Copy, copy_body}
use ngh.Body.Queue.{pending, BodyIsValid}
use ngh.Body.Loop.{CopyResult, copy_body_lem}
use ngh.Callbacks.{replies}
use ngh.Output.{read_body, send_body, collect_output}
use ngh.Output.Buffer.{OutputIsValid, written}
use ngh.Output.Frames.{HasBody, SendsFrame, send_body_lem}
use ngh.Output.Frames.Promise.{read_body-send_body}
use ngh.Output.Collect.{within, Appends, collect_output_lem}
use ngh.Drive.Limit.{Heeds}
use ngh.Transport.{data_to_send}
use ngh.Transport.Limit.{Within, data_to_send-Within}
use ngh.Integers.{stream_id, nonnegative_size}
use ngh.Streams.{send_data, chunk_of}
use ngh.Streams.Order.{IsActive, send_data_lem}
use ngh.Tests.{counting_engine, two_chunks, sending}

two_chunks-IsValid : BodyIsValid two_chunks
two_chunks-IsValid = record {
  in_bounds = omega arith;
  in_order = (omega arith, (omega arith, refl));
  counted = refl;
}

copy_body_lem_example : (s : Copy) × (copy_body two_chunks 2 1 ≡ ok s) × CopyResult 0 1 two_chunks s
copy_body_lem_example = copy_body_lem 0 1 2 two_chunks two_chunks-IsValid refl

abbrev head : FrameHead
head = record { stream_id = 1; end_stream = false; ack = false }

abbrev nine : Bytes
nine = 0 ∷ 0 ∷ 2 ∷ 0 ∷ 0 ∷ 0 ∷ 0 ∷ 0 ∷ 1 ∷ []

sending-OutputIsValid : OutputIsValid sending
sending-OutputIsValid = omega arith

sending-HasBody : HasBody 0 1 two_chunks sending
sending-HasBody = record { found = refl; valid = two_chunks-IsValid; totalled = refl }

send_body_lem_example :
    (d : Connection ℕ) × (send_body counting_engine head 0 nine 2 sending ≡ (replies (done 0), d))
    × SendsFrame 0 1 two_chunks sending nine 2 d
send_body_lem_example =
    send_body_lem counting_engine (λ n. refl) 0 2 head two_chunks sending nine sending-OutputIsValid
      sending-HasBody (inr (omega arith), omega arith) refl (omega arith)

reads_two : (read_body counting_engine 1 5 sending).0.status ≡ done 2
unfolding read_body
reads_two = refl

without_copy : (read_body counting_engine 1 5 sending).0.no_copy ≡ true
unfolding read_body
without_copy = refl

read_body-send_body_example :
    (2 ≡ min 5 (length (pending two_chunks)))
    × (e : Connection ℕ) × (send_body counting_engine head 0 nine 2
          (read_body counting_engine 1 5 sending).1
        ≡ (replies (done 0), e))
    × (written e ≡ written sending ++ (nine ++ take 2 (pending two_chunks)))
read_body-send_body_example =
    read_body-send_body counting_engine (λ n. refl) 0 5 2 head two_chunks sending nine
      sending-OutputIsValid sending-HasBody (omega arith) without_copy reads_two (omega arith) refl

collect_output_lem_example :
    let q = within (pos 100) (7 ∷ 8 ∷ []) in
    ((sending.output_remaining ≡ pos 0)
      × (collect_output counting_engine (7 ∷ 8 ∷ []) sending
          ≡ (replies (failure wouldblock), sending)))
    ⊎ ((sending.output_remaining ≢ pos 0)
        × (d : Connection ℕ) × (collect_output counting_engine (7 ∷ 8 ∷ []) sending
            ≡ (replies (done (length q)), d))
        × Appends sending q d)
collect_output_lem_example =
    collect_output_lem counting_engine (λ n. refl) sending (7 ∷ 8 ∷ []) sending-OutputIsValid
      (omega arith)

sending-IsActive : IsActive sending
sending-IsActive = record { usable = refl; initiated = refl; open_ended = refl }

stream_one : stream_id (natural 1) ≡ ok 1
unfolding stream_id
stream_one = refl

stream_three : stream_id (natural 3) ≡ ok 3
unfolding stream_id
stream_three = refl

a_bytearray : chunk_of (bytearray (4 ∷ [])) ≡ ok (4 ∷ [])
unfolding chunk_of
a_bytearray = refl

send_data_lem_example :
    let (r, d) = send_data counting_engine (natural 1) (bytearray (4 ∷ [])) true sending in
    (r ≡ ok tt)
    × (b : BodySource) × HasBody 0 1 b d
    × (pending b ≡ pending two_chunks ++ 4 ∷ [])
    × (b.ended ≡ true)
send_data_lem_example =
    send_data_lem counting_engine 0 1 (natural 1) (bytearray (4 ∷ [])) (4 ∷ []) true two_chunks
      sending sending-IsActive stream_one a_bytearray sending-HasBody refl refl

send-Heeds : (s : ℕ) → Heeds (counting_engine.send s)
send-Heeds s reply t = (λ e. rw e tt, tt)

one_byte : nonnegative_size (natural 1) ≡ ok 1
unfolding nonnegative_size
one_byte = refl

data_to_send-Within_example : Within 1 (data_to_send counting_engine (natural 1) sending)
data_to_send-Within_example =
    data_to_send-Within counting_engine 1 (natural 1) sending send-Heeds one_byte
