-- ===== src/Body.antt =====
-- The outbound queue of one stream: `_copy_body` of src/ngh2/_core.pyx, and what `send_data` appends.
pub mod Queue
pub mod Slots
pub mod Drain
pub mod Loop
pub mod Fifo
use ngh.Base.{
  ℕ, zero, suc, ◌+◌, ◌-◌, ◌*◌, min, Bool, true, false, ◌&&◌, Option, none, some, List, [], ◌∷◌,
  ◌++◌, ltb, leb, ◌==◌, if◌then◌else◌,
}
use ngh.Base.Lists.{length, get_elem?, set, take, drop}
use ngh.Base.Word.{add_size, sub_size}
use ngh.Values.{Bytes}
use ngh.Errors.{Result, ok, err, ◌>>=◌, type_error, index_error}
use ngh.Connection.{BodySource}

-- The variables of the loop: the body, the connection's `_queued_body_size`, and the bytes copied.
pub record Copy : Type 0 where
  pub body : BodySource
  pub total : ℕ
  pub copied : Bytes

-- `body.chunks[body.head]`; a chunk that was released has no length.
pub chunk_at : BodySource → Result Bytes
chunk_at b = elim (get_elem? b.chunks b.head) [
  | none ↦ err index_error
  | some none ↦ err type_error
  | some (some chunk) ↦ ok chunk
]

-- The chunk is used up: its slot is released.
release_chunk : BodySource → BodySource
release_chunk b = record b { chunks = set b.chunks b.head none; head = b.head + 1; offset = 0 }

-- The loop's body on the current chunk.
pub copy_chunk : ℕ → Copy → Bytes → Copy
unfolding release_chunk sub_size
copy_chunk size s chunk =
    let b = s.body in
    let available = length chunk - b.offset in
    let taken = min available (size - length s.copied) in
    let advanced = record b {
      offset = b.offset + taken;
      queued_size = sub_size b.queued_size taken;
    } in
    record {
      body = if b.offset + taken == length chunk then release_chunk advanced else advanced;
      total = sub_size s.total taken;
      copied = s.copied ++ take taken (drop b.offset chunk);
    }

-- One round uses up a chunk or fills the destination, so the chunks left bound the rounds.
pub copy_loop : ℕ → ℕ → Copy → Result Copy
unfolding chunk_at
copy_loop zero size s = ok s
copy_loop (suc fuel) size s =
    let rest = chunk_at s.body >>= λ chunk. copy_loop fuel size (copy_chunk size s chunk) in
    if ltb s.body.head (length s.body.chunks) && ltb (length s.copied) size then rest else ok s

-- How far the loop has come when it ends or raises.
copy_rounds : ℕ → ℕ → Copy → Copy
unfolding chunk_at
copy_rounds zero size s = s
copy_rounds (suc fuel) size s =
    let rest : Copy = elim (chunk_at s.body) [
      | ok chunk ↦ copy_rounds fuel size (copy_chunk size s chunk)
      | err e ↦ s
    ] in
    if ltb s.body.head (length s.body.chunks) && ltb (length s.copied) size then rest else s

-- What `_copy_body` leaves where it raises.
pub copy_progress : BodySource → ℕ → ℕ → Copy
unfolding copy_rounds
copy_progress b total size =
    copy_rounds (length b.chunks) size (record { body = b; total = total; copied = [] })

-- The slots of sent chunks are reclaimed once they are at least half the list.
pub reclaim : BodySource → BodySource
reclaim b =
    if b.head == length b.chunks
    then record b { chunks = []; head = 0 }
    else if leb 32 b.head && leb (length b.chunks) (2 * b.head)
    then record b { chunks = drop b.head b.chunks; head = 0 }
    else b

-- `_copy_body`
unfoldable pub copy_body : BodySource → ℕ → ℕ → Result Copy
unfolding copy_loop copy_chunk reclaim
copy_body b total size = do
  s ← copy_loop (length b.chunks) size (record { body = b; total = total; copied = [] })
  ok (record s { body = reclaim s.body })

-- `body.chunks.append(chunk)` with the body's count, for a chunk that is not empty.
unfoldable pub append_chunk : BodySource → Bytes → BodySource
unfolding add_size
append_chunk b [] = b
append_chunk b (x ∷ xs) = record b {
  chunks = b.chunks ++ some (x ∷ xs) ∷ [];
  queued_size = add_size b.queued_size (length (x ∷ xs));
}
