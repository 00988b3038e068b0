-- ===== src/Receive/Blocks.antt =====
-- A header block from its first callback to its event.
use ngh.Values.{Bytes}
use ngh.Errors.{done, failure}
use ngh.Base.{
  Bool, Bool-cases, ap₂, ℕ, ◌≤◌, ◌≡◌, ◌≢◌, refl, ap, ◌∙◌, ◌⊎◌, inl, inr, true, false, List, [], ◌∷◌,
  ◌++◌, arith, ◌==◌,
}
use ngh.Base.Word.{ssize_max}
use ngh.Headers.{Header}
use ngh.Engine.{Reply, FrameHead, Category, request_category, other_category, headers_frame}
use ngh.Events.{
  Event, request_received, response_received, informational_response_received, trailers_received,
}
use ngh.Connection.{Connection}
use ngh.Receive.{
  begin_headers, frame_received, header, status_of, headers_event, response_event, same_bytes,
  status_name,
}
use ngh.Receive.Fields.{receive_fields, Fits, AreSmall, header_block_lem}

module _ {S : Type 0} where
  header_events :
      (h : Header) (c : Connection S) → (header h.name h.value h.no_index c).1.events ≡ c.events
  unfolding header
  header_events h c = ground arith

  abbrev after : List Header → Reply × Connection S → Bool × Connection S
  after hs (reply, d) =
      let rest = receive_fields hs d in elim reply.status [ done _ ↦ rest | failure _ ↦ (false, d) ]

  after-events :
      (hs : List Header) (r : Reply × Connection S)
      → (receive_fields hs r.1).1.events ≡ r.1.events
      → (after hs r).1.events ≡ r.1.events
  after-events hs (reply, d) e = ground (arith, e)

  receive_fields-events :
      (hs : List Header) (c : Connection S) → (receive_fields hs c).1.events ≡ c.events
  receive_fields-events [] c = refl
  receive_fields-events (h ∷ hs) c =
      let r = header h.name h.value h.no_index c in
      after-events hs r (receive_fields-events hs r.1) ∙ header_events h c

-- The name of the status pseudo-header, as HTTP/2 spells it.
abbrev pseudo_status : Bytes
pseudo_status = 58 ∷ 115 ∷ 116 ∷ 97 ∷ 116 ∷ 117 ∷ 115 ∷ []

-- No field of the block is a status.
abbrev pub HasNone : List Header → Type 0
HasNone [] = Unit
HasNone (h ∷ hs) = (h.name ≢ pseudo_status) × HasNone hs

-- The status of a block is the value of its first status field; that of a block without one is
-- empty.
abbrev pub HasStatus : List Header → Bytes → Type 0
HasStatus fs status =
    (HasNone fs × (status ≡ []))
    ⊎ ((before : List Header) × (h : Header) × (rest : List Header) × (fs ≡ before ++ h ∷ rest)
        × HasNone before
        × (h.name ≡ pseudo_status)
        × (h.value ≡ status))

-- The event of a complete block, by its category and its status.
abbrev pub Describes : FrameHead → Category → List Header → Event → Type 0
Describes hd request_category fs e = e ≡ request_received hd.stream_id fs hd.end_stream
Describes hd other_category fs e =
    (status : Bytes) × HasStatus fs status
    × (((status ≡ []) × (e ≡ trailers_received hd.stream_id fs))
        ⊎ (((rest : Bytes) × (status ≡ b'1' ∷ rest)
              × (e ≡ informational_response_received hd.stream_id fs))
            ⊎ ((digit : ℕ) × (rest : Bytes) × (status ≡ digit ∷ rest)
                × (digit ≢ b'1')
                × (e ≡ response_received hd.stream_id fs hd.end_stream))))

same_bytes-eq : (xs ys : Bytes) → same_bytes xs ys ≡ true → xs ≡ ys
unfolding same_bytes
same_bytes-eq [] [] h = refl
same_bytes-eq [] (y ∷ ys) h = cc
same_bytes-eq (x ∷ xs) [] h = cc
same_bytes-eq (x ∷ xs) (y ∷ ys) h = ground (arith, same_bytes-eq xs ys)

same_bytes_self : (xs : Bytes) → same_bytes xs xs ≡ true
unfolding same_bytes
same_bytes_self [] = refl
same_bytes_self (x ∷ xs) = ground (arith, same_bytes_self xs)

same_bytes-ne : (xs ys : Bytes) → same_bytes xs ys ≡ false → xs ≢ ys
same_bytes-ne xs ys h e = ground (arith, same_bytes_self xs, ap (same_bytes xs) e)

later-HasStatus :
    (h : Header) (hs : List Header) (status : Bytes)
    → h.name ≢ pseudo_status
    → HasStatus hs status
    → HasStatus (h ∷ hs) status
later-HasStatus h hs status ne (inl (none_, e)) = inl ((ne, none_), e)
later-HasStatus h hs status ne (inr (before, f, more, e, none_, named, valued)) =
    inr (h ∷ before, f, more, ap (λ l. h ∷ l) e, (ne, none_), named, valued)

status_of-HasStatus : (fs : List Header) → HasStatus fs (status_of fs)
unfolding status_of
status_of-HasStatus [] = inl (tt, refl)
status_of-HasStatus (h ∷ hs) = elim (Bool-cases (same_bytes h.name status_name)) [
  | inl k ↦ rw k (inr ([], h, hs, refl, tt, same_bytes-eq h.name status_name k, refl))
  | inr k ↦ rw k (
      later-HasStatus h hs (status_of hs) (same_bytes-ne h.name status_name k)
        (status_of-HasStatus hs))
]

response_event-Describes :
    (hd : FrameHead) (fs : List Header) (status : Bytes)
    → HasStatus fs status
    → Describes hd other_category fs (response_event hd fs status)
unfolding response_event
response_event-Describes hd fs [] e = ([], e, inl (refl, refl))
response_event-Describes hd fs (digit ∷ rest) e = elim (Bool-cases (digit == b'1')) [
  | inl k ↦ (digit ∷ rest, e, inr (inl (rest, ap (λ d. d ∷ rest) (ground arith), rw k refl)))
  | inr k ↦ (digit ∷ rest, e, inr (inr (digit, rest, refl, ground arith, rw k refl)))
]

headers_event-Describes :
    (hd : FrameHead) (category : Category) (fs : List Header)
    → Describes hd category fs (headers_event hd category fs)
unfolding headers_event
headers_event-Describes hd request_category fs = refl
headers_event-Describes hd other_category fs =
    response_event-Describes hd fs (status_of fs) (status_of-HasStatus fs)

block-fields :
    {S : Type 0} (fs : List Header) (c : Connection S)
    → c.max_inbound_header_list_size ≤ ssize_max
    → AreSmall fs
    → Fits c.max_inbound_header_list_size c.max_inbound_header_count fs
    → let (all, d) = receive_fields fs (begin_headers c).1 in
      (all ≡ true) × (d.current_headers ≡ fs)
block-fields fs c bounded small fits = elim (header_block_lem fs c bounded small) [
  | inl (f, all, k) ↦ (all, k.fields)
  | inr (inl more, all, k) ↦ absurd (omega (arith, fits.0, more))
  | inr (inr more, all, k) ↦ absurd (omega (arith, fits.1, more))
]

-- A header block of small fields that is within the limits on its size and its count is taken field
-- by field, and its frame publishes one event with all the fields in order and keeps none of them:
-- the request of a request block, and for any other block, by the value of its first `:status`
-- field, trailers if there is none or it is empty, an informational response if it begins with a 1,
-- and a response otherwise.
pub header_block_event :
    {S : Type 0} (hd : FrameHead) (category : Category) (fs : List Header) (c : Connection S)
    → c.max_inbound_header_list_size ≤ ssize_max
    → AreSmall fs
    → Fits c.max_inbound_header_list_size c.max_inbound_header_count fs
    → let (all, d) = receive_fields fs (begin_headers c).1 in
      let e = (frame_received (headers_frame hd category) d).1 in
      (all ≡ true)
      × (event : Event) × (e.events ≡ c.events ++ event ∷ [])
      × Describes hd category fs event
      × (e.current_headers ≡ [])
unfolding frame_received begin_headers
header_block_event hd category fs c bounded small fits =
    let d = (receive_fields fs (begin_headers c).1).1 in
    let (all, fields) = block-fields fs c bounded small fits in
    (
      all,
      headers_event hd category fs,
      ap₂ (λ es hs. es ++ headers_event hd category hs ∷ [])
          (receive_fields-events fs (begin_headers c).1) fields,
      headers_event-Describes hd category fs,
      refl,
    )
