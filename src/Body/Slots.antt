-- ===== src/Body/Slots.antt =====
-- The slots that `_copy_body` keeps for chunks that are sent.
use ngh.Base.{[], ℕ, ◌-◌, ◌<◌, ◌≡◌, ◌⊎◌, arith}
use ngh.Base.Lists.{length}
use ngh.Errors.{Result, ok, err, ◌>>=◌}
use ngh.Connection.{BodySource}
use ngh.Body.{Copy, copy_body, copy_loop, reclaim}

-- Fewer than 32 slots are spent, or fewer than there are chunks left.
abbrev pub IsCompact : BodySource → Type 0
IsCompact b = (b.head < 32) ⊎ (b.head < length b.chunks - b.head)

reclaim-IsCompact : (b : BodySource) → IsCompact (reclaim b)
unfolding reclaim
reclaim-IsCompact b = ground arith

reclaimed-IsCompact :
    (r : Result Copy) (s : Copy)
    → (r >>= λ t. ok (record t { body = reclaim t.body })) ≡ ok s
    → IsCompact s.body
reclaimed-IsCompact (ok t) s e = ground (arith, reclaim-IsCompact t.body)
reclaimed-IsCompact (err x) s e = cc

-- However often and however much of a body is copied, valid or not, the slots of sent chunks that
-- stay in its list are fewer than 32 or fewer than the chunks still to send.
pub copy_body-IsCompact :
    (b : BodySource) (total size : ℕ) (s : Copy) → copy_body b total size ≡ ok s → IsCompact s.body
unfolding copy_body
copy_body-IsCompact b total size s =
    reclaimed-IsCompact
      (copy_loop (length b.chunks) size (record { body = b; total = total; copied = [] })) s
