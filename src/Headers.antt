-- ===== src/Headers.antt =====
-- Header fields on their way to the engine: `_normalize_headers` and `_make_headers` of
-- src/ngh2/_core.pyx, and the field type of src/ngh2/types.py.
pub mod Frozen
pub mod Queued
use ngh.Base.{
  ℕ, Bool, true, false, not, Option, none, some, List, [], ◌∷◌, ◌&&◌, ◌||◌, ◌==◌, if◌then◌else◌,
}
use ngh.Base.Lists.{length}
use ngh.Values.{
  Value, Values, Bytes, Kind, list_kind, tuple_kind, never_indexed, never_indexed_subclass, bytes,
  sequence, nil, cons, iterate, unpack_pair,
}
use ngh.Errors.{Result, ok, err, ◌>>=◌, ◌>>◌, raise_if, or_raise, type_error, memory_error}

-- A field as the engine takes it, with NGHTTP2_NV_FLAG_NO_INDEX.
pub record Header : Type 0 where
  pub name : Bytes
  pub value : Bytes
  pub no_index : Bool

-- `isinstance(item, NeverIndexedHeader)`
unfoldable pub is_never_indexed : Value → Bool
is_never_indexed (sequence never_indexed vs) = true
is_never_indexed (sequence never_indexed_subclass vs) = true
is_never_indexed _ = false

-- `type(item) is tuple or type(item) is NeverIndexedHeader`
unfoldable pub is_plain_pair : Value → Bool
is_plain_pair (sequence tuple_kind vs) = true
is_plain_pair (sequence never_indexed vs) = true
is_plain_pair _ = false

-- `PyBytes_Check`
unfoldable pub is_bytes : Value → Bool
is_bytes (bytes exact bs) = true
is_bytes _ = false

unfoldable pub bytes_of : Value → Bytes
bytes_of (bytes exact bs) = bs
bytes_of _ = []

-- Both loops unpack an item and check its two fields.
unfoldable pub unpack_header : Value → Result (Value × Value)
unfolding unpack_pair is_bytes
unpack_header item = do
  pair ← or_raise (unpack_pair item) type_error
  raise_if (not (is_bytes pair.0) || not (is_bytes pair.1)) type_error
  ok pair

-- `PyBytes_FromStringAndSize` on a queued field of a subclass; the flag says that it was copied.
copy_field : Bool → Value → Value × Bool
copy_field true (bytes false bs) = (bytes true bs, true)
copy_field _ field = (field, false)

freeze_pair : Bool → Value → Value → Value → Value
unfolding is_never_indexed
freeze_pair copy_pair item name value =
    if copy_pair
    then sequence (if is_never_indexed item then never_indexed else tuple_kind)
        (cons name (cons value nil))
    else item

-- The body of the loop of `_normalize_headers`.
normalize_item : Bool → Value → Result Value
unfolding unpack_header copy_field freeze_pair is_plain_pair
normalize_item deferred item = do
  pair ← unpack_header item
  let (name, name_copied) = copy_field deferred pair.0
  let (value, value_copied) = copy_field deferred pair.1
  ok (freeze_pair (not (is_plain_pair item) || name_copied || value_copied) item name value)

normalize_items : Bool → List Value → Result (List Value)
normalize_items deferred [] = ok []
normalize_items deferred (item ∷ items) =
    let rest = normalize_items deferred items in
    normalize_item deferred item >>= λ frozen. rest >>= λ result. ok (frozen ∷ result)

-- `type(headers) is list or type(headers) is tuple`
is_list_or_tuple : Value → Bool
is_list_or_tuple (sequence list_kind vs) = true
is_list_or_tuple (sequence tuple_kind vs) = true
is_list_or_tuple _ = false

-- `_normalize_headers`
unfoldable pub normalize_headers : Bool → Value → Result (List Value)
unfolding normalize_items normalize_item is_list_or_tuple iterate
normalize_headers deferred headers = do
  items ← or_raise (iterate headers) type_error
  let looped = normalize_items deferred items
  if not deferred && is_list_or_tuple headers then ok items else looped

-- The body of the loop of `_make_headers`. The snapshot that it updates for custom pairs only keeps
-- the bytes alive, and its bytes are those of the field.
unfoldable pub make_header : Value → Result Header
unfolding unpack_header is_never_indexed bytes_of
make_header item = do
  pair ← unpack_header item
  ok (record { name = bytes_of pair.0; value = bytes_of pair.1; no_index = is_never_indexed item })

unfoldable pub make_each : List Value → Result (List Header)
make_each [] = ok []
make_each (item ∷ items) =
    let rest = make_each items in
    make_header item >>= λ header. rest >>= λ headers. ok (header ∷ headers)

-- `_make_headers`; `allocates` says whether `malloc` finds room for so many entries.
unfoldable pub make_headers : (ℕ → Bool) → List Value → Result (List Header)
unfolding make_each make_header
make_headers allocates headers = do
  let count = length headers
  raise_if (not (allocates (if count == 0 then 1 else count))) memory_error
  make_each headers
