-- ===== src/Settings.antt =====
-- SETTINGS mappings on their way to the engine: `_normalize_settings`, `_make_settings` and
-- `pack_settings_payload` of src/ngh2/_core.pyx.
pub mod Entries
use ngh.Base.{
  ℕ, zero, suc, ◌*◌, Bool, true, false, not, ◌&&◌, ◌||◌, Option, none, some, List, [], ◌∷◌, ltb,
  ◌==◌, if◌then◌else◌,
}
use ngh.Base.Int.{ℤ, pos, pos_part, leb_ℤ}
use ngh.Base.Lists.{length, take}
use ngh.Values.{Value, none_value, mapping, Bytes, integer_index, item_list}
use ngh.Errors.{
  Result, ok, err, ◌>>=◌, ◌>>◌, raise_if, or_raise, Status, done, failure, nghttp2_error,
  type_error, value_error, memory_error,
}

-- A setting identifier and its value.
abbrev pub Entry : Type 0
Entry = ℕ × ℕ

-- The body of the loop, for one item of the mapping.
normalize_entry : Value × Value → Result Entry
unfolding integer_index
normalize_entry (k, v) = do
  key ← or_raise (integer_index k) type_error
  value ← or_raise (integer_index v) type_error
  raise_if
      (not (leb_ℤ (pos 0) key && leb_ℤ key (pos 0xFFFF))
        || not (leb_ℤ (pos 0) value && leb_ℤ value (pos 0xFFFFFFFF)))
      value_error
  ok (pos_part key, pos_part value)

normalize_entries : List (Value × Value) → Result (List Entry)
unfolding normalize_entry
normalize_entries [] = ok []
normalize_entries (e ∷ es) =
    let rest = normalize_entries es in
    normalize_entry e >>= λ entry. rest >>= λ entries. ok (entry ∷ entries)

-- `_normalize_settings`
unfoldable pub normalize_settings : Value → Result (List Entry)
unfolding normalize_entries item_list
normalize_settings none_value = ok []
normalize_settings (mapping items) = normalize_entries (item_list items)
normalize_settings _ = err type_error

-- `_make_settings`; `allocates` says whether `malloc` finds room for so many entries.
unfoldable pub make_settings : (ℕ → Bool) → List Entry → Result (List Entry)
make_settings allocates entries = do
  raise_if (not (length entries == 0) && not (allocates (length entries))) memory_error
  ok entries

-- The payload that the engine wrote into the buffer, `output[:result]`.
packed : Status × Bytes → Result Bytes
unfolding nghttp2_error
packed (done n, output) = ok (take n output)
packed (failure code, output) = err (nghttp2_error code)

-- `pack_settings_payload`; `pack` is the engine's function, from the buffer's length and the entries
-- to its status and the buffer.
unfoldable pub pack_settings_payload :
    (ℕ → Bool) → (ℕ → List Entry → Status × Bytes) → Value → Result Bytes
unfolding normalize_settings make_settings packed
pack_settings_payload allocates pack settings = do
  entries ← normalize_settings settings
  let count = length entries
  let written = make_settings allocates entries >>= λ native. packed (pack (count * 6) native)
  if count == 0 then ok [] else written
