-- ===== src/Tests/Arguments.antt =====
-- Arguments that are validated and encoded, and codes that are translated.
use ngh.Headers.Queued.{AllBuiltIn, normalize_headers-AllBuiltIn}
use ngh.Base.{◌-◌, ◌≡◌, refl, true, false, [], ◌∷◌, ◌↔◌}
use ngh.Values.{
  list_kind, never_indexed, iterate, Value, bytes, sequence, mapping, tuple_kind, nil, cons, end,
  item, item_list,
}
use ngh.Config.{natural}
use ngh.Errors.{ok, ◌>>=◌, NativeError, frame_not_sent_error, is_ngh2_instance, type_error}
use ngh.Errors.Translation.{frame_not_sent_error-is_ngh2_instance}
use ngh.Headers.{Header, normalize_headers, make_headers}
use ngh.Headers.Frozen.{Denotes, error_of, make_headers-Denotes}
use ngh.Settings.{normalize_settings}
use ngh.Settings.Entries.{Encodes, normalize_settings-Encodes}
use ngh.Integers.{stream_id, uint31, uint32, uint64, size, positive_size, nonnegative_size}
use ngh.Integers.Ranges.{in_range, validators_in_range}
use ngh.Base.Word.{size_mod, ssize_max}

abbrev one_field : Value
one_field = sequence tuple_kind (
    cons
      (sequence never_indexed (cons (bytes true (b'a' ∷ [])) (cons (bytes false (b'b' ∷ [])) nil)))
      nil)

abbrev its_header : Header
its_header = record { name = b'a' ∷ []; value = b'b' ∷ []; no_index = true }

make_headers-Denotes_example :
    let r = normalize_headers true one_field >>= make_headers (λ n. true) in
    ((r ≡ ok (its_header ∷ [])) ↔ Denotes one_field (its_header ∷ [])) × (error_of r ≡ type_error)
make_headers-Denotes_example =
    make_headers-Denotes true (λ n. true) one_field (its_header ∷ []) λ n. refl

-- The field is the one that the argument stands for.
one_field-Denotes : Denotes one_field (its_header ∷ [])
unfolding iterate
one_field-Denotes = (
  sequence never_indexed (cons (bytes true (b'a' ∷ [])) (cons (bytes false (b'b' ∷ [])) nil)) ∷ [],
  refl,
  ((refl, refl, refl), tt),
)

normalize_settings-Encodes_example :
    (normalize_settings (mapping (item (natural 3) (natural 100) end)) ≡ ok ((3, 100) ∷ []))
    ↔ Encodes (item_list (item (natural 3) (natural 100) end)) ((3, 100) ∷ [])
normalize_settings-Encodes_example =
    normalize_settings-Encodes (item (natural 3) (natural 100) end) ((3, 100) ∷ [])

validators_in_range_example :
    let v = natural 0x80000000 in
    (stream_id v ≡ in_range 1 0x7FFFFFFF v)
    × (uint31 v ≡ in_range 0 0x7FFFFFFF v)
    × (uint32 v ≡ in_range 0 0xFFFFFFFF v)
    × (uint64 v ≡ in_range 0 (size_mod - 1) v)
    × (size v ≡ in_range 0 (size_mod - 1) v)
    × (positive_size v ≡ in_range 1 (size_mod - 1) v)
    × (nonnegative_size v ≡ in_range 0 ssize_max v)
validators_in_range_example = validators_in_range (natural 0x80000000)

frame_not_sent_error-is_ngh2_instance_example :
    is_ngh2_instance (frame_not_sent_error NativeError.nomem) ≡ true
frame_not_sent_error-is_ngh2_instance_example =
    frame_not_sent_error-is_ngh2_instance NativeError.nomem

-- A list of a name of a subclass of `bytes` and a value.
abbrev odd_field : Value
odd_field = sequence list_kind (cons (bytes false (1 ∷ [])) (cons (bytes true (2 ∷ [])) nil))

abbrev even_field : Value
even_field = sequence tuple_kind (cons (bytes true (1 ∷ [])) (cons (bytes true (2 ∷ [])) nil))

frozen : normalize_headers true (sequence list_kind (cons odd_field nil)) ≡ ok (even_field ∷ [])
unfolding normalize_headers
frozen = refl

normalize_headers-AllBuiltIn_example : AllBuiltIn (even_field ∷ [])
normalize_headers-AllBuiltIn_example =
    normalize_headers-AllBuiltIn (sequence list_kind (cons odd_field nil)) (even_field ∷ []) frozen
