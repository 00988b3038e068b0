-- ===== src/Settings/Entries.antt =====
-- Which mappings become SETTINGS entries.
use ngh.Base.{◌≤◌, ◌≡◌, refl, ◌↔◌, some, List, [], ◌∷◌, arith}
use ngh.Base.Int.{pos}
use ngh.Values.{Value, Items, mapping, integer_index, item_list}
use ngh.Errors.{ok}
use ngh.Settings.{Entry, normalize_entry, normalize_entries, normalize_settings}

-- An item that stands for an entry of the wire format.
abbrev pub EncodesItem : Value × Value → Entry → Type 0
EncodesItem (k, v) (key, value) =
    (integer_index k ≡ some (pos key))
    × (integer_index v ≡ some (pos value))
    × (key ≤ 0xFFFF)
    × (value ≤ 0xFFFFFFFF)

-- Item by item, in the order of the mapping.
abbrev pub Encodes : List (Value × Value) → List Entry → Type 0
Encodes [] [] = Unit
Encodes [] (e ∷ es) = ⊥
Encodes (i ∷ is) [] = ⊥
Encodes (i ∷ is) (e ∷ es) = EncodesItem i e × Encodes is es

normalize_entry-Encodes :
    (i : Value × Value) (e : Entry) → normalize_entry i ≡ ok e → EncodesItem i e
unfolding normalize_entry
normalize_entry-Encodes i e h = ground arith

Encodes-normalize_entry :
    (i : Value × Value) (e : Entry) → EncodesItem i e → normalize_entry i ≡ ok e
unfolding normalize_entry
Encodes-normalize_entry i e h = ground arith

normalize_entries-Encodes :
    (is : List (Value × Value)) (es : List Entry) → normalize_entries is ≡ ok es → Encodes is es
unfolding normalize_entries
normalize_entries-Encodes [] [] h = tt
normalize_entries-Encodes [] (e ∷ es) h = cc
normalize_entries-Encodes (i ∷ is) [] h = ground arith
normalize_entries-Encodes (i ∷ is) (e ∷ es) h =
    ground (arith, normalize_entry-Encodes i e, normalize_entries-Encodes is es)

Encodes-normalize_entries :
    (is : List (Value × Value)) (es : List Entry) → Encodes is es → normalize_entries is ≡ ok es
unfolding normalize_entries
Encodes-normalize_entries [] [] h = refl
Encodes-normalize_entries [] (e ∷ es) h = absurd h
Encodes-normalize_entries (i ∷ is) [] h = absurd h
Encodes-normalize_entries (i ∷ is) (e ∷ es) h =
    ground (arith, Encodes-normalize_entry i e h.0, Encodes-normalize_entries is es h.1)

-- A mapping is accepted with certain entries exactly when those are its items in order, every
-- identifier an integer of 16 bits and every value one of 32.
pub normalize_settings-Encodes :
    (items : Items) (es : List Entry)
    → (normalize_settings (mapping items) ≡ ok es) ↔ Encodes (item_list items) es
unfolding normalize_settings
normalize_settings-Encodes items es =
    (normalize_entries-Encodes (item_list items) es, Encodes-normalize_entries (item_list items) es)
