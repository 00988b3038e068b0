-- ===== src/Headers/Frozen.antt =====
-- A snapshot of a header list, frozen now or for later, gives the engine the caller's fields.
use ngh.Base.{
  ℕ, ◌≡◌, ◌↔◌, some, false, refl, inl, inr, Bool, true, Option-cases, List, [], ◌∷◌, arith,
}
use ngh.Values.{
  Value, Kind, list_kind, tuple_kind, never_indexed, never_indexed_subclass, other_iterable, Bytes,
  bytes, bytearray, memoryview, sequence, mapping, nil, cons, Items, iterate,
}
use ngh.Errors.{Error, Result, ok, err, ◌>>=◌, or_raise, type_error}
use ngh.Headers.{
  Header, normalize_item, normalize_items, normalize_headers, make_header, make_each, make_headers,
}

-- What a header argument means: its items, each a pair of byte strings.
abbrev fields_of : Value → Result (List Header)
fields_of headers = or_raise (iterate headers) type_error >>= make_each

make_header-normalize_item :
    (deferred : Bool) (item : Value)
    → (normalize_item deferred item >>= make_header) ≡ make_header item
unfolding normalize_item make_header
make_header-normalize_item deferred item = ground arith

-- The error of a result, and a TypeError where there is none.
abbrev pub error_of : {A : Type 0} → Result A → Error
error_of (ok a) = type_error
error_of (err e) = e

-- Both loops raise a TypeError alone, so it does not matter which of them meets a bad item first.
error_of-make_header : (item : Value) → error_of (make_header item) ≡ type_error
unfolding make_header
error_of-make_header item = ground arith

error_of-normalize_item :
    (deferred : Bool) (item : Value) → error_of (normalize_item deferred item) ≡ type_error
unfolding normalize_item
error_of-normalize_item deferred item = ground arith

error_of-normalize_items :
    (deferred : Bool) (items : List Value) → error_of (normalize_items deferred items) ≡ type_error
unfolding normalize_items
error_of-normalize_items deferred [] = refl
error_of-normalize_items deferred (item ∷ items) =
    ground (arith, error_of-normalize_item deferred item, error_of-normalize_items deferred items)

make_each-normalize_items :
    (deferred : Bool) (items : List Value)
    → (normalize_items deferred items >>= make_each) ≡ make_each items
unfolding normalize_items make_each
make_each-normalize_items deferred [] = refl
make_each-normalize_items deferred (item ∷ items) = ground (
  arith,
  make_header-normalize_item deferred item,
  make_each-normalize_items deferred items,
  error_of-make_header item,
  error_of-normalize_items deferred items,
)

-- The two loops together, whether the snapshot is taken for now or for later.
make_headers-fields_of :
    (deferred : Bool) (allocates : ℕ → Bool) (headers : Value)
    → ((n : ℕ) → allocates n ≡ true)
    → (normalize_headers deferred headers >>= make_headers allocates) ≡ fields_of headers
unfolding normalize_headers make_headers
make_headers-fields_of deferred allocates headers room = elim (Option-cases (iterate headers)) [
  | inl e ↦ ground arith
  | inr (items, e) ↦ grind (arith, make_each-normalize_items deferred items, room)
]

-- The classes of a sequence that ask for a field which is never indexed.
abbrev pub asks_no_index : Kind → Bool
asks_no_index never_indexed = true
asks_no_index never_indexed_subclass = true
asks_no_index list_kind = false
asks_no_index tuple_kind = false
asks_no_index other_iterable = false

-- A field that an item stands for: a sequence of its name and its value, both byte strings, or a
-- mapping with these two keys.
abbrev pub IsField : Value → Header → Type 0
IsField (sequence kind (cons (bytes exact name) (cons (bytes plain value) nil))) h =
    (h.name ≡ name) × (h.value ≡ value) × (h.no_index ≡ asks_no_index kind)
IsField (mapping (Items.item (bytes exact name) a (Items.item (bytes plain value) b Items.end))) h =
    (h.name ≡ name) × (h.value ≡ value) × (h.no_index ≡ false)
IsField _ h = ⊥

-- Item by item, in order.
abbrev pub AreFields : List Value → List Header → Type 0
AreFields [] [] = Unit
AreFields [] (h ∷ hs) = ⊥
AreFields (i ∷ is) [] = ⊥
AreFields (i ∷ is) (h ∷ hs) = IsField i h × AreFields is hs

-- The argument is an iterable of items that stand for the fields.
abbrev pub Denotes : Value → List Header → Type 0
Denotes headers hs = (items : List Value) × (iterate headers ≡ some items) × AreFields items hs

-- An iterable of integers is no pair of byte strings.
module _ (exact : Bool) where
  make_header-byte_values :
      (bs : Bytes)
      → (make_header (bytes exact bs) ≡ err type_error)
        × (make_header (bytearray bs) ≡ err type_error)
        × (make_header (memoryview exact bs) ≡ err type_error)
  unfolding make_header
  make_header-byte_values [] = (refl, refl, refl)
  make_header-byte_values (a ∷ []) = (refl, refl, refl)
  make_header-byte_values (a ∷ b ∷ []) = (refl, refl, refl)
  make_header-byte_values (a ∷ b ∷ c ∷ bs) = (refl, refl, refl)

make_header-IsField : (i : Value) (h : Header) → make_header i ≡ ok h → IsField i h
unfolding make_header
make_header-IsField (bytes exact bs) h e = cc ((make_header-byte_values exact bs).0)
make_header-IsField (bytearray bs) h e = cc ((make_header-byte_values true bs).1)
make_header-IsField (memoryview contiguous bs) h e = cc ((make_header-byte_values contiguous bs).2)
make_header-IsField (sequence kind vs) h e = ground arith
make_header-IsField (mapping items) h e = ground arith
make_header-IsField _ h e = cc

IsField-make_header : (i : Value) (h : Header) → IsField i h → make_header i ≡ ok h
unfolding make_header
IsField-make_header (sequence kind vs) h f = ground arith
IsField-make_header (mapping items) h f = ground arith
IsField-make_header _ h f = absurd f

make_each-AreFields : (is : List Value) (hs : List Header) → make_each is ≡ ok hs → AreFields is hs
unfolding make_each
make_each-AreFields [] [] e = tt
make_each-AreFields [] (h ∷ hs) e = cc
make_each-AreFields (i ∷ is) [] e = ground arith
make_each-AreFields (i ∷ is) (h ∷ hs) e =
    ground (arith, make_header-IsField i h, make_each-AreFields is hs)

AreFields-make_each : (is : List Value) (hs : List Header) → AreFields is hs → make_each is ≡ ok hs
unfolding make_each
AreFields-make_each [] [] f = refl
AreFields-make_each [] (h ∷ hs) f = absurd f
AreFields-make_each (i ∷ is) [] f = absurd f
AreFields-make_each (i ∷ is) (h ∷ hs) f =
    ground (arith, IsField-make_header i h f.0, AreFields-make_each is hs f.1)

error_of-make_each : (is : List Value) → error_of (make_each is) ≡ type_error
unfolding make_each
error_of-make_each [] = refl
error_of-make_each (i ∷ is) = ground (arith, error_of-make_header i, error_of-make_each is)

fields_of-Denotes : (v : Value) (hs : List Header) → fields_of v ≡ ok hs → Denotes v hs
fields_of-Denotes v hs e = elim (Option-cases (iterate v)) [
  | inl p ↦ ground arith
  | inr (items, p) ↦ (items, p, make_each-AreFields items hs (ground arith))
]

Denotes-fields_of : (v : Value) (hs : List Header) → Denotes v hs → fields_of v ≡ ok hs
Denotes-fields_of v hs (items, p, f) = rw p (AreFields-make_each items hs f)

error_of-fields_of : (v : Value) → error_of (fields_of v) ≡ type_error
error_of-fields_of v = elim (Option-cases (iterate v)) [
  | inl p ↦ rw p refl
  | inr (items, p) ↦ rw p (error_of-make_each items)
]

-- With memory to spare, the two loops together give certain fields exactly on an iterable of items
-- that stand for them, in order: each of a name and a value that are byte strings of whichever
-- class, the field never indexed exactly if the item is a NeverIndexedHeader. On any other argument
-- they raise a TypeError. Both hold whether the snapshot is taken for now or for later.
pub make_headers-Denotes :
    (deferred : Bool) (allocates : ℕ → Bool) (headers : Value) (hs : List Header)
    → ((n : ℕ) → allocates n ≡ true)
    → let r = normalize_headers deferred headers >>= make_headers allocates in
      ((r ≡ ok hs) ↔ Denotes headers hs) × (error_of r ≡ type_error)
make_headers-Denotes deferred allocates headers hs room =
    rw (make_headers-fields_of deferred allocates headers room)
      ((fields_of-Denotes headers hs, Denotes-fields_of headers hs), error_of-fields_of headers)
