-- ===== src/Values.antt =====
-- The Python objects that a caller hands to `ngh2.Connection` (src/ngh2/_core.pyx): one data type
-- of values, with the conversions of the language that the module applies to them.
use ngh.Base.{ℕ, zero, Bool, true, false, Option, none, some, List, [], ◌∷◌}
use ngh.Base.Int.{ℤ, pos}

abbrev pub Bytes : Type 0
Bytes = List ℕ

-- The class of a sequence: `list`, `tuple`, `NeverIndexedHeader` or a subclass of that one, or any
-- other iterable, subclasses of `list` and `tuple` among them.
pub data Kind : Type 0 where
  list_kind tuple_kind never_indexed never_indexed_subclass other_iterable : Kind

mutual
  pub data Value : Type 0 where
    none_value opaque : Value
    bool : Bool → Value
    int : ℤ → Value
    -- An object that is no `int` but has `__index__`.
    index : ℤ → Value
    -- The flag tells `bytes` itself from a subclass of it.
    bytes : Bool → List ℕ → Value
    bytearray : List ℕ → Value
    -- The flag says whether the view is contiguous.
    memoryview : Bool → List ℕ → Value
    sequence : Kind → Values → Value
    mapping : Items → Value
    -- A `Priority`, by its two fields.
    priority : Value → Value → Value

  pub data Values : Type 0 where
    nil : Values
    cons : Value → Values → Values

  pub data Items : Type 0 where
    end : Items
    item : Value → Value → Items → Items

unfoldable pub elements : Values → List Value
elements nil = []
elements (cons v vs) = v ∷ elements vs

unfoldable pub of_elements : List Value → Values
of_elements [] = nil
of_elements (v ∷ vs) = cons v (of_elements vs)

unfoldable pub item_list : Items → List (Value × Value)
item_list end = []
item_list (item k v rest) = (k, v) ∷ item_list rest

unfoldable pub keys : Items → List Value
keys end = []
keys (item k v rest) = k ∷ keys rest

unfoldable pub byte_values : Bytes → List Value
byte_values [] = []
byte_values (b ∷ bs) = int (pos b) ∷ byte_values bs

-- `iter(value)`, run to its end; `none` where the object is not iterable.
unfoldable pub iterate : Value → Option (List Value)
unfolding elements keys byte_values
iterate (sequence kind vs) = some (elements vs)
iterate (mapping items) = some (keys items)
iterate (bytes exact bs) = some (byte_values bs)
iterate (bytearray bs) = some (byte_values bs)
iterate (memoryview contiguous bs) = some (byte_values bs)
iterate _ = none

-- `operator.index`; `none` is its TypeError.
unfoldable pub integer_index : Value → Option ℤ
integer_index (int n) = some n
integer_index (index n) = some n
integer_index (bool true) = some (pos 1)
integer_index (bool false) = some (pos 0)
integer_index _ = none

-- `first, second = value`; `none` is its TypeError or ValueError.
abbrev pair_of : Option (List Value) → Option (Value × Value)
pair_of (some (a ∷ b ∷ [])) = some (a, b)
pair_of _ = none

unfoldable pub unpack_pair : Value → Option (Value × Value)
unfolding iterate
unpack_pair v = pair_of (iterate v)

-- The truth value of an object; an object of another class counts as true.
unfoldable pub truthy : Value → Bool
truthy none_value = false
truthy (bool b) = b
truthy (int (pos zero)) = false
truthy (bytes exact []) = false
truthy (bytearray []) = false
truthy (memoryview contiguous []) = false
truthy (sequence list_kind nil) = false
truthy (sequence tuple_kind nil) = false
truthy (mapping end) = false
truthy _ = true
