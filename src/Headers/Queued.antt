-- ===== src/Headers/Queued.antt =====
-- What `_normalize_headers(headers, deferred=True)` keeps for later.
use ngh.Base.{◌≡◌, subst, sym, Bool, true, false, ◌&&◌, List, [], ◌∷◌, arith}
use ngh.Values.{Value, tuple_kind, never_indexed, sequence, cons, nil, bytes, iterate}
use ngh.Errors.Results.{bind_ok}
use ngh.Errors.{ok, ◌>>=◌, or_raise, type_error}
use ngh.Headers.{normalize_item, normalize_items, normalize_headers}

-- `type(field) is bytes`
abbrev pub is_exact : Value → Bool
is_exact (bytes exact bs) = exact
is_exact _ = false

-- A `tuple` or `NeverIndexedHeader` itself, of two `bytes` themselves.
abbrev pub is_built_in : Value → Bool
is_built_in (sequence tuple_kind (cons name (cons value nil))) = is_exact name && is_exact value
is_built_in (sequence never_indexed (cons name (cons value nil))) = is_exact name && is_exact value
is_built_in _ = false

abbrev pub AllBuiltIn : List Value → Type 0
AllBuiltIn [] = Unit
AllBuiltIn (v ∷ vs) = (is_built_in v ≡ true) × AllBuiltIn vs

normalize_item-built_in :
    (item frozen : Value) → normalize_item true item ≡ ok frozen → is_built_in frozen ≡ true
unfolding normalize_item
normalize_item-built_in item frozen e = ground arith

ok_inj : {xs ys : List Value} → ok xs ≡ ok ys → xs ≡ ys
ok_inj e = cc

consed :
    (f : Value) (fs gs : List Value)
    → is_built_in f ≡ true
    → AllBuiltIn fs
    → ok (f ∷ fs) ≡ ok gs
    → AllBuiltIn gs
consed f fs gs h k e = subst AllBuiltIn (ok_inj e) (h, k)

normalize_items-built_in :
    (items fields : List Value) → normalize_items true items ≡ ok fields → AllBuiltIn fields
unfolding normalize_items
normalize_items-built_in [] [] e = tt
normalize_items-built_in [] (f ∷ fs) e = cc
normalize_items-built_in (item ∷ items) fields e =
    let (frozen, rest, h) =
      bind_ok (λ f. normalize_items true items >>= λ fs. ok (f ∷ fs)) fields
        (normalize_item true item) e in
    let (others, last, k) =
      bind_ok (λ fs. ok (frozen ∷ fs)) fields (normalize_items true items) rest in
    consed frozen others fields (normalize_item-built_in item frozen (sym h))
      (normalize_items-built_in items others (sym k)) last

-- What is queued for the end of a body, and used in a callback, is made of `tuple` or
-- `NeverIndexedHeader` objects of two `bytes` objects, none of a class that a caller defines.
pub normalize_headers-AllBuiltIn :
    (headers : Value) (fields : List Value)
    → normalize_headers true headers ≡ ok fields
    → AllBuiltIn fields
unfolding normalize_headers
normalize_headers-AllBuiltIn headers fields e =
    let (items, rest, h) =
      bind_ok (normalize_items true) fields (or_raise (iterate headers) type_error) e in
    normalize_items-built_in items fields rest
