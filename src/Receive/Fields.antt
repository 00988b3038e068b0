-- ===== src/Receive/Fields.antt =====
-- The limits on a received header block.
use ngh.Base.{
  ℕ, ◌+◌, ◌≤◌, ◌<◌, ◌≡◌, refl, sym, ap, subst, ◌⊎◌, inl, inr, Bool, true, false, some, List, [],
  ◌∷◌, ◌++◌, arith,
}
use mathlib.Core.List.{append_assoc, append-nil}
use ngh.Base.Lists.{length, length-append}
use ngh.Base.Word.{size_mod, ssize_max}
use ngh.Errors.{done, failure, callback_failure, denial_of_service}
use ngh.Headers.{Header}
use ngh.Engine.{Reply}
use ngh.Connection.{Connection}
use ngh.Callbacks.{replies}
use ngh.Receive.{header, begin_headers}

-- The size of a field as RFC 9113 counts it.
abbrev pub field_size : Header → ℕ
field_size h = length h.name + length h.value + 32

abbrev pub list_size : List Header → ℕ
list_size [] = 0
list_size (h ∷ hs) = field_size h + list_size hs

-- The block so far: these fields with their size, under the limits `max_size` and `max_count`.
pub record Collects {S : Type 0} (max_size max_count : ℕ) (hs : List Header) (c : Connection S)
    : Type 0 where
  pub fields : c.current_headers ≡ hs
  pub size : c.current_header_size ≡ list_size hs
  pub size_limit : c.max_inbound_header_list_size ≡ max_size
  pub count_limit : c.max_inbound_header_count ≡ max_count

-- The callbacks for a list of fields, as far as they succeed; the answer says whether all did.
abbrev pub receive_fields : {S : Type 0} → List Header → Connection S → Bool × Connection S
receive_fields [] c = (true, c)
receive_fields (h ∷ hs) c =
    let (reply, d) = header h.name h.value h.no_index c in
    let rest = receive_fields hs d in elim reply.status [ done _ ↦ rest | failure _ ↦ (false, d) ]

abbrev pub Fits : ℕ → ℕ → List Header → Type 0
Fits max_size max_count hs = (list_size hs ≤ max_size) × (length hs ≤ max_count)

abbrev pub Exceeds : ℕ → ℕ → List Header → Type 0
Exceeds max_size max_count hs = (max_size < list_size hs) ⊎ (max_count < length hs)

-- Each field alone fits a `Py_ssize_t`.
abbrev pub AreSmall : List Header → Type 0
AreSmall [] = Unit
AreSmall (h ∷ hs) = (field_size h ≤ ssize_max) × AreSmall hs

list_size-append : (xs ys : List Header) → list_size (xs ++ ys) ≡ list_size xs + list_size ys
list_size-append [] ys = omega arith
list_size-append (x ∷ xs) ys = omega (arith, list_size-append xs ys)

-- One field more, of which the connection makes these.
abbrev with_field : {S : Type 0} → Header → ℕ → Connection S → Connection S
with_field h size c = record c {
  current_headers = c.current_headers ++ h ∷ [];
  current_header_size = size;
}

abbrev Step : {S : Type 0} → ℕ → Header → Connection S → Reply × Connection S → Type 0
Step size h c (reply, d) =
    ((size ≤ c.max_inbound_header_list_size)
      × (length c.current_headers < c.max_inbound_header_count)
      × (reply ≡ replies (done 0))
      × (d ≡ with_field h size c))
    ⊎ (((c.max_inbound_header_list_size < size)
          ⊎ (c.max_inbound_header_count ≤ length c.current_headers))
        × (reply ≡ replies (failure callback_failure))
        × (d.callback_error ≡ some denial_of_service))

module _ {S : Type 0} where
  header-Step :
      (h : Header) (c : Connection S)
      → c.current_header_size + field_size h < size_mod
      → Step (c.current_header_size + field_size h) h c (header h.name h.value h.no_index c)
  unfolding header
  header-Step h c small = ground arith

-- How a block ends.
abbrev pub Ends : {S : Type 0} → ℕ → ℕ → List Header → Bool × Connection S → Type 0
Ends max_size max_count hs (all, d) =
    (Fits max_size max_count hs × (all ≡ true) × Collects max_size max_count hs d)
    ⊎ (Exceeds max_size max_count hs × (all ≡ false) × (d.callback_error ≡ some denial_of_service))

module _ {S : Type 0} (max_size max_count : ℕ) (bounded : max_size ≤ ssize_max) where
  step-Collects :
      (ps : List Header) (h : Header) (c : Connection S)
      → Collects max_size max_count ps c
      → Collects max_size max_count
          (ps ++ h ∷ [])
          (with_field h (c.current_header_size + field_size h) c)
  step-Collects ps h c v = record {
    fields = ap (λ k. k ++ h ∷ []) v.fields;
    size = omega (arith, v.size, list_size-append ps (h ∷ []));
    size_limit = v.size_limit;
    count_limit = v.count_limit;
  }

  Exceeds-append :
      (ps : List Header) (h : Header) (hs : List Header) (c : Connection S)
      → Collects max_size max_count ps c
      → (c.max_inbound_header_list_size < c.current_header_size + field_size h)
        ⊎ (c.max_inbound_header_count ≤ length c.current_headers)
      → Exceeds max_size max_count (ps ++ h ∷ hs)
  Exceeds-append ps h hs c v (inl e) =
      inl (omega (arith, v.size, v.size_limit, e, list_size-append ps (h ∷ hs)))
  Exceeds-append ps h hs c v (inr e) =
      inr (omega (arith, ap length v.fields, v.count_limit, e, length-append ps (h ∷ hs)))

  -- The rest of the block, after the answer to one field.
  abbrev after_field : List Header → Reply × Connection S → Bool × Connection S
  after_field fs (reply, d) =
      let rest = receive_fields fs d in elim reply.status [ done _ ↦ rest | failure _ ↦ (false, d) ]

  after_field-Ends :
      (ps : List Header) (h : Header) (fs : List Header) (c : Connection S)
      (r : Reply × Connection S)
      → Collects max_size max_count ps c
      → Step (c.current_header_size + field_size h) h c r
      → ((d : Connection S)
          → Collects max_size max_count (ps ++ h ∷ []) d
          → Fits max_size max_count (ps ++ h ∷ [])
          → Ends max_size max_count (ps ++ h ∷ fs) (receive_fields fs d))
      → Ends max_size max_count (ps ++ h ∷ fs) (after_field fs r)
  after_field-Ends ps h fs c (reply, d) v (inl (a, b, er, ed)) ih =
      subst (λ q. Ends max_size max_count (ps ++ h ∷ fs) (after_field fs (q, d))) (sym er)
        (ih d (subst (Collects max_size max_count (ps ++ h ∷ [])) (sym ed) (step-Collects ps h c v))
          (
            omega (arith, a, v.size, v.size_limit, list_size-append ps (h ∷ [])),
            omega (arith, b, ap length v.fields, v.count_limit, length-append ps (h ∷ [])),
          ))
  after_field-Ends ps h fs c (reply, d) v (inr (x, er, ed)) ih =
      subst (λ q. Ends max_size max_count (ps ++ h ∷ fs) (after_field fs (q, d))) (sym er)
        (inr (Exceeds-append ps h fs c v x, refl, ed))

  receive_fields-Ends :
      (fs ps : List Header) (c : Connection S)
      → AreSmall fs
      → Collects max_size max_count ps c
      → Fits max_size max_count ps
      → Ends max_size max_count (ps ++ fs) (receive_fields fs c)
  receive_fields-Ends [] ps c small v f =
      subst (λ k. Ends max_size max_count k (true, c)) (sym (append-nil ps)) (inl (f, refl, v))
  receive_fields-Ends (h ∷ fs) ps c small v f =
      after_field-Ends ps h fs c (header h.name h.value h.no_index c) v
        (header-Step h c (omega (arith, v.size, f.0, small.0, bounded)))
        λ d w fits.
          subst (λ k. Ends max_size max_count k (receive_fields fs d)) (append_assoc ps (h ∷ []) fs)
            (receive_fields-Ends fs (ps ++ h ∷ []) d small.1 w fits)

-- A header block whose fields are no larger than the address space is collected, field by field and
-- in order, exactly if its size with 32 bytes for each field and the number of its fields are within
-- the configured limits; otherwise a DenialOfServiceError is left for the caller, and the rest of
-- the block is not taken.
pub header_block_lem :
    {S : Type 0} (fs : List Header) (c : Connection S)
    → c.max_inbound_header_list_size ≤ ssize_max
    → AreSmall fs
    → Ends c.max_inbound_header_list_size c.max_inbound_header_count fs
        (receive_fields fs (begin_headers c).1)
unfolding begin_headers
header_block_lem fs c bounded small =
    receive_fields-Ends c.max_inbound_header_list_size c.max_inbound_header_count bounded fs []
      (begin_headers c).1 small
      (record { fields = refl; size = refl; size_limit = refl; count_limit = refl })
      (omega arith, omega arith)
