-- ===== src/Bodies/Ledger.antt =====
-- The bodies by their streams, and what their bytes come to.
use ngh.Base.{
  ℕ, ◌+◌, ◌%◌, ◌≡◌, refl, sym, ap, ap₂, subst, ◌∙◌, inl, inr, Bool-cases, true, false, none, some,
  List, [], ◌∷◌, arith, ◌==◌, if◌then◌else◌,
}
use ngh.Base.Lists.{length}
use ngh.Base.Dict.{Dict, IsDict, lookup, insert, erase, insert-IsDict, erase-IsDict}
use ngh.Base.Word.{size_mod, sub_size}
use ngh.Connection.{Connection, BodySource, new_body}
use ngh.Streams.{is_member}
use ngh.Lifecycle.{discard}
use ngh.Body.Queue.{pending, BodyIsValid}

-- How many bytes are queued on all streams.
abbrev pub total : Dict BodySource → ℕ
total [] = 0
total (e ∷ d) = length (pending e.1) + total d

abbrev pub AllValid : Dict BodySource → Type 0
AllValid [] = Unit
AllValid (e ∷ d) = BodyIsValid e.1 × AllValid d

-- One body for a stream, each in order, and `queued` counts all of their bytes, in a word.
pub record Counted (d : Dict BodySource) (queued : ℕ) : Type 0 where
  pub keys : IsDict d
  pub bodies : AllValid d
  pub sum : queued ≡ total d % size_mod

pub AllValid-lookup :
    (n : ℕ) (b : BodySource) (d : Dict BodySource)
    → AllValid d
    → lookup n d ≡ some b
    → BodyIsValid b
AllValid-lookup n b [] v e = cc
AllValid-lookup n b (x ∷ d) v e = elim (Bool-cases (x.0 == n)) [
  | inl k ↦ let p : x.1 ≡ b = ground arith in subst BodyIsValid p v.0
  | inr k ↦ AllValid-lookup n b d v.1 (ground arith)
]

AllValid-insert :
    (n : ℕ) (b : BodySource) (d : Dict BodySource)
    → BodyIsValid b
    → AllValid d
    → AllValid (insert n b d)
AllValid-insert n b [] w v = (w, tt)
AllValid-insert n b (x ∷ d) w v = elim (Bool-cases (x.0 == n)) [
  | inl k ↦ rw k (w, v.1)
  | inr k ↦ rw k (v.0, AllValid-insert n b d w v.1)
]

AllValid-erase : (n : ℕ) (d : Dict BodySource) → AllValid d → AllValid (erase n d)
AllValid-erase n [] v = tt
AllValid-erase n (x ∷ d) v = elim (Bool-cases (x.0 == n)) [
  | inl k ↦ rw k v.1
  | inr k ↦ rw k (v.0, AllValid-erase n d v.1)
]

pub total-erase :
    (n : ℕ) (b : BodySource) (d : Dict BodySource)
    → lookup n d ≡ some b
    → total d ≡ total (erase n d) + length (pending b)
total-erase n b [] e = cc
total-erase n b (x ∷ d) e = ground (arith, total-erase n b d)

total-insert :
    (n : ℕ) (b b' : BodySource) (d : Dict BodySource)
    → lookup n d ≡ some b
    → total (insert n b' d) ≡ total (erase n d) + length (pending b')
total-insert n b b' [] e = cc
total-insert n b b' (x ∷ d) e = ground (arith, total-insert n b b' d)

total-insert_new :
    (n : ℕ) (b : BodySource) (d : Dict BodySource)
    → lookup n d ≡ none
    → total (insert n b d) ≡ total d + length (pending b)
total-insert_new n b [] e = omega arith
total-insert_new n b (x ∷ d) e = ground (arith, total-insert_new n b d)

-- Another body for a stream that has one.
pub Counted-replace :
    (n queued : ℕ) (b b' : BodySource) (d : Dict BodySource) {q : ℕ}
    → Counted d q
    → lookup n d ≡ some b
    → BodyIsValid b'
    → queued ≡ (total (erase n d) + length (pending b')) % size_mod
    → Counted (insert n b' d) queued
Counted-replace n queued b b' d k e v h = record {
  keys = insert-IsDict n b' d k.keys;
  bodies = AllValid-insert n b' d v k.bodies;
  sum = h ∙ ap (λ t. t % size_mod) (sym (total-insert n b b' d e));
}

new_body-IsValid : BodyIsValid new_body
new_body-IsValid = record { in_bounds = omega arith; in_order = refl; counted = refl }

-- A body for a stream that has none.
pub Counted-open :
    (n : ℕ) (d : Dict BodySource) {q : ℕ}
    → Counted d q
    → lookup n d ≡ none
    → Counted (insert n new_body d) q
Counted-open n d k e = record {
  keys = insert-IsDict n new_body d k.keys;
  bodies = AllValid-insert n new_body d new_body-IsValid k.bodies;
  sum = omega (arith, k.sum, total-insert_new n new_body d e);
}

sub_size_sum : (t p : ℕ) → sub_size ((t + p) % size_mod) (p % size_mod) ≡ t % size_mod
unfolding sub_size
sub_size_sum t p = omega arith

pub Counted-drop :
    (n : ℕ) (b : BodySource) (d : Dict BodySource) {q : ℕ}
    → Counted d q
    → lookup n d ≡ some b
    → Counted (erase n d) (sub_size q b.queued_size)
Counted-drop n b d k e = record {
  keys = erase-IsDict n d k.keys;
  bodies = AllValid-erase n d k.bodies;
  sum =
      ap₂ sub_size (k.sum ∙ ap (λ t. t % size_mod) (total-erase n b d e))
        (AllValid-lookup n b d k.bodies e).counted
      ∙ sub_size_sum (total (erase n d)) (length (pending b));
}

pub Counted-empty : Counted [] 0
Counted-empty = record { keys = tt; bodies = tt; sum = refl }

-- Each body belongs to a stream that was answered.
abbrev pub Covered : Dict BodySource → List ℕ → Type 0
Covered [] rs = Unit
Covered (e ∷ d) rs = (is_member e.0 rs ≡ true) × Covered d rs

pub Covered-lookup :
    (n : ℕ) (b : BodySource) (d : Dict BodySource) (rs : List ℕ)
    → Covered d rs
    → lookup n d ≡ some b
    → is_member n rs ≡ true
Covered-lookup n b [] rs h e = cc
Covered-lookup n b (x ∷ d) rs h e = ground (arith, Covered-lookup n b d rs h.1, h.0)

pub Covered-insert :
    (n : ℕ) (b : BodySource) (d : Dict BodySource) (rs : List ℕ)
    → is_member n rs ≡ true
    → Covered d rs
    → Covered (insert n b d) rs
Covered-insert n b [] rs e h = (e, tt)
Covered-insert n b (x ∷ d) rs e h = elim (Bool-cases (x.0 == n)) [
  | inl k ↦ rw k (e, h.1)
  | inr k ↦ rw k (h.0, Covered-insert n b d rs e h.1)
]

pub Covered-cons : (n : ℕ) (d : Dict BodySource) (rs : List ℕ) → Covered d rs → Covered d (n ∷ rs)
unfolding is_member
Covered-cons n [] rs h = tt
Covered-cons n (x ∷ d) rs h = (ground (arith, h.0), Covered-cons n d rs h.1)

pub Covered-erase :
    (n : ℕ) (d : Dict BodySource) (rs : List ℕ) → Covered d rs → Covered (erase n d) rs
Covered-erase n [] rs h = tt
Covered-erase n (x ∷ d) rs h = elim (Bool-cases (x.0 == n)) [
  | inl k ↦ rw k h.1
  | inr k ↦ rw k (h.0, Covered-erase n d rs h.1)
]

is_member-discard :
    (n k : ℕ) (rs : List ℕ)
    → is_member k (discard n rs) ≡ (if k == n then false else is_member k rs)
unfolding is_member discard
is_member-discard n k [] = ground arith
is_member-discard n k (r ∷ rs) = ground (arith, is_member-discard n k rs)

pub Covered-discard :
    (n : ℕ) (d : Dict BodySource) (rs : List ℕ)
    → lookup n d ≡ none
    → Covered d rs
    → Covered d (discard n rs)
Covered-discard n [] rs e h = tt
Covered-discard n (x ∷ d) rs e h =
    (ground (arith, h.0, is_member-discard n x.0 rs), Covered-discard n d rs (ground arith) h.1)

-- What an initialised connection keeps of its bodies: on a server each belongs to a response that
-- is pending.
pub record Accounted {S : Type 0} (c : Connection S) : Type 0 where
  pub ready : c.initialized ≡ true
  pub counted : Counted c.bodies c.queued_body_size
  pub covered : c.is_server ≡ true → Covered c.bodies c.responses
