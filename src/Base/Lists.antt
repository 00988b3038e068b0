-- ===== src/Base/Lists.antt =====
-- Lists measured and cut by native numbers, and a memory block that is written at an offset.
use Prim.Native.Nat.{ℕ, zero, suc, ◌+◌, ◌-◌, ◌≤◌, ◌<◌, min}
use mathlib.Core.Path.{◌≡◌, refl, sym, ap, ◌∙◌}
use mathlib.Core.Logic.{◌⊎◌, inl, inr}
use mathlib.Core.List.{List, [], ◌∷◌, ◌++◌}
use mathlib.Core.Option.{Option, none, some}
use native.Mathlib.Omega.{arith}

module _ {ℓ} {A : Type ℓ} where
  abbrev pub length : List A → ℕ
  length [] = 0
  length (x ∷ xs) = suc (length xs)

  abbrev pub get_elem? : List A → ℕ → Option A
  get_elem? [] i = none
  get_elem? (x ∷ xs) zero = some x
  get_elem? (x ∷ xs) (suc i) = get_elem? xs i

  abbrev pub set : List A → ℕ → A → List A
  set [] i v = []
  set (x ∷ xs) zero v = v ∷ xs
  set (x ∷ xs) (suc i) v = x ∷ set xs i v

  abbrev pub take : ℕ → List A → List A
  take zero xs = []
  take (suc n) [] = []
  take (suc n) (x ∷ xs) = x ∷ take n xs

  abbrev pub drop : ℕ → List A → List A
  drop zero xs = xs
  drop (suc n) [] = []
  drop (suc n) (x ∷ xs) = drop n xs

  abbrev pub replicate : ℕ → A → List A
  replicate zero a = []
  replicate (suc n) a = a ∷ replicate n a

  -- `memcpy` into a block at an offset; what does not fit is dropped.
  abbrev pub overwrite : List A → List A → List A
  overwrite [] xs = []
  overwrite (b ∷ bs) [] = b ∷ bs
  overwrite (b ∷ bs) (x ∷ xs) = x ∷ overwrite bs xs

  abbrev pub write_at : List A → ℕ → List A → List A
  write_at block zero xs = overwrite block xs
  write_at [] (suc n) xs = []
  write_at (b ∷ block) (suc n) xs = b ∷ write_at block n xs

module _ {ℓ} {A : Type ℓ} where
  pub length-append : (xs ys : List A) → length (xs ++ ys) ≡ length xs + length ys
  length-append [] ys = omega arith
  length-append (x ∷ xs) ys = omega (arith, length-append xs ys)

  pub length-take : (n : ℕ) (xs : List A) → length (take n xs) ≡ min n (length xs)
  length-take zero xs = omega arith
  length-take (suc n) [] = omega arith
  length-take (suc n) (x ∷ xs) = omega (arith, length-take n xs)

  pub length-drop : (n : ℕ) (xs : List A) → length (drop n xs) ≡ length xs - n
  length-drop zero xs = omega arith
  length-drop (suc n) [] = omega arith
  length-drop (suc n) (x ∷ xs) = omega (arith, length-drop n xs)

  pub length-replicate : (n : ℕ) (a : A) → length (replicate n a) ≡ n
  length-replicate zero a = refl
  length-replicate (suc n) a = ap suc (length-replicate n a)

  pub take-append-drop : (n : ℕ) (xs : List A) → take n xs ++ drop n xs ≡ xs
  take-append-drop zero xs = refl
  take-append-drop (suc n) [] = refl
  take-append-drop (suc n) (x ∷ xs) = ap (◌∷◌ x) (take-append-drop n xs)

  pub take_all : (n : ℕ) (xs : List A) → length xs ≤ n → take n xs ≡ xs
  take_all zero [] h = refl
  take_all zero (x ∷ xs) h = absurd (omega arith)
  take_all (suc n) [] h = refl
  take_all (suc n) (x ∷ xs) h = ap (◌∷◌ x) (take_all n xs (omega arith))

  pub drop_all : (n : ℕ) (xs : List A) → length xs ≤ n → drop n xs ≡ []
  drop_all zero [] h = refl
  drop_all zero (x ∷ xs) h = absurd (omega arith)
  drop_all (suc n) [] h = refl
  drop_all (suc n) (x ∷ xs) h = drop_all n xs (omega arith)

  pub take-append :
      (n : ℕ) (xs ys : List A) → take n (xs ++ ys) ≡ take n xs ++ take (n - length xs) ys
  take-append zero xs ys = ap (λ k. take k ys) {x = zero} {y = zero - length xs} (omega arith)
  take-append (suc n) [] ys = ap (λ k. take k ys) {x = suc n} {y = suc n - 0} (omega arith)
  take-append (suc n) (x ∷ xs) ys =
      let e : n - length xs ≡ suc n - suc (length xs) = omega arith in
      ap (◌∷◌ x) (take-append n xs ys ∙ ap (λ k. take n xs ++ take k ys) e)

  pub drop-append :
      (n : ℕ) (xs ys : List A) → drop n (xs ++ ys) ≡ drop n xs ++ drop (n - length xs) ys
  drop-append zero xs ys = ap (λ k. xs ++ drop k ys) {x = zero} {y = zero - length xs} (omega arith)
  drop-append (suc n) [] ys = ap (λ k. drop k ys) {x = suc n} {y = suc n - 0} (omega arith)
  drop-append (suc n) (x ∷ xs) ys =
      let e : n - length xs ≡ suc n - suc (length xs) = omega arith in
      drop-append n xs ys ∙ ap (λ k. drop n xs ++ drop k ys) e

  pub drop-drop : (m n : ℕ) (xs : List A) → drop m (drop n xs) ≡ drop (n + m) xs
  drop-drop m zero xs = ap (λ k. drop k xs) {x = m} {y = zero + m} (omega arith)
  drop-drop m (suc n) [] = drop_all m [] (omega arith) ∙ sym (drop_all (suc n + m) [] (omega arith))
  drop-drop m (suc n) (x ∷ xs) =
      let e : suc (n + m) ≡ suc n + m = omega arith in
      drop-drop m n xs ∙ ap (λ k. drop k (x ∷ xs)) e

  pub length-overwrite : (block xs : List A) → length (overwrite block xs) ≡ length block
  length-overwrite [] xs = refl
  length-overwrite (b ∷ block) [] = refl
  length-overwrite (b ∷ block) (x ∷ xs) = ap suc (length-overwrite block xs)

  pub length-write_at :
      (block : List A) (n : ℕ) (xs : List A) → length (write_at block n xs) ≡ length block
  length-write_at block zero xs = length-overwrite block xs
  length-write_at [] (suc n) xs = refl
  length-write_at (b ∷ block) (suc n) xs = ap suc (length-write_at block n xs)

  take-overwrite :
      (block xs : List A) → length xs ≤ length block → take (length xs) (overwrite block xs) ≡ xs
  take-overwrite [] [] h = refl
  take-overwrite [] (x ∷ xs) h = absurd (omega arith)
  take-overwrite (b ∷ block) [] h = refl
  take-overwrite (b ∷ block) (x ∷ xs) h = ap (◌∷◌ x) (take-overwrite block xs (omega arith))

  -- A write that fits appends to what stands before its offset.
  pub take-write_at :
      (block : List A) (n : ℕ) (xs : List A)
      → n + length xs ≤ length block
      → take (n + length xs) (write_at block n xs) ≡ take n block ++ xs
  take-write_at block zero xs h =
      let e : zero + length xs ≡ length xs = omega arith in
      ap (λ k. take k (overwrite block xs)) e ∙ take-overwrite block xs (omega arith)
  take-write_at [] (suc n) xs h = absurd (omega arith)
  take-write_at (b ∷ block) (suc n) xs h =
      let e : suc n + length xs ≡ suc (n + length xs) = omega arith in
      ap (λ k. take k (b ∷ write_at block n xs)) e
      ∙ ap (◌∷◌ b) (take-write_at block n xs (omega arith))

  pub get_elem?-drop :
      (n : ℕ) (xs : List A) {x : A} {ys : List A} → drop n xs ≡ x ∷ ys → get_elem? xs n ≡ some x
  get_elem?-drop zero [] h = cc
  get_elem?-drop zero (y ∷ xs) h = ground arith
  get_elem?-drop (suc n) [] h = cc
  get_elem?-drop (suc n) (y ∷ xs) h = get_elem?-drop n xs h

  pub drop-set :
      (n : ℕ) (xs : List A) (v : A) {x : A} {ys : List A}
      → drop n xs ≡ x ∷ ys
      → drop (suc n) (set xs n v) ≡ ys
  drop-set zero [] v h = cc
  drop-set zero (y ∷ xs) v h = ground arith
  drop-set (suc n) [] v h = cc
  drop-set (suc n) (y ∷ xs) v h = drop-set n xs v h

  pub length-set : (xs : List A) (n : ℕ) (v : A) → length (set xs n v) ≡ length xs
  length-set [] n v = refl
  length-set (x ∷ xs) zero v = refl
  length-set (x ∷ xs) (suc n) v = ap suc (length-set xs n v)

  pub take_nil : (n : ℕ) → ◌≡◌ {A = List A} (take n []) []
  take_nil zero = refl
  take_nil (suc n) = refl

  -- The block of memory behind an index that is advanced.
  pub drop-set_next :
      (n : ℕ) (xs : List A) (v : A) {x : A} {ys : List A}
      → drop n xs ≡ x ∷ ys
      → drop (n + 1) (set xs n v) ≡ ys
  drop-set_next n xs v h =
      let e : n + 1 ≡ suc n = omega arith in ap (λ k. drop k (set xs n v)) e ∙ drop-set n xs v h

  pub lt-of_drop : (n : ℕ) (xs : List A) {x : A} {ys : List A} → drop n xs ≡ x ∷ ys → n < length xs
  lt-of_drop zero [] h = cc
  lt-of_drop zero (y ∷ xs) h = omega arith
  lt-of_drop (suc n) [] h = cc
  lt-of_drop (suc n) (y ∷ xs) h = omega (arith, lt-of_drop n xs h)

  -- A cut within the first part leaves the second whole.
  pub drop-append_of_le :
      (n : ℕ) (xs ys : List A) → n ≤ length xs → drop n (xs ++ ys) ≡ drop n xs ++ ys
  drop-append_of_le zero xs ys h = refl
  drop-append_of_le (suc n) [] ys h = absurd (omega arith)
  drop-append_of_le (suc n) (x ∷ xs) ys h = drop-append_of_le n xs ys (omega arith)

  pub take-append_of_le : (n : ℕ) (xs ys : List A) → n ≤ length xs → take n (xs ++ ys) ≡ take n xs
  take-append_of_le zero xs ys h = refl
  take-append_of_le (suc n) [] ys h = absurd (omega arith)
  take-append_of_le (suc n) (x ∷ xs) ys h = ap (◌∷◌ x) (take-append_of_le n xs ys (omega arith))

  -- Two cuts in a row.
  pub take-add : (m n : ℕ) (xs : List A) → take m xs ++ take n (drop m xs) ≡ take (m + n) xs
  take-add zero n xs = ap (λ k. take k xs) {x = n} {y = zero + n} (omega arith)
  take-add (suc m) n [] = take_nil n ∙ sym (take_nil (suc m + n))
  take-add (suc m) n (x ∷ xs) =
      let e : suc (m + n) ≡ suc m + n = omega arith in
      ap (◌∷◌ x) (take-add m n xs) ∙ ap (λ k. take k (x ∷ xs)) e

  pub List-cases : (xs : List A) → (xs ≡ []) ⊎ ((x : A) × (ys : List A) × (xs ≡ x ∷ ys))
  List-cases [] = inl refl
  List-cases (x ∷ xs) = inr (x, xs, refl)
