-- ===== src/Common/Lists.antt =====
-- Byte sequences as lists, measured and indexed by native numbers.
use Prim.Native.Nat.{ℕ, zero, suc, ◌+◌, ◌-◌, min}
use mathlib.Core.Path.{◌≡◌, refl, ap, ap₂, sym, ◌∙◌}
use mathlib.Core.List.{List, [], ◌∷◌, ◌++◌, append_assoc}
use mathlib.Core.Option.{Option, none, some}
use native.Mathlib.Omega.{arith}

module _ {ℓ} {A : Type ℓ} where
  abbrev pub length : List A → ℕ
  length [] = 0
  length (x ∷ xs) = suc (length xs)

  abbrev pub get_elem? : List A → ℕ → Option A
  get_elem? [] i = none
  get_elem? (x ∷ xs) zero = some x
  get_elem? (x ∷ xs) (suc i) = get_elem? xs i

  abbrev pub get_or : List A → ℕ → A → A
  get_or [] i d = d
  get_or (x ∷ xs) zero d = x
  get_or (x ∷ xs) (suc i) d = get_or xs i d

  -- A write out of bounds changes nothing.
  abbrev pub set : List A → ℕ → A → List A
  set [] i v = []
  set (x ∷ xs) zero v = v ∷ xs
  set (x ∷ xs) (suc i) v = x ∷ set xs i v

  abbrev pub take : ℕ → List A → List A
  take zero xs = []
  take (suc n) [] = []
  take (suc n) (x ∷ xs) = x ∷ take n xs

  abbrev pub drop : ℕ → List A → List A
  drop zero xs = xs
  drop (suc n) [] = []
  drop (suc n) (x ∷ xs) = drop n xs

  abbrev pub All {κ} : (A → Type κ) → List A → Type κ
  All P [] = Unit {κ}
  All P (x ∷ xs) = P x × All P xs

module _ {ℓ} {A : Type ℓ} where
  pub length-append : (xs ys : List A) → length (xs ++ ys) ≡ length xs + length ys
  length-append [] ys = omega arith
  length-append (x ∷ xs) ys = omega (arith, length-append xs ys)

  pub length-take : (n : ℕ) (xs : List A) → length (take n xs) ≡ min n (length xs)
  length-take zero xs = omega arith
  length-take (suc n) [] = omega arith
  length-take (suc n) (x ∷ xs) = omega (arith, length-take n xs)

  pub length-drop : (n : ℕ) (xs : List A) → length (drop n xs) ≡ length xs - n
  length-drop zero xs = omega arith
  length-drop (suc n) [] = omega arith
  length-drop (suc n) (x ∷ xs) = omega (arith, length-drop n xs)

  pub take-append-drop : (n : ℕ) (xs : List A) → take n xs ++ drop n xs ≡ xs
  take-append-drop zero xs = refl
  take-append-drop (suc n) [] = refl
  take-append-drop (suc n) (x ∷ xs) = ap (λ t. x ∷ t) (take-append-drop n xs)

  pub take_all : (xs : List A) → take (length xs) xs ≡ xs
  take_all [] = refl
  take_all (x ∷ xs) = ap (λ t. x ∷ t) (take_all xs)

  pub take-append : (xs ys : List A) → take (length xs) (xs ++ ys) ≡ xs
  take-append [] ys = refl
  take-append (x ∷ xs) ys = ap (λ t. x ∷ t) (take-append xs ys)

  pub drop-append : (xs ys : List A) → drop (length xs) (xs ++ ys) ≡ ys
  drop-append [] ys = refl
  drop-append (x ∷ xs) ys = drop-append xs ys

  pub drop-drop : (n m : ℕ) (xs : List A) → drop m (drop n xs) ≡ drop (n + m) xs
  drop-drop zero m xs = ap (λ (k : ℕ). drop k xs) (let e : m ≡ 0 + m = omega arith in e)
  drop-drop (suc n) zero [] =
      ap (λ (k : ℕ). drop {A = A} k []) (let e : suc n ≡ suc n + 0 = omega arith in e)
  drop-drop (suc n) (suc m) [] = refl'
    where
      refl' : drop {A = A} (suc m) [] ≡ drop (suc n + suc m) []
      refl' =
          ap (λ (k : ℕ). drop {A = A} k [])
            (let e : suc (n + suc m) ≡ suc n + suc m = omega arith in e)
  drop-drop (suc n) m (x ∷ xs) =
      drop-drop n m xs
      ∙ ap (λ (k : ℕ). drop k (x ∷ xs)) (let e : suc (n + m) ≡ suc n + m = omega arith in e)

  -- A write just behind a prefix.
  pub set-append : (xs ys : List A) (y v : A) → set (xs ++ (y ∷ ys)) (length xs) v ≡ xs ++ (v ∷ ys)
  set-append [] ys y v = refl
  set-append (x ∷ xs) ys y v = ap (λ t. x ∷ t) (set-append xs ys y v)

  pub set-append_next :
      (xs ys : List A) (x y v : A)
      → set (xs ++ (x ∷ y ∷ ys)) (length xs + 1) v ≡ (xs ++ (x ∷ [])) ++ (v ∷ ys)
  set-append_next xs ys x y v =
      ap₂ (λ (l : List A) (i : ℕ). set l i v) (sym (append_assoc xs (x ∷ []) (y ∷ ys)))
        (let e : length xs + 1 ≡ length (xs ++ (x ∷ [])) =
            omega (arith, length-append xs (x ∷ [])) in
          e)
      ∙ set-append (xs ++ (x ∷ [])) ys y v

  pub get_or-append : (xs ys : List A) (y d : A) → get_or (xs ++ (y ∷ ys)) (length xs) d ≡ y
  get_or-append [] ys y d = refl
  get_or-append (x ∷ xs) ys y d = get_or-append xs ys y d

  pub length-set : (xs : List A) (i : ℕ) (v : A) → length (set xs i v) ≡ length xs
  length-set [] i v = refl
  length-set (x ∷ xs) zero v = refl
  length-set (x ∷ xs) (suc i) v = ap suc (length-set xs i v)

  pub All-append {κ} : (P : A → Type κ) (xs ys : List A) → All P xs → All P ys → All P (xs ++ ys)
  All-append P [] ys p q = q
  All-append P (x ∷ xs) ys (h, p) q = (h, All-append P xs ys p q)
