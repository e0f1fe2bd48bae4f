-- ===== src/Prelude/Lists.antt =====
-- Lists measured and indexed by native numbers, under the library's names.
use Prim.Native.Nat.{ℕ, zero, suc, ◌+◌, ◌≤◌, ◌<◌, min}
use mathlib.Core.List.{List, [], ◌∷◌, ◌++◌, map, Memᴰ}
use mathlib.Core.List.Memᴰ.{head, tail}
use mathlib.Core.Logic.{◌≢◌, ◌⊎◌, inl, inr}
use mathlib.Core.Path.{◌≡◌, refl, sym, ap, ◌∙◌}
use native.Mathlib.Omega.{arith}

-- A predicate of every element, by recursion.
abbrev pub All {ℓ κ} : {A : Type ℓ} → (A → Type κ) → List A → Type κ
All holds (a ∷ rest) = holds a × All holds rest
All holds [] = Unit

module _ {ℓ} {A : Type ℓ} where
  abbrev pub length : List A → ℕ
  length (x ∷ xs) = suc (length xs)
  length [] = 0

  abbrev pub get_or : List A → ℕ → A → A
  get_or [] i default = default
  get_or (x ∷ xs) zero default = x
  get_or (x ∷ xs) (suc i) default = get_or xs i default

  -- A write out of bounds changes nothing.
  abbrev pub set : List A → ℕ → A → List A
  set [] i v = []
  set (x ∷ xs) zero v = v ∷ xs
  set (x ∷ xs) (suc i) v = x ∷ set xs i v

  abbrev pub take : ℕ → List A → List A
  take (suc n) (x ∷ rest) = x ∷ take n rest
  take (suc n) [] = []
  take zero rest = []

  abbrev pub replicate : ℕ → A → List A
  replicate zero a = []
  replicate (suc n) a = a ∷ replicate n a

  pub length-append : (xs ys : List A) → length (xs ++ ys) ≡ length xs + length ys
  length-append (x ∷ rest) ys = omega (arith, length-append rest ys)
  length-append [] ys = omega arith

  pub length-take : (n : ℕ) (xs : List A) → length (take n xs) ≡ min n (length xs)
  length-take (suc n) (x ∷ rest) = omega (arith, length-take n rest)
  length-take (suc n) [] = omega arith
  length-take zero rest = omega arith

  pub take_of_length-le : (n : ℕ) (xs : List A) → length xs ≤ n → take n xs ≡ xs
  take_of_length-le (suc n) (x ∷ rest) short = ap (◌∷◌ x) (take_of_length-le n rest (omega arith))
  take_of_length-le zero (x ∷ rest) short = absurd (omega arith)
  take_of_length-le (suc n) [] short = refl
  take_of_length-le zero [] short = refl

  -- Two cuts that agree, or that both keep the whole list.
  pub take_same :
      (a b : ℕ) (xs : List A)
      → (a ≡ b) ⊎ ((length xs ≤ a) × (length xs ≤ b))
      → take a xs ≡ take b xs
  take_same a b xs (inl e) = ap (λ n. take n xs) e
  take_same a b xs (inr (p, q)) = take_of_length-le a xs p ∙ sym (take_of_length-le b xs q)

  pub length-set : (xs : List A) (i : ℕ) (v : A) → length (set xs i v) ≡ length xs
  length-set (x ∷ rest) (suc i) v = ap suc (length-set rest i v)
  length-set (x ∷ rest) zero v = refl
  length-set [] i v = refl

  pub length-replicate : (n : ℕ) (a : A) → length (replicate n a) ≡ n
  length-replicate zero a = refl
  length-replicate (suc n) a = ap suc (length-replicate n a)

  pub get_or-set_self :
      (xs : List A) (i : ℕ) (v d : A) → i < length xs → get_or (set xs i v) i d ≡ v
  get_or-set_self [] i v d h = absurd (omega arith)
  get_or-set_self (x ∷ xs) zero v d h = refl
  get_or-set_self (x ∷ xs) (suc i) v d h = get_or-set_self xs i v d (omega arith)

  pub get_or-set_ne :
      (xs : List A) {i j : ℕ} (v d : A) → i ≢ j → get_or (set xs i v) j d ≡ get_or xs j d
  get_or-set_ne [] v d h = refl
  get_or-set_ne (x ∷ xs) {i = zero} {j = zero} v d h = absurd (h refl)
  get_or-set_ne (x ∷ xs) {i = zero} {j = suc j} v d h = refl
  get_or-set_ne (x ∷ xs) {i = suc i} {j = zero} v d h = refl
  get_or-set_ne (x ∷ xs) {i = suc i} {j = suc j} v d h = get_or-set_ne xs v d (λ e. h (ap suc e))

  pub append-cons-ne-nil : (xs : List A) (y : A) (ys : List A) → xs ++ (y ∷ ys) ≢ []
  append-cons-ne-nil [] y ys h = ground arith
  append-cons-ne-nil (x ∷ xs) y ys h = ground arith

module _ {ℓ κ} {A : Type ℓ} {B : Type κ} (f : A → B) where
  pub mem-map : (xs : List A) (x : A) → Memᴰ x xs → Memᴰ (f x) (map f xs)
  mem-map [] x i = elim i [ ]
  mem-map (y ∷ ys) x (head e) = head (ap f e)
  mem-map (y ∷ ys) x (tail i) = tail (mem-map ys x i)

  pub length-map : (xs : List A) → length (map f xs) ≡ length xs
  length-map [] = refl
  length-map (x ∷ xs) = ap suc (length-map xs)
