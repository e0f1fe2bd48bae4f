-- ===== src/Prelude/Dict.antt =====
-- A Go map with string keys, as a list of its entries. The order of the list stands for the
-- order in which a `range` loop meets the entries: the theorems hold for every list, so for
-- every order.
use Prim.Native.Nat.{◌+◌, ◌≤◌}
use mathlib.Core.List.{List, [], ◌∷◌}
use mathlib.Core.Logic.{◌≢◌, inl, inr}
use mathlib.Core.Bool.{false}
use mathlib.Core.Option.{Option, none, some}
use mathlib.Core.Path.{◌≡◌, refl}
use native.Mathlib.Omega.{arith}
use dns_server_mandiri.Prelude.Lists.{length}
use dns_server_mandiri.Prelude.Tests.{if◌then◌else◌, Option-cases}
use dns_server_mandiri.Prelude.Text.{Text, ◌==◌, eq_iff}

abbrev pub Dict {ℓ} : Type ℓ → Type ℓ
Dict V = List (Text × V)

module _ {ℓ} {V : Type ℓ} where
  unfoldable pub lookup : Text → Dict V → Option V
  lookup key ((j, v) ∷ rest) = if j == key then some v else lookup key rest
  lookup key [] = none

  -- `m[k] = v`
  unfoldable pub insert : Text → V → Dict V → Dict V
  insert key v ((j, w) ∷ rest) =
      let kept = (j, w) ∷ insert key v rest in if j == key then (key, v) ∷ rest else kept
  insert key v [] = (key, v) ∷ []

  -- `delete(m, k)`
  unfoldable pub delete : Text → Dict V → Dict V
  delete k [] = []
  delete k ((j, w) ∷ m) = let rest = delete k m in if j == k then rest else (j, w) ∷ rest

  -- No key stands twice.
  abbrev pub Distinct : Dict V → Type ℓ
  Distinct [] = Unit
  Distinct ((k, v) ∷ m) = (lookup k m ≡ none) × Distinct m

  pub lookup-insert :
      (stored asked : Text) (v : V) (m : Dict V)
      → lookup asked (insert stored v m) ≡ (if stored == asked then some v else lookup asked m)
  unfolding lookup insert
  lookup-insert stored asked v ((i, w) ∷ rest) = ground (
    arith,
    eq_iff stored asked,
    eq_iff i stored,
    eq_iff i asked,
    lookup-insert stored asked v rest,
  )
  lookup-insert stored asked v [] = refl

  pub lookup-insert_self : (k : Text) (v : V) (m : Dict V) → lookup k (insert k v m) ≡ some v
  lookup-insert_self k v m = ground (arith, lookup-insert k k v m, eq_iff k k)

  pub lookup-insert_ne :
      (k j : Text) (v : V) (m : Dict V) → k ≢ j → lookup j (insert k v m) ≡ lookup j m
  lookup-insert_ne k j v m h = ground (arith, lookup-insert k j v m, eq_iff k j)

  pub lookup-delete :
      (k j : Text) (m : Dict V) → lookup j (delete k m) ≡ (if k == j then none else lookup j m)
  unfolding lookup delete
  lookup-delete k j [] = ground arith
  lookup-delete k j ((i, w) ∷ m) =
      ground (arith, eq_iff k j, eq_iff i k, eq_iff i j, lookup-delete k j m)

  pub lookup-delete-some :
      (k j : Text) {v : V} (m : Dict V) → lookup j (delete k m) ≡ some v → lookup j m ≡ some v
  lookup-delete-some k j m h = ground (arith, lookup-delete k j m, eq_iff k j)

  pub Distinct-insert : (k : Text) (v : V) (m : Dict V) → Distinct m → Distinct (insert k v m)
  unfolding lookup insert
  Distinct-insert k v [] d = ground arith
  Distinct-insert k v ((j, w) ∷ m) d =
      ground (arith, Distinct-insert k v m d.1, lookup-insert k j v m, eq_iff k j, eq_iff j k)

  pub Distinct-delete : (k : Text) (m : Dict V) → Distinct m → Distinct (delete k m)
  unfolding delete
  Distinct-delete k [] d = tt
  Distinct-delete k ((j, w) ∷ m) d =
      ground (arith, Distinct-delete k m d.1, lookup-delete k j m, eq_iff k j, eq_iff j k)

  pub delete_absent : (k : Text) (m : Dict V) → lookup k m ≡ none → delete k m ≡ m
  unfolding lookup delete
  delete_absent k [] h = refl
  delete_absent k ((j, w) ∷ m) h = ground (arith, delete_absent k m)

  pub length-delete-le : (k : Text) (m : Dict V) → length (delete k m) ≤ length m
  unfolding delete
  length-delete-le k [] = omega arith
  length-delete-le k ((j, w) ∷ m) = ground (arith, length-delete-le k m)

  pub length-delete :
      (k : Text) (v : V) (m : Dict V)
      → Distinct m
      → lookup k m ≡ some v
      → length m ≡ length (delete k m) + 1
  unfolding lookup delete
  length-delete k v [] d h = ground arith
  length-delete k v ((j, w) ∷ m) d h =
      ground (arith, length-delete k v m d.1, delete_absent k m, eq_iff j k)

  pub length-insert_new :
      (k : Text) (v : V) (m : Dict V) → lookup k m ≡ none → length (insert k v m) ≡ length m + 1
  unfolding lookup insert
  length-insert_new k v [] h = omega arith
  length-insert_new k v ((j, w) ∷ m) h = ground (arith, length-insert_new k v m)

  pub length-insert_old :
      (k : Text) (v w : V) (m : Dict V) → lookup k m ≡ some w → length (insert k v m) ≡ length m
  unfolding lookup insert
  length-insert_old k v w [] h = ground arith
  length-insert_old k v w ((j, u) ∷ m) h = ground (arith, length-insert_old k v w m)

  pub length-insert-le : (k : Text) (v : V) (m : Dict V) → length (insert k v m) ≤ length m + 1
  length-insert-le k v m = elim (Option-cases (lookup k m)) [
    | inl e ↦ omega (arith, length-insert_new k v m e)
    | inr (w, e) ↦ omega (arith, length-insert_old k v w m e)
  ]

  -- Every entry of `m` is one of `n`.
  abbrev pub Sub : Dict V → Dict V → Type ℓ
  Sub m n = (k : Text) (v : V) → lookup k m ≡ some v → lookup k n ≡ some v

  pub lookup-head : (k : Text) (v : V) (m : Dict V) → lookup k ((k, v) ∷ m) ≡ some v
  unfolding lookup
  lookup-head k v m = ground (arith, eq_iff k k)

  pub lookup-tail :
      (k j : Text) (w v : V) (m : Dict V)
      → lookup k m ≡ none
      → lookup j m ≡ some v
      → (k ≢ j) × (lookup j ((k, w) ∷ m) ≡ some v)
  unfolding lookup
  lookup-tail k j w v m h e = (λ p. absurd (clash p), ground (arith, eq_iff k j, clash))
    where
      clash : k ≡ j → ⊥
      clash p = ground arith

  pub Sub-head : (k : Text) (v : V) (m n : Dict V) → Sub ((k, v) ∷ m) n → lookup k n ≡ some v
  Sub-head k v m n s = s k v (lookup-head k v m)

  pub Sub-tail :
      (k : Text) (v : V) (m n : Dict V) → lookup k m ≡ none → Sub ((k, v) ∷ m) n → Sub m n
  Sub-tail k v m n h s = λ j w e. s j w (lookup-tail k j v w m h e).1

  pub Sub-delete :
      (k : Text) (v : V) (m n : Dict V)
      → lookup k m ≡ none
      → Sub ((k, v) ∷ m) n
      → Sub m (delete k n)
  Sub-delete k v m n h s = λ j w e.
      let (ne, e') = lookup-tail k j v w m h e in
      ground (arith, lookup-delete k j n, eq_iff k j, s j w e')

  pub delete-Sub : (k : Text) (m : Dict V) → Sub (delete k m) m
  delete-Sub k m = λ j w e. lookup-delete-some k j m e

  pub lookup-cons_none :
      (k j : Text) (v : V) (m : Dict V)
      → lookup j ((k, v) ∷ m) ≡ none
      → (k ≢ j) × (lookup j m ≡ none)
  unfolding lookup
  lookup-cons_none k j v m h = (λ p. absurd (clash p), ground (arith, eq_iff k j))
    where
      clash : k ≡ j → ⊥
      clash p = ground (arith, eq_iff k j)

  pub lookup-delete_ne : (k j : Text) (m : Dict V) → k ≢ j → lookup j (delete k m) ≡ lookup j m
  lookup-delete_ne k j m h = ground (arith, lookup-delete k j m, eq_iff k j)

  pub lookup-delete_self : (k : Text) (m : Dict V) → lookup k (delete k m) ≡ none
  lookup-delete_self k m = ground (arith, lookup-delete k k m, eq_iff k k)

  pub none-Sub : (k : Text) (m n : Dict V) → Sub m n → lookup k n ≡ none → lookup k m ≡ none
  none-Sub k m n s h = elim (Option-cases (lookup k m)) [
    | inl e ↦ e
    | inr (w, e) ↦ let q = s k w e in ground arith
  ]

  pub lookup-nil : (k : Text) (v : V) → lookup k [] ≡ some v → ⊥
  unfolding lookup
  lookup-nil k v h = ground arith

  pub lookup-cons_here :
      (j k : Text) (w v : V) (m : Dict V) → j ≡ k → lookup k ((j, w) ∷ m) ≡ some v → w ≡ v
  unfolding lookup
  lookup-cons_here j k w v m at h = ground (arith, eq_iff j k)

  pub lookup-cons_there :
      (j k : Text) (w v : V) (m : Dict V)
      → (j == k) ≡ false
      → lookup k ((j, w) ∷ m) ≡ some v
      → lookup k m ≡ some v
  unfolding lookup
  lookup-cons_there j k w v m ne h = ground arith
