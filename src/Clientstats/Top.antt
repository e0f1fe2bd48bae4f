-- ===== src/Clientstats/Top.antt =====
-- The clients with the most queries.
use dns_server_mandiri.Prelude.{ℕ, ◌≤◌, ◌≡◌, List, [], ◌∷◌, All, length}
use mathlib.Core.List.{Memᴰ}

module _ {ℓ} {A : Type ℓ} (measure : A → ℕ) where
  -- No element measures more than one before it.
  abbrev pub Descends : List A → Type 0
  Descends [] = Unit
  Descends (x ∷ xs) = All (λ y. measure y ≤ measure x) xs × Descends xs

  -- What `sort.Slice` by a falling measure does to a list.
  pub record SortsDown (sort : List A → List A) : Type ℓ where
    pub descends : (xs : List A) → Descends (sort xs)
    pub same_length : (xs : List A) → length (sort xs) ≡ length xs
    pub keeps : (xs : List A) (x : A) → Memᴰ x xs → Memᴰ x (sort xs)
