-- ===== src/Prelude/Lowest.antt =====
-- The loop that three components use to find the entry to evict from a map: the first of those
-- with the least measure, in the order of the `range` loop.
use Prim.Native.Nat.{ℕ, ◌+◌, ◌≤◌, ◌<◌}
use mathlib.Core.Bool.{Bool, true, false, ◌||◌}
use mathlib.Core.List.{[], ◌∷◌}
use mathlib.Core.Logic.{inl, inr}
use mathlib.Core.Option.{none, some}
use mathlib.Core.Path.{◌≡◌, refl}
use native.Mathlib.Omega.{arith}
use dns_server_mandiri.Prelude.Dict.{
  Dict, lookup, delete, Distinct, Sub, lookup-head, Distinct-delete, length-delete, delete-Sub,
  lookup-delete, lookup-delete-some, Sub-head, Sub-tail,
}
use dns_server_mandiri.Prelude.Lists.{length}
use dns_server_mandiri.Prelude.Tests.{ltb, if◌then◌else◌, Bool-cases}
use dns_server_mandiri.Prelude.Text.{Text, eq_iff, is_empty, is_empty_of_ne}

-- The variables of the loop.
pub record Best : Type 0 where
  pub key : Text
  pub low : ℕ
  pub first : Bool

module _ {ℓ} {V : Type ℓ} (measure : V → ℕ) where
  unfoldable pub best_visit : Text → V → Best → Best
  best_visit k v b =
      if b.first || ltb (measure v) b.low
      then record { key = k; low = measure v; first = false }
      else b

  unfoldable pub best_loop : Dict V → Best → Best
  best_loop [] b = b
  best_loop ((k, v) ∷ m) b = best_loop m (best_visit k v b)

  unfoldable pub best : Dict V → Best
  unfolding best_visit best_loop
  best m = best_loop m (record { key = []; low = 0; first = true })

  -- Nothing goes where the loop found no key, or the empty one.
  unfoldable pub evict_lowest : Dict V → Dict V
  evict_lowest m = if is_empty (best m).key then m else delete (best m).key m

  -- Between two rounds: what has been found is an entry of the whole map `n`, not above any that
  -- was passed.
  record Finds (n rest : Dict V) (b : Best) : Type ℓ where
    inside : Sub rest n
    start : b.first ≡ true → Sub n rest
    held : b.first ≡ false → (v : V) × (lookup b.key n ≡ some v) × (measure v ≡ b.low)
    least :
        (k : Text) (v : V)
        → lookup k n ≡ some v
        → lookup k rest ≡ none
        → (b.first ≡ false) × (b.low ≤ measure v)

  module _ (n : Dict V) (k : Text) (v : V) (rest : Dict V) (b : Best) where
    least-visit :
        (gone : lookup k rest ≡ none)
        → Finds n ((k, v) ∷ rest) b
        → (j : Text) (w : V) → lookup j n ≡ some w
        → lookup j rest ≡ none
        → ((best_visit k v b).first ≡ false) × ((best_visit k v b).low ≤ measure w)
    unfolding best_visit lookup
    least-visit gone h j w at away =
        ground (arith, eq_iff k j, h.least j w at, h.inside k v (lookup-head k v rest))

    Finds-visit : lookup k rest ≡ none → Finds n ((k, v) ∷ rest) b → Finds n rest (best_visit k v b)
    unfolding best_visit
    Finds-visit gone h = elim (Bool-cases (b.first || ltb (measure v) b.low)) [
      | inl new ↦ record {
        inside = Sub-tail k v rest n gone h.inside;
        start = λ f. ground arith;
        held = λ f. rw new (v, Sub-head k v rest n h.inside, refl);
        least = least-visit gone h;
      }
      | inr old ↦ record {
        inside = Sub-tail k v rest n gone h.inside;
        start = λ f. ground arith;
        held = λ f. rw old (h.held (ground arith));
        least = least-visit gone h;
      }
    ]

  Finds-loop :
      (n rest : Dict V) (b : Best) → Distinct rest → Finds n rest b → Finds n [] (best_loop rest b)
  unfolding best_loop
  Finds-loop n [] b d h = h
  Finds-loop n ((k, v) ∷ rest) b d h =
      Finds-loop n rest (best_visit k v b) d.1 (Finds-visit n k v rest b d.0 h)

  best-Finds : (m : Dict V) → Distinct m → Finds m [] (best m)
  unfolding best
  best-Finds m d =
      Finds-loop m m (record { key = []; low = 0; first = true }) d
        (record {
          inside = λ k v h. h;
          start = λ f k v h. h;
          held = λ f. cc;
          least = λ k v at gone. cc;
        })

  -- What is lost is one entry, and none of those left measures less.
  pub record LosesLowest (m m' : Dict V) : Type ℓ where
    pub distinct : Distinct m'
    pub only : Sub m' m
    pub fewer : length m' + 1 ≡ length m
    pub single :
        (k j : Text) (v w : V)
        → lookup k m ≡ some v
        → lookup k m' ≡ none
        → lookup j m ≡ some w
        → lookup j m' ≡ none
        → k ≡ j
    pub lowest :
        (k j : Text) (v w : V)
        → lookup k m ≡ some v
        → lookup k m' ≡ none
        → lookup j m' ≡ some w
        → measure v ≤ measure w

  best-first : (m : Dict V) → Distinct m → 0 < length m → (best m).first ≡ false
  unfolding lookup
  best-first [] d h = absurd (omega arith)
  best-first ((k, v) ∷ m) d h = elim (Bool-cases (best ((k, v) ∷ m)).first) [
    | inl f ↦ let e = (best-Finds ((k, v) ∷ m) d).start f k v (lookup-head k v m) in ground arith
    | inr f ↦ f
  ]

  best-named :
      (m : Dict V) (v : V)
      → lookup [] m ≡ none
      → lookup (best m).key m ≡ some v
      → is_empty (best m).key ≡ false
  best-named m v named at = is_empty_of_ne (best m).key (λ p. clash (rw p at at))
    where
      clash : lookup [] m ≡ some v → ⊥
      clash q = ground arith

  pub evict_lowest-LosesLowest :
      (m : Dict V) → Distinct m → lookup [] m ≡ none → 0 < length m → LosesLowest m (evict_lowest m)
  unfolding evict_lowest lookup
  evict_lowest-LosesLowest m d named some_entry =
      let h = best-Finds m d in
      let (v, at, low) = h.held (best-first m d some_entry) in
      rw (best-named m v named at) (record {
        distinct = Distinct-delete (best m).key m d;
        only = delete-Sub (best m).key m;
        fewer = omega (arith, length-delete (best m).key v m d at);
        single = λ k j u w old gone old' gone'. ground (
          arith,
          lookup-delete (best m).key k m,
          lookup-delete (best m).key j m,
          eq_iff (best m).key k,
          eq_iff (best m).key j,
        );
        lowest = λ k j u w old gone left. ground (
          arith,
          lookup-delete (best m).key k m,
          eq_iff (best m).key k,
          h.least j w (lookup-delete-some (best m).key j m left) refl,
        );
      })
