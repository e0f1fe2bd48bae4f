-- ===== src/Metrics/Top.antt =====
-- internal/metrics/metrics.go: `GetTopDomains`, a selection sort that stops after `limit` turns.
-- The turn at `i` works on the part of the slice from `i` on. The average latency is the fraction
-- of the total and the count.
use dns_server_mandiri.Metrics.{Metrics, DomainCounter}
use dns_server_mandiri.Prelude.Dict.{Dict}
use dns_server_mandiri.Prelude.Text.{Text}
use dns_server_mandiri.Prelude.{
  ℕ, zero, suc, ◌+◌, ◌≤◌, List, [], ◌∷◌, ◌≡◌, ◌⊎◌, inl, inr, refl, sym, subst, ◌∙◌, ltb,
  if◌then◌else◌, length, set, take, take_same, All, arith, by_if,
}
use mathlib.Core.List.{Permᴰ}
use mathlib.Core.List.Permᴰ

pub record DomainStat : Type 0 where
  pub domain : Text
  pub count : ℕ
  pub total_latency : ℕ

unfoldable pub domain_stats : Dict DomainCounter → List DomainStat
domain_stats [] = []
domain_stats ((d, c) ∷ rest) =
    record { domain = d; count = c.count; total_latency = c.total_lat_ns } ∷ domain_stats rest

-- The inner loop: the element with the greatest count so far, its index from `i`, and the index
-- of the next element.
unfoldable pub max_loop : DomainStat → ℕ → ℕ → List DomainStat → DomainStat × ℕ
max_loop best at j [] = (best, at)
max_loop best at j (y ∷ ys) =
    let better = max_loop y j (j + 1) ys in
    let same = max_loop best at (j + 1) ys in if ltb best.count y.count then better else same

-- The swap: the first element goes to where the greatest stood.
abbrev put_back : ℕ → DomainStat → List DomainStat → List DomainStat
put_back zero x rest = rest
put_back (suc k) x rest = set rest k x

unfoldable pub top_loop : ℕ → List DomainStat → List DomainStat
top_loop zero stats = stats
top_loop (suc n) [] = []
top_loop (suc n) (x ∷ rest) =
    let (best, at) = max_loop x 0 1 rest in best ∷ top_loop n (put_back at x rest)

unfoldable pub get_top_domains : ℕ → Metrics → List DomainStat
get_top_domains limit m =
    let stats = top_loop limit (domain_stats m.domain_counts) in
    take (if ltb (length stats) limit then length stats else limit) stats

-- The element at an index.
abbrev At : List DomainStat → ℕ → DomainStat → Type 0
At [] k b = ⊥
At (y ∷ ys) zero b = y ≡ b
At (y ∷ ys) (suc k) b = At ys k b

abbrev Picked : DomainStat → ℕ → ℕ → List DomainStat → DomainStat × ℕ → Type 0
Picked best at j ys r = ((r.0 ≡ best) × (r.1 ≡ at)) ⊎ ((k : ℕ) × ((r.1 ≡ j + k) × At ys k r.0))

max_loop-Picked :
    (best : DomainStat) (at j : ℕ) (ys : List DomainStat)
    → Picked best at j ys (max_loop best at j ys)
unfolding max_loop
max_loop-Picked best at j [] = inl (refl, refl)
max_loop-Picked best at j (y ∷ ys) =
    by_if (Picked best at j (y ∷ ys)) (ltb best.count y.count) _ _
      (λ _. elim (max_loop-Picked y j (j + 1) ys) [
        | inl (b, a) ↦ inr (0, (a ∙ omega arith, sym b))
        | inr (k, (a, here)) ↦ inr (suc k, (a ∙ omega arith, here))
      ])
      (λ _. elim (max_loop-Picked best at (j + 1) ys) [
        | inl p ↦ inl p
        | inr (k, (a, here)) ↦ inr (suc k, (a ∙ omega arith, here))
      ])

-- No count is above that of the element that is found.
abbrev Below : ℕ → List DomainStat → Type 0
Below n ys = All (λ (y : DomainStat). y.count ≤ n) ys

Below-le : (n m : ℕ) (ys : List DomainStat) → n ≤ m → Below n ys → Below m ys
Below-le n m [] h b = tt
Below-le n m (y ∷ ys) h b = (omega (arith, b.0), Below-le n m ys h b.1)

max_loop-Below :
    (best : DomainStat) (at j : ℕ) (ys : List DomainStat)
    → (best.count ≤ (max_loop best at j ys).0.count) × Below (max_loop best at j ys).0.count ys
unfolding max_loop
max_loop-Below best at j [] = (omega arith, tt)
max_loop-Below best at j (y ∷ ys) =
    by_if (λ (r : DomainStat × ℕ). (best.count ≤ r.0.count) × Below r.0.count (y ∷ ys))
      (ltb best.count y.count) _ _
      (λ up. let h = max_loop-Below y j (j + 1) ys in (ground (arith, h.0), (h.0, h.1)))
      (λ low. let h = max_loop-Below best at (j + 1) ys in (h.0, (ground (arith, h.0), h.1)))

max_loop-bound :
    (n : ℕ) (best : DomainStat) (at j : ℕ) (ys : List DomainStat)
    → best.count ≤ n
    → Below n ys
    → (max_loop best at j ys).0.count ≤ n
unfolding max_loop
max_loop-bound n best at j [] h b = h
max_loop-bound n best at j (y ∷ ys) h b =
    by_if (λ (r : DomainStat × ℕ). r.0.count ≤ n) (ltb best.count y.count) _ _
      (λ _. max_loop-bound n y j (j + 1) ys b.0 b.1)
      (λ _. max_loop-bound n best at (j + 1) ys h b.1)

put_back-Below :
    (n at : ℕ) (x : DomainStat) (rest : List DomainStat)
    → x.count ≤ n
    → Below n rest
    → Below n (put_back at x rest)
put_back-Below n zero x rest h b = b
put_back-Below n (suc k) x [] h b = tt
put_back-Below n (suc zero) x (y ∷ ys) h b = (h, b.1)
put_back-Below n (suc (suc k)) x (y ∷ ys) h b = (b.0, put_back-Below n (suc k) x ys h b.1)

top_loop-Below :
    (n limit : ℕ) (stats : List DomainStat) → Below n stats → Below n (top_loop limit stats)
unfolding top_loop
top_loop-Below n zero stats b = b
top_loop-Below n (suc limit) [] b = tt
top_loop-Below n (suc limit) (x ∷ rest) b =
    let (best, at) = max_loop x 0 1 rest in
    (
      max_loop-bound n x 0 1 rest b.0 b.1,
      top_loop-Below n limit (put_back at x rest) (put_back-Below n at x rest b.0 b.1),
    )

-- The first `limit` elements: none is below one that comes after it.
abbrev pub Ranked : ℕ → List DomainStat → Type 0
Ranked zero stats = Unit
Ranked (suc n) [] = Unit
Ranked (suc n) (b ∷ rest) = Below b.count rest × Ranked n rest

top_loop-Ranked : (limit : ℕ) (stats : List DomainStat) → Ranked limit (top_loop limit stats)
unfolding top_loop
top_loop-Ranked zero stats = tt
top_loop-Ranked (suc limit) [] = tt
top_loop-Ranked (suc limit) (x ∷ rest) =
    let (best, at) = max_loop x 0 1 rest in
    let h = max_loop-Below x 0 1 rest in
    (
      top_loop-Below best.count limit (put_back at x rest)
          (put_back-Below best.count at x rest h.0 h.1),
      top_loop-Ranked limit (put_back at x rest),
    )

-- The swap permutes.
swap-Perm :
    (x b : DomainStat) (k : ℕ) (rest : List DomainStat)
    → At rest k b
    → Permᴰ (x ∷ rest) (b ∷ set rest k x)
swap-Perm x b k [] h = absurd h
swap-Perm x b zero (y ∷ ys) h = Permᴰ.swap refl h
swap-Perm x b (suc k) (y ∷ ys) h =
    Permᴰ.trans (Permᴰ.swap refl refl)
      (Permᴰ.trans (Permᴰ.cons refl (swap-Perm x b k ys h)) (Permᴰ.swap refl refl))

one_add : (k : ℕ) → 1 + k ≡ suc k
one_add k = omega arith

picked-Perm :
    (x : DomainStat) (rest : List DomainStat) (r : DomainStat × ℕ)
    → Picked x 0 1 rest r
    → Permᴰ (x ∷ rest) (r.0 ∷ put_back r.1 x rest)
picked-Perm x rest (b, at) (inl (p, q)) =
    subst (λ i. Permᴰ (x ∷ rest) (b ∷ put_back i x rest)) (sym q)
      (Permᴰ.cons (sym p) (Permᴰ.refl rest))
picked-Perm x rest (b, at) (inr (k, (q, here))) =
    subst (λ i. Permᴰ (x ∷ rest) (b ∷ put_back i x rest)) (sym (q ∙ one_add k))
      (swap-Perm x b k rest here)

top_loop-Perm : (limit : ℕ) (stats : List DomainStat) → Permᴰ stats (top_loop limit stats)
unfolding top_loop
top_loop-Perm zero stats = Permᴰ.refl stats
top_loop-Perm (suc limit) [] = Permᴰ.nil
top_loop-Perm (suc limit) (x ∷ rest) =
    let r = max_loop x 0 1 rest in
    Permᴰ.trans (picked-Perm x rest r (max_loop-Picked x 0 1 rest))
      (Permᴰ.cons refl (top_loop-Perm limit (put_back r.1 x rest)))

-- `GetTopDomains` shows the first `limit` entries of a list that is a rearrangement of all counted
-- domains, and of which no entry among the first `limit` has a lower count than any that
-- comes after it: the most frequent domains in descending order, however the map is traversed.
pub get_top_domains_lem :
    (limit : ℕ) (m : Metrics)
    → (all : List DomainStat) × (Permᴰ (domain_stats m.domain_counts) all
        × (Ranked limit all × (get_top_domains limit m ≡ take limit all)))
unfolding get_top_domains
get_top_domains_lem limit m =
    let stats = top_loop limit (domain_stats m.domain_counts) in
    (
      stats,
      (
        top_loop-Perm limit (domain_stats m.domain_counts),
        (
          top_loop-Ranked limit (domain_stats m.domain_counts),
          by_if (λ n. take n stats ≡ take limit stats) (ltb (length stats) limit) _ _
              (λ short. take_same (length stats) limit stats (inr (omega arith, ground arith)))
              (λ _. refl),
        ),
      ),
    )
