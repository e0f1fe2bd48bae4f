-- ===== src/Metrics/Domains.antt =====
-- The counts of domains, the second half of `RecordQueryDetail`, and the history of `trackQPS`.
use dns_server_mandiri.Metrics.{Metrics, DomainCounter, evict_lowest_domain, count_domain}
use dns_server_mandiri.Prelude.Dict.{
  Dict, lookup, insert, Distinct, lookup-insert, lookup-insert_self, lookup-insert_ne,
  Distinct-insert, length-insert-le, length-insert_old, none-Sub,
}
use dns_server_mandiri.Prelude.Lowest.{LosesLowest, evict_lowest-LosesLowest}
use dns_server_mandiri.Prelude.Text.{Text, eq_iff}
use dns_server_mandiri.Prelude.{
  ℕ, ◌≤◌, ◌<◌, ◌≡◌, ◌≢◌, true, none, some, [], length, arith, leb, Bool-cases, Option-cases, inl,
  inr, ap, sym, ◌∙◌, add64, Option,
}

pub record IsBounded (m : Metrics) : Type 0 where
  pub distinct : Distinct m.domain_counts
  pub named : lookup [] m.domain_counts ≡ none
  pub bounded : length m.domain_counts ≤ m.domain_counts_max
  pub positive : 0 < m.domain_counts_max

abbrev measure : DomainCounter → ℕ
measure dc = dc.count

evict-Loses :
    (m : Metrics)
    → IsBounded m
    → leb m.domain_counts_max (length m.domain_counts) ≡ true
    → LosesLowest measure m.domain_counts (evict_lowest_domain m.domain_counts)
unfolding evict_lowest_domain
evict-Loses m b full =
    evict_lowest-LosesLowest measure m.domain_counts b.distinct b.named (ground (arith, b.positive))

store-IsBounded :
    (k : Text) (dc : DomainCounter) (d : Dict DomainCounter) (m : Metrics)
    → k ≢ []
    → Distinct d
    → lookup [] d ≡ none
    → length d < m.domain_counts_max
    → IsBounded (record m { domain_counts = insert k dc d })
store-IsBounded k dc d m ne dist named room = record {
  distinct = Distinct-insert k dc d dist;
  named = lookup-insert_ne k [] dc d ne ∙ named;
  bounded = omega (arith, length-insert-le k dc d);
  positive = omega arith;
}

-- Counting a query never tracks more than the allowed number of domains.
pub count_domain-IsBounded :
    (domain : Text) (latency : ℕ) (m : Metrics)
    → domain ≢ []
    → IsBounded m
    → IsBounded (count_domain domain latency m)
unfolding count_domain
count_domain-IsBounded domain latency m ne b = elim (Option-cases (lookup domain m.domain_counts)) [
  | inr (dc, at) ↦
      rw (at, count_domain)
        (record {
          distinct = Distinct-insert domain _ m.domain_counts b.distinct;
          named = lookup-insert_ne domain [] _ m.domain_counts ne ∙ b.named;
          bounded = omega (
            arith,
            b.bounded,
            length-insert_old domain
                (record { count = add64 dc.count 1; total_lat_ns = add64 dc.total_lat_ns latency })
                dc m.domain_counts at,
          );
          positive = b.positive;
        })
  | inl gone ↦ elim (Bool-cases (leb m.domain_counts_max (length m.domain_counts))) [
    | inl full ↦
        let l = evict-Loses m b full in
        rw (gone, count_domain)
          (rw full (
            store-IsBounded domain _ (evict_lowest_domain m.domain_counts) m ne l.distinct
              (none-Sub [] _ m.domain_counts l.only b.named) (omega (arith, l.fewer, b.bounded))))
    | inr room ↦
        rw (gone, count_domain)
          (rw room
            (store-IsBounded domain _ m.domain_counts m ne b.distinct b.named (ground arith)))
  ]
]

abbrev pub found : Option DomainCounter → DomainCounter
found none = record { count = 0; total_lat_ns = 0 }
found (some dc) = dc

abbrev pub plus_query : ℕ → DomainCounter → DomainCounter
plus_query latency dc = record {
  count = add64 dc.count 1;
  total_lat_ns = add64 dc.total_lat_ns latency;
}

-- The effect of counting a query on the domains of the map, which has room for `max`.
pub record Counts (max : ℕ) (domain : Text) (latency : ℕ) (d d' : Dict DomainCounter) : Type 0 where
  pub counted : lookup domain d' ≡ some (plus_query latency (found (lookup domain d)))
  pub others :
      (j : Text) (w : DomainCounter) → j ≢ domain → lookup j d' ≡ some w → lookup j d ≡ some w
  pub full :
      (j : Text) (u : DomainCounter)
      → lookup j d ≡ some u
      → lookup j d' ≡ none
      → (lookup domain d ≡ none) × (max ≤ length d)
  pub single :
      (j i : Text) (v w : DomainCounter)
      → lookup j d ≡ some v
      → lookup j d' ≡ none
      → lookup i d ≡ some w
      → lookup i d' ≡ none
      → j ≡ i
  pub lost :
      (j i : Text) (v w : DomainCounter)
      → lookup j d ≡ some v
      → lookup j d' ≡ none
      → i ≢ domain
      → lookup i d' ≡ some w
      → v.count ≤ w.count

-- A store without an eviction loses nothing.
store-Counts :
    (max : ℕ) (domain : Text) (latency : ℕ) (d : Dict DomainCounter)
    → Counts max domain latency d (insert domain (plus_query latency (found (lookup domain d))) d)
store-Counts max domain latency d =
    let v = plus_query latency (found (lookup domain d)) in
    record {
      counted = lookup-insert_self domain v d;
      others = λ j w ne at. ground (arith, lookup-insert domain j v d, eq_iff domain j);
      full = λ j u at gone. absurd (ground (arith, lookup-insert domain j v d, eq_iff domain j));
      single = λ j i u w at gone at' gone'.
          absurd (ground (arith, lookup-insert domain j v d, eq_iff domain j));
      lost = λ j i u w at gone ne left.
          absurd (ground (arith, lookup-insert domain j v d, eq_iff domain j));
    }

evicted-Counts :
    (max : ℕ) (domain : Text) (latency : ℕ) (d d₁ : Dict DomainCounter)
    → lookup domain d ≡ none
    → max ≤ length d
    → LosesLowest measure d d₁
    → Counts max domain latency d (insert domain (plus_query latency (found none)) d₁)
evicted-Counts max domain latency d d₁ new full l =
    let v = plus_query latency (found none) in
    record {
      counted =
          lookup-insert_self domain v d₁ ∙ ap (λ o. some (plus_query latency (found o))) (sym new);
      others =
          λ j w ne at. l.only j w (ground (arith, lookup-insert domain j v d₁, eq_iff domain j));
      full = λ j u at gone. (new, full);
      single = λ j i u w at gone at' gone'.
          l.single j i u w at (ground (arith, lookup-insert domain j v d₁, eq_iff domain j)) at'
            (ground (arith, lookup-insert domain i v d₁, eq_iff domain i));
      lost = λ j i u w at gone ne left.
          l.lowest j i u w at (ground (arith, lookup-insert domain j v d₁, eq_iff domain j))
            (ground (arith, lookup-insert domain i v d₁, eq_iff domain i));
    }

-- If the map is well formed, counting a query adds one to its domain and its latency to the total;
-- no other domain changes; at most one is lost, and only if the domain is new and the map full; and
-- it was counted no more often than any other that stays.
pub count_domain-Counts :
    (domain : Text) (latency : ℕ) (m : Metrics)
    → IsBounded m
    → Counts m.domain_counts_max domain latency m.domain_counts
        (count_domain domain latency m).domain_counts
unfolding count_domain
count_domain-Counts domain latency m b = elim (Option-cases (lookup domain m.domain_counts)) [
  | inr (dc, at) ↦
      rw (at, count_domain)
        (rw (ap (λ o. plus_query latency (found o)) at) at
          (store-Counts m.domain_counts_max domain latency m.domain_counts))
  | inl gone ↦ elim (Bool-cases (leb m.domain_counts_max (length m.domain_counts))) [
    | inl full ↦
        rw (gone, count_domain)
          (rw full (
            evicted-Counts m.domain_counts_max domain latency m.domain_counts
              (evict_lowest_domain m.domain_counts) gone (ground arith) (evict-Loses m b full)))
    | inr room ↦
        rw (gone, count_domain)
          (rw room (
            rw (ap (λ o. plus_query latency (found o)) gone) at
              (store-Counts m.domain_counts_max domain latency m.domain_counts)))
  ]
]
