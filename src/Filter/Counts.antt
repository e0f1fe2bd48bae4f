-- ===== src/Filter/Counts.antt =====
-- `recordBlocked`: the statistics of blocked domains stay small.
use dns_server_mandiri.Filter.{next_count, record_blocked}
use dns_server_mandiri.Prelude.Dict.{
  Dict, lookup, insert, Distinct, lookup-insert_ne, Distinct-insert, length-insert-le, none-Sub,
}
use dns_server_mandiri.Prelude.Lowest.{evict_lowest-LosesLowest}
use dns_server_mandiri.Prelude.Text.{Text}
use dns_server_mandiri.Prelude.{
  ℕ, ◌≤◌, ◌≡◌, ◌≢◌, none, [], length, arith, ltb, Bool-cases, inl, inr, ◌∙◌,
}

pub record IsSmall (counts : Dict ℕ) : Type 0 where
  pub distinct : Distinct counts
  pub named : lookup [] counts ≡ none
  pub bounded : length counts ≤ 10000

-- However many domains are blocked, at most 10000 are counted; the one that goes has the least
-- count.
pub record_blocked-IsSmall :
    (domain : Text) (counts : Dict ℕ)
    → domain ≢ []
    → IsSmall counts
    → IsSmall (record_blocked domain counts)
unfolding record_blocked
record_blocked-IsSmall domain counts ne s =
    let n = next_count (lookup domain counts) in
    let m = insert domain n counts in
    let d = Distinct-insert domain n counts s.distinct in
    let named = lookup-insert_ne domain [] n counts ne ∙ s.named in
    let le = length-insert-le domain n counts in
    elim (Bool-cases (ltb 10000 (length m))) [
      | inl full ↦
          let l = evict_lowest-LosesLowest (λ n. n) m d named (ground arith) in
          rw full (record {
            distinct = l.distinct;
            named = none-Sub [] _ m l.only named;
            bounded = omega (arith, l.fewer, le, s.bounded);
          })
      | inr room ↦ rw room (record { distinct = d; named = named; bounded = ground arith })
    ]
