-- ===== src/Metrics/Counters.antt =====
-- `RecordQuery`: every query is counted once by its result and once by its latency.
use dns_server_mandiri.Metrics.{
  Metrics, init, count_protocol, count_rcode, bucket_of, count_latency, record_query,
}
use dns_server_mandiri.Prelude.{
  ℕ, zero, suc, ◌+◌, ◌/◌, ◌%◌, ◌^◌, ◌≤◌, ◌<◌, ◌≡◌, refl, List, [], ◌∷◌, length, get_or, set, arith,
  add64, length-set, ◌∙◌, ap,
}
use dns_server_mandiri.Prelude.Text.{Text}

abbrev pub sum : List ℕ → ℕ
sum [] = 0
sum (x ∷ xs) = x + sum xs

pub record Accounts (m : Metrics) : Type 0 where
  pub by_result : (m.success_queries + m.nx_domain + m.failed_queries) % 2 ^ 64 ≡ m.total_queries
  pub by_latency : sum m.latency_buckets % 2 ^ 64 ≡ m.total_queries
  pub by_count : m.query_count ≡ m.total_queries
  pub buckets : length m.latency_buckets ≡ 8

pub bucket_of-lt : (ms : ℕ) → bucket_of ms < 8
unfolding bucket_of
bucket_of-lt ms = ground arith

sum-set : (xs : List ℕ) (i n : ℕ) → i < length xs → sum (set xs i n) + get_or xs i 0 ≡ sum xs + n
sum-set [] i n h = absurd (omega arith)
sum-set (x ∷ xs) zero n h = omega arith
sum-set (x ∷ xs) (suc i) n h = omega (arith, sum-set xs i n)

pub init-Accounts : (now : ℕ) → Accounts (init now)
unfolding init
init-Accounts now = record { by_result = refl; by_latency = refl; by_count = refl; buckets = refl }

-- The counters that a part of `RecordQuery` leaves alone.
record Same (m m' : Metrics) : Type 0 where
  total : m'.total_queries ≡ m.total_queries
  count : m'.query_count ≡ m.query_count
  latency : m'.latency_buckets ≡ m.latency_buckets

protocol-Same : (protocol : Text) (m : Metrics) → Same m (count_protocol protocol m)
unfolding count_protocol
protocol-Same protocol m = record {
  total = ground arith;
  count = ground arith;
  latency = ground arith;
}

abbrev results : Metrics → ℕ
results m = m.success_queries + m.nx_domain + m.failed_queries

protocol-results : (protocol : Text) (m : Metrics) → results (count_protocol protocol m) ≡ results m
unfolding count_protocol
protocol-results protocol m = ground arith

rcode-Same : (rcode : ℕ) (m : Metrics) → Same m (count_rcode rcode m)
unfolding count_rcode
rcode-Same rcode m = record { total = ground arith; count = ground arith; latency = ground arith }

rcode-results :
    (rcode : ℕ) (m : Metrics) → results (count_rcode rcode m) % 2 ^ 64 ≡ (results m + 1) % 2 ^ 64
unfolding count_rcode
rcode-results rcode m = ground arith

-- The sum of the buckets grows by one, modulo 2 ^ 64.
latency-sum :
    (xs : List ℕ) (i : ℕ)
    → i < length xs
    → sum (set xs i (add64 (get_or xs i 0) 1)) % 2 ^ 64 ≡ (sum xs + 1) % 2 ^ 64
latency-sum xs i h = omega (arith, sum-set xs i (add64 (get_or xs i 0) 1) h)

-- `RecordQuery` keeps the accounts: the successes, the NXDOMAINs and the failures add up to all
-- queries, and so do the buckets of the histogram (modulo 2 ^ 64).
pub record_query-Accounts :
    (protocol : Text) (rcode latency : ℕ) (m : Metrics)
    → Accounts m
    → Accounts (record_query protocol rcode latency m)
unfolding record_query count_latency
record_query-Accounts protocol rcode latency m a =
    let m₀ = record m { total_queries = add64 m.total_queries 1 } in
    let m₁ = count_protocol protocol m₀ in
    let s₁ = protocol-Same protocol m₀ in
    let s₂ = rcode-Same rcode m₁ in
    let i = bucket_of (latency / 1_000_000) in
    let buckets = (count_rcode rcode m₁).latency_buckets in
    let e : buckets ≡ m.latency_buckets = s₂.latency ∙ s₁.latency in
    let inside : i < length buckets =
      omega (arith, bucket_of-lt (latency / 1_000_000), a.buckets, ap length e) in
    record {
      by_result = omega (
        arith,
        rcode-results rcode m₁,
        protocol-results protocol m₀,
        s₁.total,
        s₂.total,
        a.by_result,
      );
      by_latency =
          omega (arith, latency-sum buckets i inside, ap sum e, s₁.total, s₂.total, a.by_latency);
      by_count = omega (arith, s₁.total, s₂.total, s₁.count, s₂.count, a.by_count);
      buckets = length-set buckets i _ ∙ (ap length e ∙ a.buckets);
    }

-- The bounds, in milliseconds, of the bucket with the given index.
abbrev pub low_bound : ℕ → ℕ
low_bound i = get_or (0 ∷ 1 ∷ 5 ∷ 10 ∷ 50 ∷ 100 ∷ 500 ∷ 1000 ∷ []) i 0

-- A latency counts in the bucket whose bounds hold it: the last has no upper bound.
pub bucket_of_bounds :
    (ms : ℕ)
    → (low_bound (bucket_of ms) ≤ ms) × (bucket_of ms < 7 → ms < low_bound (bucket_of ms + 1))
unfolding bucket_of
bucket_of_bounds ms = (ground arith, λ h. ground arith)
