-- ===== src/Ratelimit/Budget.antt =====
-- When a request is allowed, and that clients do not share a bucket.
use dns_server_mandiri.Prelude.Dict.{lookup, lookup-insert_ne, lookup-insert}
use dns_server_mandiri.Prelude.Text.{Text, eq_iff}
use dns_server_mandiri.Prelude.{ℕ, ◌*◌, ◌≤◌, ◌≡◌, ◌≢◌, some, arith, leb}
use dns_server_mandiri.Ratelimit.{Bucket, Limiter, token, bucket_of, refill, spend, allow}

-- The bucket that the next call for `ip` at the time `now` works on.
abbrev pub held : Text → ℕ → Limiter → Bucket
held ip now l = bucket_of l now (lookup ip l.buckets)

-- A bucket never holds more than the burst.
abbrev pub Fits : Limiter → Type 0
Fits l = (ip : Text) (b : Bucket) → lookup ip l.buckets ≡ some b → b.tokens ≤ l.burst * token

spend-refill-le :
    (l : Limiter) (now : ℕ) (b : Bucket) → (spend (refill l now b)).0.tokens ≤ l.burst * token
unfolding spend refill
spend-refill-le l now b = ground arith

pub allow-Fits : (ip : Text) (now : ℕ) (l : Limiter) → Fits l → Fits (allow ip now l).0
unfolding allow
allow-Fits ip now l f = λ j b at. ground (
  arith,
  lookup-insert ip j (spend (refill l now (held ip now l))).0 l.buckets,
  spend-refill-le l now (held ip now l),
  f j b,
  eq_iff ip j,
)

-- A request of one client leaves the buckets of the others alone.
pub allow_ne :
    (ip j : Text) (now : ℕ) (l : Limiter)
    → ip ≢ j
    → lookup j (allow ip now l).0.buckets ≡ lookup j l.buckets
unfolding allow
allow_ne ip j now l ne = lookup-insert_ne ip j (spend (refill l now (held ip now l))).0 l.buckets ne

-- A request is allowed exactly when the refilled bucket holds a token.
pub allow_iff :
    (ip : Text) (now : ℕ) (l : Limiter)
    → (allow ip now l).1 ≡ leb token (refill l now (held ip now l)).tokens
unfolding allow spend
allow_iff ip now l = ground arith
