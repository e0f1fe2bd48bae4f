-- ===== src/Ratelimit.antt =====
-- internal/ratelimit/ratelimit.go: a token bucket for each client. A token is 10 ^ 9 units, so
-- that the refill of `elapsed` nanoseconds at `rate` tokens a second is `elapsed * rate` units,
-- without the rounding of floats. The clock of the process is monotonic: `-` on times is exact.
pub mod Budget
pub mod Stale
pub mod Credit
pub mod Traces
use dns_server_mandiri.Prelude.{
  ℕ, ◌+◌, ◌-◌, ◌*◌, Bool, true, false, Option, none, some, List, [], ◌∷◌, ltb, leb, if◌then◌else◌,
  length,
}
use dns_server_mandiri.Prelude.Dict.{Dict, lookup, insert, delete}
use dns_server_mandiri.Prelude.Text.{Text}

pub record Bucket : Type 0 where
  pub tokens : ℕ
  pub last_time : ℕ
  pub blocked : ℕ

pub record Limiter : Type 0 where
  pub buckets : Dict Bucket
  pub rate : ℕ
  pub burst : ℕ
  pub cleanup : ℕ

abbrev pub token : ℕ
token = 1_000_000_000

-- `New`
unfoldable pub init : ℕ → ℕ → ℕ → Limiter
init rate burst cleanup = record { buckets = []; rate = rate; burst = burst; cleanup = cleanup }

-- The bucket of a client that is not known yet.
unfoldable pub new_bucket : Limiter → ℕ → Bucket
new_bucket l now = record { tokens = l.burst * token; last_time = now; blocked = 0 }

unfoldable pub bucket_of : Limiter → ℕ → Option Bucket → Bucket
bucket_of l now none = new_bucket l now
bucket_of l now (some b) = b

unfoldable pub refill : Limiter → ℕ → Bucket → Bucket
refill l now b =
    let tokens = b.tokens + (now - b.last_time) * l.rate in
    record b {
      tokens = if ltb (l.burst * token) tokens then l.burst * token else tokens;
      last_time = now;
    }

unfoldable pub spend : Bucket → Bucket × Bool
spend b =
    if leb token b.tokens
    then (record b { tokens = b.tokens - token }, true)
    else (record b { blocked = b.blocked + 1 }, false)

unfoldable pub allow : Text → ℕ → Limiter → Limiter × Bool
allow ip now l =
    let (b, allowed) = spend (refill l now (bucket_of l now (lookup ip l.buckets))) in
    (record l { buckets = insert ip b l.buckets }, allowed)

-- `GetStats`
unfoldable pub get_stats : Text → Limiter → ℕ × ℕ
get_stats ip l = elim (lookup ip l.buckets) [ some b ↦ (b.blocked, b.tokens) | none ↦ (0, 0) ]

-- `lastTime.Before(now - 2 * cleanup)`
unfoldable pub is_stale : Limiter → ℕ → Bucket → Bool
is_stale l now b = ltb (b.last_time + 2 * l.cleanup) now

unfoldable pub stale_loop : Limiter → ℕ → Dict Bucket → Dict Bucket → Dict Bucket
stale_loop l now [] m = m
stale_loop l now ((ip, b) ∷ rest) m =
    stale_loop l now rest (if is_stale l now b then delete ip m else m)

unfoldable pub cleanup_stale : ℕ → Limiter → Limiter
cleanup_stale now l = record l { buckets = stale_loop l now l.buckets l.buckets }

unfoldable pub active_clients : Limiter → ℕ
active_clients l = length l.buckets

-- `GetAllStats`: the clients that were blocked at least once.
pub record ClientRateStat : Type 0 where
  pub ip : Text
  pub blocked : ℕ
  pub tokens : ℕ

unfoldable pub stats_loop : Dict Bucket → List ClientRateStat
stats_loop [] = []
stats_loop ((ip, b) ∷ rest) =
    let more = stats_loop rest in
    if ltb 0 b.blocked
    then record { ip = ip; blocked = b.blocked; tokens = b.tokens } ∷ more
    else more

unfoldable pub get_all_stats : Limiter → List ClientRateStat
get_all_stats l = stats_loop l.buckets
