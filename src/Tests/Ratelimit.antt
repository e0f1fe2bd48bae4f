-- ===== src/Tests/Ratelimit.antt =====
-- The rate limiter at concrete inputs.
use dns_server_mandiri.Prelude.Dict.{Distinct, lookup}
use dns_server_mandiri.Prelude.Text.{text}
use dns_server_mandiri.Prelude.{◌+◌, ◌-◌, ◌*◌, ◌≤◌, ◌≡◌, ◌≢◌, refl, List, [], ◌∷◌, arith}
use dns_server_mandiri.Ratelimit.Budget.{Fits, allow_ne}
use dns_server_mandiri.Ratelimit.Stale.{allow-cleanup_stale}
use dns_server_mandiri.Ratelimit.Traces.{Event, granted, granted-le}
use dns_server_mandiri.Ratelimit.{Limiter, token, init, allow, cleanup_stale}

abbrev requests : List Event
requests =
    Event.request (text "10.0.0.1") 5
    ∷ Event.request (text "10.0.0.2") 6
    ∷ Event.cleaning 8
    ∷ Event.request (text "10.0.0.1") 9
    ∷ []

granted-le_example :
    granted (text "10.0.0.1") requests (init 100 2 10_000_000_000) * token
    ≤ 2 * token + (20 - 0) * 100
granted-le_example =
    granted-le (text "10.0.0.1") 0 20 100 2 10_000_000_000 requests (omega arith) (omega arith)

-- One bucket, idle for a minute; two intervals of 10 seconds fill it.
abbrev idle : Limiter
idle = record {
  buckets = (text "10.0.0.1", record { tokens = 7; last_time = 0; blocked = 3 }) ∷ [];
  rate = 100;
  burst = 200;
  cleanup = 10_000_000_000;
}

idle-Distinct : Distinct idle.buckets
unfolding lookup
idle-Distinct = (refl, tt)

idle-Fits : Fits idle
unfolding lookup
idle-Fits ip b h = ground arith

allow-cleanup_stale_example :
    (allow (text "10.0.0.1") 60_000_000_000 (cleanup_stale 50_000_000_000 idle)).1
    ≡ (allow (text "10.0.0.1") 60_000_000_000 idle).1
allow-cleanup_stale_example =
    allow-cleanup_stale (text "10.0.0.1") 50_000_000_000 60_000_000_000 idle idle-Distinct idle-Fits
      (omega arith) (omega arith)

other : text "10.0.0.1" ≢ text "10.0.0.2"
other h = ground arith

allow_ne_example :
    lookup (text "10.0.0.2") (allow (text "10.0.0.1") 5 idle).0.buckets
    ≡ lookup (text "10.0.0.2") idle.buckets
allow_ne_example = allow_ne (text "10.0.0.1") (text "10.0.0.2") 5 idle other
