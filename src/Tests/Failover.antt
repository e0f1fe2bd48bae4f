-- ===== src/Tests/Failover.antt =====
-- The failover at concrete inputs.
use dns_server_mandiri.Dns.{Msg}
use dns_server_mandiri.Failover.Answers.{Source, resolve-answered, resolve_live}
use dns_server_mandiri.Failover.Turns.{port, was_answered}
use dns_server_mandiri.Failover.Order.{keep, get_ordered_upstreams_lem}
use dns_server_mandiri.Failover.Recovery.{probe, check_unhealthy_lem}
use dns_server_mandiri.Failover.{
  Failover, World, answered, exhausted, is_healthy, mark_unhealthy, order_loop,
  get_ordered_upstreams, accepted, recovered, retry_loop, upstream_loop, check_unhealthy, query,
  resolve,
}
use dns_server_mandiri.Prelude.Dict.{lookup}
use dns_server_mandiri.Prelude.Text.{text, ◌==◌}
use dns_server_mandiri.Prelude.{ℕ, ◌≡◌, refl, true, false, not, none, some, [], ◌∷◌, ◌++◌}
use dns_server_mandiri.Tests.Data.{lib, blank, host}
use mathlib.Core.List.Memᴰ.{head, tail}

-- Two upstreams, the first marked unhealthy.
abbrev pub two : Failover
two = record {
  cfg = record { enabled = true; upstreams = text "1" ∷ text "2" ∷ []; max_retries = 2 };
  healthy = (text "1", false) ∷ (text "2", true) ∷ [];
  last_check = [];
  latency_stats = [];
}

-- Every exchange gets an empty success, and none at all.
abbrev pub up : World
up = record {
  exchange = λ n addr m. some blank;
  latency = λ n. 7;
  clock = λ n. n;
  done = λ n. false;
}

abbrev down : World
down = record { exchange = λ n addr m. none; latency = λ n. 7; clock = λ n. n; done = λ n. false }

get_ordered_upstreams_lem_example :
    get_ordered_upstreams two
    ≡ keep (is_healthy two) two.cfg.upstreams
      ++ keep (λ us. not (is_healthy two us)) two.cfg.upstreams
get_ordered_upstreams_lem_example = get_ordered_upstreams_lem two

resolves : (resolve lib up blank host 1 two).1 ≡ answered blank
unfolding resolve upstream_loop retry_loop accepted get_ordered_upstreams order_loop is_healthy
    lookup ◌==◌ mark_unhealthy
resolves = refl

resolve-answered_example :
    Source up (query lib blank host 1) two.cfg.upstreams (resolve lib up blank host 1 two).0 blank
resolve-answered_example = resolve-answered lib up blank host 1 two blank resolves

gives_up : (resolve lib down blank host 1 two).1 ≡ exhausted
unfolding resolve upstream_loop retry_loop accepted get_ordered_upstreams order_loop is_healthy
    lookup ◌==◌ mark_unhealthy
gives_up = refl

accepts :
    (k : ℕ)
    → (r : Msg) × (accepted (up.exchange k (port (text "2")) (query lib blank host 1)) ≡ some r)
unfolding accepted
accepts k = (blank, refl)

resolve_live_example : was_answered (resolve lib up blank host 1 two).1 ≡ true
resolve_live_example =
    resolve_live lib up blank host 1 two (text "2") refl (tail (head refl)) (λ k. refl) accepts

unhealthy : lookup (text "1") two.healthy ≡ some false
unfolding lookup ◌==◌
unhealthy = refl

succeeds : (k : ℕ) → recovered (up.exchange k (port (text "1")) (probe lib up blank two)) ≡ true
unfolding recovered
succeeds k = refl

check_unhealthy_lem_example : is_healthy (check_unhealthy lib up blank two) (text "1") ≡ true
check_unhealthy_lem_example =
    check_unhealthy_lem lib up blank two (text "1") false true unhealthy succeeds
