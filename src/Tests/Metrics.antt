-- ===== src/Tests/Metrics.antt =====
-- The metrics at concrete inputs.
use dns_server_mandiri.Metrics.Domains.{IsBounded, Counts, count_domain-Counts}
use dns_server_mandiri.Metrics.History.{record_all, record_all_lem, entries}
use dns_server_mandiri.Metrics.Top.{
  DomainStat, Ranked, domain_stats, get_top_domains, get_top_domains_lem,
}
use dns_server_mandiri.Metrics.{
  Metrics, QueryLog, no_log, init, count_domain, get_all_query_logs, get_recent_queries,
}
use dns_server_mandiri.Prelude.Dict.{lookup}
use dns_server_mandiri.Prelude.Text.{text}
use dns_server_mandiri.Prelude.{
  ℕ, ◌≤◌, ◌≡◌, ◌≢◌, refl, List, [], ◌∷◌, length, take, arith, min, if◌then◌else◌, ◌==◌,
}
use mathlib.Core.List.{reverse, Permᴰ}

abbrev start : Metrics
start = init 0

abbrev log : List (QueryLog × ℕ)
log = (record no_log { domain = text "a." }, 1) ∷ (record no_log { domain = text "b." }, 2) ∷ []

record_all_lem_example :
    (get_all_query_logs (record_all log (init 0)) ≡ reverse (take 500 (reverse (entries log))))
    × (get_recent_queries 1 (record_all log (init 0))
        ≡ take (if 1 == 0 then 500 else min 1 500) (reverse (entries log)))
record_all_lem_example = record_all_lem log 0 1

start-IsBounded : IsBounded start
unfolding init lookup
start-IsBounded = record {
  distinct = tt;
  named = refl;
  bounded = omega arith;
  positive = omega arith;
}

named : text "a." ≢ []
named h = ground arith

count_domain-Counts_example :
    Counts start.domain_counts_max
      (text "a.")
      5
      start.domain_counts
      (count_domain (text "a.") 5 start).domain_counts
count_domain-Counts_example = count_domain-Counts (text "a.") 5 start start-IsBounded

no_points : length start.qps_history ≤ 360
unfolding init
no_points = omega arith

-- Three domains, of which the two most frequent are shown.
abbrev three : Metrics
three = record start {
  domain_counts =
      (text "a.", record { count = 1; total_lat_ns = 5 })
      ∷ (text "b.", record { count = 7; total_lat_ns = 9 })
      ∷ (text "c.", record { count = 3; total_lat_ns = 2 })
      ∷ [];
}

get_top_domains_lem_example :
    (all : List DomainStat) × (Permᴰ (domain_stats three.domain_counts) all
      × (Ranked 2 all × (get_top_domains 2 three ≡ take 2 all)))
get_top_domains_lem_example = get_top_domains_lem 2 three
