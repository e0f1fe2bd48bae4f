-- ===== src/Metrics/Snapshot.antt =====
-- internal/metrics/metrics.go: what the dashboard is shown. A quotient of floats is kept as its
-- numerator and its denominator, with 0 for the quotient where the code tests the denominator.
use dns_server_mandiri.Metrics.{Metrics, QpsPoint}
use dns_server_mandiri.Prelude.Text.{Text, text}
use dns_server_mandiri.Prelude.{ℕ, List, [], ◌∷◌, get_or, add64}

pub record Snapshot : Type 0 where
  pub uptime : ℕ
  pub total_queries : ℕ
  pub udp_queries : ℕ
  pub tcp_queries : ℕ
  pub success_queries : ℕ
  pub failed_queries : ℕ
  pub nx_domain : ℕ
  pub serv_fail : ℕ
  pub cache_size : ℕ
  pub cache_hits : ℕ
  pub cache_misses : ℕ
  pub cache_evictions : ℕ
  pub cache_hit_ratio : ℕ × ℕ
  pub rate_limited : ℕ
  pub avg_latency : ℕ × ℕ
  pub qps : ℕ × ℕ
  pub active_clients : ℕ

-- `GetSnapshot`, after the uptime, with what the functions of the cache and the limiter return: the
-- size, the hits, the misses and the evictions, and the number of clients.
unfoldable pub get_snapshot : ℕ → ℕ × ℕ × ℕ × ℕ → ℕ → Metrics → Snapshot
get_snapshot uptime (size, hits, misses, evictions) clients m = record {
  uptime = uptime;
  total_queries = m.total_queries;
  udp_queries = m.udp_queries;
  tcp_queries = m.tcp_queries;
  success_queries = m.success_queries;
  failed_queries = m.failed_queries;
  nx_domain = m.nx_domain;
  serv_fail = m.serv_fail;
  cache_size = size;
  cache_hits = hits;
  cache_misses = misses;
  cache_evictions = evictions;
  cache_hit_ratio = (hits, add64 hits misses);
  rate_limited = m.rate_limited;
  avg_latency = (m.total_latency_ns, m.query_count);
  qps = (m.total_queries, uptime);
  active_clients = clients;
}

-- `GetQPSHistory` copies the slice.
unfoldable pub get_qps_history : Metrics → List QpsPoint
get_qps_history m = m.qps_history

unfoldable pub get_latency_histogram : Metrics → List (Text × ℕ)
get_latency_histogram m =
    (text "<1ms", get_or m.latency_buckets 0 0)
    ∷ (text "1-5ms", get_or m.latency_buckets 1 0)
    ∷ (text "5-10ms", get_or m.latency_buckets 2 0)
    ∷ (text "10-50ms", get_or m.latency_buckets 3 0)
    ∷ (text "50-100ms", get_or m.latency_buckets 4 0)
    ∷ (text "100-500ms", get_or m.latency_buckets 5 0)
    ∷ (text "500-1000ms", get_or m.latency_buckets 6 0)
    ∷ (text ">1000ms", get_or m.latency_buckets 7 0)
    ∷ []
