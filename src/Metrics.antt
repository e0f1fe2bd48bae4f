-- ===== src/Metrics.antt =====
-- internal/metrics/metrics.go: counters, the latency histogram, the ring of recent queries and
-- the counts of domains. A counter is a `uint64` or an `int64`, as its bit pattern; a latency is
-- nanoseconds, at least 0. `LatencyMs` is kept in microseconds, before the division by 1000.
pub mod Counters
pub mod Ring
pub mod History
pub mod Domains
pub mod Qps
pub mod Whole
pub mod Top
pub mod Snapshot
use dns_server_mandiri.Prelude.{
  ℕ, zero, suc, ◌+◌, ◌-◌, ◌/◌, ◌%◌, ◌^◌, Bool, Option, none, some, List, [], ◌∷◌, ◌++◌, ltb, leb,
  ◌==◌, ◌||◌, if◌then◌else◌, length, get_or, set, replicate, add64,
}
use dns_server_mandiri.Prelude.Dict.{Dict, lookup, insert}
use dns_server_mandiri.Prelude.Lowest.{evict_lowest}
use dns_server_mandiri.Prelude.Text.{Text, text, ◌==◌ as text_eq}

pub record QueryLog : Type 0 where
  pub timestamp : ℕ
  pub client_ip : Text
  pub domain : Text
  pub query_type : Text
  pub rcode : Text
  pub latency_us : ℕ
  pub cached : Bool
  pub protocol : Text

pub record DomainCounter : Type 0 where
  pub count : ℕ
  pub total_lat_ns : ℕ

-- `QPS` is the quotient `queries / elapsed`, in queries for each nanosecond, and 0 at
-- `elapsed` 0.
pub record QpsPoint : Type 0 where
  pub timestamp : ℕ
  pub queries : ℕ
  pub elapsed : ℕ

pub record Metrics : Type 0 where
  pub total_queries : ℕ
  pub udp_queries : ℕ
  pub tcp_queries : ℕ
  pub success_queries : ℕ
  pub failed_queries : ℕ
  pub nx_domain : ℕ
  pub serv_fail : ℕ
  pub rate_limited : ℕ
  pub total_latency_ns : ℕ
  pub query_count : ℕ
  pub query_log : List QueryLog
  pub query_log_max : ℕ
  pub query_log_idx : ℕ
  pub query_log_len : ℕ
  pub domain_counts : Dict DomainCounter
  pub domain_counts_max : ℕ
  pub qps_history : List QpsPoint
  pub last_qps_count : ℕ
  pub last_qps_time : ℕ
  pub latency_buckets : List ℕ

-- The zero value of the type `QueryLog`.
abbrev pub no_log : QueryLog
no_log = record {
  timestamp = 0;
  client_ip = [];
  domain = [];
  query_type = [];
  rcode = [];
  latency_us = 0;
  cached = Bool.false;
  protocol = [];
}

-- `New`, at the time `now`.
unfoldable pub init : ℕ → Metrics
init now = record {
  total_queries = 0;
  udp_queries = 0;
  tcp_queries = 0;
  success_queries = 0;
  failed_queries = 0;
  nx_domain = 0;
  serv_fail = 0;
  rate_limited = 0;
  total_latency_ns = 0;
  query_count = 0;
  query_log = replicate 500 no_log;
  query_log_max = 500;
  query_log_idx = 0;
  query_log_len = 0;
  domain_counts = [];
  domain_counts_max = 10000;
  qps_history = [];
  last_qps_count = 0;
  last_qps_time = now;
  latency_buckets = replicate 8 0;
}

-- The three switches of `RecordQuery`: the protocol, the response code and the bucket.
unfoldable pub count_protocol : Text → Metrics → Metrics
count_protocol protocol m =
    if text_eq protocol (text "udp")
    then record m { udp_queries = add64 m.udp_queries 1 }
    else if text_eq protocol (text "tcp")
    then record m { tcp_queries = add64 m.tcp_queries 1 }
    else m

unfoldable pub count_rcode : ℕ → Metrics → Metrics
count_rcode rcode m =
    if rcode == 0
    then record m { success_queries = add64 m.success_queries 1 }
    else if rcode == 3
    then record m { nx_domain = add64 m.nx_domain 1 }
    else if rcode == 2
    then record m { serv_fail = add64 m.serv_fail 1; failed_queries = add64 m.failed_queries 1 }
    else record m { failed_queries = add64 m.failed_queries 1 }

unfoldable pub bucket_of : ℕ → ℕ
bucket_of ms =
    if ltb ms 1
    then 0
    else if ltb ms 5
    then 1
    else if ltb ms 10
    then 2
    else if ltb ms 50
    then 3
    else if ltb ms 100
    then 4
    else if ltb ms 500
    then 5
    else if ltb ms 1000
    then 6
    else 7

unfoldable pub count_latency : ℕ → Metrics → Metrics
count_latency latency m =
    let i = bucket_of (latency / 1_000_000) in
    record m { latency_buckets = set m.latency_buckets i (add64 (get_or m.latency_buckets i 0) 1) }

unfoldable pub record_query : Text → ℕ → ℕ → Metrics → Metrics
record_query protocol rcode latency m =
    let m₁ = count_protocol protocol (record m { total_queries = add64 m.total_queries 1 }) in
    let m₂ = count_rcode rcode m₁ in
    let m₃ = record m₂ {
      total_latency_ns = add64 m₂.total_latency_ns latency;
      query_count = add64 m₂.query_count 1;
    } in
    count_latency latency m₃

-- The two halves of `RecordQueryDetail`: the ring, and the counts of domains.
unfoldable pub log_query : QueryLog → Metrics → Metrics
log_query entry m = record m {
  query_log = set m.query_log m.query_log_idx entry;
  query_log_idx = (m.query_log_idx + 1) % m.query_log_max;
  query_log_len =
      if ltb m.query_log_len m.query_log_max then m.query_log_len + 1 else m.query_log_len;
}

unfoldable pub evict_lowest_domain : Dict DomainCounter → Dict DomainCounter
evict_lowest_domain = evict_lowest (λ dc. dc.count)

abbrev counted : ℕ → DomainCounter → DomainCounter
counted latency dc = record {
  count = add64 dc.count 1;
  total_lat_ns = add64 dc.total_lat_ns latency;
}

abbrev new_counter : DomainCounter
new_counter = record { count = 0; total_lat_ns = 0 }

unfoldable pub count_domain : Text → ℕ → Metrics → Metrics
count_domain domain latency m = elim (lookup domain m.domain_counts) [
  | some dc ↦ record m { domain_counts = insert domain (counted latency dc) m.domain_counts }
  | none ↦
      let room =
        if leb m.domain_counts_max (length m.domain_counts)
        then evict_lowest_domain m.domain_counts
        else m.domain_counts in
      record m { domain_counts = insert domain (counted latency new_counter) room }
]

unfoldable pub record_query_detail : QueryLog → ℕ → Metrics → Metrics
record_query_detail entry latency m = count_domain entry.domain latency (log_query entry m)

-- The slot that the `i`-th newest entry stands in; `i` is less than `query_log_max`.
abbrev pub slot : Metrics → ℕ → ℕ
slot m i = (m.query_log_idx + m.query_log_max - 1 - i) % m.query_log_max

unfoldable pub recent_from : Metrics → ℕ → ℕ → List QueryLog
recent_from m i zero = []
recent_from m i (suc n) = get_or m.query_log (slot m i) no_log ∷ recent_from m (i + 1) n

-- A `limit` below 0 behaves as 0.
unfoldable pub get_recent_queries : ℕ → Metrics → List QueryLog
get_recent_queries limit m =
    recent_from m 0 (if limit == 0 || ltb m.query_log_len limit then m.query_log_len else limit)

abbrev pub slot_oldest : Metrics → ℕ → ℕ
slot_oldest m i = (m.query_log_idx + m.query_log_max - m.query_log_len + i) % m.query_log_max

unfoldable pub all_from : Metrics → ℕ → ℕ → List QueryLog
all_from m i zero = []
all_from m i (suc n) = get_or m.query_log (slot_oldest m i) no_log ∷ all_from m (i + 1) n

unfoldable pub get_all_query_logs : Metrics → List QueryLog
get_all_query_logs m = all_from m 0 m.query_log_len

-- One tick of `trackQPS`. The subtraction of counters wraps.
abbrev pub tail {ℓ} : {A : Type ℓ} → List A → List A
tail [] = []
tail (x ∷ xs) = xs

unfoldable pub track_qps : ℕ → Metrics → Metrics
track_qps now m =
    let point : QpsPoint = record {
      timestamp = now;
      queries = (m.total_queries + 2 ^ 64 - m.last_qps_count) % 2 ^ 64;
      elapsed = now - m.last_qps_time;
    } in
    let history = m.qps_history ++ (point ∷ []) in
    record m {
      qps_history = if ltb 360 (length history) then tail history else history;
      last_qps_count = m.total_queries;
      last_qps_time = now;
    }
