-- ===== src/Metrics/Whole.antt =====
-- The three invariants of the metrics together.
use dns_server_mandiri.Metrics.Counters.{Accounts, record_query-Accounts, init-Accounts}
use dns_server_mandiri.Metrics.Domains.{IsBounded, count_domain-IsBounded}
use dns_server_mandiri.Metrics.Ring.{IsRing, init-IsRing, log_query-IsRing}
use dns_server_mandiri.Metrics.{
  Metrics, QueryLog, DomainCounter, init, count_protocol, count_rcode, count_latency, record_query,
  log_query, count_domain, record_query_detail,
}
use dns_server_mandiri.Prelude.Dict.{Dict, lookup, Distinct}
use dns_server_mandiri.Prelude.Text.{Text}
use dns_server_mandiri.Prelude.{
  ℕ, ◌≡◌, ◌≢◌, refl, by_option, ap, sym, subst, ◌∙◌, arith, length, [], add64,
}

pub record IsWhole (m : Metrics) : Type 0 where
  pub accounts : Accounts m
  pub ring : IsRing m
  pub domains : IsBounded m

-- What `RecordQuery` leaves as it is.
record Frame (m n : Metrics) : Type 0 where
  log : n.query_log ≡ m.query_log
  max : n.query_log_max ≡ m.query_log_max
  idx : n.query_log_idx ≡ m.query_log_idx
  len : n.query_log_len ≡ m.query_log_len
  domains : n.domain_counts ≡ m.domain_counts
  domains_max : n.domain_counts_max ≡ m.domain_counts_max

protocol-Frame : (protocol : Text) (m : Metrics) → Frame m (count_protocol protocol m)
unfolding count_protocol
protocol-Frame protocol m = record {
  log = ground arith;
  max = ground arith;
  idx = ground arith;
  len = ground arith;
  domains = ground arith;
  domains_max = ground arith;
}

rcode-Frame : (rcode : ℕ) (m : Metrics) → Frame m (count_rcode rcode m)
unfolding count_rcode
rcode-Frame rcode m = record {
  log = ground arith;
  max = ground arith;
  idx = ground arith;
  len = ground arith;
  domains = ground arith;
  domains_max = ground arith;
}

record_query-Frame :
    (protocol : Text) (rcode latency : ℕ) (m : Metrics)
    → Frame m (record_query protocol rcode latency m)
unfolding record_query count_latency
record_query-Frame protocol rcode latency m =
    let p = protocol-Frame protocol (record m { total_queries = _ }) in
    let r = rcode-Frame rcode (count_protocol protocol (record m { total_queries = _ })) in
    record {
      log = r.log ∙ p.log;
      max = r.max ∙ p.max;
      idx = r.idx ∙ p.idx;
      len = r.len ∙ p.len;
      domains = r.domains ∙ p.domains;
      domains_max = r.domains_max ∙ p.domains_max;
    }

Frame-IsRing : (m n : Metrics) → Frame m n → IsRing m → IsRing n
Frame-IsRing m n f r = record {
  storage = ap length f.log ∙ (r.storage ∙ sym f.max);
  idx_in = ground (arith, f.idx, f.max, r.idx_in);
  len_in = ground (arith, f.len, f.max, r.len_in);
}

Frame-IsBounded : (m n : Metrics) → Frame m n → IsBounded m → IsBounded n
Frame-IsBounded m n f b = record {
  distinct = subst Distinct (sym f.domains) b.distinct;
  named = ap (lookup []) f.domains ∙ b.named;
  bounded = ground (arith, ap length f.domains, f.domains_max, b.bounded);
  positive = ground (arith, f.domains_max, b.positive);
}

pub init-IsWhole : (now : ℕ) → IsWhole (init now)
unfolding init lookup
init-IsWhole now = record {
  accounts = init-Accounts now;
  ring = init-IsRing now;
  domains = record { distinct = tt; named = refl; bounded = omega arith; positive = omega arith };
}

pub record_query-IsWhole :
    (protocol : Text) (rcode latency : ℕ) (m : Metrics)
    → IsWhole m
    → IsWhole (record_query protocol rcode latency m)
record_query-IsWhole protocol rcode latency m w =
    let f = record_query-Frame protocol rcode latency m in
    let n = record_query protocol rcode latency m in
    record {
      accounts = record_query-Accounts protocol rcode latency m w.accounts;
      ring = Frame-IsRing m n f w.ring;
      domains = Frame-IsBounded m n f w.domains;
    }

-- A change of the counts of domains alone.
abbrev Beside : Metrics → Type 0
Beside m = Accounts m × IsRing m

other_domains :
    (m : Metrics) (d : Dict DomainCounter) → IsWhole m → Beside (record m { domain_counts = d })
other_domains m d w = (
  record {
    by_result = w.accounts.by_result;
    by_latency = w.accounts.by_latency;
    by_count = w.accounts.by_count;
    buckets = w.accounts.buckets;
  },
  record { storage = w.ring.storage; idx_in = w.ring.idx_in; len_in = w.ring.len_in },
)

log_query-IsWhole : (e : QueryLog) (m : Metrics) → IsWhole m → IsWhole (log_query e m)
unfolding log_query
log_query-IsWhole e m w = record {
  accounts = record {
    by_result = w.accounts.by_result;
    by_latency = w.accounts.by_latency;
    by_count = w.accounts.by_count;
    buckets = w.accounts.buckets;
  };
  ring = log_query-IsRing e m w.ring;
  domains = record {
    distinct = w.domains.distinct;
    named = w.domains.named;
    bounded = w.domains.bounded;
    positive = w.domains.positive;
  };
}

count_domain-IsWhole :
    (domain : Text) (latency : ℕ) (m : Metrics)
    → domain ≢ []
    → IsWhole m
    → IsWhole (count_domain domain latency m)
unfolding count_domain
count_domain-IsWhole domain latency m ne w =
    let (accounts, ring) =
      by_option Beside (lookup domain m.domain_counts) _ _ (λ _. other_domains m _ w)
        (λ dc _. other_domains m _ w) in
    record {
      accounts = accounts;
      ring = ring;
      domains = count_domain-IsBounded domain latency m ne w.domains;
    }

-- Recording the details of a query keeps the three invariants.
pub record_query_detail-IsWhole :
    (e : QueryLog) (latency : ℕ) (m : Metrics)
    → e.domain ≢ []
    → IsWhole m
    → IsWhole (record_query_detail e latency m)
unfolding record_query_detail
record_query_detail-IsWhole e latency m ne w =
    count_domain-IsWhole e.domain latency (log_query e m) ne (log_query-IsWhole e m w)

pub rate_limited-IsWhole :
    (m : Metrics) → IsWhole m → IsWhole (record m { rate_limited = add64 m.rate_limited 1 })
rate_limited-IsWhole m w =
    let n = record m { rate_limited = add64 m.rate_limited 1 } in
    let f : Frame m n = record {
      log = refl;
      max = refl;
      idx = refl;
      len = refl;
      domains = refl;
      domains_max = refl;
    } in
    record {
      accounts = record {
        by_result = w.accounts.by_result;
        by_latency = w.accounts.by_latency;
        by_count = w.accounts.by_count;
        buckets = w.accounts.buckets;
      };
      ring = Frame-IsRing m n f w.ring;
      domains = Frame-IsBounded m n f w.domains;
    }
