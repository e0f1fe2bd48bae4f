-- ===== src/Metrics/History.antt =====
-- The history of queries over many calls of `RecordQueryDetail`.
use dns_server_mandiri.Metrics.{
  Metrics, QueryLog, DomainCounter, record_query_detail, count_domain, no_log, init, log_query,
  slot, recent_from, get_recent_queries, get_all_query_logs,
}
use dns_server_mandiri.Prelude.{
  ℕ, zero, suc, ◌+◌, ◌≡◌, refl, List, [], ◌∷◌, ◌++◌, get_or, take, arith, ◌∙◌, min, ap,
  if◌then◌else◌, inl, inr, map, Option-cases, ◌==◌,
}
use dns_server_mandiri.Prelude.Dict.{Dict, lookup}
use mathlib.Core.List.{reverse, reverse-append, append_assoc, append-nil}
use dns_server_mandiri.Metrics.Ring.{
  Logs, init-Logs, log_query-Logs, get_recent_queries_lem, get_all_query_logs_lem,
}

-- The counts of domains do not touch the ring.
recent-domains :
    (d : Dict DomainCounter) (m : Metrics) (i n : ℕ)
    → recent_from (record m { domain_counts = d }) i n ≡ recent_from m i n
unfolding recent_from
recent-domains d m i zero = refl
recent-domains d m i (suc n) =
    ap (◌∷◌ (get_or m.query_log (slot m i) no_log)) (recent-domains d m (i + 1) n)

Logs-domains :
    (d : Dict DomainCounter) (history : List QueryLog) (m : Metrics)
    → Logs history m
    → Logs history (record m { domain_counts = d })
Logs-domains d history m l = record {
  ring = record { storage = l.ring.storage; idx_in = l.ring.idx_in; len_in = l.ring.len_in };
  newest = λ k h. recent-domains d m 0 k ∙ l.newest k h;
  len = l.len;
}

record_query_detail-Logs :
    (e : QueryLog) (latency : ℕ) (history : List QueryLog) (m : Metrics)
    → Logs history m
    → Logs (e ∷ history) (record_query_detail e latency m)
unfolding record_query_detail count_domain
record_query_detail-Logs e latency history m l =
    let m' = log_query e m in
    elim (Option-cases (lookup e.domain m'.domain_counts)) [
      | inl gone ↦
          rw (gone, count_domain) (Logs-domains _ (e ∷ history) m' (log_query-Logs e history m l))
      | inr (dc, at) ↦
          rw (at, count_domain) (Logs-domains _ (e ∷ history) m' (log_query-Logs e history m l))
    ]

-- Calls of `RecordQueryDetail` in a row, each with its latency.
unfoldable pub record_all : List (QueryLog × ℕ) → Metrics → Metrics
record_all [] m = m
record_all ((e, latency) ∷ es) m = record_all es (record_query_detail e latency m)

abbrev pub entries : List (QueryLog × ℕ) → List QueryLog
entries = map (λ p. p.0)

record_all-Logs :
    (es : List (QueryLog × ℕ)) (history : List QueryLog) (m : Metrics)
    → Logs history m
    → Logs (reverse (entries es) ++ history) (record_all es m)
unfolding record_all
record_all-Logs [] history m l = l
record_all-Logs ((e, latency) ∷ es) history m l =
    rw (reverse-append (e ∷ []) (entries es), append_assoc)
      (record_all-Logs es (e ∷ history) (record_query_detail e latency m)
        (record_query_detail-Logs e latency history m l))

max-detail :
    (e : QueryLog) (latency : ℕ) (m : Metrics)
    → (record_query_detail e latency m).query_log_max ≡ m.query_log_max
unfolding record_query_detail count_domain log_query
max-detail e latency m = ground arith

max-record_all :
    (es : List (QueryLog × ℕ)) (m : Metrics) → (record_all es m).query_log_max ≡ m.query_log_max
unfolding record_all
max-record_all [] m = refl
max-record_all ((e, latency) ∷ es) m =
    max-record_all es (record_query_detail e latency m) ∙ max-detail e latency m

-- Whatever queries were recorded since the start, the export lists the last 500 of them in the
-- order in which they came, and the recent queries are the last ones, the newest first, as many
-- as asked for and at most 500 (all that are kept, for the limit 0).
pub record_all_lem :
    (es : List (QueryLog × ℕ)) (now limit : ℕ)
    → (get_all_query_logs (record_all es (init now)) ≡ reverse (take 500 (reverse (entries es))))
      × (get_recent_queries limit (record_all es (init now))
          ≡ take (if limit == 0 then 500 else min limit 500) (reverse (entries es)))
unfolding init
record_all_lem es now limit =
    let m = record_all es (init now) in
    let h = reverse (entries es) in
    let l : Logs h m = rw (← append-nil h) (record_all-Logs es [] (init now) (init-Logs now)) in
    let e : m.query_log_max ≡ 500 = max-record_all es (init now) in
    (
      get_all_query_logs_lem h m l ∙ ap (λ k. reverse (take k h)) e,
      get_recent_queries_lem limit h m l
          ∙ ap (λ k. take (if limit == 0 then k else min limit k) h) e,
    )
