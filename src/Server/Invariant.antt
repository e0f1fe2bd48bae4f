-- ===== src/Server/Invariant.antt =====
-- Whatever request comes, every component stays well formed.
use dns_server_mandiri.Dns.{Msg, Question, DnsLaws}
use dns_server_mandiri.Failover.{resolve as resolve_upstream}
use dns_server_mandiri.Filter.Counts.{IsSmall}
use dns_server_mandiri.Filter.{Filter, canonical, is_blocked}
use dns_server_mandiri.Localrecords.{lookup_records}
use dns_server_mandiri.Metrics.Whole.{record_query-IsWhole, record_query_detail-IsWhole}
use dns_server_mandiri.Prelude.Text.{Text, text}
use dns_server_mandiri.Prelude.{
  ℕ, ◌≤◌, ◌≢◌, Bool, true, false, List, [], ◌∷◌, All, by_if, by_option, le_trans,
}
use dns_server_mandiri.Resolver.Keeps.{resolve-IsValid}
use dns_server_mandiri.Resolver.Steps.{resolve}
use dns_server_mandiri.Server.{
  Server, Moment, Outside, ask_limiter, observe, send, send_failure, try_failover, resolve_question,
  answer_local, answer_question, answer_request, handle_dns,
}
use dns_server_mandiri.Server.Valid.{
  IsValid, IsRequest, by_result, by_outcome, failed_over, ran, filtered, limited, counted,
  tracker-later, limiter-Fits, count_client-IsValid, to_lower-ne-nil, dotted-ne-nil, check-IsSmall,
}

module _ (o : Outside) (laws : DnsLaws o.lib) where
  is_blocked-IsSmall :
      (domain : Text) (f : Filter)
      → IsSmall f.blocked_counts
      → IsSmall (is_blocked o.lib domain f).0.blocked_counts
  unfolding is_blocked
  is_blocked-IsSmall domain f s =
      by_if (λ (r : Filter × Bool). IsSmall r.0.blocked_counts) f.enabled _ _
        (λ _.
          check-IsSmall (canonical o.lib domain) f
            (to_lower-ne-nil (o.lib.canonical_name domain)
              (dotted-ne-nil (o.lib.canonical_name domain) (laws.canonical_dot domain)))
            s)
        (λ _. s)

  module _ (now : ℕ) (t : Moment) (r : Msg) (q : Question) (i : IsRequest now t r)
      (ne : q.name ≢ []) where
    observe-IsValid :
        (rcode : ℕ) (shown : Text) (blocked cached : Bool) (s : Server)
        → IsValid now s
        → IsValid t.last_seen (observe o t q rcode shown blocked cached s)
    unfolding observe
    observe-IsValid rcode shown blocked cached s v = record {
      cache = v.cache;
      metrics =
          record_query_detail-IsWhole _ t.latency _ ne
            (record_query-IsWhole t.protocol rcode t.latency s.metrics v.metrics);
      blocked = v.blocked;
      buckets = v.buckets;
      clients =
          count_client-IsValid now t q.name blocked s.client_stats i.client i.first i.last
            v.clients;
    }

    abbrev Q : Server × Msg → Type 0
    Q x = IsValid t.last_seen x.0

    send-IsValid :
        (m : Msg) (cached : Bool) (s : Server) → IsValid now s → Q (send o t r q m cached s)
    unfolding send
    send-IsValid m cached s v = observe-IsValid _ _ false cached s v

    failure-IsValid : (s : Server) → IsValid now s → Q (send_failure o t r q s)
    unfolding send_failure
    failure-IsValid s v = observe-IsValid _ _ false false s v

    failover-IsValid : (s : Server) → IsValid now s → Q (try_failover o t r q s)
    unfolding try_failover
    failover-IsValid s v =
        let (f, got) = resolve_upstream o.lib o.upstream o.blank q.name q.qtype s.failover in
        let v' = failed_over now s f v in
        by_result Q got _ _ (λ m. send-IsValid m false _ v') (failure-IsValid _ v')

    resolve_question-IsValid : (s : Server) → IsValid now s → Q (resolve_question o t r q s)
    unfolding resolve_question
    resolve_question-IsValid s v =
        let (run', got, cached) =
          resolve o.lib o.resolver o.world o.blank q.name q.qtype q.qclass s.run in
        let v' = ran now s run' v (
          resolve-IsValid o.lib o.resolver o.world o.blank q.name q.qtype q.qclass s.run v.cache) in
        by_outcome Q got _ _ (λ m. send-IsValid m cached _ v')
          (by_if Q s.failover.cfg.enabled _ _ (λ _. failover-IsValid _ v')
            (λ _. failure-IsValid _ v'))

    answer_question-IsValid : (s : Server) → IsValid now s → Q (answer_question o t r q s)
    unfolding answer_question answer_local
    answer_question-IsValid s v =
        let v' = filtered now s _ v (is_blocked-IsSmall q.name s.filter v.blocked) in
        by_if Q (is_blocked o.lib q.name s.filter).1 _ _
          (λ _. observe-IsValid _ (text "BLOCKED") true false _ v')
          (λ _.
            by_option Q (lookup_records o.lib o.net o.blank q.name q.qtype s.local_records) _ _
              (λ _. resolve_question-IsValid _ v')
              (λ m _. observe-IsValid _ (text "LOCAL") false false _ v'))

  -- A request without a question, or beyond the limit, leaves the clients as they are.
  later-IsValid : (now later : ℕ) (s : Server) → now ≤ later → IsValid now s → IsValid later s
  later-IsValid now later s h v = record {
    cache = v.cache;
    metrics = v.metrics;
    blocked = v.blocked;
    buckets = v.buckets;
    clients = tracker-later now later s.client_stats h v.clients;
  }

  request-IsValid :
      (now : ℕ) (t : Moment) (r : Msg) (qs : List Question) (s : Server)
      → IsRequest now t r
      → All (λ (q : Question). q.name ≢ []) qs
      → IsValid now s
      → IsValid t.last_seen (answer_request o t r qs s).0
  unfolding answer_request
  request-IsValid now t r [] s i named v =
      later-IsValid now t.last_seen s (le_trans i.first i.last) v
  request-IsValid now t r (q ∷ qs) s i named v = answer_question-IsValid now t r q i named.0 s v

  -- Handling a request keeps every component well formed, on every path of the handler: the cache
  -- within its size, the counters in balance, the ring of queries and the counts of domains within
  -- their bounds, the buckets within the burst and the tracked clients consistent.
  pub handle_dns-IsValid :
      (now : ℕ) (t : Moment) (r : Msg) (s : Server)
      → IsRequest now t r
      → IsValid now s
      → IsValid t.last_seen (handle_dns o t r s).0
  unfolding handle_dns
  handle_dns-IsValid now t r s i v =
      let v' = limited now s _ v (limiter-Fits t s.limiter v.buckets) in
      by_if (λ (x : Server × Msg). IsValid t.last_seen x.0) (ask_limiter t s.limiter).1 _ _
        (λ _. request-IsValid now t r r.question _ i i.named v')
        (λ _. later-IsValid now t.last_seen _ (le_trans i.first i.last) (counted now _ v'))
