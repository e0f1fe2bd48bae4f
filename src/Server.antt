-- ===== src/Server.antt =====
-- internal/server/server.go: `handleDNS` over the other components. The optional components are
-- options. A request carries the readings of the clock that the handler makes, in `Moment`.
pub mod Answers
pub mod Valid
pub mod Invariant
pub mod Start
pub mod Stored
pub mod Fresh
pub mod Allowed
use dns_server_mandiri.Clientstats.{Tracker, record_query as record_client}
use dns_server_mandiri.Dns.{
  Msg, Question, DnsLib, rcode_refused, rcode_format_error, rcode_server_failure,
}
use dns_server_mandiri.Failover.{
  Failover, World as UpstreamWorld, Result, answered, cancelled, exhausted,
  resolve as resolve_upstream,
}
use dns_server_mandiri.Filter.{Filter, is_blocked, blocked_response}
use dns_server_mandiri.Localrecords.{LocalRecords, NetLib, lookup_records}
use dns_server_mandiri.Metrics.{Metrics, QueryLog, record_query, record_query_detail}
use dns_server_mandiri.Prelude.{
  ℕ, ◌/◌, Bool, true, false, Option, none, some, List, [], ◌∷◌, if◌then◌else◌, add64,
}
use dns_server_mandiri.Prelude.Text.{Text, text, is_empty}
use dns_server_mandiri.Ratelimit.{Limiter, allow}
use dns_server_mandiri.Resolver.Steps.{resolve}
use dns_server_mandiri.Resolver.{ResolverConfig, World, Run, Outcome, reply, failed, out_of_fuel}

pub record Server : Type 0 where
  pub limiter : Option Limiter
  pub metrics : Metrics
  pub filter : Filter
  pub failover : Failover
  pub local_records : LocalRecords
  pub client_stats : Option Tracker
  pub run : Run

-- The rest of a request: its protocol and client, and the clock at its stages.
pub record Moment : Type 0 where
  pub protocol : Text
  pub client_ip : Text
  pub allowed_at : ℕ
  pub latency : ℕ
  pub logged_at : ℕ
  pub first_seen : ℕ
  pub last_seen : ℕ

-- What the handler uses of the outside.
pub record Outside : Type 0 where
  pub lib : DnsLib
  pub net : NetLib
  pub resolver : ResolverConfig
  pub world : World
  pub upstream : UpstreamWorld
  pub blank : Msg
  pub block_response : Text
  -- `fmt.Sprintf("RCODE_%d", rcode)`
  pub unknown_rcode : ℕ → Text

-- The limiter, if there is one.
unfoldable pub ask_limiter : Moment → Option Limiter → Option Limiter × Bool
ask_limiter t none = (none, true)
ask_limiter t (some l) = let (l', ok) = allow t.client_ip t.allowed_at l in (some l', ok)

unfoldable pub count_client : Moment → Text → Bool → Option Tracker → Option Tracker
count_client t name blocked none = none
count_client t name blocked (some c) =
    some (record_client t.client_ip name blocked t.latency t.first_seen t.last_seen c)

module _ (o : Outside) where
  -- The metrics and the client statistics of an answered question.
  unfoldable pub observe : Moment → Question → ℕ → Text → Bool → Bool → Server → Server
  observe t q rcode shown blocked cached s = record s {
    metrics =
        record_query_detail
          (record {
            timestamp = t.logged_at;
            client_ip = t.client_ip;
            domain = q.name;
            query_type = o.lib.type_to_string q.qtype;
            rcode = shown;
            latency_us = t.latency / 1000;
            cached = cached;
            protocol = t.protocol;
          })
          t.latency (record_query t.protocol rcode t.latency s.metrics);
    client_stats = count_client t q.name blocked s.client_stats;
  }

  unfoldable pub rcode_text : ℕ → Text
  rcode_text rcode =
      if is_empty (o.lib.rcode_to_string rcode)
      then o.unknown_rcode rcode
      else o.lib.rcode_to_string rcode

  -- The end of the handler, with a response or after an error.
  unfoldable pub send : Moment → Msg → Question → Msg → Bool → Server → Server × Msg
  send t r q resp cached s =
      let out = record (o.lib.set_reply resp r) { recursion_available = true; compress = true } in
      (observe t q out.rcode (rcode_text out.rcode) false cached s, out)

  unfoldable pub send_failure : Moment → Msg → Question → Server → Server × Msg
  send_failure t r q s = (
    observe t q rcode_server_failure (text "SERVFAIL") false false s,
    o.lib.set_rcode o.blank r rcode_server_failure,
  )

  -- The failover, after an error of the resolver.
  unfoldable pub try_failover : Moment → Msg → Question → Server → Server × Msg
  try_failover t r q s =
      let (f, got) = resolve_upstream o.lib o.upstream o.blank q.name q.qtype s.failover in
      let s' = record s { failover = f } in
      elim got [
        | answered resp ↦ send t r q resp false s'
        | cancelled ↦ send_failure t r q s'
        | exhausted ↦ send_failure t r q s'
      ]

  unfoldable pub resolve_question : Moment → Msg → Question → Server → Server × Msg
  resolve_question t r q s =
      let (run', got, cached) =
        resolve o.lib o.resolver o.world o.blank q.name q.qtype q.qclass s.run in
      let s' = record s { run = run' } in
      let fallback =
        if s.failover.cfg.enabled then try_failover t r q s' else send_failure t r q s' in
      elim got [
        | reply resp ↦ send t r q resp cached s'
        | failed _ ↦ fallback
        | out_of_fuel ↦ fallback
      ]

  -- Step 2 of the handler; step 1 was passed.
  unfoldable pub answer_local : Moment → Msg → Question → Server → Server × Msg
  answer_local t r q s = elim (lookup_records o.lib o.net o.blank q.name q.qtype s.local_records) [
    | some resp ↦
        let out = o.lib.set_reply resp r in
        (observe t q out.rcode (text "LOCAL") false false s, out)
    | none ↦ resolve_question t r q s
  ]

  unfoldable pub answer_question : Moment → Msg → Question → Server → Server × Msg
  answer_question t r q s =
      let (f, blocked) = is_blocked o.lib q.name s.filter in
      let s' = record s { filter = f } in
      let out = blocked_response o.lib o.blank r o.block_response in
      if blocked
      then (observe t q out.rcode (text "BLOCKED") true false s', out)
      else answer_local t r q s'

  -- `handleDNS`: the new state and the response that is written.
  unfoldable pub answer_request : Moment → Msg → List Question → Server → Server × Msg
  answer_request t r [] s = (s, o.lib.set_rcode o.blank r rcode_format_error)
  answer_request t r (q ∷ _) s = answer_question t r q s

  unfoldable pub handle_dns : Moment → Msg → Server → Server × Msg
  handle_dns t r s =
      let (l, ok) = ask_limiter t s.limiter in
      let s' = record s { limiter = l } in
      if ok then answer_request t r r.question s' else (
        record s' {
          metrics = record (s'.metrics) { rate_limited = add64 s'.metrics.rate_limited 1 };
        },
        o.lib.set_rcode o.blank r rcode_refused,
      )
