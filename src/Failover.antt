-- ===== src/Failover.antt =====
-- internal/failover/failover.go: resolution by upstream servers when the recursive one failed. The
-- network is a parameter: what an exchange with an address yields, as a function of how many
-- exchanges came before it; nothing is an error. So is the context: whether it is done when asked
-- for the n-th time. The clock gives one reading for each exchange.
pub mod Order
pub mod Turns
pub mod Answers
pub mod Recovery
use dns_server_mandiri.Dns.{Msg, DnsLib, rcode_success, rcode_server_failure}
use dns_server_mandiri.Prelude.{
  ℕ, zero, suc, ◌+◌, Bool, true, false, not, ◌&&◌, Option, none, some, List, [], ◌∷◌, ◌++◌, ◌==◌,
  if◌then◌else◌, add64,
}
use dns_server_mandiri.Prelude.Dict.{Dict, lookup, insert}
use dns_server_mandiri.Prelude.Text.{Text, text}

pub record Config : Type 0 where
  pub enabled : Bool
  pub upstreams : List Text
  pub max_retries : ℕ

-- The average is the fraction of the total and the count; latencies are nanoseconds.
pub record UpstreamLatency : Type 0 where
  pub total_latency : ℕ
  pub query_count : ℕ
  pub last_latency : ℕ

pub record Failover : Type 0 where
  pub cfg : Config
  pub healthy : Dict Bool
  pub last_check : Dict ℕ
  pub latency_stats : Dict UpstreamLatency

-- `f.healthy[us]`, which is false for an unknown upstream.
abbrev pub or_false : Option Bool → Bool
or_false none = false
or_false (some b) = b

unfoldable pub is_healthy : Failover → Text → Bool
is_healthy f us = or_false (lookup us f.healthy)

-- `New`
unfoldable pub mark_all : List Text → Dict Bool → Dict Bool
mark_all [] healthy = healthy
mark_all (us ∷ rest) healthy = mark_all rest (insert us true healthy)

unfoldable pub init : Config → Failover
init cfg = record {
  cfg = cfg;
  healthy = mark_all cfg.upstreams [];
  last_check = [];
  latency_stats = [];
}

-- The loop of `getOrderedUpstreams`, with the two lists it fills.
unfoldable pub order_loop : Failover → List Text → List Text → List Text → List Text
order_loop f [] healthy unhealthy = healthy ++ unhealthy
order_loop f (us ∷ rest) healthy unhealthy =
    let up = order_loop f rest (healthy ++ (us ∷ [])) unhealthy in
    let down = order_loop f rest healthy (unhealthy ++ (us ∷ [])) in
    if is_healthy f us then up else down

unfoldable pub get_ordered_upstreams : Failover → List Text
get_ordered_upstreams f = order_loop f f.cfg.upstreams [] []

unfoldable pub mark_healthy : Text → Failover → Failover
mark_healthy us f = record f { healthy = insert us true f.healthy }

unfoldable pub mark_unhealthy : ℕ → Text → Failover → Failover
mark_unhealthy now us f = record f {
  healthy = insert us false f.healthy;
  last_check = insert us now f.last_check;
}

-- `recordLatency`
abbrev pub latency_of : Option UpstreamLatency → UpstreamLatency
latency_of none = record { total_latency = 0; query_count = 0; last_latency = 0 }
latency_of (some s) = s

unfoldable pub record_latency : Text → ℕ → Failover → Failover
record_latency us latency f =
    let s = latency_of (lookup us f.latency_stats) in
    record f {
      latency_stats =
          insert us
            (record {
              total_latency = add64 s.total_latency latency;
              query_count = add64 s.query_count 1;
              last_latency = latency;
            })
            f.latency_stats;
    }

-- `GetLatencyStats` and `GetHealthStatus` copy the maps.
unfoldable pub get_latency_stats : Failover → Dict UpstreamLatency
get_latency_stats f = f.latency_stats

unfoldable pub get_health_status : Failover → Dict Bool
get_health_status f = f.healthy

-- What the loops see of the outside.
pub record World : Type 0 where
  pub exchange : ℕ → Text → Msg → Option Msg
  pub latency : ℕ → ℕ
  pub clock : ℕ → ℕ
  pub done : ℕ → Bool

-- `resp != nil && resp.Rcode != dns.RcodeServerFailure`, without an error.
unfoldable pub accepted : Option Msg → Option Msg
accepted none = none
accepted (some resp) = if resp.rcode == rcode_server_failure then none else some resp

-- One upstream: the number of exchanges so far, and the accepted response with its latency.
unfoldable pub retry_loop : World → Msg → Text → ℕ → ℕ → ℕ × Option (Msg × ℕ)
retry_loop w msg addr zero n = (n, none)
retry_loop w msg addr (suc left) n =
    let again = retry_loop w msg addr left (n + 1) in
    elim (accepted (w.exchange n addr msg)) [
      | some resp ↦ (n + 1, some (resp, w.latency n))
      | none ↦ again
    ]

-- The three ways in which `Resolve` returns.
pub data Result : Type 0 where
  answered : Msg → Result
  cancelled exhausted : Result

unfoldable pub upstream_loop : World → Msg → List Text → ℕ → Failover → Failover × Result
upstream_loop w msg [] n f = (f, exhausted)
upstream_loop w msg (us ∷ rest) n f =
    let (n', got) = retry_loop w msg (us ++ text ":53") (suc f.cfg.max_retries) n in
    let next = upstream_loop w msg rest n' (mark_unhealthy (w.clock n') us f) in
    if w.done n then (f, cancelled) else elim got [
      | some (resp, latency) ↦ (record_latency us latency (mark_healthy us f), answered resp)
      | none ↦ next
    ]

-- `checkUnhealthy`: the upstreams to ask, and the loop over them.
unfoldable pub to_check : Dict Bool → List Text
to_check [] = []
to_check ((us, healthy) ∷ rest) = let more = to_check rest in if healthy then more else us ∷ more

unfoldable pub recovered : Option Msg → Bool
recovered none = false
recovered (some resp) = resp.rcode == rcode_success

unfoldable pub check_loop : World → Msg → List Text → ℕ → Failover → Failover
check_loop w msg [] n f = f
check_loop w msg (us ∷ rest) n f =
    check_loop w msg rest (n + 1)
      (if recovered (w.exchange n (us ++ text ":53") msg) then mark_healthy us f else f)

module _ (lib : DnsLib) where
  unfoldable pub query : Msg → Text → ℕ → Msg
  query blank name qtype = record (lib.set_question blank (lib.fqdn name) qtype) {
    recursion_desired = true;
  }

  unfoldable pub resolve : World → Msg → Text → ℕ → Failover → Failover × Result
  resolve w blank name qtype f =
      if f.cfg.enabled
      then upstream_loop w (query blank name qtype) (get_ordered_upstreams f) 0 f
      else (f, exhausted)

  -- The question for the name servers of the root.
  unfoldable pub check_unhealthy : World → Msg → Failover → Failover
  check_unhealthy w blank f =
      check_loop w (record (lib.set_question blank (text ".") 2) { recursion_desired = true })
        (to_check f.healthy) 0 f
