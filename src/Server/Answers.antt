-- ===== src/Server/Answers.antt =====
-- The response codes of the handler.
use dns_server_mandiri.Dns.{
  Msg, Question, DnsLaws, rcode_success, rcode_refused, rcode_format_error, rcode_server_failure,
}
use dns_server_mandiri.Failover.{
  Result, answered, cancelled, exhausted, resolve as resolve_upstream,
}
use dns_server_mandiri.Filter.{is_blocked, blocked_response}
use dns_server_mandiri.Localrecords.{lookup_records}
use dns_server_mandiri.Prelude.{
  ℕ, ◌≡◌, refl, Bool, true, false, Option, none, some, List, [], ◌∷◌, if◌then◌else◌, add64,
}
use dns_server_mandiri.Resolver.Steps.{resolve}
use dns_server_mandiri.Resolver.{Outcome, reply, failed, out_of_fuel}
use dns_server_mandiri.Server.{
  Server, Moment, Outside, ask_limiter, send, send_failure, try_failover, resolve_question,
  answer_local, answer_question, answer_request, handle_dns,
}

-- The code of a question that the filter and the local records pass on.
abbrev upstream_code : Result → ℕ
upstream_code (answered _) = rcode_success
upstream_code cancelled = rcode_server_failure
upstream_code exhausted = rcode_server_failure

abbrev resolved_code : Bool → Result → Outcome → ℕ
resolved_code enabled up (reply _) = rcode_success
resolved_code enabled up (failed _) = if enabled then upstream_code up else rcode_server_failure
resolved_code enabled up out_of_fuel = if enabled then upstream_code up else rcode_server_failure

abbrev local_code : Option Msg → ℕ → ℕ
local_code (some _) n = rcode_success
local_code none n = n

module _ (o : Outside) where
  -- The codes as a table: the first rule that applies gives the code.
  abbrev pub question_code : Msg → Question → Server → ℕ
  question_code r q s =
      if (is_blocked o.lib q.name s.filter).1
      then (blocked_response o.lib o.blank r o.block_response).rcode
      else local_code (lookup_records o.lib o.net o.blank q.name q.qtype s.local_records) (
          resolved_code s.failover.cfg.enabled
            (resolve_upstream o.lib o.upstream o.blank q.name q.qtype s.failover).1
            (resolve o.lib o.resolver o.world o.blank q.name q.qtype q.qclass s.run).1)

  abbrev pub code_of : List Question → (Question → ℕ) → ℕ
  code_of [] code = rcode_format_error
  code_of (q ∷ _) code = code q

  if_code :
      (b : Bool) (x y : Server × Msg) (m n : ℕ)
      → x.1.rcode ≡ m
      → y.1.rcode ≡ n
      → (if b then x else y).1.rcode ≡ (if b then m else n)
  if_code true x y m n p q = p
  if_code false x y m n p q = q

  result_code :
      (got : Result) (f : Msg → Server × Msg) (fails : Server × Msg)
      → ((m : Msg) → (f m).1.rcode ≡ rcode_success)
      → fails.1.rcode ≡ rcode_server_failure
      → (elim got as (λ _. Server × Msg) [
        | answered m ↦ f m
        | cancelled ↦ fails
        | exhausted ↦ fails
      ]).1.rcode
        ≡ upstream_code got
  result_code (answered m) f fails p q = p m
  result_code cancelled f fails p q = q
  result_code exhausted f fails p q = q

  outcome_code :
      (got : Outcome) (f : Msg → Server × Msg) (fallback : Server × Msg) (enabled : Bool)
      (up : Result)
      → ((m : Msg) → (f m).1.rcode ≡ rcode_success)
      → fallback.1.rcode ≡ (if enabled then upstream_code up else rcode_server_failure)
      → (elim got as (λ _. Server × Msg) [
        | reply m ↦ f m
        | failed _ ↦ fallback
        | out_of_fuel ↦ fallback
      ]).1.rcode
        ≡ resolved_code enabled up got
  outcome_code (reply m) f fallback enabled up p q = p m
  outcome_code (failed e) f fallback enabled up p q = q
  outcome_code out_of_fuel f fallback enabled up p q = q

  found_code :
      (found : Option Msg) (f : Msg → Server × Msg) (next : Server × Msg) (n : ℕ)
      → ((m : Msg) → (f m).1.rcode ≡ rcode_success)
      → next.1.rcode ≡ n
      → (elim found as (λ _. Server × Msg) [ some m ↦ f m | none ↦ next ]).1.rcode
        ≡ local_code found n
  found_code (some m) f next n p q = p m
  found_code none f next n p q = q

  module _ (laws : DnsLaws o.lib) (t : Moment) (r : Msg) where
    send_code :
        (q : Question) (m : Msg) (cached : Bool) (s : Server)
        → (send o t r q m cached s).1.rcode ≡ rcode_success
    unfolding send
    send_code q m cached s = laws.set_reply_rcode m r

    failure_code :
        (q : Question) (s : Server) → (send_failure o t r q s).1.rcode ≡ rcode_server_failure
    unfolding send_failure
    failure_code q s = laws.set_rcode_rcode o.blank r rcode_server_failure

    failover_code :
        (q : Question) (s : Server)
        → (try_failover o t r q s).1.rcode
          ≡ upstream_code (resolve_upstream o.lib o.upstream o.blank q.name q.qtype s.failover).1
    unfolding try_failover
    failover_code q s =
        result_code (resolve_upstream o.lib o.upstream o.blank q.name q.qtype s.failover).1 _ _
          (λ m. send_code q m false _) (failure_code q _)

    resolve_code :
        (q : Question) (s : Server)
        → (resolve_question o t r q s).1.rcode
          ≡ resolved_code s.failover.cfg.enabled
              (resolve_upstream o.lib o.upstream o.blank q.name q.qtype s.failover).1
              (resolve o.lib o.resolver o.world o.blank q.name q.qtype q.qclass s.run).1
    unfolding resolve_question
    resolve_code q s =
        let (run', got, cached) =
          resolve o.lib o.resolver o.world o.blank q.name q.qtype q.qclass s.run in
        let s' = record s { run = run' } in
        outcome_code got _ _ s.failover.cfg.enabled
          (resolve_upstream o.lib o.upstream o.blank q.name q.qtype s.failover).1
          (λ m. send_code q m cached s')
          (if_code s.failover.cfg.enabled (try_failover o t r q s') (send_failure o t r q s') _ _
            (failover_code q s') (failure_code q s'))

    question_code_lem :
        (q : Question) (s : Server) → (answer_question o t r q s).1.rcode ≡ question_code r q s
    unfolding answer_question answer_local
    question_code_lem q s =
        let s' = record s { filter = (is_blocked o.lib q.name s.filter).0 } in
        if_code (is_blocked o.lib q.name s.filter).1 _ _ _ _ refl (
          found_code (lookup_records o.lib o.net o.blank q.name q.qtype s.local_records) _ _ _
            (λ m. laws.set_reply_rcode m r) (resolve_code q s'))

    request_code :
        (qs : List Question) (s : Server)
        → (answer_request o t r qs s).1.rcode ≡ code_of qs (λ q. question_code r q s)
    unfolding answer_request
    request_code [] s = laws.set_rcode_rcode o.blank r rcode_format_error
    request_code (q ∷ qs) s = question_code_lem q s

    -- The handler always writes a response, and its code is that of the first rule that applies:
    -- REFUSED if the limiter has no token, FORMERR without a question, that of the blocking
    -- response if the name is blocked, success for a local record, success if the resolver replies,
    -- success if the failover is enabled and answers, and SERVFAIL otherwise. In particular the
    -- code of the resolver's reply, such as NXDOMAIN, is not sent. The condition is what the
    -- documentation says of `SetReply` and `SetRcode`.
    pub handle_dns_lem :
        (s : Server)
        → (handle_dns o t r s).1.rcode ≡ (
            if (ask_limiter t s.limiter).1
            then code_of r.question (λ q. question_code r q s)
            else rcode_refused)
    unfolding handle_dns
    handle_dns_lem s =
        let s' = record s { limiter = (ask_limiter t s.limiter).0 } in
        let limited : Server × Msg = (
          record s' {
            metrics = record (s.metrics) { rate_limited = add64 s.metrics.rate_limited 1 };
          },
          o.lib.set_rcode o.blank r rcode_refused,
        ) in
        if_code (ask_limiter t s.limiter).1 (answer_request o t r r.question s') limited _
          rcode_refused (request_code r.question s') (laws.set_rcode_rcode o.blank r rcode_refused)
