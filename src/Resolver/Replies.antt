-- ===== src/Resolver/Replies.antt =====
-- What the resolver's replies have in common.
use dns_server_mandiri.Dns.{Msg, DnsLib, rcode_server_failure, rcode_name_error, type_cname}
use dns_server_mandiri.Prelude.Text.{Text, text, is_empty}
use dns_server_mandiri.Prelude.{
  ℕ, zero, suc, ◌+◌, ◌≤◌, ◌<◌, subst, ◌≡◌, ◌≢◌, Option, some, List, [], ◌∷◌, ltb, inl, inr, arith,
  ◌⊎◌, not, ◌&&◌, ◌||◌, ◌==◌, by_if, by_option, by_sum,
}
use dns_server_mandiri.Resolver.Steps.{
  tick, is_nil, exchange, retry_loop, servers_loop, query_nameservers, finish_chain, follow_cname,
  extract_referral, use_response, iterate, resolve_level, resolve_iterative,
}
use dns_server_mandiri.Resolver.{
  ResolverConfig, World, Run, Error, Outcome, reply, failed, out_of_fuel, root_servers, cancelled,
  depth_exceeded, loop_exhausted, chain_too_long, build_response, extract_cname, chain_response,
}

abbrev pub Sound : Msg → Type 0
Sound m = m.rcode ≢ rcode_server_failure

retry-Sound :
    (w : World) (msg : Msg) (addr : Text) (left : ℕ) (s : Run) (resp : Msg)
    → (retry_loop w msg addr left s).1 ≡ some resp
    → Sound resp
unfolding retry_loop
retry-Sound w msg addr zero s resp = λ h. ground arith
retry-Sound w msg addr (suc left) s resp =
    by_option (λ (r : Run × Option Msg). r.1 ≡ some resp → Sound resp) (exchange w msg addr s)
      (retry_loop w msg addr left (tick s)) _ (λ e. retry-Sound w msg addr left (tick s) resp)
      (λ m e.
        by_if (λ (r : Run × Option Msg). r.1 ≡ some resp → Sound resp)
          (m.rcode == rcode_server_failure) _ _ (λ bad h. ground arith) (λ ok h. ground arith))

-- What is known of the answer of the name servers.
abbrev Good : Error ⊎ Msg → Type 0
Good (inl e) = Unit
Good (inr m) = Sound m

module _ (lib : DnsLib) (cfg : ResolverConfig) (w : World) (blank : Msg) where
  servers-Good :
      (msg : Msg) (hosts : List Text) (s : Run) → Good (servers_loop lib cfg w blank msg hosts s).1
  unfolding servers_loop
  servers-Good msg [] s = tt
  servers-Good msg (host ∷ hosts) s =
      let addr = w.join_host_port host (text "53") in
      let tried = retry_loop w msg addr (suc cfg.retries) s in
      by_if (λ (r : Run × (Error ⊎ Msg)). Good r.1) (w.done s.step) _ _ (λ stop. tt)
        (λ on.
          by_option (λ (r : Run × (Error ⊎ Msg)). Good r.1) tried.1
            (servers_loop lib cfg w blank msg hosts tried.0) _ (λ e. servers-Good msg hosts tried.0)
            (λ m e. retry-Sound w msg addr (suc cfg.retries) s m e))

  query-Good :
      (name : Text) (qtype : ℕ) (servers : List Text) (s : Run)
      → Good (query_nameservers lib cfg w blank name qtype servers s).1
  unfolding query_nameservers
  query-Good name qtype servers s = servers-Good _ (w.shuffle s.step servers) s

  -- What an inductive argument over the depth has to show of a predicate of outcomes.
  record Closed (P : Outcome → Type 0) : Type 0 where
    on_error : (e : Error) → P (failed e)
    on_built :
        (name : Text) (qtype : ℕ) (resp : Msg)
        → Sound resp
        → P (reply (build_response lib blank name qtype resp))
    on_chain :
        (name : Text) (qtype : ℕ) (resp target : Msg)
        → P (reply target)
        → P (reply (chain_response lib blank name qtype resp target))

  module _ (again : Text → ℕ → ℕ → ℕ → Run → Run × Outcome) (P : Outcome → Type 0)
      (c : Closed P) where
    -- A step that goes on with other servers has no outcome yet.
    abbrev Ends : Outcome ⊎ List Text → Type 0
    Ends (inl o) = P o
    Ends (inr ips) = Unit

    abbrev Deeper : ℕ → Type 0
    Deeper depth =
        (name : Text) (qtype qclass : ℕ) (s : Run) → P (again name qtype qclass (depth + 1) s).1

    finish-P :
        (name : Text) (qtype : ℕ) (resp : Msg) (r : Run × Outcome)
        → P r.1
        → P (finish_chain lib cfg w blank again name qtype resp r).1
    unfolding finish_chain
    finish-P name qtype resp (s, reply target) h = c.on_chain name qtype resp target h
    finish-P name qtype resp (s, failed e) h = h
    finish-P name qtype resp (s, out_of_fuel) h = h

    follow-P :
        (name target : Text) (qtype qclass : ℕ) (resp : Msg) (depth : ℕ) (s : Run)
        → Deeper depth
        → P (follow_cname lib cfg w blank again name target qtype qclass resp depth s).1
    unfolding follow_cname
    follow-P name target qtype qclass resp depth s deep =
        by_if (λ (r : Run × Outcome). P r.1) (ltb cfg.max_cname_chain depth) _ _
          (λ long. c.on_error chain_too_long)
          (λ short.
            finish-P name qtype resp (again target qtype qclass (depth + 1) s)
              (deep target qtype qclass s))

    use-P :
        (name : Text) (qtype qclass depth : ℕ) (resp : Msg) (s : Run)
        → Deeper depth
        → Sound resp
        → Ends (use_response lib cfg w blank again name qtype qclass depth resp s).1
    unfolding use_response
    use-P name qtype qclass depth resp s deep ok =
        let E : Run × (Outcome ⊎ List Text) → Type 0 = λ r. Ends r.1 in
        let built = c.on_built name qtype resp ok in
        let target = extract_cname lib blank resp.answer name in
        let servers = (extract_referral lib cfg w blank again resp depth s).1 in
        by_if E (resp.authoritative || resp.rcode == rcode_name_error) _ _ (λ _. built)
          (λ _.
            by_if E (not (is_nil resp.answer)) _ _
              (λ _.
                by_if E (not (qtype == type_cname) && not (is_empty target)) _ _
                  (λ _. follow-P name target qtype qclass resp depth s deep) (λ _. built))
              (λ _.
                by_if E (not (is_nil resp.ns)) _ _
                  (λ _. by_if Ends (is_nil servers) _ _ (λ _. built) (λ _. tt)) (λ _. built)))

    iterate-P :
        (name : Text) (qtype qclass depth left : ℕ) (servers : List Text) (s : Run)
        → Deeper depth
        → P (iterate lib cfg w blank again name qtype qclass depth left servers s).1
    unfolding iterate
    iterate-P name qtype qclass depth zero servers s deep = c.on_error loop_exhausted
    iterate-P name qtype qclass depth (suc left) servers s deep =
        let Q : Run × Outcome → Type 0 = λ r. P r.1 in
        let (s₁, got) = query_nameservers lib cfg w blank name qtype servers s in
        by_sum Q got _ _
          (λ e _. by_if Q (w.done s.step) _ _ (λ _. c.on_error cancelled) (λ _. c.on_error e))
          (λ resp at.
            let ok = subst Good at (query-Good name qtype servers s) in
            let used = use_response lib cfg w blank again name qtype qclass depth resp s₁ in
            let ends = use-P name qtype qclass depth resp s₁ deep ok in
            by_if Q (w.done s.step) _ _ (λ _. c.on_error cancelled)
              (λ _.
                by_sum Q used.1 _ _ (λ o e. subst Ends e ends)
                  (λ ips _. iterate-P name qtype qclass depth left ips used.0 deep)))

    level-P :
        (name : Text) (qtype qclass depth : ℕ) (s : Run)
        → (depth ≤ cfg.max_depth → Deeper depth)
        → P (resolve_level lib cfg w blank again name qtype qclass depth s).1
    unfolding resolve_level
    level-P name qtype qclass depth s deep =
        let Q : Run × Outcome → Type 0 = λ r. P r.1 in
        by_if Q (ltb cfg.max_depth depth) _ _ (λ _. c.on_error depth_exceeded)
          (λ fits.
            by_if Q (w.done s.step) _ _ (λ _. c.on_error cancelled)
              (λ _.
                iterate-P name qtype qclass depth cfg.max_depth root_servers s
                  (deep (ground arith))))

  -- An outcome that is not SERVFAIL, if it is a reply.
  abbrev pub NotServfail : Outcome → Type 0
  NotServfail (reply m) = Sound m
  NotServfail (failed e) = Unit
  NotServfail out_of_fuel = Unit

  NotServfail-Closed : Closed NotServfail
  unfolding build_response chain_response
  NotServfail-Closed = record {
    on_error = λ e. tt;
    on_built = λ name qtype resp ok. ok;
    on_chain = λ name qtype resp target ok. ok;
  }

  -- A reply of the resolver is never SERVFAIL: such responses of name servers are passed over.
  pub resolve_iterative-NotServfail :
      (fuel : ℕ) (name : Text) (qtype qclass depth : ℕ) (s : Run)
      → NotServfail (resolve_iterative lib cfg w blank fuel name qtype qclass depth s).1
  unfolding resolve_iterative
  resolve_iterative-NotServfail zero name qtype qclass depth s = tt
  resolve_iterative-NotServfail (suc n) name qtype qclass depth s =
      level-P (resolve_iterative lib cfg w blank n) NotServfail NotServfail-Closed name qtype qclass
        depth s
        (λ _ name' qtype' qclass' s'.
          resolve_iterative-NotServfail n name' qtype' qclass' (depth + 1) s')

  abbrev pub Ended : Outcome → Type 0
  Ended (reply m) = Unit
  Ended (failed e) = Unit
  Ended out_of_fuel = ⊥

  Ended-Closed : Closed Ended
  Ended-Closed = record {
    on_error = λ e. tt;
    on_built = λ name qtype resp ok. tt;
    on_chain = λ name qtype resp target ok. tt;
  }

  -- A resolution ends with a reply or an error of the code, never by lack of fuel, if the fuel
  -- covers the depth that is left: each call of itself is one deeper, and none is deeper than one
  -- more than the maximum.
  pub resolve_iterative-Ended :
      (fuel : ℕ) (name : Text) (qtype qclass depth : ℕ) (s : Run)
      → 0 < fuel
      → cfg.max_depth + 2 ≤ depth + fuel
      → Ended (resolve_iterative lib cfg w blank fuel name qtype qclass depth s).1
  unfolding resolve_iterative
  resolve_iterative-Ended zero name qtype qclass depth s some_fuel h = absurd (omega arith)
  resolve_iterative-Ended (suc n) name qtype qclass depth s some_fuel h =
      level-P (resolve_iterative lib cfg w blank n) Ended Ended-Closed name qtype qclass depth s
        (λ fits name' qtype' qclass' s'.
          resolve_iterative-Ended n name' qtype' qclass' (depth + 1) s' (omega arith) (omega arith))
