-- ===== src/Resolver/Steps.antt =====
-- internal/resolver/resolver.go: the methods of the resolver, as steps on the run.
use dns_server_mandiri.Cache.Export.{prefetch_candidates}
use dns_server_mandiri.Cache.{get, set}
use dns_server_mandiri.Dns.{
  Msg, Question, DnsLib, type_a, type_cname, class_inet, rcode_name_error, rcode_server_failure,
}
use dns_server_mandiri.Prelude.{
  ℕ, zero, suc, ◌+◌, Bool, true, false, not, ◌&&◌, ◌||◌, Option, none, some, List, [], ◌∷◌, ◌++◌,
  ltb, ◌==◌, ◌⊎◌, inl, inr, if◌then◌else◌,
}
use dns_server_mandiri.Prelude.Text.{Text, text, is_empty}
use dns_server_mandiri.Resolver.{
  ResolverConfig, World, Run, Error, Outcome, depth_exceeded, cancelled, servers_failed,
  loop_exhausted, chain_too_long, reply, failed, out_of_fuel, root_servers, ns_names, addresses_of,
  new_root_query, build_response, extract_cname, chain_response, glue_map, glue_ips,
}

abbrev pub tick : Run → Run
tick s = record s { step = s.step + 1 }

abbrev pub is_nil {ℓ} : {A : Type ℓ} → List A → Bool
is_nil [] = true
is_nil (x ∷ xs) = false

-- One exchange of the loop over the retries: a response over UDP, or over TCP if it is truncated.
unfoldable pub exchange : World → Msg → Text → Run → Option Msg
exchange w msg addr s = elim (w.udp s.step addr msg) [
  | none ↦ none
  | some resp ↦ if resp.truncated then w.tcp s.step addr msg else some resp
]

unfoldable pub retry_loop : World → Msg → Text → ℕ → Run → Run × Option Msg
retry_loop w msg addr zero s = (s, none)
retry_loop w msg addr (suc left) s =
    let again = retry_loop w msg addr left (tick s) in
    elim (exchange w msg addr s) [
      | none ↦ again
      | some resp ↦
          if resp.rcode == rcode_server_failure then (tick s, none) else (tick s, some resp)
    ]

module _ (lib : DnsLib) (cfg : ResolverConfig) (w : World) (blank : Msg) where
  unfoldable pub servers_loop : Msg → List Text → Run → Run × (Error ⊎ Msg)
  servers_loop msg [] s = (s, inl servers_failed)
  servers_loop msg (host ∷ hosts) s =
      let (s', got) = retry_loop w msg (w.join_host_port host (text "53")) (suc cfg.retries) s in
      let next = servers_loop msg hosts s' in
      if w.done s.step
      then (s, inl cancelled)
      else elim got [ some resp ↦ (s', inr resp) | none ↦ next ]

  unfoldable pub query_nameservers : Text → ℕ → List Text → Run → Run × (Error ⊎ Msg)
  query_nameservers name qtype nameservers s =
      servers_loop (new_root_query lib blank name qtype) (w.shuffle s.step nameservers) s

  -- The cache at a step; its readings of the clock are those of the step.
  unfoldable pub cache_get : Text → ℕ → ℕ → Run → Run × Option (Msg × Bool)
  cache_get name qtype qclass s =
      let (c, got) =
        get lib name qtype qclass (w.clock s.step) (w.clock s.step) (w.clock s.step) s.cache in
      (record (tick s) { cache = c }, got)

  unfoldable pub cache_set : Text → ℕ → ℕ → Msg → Run → Run
  cache_set name qtype qclass m s = record (tick s) {
    cache =
        set lib name qtype qclass (some m) (λ k. w.clock s.step) (w.clock s.step) (w.clock s.step)
          s.cache;
  }

  -- `again` is `resolveIterative` for the deeper calls.
  module _ (again : Text → ℕ → ℕ → ℕ → Run → Run × Outcome) where
    -- The loop over the names of the servers, when there is no glue.
    unfoldable pub resolve_host : Text → ℕ → Run → Run × List Text
    resolve_host host depth s =
        let (s₁, got) = again host type_a class_inet (depth + 1) s in
        elim got [
          | reply resp ↦
              (cache_set host type_a class_inet resp s₁, addresses_of w.print resp.answer)
          | failed _ ↦ (s₁, [])
          | out_of_fuel ↦ (s₁, [])
        ]

    unfoldable pub hosts_loop : List Text → ℕ → Run → Run × List Text
    hosts_loop [] depth s = (s, [])
    hosts_loop (host ∷ hosts) depth s =
        let (s₁, cached) = cache_get host type_a class_inet s in
        let found : Run × List Text = elim cached [
          | some (m, _) ↦ (s₁, addresses_of w.print m.answer)
          | none ↦ if ltb (depth + 5) cfg.max_depth then resolve_host host depth s₁ else (s₁, [])
        ] in
        let (s₃, more) = hosts_loop hosts depth found.0 in (s₃, found.1 ++ more)

    unfoldable pub extract_referral : Msg → ℕ → Run → Run × List Text
    extract_referral resp depth s =
        let names = ns_names resp.ns in
        let glued = glue_ips lib blank (glue_map lib blank w.print resp.extra []) names in
        let resolved = hosts_loop names depth s in if is_nil glued then resolved else (s, glued)

    unfoldable pub finish_chain : Text → ℕ → Msg → Run × Outcome → Run × Outcome
    finish_chain name qtype resp (s, reply target) =
        (s, reply (chain_response lib blank name qtype resp target))
    finish_chain name qtype resp (s, failed e) = (s, failed e)
    finish_chain name qtype resp (s, out_of_fuel) = (s, out_of_fuel)

    unfoldable pub follow_cname : Text → Text → ℕ → ℕ → Msg → ℕ → Run → Run × Outcome
    follow_cname name target qtype qclass resp depth s =
        if ltb cfg.max_cname_chain depth
        then (s, failed chain_too_long)
        else finish_chain name qtype resp (again target qtype qclass (depth + 1) s)

    -- What the loop does with a response: it returns, or goes on with other servers.
    unfoldable pub use_response : Text → ℕ → ℕ → ℕ → Msg → Run → Run × (Outcome ⊎ List Text)
    use_response name qtype qclass depth resp s =
        let built = reply (build_response lib blank name qtype resp) in
        let target = extract_cname lib blank resp.answer name in
        let (s₁, o) = follow_cname name target qtype qclass resp depth s in
        let (s₂, servers) = extract_referral resp depth s in
        if resp.authoritative || resp.rcode == rcode_name_error
        then (s, inl built)
        else if not (is_nil resp.answer)
        then (if not (qtype == type_cname) && not (is_empty target)
            then (s₁, inl o)
            else (s, inl built))
        else if not (is_nil resp.ns)
        then (s₂, (if is_nil servers then inl built else inr servers))
        else (s, inl built)

    unfoldable pub iterate : Text → ℕ → ℕ → ℕ → ℕ → List Text → Run → Run × Outcome
    iterate name qtype qclass depth zero servers s = (s, failed loop_exhausted)
    iterate name qtype qclass depth (suc left) servers s =
        let (s₁, got) = query_nameservers name qtype servers s in
        elim got [
          | inl e ↦ if w.done s.step then (s, failed cancelled) else (s₁, failed e)
          | inr resp ↦
              let (s₂, next) = use_response name qtype qclass depth resp s₁ in
              let rest : List Text → Run × Outcome =
                λ ips. iterate name qtype qclass depth left ips s₂ in
              if w.done s.step
              then (s, failed cancelled)
              else elim next [ inl o ↦ (s₂, o) | inr ips ↦ rest ips ]
        ]

    unfoldable pub resolve_level : Text → ℕ → ℕ → ℕ → Run → Run × Outcome
    resolve_level name qtype qclass depth s =
        if ltb cfg.max_depth depth
        then (s, failed depth_exceeded)
        else if w.done s.step
        then (s, failed cancelled)
        else iterate name qtype qclass depth cfg.max_depth root_servers s

  -- `resolveIterative`, on fuel for the depth of its calls of itself.
  unfoldable pub resolve_iterative : ℕ → Text → ℕ → ℕ → ℕ → Run → Run × Outcome
  resolve_iterative zero name qtype qclass depth s = (s, out_of_fuel)
  resolve_iterative (suc fuel) name qtype qclass depth s =
      resolve_level (resolve_iterative fuel) name qtype qclass depth s

  -- The fuel of a call from outside.
  abbrev pub fuel : ℕ
  fuel = cfg.max_depth + 2

  unfoldable pub store : Text → ℕ → ℕ → Run × Outcome → Run × Outcome
  store name qtype qclass (s, reply m) = (cache_set name qtype qclass m s, reply m)
  store name qtype qclass (s, failed e) = (s, failed e)
  store name qtype qclass (s, out_of_fuel) = (s, out_of_fuel)

  -- `Resolve`: with the message, whether it came from the cache.
  unfoldable pub resolve : Text → ℕ → ℕ → Run → Run × Outcome × Bool
  resolve name qtype qclass s =
      let (s₁, cached) = cache_get (lib.fqdn name) qtype qclass s in
      elim cached [
        | some (m, _) ↦ (s₁, reply m, true)
        | none ↦
            let (s₂, o) =
              store (lib.fqdn name) qtype qclass
                (resolve_iterative fuel (lib.fqdn name) qtype qclass 0 s₁) in
            (s₂, o, false)
      ]

  unfoldable pub prefetch : Text → ℕ → ℕ → Run → Run
  prefetch name qtype qclass s =
      (store name qtype qclass (resolve_iterative fuel name qtype qclass 0 s)).0

  -- `PrefetchPopular`: each candidate of the cache is resolved anew, in the order in which the
  -- goroutines happen to run.
  unfoldable pub prefetch_all : List Question → Run → Run
  prefetch_all [] s = s
  prefetch_all (q ∷ qs) s = prefetch_all qs (prefetch q.name q.qtype q.qclass s)

  unfoldable pub prefetch_popular : (List Question → List Question) → ℕ → Run → Run
  prefetch_popular schedule now s = prefetch_all (schedule (prefetch_candidates now s.cache)) s
