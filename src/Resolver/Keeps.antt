-- ===== src/Resolver/Keeps.antt =====
-- A resolution keeps the cache well formed, whatever the network answers.
use dns_server_mandiri.Cache.Evict.{IsValid}
use dns_server_mandiri.Cache.Size.{set-IsValid, get-IsValid}
use dns_server_mandiri.Dns.{
  Msg, DnsLib, rcode_server_failure, rcode_name_error, type_a, type_cname, class_inet,
}
use dns_server_mandiri.Prelude.Text.{Text, text, is_empty}
use dns_server_mandiri.Prelude.{
  ℕ, zero, suc, ◌+◌, Bool, not, ◌&&◌, ◌||◌, Option, some, List, [], ◌∷◌, ltb, ◌==◌, ◌⊎◌, by_if,
  by_option, by_sum,
}
use dns_server_mandiri.Resolver.Steps.{
  tick, is_nil, exchange, retry_loop, servers_loop, query_nameservers, cache_get, cache_set,
  resolve_host, hosts_loop, finish_chain, follow_cname, extract_referral, use_response, iterate,
  resolve_level, resolve_iterative, store, resolve, prefetch, fuel,
}
use dns_server_mandiri.Resolver.{
  ResolverConfig, World, Run, Error, Outcome, reply, failed, out_of_fuel, root_servers, ns_names,
  glue_ips, glue_map, addresses_of, extract_cname,
}

abbrev IsSane : Run → Type 0
IsSane s = IsValid s.cache

retry-IsSane :
    (w : World) (msg : Msg) (addr : Text) (left : ℕ) (s : Run)
    → IsSane s
    → IsSane (retry_loop w msg addr left s).0
unfolding retry_loop
retry-IsSane w msg addr zero s v = v
retry-IsSane w msg addr (suc left) s v =
    let Q : Run × Option Msg → Type 0 = λ r. IsSane r.0 in
    by_option Q (exchange w msg addr s) _ _ (λ _. retry-IsSane w msg addr left (tick s) v)
      (λ m _. by_if Q (m.rcode == rcode_server_failure) _ _ (λ _. v) (λ _. v))

module _ (lib : DnsLib) (cfg : ResolverConfig) (w : World) (blank : Msg) where
  servers-IsSane :
      (msg : Msg) (hosts : List Text) (s : Run)
      → IsSane s
      → IsSane (servers_loop lib cfg w blank msg hosts s).0
  unfolding servers_loop
  servers-IsSane msg [] s v = v
  servers-IsSane msg (host ∷ hosts) s v =
      let Q : Run × (Error ⊎ Msg) → Type 0 = λ r. IsSane r.0 in
      let addr = w.join_host_port host (text "53") in
      let tried = retry_loop w msg addr (suc cfg.retries) s in
      let v' = retry-IsSane w msg addr (suc cfg.retries) s v in
      by_if Q (w.done s.step) _ _ (λ _. v)
        (λ _. by_option Q tried.1 _ _ (λ _. servers-IsSane msg hosts tried.0 v') (λ _ _. v'))

  get-IsSane :
      (name : Text) (qtype qclass : ℕ) (s : Run)
      → IsSane s
      → IsSane (cache_get lib cfg w blank name qtype qclass s).0
  unfolding cache_get
  get-IsSane name qtype qclass s v = get-IsValid lib name qtype qclass _ _ _ s.cache v

  set-IsSane :
      (name : Text) (qtype qclass : ℕ) (m : Msg) (s : Run)
      → IsSane s
      → IsSane (cache_set lib cfg w blank name qtype qclass m s)
  unfolding cache_set
  set-IsSane name qtype qclass m s v = set-IsValid lib name qtype qclass (some m) _ _ _ s.cache v

  module _ (again : Text → ℕ → ℕ → ℕ → Run → Run × Outcome)
      (keeps : (name : Text) (qtype qclass depth : ℕ) (s : Run)
        → IsSane s
        → IsSane (again name qtype qclass depth s).0) where
    host-IsSane :
        (host : Text) (depth : ℕ) (s : Run)
        → IsSane s
        → IsSane (resolve_host lib cfg w blank again host depth s).0
    unfolding resolve_host
    host-IsSane host depth s v =
        go (again host type_a class_inet (depth + 1) s)
          (keeps host type_a class_inet (depth + 1) s v)
      where
        go :
            (r : Run × Outcome)
            → IsSane r.0
            → IsSane
                (elim r.1 as (λ _. Run × List Text) [
                  | reply resp ↦ (
                    cache_set lib cfg w blank host type_a class_inet resp r.0,
                    addresses_of w.print resp.answer,
                  )
                  | failed _ ↦ (r.0, [])
                  | out_of_fuel ↦ (r.0, [])
                ]).0
        go (s₁, reply resp) h = set-IsSane host type_a class_inet resp s₁ h
        go (s₁, failed _) h = h
        go (s₁, out_of_fuel) h = h

    hosts-IsSane :
        (hosts : List Text) (depth : ℕ) (s : Run)
        → IsSane s
        → IsSane (hosts_loop lib cfg w blank again hosts depth s).0
    unfolding hosts_loop
    hosts-IsSane [] depth s v = v
    hosts-IsSane (host ∷ hosts) depth s v =
        let Q : Run × List Text → Type 0 = λ r. IsSane r.0 in
        let got = cache_get lib cfg w blank host type_a class_inet s in
        let v₁ = get-IsSane host type_a class_inet s v in
        hosts-IsSane hosts depth _ (
          by_option Q got.1 _ _
            (λ _.
              by_if Q (ltb (depth + 5) cfg.max_depth) _ _ (λ _. host-IsSane host depth got.0 v₁)
                (λ _. v₁))
            (λ _ _. v₁))

    referral-IsSane :
        (resp : Msg) (depth : ℕ) (s : Run)
        → IsSane s
        → IsSane (extract_referral lib cfg w blank again resp depth s).0
    unfolding extract_referral
    referral-IsSane resp depth s v =
        by_if (λ (r : Run × List Text). IsSane r.0)
          (is_nil
            (glue_ips lib blank (glue_map lib blank w.print resp.extra []) (ns_names resp.ns)))
          _ _ (λ _. hosts-IsSane (ns_names resp.ns) depth s v) (λ _. v)

    finish-IsSane :
        (name : Text) (qtype : ℕ) (resp : Msg) (r : Run × Outcome)
        → IsSane r.0
        → IsSane (finish_chain lib cfg w blank again name qtype resp r).0
    unfolding finish_chain
    finish-IsSane name qtype resp (s, reply target) h = h
    finish-IsSane name qtype resp (s, failed e) h = h
    finish-IsSane name qtype resp (s, out_of_fuel) h = h

    follow-IsSane :
        (name target : Text) (qtype qclass : ℕ) (resp : Msg) (depth : ℕ) (s : Run)
        → IsSane s
        → IsSane (follow_cname lib cfg w blank again name target qtype qclass resp depth s).0
    unfolding follow_cname
    follow-IsSane name target qtype qclass resp depth s v =
        by_if (λ (r : Run × Outcome). IsSane r.0) (ltb cfg.max_cname_chain depth) _ _ (λ _. v)
          (λ _.
            finish-IsSane name qtype resp (again target qtype qclass (depth + 1) s)
              (keeps target qtype qclass (depth + 1) s v))

    use-IsSane :
        (name : Text) (qtype qclass depth : ℕ) (resp : Msg) (s : Run)
        → IsSane s
        → IsSane (use_response lib cfg w blank again name qtype qclass depth resp s).0
    unfolding use_response
    use-IsSane name qtype qclass depth resp s v =
        let Q : Run × (Outcome ⊎ List Text) → Type 0 = λ r. IsSane r.0 in
        let target = extract_cname lib blank resp.answer name in
        by_if Q (resp.authoritative || resp.rcode == rcode_name_error) _ _ (λ _. v)
          (λ _.
            by_if Q (not (is_nil resp.answer)) _ _
              (λ _.
                by_if Q (not (qtype == type_cname) && not (is_empty target)) _ _
                  (λ _. follow-IsSane name target qtype qclass resp depth s v) (λ _. v))
              (λ _.
                by_if Q (not (is_nil resp.ns)) _ _ (λ _. referral-IsSane resp depth s v) (λ _. v)))

    iterate-IsSane :
        (name : Text) (qtype qclass depth left : ℕ) (servers : List Text) (s : Run)
        → IsSane s
        → IsSane (iterate lib cfg w blank again name qtype qclass depth left servers s).0
    unfolding iterate query_nameservers
    iterate-IsSane name qtype qclass depth zero servers s v = v
    iterate-IsSane name qtype qclass depth (suc left) servers s v =
        let Q : Run × Outcome → Type 0 = λ r. IsSane r.0 in
        let (s₁, got) = query_nameservers lib cfg w blank name qtype servers s in
        let v₁ : IsSane s₁ = servers-IsSane _ (w.shuffle s.step servers) s v in
        by_sum Q got _ _ (λ _ _. by_if Q (w.done s.step) _ _ (λ _. v) (λ _. v₁))
          (λ resp _.
            let used = use_response lib cfg w blank again name qtype qclass depth resp s₁ in
            let v₂ = use-IsSane name qtype qclass depth resp s₁ v₁ in
            by_if Q (w.done s.step) _ _ (λ _. v)
              (λ _.
                by_sum Q used.1 _ _ (λ _ _. v₂)
                  (λ ips _. iterate-IsSane name qtype qclass depth left ips used.0 v₂)))

    level-IsSane :
        (name : Text) (qtype qclass depth : ℕ) (s : Run)
        → IsSane s
        → IsSane (resolve_level lib cfg w blank again name qtype qclass depth s).0
    unfolding resolve_level
    level-IsSane name qtype qclass depth s v =
        let Q : Run × Outcome → Type 0 = λ r. IsSane r.0 in
        by_if Q (ltb cfg.max_depth depth) _ _ (λ _. v)
          (λ _.
            by_if Q (w.done s.step) _ _ (λ _. v)
              (λ _. iterate-IsSane name qtype qclass depth cfg.max_depth root_servers s v))

  iterative-IsSane :
      (n : ℕ) (name : Text) (qtype qclass depth : ℕ) (s : Run)
      → IsSane s
      → IsSane (resolve_iterative lib cfg w blank n name qtype qclass depth s).0
  unfolding resolve_iterative
  iterative-IsSane zero name qtype qclass depth s v = v
  iterative-IsSane (suc n) name qtype qclass depth s v =
      level-IsSane (resolve_iterative lib cfg w blank n)
        (λ name' qtype' qclass' depth' s' v'. iterative-IsSane n name' qtype' qclass' depth' s' v')
        name qtype qclass depth s v

  store-IsSane :
      (name : Text) (qtype qclass : ℕ) (r : Run × Outcome)
      → IsSane r.0
      → IsSane (store lib cfg w blank name qtype qclass r).0
  unfolding store
  store-IsSane name qtype qclass (s, reply m) v = set-IsSane name qtype qclass m s v
  store-IsSane name qtype qclass (s, failed e) v = v
  store-IsSane name qtype qclass (s, out_of_fuel) v = v

  -- A call of the resolver keeps the invariant of the cache.
  pub resolve-IsValid :
      (name : Text) (qtype qclass : ℕ) (s : Run)
      → IsValid s.cache
      → IsValid (resolve lib cfg w blank name qtype qclass s).0.cache
  unfolding resolve
  resolve-IsValid name qtype qclass s v =
      let (s₁, cached) = cache_get lib cfg w blank (lib.fqdn name) qtype qclass s in
      let v₁ = get-IsSane (lib.fqdn name) qtype qclass s v in
      by_option (λ (r : Run × Outcome × Bool). IsSane r.0) cached _ _
        (λ _.
          store-IsSane (lib.fqdn name) qtype qclass _
            (iterative-IsSane (fuel lib cfg w blank) (lib.fqdn name) qtype qclass 0 s₁ v₁))
        (λ _ _. v₁)

  -- A prefetch keeps the invariant of the cache.
  pub prefetch-IsValid :
      (name : Text) (qtype qclass : ℕ) (s : Run)
      → IsValid s.cache
      → IsValid (prefetch lib cfg w blank name qtype qclass s).cache
  unfolding prefetch
  prefetch-IsValid name qtype qclass s v =
      store-IsSane name qtype qclass _
        (iterative-IsSane (fuel lib cfg w blank) name qtype qclass 0 s v)
