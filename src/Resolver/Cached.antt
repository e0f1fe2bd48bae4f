-- ===== src/Resolver/Cached.antt =====
-- The resolver and its cache.
use dns_server_mandiri.Cache.Branches.{fresh}
use dns_server_mandiri.Cache.Reads.{get-set}
use dns_server_mandiri.Cache.{aged, seconds_left, set_lifetime, should_prefetch}
use dns_server_mandiri.Dns.{Msg, DnsLib}
use dns_server_mandiri.Prelude.Text.{Text}
use dns_server_mandiri.Prelude.{
  ℕ, ◌+◌, ◌≤◌, ◌≡◌, Bool, true, false, Option, none, some, ltb, if◌then◌else◌, arith, refl, ap, ◌∙◌,
}
use dns_server_mandiri.Resolver.Steps.{
  cache_get, cache_set, resolve_iterative, store, resolve, fuel,
}
use dns_server_mandiri.Resolver.{ResolverConfig, World, Run, Outcome, reply}

module _ (lib : DnsLib) (cfg : ResolverConfig) (w : World) (blank : Msg) (name : Text)
    (qtype qclass : ℕ) where
  -- The run and the outcome of the resolution that follows a miss.
  abbrev pub fetched : Run → Run × Outcome
  fetched s =
      resolve_iterative lib cfg w blank (fuel lib cfg w blank) (lib.fqdn name) qtype qclass 0
        (cache_get lib cfg w blank (lib.fqdn name) qtype qclass s).0

  store-reply :
      (r : Run × Outcome) (m : Msg)
      → r.1 ≡ reply m
      → store lib cfg w blank (lib.fqdn name) qtype qclass r
        ≡ (cache_set lib cfg w blank (lib.fqdn name) qtype qclass m r.0, reply m)
  unfolding store
  store-reply (s, o) m h = ap (λ q. store lib cfg w blank (lib.fqdn name) qtype qclass (s, q)) h

  resolve_miss :
      (s : Run) (m : Msg)
      → (cache_get lib cfg w blank (lib.fqdn name) qtype qclass s).1 ≡ none
      → (fetched s).1 ≡ reply m
      → resolve lib cfg w blank name qtype qclass s
        ≡ (cache_set lib cfg w blank (lib.fqdn name) qtype qclass m (fetched s).0, reply m, false)
  unfolding resolve store
  resolve_miss s m miss got =
      rw (miss, resolve)
        (ap (λ (q : Run × Outcome). (q.0, q.1, false)) (store-reply (fetched s) m got))

  resolve_hit :
      (s : Run) (m : Msg) (b : Bool)
      → (cache_get lib cfg w blank (lib.fqdn name) qtype qclass s).1 ≡ some (m, b)
      → resolve lib cfg w blank name qtype qclass s
        ≡ ((cache_get lib cfg w blank (lib.fqdn name) qtype qclass s).0, reply m, true)
  unfolding resolve
  resolve_hit s m b hit = rw (hit, resolve) refl

  -- A question that was resolved is answered from the cache when it is asked again within the
  -- lifetime of the reply, without a resolution, by the same reply with the remaining TTL. The
  -- conditions are that the first time was a miss and that it ended with a reply.
  pub resolve-resolve :
      (s : Run) (m : Msg)
      → (cache_get lib cfg w blank (lib.fqdn name) qtype qclass s).1 ≡ none
      → (fetched s).1 ≡ reply m
      → w.clock ((fetched s).0.step + 1)
        ≤ w.clock (fetched s).0.step + set_lifetime (fetched s).0.cache m
      → ((resolve lib cfg w blank name qtype qclass
            (resolve lib cfg w blank name qtype qclass s).0).1
          ≡ reply (
              aged
                (seconds_left (w.clock ((fetched s).0.step + 1)) (
                  fresh
                    (fetched s).0.cache
                    m
                    (w.clock (fetched s).0.step)
                    (w.clock (fetched s).0.step)))
                m))
        × ((resolve lib cfg w blank name qtype qclass
              (resolve lib cfg w blank name qtype qclass s).0).2
            ≡ true)
  unfolding cache_get cache_set
  resolve-resolve s m miss got early =
      let (s₁, _) = fetched s in
      let u = w.clock s₁.step in
      let t = w.clock (s₁.step + 1) in
      let s₂ = cache_set lib cfg w blank (lib.fqdn name) qtype qclass m s₁ in
      let stored = get-set lib (lib.fqdn name) qtype qclass t t t s₁.cache m (λ k. u) u u in
      let live : ltb (u + set_lifetime s₁.cache m) t ≡ false = ground arith in
      let entry = fresh s₁.cache m u u in
      let hit : Option (Msg × Bool) =
        some (aged (seconds_left t entry) m, should_prefetch t s₁.cache.prefetch_ratio entry) in
      let again =
        resolve_hit s₂ (aged (seconds_left t entry) m)
          (should_prefetch t s₁.cache.prefetch_ratio entry)
          (stored ∙ ap (λ b. if b then none else hit) live) in
      rw (resolve_miss s m miss got) (ap (λ r. r.1) again, ap (λ r. r.2) again)
