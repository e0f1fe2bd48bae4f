-- ===== src/Server/Fresh.antt =====
-- A server that starts is well formed.
use dns_server_mandiri.Cache.Evict.{IsValid as CacheIsValid}
use dns_server_mandiri.Cache.Size.{init-IsValid}
use dns_server_mandiri.Clientstats.{init as new_tracker}
use dns_server_mandiri.Config.{Config, RateConfig, ClientStatsConfig}
use dns_server_mandiri.Dashboard.Lists.{new_sources}
use dns_server_mandiri.Database.Sources.{get_enabled_blocklist_urls}
use dns_server_mandiri.Database.{Db, get_setting, get_whitelist_domains, get_blacklist_domains}
use dns_server_mandiri.Dns.{Msg, Question, DnsLib, type_a, type_aaaa, class_inet}
use dns_server_mandiri.Filter.Control.{init as new_filter, fresh_filter, set_sources}
use dns_server_mandiri.Filter.Counts.{IsSmall}
use dns_server_mandiri.Filter.{
  Filter, set_enabled, start_auto_update, add_to_whitelist, add_to_blacklist,
}
use dns_server_mandiri.Localrecords.{NetLib}
use dns_server_mandiri.Metrics.Whole.{init-IsWhole}
use dns_server_mandiri.Persistence.Restored.{load-IsValid}
use dns_server_mandiri.Persistence.{Gob, Faults, Disk, load}
use dns_server_mandiri.Prelude.Dict.{lookup}
use dns_server_mandiri.Prelude.Text.{Text, text}
use dns_server_mandiri.Prelude.{
  ℕ, ◌<◌, Bool, Option, none, some, List, [], ◌∷◌, ◌≡◌, refl, sym, ◌∙◌, subst, arith, by_if,
}
use dns_server_mandiri.Ratelimit.{init as new_limiter}
use dns_server_mandiri.Resolver.Keeps.{resolve-IsValid, prefetch-IsValid}
use dns_server_mandiri.Resolver.Steps.{prefetch_all, prefetch_popular}
use dns_server_mandiri.Resolver.{ResolverConfig, World, Run}
use dns_server_mandiri.Server.Valid.{IsValid, LimiterFits, TrackerIsValid}
use dns_server_mandiri.Server.Start.{
  Loading, apply_switch, add_stored, load_stored, with_stored, start_limiter, start_tracker,
  new_server, warmup_cache, start,
}
use dns_server_mandiri.Server.Stored.{add_stored-keeps}
use dns_server_mandiri.Server.{Server}

start_limiter-Fits : (cfg : RateConfig) → LimiterFits (start_limiter cfg)
unfolding start_limiter new_limiter lookup
start_limiter-Fits cfg =
    by_if LimiterFits cfg.enabled
      (some (new_limiter cfg.requests_per_sec cfg.burst_size cfg.cleanup_interval)) none
      (λ _. λ k b e. absurd (ground arith)) (λ _. tt)

start_tracker-IsValid : (now : ℕ) (cfg : ClientStatsConfig) → TrackerIsValid now (start_tracker cfg)
unfolding start_tracker new_tracker lookup
start_tracker-IsValid now cfg =
    by_if (TrackerIsValid now) cfg.enabled (some (new_tracker cfg.max_clients)) none
      (λ _. record {
        distinct = tt;
        named = refl;
        bounded = omega arith;
        positive = ground arith;
        clients = λ k c e. absurd (ground arith);
      })
      (λ _. tt)

-- A start leaves the counts of blocked domains empty.
load_stored-counts :
    (lib : DnsLib) (fault : ℕ → Bool) (db : Db) (l : Loading)
    → (load_stored lib fault db l).0.blocked_counts ≡ l.0.blocked_counts
unfolding load_stored add_to_whitelist add_to_blacklist apply_switch set_enabled start_auto_update
    set_sources
load_stored-counts lib fault db l =
    let f₁ = (apply_switch (get_setting (fault 0) (text "filter_enabled") db) l).0 in
    let f₂ = add_stored (λ d f. add_to_whitelist lib d f) (get_whitelist_domains (fault 1) db) f₁ in
    let f₃ = add_stored (λ d f. add_to_blacklist lib d f) (get_blacklist_domains (fault 2) db) f₂ in
    sources (get_enabled_blocklist_urls (fault 3) db) f₃
    ∙ add_stored-keeps lib _ (λ f. f.blocked_counts) (λ d f. refl)
        (get_blacklist_domains (fault 2) db) f₂
    ∙ add_stored-keeps lib _ (λ f. f.blocked_counts) (λ d f. refl)
        (get_whitelist_domains (fault 1) db) f₁
    ∙ switched (get_setting (fault 0) (text "filter_enabled") db) l
  where
    sources :
        (o : Option (List Text)) (f : Filter) → (new_sources o f).blocked_counts ≡ f.blocked_counts
    sources none f = refl
    sources (some []) f = refl
    sources (some (u ∷ us)) f = refl

    switched :
        (o : Option Text) (l : Loading) → (apply_switch o l).0.blocked_counts ≡ l.0.blocked_counts
    switched none l = refl
    switched (some v) l = ground arith

module _ (lib : DnsLib) (net : NetLib) (read_file : Text → Option (List Text)) (fault : ℕ → Bool)
    (db : Option Db) (now : ℕ) (cfg : Config) where
  counts :
      (f : Filter × Bool) (o : Option Db)
      → f.0.blocked_counts ≡ []
      → (with_stored lib fault o f).0.blocked_counts ≡ []
  counts f none h = h
  counts f (some d) h = load_stored-counts lib fault d f ∙ h

  fresh : (new_filter read_file cfg.filter).0.blocked_counts ≡ []
  unfolding new_filter fresh_filter start_auto_update
  fresh = ground arith

  -- The server that `New` builds is well formed, whatever is in the database and in the files: all
  -- that it takes of the configuration is a cache with room.
  pub new_server-IsValid :
      0 < cfg.cache.max_size → IsValid now (new_server lib net read_file fault db now cfg).0
  unfolding new_server lookup
  new_server-IsValid room =
      let (f, load, _) = new_filter read_file cfg.filter in
      record {
        cache = init-IsValid _ _ _ _ _ room;
        metrics = init-IsWhole now;
        blocked =
            subst IsSmall (sym (counts (f, load) db fresh))
              (record { distinct = tt; named = refl; bounded = omega arith });
        buckets = start_limiter-Fits cfg.rate;
        clients = start_tracker-IsValid now cfg.client_stats;
      }

-- The cache changes, the rest stays.
recached :
    (now : ℕ) (s : Server) (x : Run)
    → IsValid now s
    → CacheIsValid x.cache
    → IsValid now (record s { run = x })
recached now s x v h = record {
  cache = h;
  metrics = v.metrics;
  blocked = v.blocked;
  buckets = v.buckets;
  clients = v.clients;
}

module _ (lib : DnsLib) (cfg : ResolverConfig) (w : World) (blank : Msg) where
  warmup_cache-IsValid :
      (domains : List Text) (s : Run)
      → CacheIsValid s.cache
      → CacheIsValid (warmup_cache lib cfg w blank domains s).cache
  unfolding warmup_cache
  warmup_cache-IsValid [] s v = v
  warmup_cache-IsValid (d ∷ ds) s v = warmup_cache-IsValid ds _ (
      resolve-IsValid lib cfg w blank d type_aaaa class_inet _
        (resolve-IsValid lib cfg w blank d type_a class_inet s v))

  prefetch_all-IsValid :
      (qs : List Question) (s : Run)
      → CacheIsValid s.cache
      → CacheIsValid (prefetch_all lib cfg w blank qs s).cache
  unfolding prefetch_all
  prefetch_all-IsValid [] s v = v
  prefetch_all-IsValid (q ∷ qs) s v =
      prefetch_all-IsValid qs _ (prefetch-IsValid lib cfg w blank q.name q.qtype q.qclass s v)

  -- What runs beside the handler keeps the server well formed: the restoring of the cache at the
  -- start, whatever is on the disk, the warm-up after it, and a turn of the prefetch loop, in
  -- whatever order its candidates are resolved.
  pub start-IsValid :
      (gob : Gob) (faults : Faults) (disk : Disk) (at now later : ℕ) (config : Config)
      (domains : List Text) (schedule : List Question → List Question) (s : Server)
      → IsValid at s
      → let s₁ = start lib gob faults disk now config s in
        let warm = warmup_cache lib cfg w blank domains s₁.run in
        IsValid at (record s₁ { run = prefetch_popular lib cfg w blank schedule later warm })
  unfolding start prefetch_popular
  start-IsValid gob faults disk at now later config domains schedule s v =
      let s₁ = start lib gob faults disk now config s in
      let v₁ : IsValid at s₁ =
        by_if (IsValid at) config.persistence.enabled _ s
          (λ _.
            recached at s _ v
              (load-IsValid lib gob config.persistence faults now disk s.run.cache v.cache))
          (λ _. v) in
      recached at s₁ _ v₁ (prefetch_all-IsValid _ _ (warmup_cache-IsValid domains s₁.run v₁.cache))
