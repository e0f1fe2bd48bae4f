-- ===== src/Server/Start.antt =====
-- internal/server/server.go: how `New` puts the components together from the configuration, what it
-- takes from the database, the restored cache and the warm-up. The engine of the database is
-- asked four times; `fault` says which of the statements fail.
use dns_server_mandiri.Cache.{init as new_cache}
use dns_server_mandiri.Clientstats.{Tracker, init as new_tracker}
use dns_server_mandiri.Config.{Config, RateConfig, ClientStatsConfig}
use dns_server_mandiri.Dashboard.Lists.{new_sources}
use dns_server_mandiri.Database.Sources.{get_enabled_blocklist_urls}
use dns_server_mandiri.Database.{Db, get_setting, get_whitelist_domains, get_blacklist_domains}
use dns_server_mandiri.Dns.{Msg, DnsLib, type_a, type_aaaa, class_inet}
use dns_server_mandiri.Failover.{init as new_failover}
use dns_server_mandiri.Filter.Control.{init as new_filter, reload_if_needed}
use dns_server_mandiri.Filter.{Filter, set_enabled, add_to_whitelist, add_to_blacklist}
use dns_server_mandiri.Localrecords.{NetLib, init as new_local_records}
use dns_server_mandiri.Metrics.{init as new_metrics}
use dns_server_mandiri.Persistence.{Gob, Faults, Disk, load}
use dns_server_mandiri.Prelude.Text.{Text, text, is_empty, ◌==◌ as text_eq}
use dns_server_mandiri.Prelude.{
  ℕ, Bool, ◌&&◌, ◌||◌, Option, none, some, List, [], ◌∷◌, if◌then◌else◌,
}
use dns_server_mandiri.Ratelimit.{Limiter, init as new_limiter}
use dns_server_mandiri.Resolver.Steps.{resolve}
use dns_server_mandiri.Resolver.{ResolverConfig, World, Run}
use dns_server_mandiri.Server.{Server}

-- The filter, and whether a load of the blocklists was started.
abbrev pub Loading : Type 0
Loading = Filter × Bool

unfoldable pub apply_switch : Option Text → Loading → Loading
apply_switch none (f, l) = (f, l)
apply_switch (some value) (f, l) =
    if is_empty value
    then (f, l)
    else let (f', load, _) = set_enabled (text_eq value (text "true")) f in (f', l || load)

unfoldable pub add_each : (Text → Filter → Filter) → List Text → Filter → Filter
add_each add [] f = f
add_each add (d ∷ ds) f = add_each add ds (add d f)

unfoldable pub add_stored : (Text → Filter → Filter) → Option (List Text) → Filter → Filter
add_stored add none f = f
add_stored add (some ds) f = add_each add ds f

-- The part of `New` that takes the settings and the lists of the database.
unfoldable pub load_stored : DnsLib → (ℕ → Bool) → Db → Loading → Loading
load_stored lib fault db l₀ =
    let (f₁, l₁) = apply_switch (get_setting (fault 0) (text "filter_enabled") db) l₀ in
    let f₂ = add_stored (λ d f. add_to_whitelist lib d f) (get_whitelist_domains (fault 1) db) f₁ in
    let f₃ = add_stored (λ d f. add_to_blacklist lib d f) (get_blacklist_domains (fault 2) db) f₂ in
    let f₄ = new_sources (get_enabled_blocklist_urls (fault 3) db) f₃ in
    (f₄, l₁ || (f₄.enabled && reload_if_needed f₄))

unfoldable pub start_limiter : RateConfig → Option Limiter
start_limiter cfg =
    if cfg.enabled
    then some (new_limiter cfg.requests_per_sec cfg.burst_size cfg.cleanup_interval)
    else none

unfoldable pub start_tracker : ClientStatsConfig → Option Tracker
start_tracker cfg = if cfg.enabled then some (new_tracker cfg.max_clients) else none

abbrev pub with_stored : DnsLib → (ℕ → Bool) → Option Db → Loading → Loading
with_stored lib fault none l = l
with_stored lib fault (some db) l = load_stored lib fault db l

-- `New`: the server, and whether a load of the blocklists was started. Nothing for the database is
-- an error of `Open`.
unfoldable pub new_server :
    DnsLib
    → NetLib
    → (Text → Option (List Text))
    → (ℕ → Bool)
    → Option Db
    → ℕ
    → Config
    → Server × Bool
new_server lib net read_file fault db now cfg =
    let (f, load, _) = new_filter read_file cfg.filter in
    let (f', load') = with_stored lib fault db (f, load) in
    (
      record {
        limiter = start_limiter cfg.rate;
        metrics = new_metrics now;
        filter = f';
        failover = new_failover cfg.failover;
        local_records =
            new_local_records lib net cfg.local_records.enabled cfg.local_records.records;
        client_stats = start_tracker cfg.client_stats;
        run = record {
          cache =
              new_cache cfg.cache.max_size cfg.cache.min_ttl cfg.cache.max_ttl
                cfg.cache.negative_ttl cfg.cache.prefetch_ratio;
          step = 0;
        };
      },
      load',
    )

module _ (lib : DnsLib) (cfg : ResolverConfig) (w : World) (blank : Msg) where
  -- `warmupCache`
  unfoldable pub warmup_cache : List Text → Run → Run
  warmup_cache [] s = s
  warmup_cache (domain ∷ domains) s =
      let s₁ = (resolve lib cfg w blank domain type_a class_inet s).0 in
      warmup_cache domains (resolve lib cfg w blank domain type_aaaa class_inet s₁).0

-- `Start` restores the cache from the disk; the listeners and the dashboard run beside it.
unfoldable pub start : DnsLib → Gob → Faults → Disk → ℕ → Config → Server → Server
start lib gob faults disk now cfg s =
    if cfg.persistence.enabled
    then record s {
      run = record (s.run) { cache = (load lib gob cfg.persistence faults now disk s.run.cache).0 };
    }
    else s
