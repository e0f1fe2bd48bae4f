-- ===== src/Config.antt =====
-- internal/config/config.go: the settings and their defaults. Durations are nanoseconds, the
-- prefetch ratio is in millionths. Timeouts belong to the network, which is a parameter.
use dns_server_mandiri.Failover.{Config as FailoverConfig}
use dns_server_mandiri.Filter.Control.{Config as FilterConfig}
use dns_server_mandiri.Dashboard.{AuthConfig}
use dns_server_mandiri.Localrecords.{Record}
use dns_server_mandiri.Persistence.{Config as PersistenceConfig}
use dns_server_mandiri.Prelude.Text.{Text, text}
use dns_server_mandiri.Prelude.{ℕ, ◌*◌, Bool, true, false, List, [], ◌∷◌, second}
use dns_server_mandiri.Resolver.{ResolverConfig}

pub record CacheConfig : Type 0 where
  pub max_size : ℕ
  pub default_ttl : ℕ
  pub min_ttl : ℕ
  pub max_ttl : ℕ
  pub negative_ttl : ℕ
  pub prefetch_ratio : ℕ
  pub cleanup_interval : ℕ

pub record RateConfig : Type 0 where
  pub enabled : Bool
  pub requests_per_sec : ℕ
  pub burst_size : ℕ
  pub cleanup_interval : ℕ

pub record ClientStatsConfig : Type 0 where
  pub enabled : Bool
  pub max_clients : ℕ

pub record LocalRecordsConfig : Type 0 where
  pub enabled : Bool
  pub records : List Record

pub record CacheWarmupConfig : Type 0 where
  pub enabled : Bool
  pub domains : List Text

pub record EcsConfig : Type 0 where
  pub enabled : Bool
  pub subnet_ipv4 : ℕ
  pub subnet_ipv6 : ℕ

pub record Config : Type 0 where
  pub cache : CacheConfig
  pub resolver : ResolverConfig
  pub rate : RateConfig
  pub filter : FilterConfig
  pub failover : FailoverConfig
  pub persistence : PersistenceConfig
  pub local_records : LocalRecordsConfig
  pub client_stats : ClientStatsConfig
  pub ecs : EcsConfig
  pub dashboard_auth : AuthConfig
  pub cache_warmup : CacheWarmupConfig

abbrev minute : ℕ
minute = 60 * second

unfoldable pub default_blocklist_urls : List Text
default_blocklist_urls =
    text "https://raw.githubusercontent.com/StevenBlack/hosts/master/hosts"
    ∷ text "https://adaway.org/hosts.txt"
    ∷ text "https://pgl.yoyo.org/adservers/serverlist.php?hostformat=hosts&showintro=0"
    ∷ text "https://raw.githubusercontent.com/hagezi/dns-blocklists/main/hosts/pro.txt"
    ∷ []

unfoldable pub default_filter_config : FilterConfig
default_filter_config = record {
  enabled = true;
  blocklist_dir = text "/var/lib/dns-server/blocklists";
  sources = default_blocklist_urls;
  whitelist_file = [];
  blacklist_file = [];
  update_interval = 24 * (60 * minute);
  block_response = text "zero";
}

unfoldable pub default_failover_config : FailoverConfig
default_failover_config = record {
  enabled = true;
  upstreams = text "8.8.8.8" ∷ text "1.1.1.1" ∷ text "9.9.9.9" ∷ [];
  max_retries = 2;
}

unfoldable pub default_persistence_config : PersistenceConfig
default_persistence_config = record {
  enabled = true;
  file_path = text "/var/lib/dns-server/cache.gob";
  save_interval = 5 * minute;
}

unfoldable pub default_local_records_config : LocalRecordsConfig
default_local_records_config = record { enabled = true; records = [] }

unfoldable pub default_ecs_config : EcsConfig
default_ecs_config = record { enabled = true; subnet_ipv4 = 24; subnet_ipv6 = 56 }

unfoldable pub warmup_domains : List Text
warmup_domains =
    text "google.com"
    ∷ text "www.google.com"
    ∷ text "youtube.com"
    ∷ text "www.youtube.com"
    ∷ text "facebook.com"
    ∷ text "www.facebook.com"
    ∷ text "instagram.com"
    ∷ text "www.instagram.com"
    ∷ text "tiktok.com"
    ∷ text "www.tiktok.com"
    ∷ text "whatsapp.com"
    ∷ text "web.whatsapp.com"
    ∷ text "twitter.com"
    ∷ text "x.com"
    ∷ text "github.com"
    ∷ text "cloudflare.com"
    ∷ text "tokopedia.com"
    ∷ text "shopee.co.id"
    ∷ text "bukalapak.com"
    ∷ text "gojek.com"
    ∷ text "grab.com"
    ∷ text "dana.id"
    ∷ text "ovo.id"
    ∷ text "bca.co.id"
    ∷ text "detik.com"
    ∷ text "kompas.com"
    ∷ text "tribunnews.com"
    ∷ text "liputan6.com"
    ∷ []

-- `DefaultConfig`
unfoldable pub default_config : Config
default_config = record {
  cache = record {
    max_size = 500_000;
    default_ttl = 5 * minute;
    min_ttl = 30 * second;
    max_ttl = 24 * (60 * minute);
    negative_ttl = 5 * minute;
    prefetch_ratio = 100_000;
    cleanup_interval = minute;
  };
  resolver = record { max_depth = 30; max_cname_chain = 10; retries = 3 };
  rate = record {
    enabled = true;
    requests_per_sec = 100;
    burst_size = 200;
    cleanup_interval = 5 * minute;
  };
  filter = default_filter_config;
  failover = default_failover_config;
  persistence = default_persistence_config;
  local_records = default_local_records_config;
  client_stats = record { enabled = true; max_clients = 10_000 };
  ecs = default_ecs_config;
  dashboard_auth = record { enabled = false; username = text "admin"; password = text "admin" };
  cache_warmup = record { enabled = true; domains = warmup_domains };
}
