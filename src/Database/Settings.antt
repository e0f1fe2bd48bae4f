-- ===== src/Database/Settings.antt =====
-- internal/database/database.go: the schema and the rows that a new database starts with.
use dns_server_mandiri.Database.Sources.{insert_upstream}
use dns_server_mandiri.Database.{Db, NewRow}
use dns_server_mandiri.Prelude.Dict.{Dict, lookup, insert}
use dns_server_mandiri.Prelude.Text.{Text, text}
use dns_server_mandiri.Prelude.{ℕ, ◌+◌, Bool, none, some, List, [], ◌∷◌, if◌then◌else◌}

-- The tables that `migrate` creates.
abbrev pub empty_db : Db
empty_db = record {
  settings = [];
  sources = [];
  whitelist = [];
  blacklist = [];
  local_records = [];
  upstreams = [];
}

abbrev pub default_settings : Dict Text
default_settings =
    (text "filter_enabled", text "true")
    ∷ (text "filter_block_response", text "zero")
    ∷ (text "failover_enabled", text "true")
    ∷ (text "cache_max_size", text "500000")
    ∷ (text "cache_min_ttl", text "30")
    ∷ (text "cache_max_ttl", text "86400")
    ∷ (text "cache_negative_ttl", text "300")
    ∷ (text "rate_limit_enabled", text "true")
    ∷ (text "rate_limit_per_sec", text "100")
    ∷ (text "rate_limit_burst", text "200")
    ∷ (text "ecs_enabled", text "true")
    ∷ (text "persistence_enabled", text "true")
    ∷ (text "query_log_enabled", text "false")
    ∷ (text "blocklist_update_interval", text "24")
    ∷ []

-- `INSERT OR IGNORE`, whose error is ignored too: `faults` says which statements fail.
abbrev pub insert_or_ignore : Text → Text → Dict Text → Dict Text
insert_or_ignore key value m = elim (lookup key m) [ some _ ↦ m | none ↦ insert key value m ]

unfoldable pub init_settings : (Text → Bool) → Dict Text → Dict Text → Dict Text
init_settings faults [] m = m
init_settings faults ((key, value) ∷ rest) m =
    init_settings faults rest (if faults key then m else insert_or_ignore key value m)

unfoldable pub default_upstreams : List Text
default_upstreams = text "8.8.8.8" ∷ text "1.1.1.1" ∷ text "9.9.9.9" ∷ []

unfoldable pub init_upstreams : (Text → Bool) → (ℕ → NewRow) → ℕ → List Text → Db → Db
init_upstreams faults rows i [] db = db
init_upstreams faults rows i (us ∷ rest) db =
    init_upstreams faults rows (i + 1) rest
      (if faults us then db else (insert_upstream (rows i) us i db).0)

unfoldable pub init_defaults : (Text → Bool) → (ℕ → NewRow) → Db → Db
init_defaults faults rows db =
    init_upstreams faults rows 0 default_upstreams
      (record db { settings = init_settings faults default_settings db.settings })
