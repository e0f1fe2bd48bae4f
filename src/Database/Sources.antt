-- ===== src/Database/Sources.antt =====
-- internal/database/database.go: blocklist sources, local records, upstream servers and the rows
-- that a new database starts with.
use dns_server_mandiri.Database.{BlocklistSource, LocalRecord, FailoverUpstream, Db, NewRow, unless}
use dns_server_mandiri.Prelude.Rows.{where_rows, delete_where, update_where, any_row}
use dns_server_mandiri.Prelude.Text.{Text, ◌==◌ as text_eq}
use dns_server_mandiri.Prelude.{
  ℕ, Bool, true, ◌&&◌, ◌||◌, Option, none, some, List, [], ◌∷◌, ◌++◌, map, ◌==◌, if◌then◌else◌,
}

unfoldable pub get_blocklist_sources : Bool → Db → Option (List BlocklistSource)
get_blocklist_sources fault db = unless fault db.sources

unfoldable pub get_enabled_blocklist_urls : Bool → Db → Option (List Text)
get_enabled_blocklist_urls fault db = unless fault (
    map (λ (s : BlocklistSource). s.url)
      (where_rows (λ (s : BlocklistSource). s.enabled) db.sources))

abbrev pub new_source : NewRow → Text → Text → BlocklistSource
new_source row name url = record {
  id = row.id;
  name = name;
  url = url;
  enabled = true;
  domain_count = 0;
  last_updated = none;
  created_at = row.now;
}

-- A second row with the same URL breaks the uniqueness constraint, an error.
unfoldable pub add_blocklist_source : Bool → NewRow → Text → Text → Db → Option (Db × ℕ)
add_blocklist_source fault row name url db =
    if fault || any_row (λ (s : BlocklistSource). text_eq s.url url) db.sources
    then none
    else some (record db { sources = db.sources ++ (new_source row name url ∷ []) }, row.id)

unfoldable pub remove_blocklist_source : Bool → ℕ → Db → Option Db
remove_blocklist_source fault id db =
    unless fault
      (record db { sources = delete_where (λ (s : BlocklistSource). s.id == id) db.sources })

unfoldable pub toggle_blocklist_source : Bool → ℕ → Bool → Db → Option Db
toggle_blocklist_source fault id enabled db = unless fault (record db {
  sources =
      update_where (λ (s : BlocklistSource). s.id == id) (λ s. record s { enabled = enabled })
        db.sources;
})

unfoldable pub update_blocklist_source_count : Bool → ℕ → ℕ → ℕ → Db → Option Db
update_blocklist_source_count fault now id count db = unless fault (record db {
  sources =
      update_where (λ (s : BlocklistSource). s.id == id)
        (λ s. record s { domain_count = count; last_updated = some now }) db.sources;
})

-- The order of `ORDER BY name` and `ORDER BY priority` is the engine's.
unfoldable pub get_local_records :
    (List LocalRecord → List LocalRecord) → Bool → Db → Option (List LocalRecord)
get_local_records by_name fault db = unless fault (by_name db.local_records)

unfoldable pub get_enabled_local_records : Bool → Db → Option (List LocalRecord)
get_enabled_local_records fault db =
    unless fault (where_rows (λ (r : LocalRecord). r.enabled) db.local_records)

abbrev pub same_record : Text → Text → Text → LocalRecord → Bool
same_record name rtype value r =
    text_eq r.name name && (text_eq r.rtype rtype && text_eq r.value value)

abbrev pub new_record : NewRow → Text → Text → Text → ℕ → Text → LocalRecord
new_record row name rtype value ttl note = record {
  id = row.id;
  name = name;
  rtype = rtype;
  value = value;
  ttl = ttl;
  enabled = true;
  note = note;
  created_at = row.now;
}

unfoldable pub add_local_record :
    Bool → NewRow → Text → Text → Text → ℕ → Text → Db → Option (Db × ℕ)
add_local_record fault row name rtype value ttl note db =
    if fault || any_row (same_record name rtype value) db.local_records
    then none
    else some (
      record db {
        local_records = db.local_records ++ (new_record row name rtype value ttl note ∷ []);
      },
      row.id,
    )

unfoldable pub remove_local_record : Bool → ℕ → Db → Option Db
remove_local_record fault id db =
    unless fault (record db {
      local_records = delete_where (λ (r : LocalRecord). r.id == id) db.local_records;
    })

unfoldable pub toggle_local_record : Bool → ℕ → Bool → Db → Option Db
toggle_local_record fault id enabled db = unless fault (record db {
  local_records =
      update_where (λ (r : LocalRecord). r.id == id) (λ r. record r { enabled = enabled })
        db.local_records;
})

unfoldable pub get_failover_upstreams :
    (List FailoverUpstream → List FailoverUpstream) → Bool → Db → Option (List FailoverUpstream)
get_failover_upstreams by_priority fault db = unless fault (by_priority db.upstreams)

unfoldable pub get_enabled_upstreams :
    (List FailoverUpstream → List FailoverUpstream) → Bool → Db → Option (List Text)
get_enabled_upstreams by_priority fault db = unless fault (
    map (λ (u : FailoverUpstream). u.address)
      (by_priority (where_rows (λ (u : FailoverUpstream). u.enabled) db.upstreams)))

-- `INSERT OR IGNORE` of an address that is there changes nothing and is no error.
unfoldable pub insert_upstream : NewRow → Text → ℕ → Db → Db × ℕ
insert_upstream row address priority db =
    if any_row (λ (u : FailoverUpstream). text_eq u.address address) db.upstreams
    then (db, row.last)
    else (
      record db {
        upstreams =
            db.upstreams
            ++ (record { id = row.id; address = address; enabled = true; priority = priority }
                ∷ []);
      },
      row.id,
    )

unfoldable pub add_failover_upstream : Bool → NewRow → Text → ℕ → Db → Option (Db × ℕ)
add_failover_upstream fault row address priority db =
    unless fault (insert_upstream row address priority db)

unfoldable pub remove_failover_upstream : Bool → ℕ → Db → Option Db
remove_failover_upstream fault id db =
    unless fault
      (record db { upstreams = delete_where (λ (u : FailoverUpstream). u.id == id) db.upstreams })

unfoldable pub toggle_failover_upstream : Bool → ℕ → Bool → Db → Option Db
toggle_failover_upstream fault id enabled db = unless fault (record db {
  upstreams =
      update_where (λ (u : FailoverUpstream). u.id == id) (λ u. record u { enabled = enabled })
        db.upstreams;
})
