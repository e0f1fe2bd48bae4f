-- ===== src/Database.antt =====
-- internal/database/database.go: the tables that the dashboard keeps. A table is the list of its
-- rows in the order of their ids, which AUTOINCREMENT lets grow; a statement of SQL is modelled by
-- its effect on the rows. The engine's part is an argument: the id and the time of a new row,
-- whether a statement fails (`fault`), and the sorting of `ORDER BY name` and `ORDER BY priority`.
-- Nothing stands for an error.
pub mod Sources
pub mod Settings
use dns_server_mandiri.Prelude.Dict.{Dict, lookup, insert}
use dns_server_mandiri.Prelude.Rows.{where_rows, delete_where, update_where, any_row, reverse_onto}
use dns_server_mandiri.Prelude.Text.{Text, text, ◌==◌ as text_eq}
use dns_server_mandiri.Prelude.{
  ℕ, Bool, true, false, ◌&&◌, Option, none, some, List, [], ◌∷◌, ◌++◌, map, ◌==◌, if◌then◌else◌,
}

pub record BlocklistSource : Type 0 where
  pub id : ℕ
  pub name : Text
  pub url : Text
  pub enabled : Bool
  pub domain_count : ℕ
  pub last_updated : Option ℕ
  pub created_at : ℕ

pub record DomainEntry : Type 0 where
  pub id : ℕ
  pub domain : Text
  pub note : Text
  pub created_at : ℕ

pub record LocalRecord : Type 0 where
  pub id : ℕ
  pub name : Text
  pub rtype : Text
  pub value : Text
  pub ttl : ℕ
  pub enabled : Bool
  pub note : Text
  pub created_at : ℕ

pub record FailoverUpstream : Type 0 where
  pub id : ℕ
  pub address : Text
  pub enabled : Bool
  pub priority : ℕ

pub record Db : Type 0 where
  pub settings : Dict Text
  pub sources : List BlocklistSource
  pub whitelist : List DomainEntry
  pub blacklist : List DomainEntry
  pub local_records : List LocalRecord
  pub upstreams : List FailoverUpstream

-- What the engine gives a new row, and the id of the last row that was inserted.
pub record NewRow : Type 0 where
  pub id : ℕ
  pub now : ℕ
  pub last : ℕ

abbrev pub unless {ℓ} : {A : Type ℓ} → Bool → A → Option A
unless fault x = if fault then none else some x

-- `GetSetting`; a missing row is an error.
unfoldable pub get_setting : Bool → Text → Db → Option Text
get_setting fault key db = if fault then none else lookup key db.settings

unfoldable pub set_setting : Bool → Text → Text → Db → Option Db
set_setting fault key value db =
    unless fault (record db { settings = insert key value db.settings })

unfoldable pub get_all_settings : Bool → Db → Option (Dict Text)
get_all_settings fault db = unless fault db.settings

-- Whitelist and blacklist: `INSERT OR IGNORE` into a table whose schema makes the domain unique.
unfoldable pub add_domain : NewRow → Text → Text → List DomainEntry → List DomainEntry
add_domain row domain note rows =
    if any_row (λ (e : DomainEntry). text_eq e.domain domain) rows
    then rows
    else rows ++ (record { id = row.id; domain = domain; note = note; created_at = row.now } ∷ [])

abbrev pub without_id : ℕ → List DomainEntry → List DomainEntry
without_id id rows = delete_where (λ (e : DomainEntry). e.id == id) rows

abbrev pub without_domain : Text → List DomainEntry → List DomainEntry
without_domain domain rows = delete_where (λ (e : DomainEntry). text_eq e.domain domain) rows

-- `getDomainList` orders by descending id.
unfoldable pub get_domain_list : Bool → List DomainEntry → Option (List DomainEntry)
get_domain_list fault rows = unless fault (reverse_onto rows [])

unfoldable pub get_domains : Bool → List DomainEntry → Option (List Text)
get_domains fault rows = unless fault (map (λ (e : DomainEntry). e.domain) rows)

unfoldable pub get_whitelist : Bool → Db → Option (List DomainEntry)
get_whitelist fault db = get_domain_list fault db.whitelist

unfoldable pub get_blacklist : Bool → Db → Option (List DomainEntry)
get_blacklist fault db = get_domain_list fault db.blacklist

unfoldable pub get_whitelist_domains : Bool → Db → Option (List Text)
get_whitelist_domains fault db = get_domains fault db.whitelist

unfoldable pub get_blacklist_domains : Bool → Db → Option (List Text)
get_blacklist_domains fault db = get_domains fault db.blacklist

unfoldable pub add_whitelist : Bool → NewRow → Text → Text → Db → Option Db
add_whitelist fault row domain note db =
    unless fault (record db { whitelist = add_domain row domain note db.whitelist })

unfoldable pub remove_whitelist : Bool → ℕ → Db → Option Db
remove_whitelist fault id db = unless fault (record db { whitelist = without_id id db.whitelist })

unfoldable pub remove_whitelist_by_domain : Bool → Text → Db → Option Db
remove_whitelist_by_domain fault domain db =
    unless fault (record db { whitelist = without_domain domain db.whitelist })

unfoldable pub add_blacklist : Bool → NewRow → Text → Text → Db → Option Db
add_blacklist fault row domain note db =
    unless fault (record db { blacklist = add_domain row domain note db.blacklist })

unfoldable pub remove_blacklist : Bool → ℕ → Db → Option Db
remove_blacklist fault id db = unless fault (record db { blacklist = without_id id db.blacklist })

unfoldable pub remove_blacklist_by_domain : Bool → Text → Db → Option Db
remove_blacklist_by_domain fault domain db =
    unless fault (record db { blacklist = without_domain domain db.blacklist })
