-- ===== src/Dashboard/Lists.antt =====
-- The handlers of the whitelist and the blacklist: those of the admin API, which store, and those
-- that only change the running filter; and the switch and the reload of the filter.
use dns_server_mandiri.Dashboard.{
  Site, Request, Response, Engine, empty, status, names, domains, enabled, fail, ok, is, or_old,
  with_db, switch_filter,
}
use dns_server_mandiri.Database.{
  Db, DomainEntry, get_whitelist, add_whitelist, remove_whitelist, remove_whitelist_by_domain,
  get_blacklist, add_blacklist, remove_blacklist, remove_blacklist_by_domain, set_setting,
}
use dns_server_mandiri.Database.Sources.{get_enabled_blocklist_urls}
use dns_server_mandiri.Dns.{DnsLib}
use dns_server_mandiri.Filter.Control.{
  set_sources, get_whitelist as live_whitelist, get_blacklist as live_blacklist,
}
use dns_server_mandiri.Filter.{
  Filter, add_to_whitelist, remove_from_whitelist, add_to_blacklist, remove_from_blacklist,
}
use dns_server_mandiri.Prelude.Text.{Text, text, is_empty}
use dns_server_mandiri.Prelude.{
  ℕ, ◌+◌, Bool, not, Option, none, some, List, [], ◌∷◌, ltb, if◌then◌else◌,
}

-- What the handlers of the two lists differ in.
pub record ListOps : Type 0 where
  pub rows : Bool → Db → Option (List DomainEntry)
  pub add : Engine → Text → Text → Db → Option Db
  pub remove : Bool → ℕ → Db → Option Db
  pub remove_by_domain : Bool → Text → Db → Option Db
  pub live : Filter → List Text
  pub add_live : DnsLib → Text → Filter → Filter
  pub remove_live : DnsLib → Text → Filter → Filter

abbrev pub whitelist_ops : ListOps
whitelist_ops = record {
  rows = get_whitelist;
  add = λ e domain note db. add_whitelist (e.fault 0) e.row domain note db;
  remove = remove_whitelist;
  remove_by_domain = remove_whitelist_by_domain;
  live = live_whitelist;
  add_live = λ lib domain f. add_to_whitelist lib domain f;
  remove_live = λ lib domain f. remove_from_whitelist lib domain f;
}

abbrev pub blacklist_ops : ListOps
blacklist_ops = record {
  rows = get_blacklist;
  add = λ e domain note db. add_blacklist (e.fault 0) e.row domain note db;
  remove = remove_blacklist;
  remove_by_domain = remove_blacklist_by_domain;
  live = live_blacklist;
  add_live = λ lib domain f. add_to_blacklist lib domain f;
  remove_live = λ lib domain f. remove_from_blacklist lib domain f;
}

abbrev pub on_filter : (Filter → Filter) → Option Filter → Option Filter
on_filter change none = none
on_filter change (some f) = some (change f)

-- The cases POST and DELETE of the admin API.
unfoldable pub post_domain : ListOps → Engine → Text → Text → Db → Site → Site × Response
post_domain ops e domain note db s = (
  record s {
    db = some (or_old db (ops.add e domain note db));
    filter = on_filter (ops.add_live e.lib domain) s.filter;
  },
  ok (status (text "added")),
)

unfoldable pub delete_stored : ListOps → Engine → ℕ → Text → Db → Db
delete_stored ops e id domain db =
    if ltb 0 id
    then or_old db (ops.remove (e.fault 0) id db)
    else if is_empty domain
    then db
    else or_old db (ops.remove_by_domain (e.fault 0) domain db)

unfoldable pub delete_domain : ListOps → Engine → ℕ → Text → Db → Site → Site × Response
delete_domain ops e id domain db s = (
  record s {
    db = some (delete_stored ops e id domain db);
    filter =
        if is_empty domain then s.filter else on_filter (ops.remove_live e.lib domain) s.filter;
  },
  ok (status (text "removed")),
)

unfoldable pub handle_admin_list : ListOps → Engine → Request → Site → Site × Response
handle_admin_list ops e r s = with_db r s (λ db.
    if is (text "GET") r
    then (elim (ops.rows (e.fault 0) db) [
      | none ↦ (s, fail 500)
      | some rows ↦ (s, ok (domains rows))
    ])
    else if is (text "POST") r
    then (elim (e.json.noted_domain r.body) [
      | none ↦ (s, fail 400)
      | some (domain, note) ↦
          if is_empty domain then (s, fail 400) else post_domain ops e domain note db s
    ])
    else if is (text "DELETE") r
    then (elim (e.json.removed_domain r.body) [
      | none ↦ (s, fail 400)
      | some (id, domain) ↦ delete_domain ops e id domain db s
    ])
    else (s, ok empty))

unfoldable pub handle_admin_whitelist : Engine → Request → Site → Site × Response
handle_admin_whitelist e r s = handle_admin_list whitelist_ops e r s

unfoldable pub handle_admin_blacklist : Engine → Request → Site → Site × Response
handle_admin_blacklist e r s = handle_admin_list blacklist_ops e r s

-- The handlers that only change the running filter.
unfoldable pub change_live :
    (Text → Filter → Filter) → Text → Option Text → Filter → Site → Site × Response
change_live change word none f s = (s, fail 400)
change_live change word (some domain) f s =
    if is_empty domain
    then (s, fail 400)
    else (record s { filter = some (change domain f) }, ok (status word))

unfoldable pub handle_filter_list : ListOps → Engine → Request → Site → Site × Response
handle_filter_list ops e r s = elim s.filter [
  | none ↦ (s, fail 400)
  | some f ↦
      if is (text "GET") r
      then (s, ok (names (ops.live f)))
      else if is (text "POST") r
      then change_live (ops.add_live e.lib) (text "added") (e.json.domain r.body) f s
      else if is (text "DELETE") r
      then change_live (ops.remove_live e.lib) (text "removed") (e.json.domain r.body) f s
      else (s, ok empty)
]

unfoldable pub handle_filter_whitelist : Engine → Request → Site → Site × Response
handle_filter_whitelist e r s = handle_filter_list whitelist_ops e r s

unfoldable pub handle_filter_blacklist : Engine → Request → Site → Site × Response
handle_filter_blacklist e r s = handle_filter_list blacklist_ops e r s

-- `handleFilterToggle` stores the setting too.
abbrev word_of : Bool → Text
word_of on = if on then text "true" else text "false"

unfoldable pub store_switch : Engine → Bool → Option Db → Option Db
store_switch e on none = none
store_switch e on (some db) =
    some (or_old db (set_setting (e.fault 0) (text "filter_enabled") (word_of on) db))

unfoldable pub handle_filter_toggle : Engine → Request → Site → Site × Response
handle_filter_toggle e r s = elim s.filter [
  | none ↦ (s, fail 400)
  | some f ↦ if not (is (text "POST") r) then (s, fail 405) else elim (e.json.enabled r.body) [
    | none ↦ (s, fail 400)
    | some on ↦ (record (switch_filter on f s) { db = store_switch e on s.db }, ok (enabled on))
  ]
]

-- The sources of the database go to the filter before a reload, unless there are none.
abbrev pub new_sources : Option (List Text) → Filter → Filter
new_sources none f = f
new_sources (some []) f = f
new_sources (some (url ∷ urls)) f = set_sources (url ∷ urls) f

abbrev sync_sources : Engine → Option Db → Filter → Filter
sync_sources e none f = f
sync_sources e (some db) f = new_sources (get_enabled_blocklist_urls (e.fault 0) db) f

unfoldable pub reload : Engine → Filter → Site → Site
reload e f s = record s { filter = some (sync_sources e s.db f); loads = s.loads + 1 }

unfoldable pub handle_filter_reload : Engine → Request → Site → Site × Response
handle_filter_reload e r s = elim s.filter [
  | none ↦ (s, fail 400)
  | some f ↦
      if is (text "POST") r then (reload e f s, ok (status (text "reloading"))) else (s, fail 400)
]

unfoldable pub handle_admin_blocklist_reload : Engine → Request → Site → Site × Response
handle_admin_blocklist_reload e r s =
    if not (is (text "POST") r) then (s, fail 405) else elim s.filter [
      | none ↦ (s, ok (status (text "reloading")))
      | some f ↦ (reload e f s, ok (status (text "reloading")))
    ]
