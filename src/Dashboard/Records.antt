-- ===== src/Dashboard/Records.antt =====
-- The handlers of the admin API for blocklist sources, local records and upstream servers.
use dns_server_mandiri.Dashboard.{
  Site, Request, Response, Engine, empty, status, added, sources, stored_records, upstreams, fail,
  ok, is, or_old, with_db,
}
use dns_server_mandiri.Database.Sources.{
  get_blocklist_sources, add_blocklist_source, remove_blocklist_source, toggle_blocklist_source,
  get_local_records, add_local_record, remove_local_record, toggle_local_record,
  get_failover_upstreams, add_failover_upstream, remove_failover_upstream, toggle_failover_upstream,
}
use dns_server_mandiri.Database.{Db}
use dns_server_mandiri.Localrecords.{LocalRecords, Record, add_record, state_of}
use dns_server_mandiri.Prelude.Text.{Text, text, is_empty}
use dns_server_mandiri.Prelude.{ℕ, Bool, ◌||◌, ◌==◌, Option, none, some, if◌then◌else◌}

-- The answer to a POST that inserts a row: the new database and the id, or the code of the error.
unfoldable pub inserted : Option (Db × ℕ) → Site → Site × Response
inserted none s = (s, fail 400)
inserted (some (db, id)) s = (record s { db = some db }, ok (added id))

-- The handlers that take an id and a switch.
unfoldable pub handle_toggle :
    (ℕ → Bool → Db → Option Db) → Engine → Request → Site → Site × Response
handle_toggle toggle e r s = with_db r s (λ db. elim (e.json.toggle r.body) [
  | none ↦ (s, fail 400)
  | some (id, on) ↦ (record s { db = some (or_old db (toggle id on db)) }, ok (status (text "ok")))
])

-- A DELETE by id.
unfoldable pub delete_row : (ℕ → Db → Option Db) → Option ℕ → Db → Site → Site × Response
delete_row remove none db s = (s, fail 400)
delete_row remove (some id) db s =
    (record s { db = some (or_old db (remove id db)) }, ok (status (text "removed")))

unfoldable pub post_source : Engine → Text → Text → Db → Site → Site × Response
post_source e name url db s =
    if is_empty url
    then (s, fail 400)
    else inserted
        (add_blocklist_source (e.fault 0) e.row (if is_empty name then url else name) url db) s

unfoldable pub handle_admin_blocklist_sources : Engine → Request → Site → Site × Response
handle_admin_blocklist_sources e r s = with_db r s (λ db.
    if is (text "GET") r
    then (elim (get_blocklist_sources (e.fault 0) db) [
      | none ↦ (s, fail 500)
      | some rows ↦ (s, ok (sources rows))
    ])
    else if is (text "POST") r
    then (elim (e.json.source r.body) [
      | none ↦ (s, fail 400)
      | some (name, url) ↦ post_source e name url db s
    ])
    else if is (text "DELETE") r
    then delete_row (remove_blocklist_source (e.fault 0)) (e.json.id r.body) db s
    else (s, ok empty))

unfoldable pub handle_admin_blocklist_toggle : Engine → Request → Site → Site × Response
handle_admin_blocklist_toggle e r s = handle_toggle (toggle_blocklist_source (e.fault 0)) e r s

-- A local record is stored and added to the running records; the error of the latter is ignored.
unfoldable pub with_defaults : Record → Record
with_defaults r = record r {
  ttl = if r.ttl == 0 then 300 else r.ttl;
  rtype = if is_empty r.rtype then text "A" else r.rtype;
}

unfoldable pub add_running : Engine → Record → Option LocalRecords → Option LocalRecords
add_running e r none = none
add_running e r (some lr) = some (state_of e.lib e.net lr (add_record e.lib e.net r lr))

unfoldable pub store_record : Engine → Record → Text → Db → Site → Site × Response
store_record e r note db s =
    elim (add_local_record (e.fault 0) e.row r.name r.rtype r.value r.ttl note db) [
      | none ↦ (s, fail 400)
      | some (db', id) ↦ (
        record s { db = some db'; local_records = add_running e r s.local_records },
        ok (added id),
      )
    ]

unfoldable pub post_record : Engine → Record → Text → Db → Site → Site × Response
post_record e r note db s =
    if is_empty r.name || is_empty r.value
    then (s, fail 400)
    else store_record e (with_defaults r) note db s

unfoldable pub handle_admin_local_records : Engine → Request → Site → Site × Response
handle_admin_local_records e r s = with_db r s (λ db.
    if is (text "GET") r
    then (elim (get_local_records e.by_name (e.fault 0) db) [
      | none ↦ (s, fail 500)
      | some rows ↦ (s, ok (stored_records rows))
    ])
    else if is (text "POST") r
    then (elim (e.json.noted_record r.body) [
      | none ↦ (s, fail 400)
      | some (rec, note) ↦ post_record e rec note db s
    ])
    else if is (text "DELETE") r
    then delete_row (remove_local_record (e.fault 0)) (e.json.id r.body) db s
    else (s, ok empty))

unfoldable pub handle_admin_local_record_toggle : Engine → Request → Site → Site × Response
handle_admin_local_record_toggle e r s = handle_toggle (toggle_local_record (e.fault 0)) e r s

unfoldable pub post_upstream : Engine → Text → ℕ → Db → Site → Site × Response
post_upstream e address priority db s =
    if is_empty address
    then (s, fail 400)
    else inserted (add_failover_upstream (e.fault 0) e.row address priority db) s

unfoldable pub handle_admin_upstreams : Engine → Request → Site → Site × Response
handle_admin_upstreams e r s = with_db r s (λ db.
    if is (text "GET") r
    then (elim (get_failover_upstreams e.by_priority (e.fault 0) db) [
      | none ↦ (s, fail 500)
      | some rows ↦ (s, ok (upstreams rows))
    ])
    else if is (text "POST") r
    then (elim (e.json.upstream r.body) [
      | none ↦ (s, fail 400)
      | some (address, priority) ↦ post_upstream e address priority db s
    ])
    else if is (text "DELETE") r
    then delete_row (remove_failover_upstream (e.fault 0)) (e.json.id r.body) db s
    else (s, ok empty))

unfoldable pub handle_admin_upstream_toggle : Engine → Request → Site → Site × Response
handle_admin_upstream_toggle e r s = handle_toggle (toggle_failover_upstream (e.fault 0)) e r s
