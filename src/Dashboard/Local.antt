-- ===== src/Dashboard/Local.antt =====
-- The handler that only changes the running local records.
use dns_server_mandiri.Dashboard.{
  Site, Request, Response, Engine, empty, status, live_records, fail, ok, is,
}
use dns_server_mandiri.Localrecords.{
  Added, refused, added, add_record, remove_record, get_all_records,
}
use dns_server_mandiri.Prelude.Text.{text}
use dns_server_mandiri.Prelude.{none, some, if◌then◌else◌}

unfoldable pub answer_added : Added → Site → Site × Response
answer_added (refused error) s = (s, fail 400)
answer_added (added lr) s = (record s { local_records = some lr }, ok (status (text "added")))

unfoldable pub handle_local_records : Engine → Request → Site → Site × Response
handle_local_records e r s = elim s.local_records [
  | none ↦ (s, fail 400)
  | some lr ↦
      if is (text "GET") r
      then (s, ok (live_records (get_all_records e.lib e.net lr.records)))
      else if is (text "POST") r
      then (elim (e.json.local_record r.body) [
        | none ↦ (s, fail 400)
        | some rec ↦ answer_added (add_record e.lib e.net rec lr) s
      ])
      else if is (text "DELETE") r
      then (elim (e.json.removed_record r.body) [
        | none ↦ (s, fail 400)
        | some (name, rtype) ↦ (
          record s { local_records = some (remove_record e.lib e.net name rtype lr) },
          ok (status (text "removed")),
        )
      ])
      else (s, ok empty)
]
