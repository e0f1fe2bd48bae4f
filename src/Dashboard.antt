-- ===== src/Dashboard.antt =====
-- internal/dashboard/dashboard.go and internal/dashboard/admin_api.go: the requests of the
-- administrator, and what they do to the database, the filter and the local records. A component
-- that was not set is nothing. The decoders of the package encoding/json are the parameter `Json`;
-- an id that is not positive is 0. The engine of the database says which statement fails: `fault n`
-- is the n-th of a request. Headers and the texts of errors are not modelled.
pub mod Lists
pub mod Records
pub mod Local
pub mod Debug
pub mod Routes
pub mod Auth
pub mod Stored
use dns_server_mandiri.Database.{
  BlocklistSource, DomainEntry, LocalRecord, FailoverUpstream, Db, NewRow, set_setting,
  get_all_settings,
}
use dns_server_mandiri.Dns.{DnsLib}
use dns_server_mandiri.Filter.{Filter, set_enabled}
use dns_server_mandiri.Localrecords.{LocalRecords, Record, NetLib}
use dns_server_mandiri.Prelude.Dict.{Dict, lookup}
use dns_server_mandiri.Prelude.Text.{Text, text, ◌==◌ as text_eq}
use dns_server_mandiri.Prelude.{
  ℕ, ◌+◌, Bool, true, false, not, ◌||◌, ◌&&◌, Option, none, some, List, [], ◌∷◌, if◌then◌else◌,
}

-- `DashboardAuthConfig`
pub record AuthConfig : Type 0 where
  pub enabled : Bool
  pub username : Text
  pub password : Text

-- The dashboard's components, with the loads of the blocklists and the update loops that it has
-- started.
pub record Site : Type 0 where
  pub auth : AuthConfig
  pub db : Option Db
  pub filter : Option Filter
  pub local_records : Option LocalRecords
  pub loads : ℕ
  pub updates : ℕ

pub record Request : Type 0 where
  pub method : Text
  pub credentials : Option (Text × Text)
  pub body : Text

pub data Reply : Type 0 where
  empty : Reply
  error : Reply
  status : Text → Reply
  added : ℕ → Reply
  enabled : Bool → Reply
  names : List Text → Reply
  tested : List (Text × Bool) → Reply
  settings : Dict Text → Reply
  sources : List BlocklistSource → Reply
  domains : List DomainEntry → Reply
  stored_records : List LocalRecord → Reply
  live_records : List Record → Reply
  upstreams : List FailoverUpstream → Reply

pub record Response : Type 0 where
  pub code : ℕ
  pub reply : Reply

-- What the decoder yields for the type that a handler declares, nothing for an error.
pub record Json : Type 0 where
  pub settings : Text → Option (Dict Text)
  -- name and url
  pub source : Text → Option (Text × Text)
  pub id : Text → Option ℕ
  -- id and enabled
  pub toggle : Text → Option (ℕ × Bool)
  pub enabled : Text → Option Bool
  pub domain : Text → Option Text
  -- domain and note
  pub noted_domain : Text → Option (Text × Text)
  -- id and domain
  pub removed_domain : Text → Option (ℕ × Text)
  -- name and type
  pub removed_record : Text → Option (Text × Text)
  pub local_record : Text → Option Record
  -- the record and its note
  pub noted_record : Text → Option (Record × Text)
  -- address and priority
  pub upstream : Text → Option (Text × ℕ)

-- The handlers that only show something.
pub data View : Type 0 where
  stats queries queries_export top_domains qps_history latency_histogram : View
  filter_stats top_blocked clients failover_status failover_latency ratelimit_stats : View
  static_files index : View

-- What a request meets beside the components: `views` are the handlers of the views.
pub record Engine : Type 0 where
  pub json : Json
  pub lib : DnsLib
  pub net : NetLib
  pub row : NewRow
  pub fault : ℕ → Bool
  pub by_name : List LocalRecord → List LocalRecord
  pub views : View → Request → Site → Site × Response
  pub by_priority : List FailoverUpstream → List FailoverUpstream

abbrev pub fail : ℕ → Response
fail code = record { code = code; reply = error }

abbrev pub ok : Reply → Response
ok reply = record { code = 200; reply = reply }

abbrev pub is : Text → Request → Bool
is method r = text_eq r.method method

-- A statement whose error is ignored.
abbrev pub or_old {ℓ} : {A : Type ℓ} → A → Option A → A
or_old old none = old
or_old old (some new) = new

-- What the handlers of the admin API have in common: an answer to OPTIONS, and the database.
unfoldable pub with_db : Request → Site → (Db → Site × Response) → Site × Response
with_db r s handle =
    if is (text "OPTIONS") r
    then (s, ok empty)
    else elim s.db [ none ↦ (s, fail 500) | some db ↦ handle db ]

-- `basicAuth`
abbrev pub credentials_match : AuthConfig → Option (Text × Text) → Bool
credentials_match auth none = false
credentials_match auth (some (user, pass)) =
    text_eq user auth.username && text_eq pass auth.password

unfoldable pub basic_auth : (Request → Site → Site × Response) → Request → Site → Site × Response
basic_auth next r s =
    if not s.auth.enabled
    then next r s
    else if credentials_match s.auth r.credentials
    then next r s
    else (s, fail 401)

-- `basicAuthHandler`, for the handler of the static files.
unfoldable pub basic_auth_handler :
    (Request → Site → Site × Response) → Request → Site → Site × Response
basic_auth_handler next r s =
    if s.auth.enabled && not (credentials_match s.auth r.credentials)
    then (s, fail 401)
    else next r s

-- `SetEnabled` of the filter, with the load and the loop that it starts.
abbrev started : Bool → ℕ → ℕ
started b n = if b then n + 1 else n

unfoldable pub switch_filter : Bool → Filter → Site → Site
switch_filter on f s =
    let (f', load, update) = set_enabled on f in
    record s { filter = some f'; loads = started load s.loads; updates = started update s.updates }

-- `applySettings`
unfoldable pub apply_settings : Dict Text → Site → Site
apply_settings m s = elim (lookup (text "filter_enabled") m) [
  | none ↦ s
  | some v ↦ elim s.filter [ none ↦ s | some f ↦ switch_filter (text_eq v (text "true")) f s ]
]

-- The loop of `handleAdminSettings`: the database and whether every statement succeeded.
unfoldable pub store_settings : (ℕ → Bool) → ℕ → Dict Text → Db → Db × Bool
store_settings fault n [] db = (db, true)
store_settings fault n ((key, value) ∷ rest) db = elim (set_setting (fault n) key value db) [
  | none ↦ (db, false)
  | some db' ↦ store_settings fault (n + 1) rest db'
]

unfoldable pub save_settings : Engine → Dict Text → Db → Site → Site × Response
save_settings e m db s =
    let (db', done) = store_settings e.fault 0 m db in
    if done
    then (apply_settings m (record s { db = some db' }), ok (status (text "ok")))
    else (record s { db = some db' }, fail 500)

unfoldable pub handle_admin_settings : Engine → Request → Site → Site × Response
handle_admin_settings e r s = with_db r s (λ db.
    if is (text "GET") r
    then (elim (get_all_settings (e.fault 0) db) [
      | none ↦ (s, fail 500)
      | some m ↦ (s, ok (settings m))
    ])
    else if is (text "POST") r || is (text "PUT") r
    then (elim (e.json.settings r.body) [ none ↦ (s, fail 400) | some m ↦ save_settings e m db s ])
    else (s, ok empty))
