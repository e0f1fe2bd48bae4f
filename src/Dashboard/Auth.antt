-- ===== src/Dashboard/Auth.antt =====
-- Who may see or change something by the dashboard.
use dns_server_mandiri.Dashboard.Routes.{
  AdminRoute, admin, admin_handler, Route, handler, health, stats, queries, queries_export,
  top_domains, qps_history, latency_histogram, filter_stats, top_blocked, clients, failover_status,
  failover_latency, ratelimit_stats, static_files, index, filter_whitelist, filter_blacklist,
  filter_toggle, filter_reload, filter_debug, local_records, admin_settings,
  admin_blocklist_sources, admin_blocklist_toggle, admin_blocklist_reload, admin_whitelist,
  admin_blacklist, admin_local_records, admin_local_record_toggle, admin_upstreams,
  admin_upstream_toggle,
}
use dns_server_mandiri.Dashboard.{
  AuthConfig, Site, Request, Response, Engine, credentials_match, fail, basic_auth,
  basic_auth_handler,
}
use dns_server_mandiri.Prelude.Text.{Text, eq_iff}
use dns_server_mandiri.Prelude.{
  true, false, Option, none, some, ◌≡◌, ◌≢◌, ◌↔◌, refl, arith, Bool-cases, inl, inr,
}

-- The credentials that are credentials_match are those of the configuration, and no others.
credentials_match_iff :
    (auth : AuthConfig) (c : Option (Text × Text))
    → (credentials_match auth c ≡ true) ↔ (c ≡ some (auth.username, auth.password))
credentials_match_iff auth none = ground arith
credentials_match_iff auth (some (user, pass)) =
    ground (arith, eq_iff user auth.username, eq_iff pass auth.password)

refused :
    (auth : AuthConfig) (c : Option (Text × Text))
    → c ≢ some (auth.username, auth.password)
    → credentials_match auth c ≡ false
refused auth c h = elim (Bool-cases (credentials_match auth c)) [
  | inl fits ↦ absurd (h ((credentials_match_iff auth c).0 fits))
  | inr out ↦ out
]

-- What both wrappers answer to a request without the credentials.
closed :
    (next : Request → Site → Site × Response) (r : Request) (s : Site)
    → s.auth.enabled ≡ true
    → r.credentials ≢ some (s.auth.username, s.auth.password)
    → basic_auth next r s ≡ (s, fail 401)
unfolding basic_auth
closed next r s on out = rw (on, refused s.auth r.credentials out, basic_auth) refl

closed_handler :
    (next : Request → Site → Site × Response) (r : Request) (s : Site)
    → s.auth.enabled ≡ true
    → r.credentials ≢ some (s.auth.username, s.auth.password)
    → basic_auth_handler next r s ≡ (s, fail 401)
unfolding basic_auth_handler
closed_handler next r s on out = rw (on, refused s.auth r.credentials out, basic_auth_handler) refl

admin_handler-refused :
    (route : AdminRoute) (e : Engine) (r : Request) (s : Site)
    → s.auth.enabled ≡ true
    → r.credentials ≢ some (s.auth.username, s.auth.password)
    → admin_handler route e r s ≡ (s, fail 401)
unfolding admin_handler
admin_handler-refused admin_settings e r s on out = closed _ r s on out
admin_handler-refused admin_blocklist_sources e r s on out = closed _ r s on out
admin_handler-refused admin_blocklist_toggle e r s on out = closed _ r s on out
admin_handler-refused admin_blocklist_reload e r s on out = closed _ r s on out
admin_handler-refused admin_whitelist e r s on out = closed _ r s on out
admin_handler-refused admin_blacklist e r s on out = closed _ r s on out
admin_handler-refused admin_local_records e r s on out = closed _ r s on out
admin_handler-refused admin_local_record_toggle e r s on out = closed _ r s on out
admin_handler-refused admin_upstreams e r s on out = closed _ r s on out
admin_handler-refused admin_upstream_toggle e r s on out = closed _ r s on out

-- While authentication is on, a request without the configured user and password is answered 401
-- on every route but the health check, whatever its method and body, and changes nothing.
pub handler-refused :
    (route : Route) (e : Engine) (r : Request) (s : Site)
    → route ≢ health
    → s.auth.enabled ≡ true
    → r.credentials ≢ some (s.auth.username, s.auth.password)
    → handler route e r s ≡ (s, fail 401)
unfolding handler
handler-refused health e r s h on out = absurd (h refl)
handler-refused stats e r s h on out = closed _ r s on out
handler-refused queries e r s h on out = closed _ r s on out
handler-refused queries_export e r s h on out = closed _ r s on out
handler-refused top_domains e r s h on out = closed _ r s on out
handler-refused qps_history e r s h on out = closed _ r s on out
handler-refused latency_histogram e r s h on out = closed _ r s on out
handler-refused filter_stats e r s h on out = closed _ r s on out
handler-refused top_blocked e r s h on out = closed _ r s on out
handler-refused clients e r s h on out = closed _ r s on out
handler-refused failover_status e r s h on out = closed _ r s on out
handler-refused failover_latency e r s h on out = closed _ r s on out
handler-refused ratelimit_stats e r s h on out = closed _ r s on out
handler-refused static_files e r s h on out = closed_handler _ r s on out
handler-refused index e r s h on out = closed _ r s on out
handler-refused filter_whitelist e r s h on out = closed _ r s on out
handler-refused filter_blacklist e r s h on out = closed _ r s on out
handler-refused filter_toggle e r s h on out = closed _ r s on out
handler-refused filter_reload e r s h on out = closed _ r s on out
handler-refused filter_debug e r s h on out = closed _ r s on out
handler-refused local_records e r s h on out = closed _ r s on out
handler-refused (admin route) e r s h on out = admin_handler-refused route e r s on out
