-- ===== src/Dashboard/Routes.antt =====
-- The routes: those that change something, those that only show something, and the one that needs
-- no credentials.
use dns_server_mandiri.Dashboard.Debug.{handle_filter_debug}
use dns_server_mandiri.Dashboard.Lists.{
  handle_admin_whitelist, handle_admin_blacklist, handle_filter_whitelist, handle_filter_blacklist,
  handle_filter_toggle, handle_filter_reload, handle_admin_blocklist_reload,
}
use dns_server_mandiri.Dashboard.Local.{handle_local_records}
use dns_server_mandiri.Dashboard.Records.{
  handle_admin_blocklist_sources, handle_admin_blocklist_toggle, handle_admin_local_records,
  handle_admin_local_record_toggle, handle_admin_upstreams, handle_admin_upstream_toggle,
}
use dns_server_mandiri.Dashboard.{
  Site, Request, Response, View, Engine, status, ok, basic_auth, basic_auth_handler,
  handle_admin_settings,
}
use dns_server_mandiri.Prelude.Text.{text}

-- The patterns that `registerAdminRoutes` registers, and those of `Handler`.
pub data AdminRoute : Type 0 where
  admin_settings admin_blocklist_sources admin_blocklist_toggle admin_blocklist_reload : AdminRoute
  admin_whitelist admin_blacklist admin_local_records admin_local_record_toggle : AdminRoute
  admin_upstreams admin_upstream_toggle : AdminRoute

pub data Route : Type 0 where
  stats queries queries_export top_domains qps_history latency_histogram : Route
  filter_stats top_blocked clients failover_status failover_latency ratelimit_stats : Route
  filter_whitelist filter_blacklist filter_toggle filter_reload filter_debug : Route
  local_records static_files index health : Route
  admin : AdminRoute → Route

unfoldable pub handle_health : Engine → Request → Site → Site × Response
handle_health e r s = (s, ok (status (text "ok")))

-- `registerAdminRoutes`
unfoldable pub admin_handler : AdminRoute → Engine → Request → Site → Site × Response
admin_handler admin_settings e = basic_auth (handle_admin_settings e)
admin_handler admin_blocklist_sources e = basic_auth (handle_admin_blocklist_sources e)
admin_handler admin_blocklist_toggle e = basic_auth (handle_admin_blocklist_toggle e)
admin_handler admin_blocklist_reload e = basic_auth (handle_admin_blocklist_reload e)
admin_handler admin_whitelist e = basic_auth (handle_admin_whitelist e)
admin_handler admin_blacklist e = basic_auth (handle_admin_blacklist e)
admin_handler admin_local_records e = basic_auth (handle_admin_local_records e)
admin_handler admin_local_record_toggle e = basic_auth (handle_admin_local_record_toggle e)
admin_handler admin_upstreams e = basic_auth (handle_admin_upstreams e)
admin_handler admin_upstream_toggle e = basic_auth (handle_admin_upstream_toggle e)

-- `Handler`
unfoldable pub handler : Route → Engine → Request → Site → Site × Response
handler stats e = basic_auth (e.views View.stats)
handler queries e = basic_auth (e.views View.queries)
handler queries_export e = basic_auth (e.views View.queries_export)
handler top_domains e = basic_auth (e.views View.top_domains)
handler qps_history e = basic_auth (e.views View.qps_history)
handler latency_histogram e = basic_auth (e.views View.latency_histogram)
handler filter_stats e = basic_auth (e.views View.filter_stats)
handler top_blocked e = basic_auth (e.views View.top_blocked)
handler clients e = basic_auth (e.views View.clients)
handler failover_status e = basic_auth (e.views View.failover_status)
handler failover_latency e = basic_auth (e.views View.failover_latency)
handler ratelimit_stats e = basic_auth (e.views View.ratelimit_stats)
handler static_files e = basic_auth_handler (e.views View.static_files)
handler index e = basic_auth (e.views View.index)
handler filter_whitelist e = basic_auth (handle_filter_whitelist e)
handler filter_blacklist e = basic_auth (handle_filter_blacklist e)
handler filter_toggle e = basic_auth (handle_filter_toggle e)
handler filter_reload e = basic_auth (handle_filter_reload e)
handler filter_debug e = basic_auth (handle_filter_debug e)
handler local_records e = basic_auth (handle_local_records e)
handler health e = handle_health e
handler (admin route) e = admin_handler route e
