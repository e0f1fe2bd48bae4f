-- ===== src/Tests/Dashboard.antt =====
-- The dashboard at concrete requests.
use dns_server_mandiri.Dashboard.Auth.{handler-refused}
use dns_server_mandiri.Dashboard.Debug.{
  questions, handle_filter_debug, handle_filter_debug-questions,
}
use dns_server_mandiri.Dashboard.Lists.{handle_admin_whitelist}
use dns_server_mandiri.Dashboard.Routes.{AdminRoute, Route, handler}
use dns_server_mandiri.Dashboard.Stored.{reopened, save_settings-reopened}
use dns_server_mandiri.Dashboard.{Site, Request, Json, Reply, Engine, ok, fail, save_settings}
use dns_server_mandiri.Database.Settings.{empty_db}
use dns_server_mandiri.Database.{Db}
use dns_server_mandiri.Filter.{Filter, is_blocked, contains}
use dns_server_mandiri.Prelude.Dict.{Dict, lookup}
use dns_server_mandiri.Prelude.Text.{Text, text, is_empty, ◌==◌}
use dns_server_mandiri.Prelude.{
  ◌+◌, ◌%◌, ◌^◌, true, false, none, some, [], ◌∷◌, ◌≡◌, ◌↔◌, ◌⊎◌, inl, refl, arith,
}
use dns_server_mandiri.Server.Allowed.{blocks, post_whitelist-allows}
use dns_server_mandiri.Server.Start.{load_stored, with_stored}
use dns_server_mandiri.Server.Stored.{InRows, load_stored-InRows}
use dns_server_mandiri.Tests.Data.{lib}
use dns_server_mandiri.Tests.Filter.{ads}
use dns_server_mandiri.Tests.Localrecords.{net, none_yet}

-- Decoders that know one kind of body, the name of a domain.
abbrev json : Json
json = record {
  settings = λ s. none;
  source = λ s. none;
  id = λ s. none;
  toggle = λ s. none;
  enabled = λ s. none;
  domain = λ s. some s;
  noted_domain = λ s. some (s, []);
  removed_domain = λ s. some (0, s);
  removed_record = λ s. none;
  local_record = λ s. none;
  noted_record = λ s. none;
  upstream = λ s. none;
}

abbrev engine : Engine
engine = record {
  json = json;
  lib = lib;
  net = net;
  row = record { id = 1; now = 5; last = 0 };
  fault = λ n. false;
  views = λ v r s. (s, ok Reply.empty);
  by_name = λ rows. rows;
  by_priority = λ rows. rows;
}

abbrev db : Db
db = record empty_db { settings = (text "filter_enabled", text "true") ∷ [] }

abbrev site : Site
site = record {
  auth = record { enabled = true; username = text "admin"; password = text "secret" };
  db = some db;
  filter = some ads;
  local_records = some none_yet;
  loads = 0;
  updates = 0;
}

abbrev allow_ads : Request
allow_ads = record {
  method = text "POST";
  credentials = some (text "admin", text "guess");
  body = text "ads.example";
}

handler-refused_example :
    handler (Route.admin AdminRoute.admin_whitelist) engine allow_ads site ≡ (site, fail 401)
handler-refused_example =
    handler-refused (Route.admin AdminRoute.admin_whitelist) engine allow_ads site
      (λ e. ground arith) refl (λ e. ground arith)

post_whitelist-allows_example :
    let s' = (handle_admin_whitelist engine allow_ads site).0 in
    (blocks lib (text "ads.example") s'.filter ≡ false)
    × ((is_blocked lib (text "ads.example") (with_stored lib (λ n. false) s'.db (ads, false)).0).1
        ≡ false)
unfolding is_empty
post_whitelist-allows_example =
    post_whitelist-allows engine allow_ads site db (text "ads.example") [] (λ n. false) (ads, false)
      refl refl refl refl refl refl

load_stored-InRows_example :
    ((contains (text "ads.example.") (load_stored lib (λ n. false) db (ads, false)).0.whitelist
        ≡ true)
      ↔ (InRows lib (text "ads.example.") db.whitelist
          ⊎ (contains (text "ads.example.") ads.whitelist ≡ true)))
    × ((contains (text "ads.example.") (load_stored lib (λ n. false) db (ads, false)).0.blacklist
          ≡ true)
        ↔ (InRows lib (text "ads.example.") db.blacklist
            ⊎ (contains (text "ads.example.") ads.blacklist ≡ true)))
load_stored-InRows_example =
    load_stored-InRows lib (λ n. false) db (ads, false) (text "ads.example.") refl refl

-- The block response is changed, and the default of every setting fails to be written.
abbrev change : Dict Text
change = (text "filter_block_response", text "nxdomain") ∷ []

save_settings-reopened_example :
    reopened
      (λ key. true)
      (λ n. record { id = n; now = 9; last = 0 })
      (text "filter_block_response")
      (save_settings engine change db site).0.db
    ≡ some (text "nxdomain")
unfolding lookup ◌==◌
save_settings-reopened_example =
    save_settings-reopened engine site db change (λ n. refl) (λ key. true)
      (λ n. record { id = n; now = 9; last = 0 }) (text "filter_block_response") (text "nxdomain")
      (refl, tt) (inl refl)

handle_filter_debug-questions_example :
    (f' : Filter) × ((handle_filter_debug engine allow_ads site).0.filter ≡ some f')
    × (questions f' ≡ (questions ads + 8) % 2 ^ 64)
handle_filter_debug-questions_example =
    handle_filter_debug-questions engine allow_ads site ads refl refl
