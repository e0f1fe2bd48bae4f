-- ===== src/Tests/Filter.antt =====
-- The filter at concrete inputs.
use dns_server_mandiri.Filter.Counts.{IsSmall}
use dns_server_mandiri.Filter.Decision.{Reason, is_blocked_iff, is_blocked-add_to_whitelist}
use dns_server_mandiri.Filter.Hosts.{Fetched, InFiles}
use dns_server_mandiri.Filter.Load.{load_blocklists_iff}
use dns_server_mandiri.Filter.{
  Filter, check, refused, contains, parent_loop, canonical, is_blocked, add_to_whitelist, DirEntry,
  load_blocklists, parse_line, host_field, clean_domain,
}
use dns_server_mandiri.Prelude.Dict.{lookup}
use dns_server_mandiri.Prelude.Strings.{
  split, trim_dot, with_dot, ends_with_dot, to_lower, fields, trim_space, has_prefix, join,
}
use dns_server_mandiri.Prelude.Text.{Text, text, ◌==◌, is_empty}
use dns_server_mandiri.Prelude.{
  ◌≡◌, ◌≢◌, ◌↔◌, ◌⊎◌, refl, Bool, true, false, Option, none, some, List, [], ◌∷◌, arith,
}
use dns_server_mandiri.Tests.Data.{lib}

abbrev pub ads : Filter
ads = record {
  blocked = (text "ads.example.", tt) ∷ [];
  whitelist = [];
  blacklist = [];
  sources = text "https://lists.example/hosts" ∷ [];
  enabled = true;
  update_interval = 0;
  total_blocked = 0;
  total_allowed = 0;
  blocklist_size = 1;
  blocked_counts = [];
  auto_update_running = false;
}

abbrev no_ip : Text → Bool
no_ip s = false

abbrev down : Text → Option (List Text)
down s = none

-- A subdomain of a listed name is blocked.
subdomain : (is_blocked lib (text "X.Ads.Example") ads).1 ≡ true
unfolding is_blocked check contains lookup parent_loop refused split join trim_dot with_dot
    ends_with_dot to_lower ◌==◌
subdomain = refl

hosts_line : parse_line no_ip (text "0.0.0.0 Ads.Example # tracker") ≡ some (text "ads.example.")
unfolding parse_line host_field clean_domain trim_space fields has_prefix with_dot ends_with_dot
    to_lower is_empty ◌==◌
hosts_line = refl

is_blocked_iff_example :
    ((is_blocked lib (text "x.ads.example") ads).1 ≡ true)
    ↔ ((ads.enabled ≡ true) × Reason (canonical lib (text "x.ads.example")) ads)
is_blocked_iff_example = is_blocked_iff lib (text "x.ads.example") ads

is_blocked-add_to_whitelist_example :
    (is_blocked lib (text "ads.example") (add_to_whitelist lib (text "ads.example") ads)).1 ≡ false
is_blocked-add_to_whitelist_example = is_blocked-add_to_whitelist lib (text "ads.example") ads

not_white : contains (canonical lib (text "ads.example")) ads.whitelist ≡ false
unfolding contains lookup
not_white = refl

empty-IsSmall : IsSmall []
unfolding lookup
empty-IsSmall = record { distinct = tt; named = refl; bounded = omega arith }

named : text "a." ≢ []
named h = ground arith

-- A directory with a list and a hidden file.
abbrev lists : Option (List DirEntry)
lists = some (
    record { name = text "ads.txt"; is_dir = false; lines = some (text "a" ∷ []) }
    ∷ record { name = text ".old"; is_dir = false; lines = some (text "b" ∷ []) }
    ∷ [])

load_blocklists_iff_example :
    (contains (text "a.") (load_blocklists no_ip down lists ads).blocked ≡ true)
    ↔ (Fetched no_ip down (text "a.") ads.sources ⊎ InFiles no_ip (text "a.") lists)
load_blocklists_iff_example = load_blocklists_iff no_ip (text "a.") down lists ads
