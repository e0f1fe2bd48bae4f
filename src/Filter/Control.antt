-- ===== src/Filter/Control.antt =====
-- internal/filter/filter.go: how a filter starts, what it shows, and its update loop. Files,
-- downloads and the sorting of `sort.Slice` are arguments.
use dns_server_mandiri.Filter.{
  Filter, Names, load_list_file, DirEntry, load_blocklists, start_auto_update, is_nil,
}
use dns_server_mandiri.Prelude.Dict.{Dict}
use dns_server_mandiri.Prelude.Text.{Text}
use dns_server_mandiri.Prelude.{
  ℕ, Bool, true, false, not, ◌&&◌, Option, none, some, List, [], ◌∷◌, ◌++◌, length, ltb, leb, take,
  if◌then◌else◌,
}

pub record Config : Type 0 where
  pub enabled : Bool
  pub blocklist_dir : Text
  pub sources : List Text
  pub whitelist_file : Text
  pub blacklist_file : Text
  pub update_interval : ℕ
  pub block_response : Text

-- `New`: the filter, and whether it starts a load and the update loop. `read_file` is what a file
-- holds, or nothing if it cannot be opened; without a name no file is read.
abbrev read_list : (Text → Option (List Text)) → Text → Names
read_list read_file [] = []
read_list read_file (c ∷ path) = elim (read_file (c ∷ path)) [
  | none ↦ []
  | some lines ↦ load_list_file lines []
]

unfoldable pub fresh_filter : (Text → Option (List Text)) → Config → Filter
fresh_filter read_file cfg = record {
  blocked = [];
  whitelist = read_list read_file cfg.whitelist_file;
  blacklist = read_list read_file cfg.blacklist_file;
  sources = cfg.sources;
  enabled = cfg.enabled;
  update_interval = cfg.update_interval;
  total_blocked = 0;
  total_allowed = 0;
  blocklist_size = 0;
  blocked_counts = [];
  auto_update_running = false;
}

unfoldable pub init : (Text → Option (List Text)) → Config → Filter × Bool × Bool
init read_file cfg =
    let f = fresh_filter read_file cfg in
    let load = f.enabled && not (is_nil f.sources) in
    if f.enabled && ltb 0 cfg.update_interval
    then ((start_auto_update f).0, load, (start_auto_update f).1)
    else (f, load, false)

abbrev pub names : Names → List Text
names [] = []
names ((d, _) ∷ rest) = d ∷ names rest

unfoldable pub blocked_count : Filter → ℕ
blocked_count f = length f.blocked

unfoldable pub blacklist_count : Filter → ℕ
blacklist_count f = length f.blacklist

unfoldable pub get_whitelist : Filter → List Text
get_whitelist f = names f.whitelist

unfoldable pub get_blacklist : Filter → List Text
get_blacklist f = names f.blacklist

-- `Stats`
unfoldable pub stats : Filter → ℕ × ℕ × ℕ
stats f = (f.total_blocked, f.total_allowed, f.blocklist_size)

-- The loop of `SampleBlocked`, which stops when it has enough.
unfoldable pub sample_loop : ℕ → Names → List Text → List Text
sample_loop n [] samples = samples
sample_loop n ((d, _) ∷ rest) samples =
    let more = sample_loop n rest (samples ++ (d ∷ [])) in
    if leb n (length (samples ++ (d ∷ []))) then samples ++ (d ∷ []) else more

unfoldable pub sample_blocked : ℕ → Filter → List Text
sample_blocked n f = sample_loop n f.blocked []

pub record BlockedDomainStat : Type 0 where
  pub domain : Text
  pub count : ℕ

unfoldable pub blocked_stats : Dict ℕ → List BlockedDomainStat
blocked_stats [] = []
blocked_stats ((d, n) ∷ rest) = record { domain = d; count = n } ∷ blocked_stats rest

unfoldable pub get_top_blocked :
    (List BlockedDomainStat → List BlockedDomainStat) → ℕ → Filter → List BlockedDomainStat
get_top_blocked sort limit f =
    let sorted = sort (blocked_stats f.blocked_counts) in
    take (if ltb (length sorted) limit then length sorted else limit) sorted

-- `autoUpdate`: what a turn of its loop does, and whether the loop goes on.
pub data Event : Type 0 where
  tick stop : Event

unfoldable pub auto_update :
    (Text → Bool)
    → (Text → Option (List Text))
    → Option (List DirEntry)
    → Event
    → Filter
    → Filter × Bool
auto_update is_ip fetch blocklist_dir tick f =
    if f.enabled then (load_blocklists is_ip fetch blocklist_dir f, true) else (f, true)
auto_update is_ip fetch blocklist_dir stop f = (record f { auto_update_running = false }, false)

unfoldable pub set_sources : List Text → Filter → Filter
set_sources sources f = record f { sources = sources }

-- `ReloadIfNeeded`: whether it starts a load.
unfoldable pub reload_if_needed : Filter → Bool
reload_if_needed f = is_nil f.blocked && not (is_nil f.sources)
