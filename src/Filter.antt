-- ===== src/Filter.antt =====
-- internal/filter/filter.go: blocking of domains by lists. A `map[string]struct{}` is a `Dict` of
-- the type with one value. Downloads and files are arguments: what a source yields is the lines
-- of its text, or nothing for an error. Counters are `uint64`.
pub mod Parents
pub mod Decision
pub mod Counts
pub mod Hosts
pub mod Load
pub mod Control
use dns_server_mandiri.Dns.{
  Msg, Rr, Header, Question, DnsLib, a, aaaa, type_a, type_aaaa, class_inet, rcode_success,
  rcode_name_error, rcode_refused,
}
use dns_server_mandiri.Prelude.{
  ℕ, ◌+◌, Bool, true, false, not, ◌&&◌, ◌||◌, Option, none, some, List, [], ◌∷◌, ◌++◌, ltb, ◌==◌,
  if◌then◌else◌, length, add64, replicate, take,
}
use dns_server_mandiri.Prelude.Dict.{Dict, lookup, insert, delete}
use dns_server_mandiri.Prelude.Lowest.{evict_lowest}
use dns_server_mandiri.Prelude.Strings.{
  to_lower, with_dot, trim_dot, split, join, dot, trim_space, fields, has_prefix,
}
use dns_server_mandiri.Prelude.Text.{Text, text, is_empty, ◌==◌ as text_eq}

abbrev pub Names : Type 0
Names = Dict (Unit {0})

unfoldable pub contains : Text → Names → Bool
contains k s = elim (lookup k s) [ some _ ↦ true | none ↦ false ]

pub record Filter : Type 0 where
  pub blocked : Names
  pub whitelist : Names
  pub blacklist : Names
  pub sources : List Text
  pub enabled : Bool
  pub update_interval : ℕ
  pub total_blocked : ℕ
  pub total_allowed : ℕ
  pub blocklist_size : ℕ
  pub blocked_counts : Dict ℕ
  pub auto_update_running : Bool

-- `recordBlocked`
abbrev pub next_count : Option ℕ → ℕ
next_count none = 1
next_count (some n) = add64 n 1

unfoldable pub record_blocked : Text → Dict ℕ → Dict ℕ
record_blocked domain counts =
    let counted = insert domain (next_count (lookup domain counts)) counts in
    if ltb 10000 (length counted) then evict_lowest (λ n. n) counted else counted

-- The loop of `IsBlocked` over the parent domains.
unfoldable pub parent_loop : Names → List Text → Bool
parent_loop blocked [] = false
parent_loop blocked (p ∷ []) = false
parent_loop blocked (p ∷ q ∷ parts) =
    contains (join (q ∷ parts) ++ (dot ∷ [])) blocked || parent_loop blocked (q ∷ parts)

unfoldable pub allowed : Filter → Filter × Bool
allowed f = (record f { total_allowed = add64 f.total_allowed 1 }, false)

unfoldable pub refused : Text → Filter → Filter × Bool
refused domain f = (
  record f {
    total_blocked = add64 f.total_blocked 1;
    blocked_counts = record_blocked domain f.blocked_counts;
  },
  true,
)

-- `IsBlocked` after the name was brought to its canonical form.
unfoldable pub check : Text → Filter → Filter × Bool
check domain f =
    if contains domain f.whitelist
    then allowed f
    else if contains domain f.blacklist
    then refused domain f
    else if contains domain f.blocked
    then refused domain f
    else if parent_loop f.blocked (split (trim_dot domain))
    then refused domain f
    else allowed f

-- The three cases of the switch in `BlockedResponse`.
pub data BlockType : Type 0 where
  zero nxdomain refuse : BlockType

unfoldable pub block_type : Text → BlockType
block_type s =
    if text_eq s (text "nxdomain")
    then nxdomain
    else if text_eq s (text "refused")
    then refuse
    else zero

abbrev pub header : Question → ℕ → Header
header q rrtype = record { name = q.name; rrtype = rrtype; class = class_inet; ttl = 300 }

unfoldable pub zero_answer : List Question → List Rr
zero_answer [] = []
zero_answer (q ∷ _) =
    if q.qtype == type_a
    then record { hdr = header q type_a; rdata = a (replicate 4 0) } ∷ []
    else if q.qtype == type_aaaa
    then record { hdr = header q type_aaaa; rdata = aaaa (replicate 16 0) } ∷ []
    else []

unfoldable pub fill_blocked : BlockType → List Question → Msg → Msg
fill_blocked nxdomain qs resp = record resp { rcode = rcode_name_error }
fill_blocked refuse qs resp = record resp { rcode = rcode_refused }
fill_blocked zero qs resp = record resp {
  rcode = rcode_success;
  answer = resp.answer ++ zero_answer qs;
}

-- One line of `parseHostsFile`: the domain that it adds, if any. `is_ip` is `ParseIP(s) != nil`.
unfoldable pub host_field : List Text → Option Text
host_field [] = none
host_field (d ∷ []) = some d
host_field (ip ∷ d ∷ _) =
    if text_eq ip (text "0.0.0.0") || text_eq ip (text "127.0.0.1") then some d else none

unfoldable pub clean_domain : (Text → Bool) → Text → Option Text
clean_domain is_ip s =
    let d = to_lower (trim_space s) in
    if is_empty d || text_eq d (text "localhost") || text_eq d (text "localhost.localdomain")
    then none
    else if is_ip d
    then none
    else some (with_dot d)

unfoldable pub parse_line : (Text → Bool) → Text → Option Text
parse_line is_ip raw =
    let line = trim_space raw in
    if is_empty line || has_prefix line (text "#") || has_prefix line (text "!")
    then none
    else elim (host_field (fields line)) [ none ↦ none | some d ↦ clean_domain is_ip d ]

-- `parseHostsFile`: the map and the count.
unfoldable pub add_parsed : Option Text → Names × ℕ → Names × ℕ
add_parsed none r = r
add_parsed (some d) (blocked, count) = (insert d tt blocked, count + 1)

unfoldable pub parse_hosts_file : (Text → Bool) → List Text → Names × ℕ → Names × ℕ
parse_hosts_file is_ip [] r = r
parse_hosts_file is_ip (line ∷ lines) r =
    parse_hosts_file is_ip lines (add_parsed (parse_line is_ip line) r)

-- `loadListFile`
unfoldable pub list_line : Text → Option Text
list_line raw =
    let line = trim_space raw in
    if is_empty line || has_prefix line (text "#") then none else some (with_dot (to_lower line))

unfoldable pub load_list_file : List Text → Names → Names
load_list_file [] list = list
load_list_file (raw ∷ lines) list =
    load_list_file lines (elim (list_line raw) [ none ↦ list | some d ↦ insert d tt list ])

-- `LoadBlocklists`: `fetch` is what `loadSource` reads, `blocklist_dir` what `loadLocalFiles`
-- finds.
unfoldable pub add_source : (Text → Bool) → Option (List Text) → Names × ℕ → Names × ℕ
add_source is_ip none r = r
add_source is_ip (some lines) r = parse_hosts_file is_ip lines r

unfoldable pub load_sources :
    (Text → Bool) → (Text → Option (List Text)) → List Text → Names × ℕ → Names × ℕ
load_sources is_ip fetch [] r = r
load_sources is_ip fetch (source ∷ sources) r =
    load_sources is_ip fetch sources (add_source is_ip (fetch source) r)

-- An entry of the directory of local lists: its name, and the lines of the file, nothing if it
-- cannot be opened.
pub record DirEntry : Type 0 where
  pub name : Text
  pub is_dir : Bool
  pub lines : Option (List Text)

unfoldable pub load_entry : (Text → Bool) → DirEntry → Names × ℕ → Names × ℕ
load_entry is_ip entry r =
    if entry.is_dir || has_prefix entry.name (text ".") then r else add_source is_ip entry.lines r

unfoldable pub load_entries : (Text → Bool) → List DirEntry → Names × ℕ → Names × ℕ
load_entries is_ip [] r = r
load_entries is_ip (entry ∷ entries) r = load_entries is_ip entries (load_entry is_ip entry r)

-- Of the directory, nothing if it cannot be read.
unfoldable pub load_local_files : (Text → Bool) → Option (List DirEntry) → Names × ℕ → Names × ℕ
load_local_files is_ip none r = r
load_local_files is_ip (some entries) r = load_entries is_ip entries r

unfoldable pub load_blocklists :
    (Text → Bool) → (Text → Option (List Text)) → Option (List DirEntry) → Filter → Filter
load_blocklists is_ip fetch blocklist_dir f =
    let (blocked, total) =
      load_local_files is_ip blocklist_dir (load_sources is_ip fetch f.sources ([], 0)) in
    record f { blocked = blocked; blocklist_size = total }

-- `SetEnabled`: the new state, and whether it starts a load of the lists and the update loop.
abbrev pub is_nil {ℓ} : {A : Type ℓ} → List A → Bool
is_nil [] = true
is_nil (x ∷ xs) = false

unfoldable pub start_auto_update : Filter → Filter × Bool
start_auto_update f =
    if f.auto_update_running then (f, false) else (record f { auto_update_running = true }, true)

unfoldable pub set_enabled : Bool → Filter → Filter × Bool × Bool
set_enabled enabled f =
    let f₁ = record f { enabled = enabled } in
    if enabled && not f.enabled
    then (let load = is_nil f₁.blocked && not (is_nil f₁.sources) in
        if ltb 0 f₁.update_interval
        then ((start_auto_update f₁).0, load, (start_auto_update f₁).1)
        else (f₁, load, false))
    else (f₁, false, false)

module _ (lib : DnsLib) where
  abbrev pub canonical : Text → Text
  canonical domain = to_lower (lib.canonical_name domain)

  unfoldable pub is_blocked : Text → Filter → Filter × Bool
  is_blocked domain f = if f.enabled then check (canonical domain) f else (f, false)

  unfoldable pub add_to_whitelist : Text → Filter → Filter
  add_to_whitelist domain f = record f { whitelist = insert (canonical domain) tt f.whitelist }

  unfoldable pub remove_from_whitelist : Text → Filter → Filter
  remove_from_whitelist domain f = record f { whitelist = delete (canonical domain) f.whitelist }

  unfoldable pub add_to_blacklist : Text → Filter → Filter
  add_to_blacklist domain f = record f { blacklist = insert (canonical domain) tt f.blacklist }

  unfoldable pub remove_from_blacklist : Text → Filter → Filter
  remove_from_blacklist domain f = record f { blacklist = delete (canonical domain) f.blacklist }

  unfoldable pub blocked_response : Msg → Msg → Text → Msg
  blocked_response blank r kind =
      fill_blocked (block_type kind) r.question
        (record (lib.set_reply blank r) { recursion_available = true })
