-- ===== src/Localrecords.antt =====
-- internal/localrecords/localrecords.go: records that the administrator sets. The parsers and
-- printers of addresses, of the package `net`, are parameters: `to4` is `ParseIP(s).To4()`, `to16`
-- is `ParseIP(s).To16()`, with nothing for nil. Keys are "name/TYPE".
pub mod Lookups
use dns_server_mandiri.Dns.{
  Msg, Rr, Rdata, Header, DnsLib, a, aaaa, cname, ns, txt, mx, other, type_a, type_cname, type_mx,
  type_txt, type_aaaa, class_inet,
}
use dns_server_mandiri.Prelude.{
  ℕ, Bool, true, false, ◌||◌, Option, none, some, List, [], ◌∷◌, ◌++◌, map, ◌==◌, ◌⊎◌, inl, inr,
  if◌then◌else◌,
}
use dns_server_mandiri.Prelude.Dict.{Dict, lookup, insert, delete}
use dns_server_mandiri.Prelude.Strings.{to_lower, to_upper, with_dot}
use dns_server_mandiri.Prelude.Text.{Text, text, ◌==◌ as text_eq}

pub record Record : Type 0 where
  pub name : Text
  pub rtype : Text
  pub value : Text
  pub ttl : ℕ

pub record LocalRecords : Type 0 where
  pub records : Dict (List Rr)
  pub enabled : Bool

-- The functions of the package `net` on addresses.
pub record NetLib : Type 0 where
  pub to4 : Text → Option Text
  pub to16 : Text → Option Text
  pub print : Text → Text

-- The error of `AddRecord`.
pub data InvalidRecordError : Type 0 where
  invalid_ipv4 invalid_ipv6 unsupported : Text → InvalidRecordError

pub data Added : Type 0 where
  refused : InvalidRecordError → Added
  added : LocalRecords → Added

unfoldable pub rrs_or_nil : Option (List Rr) → List Rr
rrs_or_nil none = []
rrs_or_nil (some rrs) = rrs

-- `len(rrs) == 0`, with or without a key.
unfoldable pub present : Option (List Rr) → Bool
present none = false
present (some []) = false
present (some (_ ∷ _)) = true

-- `strings.Join(parts, " ")`
unfoldable pub join_spaces : List Text → Text
join_spaces [] = []
join_spaces (p ∷ []) = p
join_spaces (p ∷ q ∷ ps) = p ++ (text " " ++ join_spaces (q ∷ ps))

module _ (lib : DnsLib) (net : NetLib) where
  -- The name under which a record is stored.
  unfoldable pub record_name : Text → Text
  record_name name = with_dot (lib.canonical_name (to_lower name))

  unfoldable pub record_key : Text → Text → Text
  record_key name rtype = record_name name ++ (text "/" ++ to_upper rtype)

  unfoldable pub header : Text → ℕ → ℕ → Header
  header name rrtype ttl = record { name = name; rrtype = rrtype; class = class_inet; ttl = ttl }

  -- The switch of `AddRecord` over the type in upper case; an error is that of its case.
  unfoldable pub address_rr :
      (Text → Rdata)
      → (Text → InvalidRecordError)
      → Header
      → Text
      → Option Text
      → InvalidRecordError ⊎ Rr
  address_rr rdata error hdr value none = inl (error value)
  address_rr rdata error hdr value (some ip) = inr (record { hdr = hdr; rdata = rdata ip })

  unfoldable pub make_rr : Text → Text → Record → ℕ → InvalidRecordError ⊎ Rr
  make_rr rtype name r ttl =
      if text_eq rtype (text "A")
      then address_rr a invalid_ipv4 (header name type_a ttl) r.value (net.to4 r.value)
      else if text_eq rtype (text "AAAA")
      then address_rr aaaa invalid_ipv6 (header name type_aaaa ttl) r.value (net.to16 r.value)
      else if text_eq rtype (text "CNAME")
      then inr (record {
        hdr = header name type_cname ttl;
        rdata = cname (with_dot (lib.canonical_name r.value));
      })
      else if text_eq rtype (text "TXT")
      then inr (record { hdr = header name type_txt ttl; rdata = txt (r.value ∷ []) })
      else if text_eq rtype (text "MX")
      then inr
          (record { hdr = header name type_mx ttl; rdata = mx 10 (lib.canonical_name r.value) })
      else inl (unsupported r.rtype)

  unfoldable pub append_rr : Text → Rr → LocalRecords → LocalRecords
  append_rr key rr lr = record lr {
    records = insert key (rrs_or_nil (lookup key lr.records) ++ (rr ∷ [])) lr.records;
  }

  unfoldable pub add_record : Record → LocalRecords → Added
  add_record r lr =
      let ttl = if r.ttl == 0 then 300 else r.ttl in
      elim (make_rr (to_upper r.rtype) (record_name r.name) r ttl) [
        | inl error ↦ refused error
        | inr rr ↦ added (append_rr (record_key r.name r.rtype) rr lr)
      ]

  -- `New` ignores the errors of `AddRecord`.
  abbrev pub state_of : LocalRecords → Added → LocalRecords
  state_of lr (refused _) = lr
  state_of lr (added lr') = lr'

  unfoldable pub add_all : List Record → LocalRecords → LocalRecords
  add_all [] lr = lr
  add_all (r ∷ rs) lr = add_all rs (state_of lr (add_record r lr))

  unfoldable pub init : Bool → List Record → LocalRecords
  init enabled rs = add_all rs (record { records = []; enabled = enabled })

  unfoldable pub remove_record : Text → Text → LocalRecords → LocalRecords
  remove_record name rtype lr = record lr { records = delete (record_key name rtype) lr.records }

  -- The records that `Lookup` answers with.
  unfoldable pub find : Text → ℕ → LocalRecords → Option (List Rr)
  find name qtype lr =
      let found = lookup (name ++ (text "/" ++ lib.type_to_string qtype)) lr.records in
      let alias = lookup (name ++ text "/CNAME") lr.records in
      if present found
      then found
      else if qtype == type_a || qtype == type_aaaa
      then (elim alias [ some rrs ↦ some rrs | none ↦ found ])
      else found

  unfoldable pub lookup_records : Msg → Text → ℕ → LocalRecords → Option Msg
  lookup_records blank name qtype lr =
      let found = find (lib.canonical_name name) qtype lr in
      if lr.enabled
      then (elim found [
        | none ↦ none
        | some rrs ↦
            some (record blank { authoritative = true; recursion_available = true; answer = rrs })
      ])
      else none

  -- `GetAllRecords`
  unfoldable pub value_of : Rdata → Text
  value_of (a ip) = net.print ip
  value_of (aaaa ip) = net.print ip
  value_of (cname target) = target
  value_of (txt parts) = join_spaces parts
  value_of (mx preference host) = host
  value_of (ns host) = []
  value_of other = []

  unfoldable pub record_of : Rr → Record
  record_of rr = record {
    name = rr.hdr.name;
    rtype = lib.type_to_string rr.hdr.rrtype;
    value = value_of rr.rdata;
    ttl = rr.hdr.ttl;
  }

  unfoldable pub get_all_records : Dict (List Rr) → List Record
  get_all_records [] = []
  get_all_records ((key, rrs) ∷ rest) = map record_of rrs ++ get_all_records rest
