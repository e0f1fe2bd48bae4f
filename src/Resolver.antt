-- ===== src/Resolver.antt =====
-- internal/resolver: iterative resolution from the root servers. The network, the shuffle and the
-- context are parameters, as functions of how many steps came before; so is the clock. Requests in
-- flight are not shared here: a request that waits for another gets a copy of its result.
pub mod Steps
pub mod Replies
pub mod Cached
pub mod Keeps
use dns_server_mandiri.Cache.{Cache}
use dns_server_mandiri.Dns.{Msg, Rr, Rdata, DnsLib, a, aaaa, cname, ns, txt, mx, other, type_opt}
use dns_server_mandiri.Prelude.{
  ℕ, Bool, true, false, Option, none, some, List, [], ◌∷◌, ◌++◌, ◌==◌, if◌then◌else◌, map,
}
use dns_server_mandiri.Prelude.Dict.{Dict, lookup, insert}
use dns_server_mandiri.Prelude.Text.{Text, text, ◌==◌ as text_eq}

pub record ResolverConfig : Type 0 where
  pub max_depth : ℕ
  pub max_cname_chain : ℕ
  pub retries : ℕ

-- What the resolver sees of the outside at a step: the two clients (nothing is an error), the
-- context, the shuffle and the clock; and the printers of addresses.
pub record World : Type 0 where
  pub udp : ℕ → Text → Msg → Option Msg
  pub tcp : ℕ → Text → Msg → Option Msg
  pub done : ℕ → Bool
  pub shuffle : ℕ → List Text → List Text
  pub clock : ℕ → ℕ
  pub print : Text → Text
  pub join_host_port : Text → Text → Text

-- The cache and the number of steps.
pub record Run : Type 0 where
  pub cache : Cache
  pub step : ℕ

pub data Error : Type 0 where
  depth_exceeded cancelled servers_failed loop_exhausted chain_too_long : Error

-- `out_of_fuel` is no outcome of the code.
pub data Outcome : Type 0 where
  reply : Msg → Outcome
  failed : Error → Outcome
  out_of_fuel : Outcome

-- The addresses of the root servers.
unfoldable pub root_servers : List Text
root_servers =
    text "198.41.0.4"
    ∷ text "170.247.170.2"
    ∷ text "192.33.4.12"
    ∷ text "199.7.91.13"
    ∷ text "192.203.230.10"
    ∷ text "192.5.5.241"
    ∷ text "192.112.36.4"
    ∷ text "198.97.190.53"
    ∷ text "192.36.148.17"
    ∷ text "192.58.128.30"
    ∷ text "193.0.14.129"
    ∷ text "199.7.83.42"
    ∷ text "202.12.27.33"
    ∷ []

-- The record as the type switches of the code see it.
abbrev pub cname_target : Rdata → Option Text
cname_target (cname target) = some target
cname_target (a _) = none
cname_target (aaaa _) = none
cname_target (ns _) = none
cname_target (txt _) = none
cname_target (mx _ _) = none
cname_target other = none

abbrev pub ns_name : Rdata → Option Text
ns_name (ns host) = some host
ns_name (a _) = none
ns_name (aaaa _) = none
ns_name (cname _) = none
ns_name (txt _) = none
ns_name (mx _ _) = none
ns_name other = none

abbrev pub ipv4 : Rdata → Option Text
ipv4 (a ip) = some ip
ipv4 (aaaa _) = none
ipv4 (cname _) = none
ipv4 (ns _) = none
ipv4 (txt _) = none
ipv4 (mx _ _) = none
ipv4 other = none

abbrev pub address : Rdata → Option Text
address (a ip) = some ip
address (aaaa ip) = some ip
address (cname _) = none
address (ns _) = none
address (txt _) = none
address (mx _ _) = none
address other = none

abbrev pub is_cname : Rr → Bool
is_cname rr = elim (cname_target rr.rdata) [ some _ ↦ true | none ↦ false ]

unfoldable pub cname_records : List Rr → List Rr
cname_records [] = []
cname_records (rr ∷ rrs) = let rest = cname_records rrs in if is_cname rr then rr ∷ rest else rest

-- `extractReferral`: the names of the servers, and the addresses of A records in an answer.
unfoldable pub ns_names : List Rr → List Text
ns_names [] = []
ns_names (rr ∷ rrs) =
    let rest = ns_names rrs in elim (ns_name rr.rdata) [ some host ↦ host ∷ rest | none ↦ rest ]

unfoldable pub addresses_of : (Text → Text) → List Rr → List Text
addresses_of print [] = []
addresses_of print (rr ∷ rrs) =
    let rest = addresses_of print rrs in
    elim (ipv4 rr.rdata) [ some ip ↦ print ip ∷ rest | none ↦ rest ]

abbrev pub or_nil : Option (List Text) → List Text
or_nil none = []
or_nil (some ips) = ips

unfoldable pub drop_opt : List Rr → List Rr
drop_opt [] = []
drop_opt (rr ∷ rrs) =
    let rest = drop_opt rrs in if rr.hdr.rrtype == type_opt then rest else rr ∷ rest

module _ (lib : DnsLib) (blank : Msg) where
  unfoldable pub new_root_query : Text → ℕ → Msg
  new_root_query name qtype = record (lib.set_question blank (lib.fqdn name) qtype) {
    recursion_desired = false;
  }

  unfoldable pub build_response : Text → ℕ → Msg → Msg
  build_response name qtype resp = record (lib.set_reply blank (new_root_query name qtype)) {
    recursion_available = true;
    authoritative = false;
    rcode = resp.rcode;
    answer = resp.answer;
    ns = resp.ns;
    extra = drop_opt resp.extra;
  }

  -- `extractCNAME`; the empty text is that no alias was found.
  unfoldable pub extract_cname : List Rr → Text → Text
  extract_cname [] name = []
  extract_cname (rr ∷ rrs) name =
      let rest = extract_cname rrs name in
      elim (cname_target rr.rdata) [
        | none ↦ rest
        | some target ↦
            if text_eq (lib.canonical_name rr.hdr.name) (lib.canonical_name name)
            then target
            else rest
      ]

  -- The response of `followCNAME` once the alias is resolved.
  unfoldable pub chain_response : Text → ℕ → Msg → Msg → Msg
  chain_response name qtype resp target = record (lib.set_reply blank (new_root_query name qtype)) {
    authoritative = false;
    recursion_available = true;
    rcode = target.rcode;
    answer = cname_records resp.answer ++ target.answer;
    ns = target.ns;
    extra = target.extra;
  }

  -- The glue of `extractReferral`: from names to addresses, and those of the listed servers.
  unfoldable pub glue_map : (Text → Text) → List Rr → Dict (List Text) → Dict (List Text)
  glue_map print [] glue = glue
  glue_map print (rr ∷ rrs) glue =
      let name = lib.canonical_name rr.hdr.name in
      glue_map print rrs (elim (address rr.rdata) [
        | none ↦ glue
        | some ip ↦ insert name (or_nil (lookup name glue) ++ (print ip ∷ [])) glue
      ])

  unfoldable pub glue_ips : Dict (List Text) → List Text → List Text
  glue_ips glue [] = []
  glue_ips glue (host ∷ hosts) =
      or_nil (lookup (lib.canonical_name host) glue) ++ glue_ips glue hosts
