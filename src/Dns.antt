-- ===== src/Dns.antt =====
-- What the program uses of the package github.com/miekg/dns, which is not in the repository:
-- the public fields of its message and record types, the numbers of the DNS registries, and its
-- functions as the record `DnsLib`, a parameter of the modules that call them. `DnsLaws` holds the
-- documented behaviour that some theorems rely on.
use dns_server_mandiri.Prelude.{ℕ, Bool, true, Option, List, ◌≡◌}
use dns_server_mandiri.Prelude.Strings.{to_lower, ends_with_dot}
use dns_server_mandiri.Prelude.Text.{Text}

pub record Header : Type 0 where
  pub name : Text
  pub rrtype : ℕ
  pub class : ℕ
  pub ttl : ℕ

-- The kinds of record that the program tells apart. An address is its bytes.
pub data Rdata : Type 0 where
  a : Text → Rdata
  aaaa : Text → Rdata
  cname : Text → Rdata
  ns : Text → Rdata
  txt : List Text → Rdata
  mx : ℕ → Text → Rdata
  other : Rdata

pub record Rr : Type 0 where
  pub hdr : Header
  pub rdata : Rdata

pub record Question : Type 0 where
  pub name : Text
  pub qtype : ℕ
  pub qclass : ℕ

pub record Msg : Type 0 where
  pub id : ℕ
  pub response : Bool
  pub authoritative : Bool
  pub truncated : Bool
  pub recursion_desired : Bool
  pub recursion_available : Bool
  pub compress : Bool
  pub rcode : ℕ
  pub question : List Question
  pub answer : List Rr
  pub ns : List Rr
  pub extra : List Rr

abbrev pub type_a : ℕ
type_a = 1

abbrev pub type_cname : ℕ
type_cname = 5

abbrev pub type_mx : ℕ
type_mx = 15

abbrev pub type_txt : ℕ
type_txt = 16

abbrev pub type_aaaa : ℕ
type_aaaa = 28

abbrev pub type_opt : ℕ
type_opt = 41

abbrev pub class_inet : ℕ
class_inet = 1

abbrev pub rcode_success : ℕ
rcode_success = 0

abbrev pub rcode_format_error : ℕ
rcode_format_error = 1

abbrev pub rcode_server_failure : ℕ
rcode_server_failure = 2

abbrev pub rcode_name_error : ℕ
rcode_name_error = 3

abbrev pub rcode_refused : ℕ
rcode_refused = 5

pub record DnsLib : Type 0 where
  pub canonical_name : Text → Text
  pub fqdn : Text → Text
  pub type_to_string : ℕ → Text
  pub class_to_string : ℕ → Text
  pub rcode_to_string : ℕ → Text
  -- `reply.SetReply(request)` and `reply.SetRcode(request, rcode)`
  pub set_reply : Msg → Msg → Msg
  pub set_rcode : Msg → Msg → ℕ → Msg
  -- `msg.SetQuestion(name, qtype)`
  pub set_question : Msg → Text → ℕ → Msg
  pub pack : Msg → Option Text
  pub unpack : Text → Option Msg

-- What the documentation of the package says of the form of names and of the tables of names.
pub record DnsLaws (lib : DnsLib) : Type 0 where
  pub canonical-to_lower : (s : Text) → lib.canonical_name (to_lower s) ≡ lib.canonical_name s
  pub canonical_dot : (s : Text) → ends_with_dot (lib.canonical_name s) ≡ true
  pub set_reply_rcode : (reply request : Msg) → (lib.set_reply reply request).rcode ≡ rcode_success
  pub set_rcode_rcode : (reply request : Msg) (n : ℕ) → (lib.set_rcode reply request n).rcode ≡ n
