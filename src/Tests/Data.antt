-- ===== src/Tests/Data.antt =====
-- Messages and a library of names for the tests.
use dns_server_mandiri.Dns.{Msg, Rr, DnsLib, a, type_a, class_inet}
use dns_server_mandiri.Prelude.Strings.{to_lower, with_dot}
use dns_server_mandiri.Prelude.Text.{Text, text}
use dns_server_mandiri.Prelude.{ℕ, true, false, none, [], ◌∷◌, ◌==◌, if◌then◌else◌}

abbrev pub blank : Msg
blank = record {
  id = 0;
  response = false;
  authoritative = false;
  truncated = false;
  recursion_desired = false;
  recursion_available = false;
  compress = false;
  rcode = 0;
  question = [];
  answer = [];
  ns = [];
  extra = [];
}

-- A library with names in lower case, fully qualified, and types as one byte.
abbrev pub lib : DnsLib
lib = record {
  canonical_name = λ s. to_lower (with_dot s);
  fqdn = λ s. with_dot s;
  type_to_string = λ q. if q == 1 then text "A" else q ∷ [];
  class_to_string = λ q. q ∷ [];
  rcode_to_string = λ q. q ∷ [];
  set_reply = λ m r. record m { id = r.id; response = true; rcode = 0; question = r.question };
  set_rcode = λ m r c. record m { id = r.id; response = true; rcode = c; question = r.question };
  set_question =
      λ m n q. record m { question = record { name = n; qtype = q; qclass = class_inet } ∷ [] };
  pack = λ m. none;
  unpack = λ bytes. none;
}

abbrev pub host : Text
host = text "example.com"

abbrev pub address : ℕ → Rr
address ttl = record {
  hdr = record { name = text "example.com."; rrtype = type_a; class = class_inet; ttl = ttl };
  rdata = a (93 ∷ 184 ∷ 216 ∷ 34 ∷ []);
}

-- An answer with the TTL of one minute.
abbrev pub reply : Msg
reply = record blank { rcode = 0; answer = address 60 ∷ [] }
