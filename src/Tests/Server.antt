-- ===== src/Tests/Server.antt =====
-- The handler at a concrete request.
use dns_server_mandiri.Cache.Size.{init-IsValid}
use dns_server_mandiri.Dns.{Msg, class_inet, rcode_refused}
use dns_server_mandiri.Metrics.Whole.{init-IsWhole}
use dns_server_mandiri.Metrics.{init}
use dns_server_mandiri.Prelude.Text.{text}
use dns_server_mandiri.Prelude.{◌≡◌, refl, none, [], ◌∷◌, arith, if◌then◌else◌, second, ◌*◌}
use dns_server_mandiri.Prelude.Dict.{lookup}
use dns_server_mandiri.Server.Valid.{IsValid, IsRequest}
use dns_server_mandiri.Server.Invariant.{handle_dns-IsValid}
use dns_server_mandiri.Server.Answers.{question_code, code_of, handle_dns_lem}
use dns_server_mandiri.Server.{Server, Moment, Outside, ask_limiter, handle_dns}
use dns_server_mandiri.Tests.Data.{lib, blank, host}
use dns_server_mandiri.Tests.Failover.{two, up}
use dns_server_mandiri.Tests.Filter.{ads}
use dns_server_mandiri.Tests.Localrecords.{laws, net, none_yet}
use dns_server_mandiri.Tests.Resolver.{cfg, answers, begin}

abbrev pub server : Server
server = record {
  limiter = none;
  metrics = init 0;
  filter = ads;
  failover = two;
  local_records = none_yet;
  client_stats = none;
  run = begin;
}

abbrev outside : Outside
outside = record {
  lib = lib;
  net = net;
  resolver = cfg;
  world = answers;
  upstream = up;
  blank = blank;
  block_response = text "nxdomain";
  unknown_rcode = λ n. [];
}

abbrev moment : Moment
moment = record {
  protocol = text "udp";
  client_ip = text "10.0.0.1";
  allowed_at = 0;
  latency = 7;
  logged_at = 8;
  first_seen = 8;
  last_seen = 8;
}

abbrev request : Msg
request = record blank {
  id = 77;
  question = record { name = host; qtype = 1; qclass = class_inet } ∷ [];
}

handle_dns_lem_example : (handle_dns outside moment request server).1.rcode ≡ (
    if (ask_limiter moment server.limiter).1
    then code_of outside request.question (λ q. question_code outside request q server)
    else rcode_refused)
handle_dns_lem_example = handle_dns_lem outside laws moment request server

pub server-IsValid : IsValid 0 server
unfolding lookup
server-IsValid = record {
  cache = init-IsValid 10 (30 * second) (86400 * second) (300 * second) 100_000 (omega arith);
  metrics = init-IsWhole 0;
  blocked = record { distinct = tt; named = refl; bounded = omega arith };
  buckets = tt;
  clients = tt;
}

request-IsRequest : IsRequest 0 moment request
request-IsRequest = record {
  client = λ e. ground arith;
  named = (λ e. ground arith, tt);
  first = omega arith;
  last = omega arith;
}

handle_dns-IsValid_example : IsValid 8 (handle_dns outside moment request server).0
handle_dns-IsValid_example =
    handle_dns-IsValid outside laws 0 moment request server request-IsRequest server-IsValid
