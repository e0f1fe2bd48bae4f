-- ===== src/Tests/Resolver.antt =====
-- The resolver at concrete inputs.
use dns_server_mandiri.Cache.Branches.{fresh}
use dns_server_mandiri.Cache.{
  init, get, aged, seconds_left, set_lifetime, extract_ttl, min_ttl_of, is_negative,
}
use dns_server_mandiri.Dns.{Msg}
use dns_server_mandiri.Prelude.Dict.{lookup}
use dns_server_mandiri.Prelude.{
  ◌+◌, ◌*◌, ◌≤◌, ◌≡◌, refl, true, false, none, some, ◌++◌, arith, second,
}
use dns_server_mandiri.Resolver.Cached.{fetched, resolve-resolve}
use dns_server_mandiri.Resolver.Replies.{
  NotServfail, Ended, resolve_iterative-NotServfail, resolve_iterative-Ended,
}
use dns_server_mandiri.Resolver.Steps.{
  exchange, retry_loop, servers_loop, query_nameservers, cache_get, use_response, iterate,
  resolve_level, resolve_iterative, resolve,
}
use dns_server_mandiri.Resolver.{ResolverConfig, World, Run, reply, root_servers, build_response}
use dns_server_mandiri.Tests.Data.{lib, blank, host, reply as answer}

abbrev pub cfg : ResolverConfig
cfg = record { max_depth = 3; max_cname_chain = 2; retries = 1 }

-- Every server answers with authority; a step takes a second.
abbrev pub answers : World
answers = record {
  udp = λ n addr m. some (record answer { authoritative = true });
  tcp = λ n addr m. none;
  done = λ n. false;
  shuffle = λ n servers. servers;
  clock = λ n. n * second;
  print = λ ip. ip;
  join_host_port = λ h p. h ++ p;
}

abbrev pub begin : Run
begin = record { cache = init 10 (30 * second) (86400 * second) (300 * second) 100_000; step = 0 }

resolve_iterative-NotServfail_example :
    NotServfail lib cfg answers blank (resolve_iterative lib cfg answers blank 5 host 1 1 0 begin).1
resolve_iterative-NotServfail_example =
    resolve_iterative-NotServfail lib cfg answers blank 5 host 1 1 0 begin

resolve_iterative-Ended_example :
    Ended lib cfg answers blank (resolve_iterative lib cfg answers blank 5 host 1 1 0 begin).1
resolve_iterative-Ended_example =
    resolve_iterative-Ended lib cfg answers blank 5 host 1 1 0 begin (omega arith) (omega arith)

-- The reply to the first question.
abbrev first : Msg
first = build_response lib blank (lib.fqdn host) 1 (record answer { authoritative = true })

missed : (cache_get lib cfg answers blank (lib.fqdn host) 1 1 begin).1 ≡ none
unfolding cache_get get lookup init
missed = refl

got : (fetched lib cfg answers blank host 1 1 begin).1 ≡ reply first
unfolding resolve_iterative resolve_level iterate query_nameservers servers_loop retry_loop exchange
    use_response cache_get root_servers
got = refl

steps : (fetched lib cfg answers blank host 1 1 begin).0.step ≡ 2
unfolding resolve_iterative resolve_level iterate query_nameservers servers_loop retry_loop exchange
    use_response cache_get root_servers get lookup init
steps = refl

long : set_lifetime (fetched lib cfg answers blank host 1 1 begin).0.cache first ≡ 60 * second
unfolding resolve_iterative resolve_level iterate query_nameservers servers_loop retry_loop exchange
    use_response cache_get root_servers get lookup init set_lifetime extract_ttl min_ttl_of
    is_negative build_response
long = refl

early :
    answers.clock ((fetched lib cfg answers blank host 1 1 begin).0.step + 1)
    ≤ answers.clock (fetched lib cfg answers blank host 1 1 begin).0.step
      + set_lifetime (fetched lib cfg answers blank host 1 1 begin).0.cache first
early = omega (arith, steps, long)

resolve-resolve_example :
    ((resolve lib cfg answers blank host 1 1 (resolve lib cfg answers blank host 1 1 begin).0).1
      ≡ reply (
          aged
            (seconds_left
              (answers.clock ((fetched lib cfg answers blank host 1 1 begin).0.step + 1))
              (fresh
                (fetched lib cfg answers blank host 1 1 begin).0.cache
                first
                (answers.clock (fetched lib cfg answers blank host 1 1 begin).0.step)
                (answers.clock (fetched lib cfg answers blank host 1 1 begin).0.step)))
            first))
    × ((resolve lib cfg answers blank host 1 1 (resolve lib cfg answers blank host 1 1 begin).0).2
        ≡ true)
resolve-resolve_example =
    resolve-resolve lib cfg answers blank host 1 1 begin first missed got early
