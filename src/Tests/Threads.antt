-- ===== src/Tests/Threads.antt =====
-- Goroutines at a cache with one entry, of one minute.
use dns_server_mandiri.Cache.Branches.{fresh}
use dns_server_mandiri.Cache.Evict.{IsValid}
use dns_server_mandiri.Cache.Interleavings.{reach-IsValid}
use dns_server_mandiri.Cache.Races.{live_entry, call_ends, get_alone, stale-loses}
use dns_server_mandiri.Cache.Threads.{Shared, Pc, Move, System, Step, Reach, put, drop_stale, at_pc}
use dns_server_mandiri.Cache.{get, cache_key, is_expired}
use dns_server_mandiri.Prelude.Dict.{lookup}
use dns_server_mandiri.Prelude.{◌≡◌, refl, false, some, none, arith, second, ◌*◌}
use dns_server_mandiri.Tests.Cache.{one, one-IsValid}
use dns_server_mandiri.Tests.Data.{lib, host, reply}

abbrev resting : System
resting = record {
  clock = 5;
  shared = record { cache = one; owner = λ k. 0; next = 1 };
  pc = λ i. Pc.idle;
}

-- The second goroutine has stored another reply.
abbrev stored : System
stored = record {
  clock = 5;
  shared = put lib host 28 1 reply 5 resting.shared;
  pc = at_pc resting.pc 1 Pc.idle;
}

reach-IsValid_example : IsValid stored.shared.cache
reach-IsValid_example =
    reach-IsValid lib resting stored
      (Reach.later Reach.here (Step.turn 1 (Move.write host 28 1 reply))) one-IsValid

-- The call of one goroutine alone, and the answer that it comes to.
get_alone_example :
    let (u, (o, run)) = call_ends lib 5 (cache_key lib host 1 1) resting.shared in
    (u.cache ≡ (get lib host 1 1 5 5 5 one).0)
    × (o ≡ live_entry 5 (lookup (cache_key lib host 1 1) one.entries))
get_alone_example =
    let (u, (o, run)) = call_ends lib 5 (cache_key lib host 1 1) resting.shared in
    get_alone lib 5 host 1 1 resting.shared u o run

-- The first goroutine found the entry expired, a day later.
abbrev late : System
late = record {
  clock = 86400 * second;
  shared = resting.shared;
  pc = at_pc resting.pc 0 (Pc.stale (cache_key lib host 1 1));
}

abbrev lost : Shared
lost = drop_stale (cache_key lib host 1 1) (put lib host 1 1 reply (86400 * second) resting.shared)

stale-loses_example :
    let k = cache_key lib host 1 1 in
    let e = fresh one reply (86400 * second) (86400 * second) in
    let t : System = record {
      clock = 86400 * second;
      shared = put lib host 1 1 reply (86400 * second) resting.shared;
      pc = at_pc late.pc 1 Pc.idle;
    } in
    Step lib late t
    × ((lookup k t.shared.cache.entries ≡ some e)
        × ((is_expired (86400 * second) e ≡ false)
            × ((lookup k lost.cache.entries ≡ none) × (Pc.answered none ≡ Pc.answered none))))
stale-loses_example =
    stale-loses lib host 1 1 reply late 0 1 lost (Pc.answered none) refl refl (λ e. ground arith)
      (Move.drop (cache_key lib host 1 1))
