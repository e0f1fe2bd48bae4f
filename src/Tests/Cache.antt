-- ===== src/Tests/Cache.antt =====
-- The cache at concrete inputs.
use dns_server_mandiri.Cache.Branches.{fresh}
use dns_server_mandiri.Cache.Evict.{IsValid}
use dns_server_mandiri.Cache.Order.{TakesOldest, evict_oldest-TakesOldest}
use dns_server_mandiri.Cache.Reads.{get-set, get-get}
use dns_server_mandiri.Cache.Size.{init-IsValid, set-IsValid}
use dns_server_mandiri.Cache.Sweep.{if_live, cleanup_lem}
use dns_server_mandiri.Cache.Ttl.{extract_ttl-All, set_lifetime-max_ttl, seconds_left-All}
use dns_server_mandiri.Cache.{
  Cache, init, get, set, is_expired, should_prefetch, evict_oldest, cleanup, seconds_left, aged,
  set_lifetime, extract_ttl, is_negative, cache_key, min_ttl_of,
}
use dns_server_mandiri.Prelude.Dict.{lookup, insert}
use dns_server_mandiri.Prelude.Text.{Text, ◌==◌}
use dns_server_mandiri.Prelude.Strings.{to_lower, with_dot, ends_with_dot}
use dns_server_mandiri.Prelude.{
  ◌+◌, ◌*◌, ◌%◌, ◌^◌, ◌≤◌, ◌≡◌, refl, false, none, some, arith, All, length, ltb, if◌then◌else◌,
  second,
}
use dns_server_mandiri.Tests.Data.{lib, host, reply}

-- Room for one entry; lifetimes from 30 seconds to a day.
abbrev small : Cache
small = init 1 (30 * second) (86400 * second) (300 * second) 100_000

abbrev hourly : Cache
hourly = init 1 (30 * second) (3600 * second) (300 * second) 100_000

small-IsValid : IsValid small
small-IsValid = init-IsValid 1 (30 * second) (86400 * second) (300 * second) 100_000 (omega arith)

abbrev pub one : Cache
one = set lib host 1 1 (some reply) (λ k. 0) 0 0 small

pub one-IsValid : IsValid one
one-IsValid = set-IsValid lib host 1 1 (some reply) (λ k. 0) 0 0 small small-IsValid

set-IsValid_example : IsValid (set lib host 28 1 (some reply) (λ k. 5) 5 5 one)
set-IsValid_example = set-IsValid lib host 28 1 (some reply) (λ k. 5) 5 5 one one-IsValid

evict_oldest-TakesOldest_example : TakesOldest (λ k. 5) one (evict_oldest (λ k. 5) one)
evict_oldest-TakesOldest_example = evict_oldest-TakesOldest (λ k. 5) one one-IsValid

get-set_example : (get lib host 1 1 5 5 5 one).1 ≡ (
    if ltb (0 + set_lifetime small reply) 5
    then none
    else some (
      aged (seconds_left 5 (fresh small reply 0 0)) reply,
      should_prefetch 5 small.prefetch_ratio (fresh small reply 0 0),
    ))
get-set_example = get-set lib host 1 1 5 5 5 small reply (λ k. 0) 0 0

get-get_example :
    (get lib host 1 1 9 9 9 (get lib host 28 1 5 5 5 one).0).1 ≡ (get lib host 1 1 9 9 9 one).1
get-get_example = get-get lib host 28 1 5 5 5 host 1 1 9 9 9 one (omega arith)

cleanup_lem_example :
    ((j : Text) → lookup j (cleanup (λ k. 5) one).entries ≡ if_live 5 (lookup j one.entries))
    × (((cleanup (λ k. 5) one).evictions + length (cleanup (λ k. 5) one).entries) % 2 ^ 64
        ≡ (one.evictions + length one.entries) % 2 ^ 64)
cleanup_lem_example = cleanup_lem (λ k. 5) one one-IsValid.distinct

extract_ttl-All_example :
    All (λ rr. extract_ttl reply ≤ rr.hdr.ttl * second) reply.answer
    × All (λ rr. extract_ttl reply ≤ rr.hdr.ttl * second) reply.ns
extract_ttl-All_example = extract_ttl-All reply (omega arith, tt) tt

reply-positive : is_negative reply ≡ false
unfolding is_negative
reply-positive = refl

small_limits : small.min_ttl ≤ small.max_ttl
unfolding init
small_limits = omega arith

set_lifetime-max_ttl_example :
    set_lifetime (record hourly { max_ttl = 86400 * second }) reply ≡ set_lifetime hourly reply
unfolding init
set_lifetime-max_ttl_example =
    set_lifetime-max_ttl hourly reply (86400 * second) (omega arith) (omega arith)

reply_above_min : small.min_ttl ≤ extract_ttl reply
unfolding init extract_ttl min_ttl_of
reply_above_min = omega arith

seconds_left-All_example :
    All (λ rr. seconds_left 7 (fresh small reply 0 0) ≤ rr.hdr.ttl) reply.answer
    × All (λ rr. seconds_left 7 (fresh small reply 0 0) ≤ rr.hdr.ttl) reply.ns
seconds_left-All_example =
    seconds_left-All small reply 0 0 7 reply-positive reply_above_min (omega arith, tt) tt
      (omega arith)

-- The cached answer is handed out with what is left of its minute.
get-aged :
    (get lib host 1 1 (7 * second) (7 * second) (7 * second) one).1 ≡ some (aged 53 reply, false)
unfolding get set init cache_key lookup insert is_expired seconds_left set_lifetime extract_ttl
    min_ttl_of should_prefetch to_lower with_dot ends_with_dot ◌==◌
get-aged = refl
