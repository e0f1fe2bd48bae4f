-- ===== src/Cache.antt =====
-- internal/cache/cache.go: the response cache. Times and durations are nanoseconds; an operation
-- takes what its readings of the clock return. Locks do not show: an operation is one step.
-- `prefetch_ratio` is the ratio in millionths.
pub mod Evict
pub mod Order
pub mod Branches
pub mod Size
pub mod Sweep
pub mod Ttl
pub mod Reads
pub mod Export
pub mod Threads
pub mod Interleavings
pub mod Races
use dns_server_mandiri.Dns.{Msg, Rr, DnsLib, type_opt, rcode_success, rcode_name_error}
use dns_server_mandiri.Prelude.{
  ℕ, ◌+◌, ◌-◌, ◌*◌, ◌/◌, ◌%◌, ◌^◌, Bool, true, false, not, ◌&&◌, ◌||◌, Option, none, some, List, [],
  ◌∷◌, ◌++◌, map, ltb, leb, ◌==◌, if◌then◌else◌, length, add64, second,
}
use dns_server_mandiri.Prelude.Dict.{Dict, lookup, insert, delete}
use dns_server_mandiri.Prelude.Text.{Text, text, is_empty}

pub record Entry : Type 0 where
  pub msg : Msg
  pub created_at : ℕ
  pub expires_at : ℕ
  pub ttl : ℕ
  pub hit_count : ℕ
  pub negative : Bool

pub record Cache : Type 0 where
  pub entries : Dict Entry
  pub max_size : ℕ
  pub min_ttl : ℕ
  pub max_ttl : ℕ
  pub negative_ttl : ℕ
  pub prefetch_ratio : ℕ
  pub hits : ℕ
  pub misses : ℕ
  pub evictions : ℕ

abbrev pub ratio_unit : ℕ
ratio_unit = 1_000_000

unfoldable pub is_expired : ℕ → Entry → Bool
is_expired now e = ltb e.expires_at now

-- `-` stops at 0, as the code's test of a negative remainder does.
unfoldable pub remaining_ttl : ℕ → Entry → ℕ
remaining_ttl now e = e.expires_at - now

unfoldable pub should_prefetch : ℕ → ℕ → Entry → Bool
should_prefetch now ratio e = ltb (e.ttl * (ratio_unit - ratio) / ratio_unit) (now - e.created_at)

-- `New`
unfoldable pub init : ℕ → ℕ → ℕ → ℕ → ℕ → Cache
init max_size min_ttl max_ttl negative_ttl ratio = record {
  entries = [];
  max_size = max_size;
  min_ttl = min_ttl;
  max_ttl = max_ttl;
  negative_ttl = negative_ttl;
  prefetch_ratio = ratio;
  hits = 0;
  misses = 0;
  evictions = 0;
}

unfoldable pub set_ttl : ℕ → Rr → Rr
set_ttl ttl rr = record rr { hdr = record (rr.hdr) { ttl = ttl } }

unfoldable pub set_ttl_extra : ℕ → Rr → Rr
unfolding set_ttl
set_ttl_extra ttl rr = if rr.hdr.rrtype == type_opt then rr else set_ttl ttl rr

-- The answer that `Get` hands out: a copy with the remaining seconds, at least 1, in every record.
unfoldable pub seconds_left : ℕ → Entry → ℕ
unfolding remaining_ttl
seconds_left now e =
    let remaining = remaining_ttl now e / second % 2 ^ 32 in if remaining == 0 then 1 else remaining

unfoldable pub aged : ℕ → Msg → Msg
aged ttl m = record m {
  answer = map (set_ttl ttl) m.answer;
  ns = map (set_ttl ttl) m.ns;
  extra = map (set_ttl_extra ttl) m.extra;
}

-- `extractTTL`, its loop and its result in nanoseconds.
unfoldable pub min_ttl_of : ℕ → List Rr → ℕ
min_ttl_of low [] = low
min_ttl_of low (rr ∷ rrs) = min_ttl_of (if ltb rr.hdr.ttl low then rr.hdr.ttl else low) rrs

unfoldable pub extract_ttl : Msg → ℕ
extract_ttl m =
    let low = min_ttl_of (min_ttl_of 3600 m.answer) m.ns in (if low == 0 then 30 else low) * second

abbrev pub is_nil {ℓ} : {A : Type ℓ} → List A → Bool
is_nil [] = true
is_nil (x ∷ xs) = false

unfoldable pub is_negative : Msg → Bool
is_negative m = m.rcode == rcode_name_error || (m.rcode == rcode_success && is_nil m.answer)

-- The lifetime that `Set` gives a message.
unfoldable pub set_lifetime : Cache → Msg → ℕ
unfolding is_negative
set_lifetime c m =
    let ttl = extract_ttl m in
    let low = if ltb ttl c.min_ttl then c.min_ttl else ttl in
    let high = if ltb c.max_ttl low then c.max_ttl else low in
    if is_negative m then c.negative_ttl else high

-- The variables of the loop of `evictOldest`.
pub record Scan : Type 0 where
  pub cache : Cache
  pub oldest_key : Text
  pub oldest_time : ℕ
  pub first : Bool

unfoldable pub drop_entry : Text → Cache → Cache
drop_entry k c = record c { entries = delete k c.entries; evictions = add64 c.evictions 1 }

-- What the clock reads when the loop comes to a key.
abbrev pub Clock : Type 0
Clock = Text → ℕ

unfoldable pub evict_visit : Clock → Text → Entry → Scan → Scan
evict_visit clock k e s =
    if is_expired (clock k) e
    then record s { cache = drop_entry k s.cache }
    else if s.first || ltb e.created_at s.oldest_time
    then record s { oldest_key = k; oldest_time = e.created_at; first = false }
    else s

unfoldable pub evict_loop : Clock → Dict Entry → Scan → Scan
evict_loop clock [] s = s
evict_loop clock ((k, e) ∷ rest) s = evict_loop clock rest (evict_visit clock k e s)

-- The part of `evictOldest` after its loop.
unfoldable pub evict_last : Scan → Cache
evict_last s =
    if not (is_empty s.oldest_key) && leb s.cache.max_size (length s.cache.entries)
    then drop_entry s.oldest_key s.cache
    else s.cache

unfoldable pub evict_oldest : Clock → Cache → Cache
evict_oldest clock c = evict_last (
    evict_loop clock c.entries
      (record { cache = c; oldest_key = []; oldest_time = 0; first = true }))

unfoldable pub cleanup_loop : Clock → Dict Entry → Cache → Cache
cleanup_loop clock [] c = c
cleanup_loop clock ((k, e) ∷ rest) c =
    cleanup_loop clock rest (if is_expired (clock k) e then drop_entry k c else c)

unfoldable pub cleanup : Clock → Cache → Cache
cleanup clock c = cleanup_loop clock c.entries c

-- `Stats`
unfoldable pub stats : Cache → ℕ × ℕ × ℕ × ℕ
stats c = (length c.entries, c.hits, c.misses, c.evictions)

module _ (lib : DnsLib) where
  unfoldable pub cache_key : Text → ℕ → ℕ → Text
  cache_key name qtype qclass =
      lib.canonical_name name
      ++ (text "/" ++ (lib.type_to_string qtype ++ (text "/" ++ lib.class_to_string qclass)))

  -- `Get` with its three readings of the clock: in `IsExpired`, `RemainingTTL` and
  -- `ShouldPrefetch`. `none` is `nil, false, false`.
  unfoldable pub get : Text → ℕ → ℕ → (t₁ t₂ t₃ : ℕ) → Cache → Cache × Option (Msg × Bool)
  get name qtype qclass t₁ t₂ t₃ c =
      let key = cache_key name qtype qclass in
      elim (lookup key c.entries) [
        | none ↦ (record c { misses = add64 c.misses 1 }, none)
        | some e ↦
            if is_expired t₁ e
            then (record c { entries = delete key c.entries; misses = add64 c.misses 1 }, none)
            else (
              record c {
                entries = insert key (record e { hit_count = add64 e.hit_count 1 }) c.entries;
                hits = add64 c.hits 1;
              },
              some (aged (seconds_left t₂ e) e.msg, should_prefetch t₃ c.prefetch_ratio e),
            )
      ]

  -- `Set` with its readings of the clock: in the loop of `evictOldest`, for `CreatedAt` and for
  -- `ExpiresAt`.
  unfoldable pub set : Text → ℕ → ℕ → Option Msg → Clock → (t₂ t₃ : ℕ) → Cache → Cache
  set name qtype qclass none clock t₂ t₃ c = c
  set name qtype qclass (some m) clock t₂ t₃ c =
      let ttl = set_lifetime c m in
      let room = if leb c.max_size (length c.entries) then evict_oldest clock c else c in
      record room {
        entries =
            insert (cache_key name qtype qclass)
              (record {
                msg = m;
                created_at = t₂;
                expires_at = t₃ + ttl;
                ttl = ttl;
                hit_count = 0;
                negative = is_negative m;
              })
              room.entries;
      }
