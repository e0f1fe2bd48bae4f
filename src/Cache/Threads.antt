-- ===== src/Cache/Threads.antt =====
-- `Get` by several goroutines at once. `Get` takes the lock twice: to read the entry, and to delete
-- it or to count the hit; between the two other goroutines may run. `Set` and `cleanup` hold the
-- lock from beginning to end. Entries are shared by pointer: `owner` tells which object stands
-- under a key, so that a hit on an entry that was replaced does not show. The goroutines share one
-- clock, which never goes back and stands still during a step.
use dns_server_mandiri.Cache.{Entry, Cache, is_expired, cache_key, set as set_entry, cleanup}
use dns_server_mandiri.Dns.{Msg, DnsLib}
use dns_server_mandiri.Prelude.Dict.{lookup, insert, delete}
use dns_server_mandiri.Prelude.Text.{Text, ◌==◌ as text_eq}
use dns_server_mandiri.Prelude.{
  ℕ, ◌+◌, ◌≤◌, ◌≡◌, true, false, Option, none, some, ◌==◌, if◌then◌else◌, add64,
}

pub record Shared : Type 0 where
  pub cache : Cache
  pub owner : Text → ℕ
  pub next : ℕ

-- Where a goroutine is in its call of `Get`: the key that it asks for, then the entry that it read,
-- with its object.
pub data Pc : Type 0 where
  idle : Pc
  asked : Text → Pc
  found : Text → Entry → ℕ → Pc
  stale : Text → Pc
  live : Text → Entry → ℕ → Pc
  answered : Option Entry → Pc

unfoldable pub missed : Cache → Cache
missed c = record c { misses = add64 c.misses 1 }

-- The second critical section, for an expired entry and for a live one.
unfoldable pub drop_stale : Text → Shared → Shared
unfolding missed
drop_stale k s = record s {
  cache = missed (record (s.cache) { entries = delete k s.cache.entries });
}

abbrev pub hit_entry : Entry → Entry
hit_entry e = record e { hit_count = add64 e.hit_count 1 }

unfoldable pub count_hit : Text → ℕ → Shared → Shared
count_hit k object s =
    let counted = record (s.cache) { hits = add64 s.cache.hits 1 } in
    elim (lookup k s.cache.entries) [
      | none ↦ record s { cache = counted }
      | some e ↦
          if s.owner k == object
          then record s {
            cache = record counted { entries = insert k (hit_entry e) s.cache.entries };
          }
          else record s { cache = counted }
    ]

-- `Set` puts a new object under the key.
unfoldable pub put : DnsLib → Text → ℕ → ℕ → Msg → ℕ → Shared → Shared
put lib name qtype qclass m now s = record {
  cache = set_entry lib name qtype qclass (some m) (λ k. now) now now s.cache;
  owner = λ k. if text_eq (cache_key lib name qtype qclass) k then s.next else s.owner k;
  next = s.next + 1;
}

-- A step of one goroutine at the time `now`.
pub data Move (lib : DnsLib) (now : ℕ) (s : Shared) : Pc → Shared → Pc → Type 0 where
  call :
      (name : Text) (qtype qclass : ℕ)
      → Move lib now s idle s (asked (cache_key lib name qtype qclass))
  read_none :
      (k : Text)
      → lookup k s.cache.entries ≡ none
      → Move lib now s (asked k) (record s { cache = missed s.cache }) (answered none)
  read_some :
      (k : Text) (e : Entry)
      → lookup k s.cache.entries ≡ some e
      → Move lib now s (asked k) s (found k e (s.owner k))
  expired :
      (k : Text) (e : Entry) (object : ℕ)
      → is_expired now e ≡ true
      → Move lib now s (found k e object) s (stale k)
  alive :
      (k : Text) (e : Entry) (object : ℕ)
      → is_expired now e ≡ false
      → Move lib now s (found k e object) s (live k e object)
  drop : (k : Text) → Move lib now s (stale k) (drop_stale k s) (answered none)
  hit :
      (k : Text) (e : Entry) (object : ℕ)
      → Move lib now s (live k e object) (count_hit k object s) (answered (some e))
  leave : (o : Option Entry) → Move lib now s (answered o) s idle
  write :
      (name : Text) (qtype qclass : ℕ) (m : Msg)
      → Move lib now s idle (put lib name qtype qclass m now s) idle
  sweep : Move lib now s idle (record s { cache = cleanup (λ k. now) s.cache }) idle

-- Goroutines by number, their steps in any order, and the time that passes between them.
pub record System : Type 0 where
  pub clock : ℕ
  pub shared : Shared
  pub pc : ℕ → Pc

abbrev pub at_pc : (ℕ → Pc) → ℕ → Pc → ℕ → Pc
at_pc pc i p j = if i == j then p else pc j

pub data Step (lib : DnsLib) (s : System) : System → Type 0 where
  turn :
      (i : ℕ) {m : Shared} {p : Pc}
      → Move lib s.clock s.shared (s.pc i) m p
      → Step lib s (record { clock = s.clock; shared = m; pc = at_pc s.pc i p })
  tick : (now : ℕ) → s.clock ≤ now → Step lib s (record s { clock = now })

pub data Reach (lib : DnsLib) (begin : System) : System → Type 0 where
  here : Reach lib begin begin
  later : {s t : System} → Reach lib begin s → Step lib s t → Reach lib begin t
