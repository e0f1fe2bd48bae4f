-- ===== src/Cache/Interleavings.antt =====
-- What holds of the cache however the goroutines interleave.
use dns_server_mandiri.Cache.Evict.{IsValid}
use dns_server_mandiri.Cache.Size.{set-IsValid, named-delete, named-insert}
use dns_server_mandiri.Cache.Threads.{
  Shared, Pc, Move, System, Step, Reach, missed, drop_stale, hit_entry, count_hit, put,
}
use dns_server_mandiri.Cache.{Entry, Cache, Clock, is_expired, cleanup, cleanup_loop, drop_entry}
use dns_server_mandiri.Dns.{DnsLib}
use dns_server_mandiri.Prelude.Dict.{
  Dict, lookup, insert, delete, Distinct-delete, Distinct-insert, length-delete-le,
  length-insert_old,
}
use dns_server_mandiri.Prelude.Text.{Text}
use dns_server_mandiri.Prelude.{
  ℕ, ◌≡◌, ◌≢◌, Option, none, some, [], ◌∷◌, ◌==◌, refl, subst, arith, by_if, by_option, add64,
}

-- A deletion keeps the invariant.
deleted :
    (k : Text) (c c' : Cache)
    → IsValid c
    → c'.entries ≡ delete k c.entries
    → c'.max_size ≡ c.max_size
    → IsValid c'
deleted k c c' v e m = record {
  distinct = rw e (Distinct-delete k c.entries v.distinct);
  named = rw e (named-delete k c.entries v.named);
  bounded = rw (e, m) (omega (arith, v.bounded, length-delete-le k c.entries));
  positive = rw m v.positive;
}

cleanup_loop-IsValid :
    (clock : Clock) (m : Dict Entry) (c : Cache) → IsValid c → IsValid (cleanup_loop clock m c)
unfolding cleanup_loop drop_entry
cleanup_loop-IsValid clock [] c v = v
cleanup_loop-IsValid clock ((k, e) ∷ rest) c v =
    cleanup_loop-IsValid clock rest _
      (by_if IsValid (is_expired (clock k) e) _ _ (λ _. deleted k c _ v refl refl) (λ _. v))

hit-IsValid :
    (k : Text) (object : ℕ) (s : Shared) → IsValid s.cache → IsValid (count_hit k object s).cache
unfolding count_hit
hit-IsValid k object s v =
    let P : Shared → Type 0 = λ t. IsValid t.cache in
    by_option P (lookup k s.cache.entries) _ _ (λ _. same)
      (λ e at. by_if P (s.owner k == object) _ _ (λ _. hit e at) (λ _. same))
  where
    same : IsValid (record (s.cache) { hits = add64 s.cache.hits 1 })
    same = record {
      distinct = v.distinct;
      named = v.named;
      bounded = v.bounded;
      positive = v.positive;
    }

    nonempty : (e : Entry) → lookup k s.cache.entries ≡ some e → k ≢ []
    nonempty e at p = absurd (clash (subst (λ j. lookup j s.cache.entries ≡ some e) p at) v.named)
      where
        clash : {o : Option Entry} → o ≡ some e → o ≡ none → ⊥
        clash p q = ground arith

    hit :
        (e : Entry)
        → lookup k s.cache.entries ≡ some e
        → IsValid (record (s.cache) {
          entries = insert k (hit_entry e) s.cache.entries;
          hits = add64 s.cache.hits 1;
        })
    hit e at = record {
      distinct = Distinct-insert k _ s.cache.entries v.distinct;
      named = named-insert k s.cache.entries _ (nonempty e at) v.named;
      bounded = omega (arith, v.bounded, length-insert_old k (hit_entry e) e s.cache.entries at);
      positive = v.positive;
    }

module _ (lib : DnsLib) where
  move-IsValid :
      (now : ℕ) (s : Shared) (p : Pc) (t : Shared) (q : Pc)
      → Move lib now s p t q
      → IsValid s.cache
      → IsValid t.cache
  unfolding missed drop_stale put cleanup
  move-IsValid now s p t q (Move.call name qtype qclass) v = v
  move-IsValid now s p t q (Move.read_none k h) v = record {
    distinct = v.distinct;
    named = v.named;
    bounded = v.bounded;
    positive = v.positive;
  }
  move-IsValid now s p t q (Move.read_some k e h) v = v
  move-IsValid now s p t q (Move.expired k e object h) v = v
  move-IsValid now s p t q (Move.alive k e object h) v = v
  move-IsValid now s p t q (Move.drop k) v = deleted k s.cache _ v refl refl
  move-IsValid now s p t q (Move.hit k e object) v = hit-IsValid k object s v
  move-IsValid now s p t q (Move.leave o) v = v
  move-IsValid now s p t q (Move.write name qtype qclass m) v =
      set-IsValid lib name qtype qclass (some m) (λ k. now) now now s.cache v
  move-IsValid now s p t q Move.sweep v = cleanup_loop-IsValid (λ k. now) s.cache.entries s.cache v

  -- However many goroutines call `Get`, `Set` and `cleanup`, and in whatever order their steps
  -- come, the cache stays within its size, with each key once.
  pub reach-IsValid :
      (begin s : System) → Reach lib begin s → IsValid begin.shared.cache → IsValid s.shared.cache
  reach-IsValid begin s Reach.here v = v
  reach-IsValid begin s (Reach.later r (Step.turn i move)) v =
      move-IsValid _ _ _ _ _ move (reach-IsValid begin _ r v)
  reach-IsValid begin s (Reach.later r (Step.tick now h)) v = reach-IsValid begin _ r v
