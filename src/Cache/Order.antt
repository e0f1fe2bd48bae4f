-- ===== src/Cache/Order.antt =====
-- `evictOldest`: which entries it takes.
use dns_server_mandiri.Cache.Evict.{Keeps, IsValid, Keeps-visit, Keeps-loop, start, start-Keeps}
use dns_server_mandiri.Cache.{
  Entry, Cache, Clock, Scan, is_expired, drop_entry, evict_visit, evict_loop, evict_last,
  evict_oldest,
}
use dns_server_mandiri.Prelude.{
  ◌+◌, ◌≤◌, ◌≡◌, length, refl, true, false, none, some, [], ◌∷◌, arith, Bool-cases, inl, inr, ◌⊎◌,
}
use dns_server_mandiri.Prelude.Dict.{Dict, lookup, Sub-head, lookup-delete, length-delete}
use dns_server_mandiri.Prelude.Text.{Text, eq_iff}

-- Every entry that the loop has passed and kept is alive, and no older than the one remembered;
-- no live entry is lost.
pub record Orders (clock : Clock) (c₀ : Cache) (rest : Dict Entry) (s : Scan) : Type 0 where
  pub passed :
      (k : Text) (e : Entry)
      → lookup k s.cache.entries ≡ some e
      → lookup k rest ≡ none
      → (is_expired (clock k) e ≡ false) × (s.first ≡ false) × (s.oldest_time ≤ e.created_at)
  pub live :
      (k : Text) (e : Entry)
      → lookup k c₀.entries ≡ some e
      → is_expired (clock k) e ≡ false
      → lookup k s.cache.entries ≡ some e

module _ (clock : Clock) (c₀ : Cache) (k : Text) (e : Entry) (rest : Dict Entry) (s : Scan) where
  lookup-visited :
      (j : Text) (w : Entry)
      → lookup k s.cache.entries ≡ some e
      → lookup j s.cache.entries ≡ some w
      → lookup j rest ≡ none
      → (lookup j ((k, e) ∷ rest) ≡ none) ⊎ ((k ≡ j) × (w ≡ e))
  unfolding lookup
  lookup-visited j w here at gone = ground (arith, eq_iff k j)

  Orders-expired :
      lookup k s.cache.entries ≡ some e
      → is_expired (clock k) e ≡ true
      → Orders clock c₀ ((k, e) ∷ rest) s
      → Orders clock c₀ rest (evict_visit clock k e s)
  unfolding evict_visit drop_entry lookup
  Orders-expired here x o = rw x (record {
    passed =
        λ j w at gone. ground (arith, eq_iff k j, lookup-delete k j s.cache.entries, o.passed j w);
    live = λ j w at alive.
        ground (arith, eq_iff k j, lookup-delete k j s.cache.entries, o.live j w at alive);
  })

  Orders-live :
      lookup k s.cache.entries ≡ some e
      → is_expired (clock k) e ≡ false
      → Orders clock c₀ ((k, e) ∷ rest) s
      → Orders clock c₀ rest (evict_visit clock k e s)
  unfolding evict_visit
  Orders-live here x o = record {
    passed = λ j w at gone. ground (arith, o.passed j w, lookup-visited j w here);
    live = λ j w at alive. ground (arith, o.live j w at alive);
  }

  Orders-visit :
      Keeps c₀ ((k, e) ∷ rest) s
      → Orders clock c₀ ((k, e) ∷ rest) s
      → Orders clock c₀ rest (evict_visit clock k e s)
  Orders-visit h o =
      let here = Sub-head k e rest s.cache.entries h.visits in
      elim (Bool-cases (is_expired (clock k) e)) [
        | inl x ↦ Orders-expired here x o
        | inr x ↦ Orders-live here x o
      ]

Orders-loop :
    (clock : Clock) (c₀ : Cache) (rest : Dict Entry) (s : Scan)
    → Keeps c₀ rest s
    → Orders clock c₀ rest s
    → Orders clock c₀ [] (evict_loop clock rest s)
unfolding evict_loop
Orders-loop clock c₀ [] s h o = o
Orders-loop clock c₀ ((k, e) ∷ rest) s h o =
    Orders-loop clock c₀ rest (evict_visit clock k e s) (Keeps-visit clock c₀ k e rest s h)
      (Orders-visit clock c₀ k e rest s h o)

start-Orders : (clock : Clock) (c : Cache) → Orders clock c c.entries (start c)
start-Orders clock c = record { passed = λ k e at gone. cc; live = λ k e at alive. at }

-- What is left after eviction has not expired; at most one live entry was lost, only if the cache
-- was full without the expired ones, and it is at most as young as each entry that is left. An
-- entry is live if it had not expired when the loop came to it.
pub record TakesOldest (clock : Clock) (c c' : Cache) : Type 0 where
  pub alive : (k : Text) (e : Entry) → lookup k c'.entries ≡ some e → is_expired (clock k) e ≡ false
  pub full :
      (k : Text) (e : Entry)
      → lookup k c.entries ≡ some e
      → is_expired (clock k) e ≡ false
      → lookup k c'.entries ≡ none
      → c.max_size ≤ length c'.entries + 1
  pub single :
      (k j : Text) (e w : Entry)
      → lookup k c.entries ≡ some e
      → is_expired (clock k) e ≡ false
      → lookup k c'.entries ≡ none
      → lookup j c.entries ≡ some w
      → is_expired (clock j) w ≡ false
      → lookup j c'.entries ≡ none
      → k ≡ j
  pub oldest :
      (k j : Text) (e w : Entry)
      → lookup k c.entries ≡ some e
      → is_expired (clock k) e ≡ false
      → lookup k c'.entries ≡ none
      → lookup j c'.entries ≡ some w
      → e.created_at ≤ w.created_at

module _ (s : Scan) (k : Text) (e : Entry) where
  last-kept : lookup k (evict_last s).entries ≡ some e → lookup k s.cache.entries ≡ some e
  unfolding evict_last drop_entry
  last-kept at = ground (arith, lookup-delete s.oldest_key k s.cache.entries)

  last-lost :
      lookup k s.cache.entries ≡ some e → lookup k (evict_last s).entries ≡ none → s.oldest_key ≡ k
  unfolding evict_last drop_entry
  last-lost at gone =
      ground (arith, lookup-delete s.oldest_key k s.cache.entries, eq_iff s.oldest_key k)

last-full :
    (c : Cache) (s : Scan) (k : Text) (e : Entry)
    → Keeps c [] s
    → lookup k s.cache.entries ≡ some e
    → lookup k (evict_last s).entries ≡ none
    → c.max_size ≤ length (evict_last s).entries + 1
unfolding evict_last drop_entry
last-full c s k e h mine gone = ground (
  arith,
  h.max_size,
  lookup-delete s.oldest_key k s.cache.entries,
  eq_iff s.oldest_key k,
  length-delete k e s.cache.entries h.distinct mine,
)

last-TakesOldest :
    (clock : Clock) (c : Cache) (s : Scan)
    → Keeps c [] s
    → Orders clock c [] s
    → TakesOldest clock c (evict_last s)
unfolding lookup
last-TakesOldest clock c s h o = record {
  alive = λ k e at. (o.passed k e (last-kept s k e at) refl).0;
  full = λ k e at live gone. last-full c s k e h (o.live k e at live) gone;
  single = λ k j e w at live gone at' live' gone'. ground (
    arith,
    last-lost s k e (o.live k e at live) gone,
    last-lost s j w (o.live j w at' live') gone',
  );
  oldest = λ k j e w at live gone left.
      let mine = o.live k e at live in
      let (_, f, older) = o.passed j w (last-kept s j w left) refl in
      let (e', at', time, _) = h.held f in ground (arith, last-lost s k e mine gone);
}

-- In a valid cache eviction removes every entry that is expired when the loop comes to it, and at
-- most one of the others: the oldest of them, and only if they fill the cache.
pub evict_oldest-TakesOldest :
    (clock : Clock) (c : Cache) → IsValid c → TakesOldest clock c (evict_oldest clock c)
unfolding evict_oldest
evict_oldest-TakesOldest clock c v =
    last-TakesOldest clock c (evict_loop clock c.entries (start c))
      (Keeps-loop clock c c.entries (start c) (start-Keeps c v.distinct))
      (Orders-loop clock c c.entries (start c) (start-Keeps c v.distinct) (start-Orders clock c))
