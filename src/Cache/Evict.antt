-- ===== src/Cache/Evict.antt =====
-- `evictOldest`: what its loop keeps, and that it makes room.
use dns_server_mandiri.Cache.{
  Entry, Cache, Clock, Scan, is_expired, drop_entry, evict_visit, evict_loop, evict_last,
  evict_oldest,
}
use dns_server_mandiri.Prelude.{
  ◌+◌, ◌%◌, ◌^◌, ◌≤◌, ◌<◌, ◌≡◌, refl, true, false, none, some, [], ◌∷◌, length, arith, Bool-cases,
  ◌∙◌, ◌||◌, ◌&&◌, not, leb, ltb, inl, inr,
}
use dns_server_mandiri.Prelude.Dict.{
  Dict, lookup, Distinct, Sub, Sub-head, Sub-tail, Sub-delete, lookup-delete-some, Distinct-delete,
  length-delete, lookup-cons_none, lookup-delete_ne,
}
use dns_server_mandiri.Prelude.Text.{Text, is_empty, is_empty_of_ne}

-- A key that the loop remembers is that of an entry which it has passed and kept.
abbrev pub Held : Dict Entry → Scan → Type 0
Held rest s =
    (e : Entry) × (lookup s.oldest_key s.cache.entries ≡ some e)
    × (e.created_at ≡ s.oldest_time)
    × (lookup s.oldest_key rest ≡ none)

-- Between two rounds of the loop that began at `c₀`, with `rest` still to visit.
pub record Keeps (c₀ : Cache) (rest : Dict Entry) (s : Scan) : Type 0 where
  pub distinct_rest : Distinct rest
  pub distinct : Distinct s.cache.entries
  pub visits : Sub rest s.cache.entries
  pub only : Sub s.cache.entries c₀.entries
  pub scanned : s.first ≡ true → length s.cache.entries ≡ length rest
  pub held : s.first ≡ false → Held rest s
  pub max_size : s.cache.max_size ≡ c₀.max_size
  pub fits : length s.cache.entries ≤ length c₀.entries
  pub counted :
      (s.cache.evictions + length s.cache.entries) % 2 ^ 64
      ≡ (c₀.evictions + length c₀.entries) % 2 ^ 64

module _ (clock : Clock) (c₀ : Cache) (k : Text) (e : Entry) (rest : Dict Entry) (s : Scan) where
  Held-expired : Held ((k, e) ∷ rest) s → Held rest (record s { cache = drop_entry k s.cache })
  unfolding drop_entry
  Held-expired (w, at, time, gone) =
      let (ne, gone') = lookup-cons_none k s.oldest_key e rest gone in
      (w, lookup-delete_ne k s.oldest_key s.cache.entries ne ∙ at, time, gone')

  Keeps-expired :
      Keeps c₀ ((k, e) ∷ rest) s
      → is_expired (clock k) e ≡ true
      → Keeps c₀ rest (evict_visit clock k e s)
  unfolding evict_visit drop_entry
  Keeps-expired h x =
      let here = Sub-head k e rest s.cache.entries h.visits in
      let fewer = length-delete k e s.cache.entries h.distinct here in
      rw x (record {
        distinct_rest = h.distinct_rest.1;
        distinct = Distinct-delete k s.cache.entries h.distinct;
        visits = Sub-delete k e rest s.cache.entries h.distinct_rest.0 h.visits;
        only = λ j w p. h.only j w (lookup-delete-some k j s.cache.entries p);
        scanned = λ f. omega (arith, h.scanned f);
        held = λ f. Held-expired (h.held f);
        max_size = h.max_size;
        fits = omega (arith, h.fits);
        counted = omega (arith, h.counted);
      })

  Keeps-live :
      Keeps c₀ ((k, e) ∷ rest) s
      → is_expired (clock k) e ≡ false
      → Keeps c₀ rest (evict_visit clock k e s)
  unfolding evict_visit
  Keeps-live h x = elim (Bool-cases (s.first || ltb e.created_at s.oldest_time)) [
    | inl new ↦
        rw (x, new)
          (record {
            distinct_rest = h.distinct_rest.1;
            distinct = h.distinct;
            visits = Sub-tail k e rest s.cache.entries h.distinct_rest.0 h.visits;
            only = h.only;
            scanned = λ f. cc;
            held = λ f. (e, Sub-head k e rest s.cache.entries h.visits, refl, h.distinct_rest.0);
            max_size = h.max_size;
            fits = h.fits;
            counted = h.counted;
          })
    | inr old ↦
        rw (x, old)
          (record {
            distinct_rest = h.distinct_rest.1;
            distinct = h.distinct;
            visits = Sub-tail k e rest s.cache.entries h.distinct_rest.0 h.visits;
            only = h.only;
            scanned = λ f. ground arith;
            held = λ f.
                let (w, at, time, gone) = h.held f in
                (w, at, time, (lookup-cons_none k s.oldest_key e rest gone).1);
            max_size = h.max_size;
            fits = h.fits;
            counted = h.counted;
          })
  ]

  pub Keeps-visit : Keeps c₀ ((k, e) ∷ rest) s → Keeps c₀ rest (evict_visit clock k e s)
  Keeps-visit h = elim (Bool-cases (is_expired (clock k) e)) [
    | inl x ↦ Keeps-expired h x
    | inr x ↦ Keeps-live h x
  ]

pub Keeps-loop :
    (clock : Clock) (c₀ : Cache) (rest : Dict Entry) (s : Scan)
    → Keeps c₀ rest s
    → Keeps c₀ [] (evict_loop clock rest s)
unfolding evict_loop
Keeps-loop clock c₀ [] s h = h
Keeps-loop clock c₀ ((k, e) ∷ rest) s h =
    Keeps-loop clock c₀ rest (evict_visit clock k e s) (Keeps-visit clock c₀ k e rest s h)

abbrev pub start : Cache → Scan
start c = record { cache = c; oldest_key = []; oldest_time = 0; first = true }

pub start-Keeps : (c : Cache) → Distinct c.entries → Keeps c c.entries (start c)
start-Keeps c d = record {
  distinct_rest = d;
  distinct = d;
  visits = λ k v h. h;
  only = λ k v h. h;
  scanned = λ f. refl;
  held = λ f. cc;
  max_size = refl;
  fits = omega arith;
  counted = refl;
}

-- What `evictOldest` leaves: fewer entries, each from before, each loss counted.
pub record Evicted (c c' : Cache) : Type 0 where
  pub distinct : Distinct c'.entries
  pub only : Sub c'.entries c.entries
  pub room : length c'.entries < c.max_size
  pub counted :
      (c'.evictions + length c'.entries) % 2 ^ 64 ≡ (c.evictions + length c.entries) % 2 ^ 64

Held-named :
    (c : Cache) (s : Scan)
    → Keeps c [] s
    → lookup [] c.entries ≡ none
    → Held [] s
    → is_empty s.oldest_key ≡ false
Held-named c s h named (e, at, _, _) = is_empty_of_ne s.oldest_key (λ p. clash (rw p at at))
  where
    clash : lookup [] s.cache.entries ≡ some e → ⊥
    clash q = let r = h.only [] e q in ground arith

drop-Evicted :
    (c : Cache) (s : Scan)
    → Keeps c [] s
    → Held [] s
    → length c.entries ≤ c.max_size
    → Evicted c (drop_entry s.oldest_key s.cache)
unfolding drop_entry
drop-Evicted c s h (e, at, _, _) fits =
    let fewer = length-delete s.oldest_key e s.cache.entries h.distinct at in
    record {
      distinct = Distinct-delete s.oldest_key s.cache.entries h.distinct;
      only = λ j w p. h.only j w (lookup-delete-some s.oldest_key j s.cache.entries p);
      room = omega (arith, h.fits);
      counted = omega (arith, h.counted);
    }

keep-Evicted :
    (c : Cache) (s : Scan) → Keeps c [] s → length s.cache.entries < c.max_size → Evicted c s.cache
keep-Evicted c s h lt = record {
  distinct = h.distinct;
  only = h.only;
  room = lt;
  counted = h.counted;
}

-- The invariant of the cache: keys differ, none is empty, and at most `max_size` are in use.
pub record IsValid (c : Cache) : Type 0 where
  pub distinct : Distinct c.entries
  pub named : lookup [] c.entries ≡ none
  pub bounded : length c.entries ≤ c.max_size
  pub positive : 0 < c.max_size

evict_last-Evicted : (c : Cache) (s : Scan) → IsValid c → Keeps c [] s → Evicted c (evict_last s)
unfolding evict_last
evict_last-Evicted c s v h = elim (Bool-cases s.first) [
  | inl f ↦
      let none_left = h.scanned f in
      elim (Bool-cases
        (not (is_empty s.oldest_key) && leb s.cache.max_size (length s.cache.entries))) [
          | inl full ↦ absurd (ground (arith, h.max_size, v.positive))
          | inr fits ↦ rw fits (keep-Evicted c s h (omega (arith, v.positive)))
        ]
  | inr f ↦
      let named = Held-named c s h v.named (h.held f) in
      elim (Bool-cases
        (not (is_empty s.oldest_key) && leb s.cache.max_size (length s.cache.entries))) [
          | inl full ↦ rw full (drop-Evicted c s h (h.held f) v.bounded)
          | inr fits ↦ rw fits (keep-Evicted c s h (ground (arith, h.max_size, named)))
        ]
]

-- Eviction from a valid cache makes room for one entry, whatever the order of the loop.
pub evict_oldest-Evicted :
    (clock : Clock) (c : Cache) → IsValid c → Evicted c (evict_oldest clock c)
unfolding evict_oldest
evict_oldest-Evicted clock c v =
    evict_last-Evicted c (evict_loop clock c.entries (start c)) v
      (Keeps-loop clock c c.entries (start c) (start-Keeps c v.distinct))
