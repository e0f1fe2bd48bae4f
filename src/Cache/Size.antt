-- ===== src/Cache/Size.antt =====
-- The invariant of the cache, kept by every operation.
use dns_server_mandiri.Cache.Branches.{get_absent, get_expired, get_live}
use dns_server_mandiri.Cache.Evict.{start, IsValid, Evicted, evict_oldest-Evicted}
use dns_server_mandiri.Cache.{
  Entry, Cache, Clock, Scan, is_expired, evict_oldest, evict_last, evict_loop, evict_visit,
  drop_entry, init, cache_key, get, set,
}
use dns_server_mandiri.Dns.{Msg, DnsLib}
use dns_server_mandiri.Prelude.{
  ℕ, ◌<◌, ◌≡◌, ◌≢◌, refl, none, some, [], ◌∷◌, arith, Bool-cases, Option, Option-cases, inl, inr,
  length, leb, append-cons-ne-nil, ◌∙◌, add64,
}
use dns_server_mandiri.Prelude.Dict.{
  Dict, lookup, insert, delete, lookup-insert_ne, Distinct-insert, Distinct-delete,
  length-insert-le, length-insert_old, length-delete-le, lookup-delete,
}
use dns_server_mandiri.Prelude.Text.{Text}

pub init-IsValid :
    (max_size min_ttl max_ttl negative_ttl ratio : ℕ)
    → 0 < max_size
    → IsValid (init max_size min_ttl max_ttl negative_ttl ratio)
unfolding init lookup
init-IsValid max_size min_ttl max_ttl negative_ttl ratio h = record {
  distinct = tt;
  named = refl;
  bounded = omega arith;
  positive = h;
}

max_size-visit :
    (clock : Clock) (k : Text) (e : Entry) (s : Scan)
    → (evict_visit clock k e s).cache.max_size ≡ s.cache.max_size
unfolding evict_visit drop_entry
max_size-visit clock k e s = ground arith

max_size-loop :
    (clock : Clock) (rest : Dict Entry) (s : Scan)
    → (evict_loop clock rest s).cache.max_size ≡ s.cache.max_size
unfolding evict_loop
max_size-loop clock [] s = refl
max_size-loop clock ((k, e) ∷ rest) s =
    max_size-loop clock rest (evict_visit clock k e s) ∙ max_size-visit clock k e s

pub max_size-evict_oldest :
    (clock : Clock) (c : Cache) → (evict_oldest clock c).max_size ≡ c.max_size
unfolding evict_oldest evict_last drop_entry
max_size-evict_oldest clock c = ground (arith, max_size-loop clock c.entries (start c))

module _ {V : Type 0} (k : Text) (m : Dict V) where
  pub named-delete : lookup [] m ≡ none → lookup [] (delete k m) ≡ none
  named-delete h = ground (arith, lookup-delete k [] m)

  pub named-insert : (v : V) → k ≢ [] → lookup [] m ≡ none → lookup [] (insert k v m) ≡ none
  named-insert v ne h = lookup-insert_ne k [] v m ne ∙ h

-- `Sub` carries the absence of a key over.
named-Evicted : (c c' : Cache) → IsValid c → Evicted c c' → lookup [] c'.entries ≡ none
named-Evicted c c' v h = elim (Option-cases (lookup [] c'.entries)) [
  | inl e ↦ e
  | inr (w, e) ↦ absurd (clash (h.only [] w e))
]
  where
    clash : {w : Entry} → lookup [] c.entries ≡ some w → ⊥
    clash p = let q = v.named in ground arith

-- A cache with a free place stays valid when an entry is stored.
insert-IsValid :
    (k : Text) (e : Entry) (c : Cache)
    → k ≢ []
    → IsValid c
    → length c.entries < c.max_size
    → IsValid (record c { entries = insert k e c.entries })
insert-IsValid k e c ne v room = record {
  distinct = Distinct-insert k e c.entries v.distinct;
  named = named-insert k c.entries e ne v.named;
  bounded = omega (arith, length-insert-le k e c.entries);
  positive = v.positive;
}

pub evict_oldest-IsValid : (clock : Clock) (c : Cache) → IsValid c → IsValid (evict_oldest clock c)
evict_oldest-IsValid clock c v =
    let h = evict_oldest-Evicted clock c v in
    record {
      distinct = h.distinct;
      named = named-Evicted c (evict_oldest clock c) v h;
      bounded = omega (arith, h.room, max_size-evict_oldest clock c);
      positive = omega (arith, v.positive, max_size-evict_oldest clock c);
    }

module _ (lib : DnsLib) where
  pub cache_key-ne-nil : (name : Text) (qtype qclass : ℕ) → cache_key lib name qtype qclass ≢ []
  unfolding cache_key
  cache_key-ne-nil name qtype qclass = append-cons-ne-nil (lib.canonical_name name) _ _

  -- `Set` keeps the invariant: however often it is called, there are at most `max_size` entries,
  -- under different keys.
  pub set-IsValid :
      (name : Text) (qtype qclass : ℕ) (m : Option Msg) (clock : Clock) (t₂ t₃ : ℕ) (c : Cache)
      → IsValid c
      → IsValid (set lib name qtype qclass m clock t₂ t₃ c)
  unfolding set
  set-IsValid name qtype qclass none clock t₂ t₃ c v = v
  set-IsValid name qtype qclass (some m) clock t₂ t₃ c v =
      let key = cache_key lib name qtype qclass in
      let ne = cache_key-ne-nil name qtype qclass in
      elim (Bool-cases (leb c.max_size (length c.entries))) [
        | inl full ↦ rw full (
            insert-IsValid key _ (evict_oldest clock c) ne (evict_oldest-IsValid clock c v)
              (omega (arith, (evict_oldest-Evicted clock c v).room, max_size-evict_oldest clock c)))
        | inr fits ↦ rw fits (insert-IsValid key _ c ne v (ground arith))
      ]

  -- `Get` keeps the invariant, on a hit, a miss and an expired entry.
  pub get-IsValid :
      (name : Text) (qtype qclass t₁ t₂ t₃ : ℕ) (c : Cache)
      → IsValid c
      → IsValid (get lib name qtype qclass t₁ t₂ t₃ c).0
  get-IsValid name qtype qclass t₁ t₂ t₃ c v =
      let key = cache_key lib name qtype qclass in
      let ne = cache_key-ne-nil name qtype qclass in
      elim (Option-cases (lookup key c.entries)) [
        | inl gone ↦ rw (get_absent lib name qtype qclass t₁ t₂ t₃ c gone) (record {
          distinct = v.distinct;
          named = v.named;
          bounded = v.bounded;
          positive = v.positive;
        })
        | inr (e, at) ↦ elim (Bool-cases (is_expired t₁ e)) [
          | inl old ↦ rw (get_expired lib name qtype qclass t₁ t₂ t₃ c e at old) (record {
            distinct = Distinct-delete key c.entries v.distinct;
            named = named-delete key c.entries v.named;
            bounded = omega (arith, v.bounded, length-delete-le key c.entries);
            positive = v.positive;
          })
          | inr live ↦ rw (get_live lib name qtype qclass t₁ t₂ t₃ c e at live) (record {
            distinct = Distinct-insert key _ c.entries v.distinct;
            named = named-insert key c.entries _ ne v.named;
            bounded = omega (
              arith,
              v.bounded,
              length-insert_old key (record e { hit_count = add64 e.hit_count 1 }) e c.entries at,
            );
            positive = v.positive;
          })
        ]
      ]
