-- ===== src/Cache/Reads.antt =====
-- What `Get` returns after `Set` and after other calls of `Get`.
use dns_server_mandiri.Cache.Branches.{get_absent, get_expired, get_live, set-some, roomy, fresh}
use dns_server_mandiri.Cache.Evict.{start}
use dns_server_mandiri.Cache.{
  Entry, Cache, Clock, Scan, evict_visit, evict_loop, evict_last, drop_entry, is_expired,
  should_prefetch, seconds_left, aged, set_lifetime, cache_key, get, set, evict_oldest,
}
use dns_server_mandiri.Dns.{Msg, DnsLib}
use dns_server_mandiri.Prelude.{
  ℕ, ◌+◌, ◌≤◌, ◌≡◌, refl, Bool, true, false, Option, none, some, arith, Bool-cases, Option-cases,
  inl, inr, [], ◌∷◌, ltb, if◌then◌else◌, ◌∙◌, add64, ap,
}
use dns_server_mandiri.Prelude.Dict.{Dict, lookup, lookup-insert, lookup-insert_self, lookup-delete}
use dns_server_mandiri.Prelude.Text.{Text, eq_iff, ◌==◌}

-- What `Get` returns, as a function of the entry found.
answer_of : ℕ → ℕ → ℕ → ℕ → Option Entry → Option (Msg × Bool)
answer_of ratio t₁ t₂ t₃ none = none
answer_of ratio t₁ t₂ t₃ (some e) =
    if is_expired t₁ e
    then none
    else some (aged (seconds_left t₂ e) e.msg, should_prefetch t₃ ratio e)

module _ (lib : DnsLib) (name : Text) (qtype qclass t₁ t₂ t₃ : ℕ) (c : Cache) where
  get-answer_of :
      (get lib name qtype qclass t₁ t₂ t₃ c).1
      ≡ answer_of c.prefetch_ratio t₁ t₂ t₃ (lookup (cache_key lib name qtype qclass) c.entries)
  unfolding answer_of
  get-answer_of = elim (Option-cases (lookup (cache_key lib name qtype qclass) c.entries)) [
    | inl gone ↦ rw (get_absent lib name qtype qclass t₁ t₂ t₃ c gone, gone)
    | inr (e, at) ↦ elim (Bool-cases (is_expired t₁ e)) [
      | inl old ↦ rw (get_expired lib name qtype qclass t₁ t₂ t₃ c e at old) (rw at (rw old))
      | inr live ↦ rw (get_live lib name qtype qclass t₁ t₂ t₃ c e at live) (rw at (rw live))
    ]
  ]

  lookup-get :
      (k : Text)
      → lookup k (get lib name qtype qclass t₁ t₂ t₃ c).0.entries
        ≡ elim (lookup (cache_key lib name qtype qclass) c.entries) [
          | none ↦ lookup k c.entries
          | some e ↦
              if cache_key lib name qtype qclass == k
              then (if is_expired t₁ e
                  then none
                  else some (record e { hit_count = add64 e.hit_count 1 }))
              else lookup k c.entries
        ]
  lookup-get k =
      let key = cache_key lib name qtype qclass in
      elim (Option-cases (lookup key c.entries)) [
        | inl gone ↦ rw (get_absent lib name qtype qclass t₁ t₂ t₃ c gone, gone)
        | inr (e, at) ↦ elim (Bool-cases (is_expired t₁ e)) [
          | inl old ↦
              rw (get_expired lib name qtype qclass t₁ t₂ t₃ c e at old, at)
                (rw old (lookup-delete key k c.entries))
          | inr live ↦
              rw (get_live lib name qtype qclass t₁ t₂ t₃ c e at live, at)
                (rw live
                  (lookup-insert key k (record e { hit_count = add64 e.hit_count 1 }) c.entries))
        ]
      ]

  ratio-get : (get lib name qtype qclass t₁ t₂ t₃ c).0.prefetch_ratio ≡ c.prefetch_ratio
  ratio-get = elim (Option-cases (lookup (cache_key lib name qtype qclass) c.entries)) [
    | inl gone ↦ rw (get_absent lib name qtype qclass t₁ t₂ t₃ c gone)
    | inr (e, at) ↦ elim (Bool-cases (is_expired t₁ e)) [
      | inl old ↦ rw (get_expired lib name qtype qclass t₁ t₂ t₃ c e at old)
      | inr live ↦ rw (get_live lib name qtype qclass t₁ t₂ t₃ c e at live)
    ]
  ]

-- A hit changes nothing that an answer shows, and an entry found expired stays expired.
answer_of-hit :
    (ratio t₁ t₄ t₅ t₆ : ℕ) (e : Entry)
    → t₁ ≤ t₄
    → answer_of ratio t₄ t₅ t₆
        (if is_expired t₁ e then none else some (record e { hit_count = add64 e.hit_count 1 }))
      ≡ answer_of ratio t₄ t₅ t₆ (some e)
unfolding answer_of is_expired seconds_left should_prefetch
answer_of-hit ratio t₁ t₄ t₅ t₆ e h = ground arith

merged :
    (ratio t₁ t₄ t₅ t₆ : ℕ) (o o' : Option Entry) (b : Bool)
    → t₁ ≤ t₄
    → (b ≡ true → o ≡ o')
    → answer_of ratio t₄ t₅ t₆ (elim o [
      | none ↦ o'
      | some e ↦
          if b
          then (if is_expired t₁ e
              then none
              else some (record e { hit_count = add64 e.hit_count 1 }))
          else o'
    ])
      ≡ answer_of ratio t₄ t₅ t₆ o'
merged ratio t₁ t₄ t₅ t₆ none o' b h same = refl
merged ratio t₁ t₄ t₅ t₆ (some e) o' true h same =
    rw (← same refl) (answer_of-hit ratio t₁ t₄ t₅ t₆ e h)
merged ratio t₁ t₄ t₅ t₆ (some e) o' false h same = refl

module _ (lib : DnsLib) (n₁ : Text) (q₁ c₁ t₁ t₂ t₃ : ℕ) (n₂ : Text) (q₂ c₂ t₄ t₅ t₆ : ℕ)
    (c : Cache) where
  -- To later calls `Get` is a reader: whatever it was asked, the next `Get` returns what it would
  -- have returned without it.
  pub get-get :
      t₁ ≤ t₄
      → (get lib n₂ q₂ c₂ t₄ t₅ t₆ (get lib n₁ q₁ c₁ t₁ t₂ t₃ c).0).1
        ≡ (get lib n₂ q₂ c₂ t₄ t₅ t₆ c).1
  get-get h =
      let k = cache_key lib n₁ q₁ c₁ in
      let j = cache_key lib n₂ q₂ c₂ in
      let after = (get lib n₁ q₁ c₁ t₁ t₂ t₃ c).0 in
      rw (get-answer_of lib n₂ q₂ c₂ t₄ t₅ t₆ after, get-answer_of lib n₂ q₂ c₂ t₄ t₅ t₆ c)
        (rw (ratio-get lib n₁ q₁ c₁ t₁ t₂ t₃ c, lookup-get lib n₁ q₁ c₁ t₁ t₂ t₃ c j)
          (merged c.prefetch_ratio t₁ t₄ t₅ t₆ (lookup k c.entries) (lookup j c.entries) (k == j) h
            (λ b. ap (λ x. lookup x c.entries) ((eq_iff k j).0 b))))

ratio-visit :
    (clock : Clock) (k : Text) (e : Entry) (s : Scan)
    → (evict_visit clock k e s).cache.prefetch_ratio ≡ s.cache.prefetch_ratio
unfolding evict_visit drop_entry
ratio-visit clock k e s = ground arith

ratio-loop :
    (clock : Clock) (rest : Dict Entry) (s : Scan)
    → (evict_loop clock rest s).cache.prefetch_ratio ≡ s.cache.prefetch_ratio
unfolding evict_loop
ratio-loop clock [] s = refl
ratio-loop clock ((k, e) ∷ rest) s =
    ratio-loop clock rest (evict_visit clock k e s) ∙ ratio-visit clock k e s

ratio-roomy : (clock : Clock) (c : Cache) → (roomy clock c).prefetch_ratio ≡ c.prefetch_ratio
unfolding evict_oldest evict_last drop_entry
ratio-roomy clock c = ground (arith, ratio-loop clock c.entries (start c))

module _ (lib : DnsLib) (name : Text) (qtype qclass t₁ t₂ t₃ : ℕ) (c : Cache) where
  -- A `Get` after a `Set` of the same question, with nothing in between: the message with its
  -- remaining TTL until the lifetime is over, and nothing afterwards.
  pub get-set :
      (m : Msg) (clock : Clock) (u₂ u₃ : ℕ)
      → (get lib name qtype qclass t₁ t₂ t₃ (set lib name qtype qclass (some m) clock u₂ u₃ c)).1
        ≡ (if ltb (u₃ + set_lifetime c m) t₁
            then none
            else some (
              aged (seconds_left t₂ (fresh c m u₂ u₃)) m,
              should_prefetch t₃ c.prefetch_ratio (fresh c m u₂ u₃),
            ))
  unfolding answer_of is_expired
  get-set m clock u₂ u₃ =
      let key = cache_key lib name qtype qclass in
      let stored = set lib name qtype qclass (some m) clock u₂ u₃ c in
      rw (get-answer_of lib name qtype qclass t₁ t₂ t₃ stored, set-some)
        (rw (ratio-roomy clock c, lookup-insert_self key (fresh c m u₂ u₃) (roomy clock c).entries))
