-- ===== src/Cache/Races.antt =====
-- Runs of the goroutines: one alone does what the function `get` says, and two may lose an entry.
use dns_server_mandiri.Cache.Branches.{fresh, hit, set-some, get_absent, get_expired, get_live}
use dns_server_mandiri.Cache.Threads.{
  Shared, Pc, Move, System, Step, missed, drop_stale, count_hit, put, at_pc,
}
use dns_server_mandiri.Cache.{Entry, Cache, is_expired, cache_key, get}
use dns_server_mandiri.Dns.{Msg, DnsLib}
use dns_server_mandiri.Prelude.Dict.{lookup, lookup-delete_self, lookup-insert_self}
use dns_server_mandiri.Prelude.Text.{Text}
use dns_server_mandiri.Prelude.{
  ℕ, ◌≡◌, ◌≢◌, Bool, true, false, Option, none, some, refl, sym, ap, ◌∙◌, subst, arith, inl, inr,
  ◌==◌, ==_iff, Bool-cases, Option-cases, if◌then◌else◌,
}

self : (i : ℕ) → (i == i) ≡ true
self i = (==_iff i i).1 refl

at_pc_ne : (pc : ℕ → Pc) (i j : ℕ) (p : Pc) → i ≢ j → at_pc pc i p j ≡ pc j
at_pc_ne pc i j p h = ground (arith, ==_iff i j)

hit_lem :
    (k : Text) (object : ℕ) (e : Entry) (s : Shared)
    → lookup k s.cache.entries ≡ some e
    → (s.owner k == object) ≡ true
    → (count_hit k object s).cache ≡ hit k e s.cache
unfolding count_hit
hit_lem k object e s at same = rw (at, count_hit) (rw same refl)

-- A goroutine that has begun its call and has no answer yet.
abbrev pub busy : Pc → Bool
busy Pc.idle = false
busy (Pc.answered o) = false
busy (Pc.asked k) = true
busy (Pc.found k e object) = true
busy (Pc.stale k) = true
busy (Pc.live k e object) = true

-- What `get` answers, before the ageing of the message.
abbrev pub live_entry : ℕ → Option Entry → Option Entry
live_entry now none = none
live_entry now (some e) = if is_expired now e then none else some e

module _ (lib : DnsLib) (now : ℕ) where
  -- The steps of one goroutine to the answer, which no other step comes between.
  pub data Call : Shared → Pc → Shared → Option Entry → Type 0 where
    ended : (s : Shared) (o : Option Entry) → Call s (Pc.answered o) s o
    step :
        (s : Shared) (p : Pc) (t : Shared) (q : Pc) (u : Shared) (o : Option Entry)
        → busy p ≡ true
        → Move lib now s p t q
        → Call t q u o
        → Call s p u o

  -- What is left of a call, as a function.
  abbrev judge : Text → Entry → ℕ → Shared → Shared × Option Entry
  judge k e object s =
      if is_expired now e then (drop_stale k s, none) else (count_hit k object s, some e)

  abbrev look : Text → Option Entry → Shared → Shared × Option Entry
  look k none s = (record s { cache = missed s.cache }, none)
  look k (some e) s = judge k e (s.owner k) s

  abbrev finish : Pc → Shared → Shared × Option Entry
  finish Pc.idle s = (s, none)
  finish (Pc.asked k) s = look k (lookup k s.cache.entries) s
  finish (Pc.found k e object) s = judge k e object s
  finish (Pc.stale k) s = (drop_stale k s, none)
  finish (Pc.live k e object) s = (count_hit k object s, some e)
  finish (Pc.answered o) s = (s, o)

  move-finish :
      (s : Shared) (p : Pc) (t : Shared) (q : Pc)
      → busy p ≡ true
      → Move lib now s p t q
      → finish p s ≡ finish q t
  move-finish s p t q b (Move.call name qtype qclass) = absurd (ground arith)
  move-finish s p t q b (Move.read_none k h) = ap (λ o. look k o s) h
  move-finish s p t q b (Move.read_some k e h) = ap (λ o. look k o s) h
  move-finish s p t q b (Move.expired k e object h) =
      ap (λ x. if x then (drop_stale k s, none) else (count_hit k object s, some e)) h
  move-finish s p t q b (Move.alive k e object h) =
      ap (λ x. if x then (drop_stale k s, none) else (count_hit k object s, some e)) h
  move-finish s p t q b (Move.drop k) = refl
  move-finish s p t q b (Move.hit k e object) = refl
  move-finish s p t q b (Move.leave o) = absurd (ground arith)
  move-finish s p t q b (Move.write name qtype qclass m) = absurd (ground arith)
  move-finish s p t q b Move.sweep = absurd (ground arith)

  call-finish :
      (s : Shared) (p : Pc) (u : Shared) (o : Option Entry) → Call s p u o → finish p s ≡ (u, o)
  call-finish s p u o (Call.ended r a) = refl
  call-finish s p u o (Call.step r x t q v a b move rest) =
      move-finish _ _ _ _ b move ∙ call-finish _ _ _ _ rest

  -- A call that nothing comes between comes to its answer.
  pub call_ends :
      (k : Text) (s : Shared) → (u : Shared) × ((o : Option Entry) × Call s (Pc.asked k) u o)
  call_ends k s = elim (Option-cases (lookup k s.cache.entries)) [
    | inl gone ↦ (_, (_, Call.step s _ _ _ _ _ refl (Move.read_none k gone) (Call.ended _ none)))
    | inr (e, at) ↦ elim (Bool-cases (is_expired now e)) [
      | inl old ↦ (
        _,
        (
          _,
          Call.step s _ _ _ _ _ refl (Move.read_some k e at) (
              Call.step s _ _ _ _ _ refl (Move.expired k e (s.owner k) old)
                (Call.step s _ _ _ _ _ refl (Move.drop k) (Call.ended _ none))),
        ),
      )
      | inr young ↦ (
        _,
        (
          _,
          Call.step s _ _ _ _ _ refl (Move.read_some k e at) (
              Call.step s _ _ _ _ _ refl (Move.alive k e (s.owner k) young)
                (Call.step s _ _ _ _ _ refl (Move.hit k e (s.owner k)) (Call.ended _ (some e)))),
        ),
      )
    ]
  ]

  module _ (name : Text) (qtype qclass : ℕ) (s : Shared) where
    abbrev key : Text
    key = cache_key lib name qtype qclass

    abbrev outcome : Cache × Option Entry
    outcome = (
      (get lib name qtype qclass now now now s.cache).0,
      live_entry now (lookup key s.cache.entries),
    )

    look_lem :
        ((finish (Pc.asked key) s).0.cache ≡ outcome.0) × ((finish (Pc.asked key) s).1 ≡ outcome.1)
    unfolding missed drop_stale
    look_lem = elim (Option-cases (lookup key s.cache.entries)) [
      | inl gone ↦ (
        rw gone (sym (ap (λ r. r.0) (get_absent lib name qtype qclass now now now s.cache gone))),
        rw gone refl,
      )
      | inr (e, at) ↦ elim (Bool-cases (is_expired now e)) [
        | inl old ↦ (
          rw at (
              rw old (
                sym (
                  ap (λ r. r.0) (get_expired lib name qtype qclass now now now s.cache e at old)))),
          rw at (rw old refl),
        )
        | inr young ↦ (
          rw at (
              rw young (
                hit_lem key (s.owner key) e s at (self (s.owner key))
                ∙ sym (
                    ap (λ r. r.0)
                      (get_live lib name qtype qclass now now now s.cache e at young)))),
          rw at (rw young refl),
        )
      ]
    ]

    -- If the steps of one call of `Get` come without a step of another goroutine between them, and
    -- while the clock stands, then at its answer the cache is the one that `get` returns, and the
    -- answer is the entry that stood under the key, if it had not expired.
    pub get_alone :
        (u : Shared) (o : Option Entry)
        → Call s (Pc.asked key) u o
        → (u.cache ≡ (get lib name qtype qclass now now now s.cache).0)
          × (o ≡ live_entry now (lookup key s.cache.entries))
    get_alone u o run =
        let e = call-finish s (Pc.asked key) u o run in
        (ap (λ r. r.0.cache) (sym e) ∙ look_lem.0, ap (λ r. r.1) (sym e) ∙ look_lem.1)

  -- The only step of a goroutine that is about to delete an expired entry.
  drop_lem :
      (k : Text) (s : Shared) (p : Pc) (t : Shared) (q : Pc)
      → p ≡ Pc.stale k
      → Move lib now s p t q
      → (t ≡ drop_stale k s) × (q ≡ Pc.answered none)
  drop_lem k s p t q h (Move.call name qtype qclass) = absurd (ground arith)
  drop_lem k s p t q h (Move.read_none j e) = absurd (ground arith)
  drop_lem k s p t q h (Move.read_some j w e) = absurd (ground arith)
  drop_lem k s p t q h (Move.expired j w object e) = absurd (ground arith)
  drop_lem k s p t q h (Move.alive j w object e) = absurd (ground arith)
  drop_lem k s p t q h (Move.drop j) = (ap (λ l. drop_stale l s) (ground arith), refl)
  drop_lem k s p t q h (Move.hit j w object) = absurd (ground arith)
  drop_lem k s p t q h (Move.leave o) = absurd (ground arith)
  drop_lem k s p t q h (Move.write name qtype qclass m) = absurd (ground arith)
  drop_lem k s p t q h Move.sweep = absurd (ground arith)

-- While a goroutine that found an expired entry is about to delete it, another stores a reply for
-- the same question. Then the next step of the first at that time loses the entry that was stored,
-- which has not expired: it deletes what stands under the key, and its call answers nothing.
pub stale-loses :
    (lib : DnsLib) (name : Text) (qtype qclass : ℕ) (m : Msg) (s : System) (i j : ℕ) (v : Shared)
    (q : Pc)
    → s.pc i ≡ Pc.stale (cache_key lib name qtype qclass)
    → s.pc j ≡ Pc.idle
    → j ≢ i
    → let k = cache_key lib name qtype qclass in
      let t : System = record {
        clock = s.clock;
        shared = put lib name qtype qclass m s.clock s.shared;
        pc = at_pc s.pc j Pc.idle;
      } in
      Move lib t.clock t.shared (t.pc i) v q
      → Step lib s t
        × ((lookup k t.shared.cache.entries ≡ some (fresh s.shared.cache m s.clock s.clock))
            × ((is_expired t.clock (fresh s.shared.cache m s.clock s.clock) ≡ false)
                × ((lookup k v.cache.entries ≡ none) × (q ≡ Pc.answered none))))
unfolding put drop_stale missed is_expired
stale-loses lib name qtype qclass m s i j v q late free ne move =
    let k = cache_key lib name qtype qclass in
    let dropped = drop_lem lib s.clock k _ _ v q (at_pc_ne s.pc j i Pc.idle ne ∙ late) move in
    (
      Step.turn j (
          subst
            (λ p.
              Move lib s.clock s.shared p (put lib name qtype qclass m s.clock s.shared) Pc.idle)
            (sym free) (Move.write name qtype qclass m)),
      (
        ap (λ c. lookup k c.entries)
              (set-some lib name qtype qclass s.clock s.clock s.clock s.shared.cache m
                (λ k. s.clock))
            ∙ lookup-insert_self k _ _,
        (
          ground arith,
          (ap (λ x. lookup k x.cache.entries) dropped.0 ∙ lookup-delete_self k _, dropped.1),
        ),
      ),
    )
