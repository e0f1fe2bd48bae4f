-- ===== src/Cache/Ttl.antt =====
-- How long an answer is kept, and which TTL it is handed out with.
use dns_server_mandiri.Cache.Branches.{fresh}
use dns_server_mandiri.Cache.{
  Entry, Cache, set_ttl, set_ttl_extra, seconds_left, aged, min_ttl_of, extract_ttl, is_negative,
  set_lifetime,
}
use dns_server_mandiri.Dns.{Msg, Rr, type_opt}
use dns_server_mandiri.Prelude.{
  ℕ, ◌+◌, ◌*◌, ◌≤◌, ◌<◌, ◌≡◌, true, false, List, [], ◌∷◌, map, arith, All, second, max, ◌⊎◌, ltb,
  ◌==◌, if◌then◌else◌,
}

min_ttl_of-le : (low : ℕ) (rrs : List Rr) → min_ttl_of low rrs ≤ low
unfolding min_ttl_of
min_ttl_of-le low [] = omega arith
min_ttl_of-le low (rr ∷ rrs) =
    ground (arith, min_ttl_of-le (if ltb rr.hdr.ttl low then rr.hdr.ttl else low) rrs)

min_ttl_of-All : (low : ℕ) (rrs : List Rr) → All (λ rr. min_ttl_of low rrs ≤ rr.hdr.ttl) rrs
unfolding min_ttl_of
min_ttl_of-All low [] = tt
min_ttl_of-All low (rr ∷ rrs) = (
  ground (arith, min_ttl_of-le (if ltb rr.hdr.ttl low then rr.hdr.ttl else low) rrs),
  min_ttl_of-All (if ltb rr.hdr.ttl low then rr.hdr.ttl else low) rrs,
)

min_ttl_of-pos :
    (low : ℕ) (rrs : List Rr) → 0 < low → All (λ rr. 0 < rr.hdr.ttl) rrs → 0 < min_ttl_of low rrs
unfolding min_ttl_of
min_ttl_of-pos low [] h a = h
min_ttl_of-pos low (rr ∷ rrs) h a =
    min_ttl_of-pos (if ltb rr.hdr.ttl low then rr.hdr.ttl else low) rrs (ground arith) a.1

All-le_trans :
    (a b : ℕ) (rrs : List Rr)
    → a ≤ b
    → All (λ rr. b ≤ rr.hdr.ttl) rrs
    → All (λ rr. a * second ≤ rr.hdr.ttl * second) rrs
All-le_trans a b [] h p = tt
All-le_trans a b (rr ∷ rrs) h p = (omega (arith, p.0), All-le_trans a b rrs h p.1)

-- The TTL of a message lies between one second and one hour.
pub extract_ttl_bounds : (m : Msg) → (1 * second ≤ extract_ttl m) × (extract_ttl m ≤ 3600 * second)
unfolding extract_ttl
extract_ttl_bounds m =
    ground (arith, min_ttl_of-le 3600 m.answer, min_ttl_of-le (min_ttl_of 3600 m.answer) m.ns)

-- A message without a zero TTL is kept no longer than any of its records allows.
pub extract_ttl-All :
    (m : Msg)
    → All (λ rr. 0 < rr.hdr.ttl) m.answer
    → All (λ rr. 0 < rr.hdr.ttl) m.ns
    → All (λ rr. extract_ttl m ≤ rr.hdr.ttl * second) m.answer
      × All (λ rr. extract_ttl m ≤ rr.hdr.ttl * second) m.ns
unfolding extract_ttl
extract_ttl-All m pa pn =
    let low = min_ttl_of 3600 m.answer in
    let pos = min_ttl_of-pos low m.ns (min_ttl_of-pos 3600 m.answer (omega arith) pa) pn in
    let e : (if min_ttl_of low m.ns == 0 then 30 else min_ttl_of low m.ns) ≡ min_ttl_of low m.ns =
      ground arith in
    rw e (
      All-le_trans _ _ m.answer (min_ttl_of-le low m.ns) (min_ttl_of-All 3600 m.answer),
      All-le_trans _ _ m.ns (omega arith) (min_ttl_of-All low m.ns),
    )

-- A negative answer is kept for `negative_ttl`; any other within `min_ttl` and `max_ttl`.
pub set_lifetime_bounds :
    (c : Cache) (m : Msg)
    → c.min_ttl ≤ c.max_ttl
    → (is_negative m ≡ true → set_lifetime c m ≡ c.negative_ttl)
      × (is_negative m ≡ false → (c.min_ttl ≤ set_lifetime c m) × (set_lifetime c m ≤ c.max_ttl))
unfolding set_lifetime
set_lifetime_bounds c m h = (λ n. ground arith, λ n. ground arith)

-- Two settings of `max_ttl` that are both at least one hour and at least `min_ttl` give every
-- message the same lifetime: raising `max_ttl` beyond that has no effect.
pub set_lifetime-max_ttl :
    (c : Cache) (m : Msg) (high : ℕ)
    → max c.min_ttl (3600 * second) ≤ c.max_ttl
    → max c.min_ttl (3600 * second) ≤ high
    → set_lifetime (record c { max_ttl = high }) m ≡ set_lifetime c m
unfolding set_lifetime
set_lifetime-max_ttl c m high h h' = ground (arith, extract_ttl_bounds m)

-- Every record of an answer from the cache has the TTL `ttl`, but for an OPT record.
pub aged-All :
    (ttl : ℕ) (m : Msg)
    → All (λ rr. rr.hdr.ttl ≡ ttl) (aged ttl m).answer
      × All (λ rr. rr.hdr.ttl ≡ ttl) (aged ttl m).ns
      × All (λ rr. (rr.hdr.rrtype ≡ type_opt) ⊎ (rr.hdr.ttl ≡ ttl)) (aged ttl m).extra
unfolding aged set_ttl set_ttl_extra
aged-All ttl m = (all m.answer, all m.ns, all_extra m.extra)
  where
    all : (rrs : List Rr) → All (λ rr. rr.hdr.ttl ≡ ttl) (map (set_ttl ttl) rrs)
    all [] = tt
    all (rr ∷ rrs) = (ground arith, all rrs)

    all_extra :
        (rrs : List Rr)
        → All (λ rr. (rr.hdr.rrtype ≡ type_opt) ⊎ (rr.hdr.ttl ≡ ttl)) (map (set_ttl_extra ttl) rrs)
    all_extra [] = tt
    all_extra (rr ∷ rrs) = (ground arith, all_extra rrs)

-- The TTL handed out is at least 1, and beyond that never more than what is left of the entry.
pub seconds_left_bounds :
    (now : ℕ) (e : Entry)
    → (1 ≤ seconds_left now e)
      × ((seconds_left now e ≡ 1) ⊎ (now + seconds_left now e * second ≤ e.expires_at))
unfolding seconds_left
seconds_left_bounds now e = ground arith

lifetime-le-extract_ttl :
    (c : Cache) (m : Msg)
    → is_negative m ≡ false
    → c.min_ttl ≤ extract_ttl m
    → set_lifetime c m ≤ extract_ttl m
unfolding set_lifetime
lifetime-le-extract_ttl c m n low = ground arith

served-All :
    (left life : ℕ) (rrs : List Rr)
    → (left ≡ 1) ⊎ (left * second ≤ life)
    → All (λ rr. 0 < rr.hdr.ttl) rrs
    → All (λ rr. life ≤ rr.hdr.ttl * second) rrs
    → All (λ rr. left ≤ rr.hdr.ttl) rrs
served-All left life [] h p q = tt
served-All left life (rr ∷ rrs) h p q =
    (omega (arith, p.0, q.0), served-All left life rrs h p.1 q.1)

-- An answer that is not negative, has no zero TTL in its answer and authority records and is not
-- below the minimum is never handed out with a TTL above the one that any of its answer and
-- authority records came with.
pub seconds_left-All :
    (c : Cache) (m : Msg) (created stored now : ℕ)
    → is_negative m ≡ false
    → c.min_ttl ≤ extract_ttl m
    → All (λ rr. 0 < rr.hdr.ttl) m.answer
    → All (λ rr. 0 < rr.hdr.ttl) m.ns
    → stored ≤ now
    → All (λ rr. seconds_left now (fresh c m created stored) ≤ rr.hdr.ttl) m.answer
      × All (λ rr. seconds_left now (fresh c m created stored) ≤ rr.hdr.ttl) m.ns
seconds_left-All c m created stored now n low pa pn h =
    let left = seconds_left now (fresh c m created stored) in
    let (qa, qn) = extract_ttl-All m pa pn in
    let bound : (left ≡ 1) ⊎ (left * second ≤ extract_ttl m) = ground (
      arith,
      seconds_left_bounds now (fresh c m created stored),
      lifetime-le-extract_ttl c m n low,
    ) in
    (
      served-All left (extract_ttl m) m.answer bound pa qa,
      served-All left (extract_ttl m) m.ns bound pn qn,
    )
