-- ===== src/Ratelimit/Credit.antt =====
-- What a client may still spend: the tokens of its bucket, and those that time has added.
use dns_server_mandiri.Prelude.{
  ℕ, suc, le_trans, ◌+◌, ◌-◌, ◌*◌, ◌≤◌, ◌≡◌, Option, none, some, arith, if◌then◌else◌, Bool-cases,
  inl, inr, ◌∙◌, ap,
}
use dns_server_mandiri.Prelude.Text.{Text}
use dns_server_mandiri.Ratelimit.Stale.{unless_stale, mul_mono}
use dns_server_mandiri.Ratelimit.{
  Bucket, Limiter, token, new_bucket, bucket_of, refill, spend, is_stale,
}

-- The units that a client can have spent by the time `now`, counting no burst twice.
abbrev pub credit : Limiter → ℕ → Option Bucket → ℕ
credit l now none = l.burst * token
credit l now (some b) = b.tokens + (now - b.last_time) * l.rate

abbrev pub Seen : ℕ → Option Bucket → Type 0
Seen now none = Unit
Seen now (some b) = b.last_time ≤ now

spend-credit :
    (l : Limiter) (now : ℕ) (o : Option Bucket)
    → (spend (refill l now (bucket_of l now o))).0.tokens
        + (if (spend (refill l now (bucket_of l now o))).1 then token else 0)
      ≤ credit l now o
unfolding spend refill bucket_of new_bucket
spend-credit l now none = let e : (now - now) * l.rate ≡ 0 = grind arith in ground (arith, e)
spend-credit l now (some b) = ground arith

sub_split : (a b c r : ℕ) → a ≤ b → b ≤ c → (c - a) * r ≡ (b - a) * r + (c - b) * r
sub_split a b c r h k =
    let e : c - a ≡ (b - a) + (c - b) = omega arith in omega (arith, ap (λ (t : ℕ). t * r) e)

-- Waiting turns time into credit, never more.
pub credit-wait :
    (l : Limiter) (from now to : ℕ) (o : Option Bucket)
    → Seen from o
    → from ≤ now
    → now ≤ to
    → credit l now o + (to - now) * l.rate ≤ credit l from o + (to - from) * l.rate
credit-wait l from now to none s h k = grind arith
credit-wait l from now to (some b) s h k =
    let e : (to - b.last_time) * l.rate ≡ (now - b.last_time) * l.rate + (to - now) * l.rate =
      sub_split b.last_time now to l.rate (omega arith) k in
    let e' : (to - b.last_time) * l.rate ≡ (from - b.last_time) * l.rate + (to - from) * l.rate =
      sub_split b.last_time from to l.rate s (omega arith) in
    omega (arith, e, e')

pub seen-spend :
    (l : Limiter) (now : ℕ) (o : Option Bucket)
    → (spend (refill l now (bucket_of l now o))).0.last_time ≡ now
unfolding spend refill
seen-spend l now o = ground arith

-- One request of `j` itself.
pub granted_self :
    (j : Text) (now to more : ℕ) (l : Limiter)
    → now ≤ to
    → (o : Option Bucket)
    → more * token
      ≤ credit l now (some (spend (refill l now (bucket_of l now o))).0) + (to - now) * l.rate
    → (if (spend (refill l now (bucket_of l now o))).1 then suc more else more) * token
      ≤ credit l now o + (to - now) * l.rate
granted_self j now to more l h o ih =
    let b = (spend (refill l now (bucket_of l now o))).0 in
    let z : (now - b.last_time) * l.rate ≡ 0 =
      ap (λ t. (now - t) * l.rate) (seen-spend l now o) ∙ grind arith in
    ground (arith, spend-credit l now o, z)

pub Seen-later : {from now : ℕ} (o : Option Bucket) → Seen from o → from ≤ now → Seen now o
Seen-later none s h = tt
Seen-later (some b) s h = le_trans s h

-- A round of the cleanup gives no client more than it had: a bucket that it drops was full again.
pub credit-unless_stale :
    (l : Limiter) (now : ℕ) (o : Option Bucket)
    → l.burst * token ≤ 2 * l.cleanup * l.rate
    → credit l now (unless_stale l now o) ≤ credit l now o
unfolding is_stale
credit-unless_stale l now none fills = omega arith
credit-unless_stale l now (some b) fills = elim (Bool-cases (is_stale l now b)) [
  | inl old ↦
      let e : 2 * l.cleanup * l.rate ≤ (now - b.last_time) * l.rate =
        mul_mono (2 * l.cleanup) (now - b.last_time) l.rate (ground arith) in
      rw old (omega (arith, e))
  | inr kept ↦ rw kept (omega arith)
]

pub Seen-unless_stale :
    (l : Limiter) (now : ℕ) (o : Option Bucket) → Seen now o → Seen now (unless_stale l now o)
Seen-unless_stale l now none s = tt
Seen-unless_stale l now (some b) s = elim (Bool-cases (is_stale l now b)) [
  | inl old ↦ rw old tt
  | inr kept ↦ rw kept s
]
