-- ===== src/Ratelimit/Stale.antt =====
-- `cleanupStale`: dropping the idle buckets changes no later decision.
use dns_server_mandiri.Prelude.Dict.{Dict, lookup, delete, Distinct, lookup-delete}
use dns_server_mandiri.Prelude.Text.{Text, eq_iff}
use dns_server_mandiri.Prelude.{
  ℕ, ◌-◌, ◌*◌, ◌≤◌, ◌≡◌, refl, true, Option, none, some, [], ◌∷◌, arith, if◌then◌else◌, ◌∙◌, ap,
  sym, leb, Bool-cases, inl, inr,
}
use dns_server_mandiri.Ratelimit.Budget.{Fits, allow_iff}
use dns_server_mandiri.Ratelimit.{
  Bucket, Limiter, token, new_bucket, bucket_of, refill, allow, is_stale, stale_loop, cleanup_stale,
}

abbrev pending : Limiter → ℕ → Option Bucket → Option Bucket → Option Bucket
pending l now none left = left
pending l now (some b) left = if is_stale l now b then none else left

abbrev stale_step : Limiter → ℕ → Text → Bucket → Dict Bucket → Dict Bucket
stale_step l now ip b m = if is_stale l now b then delete ip m else m

pending-step :
    (l : Limiter) (now : ℕ) (ip j : Text) (b : Bucket) (rest m : Dict Bucket)
    → lookup ip rest ≡ none
    → pending l now (lookup j rest) (lookup j (stale_step l now ip b m))
      ≡ pending l now (lookup j ((ip, b) ∷ rest)) (lookup j m)
unfolding lookup
pending-step l now ip j b rest m gone = ground (arith, eq_iff ip j, lookup-delete ip j m)

lookup-stale_loop :
    (l : Limiter) (now : ℕ) (j : Text) (rest m : Dict Bucket)
    → Distinct rest
    → lookup j (stale_loop l now rest m) ≡ pending l now (lookup j rest) (lookup j m)
unfolding stale_loop lookup
lookup-stale_loop l now j [] m d = refl
lookup-stale_loop l now j ((ip, b) ∷ rest) m d =
    lookup-stale_loop l now j rest (stale_step l now ip b m) d.1
    ∙ pending-step l now ip j b rest m d.0

abbrev pub unless_stale : Limiter → ℕ → Option Bucket → Option Bucket
unless_stale l now none = none
unless_stale l now (some b) = if is_stale l now b then none else some b

-- `cleanupStale` drops exactly the buckets that were idle for longer than two intervals.
pub lookup-cleanup_stale :
    (now : ℕ) (j : Text) (l : Limiter)
    → Distinct l.buckets
    → lookup j (cleanup_stale now l).buckets ≡ unless_stale l now (lookup j l.buckets)
unfolding cleanup_stale
lookup-cleanup_stale now j l d =
    lookup-stale_loop l now j l.buckets l.buckets d ∙ same (lookup j l.buckets)
  where
    same : (o : Option Bucket) → pending l now o o ≡ unless_stale l now o
    same none = refl
    same (some b) = refl

pub mul_mono : (a b r : ℕ) → a ≤ b → a * r ≤ b * r
mul_mono a b r h = grind arith

refill-stale :
    (l : Limiter) (now later : ℕ) (b : Bucket)
    → l.burst * token ≤ 2 * l.cleanup * l.rate
    → b.tokens ≤ l.burst * token
    → is_stale l now b ≡ true
    → now ≤ later
    → (refill l later b).tokens ≡ l.burst * token
unfolding refill is_stale
refill-stale l now later b fills fits old h =
    let e : 2 * l.cleanup * l.rate ≤ (later - b.last_time) * l.rate =
      mul_mono (2 * l.cleanup) (later - b.last_time) l.rate (ground arith) in
    ground (arith, e)

refill-new :
    (l : Limiter) (later : ℕ) → (refill l later (new_bucket l later)).tokens ≡ l.burst * token
unfolding refill new_bucket
refill-new l later = let e : (later - later) * l.rate ≡ 0 = grind arith in ground (arith, e)

same-tokens :
    (l : Limiter) (now later : ℕ) (o : Option Bucket)
    → l.burst * token ≤ 2 * l.cleanup * l.rate
    → ((b : Bucket) → o ≡ some b → b.tokens ≤ l.burst * token)
    → now ≤ later
    → (refill l later (bucket_of l later (unless_stale l now o))).tokens
      ≡ (refill l later (bucket_of l later o)).tokens
unfolding bucket_of
same-tokens l now later none fills fits h = refl
same-tokens l now later (some b) fills fits h = elim (Bool-cases (is_stale l now b)) [
  | inl old ↦
      rw old (refill-new l later ∙ sym (refill-stale l now later b fills (fits b refl) old h))
  | inr kept ↦ rw kept
]

-- A refill reads only the settings of the limiter.
other-buckets :
    (now : ℕ) (m : Dict Bucket) (o : Option Bucket) (l : Limiter)
    → (refill (record l { buckets = m }) now (bucket_of (record l { buckets = m }) now o)).tokens
      ≡ (refill l now (bucket_of l now o)).tokens
unfolding refill bucket_of new_bucket
other-buckets now m none l = refl
other-buckets now m (some b) l = refl

-- Where two intervals suffice to refill a bucket, dropping the stale buckets changes no decision
-- on a later request, of any client.
pub allow-cleanup_stale :
    (ip : Text) (now later : ℕ) (l : Limiter)
    → Distinct l.buckets
    → Fits l
    → l.burst * token ≤ 2 * l.cleanup * l.rate
    → now ≤ later
    → (allow ip later (cleanup_stale now l)).1 ≡ (allow ip later l).1
unfolding cleanup_stale
allow-cleanup_stale ip now later l d fits fills h =
    allow_iff ip later (cleanup_stale now l)
    ∙ (ap (leb token) (
          other-buckets later _ (lookup ip (cleanup_stale now l).buckets) l
          ∙ (ap (λ o. (refill l later (bucket_of l later o)).tokens)
                (lookup-cleanup_stale now ip l d)
              ∙ same-tokens l now later (lookup ip l.buckets) fills (λ b at. fits ip b at) h))
        ∙ sym (allow_iff ip later l))
