-- ===== src/Ratelimit/Traces.antt =====
-- What a client is allowed in total, with the cleanup of the stale buckets running beside.
use dns_server_mandiri.Prelude.Dict.{
  Dict, lookup, Distinct, Distinct-insert, Distinct-delete, lookup-insert_self,
}
use dns_server_mandiri.Prelude.Text.{Text, ◌==◌, eq_iff}
use dns_server_mandiri.Prelude.{
  ℕ, suc, subst, sym, le_trans, ◌+◌, ◌-◌, ◌*◌, ◌≤◌, ◌≡◌, ◌≢◌, Bool, true, false, some, List, [],
  ◌∷◌, arith, if◌then◌else◌, Bool-cases, inl, inr, by_if,
}
use dns_server_mandiri.Ratelimit.Budget.{allow_ne}
use dns_server_mandiri.Ratelimit.Credit.{
  credit, Seen, credit-wait, seen-spend, granted_self, credit-unless_stale, Seen-unless_stale,
  Seen-later,
}
use dns_server_mandiri.Ratelimit.Stale.{lookup-cleanup_stale}
use dns_server_mandiri.Ratelimit.{
  Bucket, Limiter, token, init, bucket_of, refill, spend, allow, is_stale, stale_loop,
  cleanup_stale,
}

-- What happens to the limiter: a request of a client, or a round of `cleanupStale`, with its time.
pub data Event : Type 0 where
  request : Text → ℕ → Event
  cleaning : ℕ → Event

abbrev pub time_of : Event → ℕ
time_of (Event.request ip now) = now
time_of (Event.cleaning now) = now

-- How many of the requests of `j` are allowed.
unfoldable pub granted : Text → List Event → Limiter → ℕ
granted j [] l = 0
granted j (Event.cleaning now ∷ rs) l = granted j rs (cleanup_stale now l)
granted j (Event.request ip now ∷ rs) l =
    let more = granted j rs (allow ip now l).0 in
    if (ip == j) then (if (allow ip now l).1 then suc more else more) else more

-- The times do not fall, and lie between `from` and `to`.
abbrev pub Timed : ℕ → ℕ → List Event → Type 0
Timed from to [] = from ≤ to
Timed from to (e ∷ rs) = (from ≤ time_of e) × Timed (time_of e) to rs

Timed-le : (from to : ℕ) (rs : List Event) → Timed from to rs → from ≤ to
Timed-le from to [] t = t
Timed-le from to (e ∷ rs) t = omega (arith, t.0, Timed-le (time_of e) to rs t.1)

module _ (ip j : Text) (now to g : ℕ) (l : Limiter) where
  -- What the bound says of the requests that follow one of `ip`, `g` of them allowed.
  abbrev Rest : Type 0
  Rest =
      Seen now (lookup j (allow ip now l).0.buckets)
      → g * token
        ≤ credit (allow ip now l).0 now (lookup j (allow ip now l).0.buckets) + (to - now) * l.rate

  step-other :
      ip ≢ j
      → Seen now (lookup j l.buckets)
      → Rest
      → g * token ≤ credit l now (lookup j l.buckets) + (to - now) * l.rate
  unfolding allow
  step-other ne s ih = rw (allow_ne ip j now l ne) at (ih s')
    where
      s' : Seen now (lookup j (allow ip now l).0.buckets)
      s' = rw (allow_ne ip j now l ne) s

step_self :
    (ip : Text) (now to g : ℕ) (l : Limiter)
    → now ≤ to
    → Rest ip ip now to g l
    → (if (allow ip now l).1 then suc g else g) * token
      ≤ credit l now (lookup ip l.buckets) + (to - now) * l.rate
unfolding allow
step_self ip now to g l h ih =
    granted_self ip now to g l h (lookup ip l.buckets)
      (rw stored at (ih (rw stored (omega (arith, seen-spend l now (lookup ip l.buckets))))))
  where
    stored :
        lookup ip (allow ip now l).0.buckets
        ≡ some (spend (refill l now (bucket_of l now (lookup ip l.buckets)))).0
    stored = lookup-insert_self ip _ l.buckets

abbrev Bound : Text → Text → ℕ → ℕ → ℕ → Limiter → Type 0
Bound ip j now to g l =
    Rest ip j now to g l
    → (if (allow ip now l).1 then suc g else g) * token
      ≤ credit l now (lookup j l.buckets) + (to - now) * l.rate

cleanup-Distinct :
    (l : Limiter) (now : ℕ) (rest m : Dict Bucket) → Distinct m → Distinct (stale_loop l now rest m)
unfolding stale_loop
cleanup-Distinct l now [] m d = d
cleanup-Distinct l now ((ip, b) ∷ rest) m d =
    cleanup-Distinct l now rest _
      (by_if Distinct (is_stale l now b) _ _ (λ _. Distinct-delete ip m d) (λ _. d))

wait :
    (j : Text) (from now to : ℕ) (rs : List Event) (l : Limiter)
    → Seen from (lookup j l.buckets)
    → from ≤ now
    → Timed now to rs
    → credit l now (lookup j l.buckets) + (to - now) * l.rate
      ≤ credit l from (lookup j l.buckets) + (to - from) * l.rate
wait j from now to rs l s h t =
    credit-wait l from now to (lookup j l.buckets) s h (Timed-le now to rs t)

granted-bound :
    (j : Text) (from to : ℕ) (rs : List Event) (l : Limiter)
    → Distinct l.buckets
    → l.burst * token ≤ 2 * l.cleanup * l.rate
    → Timed from to rs
    → Seen from (lookup j l.buckets)
    → granted j rs l * token ≤ credit l from (lookup j l.buckets) + (to - from) * l.rate
unfolding granted allow cleanup_stale
granted-bound j from to [] l d fills t s = omega arith
granted-bound j from to (Event.cleaning now ∷ rs) l d fills t s =
    let s' = Seen-later (lookup j l.buckets) s t.0 in
    let at = lookup-cleanup_stale now j l d in
    let left = subst (Seen now) (sym at) (Seen-unless_stale l now (lookup j l.buckets) s') in
    let ih =
      granted-bound j now to rs (cleanup_stale now l) (cleanup-Distinct l now l.buckets l.buckets d)
        fills t.1 left in
    let e =
      subst (λ o. credit l now o ≤ credit l now (lookup j l.buckets)) (sym at)
        (credit-unless_stale l now (lookup j l.buckets) fills) in
    omega (arith, ih, e, wait j from now to rs l s t.0 t.1)
granted-bound j from to (Event.request ip now ∷ rs) l d fills t s =
    let g = granted j rs (allow ip now l).0 in
    let ih : Rest ip j now to g l = λ s'.
      granted-bound j now to rs (allow ip now l).0 (Distinct-insert ip _ l.buckets d) fills t.1
        s' in
    elim (Bool-cases (ip == j)) [
      | inl same ↦ rw same (
          le_trans
            (subst (λ k. Bound ip k now to g l) ((eq_iff ip j).0 same)
              (step_self ip now to g l (Timed-le now to rs t.1)) ih)
            (wait j from now to rs l s t.0 t.1))
      | inr other ↦ rw other (
          le_trans
            (step-other ip j now to g l (λ e. clash other ((eq_iff ip j).1 e))
              (Seen-later (lookup j l.buckets) s t.0) ih)
            (wait j from now to rs l s t.0 t.1))
    ]
  where
    clash : {b : Bool} → b ≡ false → b ≡ true → ⊥
    clash p q = cc

-- For events in the order of their times, from a fresh limiter whose buckets refill within two
-- cleanup intervals, whatever the other clients do and whenever the cleanup runs, the requests of
-- one client that are allowed between two times are at most the burst and the rate times the time
-- passed.
pub granted-le :
    (j : Text) (from to rate burst cleanup : ℕ) (rs : List Event)
    → burst * token ≤ 2 * cleanup * rate
    → Timed from to rs
    → granted j rs (init rate burst cleanup) * token ≤ burst * token + (to - from) * rate
unfolding init lookup
granted-le j from to rate burst cleanup rs fills t =
    granted-bound j from to rs (init rate burst cleanup) tt fills t tt
