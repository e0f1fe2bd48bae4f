-- ===== src/Failover/Recovery.antt =====
-- What the health check does to the marks.
use dns_server_mandiri.Dns.{Msg, DnsLib}
use dns_server_mandiri.Failover.Turns.{port}
use dns_server_mandiri.Failover.{
  Failover, World, is_healthy, or_false, to_check, recovered, check_loop, check_unhealthy,
  mark_healthy,
}
use dns_server_mandiri.Prelude.Dict.{Dict, lookup, lookup-insert, lookup-insert_self}
use dns_server_mandiri.Prelude.Text.{Text, text, eq_iff, ◌==◌}
use dns_server_mandiri.Prelude.{
  ℕ, ◌+◌, ◌≡◌, refl, Bool, true, false, ◌||◌, some, List, [], ◌∷◌, if◌then◌else◌, Bool-cases, inl,
  inr, arith, ap, sym, ◌∙◌,
}
use mathlib.Core.List.{Memᴰ}
use mathlib.Core.List.Memᴰ.{head, tail}

mem-to_check : (d : Dict Bool) (us : Text) → lookup us d ≡ some false → Memᴰ us (to_check d)
unfolding lookup to_check
mem-to_check [] us h = ground arith
mem-to_check ((j, b) ∷ d) us h = elim (Bool-cases (j == us)) [
  | inl e ↦ let gone : b ≡ false = ground (arith, e) in rw gone (head (sym ((eq_iff j us).0 e)))
  | inr e ↦ let more = mem-to_check d us (rw e at h) in later b more
]
  where
    later : (b : Bool) → Memᴰ us (to_check d) → Memᴰ us (if b then to_check d else j ∷ to_check d)
    later true i = i
    later false i = tail i

kept :
    (us j : Text) (b : Bool) (f : Failover)
    → is_healthy f j ≡ true
    → is_healthy (if b then mark_healthy us f else f) j ≡ true
unfolding is_healthy mark_healthy
kept us j true f h = ground (arith, lookup-insert us j true f.healthy)
kept us j false f h = h

back :
    (us : Text) (b : Bool) (f : Failover) (j : Text)
    → j ≡ us
    → b ≡ true
    → is_healthy (if b then mark_healthy us f else f) j ≡ true
unfolding is_healthy mark_healthy
back us b f j p h = rw (h, p) (ap or_false (lookup-insert_self us true f.healthy))

other :
    (us : Text) (b : Bool) (f : Failover) (j : Text)
    → (j ≡ us → b ≡ false)
    → is_healthy (if b then mark_healthy us f else f) j ≡ is_healthy f j
unfolding is_healthy mark_healthy
other us false f j h = refl
other us true f j h = ground (arith, lookup-insert us j true f.healthy, eq_iff us j)

loop_keeps :
    (w : World) (msg : Msg) (ups : List Text) (n : ℕ) (f : Failover) (j : Text)
    → is_healthy f j ≡ true
    → is_healthy (check_loop w msg ups n f) j ≡ true
unfolding check_loop
loop_keeps w msg [] n f j h = h
loop_keeps w msg (us ∷ rest) n f j h =
    loop_keeps w msg rest (n + 1) _ j (kept us j (recovered (w.exchange n (port us) msg)) f h)

loop_recovers :
    (w : World) (msg : Msg) (ups : List Text) (n : ℕ) (f : Failover) (j : Text)
    → Memᴰ j ups
    → ((k : ℕ) → recovered (w.exchange k (port j) msg) ≡ true)
    → is_healthy (check_loop w msg ups n f) j ≡ true
unfolding check_loop
loop_recovers w msg [] n f j i up = elim i [ ]
loop_recovers w msg (us ∷ rest) n f j (tail i) up = loop_recovers w msg rest (n + 1) _ j i up
loop_recovers w msg (us ∷ rest) n f j (head p) up =
    loop_keeps w msg rest (n + 1) _ j
      (back us (recovered (w.exchange n (port us) msg)) f j p (rw p at up n))

loop_stays :
    (w : World) (msg : Msg) (ups : List Text) (n : ℕ) (f : Failover) (j : Text)
    → ((k : ℕ) → recovered (w.exchange k (port j) msg) ≡ false)
    → is_healthy (check_loop w msg ups n f) j ≡ is_healthy f j
unfolding check_loop
loop_stays w msg [] n f j down = refl
loop_stays w msg (us ∷ rest) n f j down =
    loop_stays w msg rest (n + 1) _ j down
    ∙ other us (recovered (w.exchange n (port us) msg)) f j (λ p. rw p at down n)

module _ (lib : DnsLib) (w : World) (blank : Msg) (f : Failover) where
  -- The question that the health check sends.
  abbrev pub probe : Msg
  probe = record (lib.set_question blank (text ".") 2) { recursion_desired = true }

  -- After a health check, an upstream whose replies to the probe are all a success, or all not one,
  -- is marked healthy if it was marked so before or its replies are a success, and only then.
  pub check_unhealthy_lem :
      (us : Text) (was success : Bool)
      → lookup us f.healthy ≡ some was
      → ((k : ℕ) → recovered (w.exchange k (port us) probe) ≡ success)
      → is_healthy (check_unhealthy lib w blank f) us ≡ (was || success)
  unfolding check_unhealthy is_healthy
  check_unhealthy_lem us true success h up =
      loop_keeps w probe (to_check f.healthy) 0 f us (ap or_false h)
  check_unhealthy_lem us false true h up =
      loop_recovers w probe (to_check f.healthy) 0 f us (mem-to_check f.healthy us h) up
  check_unhealthy_lem us false false h up =
      loop_stays w probe (to_check f.healthy) 0 f us up ∙ ap or_false h
