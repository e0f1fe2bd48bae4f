-- ===== src/Failover/Turns.antt =====
-- One turn of the loop over the upstreams, and the loop over the retries in it.
use dns_server_mandiri.Dns.{Msg, rcode_server_failure}
use dns_server_mandiri.Failover.{
  Failover, World, Result, answered, cancelled, exhausted, is_healthy, or_false, accepted,
  retry_loop, upstream_loop, mark_healthy, mark_unhealthy, record_latency,
}
use dns_server_mandiri.Prelude.Dict.{lookup-insert, lookup-insert_self}
use dns_server_mandiri.Prelude.Text.{Text, text}
use dns_server_mandiri.Prelude.{
  ℕ, zero, suc, ◌+◌, ◌≡◌, ◌≢◌, refl, Bool, true, false, Option, none, some, List, ◌∷◌, ◌++◌,
  Bool-cases, ◌⊎◌, Option-cases, inl, inr, arith, ap, sym, ◌∙◌,
}

abbrev pub port : Text → Text
port us = us ++ text ":53"

-- Whether a resolution gave up.
abbrev pub gave_up : Result → Bool
gave_up exhausted = true
gave_up cancelled = false
gave_up (answered _) = false

abbrev pub was_answered : Result → Bool
was_answered (answered _) = true
was_answered cancelled = false
was_answered exhausted = false

abbrev pub reply_or : Msg → Result → Msg
reply_or m (answered r) = r
reply_or m exhausted = m
reply_or m cancelled = m

abbrev pub reply_of : Msg → Option (Msg × ℕ) → Msg
reply_of m none = m
reply_of m (some r) = r.0

pub accepted_lem :
    (o : Option Msg) (resp : Msg)
    → accepted o ≡ some resp
    → (o ≡ some resp) × (resp.rcode ≢ rcode_server_failure)
unfolding accepted
accepted_lem none resp h = ground arith
accepted_lem (some m) resp h = ground arith

pub false-ne-true : false ≢ true
false-ne-true h = ground arith

pub some-ne-none : {r : Msg × ℕ} → some r ≢ none
some-ne-none h = ground arith

abbrev pub snd : Failover × Result → Result
snd r = r.1

pub retry_sound :
    (w : World) (msg : Msg) (addr : Text) (left n : ℕ) (resp : Msg) (lat : ℕ)
    → (retry_loop w msg addr left n).1 ≡ some (resp, lat)
    → (k : ℕ) × (w.exchange k addr msg ≡ some resp) × (resp.rcode ≢ rcode_server_failure)
unfolding retry_loop
retry_sound w msg addr zero n resp lat h = ground arith
retry_sound w msg addr (suc left) n resp lat h =
    elim (Option-cases (accepted (w.exchange n addr msg))) [
      | inl e ↦ retry_sound w msg addr left (n + 1) resp lat (rw (e, retry_loop) at h)
      | inr (r, e) ↦
          let (a, b) = accepted_lem (w.exchange n addr msg) r e in
          let same : r ≡ resp = ap (reply_of r) (rw (e, retry_loop) at h) in
          (n, a ∙ ap some same, rw (sym same) b)
    ]

pub retry_live :
    (w : World) (msg : Msg) (addr : Text) (left n : ℕ) (r : Msg)
    → accepted (w.exchange n addr msg) ≡ some r
    → (retry_loop w msg addr (suc left) n).1 ≡ some (r, w.latency n)
unfolding retry_loop
retry_live w msg addr left n r h = rw (h, retry_loop) refl

pub lost_health :
    (now : ℕ) (us j : Text) (f : Failover)
    → is_healthy f j ≡ false
    → is_healthy (mark_unhealthy now us f) j ≡ false
unfolding is_healthy mark_unhealthy
lost_health now us j f h = ground (arith, lookup-insert us j false f.healthy)

pub no_health :
    (now : ℕ) (us : Text) (f : Failover) → is_healthy (mark_unhealthy now us f) us ≡ false
unfolding is_healthy mark_unhealthy
no_health now us f = ap or_false (lookup-insert_self us false f.healthy)

pub back :
    (us : Text) (lat : ℕ) (f : Failover)
    → is_healthy (record_latency us lat (mark_healthy us f)) us ≡ true
unfolding is_healthy mark_healthy record_latency
back us lat f = ap or_false (lookup-insert_self us true f.healthy)

-- One turn of the loop over the upstreams.
abbrev pub tried : World → Msg → Text → ℕ → Failover → ℕ × Option (Msg × ℕ)
tried w msg us n f = retry_loop w msg (port us) (suc f.cfg.max_retries) n

abbrev pub marked : World → Msg → Text → ℕ → Failover → Failover
marked w msg us n f = mark_unhealthy (w.clock (tried w msg us n f).0) us f

abbrev pub after : World → Msg → Text → List Text → ℕ → Failover → Failover × Result
after w msg us rest n f = upstream_loop w msg rest (tried w msg us n f).0 (marked w msg us n f)

pub upstream_cases :
    (w : World) (msg : Msg) (us : Text) (rest : List Text) (n : ℕ) (f : Failover)
    → ((w.done n ≡ true) × (upstream_loop w msg (us ∷ rest) n f ≡ (f, cancelled)))
      ⊎ ((r : Msg × ℕ) × ((tried w msg us n f).1 ≡ some r)
          × (upstream_loop w msg (us ∷ rest) n f
              ≡ (record_latency us r.1 (mark_healthy us f), answered r.0)))
      ⊎ (((tried w msg us n f).1 ≡ none)
          × (upstream_loop w msg (us ∷ rest) n f ≡ after w msg us rest n f))
unfolding upstream_loop
upstream_cases w msg us rest n f = elim (Bool-cases (w.done n)) [
  | inl e ↦ inl (e, rw e refl)
  | inr e ↦ elim (Option-cases (tried w msg us n f).1) [
    | inr (r, h) ↦ inr (inl (r, h, rw (e, h) refl))
    | inl h ↦ inr (inr (h, rw (e, h) refl))
  ]
]
