-- ===== src/Failover/Answers.antt =====
-- What a resolution by the upstreams returns, and what it leaves of their health.
use dns_server_mandiri.Dns.{Msg, DnsLib, rcode_server_failure}
use dns_server_mandiri.Failover.Order.{mem-get_ordered_upstreams, mem_of-get_ordered_upstreams}
use dns_server_mandiri.Failover.{
  Failover, World, answered, exhausted, is_healthy, accepted, upstream_loop, query, resolve,
  get_ordered_upstreams,
}
use dns_server_mandiri.Prelude.Text.{Text}
use dns_server_mandiri.Prelude.{
  ℕ, suc, ◌≡◌, ◌≢◌, refl, true, false, some, List, [], ◌∷◌, Bool-cases, if◌then◌else◌, inl, inr, ap,
  sym, ◌∙◌,
}
use mathlib.Core.List.{Memᴰ}
use mathlib.Core.List.Memᴰ.{head, tail}
use dns_server_mandiri.Failover.Turns.{
  port, gave_up, was_answered, reply_or, false-ne-true, some-ne-none, snd, retry_sound, retry_live,
  lost_health, no_health, back, tried, marked, upstream_cases,
}

exhausted-keeps :
    (w : World) (msg : Msg) (ups : List Text) (n : ℕ) (f : Failover) (j : Text)
    → (upstream_loop w msg ups n f).1 ≡ exhausted
    → is_healthy f j ≡ false
    → is_healthy (upstream_loop w msg ups n f).0 j ≡ false
unfolding upstream_loop
exhausted-keeps w msg [] n f j e h = h
exhausted-keeps w msg (us ∷ rest) n f j e h = elim (upstream_cases w msg us rest n f) [
  | inl (stop, same) ↦ absurd (false-ne-true (ap gave_up (sym (ap snd same) ∙ e)))
  | inr (inl (r, _, same)) ↦ absurd (false-ne-true (ap gave_up (sym (ap snd same) ∙ e)))
  | inr (inr (_, same)) ↦ rw same (
      exhausted-keeps w msg rest (tried w msg us n f).0 (marked w msg us n f) j
        (sym (ap snd same) ∙ e) (lost_health _ us j f h))
]

exhausted-all :
    (w : World) (msg : Msg) (ups : List Text) (n : ℕ) (f : Failover) (j : Text)
    → (upstream_loop w msg ups n f).1 ≡ exhausted
    → Memᴰ j ups
    → is_healthy (upstream_loop w msg ups n f).0 j ≡ false
exhausted-all w msg [] n f j e i = elim i [ ]
exhausted-all w msg (us ∷ rest) n f j e (head p) = elim (upstream_cases w msg us rest n f) [
  | inl (stop, same) ↦ absurd (false-ne-true (ap gave_up (sym (ap snd same) ∙ e)))
  | inr (inl (r, _, same)) ↦ absurd (false-ne-true (ap gave_up (sym (ap snd same) ∙ e)))
  | inr (inr (_, same)) ↦
      rw (same, p)
        (exhausted-keeps w msg rest (tried w msg us n f).0 (marked w msg us n f) us
          (sym (ap snd same) ∙ e) (no_health _ us f))
]
exhausted-all w msg (us ∷ rest) n f j e (tail k) = elim (upstream_cases w msg us rest n f) [
  | inl (stop, same) ↦ absurd (false-ne-true (ap gave_up (sym (ap snd same) ∙ e)))
  | inr (inl (r, _, same)) ↦ absurd (false-ne-true (ap gave_up (sym (ap snd same) ∙ e)))
  | inr (inr (_, same)) ↦ rw same (
      exhausted-all w msg rest (tried w msg us n f).0 (marked w msg us n f) j
        (sym (ap snd same) ∙ e) k)
]

-- The reply came from an upstream of the list, which is left healthy.
abbrev pub Source : World → Msg → List Text → Failover → Msg → Type 0
Source w msg ups f resp =
    (us : Text) × (n : ℕ) × Memᴰ us ups
    × (w.exchange n (port us) msg ≡ some resp)
    × (resp.rcode ≢ rcode_server_failure)
    × (is_healthy f us ≡ true)

answered_sound :
    (w : World) (msg : Msg) (ups : List Text) (n : ℕ) (f : Failover) (resp : Msg)
    → (upstream_loop w msg ups n f).1 ≡ answered resp
    → Source w msg ups (upstream_loop w msg ups n f).0 resp
unfolding upstream_loop
answered_sound w msg [] n f resp e = absurd (false-ne-true (ap was_answered e))
answered_sound w msg (us ∷ rest) n f resp e = elim (upstream_cases w msg us rest n f) [
  | inl (stop, same) ↦ absurd (false-ne-true (ap was_answered (sym (ap snd same) ∙ e)))
  | inr (inl ((r, lat), got, same)) ↦
      let is : r ≡ resp = ap (reply_or r) (sym (ap snd same) ∙ e) in
      let (k, at, ok) = retry_sound w msg (port us) (suc f.cfg.max_retries) n r lat got in
      rw (same, sym is) (us, k, head refl, at, ok, back us lat f)
  | inr (inr (_, same)) ↦ rw same (
      let (j, k, i, at, ok, up) =
        answered_sound w msg rest (tried w msg us n f).0 (marked w msg us n f) resp
          (sym (ap snd same) ∙ e) in
      (j, k, tail i, at, ok, up))
]

-- An upstream that accepts every time is enough.
live :
    (w : World) (msg : Msg) (ups : List Text) (n : ℕ) (f : Failover) (j : Text)
    → Memᴰ j ups
    → ((k : ℕ) → w.done k ≡ false)
    → ((k : ℕ) → (r : Msg) × (accepted (w.exchange k (port j) msg) ≡ some r))
    → was_answered (upstream_loop w msg ups n f).1 ≡ true
live w msg [] n f j i on up = elim i [ ]
live w msg (us ∷ rest) n f j (head p) on up = elim (upstream_cases w msg us rest n f) [
  | inl (stop, same) ↦ absurd (false-ne-true (sym (on n) ∙ stop))
  | inr (inl (r, _, same)) ↦ rw same refl
  | inr (inr (failed, same)) ↦
      let (r, e) = up n in
      absurd
        (some-ne-none (sym (retry_live w msg (port us) f.cfg.max_retries n r (rw p at e)) ∙ failed))
]
live w msg (us ∷ rest) n f j (tail i) on up = elim (upstream_cases w msg us rest n f) [
  | inl (stop, same) ↦ absurd (false-ne-true (sym (on n) ∙ stop))
  | inr (inl (r, _, same)) ↦ rw same refl
  | inr (inr (_, same)) ↦
      rw same (live w msg rest (tried w msg us n f).0 (marked w msg us n f) j i on up)
]

module _ (lib : DnsLib) (w : World) (blank : Msg) (name : Text) (qtype : ℕ) (f : Failover) where
  resolve_on :
      f.cfg.enabled ≡ true
      → resolve lib w blank name qtype f
        ≡ upstream_loop w (query lib blank name qtype) (get_ordered_upstreams f) 0 f
  unfolding resolve
  resolve_on on =
      ap
        (λ b.
          if b
          then upstream_loop w (query lib blank name qtype) (get_ordered_upstreams f) 0 f
          else (f, exhausted))
        on

  -- A resolution that answers hands out a reply that a configured upstream gave to the query and
  -- that is not SERVFAIL, and leaves that upstream marked healthy.
  pub resolve-answered :
      (resp : Msg)
      → (resolve lib w blank name qtype f).1 ≡ answered resp
      → Source w
          (query lib blank name qtype)
          f.cfg.upstreams
          (resolve lib w blank name qtype f).0
          resp
  unfolding resolve
  resolve-answered resp e = elim (Bool-cases f.cfg.enabled) [
    | inr off ↦ absurd (
        false-ne-true (
          ap was_answered (
            sym (
              ap
                (λ b. snd (
                  if b
                  then upstream_loop w (query lib blank name qtype) (get_ordered_upstreams f) 0 f
                  else (f, exhausted)))
                off)
            ∙ e)))
    | inl on ↦ rw (resolve_on on) (
        let (us, k, i, at, ok, up) =
          answered_sound w (query lib blank name qtype) (get_ordered_upstreams f) 0 f resp
            (rw (resolve_on on) at e) in
        (us, k, mem_of-get_ordered_upstreams f us i, at, ok, up))
  ]

  -- A resolution that gives up, with the failover enabled, leaves every configured upstream marked
  -- unhealthy.
  pub resolve-exhausted :
      (us : Text)
      → f.cfg.enabled ≡ true
      → Memᴰ us f.cfg.upstreams
      → (resolve lib w blank name qtype f).1 ≡ exhausted
      → is_healthy (resolve lib w blank name qtype f).0 us ≡ false
  resolve-exhausted us on i e = rw (resolve_on on) (
      exhausted-all w (query lib blank name qtype) (get_ordered_upstreams f) 0 f us
        (rw (resolve_on on) at e) (mem-get_ordered_upstreams f us i))

  -- If the failover is enabled, the context is never done and one configured upstream accepts at
  -- every exchange, a resolution answers, whatever the other upstreams do.
  pub resolve_live :
      (us : Text)
      → f.cfg.enabled ≡ true
      → Memᴰ us f.cfg.upstreams
      → ((k : ℕ) → w.done k ≡ false)
      → ((k : ℕ)
          → (r : Msg) × (accepted (w.exchange k (port us) (query lib blank name qtype)) ≡ some r))
      → was_answered (resolve lib w blank name qtype f).1 ≡ true
  resolve_live us on i running up = rw (resolve_on on) (
      live w (query lib blank name qtype) (get_ordered_upstreams f) 0 f us
        (mem-get_ordered_upstreams f us i) running up)
