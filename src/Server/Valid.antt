-- ===== src/Server/Valid.antt =====
-- When the state of the server is well formed, and changes that keep it so.
use dns_server_mandiri.Cache.Evict.{IsValid as CacheIsValid}
use dns_server_mandiri.Clientstats.Bounds.{
  IsValid as ClientsAreValid, record_query-IsValid, later-IsValid as clients-later,
}
use dns_server_mandiri.Clientstats.{Tracker}
use dns_server_mandiri.Dns.{Msg, Question}
use dns_server_mandiri.Failover.{Failover, Result, answered, cancelled, exhausted}
use dns_server_mandiri.Filter.Counts.{IsSmall, record_blocked-IsSmall}
use dns_server_mandiri.Filter.{Filter, check, allowed, refused, contains, parent_loop}
use dns_server_mandiri.Metrics.Whole.{IsWhole, rate_limited-IsWhole}
use dns_server_mandiri.Prelude.Strings.{to_lower, ends_with_dot, split, trim_dot}
use dns_server_mandiri.Prelude.Text.{Text}
use dns_server_mandiri.Prelude.{
  ℕ, ◌≤◌, ◌≡◌, ◌≢◌, refl, Bool, true, false, Option, none, some, [], ◌∷◌, All, by_if, arith, add64,
}
use dns_server_mandiri.Ratelimit.Budget.{Fits, allow-Fits}
use dns_server_mandiri.Ratelimit.{Limiter}
use dns_server_mandiri.Resolver.{Run, Outcome, reply, failed, out_of_fuel}
use dns_server_mandiri.Server.{Server, Moment, ask_limiter, count_client}

abbrev pub LimiterFits : Option Limiter → Type 0
LimiterFits none = Unit
LimiterFits (some l) = Fits l

abbrev pub TrackerIsValid : ℕ → Option Tracker → Type 0
TrackerIsValid now none = Unit
TrackerIsValid now (some c) = ClientsAreValid now c

-- The state between requests, at a time that is not before the last query of any client.
pub record IsValid (now : ℕ) (s : Server) : Type 0 where
  pub cache : CacheIsValid s.run.cache
  pub metrics : IsWhole s.metrics
  pub blocked : IsSmall s.filter.blocked_counts
  pub buckets : LimiterFits s.limiter
  pub clients : TrackerIsValid now s.client_stats

-- A request as the network library hands it over: the names are not empty, and time goes on.
pub record IsRequest (now : ℕ) (t : Moment) (r : Msg) : Type 0 where
  pub client : t.client_ip ≢ []
  pub named : All (λ (q : Question). q.name ≢ []) r.question
  pub first : now ≤ t.first_seen
  pub last : t.first_seen ≤ t.last_seen

pub by_result {ℓ κ} :
    {A : Type ℓ} (P : A → Type κ) (got : Result) (f : Msg → A) (y : A)
    → ((m : Msg) → P (f m))
    → P y
    → P (elim got [ answered m ↦ f m | cancelled ↦ y | exhausted ↦ y ])
by_result P (answered m) f y p q = p m
by_result P cancelled f y p q = q
by_result P exhausted f y p q = q

pub by_outcome {ℓ κ} :
    {A : Type ℓ} (P : A → Type κ) (got : Outcome) (f : Msg → A) (y : A)
    → ((m : Msg) → P (f m))
    → P y
    → P (elim got [ reply m ↦ f m | failed _ ↦ y | out_of_fuel ↦ y ])
by_outcome P (reply m) f y p q = p m
by_outcome P (failed e) f y p q = q
by_outcome P out_of_fuel f y p q = q

-- Changes of one component of the server.
pub failed_over :
    (now : ℕ) (s : Server) (x : Failover) → IsValid now s → IsValid now (record s { failover = x })
failed_over now s x v = record {
  cache = v.cache;
  metrics = v.metrics;
  blocked = v.blocked;
  buckets = v.buckets;
  clients = v.clients;
}

pub ran :
    (now : ℕ) (s : Server) (x : Run)
    → IsValid now s
    → CacheIsValid x.cache
    → IsValid now (record s { run = x })
ran now s x v h = record {
  cache = h;
  metrics = v.metrics;
  blocked = v.blocked;
  buckets = v.buckets;
  clients = v.clients;
}

pub filtered :
    (now : ℕ) (s : Server) (x : Filter)
    → IsValid now s
    → IsSmall x.blocked_counts
    → IsValid now (record s { filter = x })
filtered now s x v h = record {
  cache = v.cache;
  metrics = v.metrics;
  blocked = h;
  buckets = v.buckets;
  clients = v.clients;
}

pub limited :
    (now : ℕ) (s : Server) (x : Option Limiter)
    → IsValid now s
    → LimiterFits x
    → IsValid now (record s { limiter = x })
limited now s x v h = record {
  cache = v.cache;
  metrics = v.metrics;
  blocked = v.blocked;
  buckets = h;
  clients = v.clients;
}

pub counted :
    (now : ℕ) (s : Server)
    → IsValid now s
    → IsValid now (record s {
      metrics = record (s.metrics) { rate_limited = add64 s.metrics.rate_limited 1 };
    })
counted now s v = record {
  cache = v.cache;
  metrics = rate_limited-IsWhole s.metrics v.metrics;
  blocked = v.blocked;
  buckets = v.buckets;
  clients = v.clients;
}

pub tracker-later :
    (now later : ℕ) (c : Option Tracker)
    → now ≤ later
    → TrackerIsValid now c
    → TrackerIsValid later c
tracker-later now later none h v = tt
tracker-later now later (some c) h v = clients-later now later c h v

pub limiter-Fits :
    (t : Moment) (l : Option Limiter) → LimiterFits l → LimiterFits (ask_limiter t l).0
unfolding ask_limiter
limiter-Fits t none h = tt
limiter-Fits t (some l) h = allow-Fits t.client_ip t.allowed_at l h

pub count_client-IsValid :
    (now : ℕ) (t : Moment) (name : Text) (blocked : Bool) (c : Option Tracker)
    → t.client_ip ≢ []
    → now ≤ t.first_seen
    → t.first_seen ≤ t.last_seen
    → TrackerIsValid now c
    → TrackerIsValid t.last_seen (count_client t name blocked c)
unfolding count_client
count_client-IsValid now t name blocked none ne h₁ h₂ v = tt
count_client-IsValid now t name blocked (some c) ne h₁ h₂ v =
    record_query-IsValid t.client_ip name blocked t.latency now t.first_seen t.last_seen c ne h₁ h₂
      v

pub to_lower-ne-nil : (s : Text) → s ≢ [] → to_lower s ≢ []
unfolding to_lower
to_lower-ne-nil [] h e = h refl
to_lower-ne-nil (c ∷ s) h e = ground arith

pub dotted-ne-nil : (s : Text) → ends_with_dot s ≡ true → s ≢ []
unfolding ends_with_dot
dotted-ne-nil s h e = clash (rw e at h)
  where
    clash : false ≡ true → ⊥
    clash p = ground arith

pub check-IsSmall :
    (domain : Text) (f : Filter)
    → domain ≢ []
    → IsSmall f.blocked_counts
    → IsSmall (check domain f).0.blocked_counts
unfolding check allowed refused
check-IsSmall domain f ne s =
    let Q : Filter × Bool → Type 0 = λ r. IsSmall r.0.blocked_counts in
    let more = record_blocked-IsSmall domain f.blocked_counts ne s in
    by_if Q (contains domain f.whitelist) _ _ (λ _. s)
      (λ _.
        by_if Q (contains domain f.blacklist) _ _ (λ _. more)
          (λ _.
            by_if Q (contains domain f.blocked) _ _ (λ _. more)
              (λ _.
                by_if Q (parent_loop f.blocked (split (trim_dot domain))) _ _ (λ _. more)
                  (λ _. s))))
