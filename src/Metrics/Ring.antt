-- ===== src/Metrics/Ring.antt =====
-- The ring of recent queries, `GetRecentQueries` and `GetAllQueryLogs`.
use dns_server_mandiri.Metrics.{
  Metrics, QueryLog, no_log, init, log_query, slot, recent_from, get_recent_queries, all_from,
  get_all_query_logs,
}
use dns_server_mandiri.Prelude.{
  ℕ, zero, suc, ◌+◌, ◌-◌, ◌%◌, ◌≤◌, ◌<◌, ◌≡◌, ◌≢◌, refl, List, [], ◌∷◌, ◌++◌, length, get_or, take,
  arith, length-set, get_or-set_self, get_or-set_ne, ◌∙◌, min, ap, ltb, if◌then◌else◌, ◌⊎◌, inl,
  inr, take_same, ◌==◌, ◌||◌, sym,
}
use mathlib.Core.List.{reverse, reverse-append}
use mathlib.Core.Path.{ap₂}
use native.Mathlib.Nat.{mod-eq_of_lt, mod-eq-sub-mod}

pub record IsRing (m : Metrics) : Type 0 where
  pub storage : length m.query_log ≡ m.query_log_max
  pub idx_in : m.query_log_idx < m.query_log_max
  pub len_in : m.query_log_len ≤ m.query_log_max

pub init-IsRing : (now : ℕ) → IsRing (init now)
unfolding init
init-IsRing now = omega arith

pub log_query-IsRing : (e : QueryLog) (m : Metrics) → IsRing m → IsRing (log_query e m)
unfolding log_query
log_query-IsRing e m r = ground (arith, length-set m.query_log m.query_log_idx e)

mod_cases : (x r max : ℕ) → r < max → (x ≡ r) ⊎ (x ≡ r + max) → x % max ≡ r
mod_cases x r max h (inl e) = rw e (mod-eq_of_lt h)
mod_cases x r max h (inr e) = rw e (
    mod-eq-sub-mod {n = r + max} {m = max} (omega arith)
    ∙ (ap (λ k. k % max) (omega arith) ∙ mod-eq_of_lt h))

-- The slot of the `i`-th newest entry, as a number below `max`.
abbrev behind : ℕ → ℕ → ℕ → ℕ
behind idx max i = if ltb i idx then idx - 1 - i else idx + max - 1 - i

behind-slot : (idx max i : ℕ) → idx < max → i < max → (idx + max - 1 - i) % max ≡ behind idx max i
behind-slot idx max i h hi =
    mod_cases (idx + max - 1 - i) (behind idx max i) max (ground arith) (ground arith)

next-idx : (idx max : ℕ) → idx < max → (idx + 1) % max ≡ (if ltb (idx + 1) max then idx + 1 else 0)
next-idx idx max h =
    mod_cases (idx + 1) (if ltb (idx + 1) max then idx + 1 else 0) max (ground arith) (ground arith)

-- After a write the newest slot is the one written, and the others come one later.
slot_zero : (idx max : ℕ) → idx < max → ((idx + 1) % max + max - 1 - 0) % max ≡ idx
slot_zero idx max h = ground (arith, next-idx idx max h, behind-slot ((idx + 1) % max) max 0)

slot_suc :
    (idx max i : ℕ)
    → idx < max
    → i + 1 < max
    → (((idx + 1) % max + max - 1 - (i + 1)) % max ≡ (idx + max - 1 - i) % max)
      × ((idx + max - 1 - i) % max ≢ idx)
slot_suc idx max i h hi = (
  ground (
    arith,
    next-idx idx max h,
    behind-slot ((idx + 1) % max) max (i + 1),
    behind-slot idx max i h,
  ),
  ground (arith, behind-slot idx max i h),
)

length-recent_from : (m : Metrics) (i n : ℕ) → length (recent_from m i n) ≡ n
unfolding recent_from
length-recent_from m i zero = refl
length-recent_from m i (suc n) = ap suc (length-recent_from m (i + 1) n)

-- What stood `i` places behind the newest entry stands one place further after a write.
recent-log_query :
    (e : QueryLog) (m : Metrics) (i n : ℕ)
    → IsRing m
    → i + n < m.query_log_max
    → recent_from (log_query e m) (i + 1) n ≡ recent_from m i n
unfolding recent_from log_query
recent-log_query e m i zero r h = refl
recent-log_query e m i (suc n) r h =
    let (moves, other) = slot_suc m.query_log_idx m.query_log_max i r.idx_in (omega arith) in
    ap₂ ◌∷◌
      (ap (λ s. get_or (log_query e m).query_log s no_log) moves
        ∙ get_or-set_ne m.query_log e no_log (λ p. other (sym p)))
      (recent-log_query e m (i + 1) n r (omega arith))

recent-newest :
    (e : QueryLog) (m : Metrics) (n : ℕ)
    → IsRing m
    → n < m.query_log_max
    → recent_from (log_query e m) 0 (suc n) ≡ e ∷ recent_from m 0 n
unfolding recent_from log_query
recent-newest e m n r h =
    ap₂ ◌∷◌
      (ap (λ s. get_or (log_query e m).query_log s no_log)
          (slot_zero m.query_log_idx m.query_log_max r.idx_in)
        ∙ get_or-set_self m.query_log m.query_log_idx e no_log (omega (arith, r.idx_in, r.storage)))
      (recent-log_query e m 0 n r (omega arith))

-- The history holds every entry ever logged, the newest first.
pub record Logs (history : List QueryLog) (m : Metrics) : Type 0 where
  pub ring : IsRing m
  pub newest : (k : ℕ) → k ≤ m.query_log_len → recent_from m 0 k ≡ take k history
  pub len : m.query_log_len ≡ min m.query_log_max (length history)

pub init-Logs : (now : ℕ) → Logs [] (init now)
unfolding init recent_from
init-Logs now = record {
  ring = init-IsRing now;
  newest = λ k h. let e : k ≡ 0 = omega arith in rw e;
  len = refl;
}

log_query-newest :
    (e : QueryLog) (history : List QueryLog) (m : Metrics) (k : ℕ)
    → Logs history m
    → k ≤ (log_query e m).query_log_len
    → recent_from (log_query e m) 0 k ≡ take k (e ∷ history)
unfolding log_query recent_from
log_query-newest e history m zero l h = refl
log_query-newest e history m (suc k) l h =
    let ring = l.ring in
    recent-newest e m k ring (ground arith) ∙ ap (◌∷◌ e) (l.newest k (ground arith))

log_query-len :
    (e : QueryLog) (history : List QueryLog) (m : Metrics)
    → Logs history m
    → (log_query e m).query_log_len ≡ min (log_query e m).query_log_max (length (e ∷ history))
unfolding log_query
log_query-len e history m l = ground (arith, l.len)

pub log_query-Logs :
    (e : QueryLog) (history : List QueryLog) (m : Metrics)
    → Logs history m
    → Logs (e ∷ history) (log_query e m)
log_query-Logs e history m l = record {
  ring = log_query-IsRing e m l.ring;
  newest = λ k h. log_query-newest e history m k l h;
  len = log_query-len e history m l;
}

-- `GetRecentQueries` returns the newest queries in order, as many as asked for and kept: all that
-- are kept, for the limit 0.
pub get_recent_queries_lem :
    (limit : ℕ) (history : List QueryLog) (m : Metrics)
    → Logs history m
    → get_recent_queries limit m
      ≡ take (if limit == 0 then m.query_log_max else min limit m.query_log_max) history
unfolding get_recent_queries
get_recent_queries_lem limit history m l =
    let n = if limit == 0 || ltb m.query_log_len limit then m.query_log_len else limit in
    l.newest n (ground arith)
    ∙ take_same n (if limit == 0 then m.query_log_max else min limit m.query_log_max) history
        (ground (arith, l.len, l.ring.len_in))

-- Reading from the oldest on is reading backwards.
recent-suc :
    (m : Metrics) (i n : ℕ)
    → recent_from m i (suc n)
      ≡ recent_from m i n ++ (get_or m.query_log (slot m (i + n)) no_log ∷ [])
unfolding recent_from
recent-suc m i zero = ap (λ s. get_or m.query_log (slot m s) no_log ∷ []) (omega arith)
recent-suc m i (suc n) = ap (◌∷◌ (get_or m.query_log (slot m i) no_log)) (
    recent-suc m (i + 1) n
    ∙ ap (λ s. recent_from m (i + 1) n ++ (get_or m.query_log (slot m s) no_log ∷ []))
        (omega arith))

all-reverse :
    (m : Metrics) (i n : ℕ)
    → IsRing m
    → i + n ≡ m.query_log_len
    → all_from m i n ≡ reverse (recent_from m 0 n)
unfolding all_from recent_from
all-reverse m i zero r h = refl
all-reverse m i (suc n) r h =
    let entry : ℕ → QueryLog = λ s. get_or m.query_log (s % m.query_log_max) no_log in
    let same : m.query_log_idx + m.query_log_max - m.query_log_len + i
        ≡ m.query_log_idx + m.query_log_max - 1 - (0 + n) =
      omega (arith, r.len_in) in
    ap₂ ◌∷◌ (ap entry same) (all-reverse m (i + 1) n r (omega arith))
    ∙ sym (
        ap reverse (recent-suc m 0 n)
        ∙ reverse-append (recent_from m 0 n)
            (entry (m.query_log_idx + m.query_log_max - 1 - (0 + n)) ∷ []))

-- `GetAllQueryLogs` returns all the queries that are kept, the oldest first.
pub get_all_query_logs_lem :
    (history : List QueryLog) (m : Metrics)
    → Logs history m
    → get_all_query_logs m ≡ reverse (take m.query_log_max history)
unfolding get_all_query_logs
get_all_query_logs_lem history m l =
    all-reverse m 0 m.query_log_len l.ring (omega arith)
    ∙ ap reverse (
        l.newest m.query_log_len (omega arith)
        ∙ take_same m.query_log_len m.query_log_max history (ground (arith, l.len, l.ring.len_in)))
