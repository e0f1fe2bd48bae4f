-- ===== src/Clientstats.antt =====
-- internal/clientstats/clientstats.go: statistics for each client. An `int64` is its 64 bits. An
-- average is the fraction of its total and its count. `sort.Slice` is a parameter.
pub mod Bounds
pub mod Effect
pub mod Top
use dns_server_mandiri.Prelude.{
  ℕ, ◌+◌, Bool, true, false, Option, none, some, List, [], ◌∷◌, map, ltb, leb, if◌then◌else◌,
  length, take, min, add64,
}
use dns_server_mandiri.Prelude.Dict.{Dict, lookup, insert}
use dns_server_mandiri.Prelude.Lowest.{evict_lowest}
use dns_server_mandiri.Prelude.Text.{Text}

pub record ClientInfo : Type 0 where
  pub ip : Text
  pub total_queries : ℕ
  pub blocked_count : ℕ
  pub first_seen : ℕ
  pub last_seen : ℕ
  pub top_domains : Dict ℕ
  pub avg_latency_ns : ℕ
  pub query_count : ℕ

pub record DomainCount : Type 0 where
  pub domain : Text
  pub count : ℕ

pub record ClientSummary : Type 0 where
  pub ip : Text
  pub total_queries : ℕ
  pub blocked_count : ℕ
  pub first_seen : ℕ
  pub last_seen : ℕ
  pub top_domains : List DomainCount
  pub avg_latency : ℕ × ℕ

pub record Tracker : Type 0 where
  pub clients : Dict ClientInfo
  pub max_clients : ℕ

-- `New`; a negative number of clients is one that is 0.
unfoldable pub init : ℕ → Tracker
init max_clients = record {
  clients = [];
  max_clients = if ltb 0 max_clients then max_clients else 10000;
}

unfoldable pub evict_oldest : Tracker → Tracker
unfolding evict_lowest
evict_oldest t = record t { clients = evict_lowest (λ c. c.last_seen) t.clients }

abbrev pub new_client : Text → ℕ → ClientInfo
new_client client_ip now = record {
  ip = client_ip;
  total_queries = 0;
  blocked_count = 0;
  first_seen = now;
  last_seen = 0;
  top_domains = [];
  avg_latency_ns = 0;
  query_count = 0;
}

-- `client.TopDomains[domain]++` under its two guards.
abbrev pub next_count : Option ℕ → ℕ
next_count none = 1
next_count (some n) = add64 n 1

unfoldable pub count_top : Text → Dict ℕ → Dict ℕ
count_top domain tops =
    if ltb (length tops) 100
    then insert domain (next_count (lookup domain tops)) tops
    else elim (lookup domain tops) [ some n ↦ insert domain (add64 n 1) tops | none ↦ tops ]

-- What `RecordQuery` does to the client it found or made.
unfoldable pub touch : Text → Bool → ℕ → ℕ → ClientInfo → ClientInfo
touch domain blocked latency now c = record c {
  total_queries = add64 c.total_queries 1;
  last_seen = now;
  avg_latency_ns = add64 c.avg_latency_ns latency;
  query_count = add64 c.query_count 1;
  blocked_count = if blocked then add64 c.blocked_count 1 else c.blocked_count;
  top_domains = count_top domain c.top_domains;
}

unfoldable pub make_room : Tracker → Tracker
make_room t = if leb t.max_clients (length t.clients) then evict_oldest t else t

-- `RecordQuery` with its readings of the clock: for `FirstSeen` and for `LastSeen`.
unfoldable pub record_query : Text → Text → Bool → ℕ → (t₁ t₂ : ℕ) → Tracker → Tracker
record_query client_ip domain blocked latency t₁ t₂ t = elim (lookup client_ip t.clients) [
  | some c ↦ record t { clients = insert client_ip (touch domain blocked latency t₂ c) t.clients }
  | none ↦
      let room = make_room t in
      record room {
        clients =
            insert client_ip (touch domain blocked latency t₂ (new_client client_ip t₁))
              room.clients;
      }
]

-- `GetActiveClients`, its loop over the clients, and `TotalClients`.
unfoldable pub active_loop : ℕ → Dict ClientInfo → ℕ
active_loop threshold [] = 0
active_loop threshold ((ip, c) ∷ rest) =
    let more = active_loop threshold rest in if ltb threshold c.last_seen then more + 1 else more

unfoldable pub get_active_clients : ℕ → Tracker → ℕ
get_active_clients threshold t = active_loop threshold t.clients

unfoldable pub total_clients : Tracker → ℕ
total_clients t = length t.clients

abbrev pub values {ℓ} : {V : Type ℓ} → Dict V → List V
values [] = []
values ((k, v) ∷ rest) = v ∷ values rest

abbrev pub domain_counts : Dict ℕ → List DomainCount
domain_counts [] = []
domain_counts ((d, n) ∷ rest) = record { domain = d; count = n } ∷ domain_counts rest

module _ (sort_domains : List DomainCount → List DomainCount) where
  unfoldable pub build_summary : ClientInfo → ClientSummary
  build_summary c = record {
    ip = c.ip;
    total_queries = c.total_queries;
    blocked_count = c.blocked_count;
    first_seen = c.first_seen;
    last_seen = c.last_seen;
    top_domains =
        let domains = sort_domains (domain_counts c.top_domains) in
        take (min 10 (length domains)) domains;
    avg_latency = if ltb 0 c.query_count then (c.avg_latency_ns, c.query_count) else (0, 1);
  }

  unfoldable pub get_client : Text → Tracker → Option ClientSummary
  get_client ip t = elim (lookup ip t.clients) [ none ↦ none | some c ↦ some (build_summary c) ]

  unfoldable pub get_top_clients :
      (List ClientInfo → List ClientInfo) → ℕ → Tracker → List ClientSummary
  get_top_clients sort_clients limit t =
      let clients = sort_clients (values t.clients) in
      map build_summary (take (min limit (length clients)) clients)
