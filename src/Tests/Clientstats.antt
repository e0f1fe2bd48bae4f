-- ===== src/Tests/Clientstats.antt =====
-- The client statistics at concrete inputs.
use dns_server_mandiri.Clientstats.Bounds.{IsValid, record_query-IsValid}
use dns_server_mandiri.Clientstats.Effect.{Records, client_or, record_query-Records}
use dns_server_mandiri.Clientstats.{
  ClientInfo, DomainCount, Tracker, new_client, touch, record_query,
}
use dns_server_mandiri.Prelude.Dict.{lookup}
use dns_server_mandiri.Prelude.Text.{text}
use dns_server_mandiri.Prelude.{
  ℕ, ◌≤◌, ◌≢◌, refl, true, List, [], ◌∷◌, All, arith, leb, if◌then◌else◌,
}
use mathlib.Core.List.{Memᴰ}

abbrev empty : Tracker
empty = record { clients = []; max_clients = 2 }

empty-IsValid : IsValid 5 empty
unfolding lookup
empty-IsValid = record {
  distinct = tt;
  named = refl;
  bounded = omega arith;
  positive = omega arith;
  clients = λ k c h. ground arith;
}

named : text "10.0.0.1" ≢ []
named h = ground arith

record_query-IsValid_example :
    IsValid 7 (record_query (text "10.0.0.1") (text "a.") true 3 6 7 empty)
record_query-IsValid_example =
    record_query-IsValid (text "10.0.0.1") (text "a.") true 3 5 6 7 empty named (omega arith)
      (omega arith) empty-IsValid

record_query-Records_example :
    Records empty.max_clients
      (text "10.0.0.1")
      (touch
        (text "a.")
        true
        3
        7
        (client_or (new_client (text "10.0.0.1") 6) (lookup (text "10.0.0.1") empty.clients)))
      empty.clients
      (record_query (text "10.0.0.1") (text "a.") true 3 6 7 empty).clients
record_query-Records_example =
    record_query-Records (text "10.0.0.1") (text "a.") true 3 5 6 7 empty empty-IsValid

abbrev client : ClientInfo
client = new_client (text "10.0.0.1") 6

-- One client.
abbrev one : Tracker
one = record { clients = (text "10.0.0.1", client) ∷ []; max_clients = 2 }

abbrev same_domains : List DomainCount → List DomainCount
same_domains xs = xs

-- A sort by falling number of queries: each element goes before the first that has fewer.
abbrev put : ClientInfo → List ClientInfo → List ClientInfo
put c [] = c ∷ []
put c (d ∷ ds) =
    let rest = put c ds in if leb d.total_queries c.total_queries then c ∷ d ∷ ds else d ∷ rest

abbrev sort : List ClientInfo → List ClientInfo
sort [] = []
sort (c ∷ cs) = put c (sort cs)

abbrev Below : ℕ → List ClientInfo → Type 0
Below n = All (λ d. d.total_queries ≤ n)
