-- ===== src/Clientstats/Bounds.antt =====
-- What holds of the tracked clients.
use dns_server_mandiri.Clientstats.{
  ClientInfo, Tracker, evict_oldest, new_client, count_top, touch, make_room, record_query,
  next_count,
}
use dns_server_mandiri.Prelude.Dict.{
  Dict, lookup, insert, Distinct, lookup-insert, lookup-insert_ne, Distinct-insert,
  length-insert-le, length-insert_old, none-Sub, Sub,
}
use dns_server_mandiri.Prelude.Lowest.{LosesLowest, evict_lowest-LosesLowest}
use dns_server_mandiri.Prelude.Text.{Text, eq_iff, ◌==◌}
use dns_server_mandiri.Prelude.{
  ℕ, ◌≤◌, ◌<◌, ◌≡◌, ◌≢◌, refl, Bool, true, none, some, [], length, arith, ltb, leb, Bool-cases,
  Option-cases, inl, inr, ◌∙◌, subst, add64,
}

-- A client under its address, at a time after its last query.
pub record IsClient (now : ℕ) (k : Text) (c : ClientInfo) : Type 0 where
  pub keyed : c.ip ≡ k
  pub tops : length c.top_domains ≤ 100
  pub counted : c.query_count ≡ c.total_queries
  pub order : c.first_seen ≤ c.last_seen
  pub past : c.last_seen ≤ now

pub record IsValid (now : ℕ) (t : Tracker) : Type 0 where
  pub distinct : Distinct t.clients
  pub named : lookup [] t.clients ≡ none
  pub bounded : length t.clients ≤ t.max_clients
  pub positive : 0 < t.max_clients
  pub clients : (k : Text) (c : ClientInfo) → lookup k t.clients ≡ some c → IsClient now k c

count_top-le :
    (domain : Text) (tops : Dict ℕ) → length tops ≤ 100 → length (count_top domain tops) ≤ 100
unfolding count_top
count_top-le domain tops h = elim (Bool-cases (ltb (length tops) 100)) [
  | inl less ↦
      rw less (ground (arith, length-insert-le domain (next_count (lookup domain tops)) tops))
  | inr full ↦ elim (Option-cases (lookup domain tops)) [
    | inl gone ↦ rw (full, gone) h
    | inr (n, at) ↦ rw (full, at) (ground (arith, length-insert_old domain (add64 n 1) n tops at))
  ]
]

touch-IsClient :
    (domain : Text) (blocked : Bool) (latency now : ℕ) (k : Text) (c : ClientInfo)
    → c.ip ≡ k
    → length c.top_domains ≤ 100
    → c.query_count ≡ c.total_queries
    → c.first_seen ≤ now
    → IsClient now k (touch domain blocked latency now c)
unfolding touch
touch-IsClient domain blocked latency now k c keyed tops counted seen = record {
  keyed = keyed;
  tops = count_top-le domain c.top_domains tops;
  counted = ground arith;
  order = seen;
  past = omega arith;
}

later-IsClient :
    (t now : ℕ) (k : Text) (c : ClientInfo) → t ≤ now → IsClient t k c → IsClient now k c
later-IsClient t now k c h i = record {
  keyed = i.keyed;
  tops = i.tops;
  counted = i.counted;
  order = i.order;
  past = omega (arith, i.past);
}

stored-IsClient :
    (t now : ℕ) (k : Text) (c : ClientInfo) (d : Dict ClientInfo)
    → t ≤ now
    → ((j : Text) (w : ClientInfo) → lookup j d ≡ some w → IsClient t j w)
    → IsClient now k c
    → (j : Text) (w : ClientInfo) → lookup j (insert k c d) ≡ some w
    → IsClient now j w
stored-IsClient t now k c d h old new = λ j w at. elim (Bool-cases (k == j)) [
  | inl e ↦
      let same : c ≡ w = ground (arith, lookup-insert k j c d) in
      subst (λ v. IsClient now j v) same (subst (λ i. IsClient now i c) ((eq_iff k j).0 e) new)
  | inr e ↦ later-IsClient t now j w h (old j w (ground (arith, lookup-insert k j c d)))
]

pub evict-Loses :
    (now : ℕ) (t : Tracker)
    → IsValid now t
    → leb t.max_clients (length t.clients) ≡ true
    → LosesLowest (λ c. c.last_seen) t.clients (evict_oldest t).clients
unfolding evict_oldest
evict-Loses now t v full =
    evict_lowest-LosesLowest (λ c. c.last_seen) t.clients v.distinct v.named
      (ground (arith, v.positive))

store-IsValid :
    (t₁ now : ℕ) (k : Text) (c : ClientInfo) (d : Dict ClientInfo) (t : Tracker)
    → t₁ ≤ now
    → k ≢ []
    → IsValid t₁ t
    → Distinct d
    → Sub d t.clients
    → length (insert k c d) ≤ t.max_clients
    → IsClient now k c
    → IsValid now (record t { clients = insert k c d })
store-IsValid t₁ now k c d t h ne v dist sub fits new = record {
  distinct = Distinct-insert k c d dist;
  named = lookup-insert_ne k [] c d ne ∙ none-Sub [] d t.clients sub v.named;
  bounded = fits;
  positive = v.positive;
  clients = stored-IsClient t₁ now k c d h (λ j w at. v.clients j w (sub j w at)) new;
}

-- Recording a query of a client whose address is not empty, at a later time, keeps a well formed
-- tracker well formed: no client with an empty address, at most the allowed number of clients, each
-- under its own address, with at most 100 domains, as many measured queries as
-- counted ones, and not seen first after it was seen last.
pub record_query-IsValid :
    (client_ip domain : Text) (blocked : Bool) (latency t₀ t₁ t₂ : ℕ) (t : Tracker)
    → client_ip ≢ []
    → t₀ ≤ t₁
    → t₁ ≤ t₂
    → IsValid t₀ t
    → IsValid t₂ (record_query client_ip domain blocked latency t₁ t₂ t)
unfolding make_room record_query evict_oldest
record_query-IsValid client_ip domain blocked latency t₀ t₁ t₂ t ne h₁ h₂ v =
    elim (Option-cases (lookup client_ip t.clients)) [
      | inr (c, at) ↦
          let i = v.clients client_ip c at in
          let c' = touch domain blocked latency t₂ c in
          rw (at, record_query)
            (store-IsValid t₀ t₂ client_ip c' t.clients t (omega arith) ne v v.distinct (λ j w e. e)
              (omega (arith, v.bounded, length-insert_old client_ip c' c t.clients at))
              (touch-IsClient domain blocked latency t₂ client_ip c i.keyed i.tops i.counted
                (omega (arith, i.order, i.past))))
      | inl gone ↦
          let c' = touch domain blocked latency t₂ (new_client client_ip t₁) in
          let new =
            touch-IsClient domain blocked latency t₂ client_ip (new_client client_ip t₁) refl
              (omega arith) refl h₂ in
          elim (Bool-cases (leb t.max_clients (length t.clients))) [
            | inl full ↦
                let l = evict-Loses t₀ t v full in
                rw (gone, record_query)
                  (rw full (
                    store-IsValid t₀ t₂ client_ip c' (evict_oldest t).clients t (omega arith) ne v
                      l.distinct l.only
                      (omega (
                        arith,
                        l.fewer,
                        v.bounded,
                        length-insert-le client_ip c' (evict_oldest t).clients,
                      ))
                      new))
            | inr room ↦
                rw (gone, record_query)
                  (rw room (
                    store-IsValid t₀ t₂ client_ip c' t.clients t (omega arith) ne v v.distinct
                      (λ j w e. e) (ground (arith, length-insert-le client_ip c' t.clients)) new))
          ]
    ]

pub later-IsValid : (t now : ℕ) (c : Tracker) → t ≤ now → IsValid t c → IsValid now c
later-IsValid t now c h v = record {
  distinct = v.distinct;
  named = v.named;
  bounded = v.bounded;
  positive = v.positive;
  clients = λ k d at. later-IsClient t now k d h (v.clients k d at);
}
