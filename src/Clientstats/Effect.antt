-- ===== src/Clientstats/Effect.antt =====
-- What a query does to the statistics.
use dns_server_mandiri.Clientstats.Bounds.{IsValid, evict-Loses}
use dns_server_mandiri.Clientstats.{
  ClientInfo, Tracker, evict_oldest, new_client, touch, make_room, record_query,
}
use dns_server_mandiri.Prelude.Dict.{Dict, lookup, insert, lookup-insert, lookup-insert_self}
use dns_server_mandiri.Prelude.Lowest.{LosesLowest}
use dns_server_mandiri.Prelude.Text.{Text, eq_iff}
use dns_server_mandiri.Prelude.{
  ℕ, ◌≤◌, ◌≡◌, ◌≢◌, Bool, Option, none, some, length, arith, leb, Bool-cases, Option-cases, inl,
  inr,
}

abbrev pub client_or : ClientInfo → Option ClientInfo → ClientInfo
client_or fresh none = fresh
client_or fresh (some c) = c

-- From the clients `d` to `d'`: the asking client is touched, no other changes, at most one is
-- lost, only if there are `max` clients and the asking one is new, and the lost one was last seen
-- no later than any other that stays.
pub record Records (max : ℕ) (client_ip : Text) (c : ClientInfo) (d d' : Dict ClientInfo)
    : Type 0 where
  pub recorded : lookup client_ip d' ≡ some c
  pub others :
      (j : Text) (w : ClientInfo) → j ≢ client_ip → lookup j d' ≡ some w → lookup j d ≡ some w
  pub full :
      (j : Text) (u : ClientInfo)
      → lookup j d ≡ some u
      → lookup j d' ≡ none
      → (lookup client_ip d ≡ none) × (max ≤ length d)
  pub single :
      (j i : Text) (u w : ClientInfo)
      → lookup j d ≡ some u
      → lookup j d' ≡ none
      → lookup i d ≡ some w
      → lookup i d' ≡ none
      → j ≡ i
  pub lost :
      (j i : Text) (u w : ClientInfo)
      → lookup j d ≡ some u
      → lookup j d' ≡ none
      → i ≢ client_ip
      → lookup i d' ≡ some w
      → u.last_seen ≤ w.last_seen

kept-Records :
    (max : ℕ) (client_ip : Text) (c : ClientInfo) (d : Dict ClientInfo)
    → Records max client_ip c d (insert client_ip c d)
kept-Records max client_ip c d = record {
  recorded = lookup-insert_self client_ip c d;
  others = λ j w ne at. ground (arith, lookup-insert client_ip j c d, eq_iff client_ip j);
  full = λ j u at gone. absurd (ground (arith, lookup-insert client_ip j c d, eq_iff client_ip j));
  single = λ j i u w at gone at' gone'.
      absurd (ground (arith, lookup-insert client_ip j c d, eq_iff client_ip j));
  lost = λ j i u w at gone ne left.
      absurd (ground (arith, lookup-insert client_ip j c d, eq_iff client_ip j));
}

evicted-Records :
    (max : ℕ) (client_ip : Text) (c : ClientInfo) (d d₁ : Dict ClientInfo)
    → lookup client_ip d ≡ none
    → max ≤ length d
    → LosesLowest (λ e. e.last_seen) d d₁
    → Records max client_ip c d (insert client_ip c d₁)
evicted-Records max client_ip c d d₁ new full l = record {
  recorded = lookup-insert_self client_ip c d₁;
  others =
      λ j w ne at. l.only j w (ground (arith, lookup-insert client_ip j c d₁, eq_iff client_ip j));
  full = λ j u at gone. (new, full);
  single = λ j i u w at gone at' gone'.
      l.single j i u w at (ground (arith, lookup-insert client_ip j c d₁, eq_iff client_ip j)) at'
        (ground (arith, lookup-insert client_ip i c d₁, eq_iff client_ip i));
  lost = λ j i u w at gone ne left.
      l.lowest j i u w at (ground (arith, lookup-insert client_ip j c d₁, eq_iff client_ip j))
        (ground (arith, lookup-insert client_ip i c d₁, eq_iff client_ip i));
}

-- In a well formed tracker a recorded query touches the statistics of its client, which start
-- afresh for an unknown one; no other client changes; at most one other is lost, and only if the
-- client is unknown and the tracker full; and it was last seen no later than any that stays.
pub record_query-Records :
    (client_ip domain : Text) (blocked : Bool) (latency t₀ t₁ t₂ : ℕ) (t : Tracker)
    → IsValid t₀ t
    → Records t.max_clients client_ip
        (touch domain blocked latency t₂
          (client_or (new_client client_ip t₁) (lookup client_ip t.clients)))
        t.clients
        (record_query client_ip domain blocked latency t₁ t₂ t).clients
unfolding make_room record_query touch
record_query-Records client_ip domain blocked latency t₀ t₁ t₂ t v =
    elim (Option-cases (lookup client_ip t.clients)) [
      | inr (c, at) ↦
          rw (at, record_query)
            (kept-Records t.max_clients client_ip (touch domain blocked latency t₂ c) t.clients)
      | inl gone ↦
          let c' = touch domain blocked latency t₂ (new_client client_ip t₁) in
          elim (Bool-cases (leb t.max_clients (length t.clients))) [
            | inl full ↦
                rw (gone, record_query)
                  (rw full (
                    evicted-Records t.max_clients client_ip c' t.clients (evict_oldest t).clients
                      gone (ground arith) (evict-Loses t₀ t v full)))
            | inr room ↦
                rw (gone, record_query)
                  (rw room (kept-Records t.max_clients client_ip c' t.clients))
          ]
    ]
