-- ===== src/Cache/Export.antt =====
-- internal/cache/cache.go: what the cache hands out for prefetching and for saving. One reading of
-- the clock stands for those of a loop.
use dns_server_mandiri.Cache.{Entry, Cache, is_expired, should_prefetch}
use dns_server_mandiri.Dns.{Question, DnsLib}
use dns_server_mandiri.Prelude.Dict.{Dict}
use dns_server_mandiri.Prelude.Text.{Text}
use dns_server_mandiri.Prelude.{
  ℕ, not, ◌&&◌, Option, none, some, List, [], ◌∷◌, ◌++◌, length, ltb, leb, if◌then◌else◌,
}

-- `PrefetchCandidates`
abbrev pub asked_often : ℕ → ℕ → Entry → List Question → List Question → List Question
asked_often now ratio e [] rest = rest
asked_often now ratio e (q ∷ _) rest =
    if should_prefetch now ratio e && not (is_expired now e) && ltb 2 e.hit_count
    then q ∷ rest
    else rest

unfoldable pub candidates_from : ℕ → ℕ → Dict Entry → List Question
candidates_from now ratio [] = []
candidates_from now ratio ((k, e) ∷ rest) =
    asked_often now ratio e e.msg.question (candidates_from now ratio rest)

unfoldable pub prefetch_candidates : ℕ → Cache → List Question
prefetch_candidates now c = candidates_from now c.prefetch_ratio c.entries

pub record ExportEntry : Type 0 where
  pub name : Text
  pub qtype : ℕ
  pub qclass : ℕ
  pub msg_bytes : Text
  pub expires_at : ℕ
  pub created_at : ℕ

-- The limit that keeps the file small.
abbrev pub export_limit : ℕ
export_limit = 100_000

abbrev pub exported : Entry → List Question → Text → Option ExportEntry
exported e [] bytes = none
exported e (q ∷ _) bytes = some (record {
  name = q.name;
  qtype = q.qtype;
  qclass = q.qclass;
  msg_bytes = bytes;
  expires_at = e.expires_at;
  created_at = e.created_at;
})

module _ (lib : DnsLib) where
  -- The body of the loop of `ExportEntries`: the element that it appends, unless it continues.
  unfoldable pub export_entry : ℕ → Entry → Option ExportEntry
  export_entry now e =
      if is_expired now e
      then none
      else elim (lib.pack e.msg) [ none ↦ none | some bytes ↦ exported e e.msg.question bytes ]

  unfoldable pub export_loop : ℕ → Dict Entry → List ExportEntry → List ExportEntry
  export_loop now [] entries = entries
  export_loop now ((k, e) ∷ rest) entries =
      let skip = export_loop now rest entries in
      elim (export_entry now e) [
        | none ↦ skip
        | some x ↦
            let more = export_loop now rest (entries ++ (x ∷ [])) in
            if leb export_limit (length (entries ++ (x ∷ []))) then entries ++ (x ∷ []) else more
      ]

  unfoldable pub export_entries : ℕ → Cache → List ExportEntry
  export_entries now c = export_loop now c.entries []
