-- ===== src/Persistence/Exports.antt =====
-- What the file holds of the entries of a cache, as one pass over them.
use dns_server_mandiri.Cache.Export.{ExportEntry, export_entry, export_loop, export_limit}
use dns_server_mandiri.Cache.{Entry, Cache}
use dns_server_mandiri.Dns.{DnsLib}
use dns_server_mandiri.Persistence.{CacheEntry, cache_entry, unexpired, restore_entry, restore_loop}
use dns_server_mandiri.Prelude.Dict.{Dict}
use dns_server_mandiri.Prelude.{
  ℕ, ◌+◌, ◌≤◌, ◌<◌, ◌≡◌, inl, inr, refl, sym, ◌∙◌, Option, none, some, List, [], ◌∷◌, ◌++◌, map,
  length, leb, ltb, if◌then◌else◌, arith, by_if, Bool-cases, length-append,
}
use mathlib.Core.List.{append_assoc, append-nil}

module _ (lib : DnsLib) where
  -- The entries that the loop of `ExportEntries` appends when the limit is not reached.
  abbrev pub exports : ℕ → Dict Entry → List ExportEntry
  exports now [] = []
  exports now ((k, e) ∷ rest) = elim (export_entry lib now e) [
    | none ↦ exports now rest
    | some x ↦ x ∷ exports now rest
  ]

  last :
      (now : ℕ) (x : ExportEntry) (rest : Dict Entry) (out : List ExportEntry)
      → length rest ≤ 0
      → out ++ (x ∷ []) ≡ out ++ (x ∷ exports now rest)
  last now x [] out h = refl
  last now x (_ ∷ _) out h = absurd (omega arith)

  export-step :
      (now : ℕ) (o : Option ExportEntry) (rest : Dict Entry) (out : List ExportEntry)
      → length out + length rest < export_limit
      → ((out : List ExportEntry)
          → length out + length rest ≤ export_limit
          → export_loop lib now rest out ≡ out ++ exports now rest)
      → elim o [
        | none ↦ export_loop lib now rest out
        | some x ↦
            if leb export_limit (length (out ++ (x ∷ [])))
            then out ++ (x ∷ [])
            else export_loop lib now rest (out ++ (x ∷ []))
      ]
        ≡ out ++ elim o [ none ↦ exports now rest | some x ↦ x ∷ exports now rest ]
  export-step now none rest out h ih = ih out (omega arith)
  export-step now (some x) rest out h ih =
      by_if (λ es. es ≡ out ++ (x ∷ exports now rest)) (leb export_limit (length (out ++ (x ∷ []))))
        _ _ (λ full. last now x rest out (ground (arith, length-append out (x ∷ []))))
        (λ _.
          ih (out ++ (x ∷ [])) (omega (arith, length-append out (x ∷ [])))
          ∙ append_assoc out (x ∷ []) (exports now rest))

  pub export_loop-exports :
      (now : ℕ) (m : Dict Entry) (out : List ExportEntry)
      → length out + length m ≤ export_limit
      → export_loop lib now m out ≡ out ++ exports now m
  unfolding export_loop
  export_loop-exports now [] out h = sym (append-nil out)
  export_loop-exports now ((k, e) ∷ rest) out h =
      export-step now (export_entry lib now e) rest out (omega arith)
        (λ out' h'. export_loop-exports now rest out' h')

  -- What the file holds of an entry.
  abbrev pub saved_export : ℕ → Option ExportEntry → Option CacheEntry
  saved_export saved none = none
  saved_export saved (some x) = if ltb saved x.expires_at then some (cache_entry x) else none

  abbrev pub saved_entry : (exported saved : ℕ) → Entry → Option CacheEntry
  saved_entry exported saved e = saved_export saved (export_entry lib exported e)

  abbrev pub step : ℕ → Option CacheEntry → Cache × ℕ → Cache × ℕ
  step now none r = r
  step now (some e) r = restore_entry lib now e r

  abbrev pub restart : (exported saved now : ℕ) → Dict Entry → Cache × ℕ → Cache × ℕ
  restart exported saved now [] r = r
  restart exported saved now ((k, e) ∷ rest) r =
      restart exported saved now rest (step now (saved_entry exported saved e) r)

  restore-step :
      (saved now : ℕ) (o : Option ExportEntry) (es : List ExportEntry) (r : Cache × ℕ)
      → restore_loop lib now
          (unexpired saved (map cache_entry (elim o [ none ↦ es | some x ↦ x ∷ es ])))
          r
        ≡ restore_loop lib now
            (unexpired saved (map cache_entry es))
            (step now (saved_export saved o) r)
  unfolding restore_loop unexpired cache_entry
  restore-step saved now none es r = refl
  restore-step saved now (some x) es r = elim (Bool-cases (ltb saved x.expires_at)) [
    | inl live ↦ rw (live, restore_loop) refl
    | inr dead ↦ rw (dead, restore_loop) refl
  ]

  pub restore-restart :
      (exported saved now : ℕ) (m : Dict Entry) (r : Cache × ℕ)
      → restore_loop lib now (unexpired saved (map cache_entry (exports exported m))) r
        ≡ restart exported saved now m r
  unfolding restore_loop unexpired cache_entry
  restore-restart exported saved now [] r = refl
  restore-restart exported saved now ((k, e) ∷ rest) r =
      restore-step saved now (export_entry lib exported e) (exports exported rest) r
      ∙ restore-restart exported saved now rest (step now (saved_entry exported saved e) r)
