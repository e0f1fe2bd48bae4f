-- ===== src/Persistence/Roundtrip.antt =====
-- The cache over a restart, through the file.
use dns_server_mandiri.Cache.Branches.{fresh}
use dns_server_mandiri.Cache.Export.{export_entry, export_entries, export_limit}
use dns_server_mandiri.Cache.{Entry, Cache}
use dns_server_mandiri.Dns.{Msg, DnsLib}
use dns_server_mandiri.Persistence.Entries.{Keyed, Survives, export_entry-Survives}
use dns_server_mandiri.Persistence.Exports.{exports, export_loop-exports}
use dns_server_mandiri.Persistence.Restart.{restart_lem}
use dns_server_mandiri.Persistence.{
  CacheEntry, Config, Gob, GobLaws, Disk, Faults, cache_entry, get_entries, unexpired, is_nil,
  write_entries, replace_file, save, restore_loop, load,
}
use dns_server_mandiri.Prelude.Dict.{
  Dict, lookup, Distinct, lookup-nil, lookup-cons_here, lookup-cons_there,
}
use dns_server_mandiri.Prelude.Text.{Text, ◌==◌, eq_iff}
use dns_server_mandiri.Prelude.{
  ℕ, ◌+◌, ◌≤◌, ◌≡◌, refl, sym, ap, subst, ◌∙◌, true, false, none, some, List, [], ◌∷◌, map, length,
  arith, by_option, Bool-cases, inl, inr,
}

module _ (lib : DnsLib) (exported now : ℕ) (h : exported ≤ now) where
  -- The export of a cache with an entry that survives is not empty.
  exports-some :
      (k : Text) (e : Entry) (msg : Msg) (m : Dict Entry)
      → Survives lib now e msg
      → lookup k m ≡ some e
      → is_nil (map cache_entry (exports lib exported m)) ≡ false
  exports-some k e msg [] s at = absurd (lookup-nil k e at)
  exports-some k e msg ((j, f) ∷ rest) s at = elim (Bool-cases (j == k)) [
    | inl here ↦
        let same : f ≡ e = lookup-cons_here j k f e rest ((eq_iff j k).0 here) at in
        let out =
          export_entry-Survives lib exported now f msg h
            (subst (λ x. Survives lib now x msg) (sym same) s) in
        ap
          (λ o. is_nil (
            map cache_entry (elim o [
              | none ↦ exports lib exported rest
              | some x ↦ x ∷ exports lib exported rest
            ])))
          out
    | inr there ↦
        by_option (λ es. is_nil (map cache_entry es) ≡ false) (export_entry lib exported f) _ _
          (λ _. exports-some k e msg rest s (lookup-cons_there j k f e rest there at)) (λ x _. refl)
  ]

module _ (lib : DnsLib) (gob : Gob) (laws : GobLaws gob) (cfg : Config) (faults : Faults)
    (exported saved now : ℕ) (h₁ : exported ≤ now) (h₂ : saved ≤ now) where
  -- The file after a save that meets no fault.
  save_ok :
      (entries : List CacheEntry) (bytes : Text) (d : Disk)
      → cfg.enabled ≡ true
      → faults.create ≡ false
      → faults.rename ≡ false
      → is_nil entries ≡ false
      → gob.encode (unexpired saved entries) ≡ some bytes
      → (save gob cfg faults saved (some entries) d).0.file ≡ some bytes
  unfolding save write_entries replace_file
  save_ok entries bytes d on created renamed full encoded =
      rw (on, full, created, encoded, renamed) refl

  load_ok :
      (d : Disk) (bytes : Text) (es : List CacheEntry) (c : Cache)
      → cfg.enabled ≡ true
      → faults.open_file ≡ false
      → d.file ≡ some bytes
      → gob.decode bytes ≡ some es
      → (load lib gob cfg faults now d c).0 ≡ (restore_loop lib now es (c, 0)).0
  unfolding load
  load_ok d bytes es c on opened file decoded = rw (on, opened, file, decoded) refl

  -- The cache survives a restart: an entry of the cache that is saved at one time and loaded at a
  -- later one, into a cache with room, is found under its key, by the message that was packed, with
  -- a full lifetime from the load on, if its lifetime was not over. The conditions are that
  -- persistence is on, that no call of the system and no encoding fails, that the old cache is
  -- within the limit of the export, has each key once and keeps each entry under the key of its
  -- question.
  pub load-save :
      (old new : Cache) (k : Text) (e : Entry) (msg : Msg) (d : Disk) (bytes : Text)
      → cfg.enabled ≡ true
      → faults.create ≡ false
      → faults.rename ≡ false
      → faults.open_file ≡ false
      → gob.encode (unexpired saved (get_entries lib exported old)) ≡ some bytes
      → Distinct old.entries
      → Keyed lib old.entries
      → length old.entries ≤ export_limit
      → length new.entries + length old.entries ≤ new.max_size
      → lookup k old.entries ≡ some e
      → Survives lib now e msg
      → let written = (save gob cfg faults saved (some (get_entries lib exported old)) d).0 in
        lookup k (load lib gob cfg faults now written new).0.entries ≡ some (fresh new msg now now)
  unfolding get_entries export_entries
  load-save old new k e msg d bytes on created renamed opened encoded dist keyed limit room at s =
      let all = export_loop-exports lib exported old.entries [] (omega arith) in
      let full : is_nil (get_entries lib exported old) ≡ false =
        ap (λ es. is_nil (map cache_entry es)) all
        ∙ exports-some lib exported now h₁ k e msg old.entries s at in
      let entries = get_entries lib exported old in
      let file = save_ok entries bytes d on created renamed full encoded in
      ap (λ c. lookup k c.entries)
        (load_ok (save gob cfg faults saved (some entries) d).0 bytes (unexpired saved entries) new
          on opened file (laws.decode-encode (unexpired saved entries) bytes encoded))
      ∙ restart_lem lib exported saved now h₁ h₂ old new k e msg dist keyed limit room at s
