-- ===== src/Persistence/Saved.antt =====
-- What `Save` leaves on the disk.
use dns_server_mandiri.Persistence.{
  CacheEntry, Config, Gob, GobLaws, Disk, Faults, SaveError, unexpired, is_nil, replace_file,
  write_entries, save,
}
use dns_server_mandiri.Prelude.Text.{Text}
use dns_server_mandiri.Prelude.{
  ℕ, ◌≡◌, ◌⊎◌, inl, inr, refl, true, false, Option, none, some, List, by_if, by_option,
}

-- Either nothing was to be saved, or the file is as it was and the error says so, or the file
-- holds the entries and the temporary file is gone.
abbrev Unsaved : Disk → Disk × Option SaveError → Type 0
Unsaved d r = (r.0.file ≡ d.file) × ((error : SaveError) × (r.1 ≡ some error))

abbrev Written : Gob → List CacheEntry → Disk × Option SaveError → Type 0
Written gob es r =
    (r.1 ≡ none)
    × (r.0.tmp ≡ none)
    × ((bytes : Text) × (r.0.file ≡ some bytes) × (gob.decode bytes ≡ some es))

abbrev pub Saved :
    Gob → Config → ℕ → Option (List CacheEntry) → Disk → Disk × Option SaveError → Type 0
Saved gob cfg now none d r = r ≡ (d, none)
Saved gob cfg now (some entries) d r =
    (((cfg.enabled ≡ false) ⊎ (is_nil entries ≡ true)) × (r ≡ (d, none)))
    ⊎ (Unsaved d r ⊎ Written gob (unexpired now entries) r)

module _ (gob : Gob) (laws : GobLaws gob) (cfg : Config) (faults : Faults) where
  abbrev P : List CacheEntry → Disk → Disk × Option SaveError → Type 0
  P es d r = Unsaved d r ⊎ Written gob es r

  replaced :
      (es : List CacheEntry) (bytes : Text) (d : Disk)
      → gob.encode es ≡ some bytes
      → P es d (replace_file faults bytes d)
  unfolding replace_file
  replaced es bytes d h =
      by_if (P es d) faults.rename _ _ (λ _. inl (refl, (SaveError.rename_failed, refl)))
        (λ _. inr (refl, refl, (bytes, refl, laws.decode-encode es bytes h)))

  written : (es : List CacheEntry) (d : Disk) → P es d (write_entries gob faults es d)
  unfolding write_entries
  written es d =
      by_if (P es d) faults.create _ _ (λ _. inl (refl, (SaveError.create_failed, refl)))
        (λ _.
          by_option (P es d) (gob.encode es) _ _ (λ _. inl (refl, (SaveError.encode_failed, refl)))
            (λ bytes h. replaced es bytes d h))

  -- A save never leaves a damaged file: it has nothing to do (persistence is off, no function gives
  -- entries or there is none) and changes nothing, or it fails with an error and the old file
  -- stays, or it succeeds and the file decodes to the entries that have not expired, with no
  -- temporary file left.
  pub save-Saved :
      (now : ℕ) (entries : Option (List CacheEntry)) (d : Disk)
      → Saved gob cfg now entries d (save gob cfg faults now entries d)
  unfolding save
  save-Saved now none d = refl
  save-Saved now (some entries) d =
      let Q : Disk × Option SaveError → Type 0 = Saved gob cfg now (some entries) d in
      by_if Q cfg.enabled _ _
        (λ _.
          by_if Q (is_nil entries) _ _ (λ nil. inl (inr nil, refl))
            (λ _. inr (written (unexpired now entries) d)))
        (λ off. inl (inl off, refl))
