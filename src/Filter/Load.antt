-- ===== src/Filter/Load.antt =====
-- `LoadBlocklists`: the blocklist after a load, and what its size means.
use dns_server_mandiri.Filter.Hosts.{
  Fetched, InEntry, InEntries, InFiles, Has, source_sound, source_complete,
}
use dns_server_mandiri.Filter.{
  Filter, Names, contains, parse_line, add_parsed, parse_hosts_file, add_source, load_sources,
  DirEntry, load_entry, load_entries, load_local_files, load_blocklists,
}
use dns_server_mandiri.Prelude.Dict.{length-insert-le, lookup}
use dns_server_mandiri.Prelude.Strings.{has_prefix}
use dns_server_mandiri.Prelude.Text.{Text, text}
use dns_server_mandiri.Prelude.{
  ℕ, ◌≤◌, ◌≡◌, ◌↔◌, ◌⊎◌, Bool, true, Option, none, some, List, [], ◌∷◌, length, arith, inl, inr,
  by_if, Bool-cases, ◌||◌,
}

nothing : (d : Text) → contains d [] ≡ true → ⊥
unfolding contains lookup
nothing d h = ground arith

module _ (is_ip : Text → Bool) (d : Text) where
  entry_sound :
      (entry : DirEntry) (r : Names × ℕ)
      → Has is_ip d (load_entry is_ip entry r)
      → InEntry is_ip d entry ⊎ Has is_ip d r
  unfolding load_entry
  entry_sound entry r h = elim (Bool-cases (entry.is_dir || has_prefix entry.name (text "."))) [
    | inl skip ↦ inr (rw skip at h)
    | inr read ↦ elim (source_sound is_ip d entry.lines r (rw read at h)) [
      | inl n ↦ inl (ground arith, ground arith, n)
      | inr x ↦ inr x
    ]
  ]

  entry_complete :
      (entry : DirEntry) (r : Names × ℕ)
      → InEntry is_ip d entry ⊎ Has is_ip d r
      → Has is_ip d (load_entry is_ip entry r)
  unfolding load_entry
  entry_complete entry r (inl (file, shown, n)) =
      rw (file, shown) (source_complete is_ip d entry.lines r (inl n))
  entry_complete entry r (inr x) =
      by_if (Has is_ip d) (entry.is_dir || has_prefix entry.name (text ".")) _ _ (λ _. x)
        (λ _. source_complete is_ip d entry.lines r (inr x))

  entries_sound :
      (entries : List DirEntry) (r : Names × ℕ)
      → Has is_ip d (load_entries is_ip entries r)
      → InEntries is_ip d entries ⊎ Has is_ip d r
  unfolding load_entries
  entries_sound [] r h = inr h
  entries_sound (entry ∷ entries) r h = elim (entries_sound entries (load_entry is_ip entry r) h) [
    | inl n ↦ inl (inr n)
    | inr x ↦ elim (entry_sound entry r x) [ inl n ↦ inl (inl n) | inr y ↦ inr y ]
  ]

  entries_complete :
      (entries : List DirEntry) (r : Names × ℕ)
      → InEntries is_ip d entries ⊎ Has is_ip d r
      → Has is_ip d (load_entries is_ip entries r)
  unfolding load_entries
  entries_complete [] r h = elim h [ inl n ↦ absurd n | inr x ↦ x ]
  entries_complete (entry ∷ entries) r h =
      entries_complete entries (load_entry is_ip entry r) (elim h [
        | inl n ↦ elim n [
          | inl here ↦ inr (entry_complete entry r (inl here))
          | inr there ↦ inl there
        ]
        | inr x ↦ inr (entry_complete entry r (inr x))
      ])

  files_sound :
      (files : Option (List DirEntry)) (r : Names × ℕ)
      → Has is_ip d (load_local_files is_ip files r)
      → InFiles is_ip d files ⊎ Has is_ip d r
  unfolding load_local_files
  files_sound none r h = inr h
  files_sound (some entries) r h = entries_sound entries r h

  files_complete :
      (files : Option (List DirEntry)) (r : Names × ℕ)
      → InFiles is_ip d files ⊎ Has is_ip d r
      → Has is_ip d (load_local_files is_ip files r)
  unfolding load_local_files
  files_complete none r h = elim h [ inl n ↦ absurd n | inr x ↦ x ]
  files_complete (some entries) r h = entries_complete entries r h

  module _ (fetch : Text → Option (List Text)) where
    sources_sound :
        (sources : List Text) (r : Names × ℕ)
        → Has is_ip d (load_sources is_ip fetch sources r)
        → Fetched is_ip fetch d sources ⊎ Has is_ip d r
    unfolding load_sources
    sources_sound [] r h = inr h
    sources_sound (s ∷ sources) r h =
        elim (sources_sound sources (add_source is_ip (fetch s) r) h) [
          | inl n ↦ inl (inr n)
          | inr x ↦ elim (source_sound is_ip d (fetch s) r x) [
            | inl n ↦ inl (inl n)
            | inr y ↦ inr y
          ]
        ]

    sources_complete :
        (sources : List Text) (r : Names × ℕ)
        → Fetched is_ip fetch d sources ⊎ Has is_ip d r
        → Has is_ip d (load_sources is_ip fetch sources r)
    unfolding load_sources
    sources_complete [] r h = elim h [ inl n ↦ absurd n | inr x ↦ x ]
    sources_complete (s ∷ sources) r h =
        sources_complete sources (add_source is_ip (fetch s) r) (elim h [
          | inl n ↦ elim n [
            | inl here ↦ inr (source_complete is_ip d (fetch s) r (inl here))
            | inr there ↦ inl there
          ]
          | inr x ↦ inr (source_complete is_ip d (fetch s) r (inr x))
        ])

    -- After a load the blocklist holds exactly the domains that a line of a source which could be
    -- read, or of a readable file of the local directory that is not hidden, names. Nothing of the
    -- list before is kept.
    pub load_blocklists_iff :
        (files : Option (List DirEntry)) (f : Filter)
        → (contains d (load_blocklists is_ip fetch files f).blocked ≡ true)
          ↔ (Fetched is_ip fetch d f.sources ⊎ InFiles is_ip d files)
    unfolding load_blocklists
    load_blocklists_iff files f = (
      λ h. elim (files_sound files (load_sources is_ip fetch f.sources ([], 0)) h) [
        | inl n ↦ inr n
        | inr x ↦ elim (sources_sound f.sources ([], 0) x) [
          | inl n ↦ inl n
          | inr y ↦ absurd (nothing d y)
        ]
      ],
      λ h.
          files_complete files (load_sources is_ip fetch f.sources ([], 0))
            (elim h [ inl n ↦ inr (sources_complete f.sources ([], 0) (inl n)) | inr n ↦ inl n ]),
    )

-- The count covers the entries.
abbrev Counted : Names × ℕ → Type 0
Counted r = length r.0 ≤ r.1

module _ (is_ip : Text → Bool) where
  add-Counted : (o : Option Text) (r : Names × ℕ) → Counted r → Counted (add_parsed o r)
  unfolding add_parsed
  add-Counted none r h = h
  add-Counted (some d) r h = omega (arith, length-insert-le d tt r.0)

  parse-Counted :
      (lines : List Text) (r : Names × ℕ) → Counted r → Counted (parse_hosts_file is_ip lines r)
  unfolding parse_hosts_file
  parse-Counted [] r h = h
  parse-Counted (line ∷ lines) r h =
      parse-Counted lines (add_parsed (parse_line is_ip line) r)
        (add-Counted (parse_line is_ip line) r h)

  source-Counted :
      (o : Option (List Text)) (r : Names × ℕ) → Counted r → Counted (add_source is_ip o r)
  unfolding add_source
  source-Counted none r h = h
  source-Counted (some lines) r h = parse-Counted lines r h

  sources-Counted :
      (fetch : Text → Option (List Text)) (sources : List Text) (r : Names × ℕ)
      → Counted r
      → Counted (load_sources is_ip fetch sources r)
  unfolding load_sources
  sources-Counted fetch [] r h = h
  sources-Counted fetch (s ∷ sources) r h =
      sources-Counted fetch sources (add_source is_ip (fetch s) r) (source-Counted (fetch s) r h)

  entries-Counted :
      (entries : List DirEntry) (r : Names × ℕ) → Counted r → Counted (load_entries is_ip entries r)
  unfolding load_entries load_entry
  entries-Counted [] r h = h
  entries-Counted (entry ∷ entries) r h = entries-Counted entries _ (
      by_if Counted (entry.is_dir || has_prefix entry.name (text ".")) _ _ (λ _. h)
        (λ _. source-Counted entry.lines r h))

  files-Counted :
      (files : Option (List DirEntry)) (r : Names × ℕ)
      → Counted r
      → Counted (load_local_files is_ip files r)
  unfolding load_local_files
  files-Counted none r h = h
  files-Counted (some entries) r h = entries-Counted entries r h

  -- The reported size is at least the number of different domains on the blocklist.
  pub blocklist_size-le :
      (fetch : Text → Option (List Text)) (files : Option (List DirEntry)) (f : Filter)
      → length (load_blocklists is_ip fetch files f).blocked
        ≤ (load_blocklists is_ip fetch files f).blocklist_size
  unfolding load_blocklists
  blocklist_size-le fetch files f =
      files-Counted files (load_sources is_ip fetch f.sources ([], 0))
        (sources-Counted fetch f.sources ([], 0) (omega arith))
