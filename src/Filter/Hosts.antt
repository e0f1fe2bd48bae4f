-- ===== src/Filter/Hosts.antt =====
-- Loading of blocklists: which domains they add, and what the counts mean.
use dns_server_mandiri.Filter.Decision.{contains-insert}
use dns_server_mandiri.Filter.{
  Names, contains, parse_line, add_parsed, parse_hosts_file, DirEntry, add_source,
}
use dns_server_mandiri.Prelude.Strings.{has_prefix}
use dns_server_mandiri.Prelude.Text.{Text, text, ◌==◌, eq_iff}
use dns_server_mandiri.Prelude.{
  ℕ, ◌≡◌, ◌⊎◌, Bool, true, false, Option, none, some, List, [], ◌∷◌, arith, inl, inr, Bool-cases,
  ap,
}

-- A line of the list names the domain.
abbrev pub Named : (Text → Bool) → Text → List Text → Type 0
Named is_ip d [] = ⊥
Named is_ip d (line ∷ lines) = (parse_line is_ip line ≡ some d) ⊎ Named is_ip d lines

-- A source that could be read names the domain, and so for the files.
abbrev pub InSource : (Text → Bool) → Text → Option (List Text) → Type 0
InSource is_ip d none = ⊥
InSource is_ip d (some lines) = Named is_ip d lines

abbrev pub Fetched : (Text → Bool) → (Text → Option (List Text)) → Text → List Text → Type 0
Fetched is_ip fetch d [] = ⊥
Fetched is_ip fetch d (s ∷ sources) = InSource is_ip d (fetch s) ⊎ Fetched is_ip fetch d sources

-- A line of a file that is no directory, is not hidden and can be opened names the domain.
abbrev pub InEntry : (Text → Bool) → Text → DirEntry → Type 0
InEntry is_ip d entry =
    (entry.is_dir ≡ false)
    × (has_prefix entry.name (text ".") ≡ false)
    × InSource is_ip d entry.lines

abbrev pub InEntries : (Text → Bool) → Text → List DirEntry → Type 0
InEntries is_ip d [] = ⊥
InEntries is_ip d (entry ∷ entries) = InEntry is_ip d entry ⊎ InEntries is_ip d entries

abbrev pub InFiles : (Text → Bool) → Text → Option (List DirEntry) → Type 0
InFiles is_ip d none = ⊥
InFiles is_ip d (some entries) = InEntries is_ip d entries

module _ (is_ip : Text → Bool) (d : Text) where
  abbrev pub Has : Names × ℕ → Type 0
  Has r = contains d r.0 ≡ true

  add_sound : (o : Option Text) (r : Names × ℕ) → Has (add_parsed o r) → (o ≡ some d) ⊎ Has r
  unfolding add_parsed
  add_sound none r h = inr h
  add_sound (some k) r h = elim (Bool-cases (k == d)) [
    | inl e ↦ inl (ap some ((eq_iff k d).0 e))
    | inr e ↦ inr (ground (arith, contains-insert k d r.0))
  ]

  add_complete : (o : Option Text) (r : Names × ℕ) → (o ≡ some d) ⊎ Has r → Has (add_parsed o r)
  unfolding add_parsed
  add_complete none r h = ground arith
  add_complete (some k) r h = ground (arith, contains-insert k d r.0, eq_iff k d)

  pub parse_sound :
      (lines : List Text) (r : Names × ℕ)
      → Has (parse_hosts_file is_ip lines r)
      → Named is_ip d lines ⊎ Has r
  unfolding parse_hosts_file
  parse_sound [] r h = inr h
  parse_sound (line ∷ lines) r h =
      swap (add_sound (parse_line is_ip line) r)
        (parse_sound lines (add_parsed (parse_line is_ip line) r) h)
    where
      swap :
          (Has (add_parsed (parse_line is_ip line) r) → (parse_line is_ip line ≡ some d) ⊎ Has r)
          → Named is_ip d lines ⊎ Has (add_parsed (parse_line is_ip line) r)
          → Named is_ip d (line ∷ lines) ⊎ Has r
      swap f (inl n) = inl (inr n)
      swap f (inr x) = elim (f x) [ inl e ↦ inl (inl e) | inr y ↦ inr y ]

  pub parse_complete :
      (lines : List Text) (r : Names × ℕ)
      → Named is_ip d lines ⊎ Has r
      → Has (parse_hosts_file is_ip lines r)
  unfolding parse_hosts_file
  parse_complete [] r (inl n) = absurd n
  parse_complete [] r (inr x) = x
  parse_complete (line ∷ lines) r h =
      parse_complete lines (add_parsed (parse_line is_ip line) r) (swap h)
    where
      swap :
          Named is_ip d (line ∷ lines) ⊎ Has r
          → Named is_ip d lines ⊎ Has (add_parsed (parse_line is_ip line) r)
      swap (inl (inl e)) = inr (add_complete (parse_line is_ip line) r (inl e))
      swap (inl (inr n)) = inl n
      swap (inr x) = inr (add_complete (parse_line is_ip line) r (inr x))

  pub source_sound :
      (o : Option (List Text)) (r : Names × ℕ)
      → Has (add_source is_ip o r)
      → InSource is_ip d o ⊎ Has r
  unfolding add_source
  source_sound none r h = inr h
  source_sound (some lines) r h = parse_sound lines r h

  pub source_complete :
      (o : Option (List Text)) (r : Names × ℕ)
      → InSource is_ip d o ⊎ Has r
      → Has (add_source is_ip o r)
  unfolding add_source
  source_complete none r (inl n) = absurd n
  source_complete none r (inr x) = x
  source_complete (some lines) r h = parse_complete lines r h
