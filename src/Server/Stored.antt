-- ===== src/Server/Stored.antt =====
-- The stored lists after a restart, and what the dashboard stores in them.
use dns_server_mandiri.Dashboard.Lists.{new_sources}
use dns_server_mandiri.Database.{
  Db, DomainEntry, NewRow, get_setting, get_domains, get_whitelist_domains, get_blacklist_domains,
  add_domain,
}
use dns_server_mandiri.Database.Sources.{get_enabled_blocklist_urls}
use dns_server_mandiri.Dns.{DnsLib}
use dns_server_mandiri.Filter.Control.{set_sources}
use dns_server_mandiri.Filter.Decision.{contains-insert}
use dns_server_mandiri.Filter.{
  Filter, Names, contains, canonical, add_to_whitelist, add_to_blacklist, set_enabled,
  start_auto_update,
}
use dns_server_mandiri.Prelude.Dict.{insert}
use dns_server_mandiri.Prelude.Rows.{any_row}
use dns_server_mandiri.Prelude.Text.{Text, text, ◌==◌ as text_eq, eq_iff}
use dns_server_mandiri.Prelude.{
  ℕ, Bool, true, false, Option, none, some, List, [], ◌∷◌, ◌++◌, map, ◌≡◌, ◌↔◌, ◌⊎◌, inl, inr, refl,
  sym, ap, ◌∙◌, subst, arith, by_if, Bool-cases, if◌then◌else◌,
}
use dns_server_mandiri.Server.Start.{Loading, apply_switch, add_each, add_stored, load_stored}

module _ (lib : DnsLib) where
  -- A row of the table names the domain.
  abbrev pub InRows : Text → List DomainEntry → Type 0
  InRows d [] = ⊥
  InRows d (row ∷ rows) = (canonical lib row.domain ≡ d) ⊎ InRows d rows

  abbrev white : Text → Filter → Filter
  white d f = add_to_whitelist lib d f

  abbrev black : Text → Filter → Filter
  black d f = add_to_blacklist lib d f

  abbrev domains_of : List DomainEntry → List Text
  domains_of rows = map (λ (e : DomainEntry). e.domain) rows

  -- One list, by whichever operation and field.
  module _ (add : Text → Filter → Filter) (list : Filter → Names)
      (inserts : (d : Text) (f : Filter)
        → list (add d f) ≡ insert (canonical lib d) tt (list f)) where
    add_each-InRows :
        (d : Text) (rows : List DomainEntry) (f : Filter)
        → (contains d (list (add_each add (domains_of rows) f)) ≡ true)
          ↔ (InRows d rows ⊎ (contains d (list f) ≡ true))
    unfolding add_each
    add_each-InRows d [] f = (λ h. inr h, λ h. elim h [ inl n ↦ absurd n | inr c ↦ c ])
    add_each-InRows d (row ∷ rows) f =
        let ih = add_each-InRows d rows (add row.domain f) in
        let new =
          ap (contains d) (inserts row.domain f)
          ∙ contains-insert (canonical lib row.domain) d (list f) in
        let same = eq_iff (canonical lib row.domain) d in
        (
          λ h. elim (ih.0 h) [
            | inl n ↦ inl (inr n)
            | inr c ↦ elim (Bool-cases (text_eq (canonical lib row.domain) d)) [
              | inl here ↦ inl (inl (same.0 here))
              | inr there ↦ inr (ground (arith, new))
            ]
          ],
          λ h. ih.1 (elim h [
            | inl n ↦ elim n [ inl here ↦ inr (ground (arith, new, same)) | inr more ↦ inl more ]
            | inr c ↦ inr (ground (arith, new))
          ]),
        )

    add_stored-InRows :
        (fault : Bool) (rows : List DomainEntry) (d : Text) (f : Filter)
        → fault ≡ false
        → (contains d (list (add_stored add (get_domains fault rows) f)) ≡ true)
          ↔ (InRows d rows ⊎ (contains d (list f) ≡ true))
    unfolding add_stored get_domains
    add_stored-InRows fault rows d f works =
        subst
          (λ b.
            (contains d (list (add_stored add (if b then none else some (domains_of rows)) f))
              ≡ true)
            ↔ (InRows d rows ⊎ (contains d (list f) ≡ true)))
          (sym works) (add_each-InRows d rows f)

  -- What an addition leaves is left over a whole table.
  module _ {B : Type 0} (add : Text → Filter → Filter) (list : Filter → B)
      (keeps : (d : Text) (f : Filter) → list (add d f) ≡ list f) where
    add_each-keeps : (ds : List Text) (f : Filter) → list (add_each add ds f) ≡ list f
    unfolding add_each
    add_each-keeps [] f = refl
    add_each-keeps (d ∷ ds) f = add_each-keeps ds (add d f) ∙ keeps d f

    pub add_stored-keeps :
        (o : Option (List Text)) (f : Filter) → list (add_stored add o f) ≡ list f
    unfolding add_stored
    add_stored-keeps none f = refl
    add_stored-keeps (some ds) f = add_each-keeps ds f

  apply_switch-keeps :
      (o : Option Text) (l : Loading)
      → ((apply_switch o l).0.whitelist ≡ l.0.whitelist)
        × ((apply_switch o l).0.blacklist ≡ l.0.blacklist)
  unfolding apply_switch set_enabled start_auto_update
  apply_switch-keeps none l = (refl, refl)
  apply_switch-keeps (some v) l = (ground arith, ground arith)

  new_sources-keeps :
      (o : Option (List Text)) (f : Filter)
      → ((new_sources o f).whitelist ≡ f.whitelist) × ((new_sources o f).blacklist ≡ f.blacklist)
  unfolding set_sources
  new_sources-keeps none f = (refl, refl)
  new_sources-keeps (some []) f = (refl, refl)
  new_sources-keeps (some (u ∷ us)) f = (refl, refl)

  module _ (fault : ℕ → Bool) (db : Db) (l : Loading) (d : Text) where
    moved :
        (rows : List DomainEntry) (x x' y y' : Names)
        → x ≡ x'
        → y ≡ y'
        → (contains d x' ≡ true) ↔ (InRows d rows ⊎ (contains d y ≡ true))
        → (contains d x ≡ true) ↔ (InRows d rows ⊎ (contains d y' ≡ true))
    moved rows x x' y y' e₁ e₂ h =
        subst (λ z. (contains d z ≡ true) ↔ (InRows d rows ⊎ (contains d y' ≡ true))) (sym e₁)
          (subst (λ z. (contains d x' ≡ true) ↔ (InRows d rows ⊎ (contains d z ≡ true))) e₂ h)

    abbrev first : Filter
    first = (apply_switch (get_setting (fault 0) (text "filter_enabled") db) l).0

    abbrev second : Filter
    second = add_stored white (get_whitelist_domains (fault 1) db) first

    abbrev third : Filter
    third = add_stored black (get_blacklist_domains (fault 2) db) second

    whites : (load_stored lib fault db l).0.whitelist ≡ second.whitelist
    unfolding load_stored add_to_blacklist
    whites =
        (new_sources-keeps (get_enabled_blocklist_urls (fault 3) db) third).0
        ∙ add_stored-keeps black (λ f. f.whitelist) (λ d f. refl)
            (get_blacklist_domains (fault 2) db) second

    blacks : (load_stored lib fault db l).0.blacklist ≡ third.blacklist
    unfolding load_stored
    blacks = (new_sources-keeps (get_enabled_blocklist_urls (fault 3) db) third).1

    old_blacks : second.blacklist ≡ l.0.blacklist
    unfolding add_to_whitelist
    old_blacks =
        add_stored-keeps white (λ f. f.blacklist) (λ d f. refl) (get_whitelist_domains (fault 1) db)
          first
        ∙ (apply_switch-keeps (get_setting (fault 0) (text "filter_enabled") db) l).1

    -- After a start the whitelist of the filter has the stored domains and those that it had, if
    -- the statement that reads it does not fail.
    pub load_stored-whitelist :
        fault 1 ≡ false
        → (contains d (load_stored lib fault db l).0.whitelist ≡ true)
          ↔ (InRows d db.whitelist ⊎ (contains d l.0.whitelist ≡ true))
    unfolding add_to_whitelist get_whitelist_domains
    load_stored-whitelist w =
        moved db.whitelist _ _ _ _ whites
          (apply_switch-keeps (get_setting (fault 0) (text "filter_enabled") db) l).0
          (add_stored-InRows white (λ f. f.whitelist) (λ d f. refl) (fault 1) db.whitelist d first
            w)

    -- After a start the whitelist of the filter has the stored domains and those that it had, and
    -- so has the blacklist, if the two statements that read them do not fail.
    pub load_stored-InRows :
        fault 1 ≡ false
        → fault 2 ≡ false
        → ((contains d (load_stored lib fault db l).0.whitelist ≡ true)
            ↔ (InRows d db.whitelist ⊎ (contains d l.0.whitelist ≡ true)))
          × ((contains d (load_stored lib fault db l).0.blacklist ≡ true)
              ↔ (InRows d db.blacklist ⊎ (contains d l.0.blacklist ≡ true)))
    unfolding add_to_blacklist get_blacklist_domains
    load_stored-InRows w b = (
      load_stored-whitelist w,
      moved db.blacklist _ _ _ _ blacks old_blacks (
          add_stored-InRows black (λ f. f.blacklist) (λ d f. refl) (fault 2) db.blacklist d second
            b),
    )

  -- A domain that was added is in the table.
  InRows-append :
      (d : Text) (rows : List DomainEntry) (row : DomainEntry)
      → canonical lib row.domain ≡ d
      → InRows d (rows ++ (row ∷ []))
  InRows-append d [] row h = inl h
  InRows-append d (r ∷ rows) row h = inr (InRows-append d rows row h)

  InRows-any_row :
      (domain : Text) (rows : List DomainEntry)
      → any_row (λ (e : DomainEntry). text_eq e.domain domain) rows ≡ true
      → InRows (canonical lib domain) rows
  InRows-any_row domain [] h = absurd (ground arith)
  InRows-any_row domain (r ∷ rows) h = elim (Bool-cases (text_eq r.domain domain)) [
    | inl here ↦ inl (ap (canonical lib) ((eq_iff r.domain domain).0 here))
    | inr there ↦ inr (InRows-any_row domain rows (ground arith))
  ]

  pub add_domain-InRows :
      (row : NewRow) (domain note : Text) (rows : List DomainEntry)
      → InRows (canonical lib domain) (add_domain row domain note rows)
  unfolding add_domain
  add_domain-InRows row domain note rows =
      by_if (InRows (canonical lib domain))
        (any_row (λ (e : DomainEntry). text_eq e.domain domain) rows) _ _
        (λ there. InRows-any_row domain rows there)
        (λ _. InRows-append (canonical lib domain) rows _ refl)
