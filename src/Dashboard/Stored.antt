-- ===== src/Dashboard/Stored.antt =====
-- Settings that the administrator saves are found again, also after the database is reopened.
use dns_server_mandiri.Dashboard.{
  Site, Response, Engine, store_settings, save_settings, apply_settings, switch_filter,
}
use dns_server_mandiri.Database.Settings.{
  init_settings, init_upstreams, init_defaults, insert_or_ignore, default_settings,
  default_upstreams,
}
use dns_server_mandiri.Database.Sources.{insert_upstream}
use dns_server_mandiri.Database.{Db, NewRow, set_setting, get_setting}
use dns_server_mandiri.Prelude.Dict.{
  Dict, lookup, insert, Distinct, lookup-insert_ne, lookup-insert_self, lookup-cons_none,
  lookup-nil, lookup-cons_here, lookup-cons_there,
}
use dns_server_mandiri.Prelude.Text.{Text, text, ◌==◌ as text_eq, eq_iff}
use dns_server_mandiri.Prelude.{
  ℕ, ◌+◌, ◌≡◌, ◌⊎◌, inl, inr, refl, ap, ◌∙◌, subst, Bool, true, false, Option, none, some, List, [],
  ◌∷◌, arith, by_if, by_option, Bool-cases,
}

-- Opening a database keeps what is set.
insert_or_ignore-keeps :
    (key value : Text) (m : Dict Text) (k v : Text)
    → lookup k m ≡ some v
    → lookup k (insert_or_ignore key value m) ≡ some v
insert_or_ignore-keeps key value m k v h =
    by_option (λ (n : Dict Text). lookup k n ≡ some v) (lookup key m) _ _
      (λ gone.
        lookup-insert_ne key k value m
          (λ e. absurd (clash (subst (λ j. lookup j m ≡ none) e gone) h))
        ∙ h)
      (λ _ _. h)
  where
    clash : {o : Option Text} → o ≡ none → o ≡ some v → ⊥
    clash p q = ground arith

init_settings-keeps :
    (faults : Text → Bool) (defaults m : Dict Text) (k v : Text)
    → lookup k m ≡ some v
    → lookup k (init_settings faults defaults m) ≡ some v
unfolding init_settings
init_settings-keeps faults [] m k v h = h
init_settings-keeps faults ((key, value) ∷ rest) m k v h = init_settings-keeps faults rest _ k v (
    by_if (λ (n : Dict Text). lookup k n ≡ some v) (faults key) _ _ (λ _. h)
      (λ _. insert_or_ignore-keeps key value m k v h))

init_upstreams-settings :
    (faults : Text → Bool) (rows : ℕ → NewRow) (i : ℕ) (us : List Text) (db : Db)
    → (init_upstreams faults rows i us db).settings ≡ db.settings
unfolding init_upstreams insert_upstream
init_upstreams-settings faults rows i [] db = refl
init_upstreams-settings faults rows i (u ∷ us) db =
    init_upstreams-settings faults rows (i + 1) us _ ∙ ground arith

module _ (fault : ℕ → Bool) (works : (n : ℕ) → fault n ≡ false) where
  -- The loop over the settings of a request, when no statement fails.
  stored_cons :
      (n : ℕ) (key value : Text) (rest : Dict Text) (db : Db)
      → store_settings fault n ((key, value) ∷ rest) db
        ≡ store_settings fault (n + 1) rest (record db { settings = insert key value db.settings })
  unfolding store_settings set_setting
  stored_cons n key value rest db = rw (works n, store_settings) refl

  store_settings-done : (n : ℕ) (m : Dict Text) (db : Db) → (store_settings fault n m db).1 ≡ true
  unfolding store_settings
  store_settings-done n [] db = refl
  store_settings-done n ((key, value) ∷ rest) db =
      ap (λ r. r.1) (stored_cons n key value rest db) ∙ store_settings-done (n + 1) rest _

  store_settings-others :
      (n : ℕ) (m : Dict Text) (db : Db) (k : Text)
      → lookup k m ≡ none
      → lookup k (store_settings fault n m db).0.settings ≡ lookup k db.settings
  unfolding store_settings
  store_settings-others n [] db k h = refl
  store_settings-others n ((key, value) ∷ rest) db k h =
      let (ne, gone) = lookup-cons_none key k value rest h in
      ap (λ r. lookup k r.0.settings) (stored_cons n key value rest db)
      ∙ store_settings-others (n + 1) rest _ k gone
      ∙ lookup-insert_ne key k value db.settings ne

  store_settings-stored :
      (n : ℕ) (m : Dict Text) (db : Db) (k v : Text)
      → Distinct m
      → lookup k m ≡ some v
      → lookup k (store_settings fault n m db).0.settings ≡ some v
  unfolding store_settings
  store_settings-stored n [] db k v d h = absurd (lookup-nil k v h)
  store_settings-stored n ((key, value) ∷ rest) db k v d h =
      ap (λ r. lookup k r.0.settings) (stored_cons n key value rest db)
      ∙ elim (Bool-cases (text_eq key k)) [
        | inl here ↦
            let at : key ≡ k = (eq_iff key k).0 here in
            store_settings-others (n + 1) rest _ k (subst (λ j. lookup j rest ≡ none) at d.0)
            ∙ ap (λ j. lookup k (insert j value db.settings)) at
            ∙ lookup-insert_self k value db.settings
            ∙ ap some (lookup-cons_here key k value v rest at h)
        | inr there ↦
            store_settings-stored (n + 1) rest _ k v d.1
              (lookup-cons_there key k value v rest there h)
      ]

apply_settings-db : (m : Dict Text) (s : Site) → (apply_settings m s).db ≡ s.db
unfolding apply_settings switch_filter
apply_settings-db m s =
    by_option (λ (t : Site). t.db ≡ s.db) (lookup (text "filter_enabled") m) _ _ (λ _. refl)
      (λ v _. by_option (λ (t : Site). t.db ≡ s.db) s.filter _ _ (λ _. refl) (λ f _. refl))

-- What a database that is opened again says of a setting; it may be missing.
abbrev pub reopened : (Text → Bool) → (ℕ → NewRow) → Text → Option Db → Option Text
reopened faults rows k none = none
reopened faults rows k (some db) = get_setting false k (init_defaults faults rows db)

module _ (e : Engine) (s : Site) (db : Db) (m : Dict Text)
    (works : (n : ℕ) → e.fault n ≡ false) where
  saved : (save_settings e m db s).0.db ≡ some (store_settings e.fault 0 m db).0
  unfolding save_settings
  saved =
      by_if (λ (x : Site × Response). x.0.db ≡ some (store_settings e.fault 0 m db).0)
        (store_settings e.fault 0 m db).1 _ _ (λ _. apply_settings-db m _) (λ _. refl)

  -- Each setting of a request that saves settings is found by that value when the database is
  -- opened again, whichever of the defaults can be written then, and a setting that was there and
  -- that the request does not name keeps its value. The conditions are that no statement of the
  -- request fails and that it names no setting twice.
  pub save_settings-reopened :
      (faults : Text → Bool) (rows : ℕ → NewRow) (k v : Text)
      → Distinct m
      → (lookup k m ≡ some v) ⊎ ((lookup k m ≡ none) × (lookup k db.settings ≡ some v))
      → reopened faults rows k (save_settings e m db s).0.db ≡ some v
  unfolding get_setting init_defaults
  save_settings-reopened faults rows k v d h =
      ap (reopened faults rows k) saved
      ∙ ap (lookup k) (init_upstreams-settings faults rows 0 default_upstreams _)
      ∙ init_settings-keeps faults default_settings (store_settings e.fault 0 m db).0.settings k v
          (elim h [
            | inl named ↦ store_settings-stored e.fault works 0 m db k v d named
            | inr (gone, old) ↦ store_settings-others e.fault works 0 m db k gone ∙ old
          ])
