-- ===== src/Persistence/Restart.antt =====
-- A restart: the entries of one cache, saved and loaded into another.
use dns_server_mandiri.Cache.Branches.{fresh}
use dns_server_mandiri.Cache.Export.{export_entries, export_limit}
use dns_server_mandiri.Cache.{Entry, Cache, set_lifetime, is_negative}
use dns_server_mandiri.Dns.{Msg, DnsLib}
use dns_server_mandiri.Persistence.{cache_entry, get_entries, unexpired, restore_loop}
use dns_server_mandiri.Prelude.Dict.{
  Dict, lookup, insert, Distinct, lookup-insert_ne, lookup-insert_self, length-insert-le,
  lookup-cons_none, lookup-nil, lookup-cons_here, lookup-cons_there,
}
use dns_server_mandiri.Prelude.Text.{Text, eq_iff, ◌==◌}
use dns_server_mandiri.Prelude.{
  ℕ, ◌+◌, ◌≤◌, ◌≡◌, ◌≢◌, ◌⊎◌, inl, inr, refl, sym, ap, subst, ◌∙◌, none, some, [], ◌∷◌, map, length,
  arith, Bool-cases,
}
use dns_server_mandiri.Persistence.Exports.{
  export_loop-exports, saved_entry, step, restart, restore-restart,
}
use dns_server_mandiri.Persistence.Entries.{Keyed, stored, step-Stored, Survives, step-Survives}

module _ (lib : DnsLib) where
  -- What a step may change.
  record Near (j : Text) (c c₁ : Cache) : Type 0 where
    size : c₁.max_size ≡ c.max_size
    grown : length c₁.entries ≤ length c.entries + 1
    others : (k : Text) → j ≢ k → lookup k c₁.entries ≡ lookup k c.entries
    lives : (m : Msg) → set_lifetime c₁ m ≡ set_lifetime c m

  stored-Near :
      (now : ℕ) (j : Text) (c c₁ : Cache)
      → (c₁ ≡ c) ⊎ ((m : Msg) × (c₁ ≡ stored lib now j m c))
      → Near j c c₁
  unfolding set_lifetime
  stored-Near now j c c₁ (inl same) =
      subst (Near j c) (sym same)
        (record { size = refl; grown = omega arith; others = λ k ne. refl; lives = λ m. refl })
  stored-Near now j c c₁ (inr (m, new)) = subst (Near j c) (sym new) near
    where
      near : Near j c (stored lib now j m c)
      near = record {
        size = refl;
        grown = length-insert-le j _ c.entries;
        others = λ k ne. lookup-insert_ne j k _ c.entries ne;
        lives = λ m. refl;
      }

  module _ (exported saved now : ℕ) (h₁ : exported ≤ now) (h₂ : saved ≤ now) where
    abbrev over : Dict Entry → Cache × ℕ → Cache
    over m r = (restart lib exported saved now m r).0

    abbrev fresh_with : ℕ → Msg → Entry
    fresh_with t m = record {
      msg = m;
      created_at = now;
      expires_at = now + t;
      ttl = t;
      hit_count = 0;
      negative = is_negative m;
    }

    -- An entry of the old cache does not disturb the others.
    restart_absent :
        (k : Text) (m : Dict Entry) (c : Cache) (n : ℕ)
        → Distinct m
        → Keyed lib m
        → lookup k m ≡ none
        → length c.entries + length m ≤ c.max_size
        → lookup k (over m (c, n)).entries ≡ lookup k c.entries
    restart_absent k [] c n d keyed h room = refl
    restart_absent k ((j, e) ∷ rest) c n d keyed h room =
        let (c₁, n₁) = step lib now (saved_entry lib exported saved e) (c, n) in
        let near =
          stored-Near now j c c₁
            (step-Stored lib now j c exported saved e n keyed.0 (omega arith)) in
        let (ne, gone) = lookup-cons_none j k e rest h in
        restart_absent k rest c₁ n₁ d.1 keyed.1 gone (omega (arith, near.size, near.grown))
        ∙ near.others k ne

    restart_present :
        (k : Text) (e : Entry) (m : Dict Entry) (c : Cache) (n : ℕ)
        → Distinct m
        → Keyed lib m
        → lookup k m ≡ some e
        → (msg : Msg) → Survives lib now e msg
        → length c.entries + length m ≤ c.max_size
        → lookup k (over m (c, n)).entries ≡ some (fresh c msg now now)
    restart_present k e [] c n d keyed h msg s room = absurd (lookup-nil k e h)
    restart_present k e ((j, f) ∷ rest) c n d keyed h msg s room =
        let (c₁, n₁) = step lib now (saved_entry lib exported saved f) (c, n) in
        let near =
          stored-Near now j c c₁
            (step-Stored lib now j c exported saved f n keyed.0 (omega arith)) in
        elim (Bool-cases (j == k)) [
          | inl here ↦
              let at : j ≡ k = (eq_iff j k).0 here in
              let same : f ≡ e = lookup-cons_here j k f e rest at h in
              restart_absent k rest c₁ n₁ d.1 keyed.1 (subst (λ i. lookup i rest ≡ none) at d.0)
                (omega (arith, near.size, near.grown))
              ∙ ap (λ x. lookup k x.entries)
                  (step-Survives lib exported saved now j f msg c n h₁ h₂ keyed.0
                    (subst (λ x. Survives lib now x msg) (sym same) s) (omega arith))
              ∙ ap (λ i. lookup k (insert i (fresh c msg now now) c.entries)) at
              ∙ lookup-insert_self k (fresh c msg now now) c.entries
          | inr there ↦
              restart_present k e rest c₁ n₁ d.1 keyed.1 (lookup-cons_there j k f e rest there h)
                msg s (omega (arith, near.size, near.grown))
              ∙ ap (λ t. some (fresh_with t msg)) (near.lives msg)
        ]

    -- A restart keeps the cache: of the entries that are saved at one time and loaded at a later
    -- one, into a cache with room for them, those whose lifetime is not over when the file is read
    -- are found under their key, by the message that was packed, with a full lifetime from then on.
    -- The conditions are that the old cache is within the limit of the export, has each key once
    -- and keeps each entry under the key of its question.
    pub restart_lem :
        (old new : Cache) (k : Text) (e : Entry) (msg : Msg)
        → Distinct old.entries
        → Keyed lib old.entries
        → length old.entries ≤ export_limit
        → length new.entries + length old.entries ≤ new.max_size
        → lookup k old.entries ≡ some e
        → Survives lib now e msg
        → lookup k
            (restore_loop lib now
              (unexpired saved (get_entries lib exported old))
              (new, 0)).0.entries
          ≡ some (fresh new msg now now)
    unfolding get_entries export_entries
    restart_lem old new k e msg d keyed limit room h s =
        ap
          (λ es.
            lookup k
              (restore_loop lib now (unexpired saved (map cache_entry es)) (new, 0)).0.entries)
          (export_loop-exports lib exported old.entries [] (omega arith))
        ∙ ap (λ r. lookup k r.0.entries)
            (restore-restart lib exported saved now old.entries (new, 0))
        ∙ restart_present k e old.entries new 0 d keyed h msg s room
