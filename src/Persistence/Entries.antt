-- ===== src/Persistence/Entries.antt =====
-- What becomes of one entry of the cache when it is saved and loaded.
use dns_server_mandiri.Cache.Branches.{fresh, set-some}
use dns_server_mandiri.Cache.Export.{ExportEntry, exported as export_of, export_entry}
use dns_server_mandiri.Cache.{Entry, Cache, is_expired, cache_key, set as set_entry, evict_oldest}
use dns_server_mandiri.Dns.{Msg, Question, DnsLib}
use dns_server_mandiri.Persistence.{CacheEntry, cache_entry, restore_entry}
use dns_server_mandiri.Prelude.Dict.{Dict, insert}
use dns_server_mandiri.Prelude.Text.{Text}
use dns_server_mandiri.Prelude.{
  ℕ, ◌≤◌, ◌<◌, ◌≡◌, ◌⊎◌, inl, inr, refl, ap, subst, ◌∙◌, Bool, true, false, Option, some, List, [],
  ◌∷◌, length, leb, ltb, if◌then◌else◌, arith, by_if, by_option,
}
use dns_server_mandiri.Persistence.Exports.{saved_export, saved_entry, step}

module _ (lib : DnsLib) where
  -- Every entry stands under the key of the question in its message.
  abbrev pub KeyOf : Text → List Question → Type 0
  KeyOf k [] = Unit
  KeyOf k (q ∷ _) = cache_key lib q.name q.qtype q.qclass ≡ k

  abbrev pub Keyed : Dict Entry → Type 0
  Keyed [] = Unit
  Keyed ((k, e) ∷ rest) = KeyOf k e.msg.question × Keyed rest

  -- The cache after one entry of the file: as before, or with the entry under its key.
  abbrev pub stored : ℕ → Text → Msg → Cache → Cache
  stored now k m c = record c { entries = insert k (fresh c m now now) c.entries }

  pub set_roomy :
      (name : Text) (qtype qclass now : ℕ) (m : Msg) (c : Cache)
      → length c.entries < c.max_size
      → set_entry lib name qtype qclass (some m) (λ k. now) now now c
        ≡ stored now (cache_key lib name qtype qclass) m c
  set_roomy name qtype qclass now m c room =
      let free : leb c.max_size (length c.entries) ≡ false = ground arith in
      set-some lib name qtype qclass now now now c m (λ k. now)
      ∙ ap
          (λ (b : Bool).
            let r = if b then evict_oldest (λ k. now) c else c in
            record r {
              entries = insert (cache_key lib name qtype qclass) (fresh c m now now) r.entries;
            })
          free

  module _ (now : ℕ) (k : Text) (c : Cache) where
    abbrev Stored : Cache × ℕ → Type 0
    Stored r = (r.0 ≡ c) ⊎ ((m : Msg) × (r.0 ≡ stored now k m c))

    restored-Stored :
        (e : CacheEntry) (n : ℕ)
        → cache_key lib e.name e.qtype e.qclass ≡ k
        → length c.entries < c.max_size
        → Stored (restore_entry lib now e (c, n))
    unfolding restore_entry
    restored-Stored e n key room =
        by_if Stored (ltb now e.expires_at) _ _
          (λ _.
            by_option Stored (lib.unpack e.msg_bytes) _ _ (λ _. inl refl)
              (λ m _. inr (
                m,
                set_roomy e.name e.qtype e.qclass now m c room ∙ ap (λ j. stored now j m c) key,
              )))
          (λ _. inl refl)

    exported-Stored :
        (saved : ℕ) (e : Entry) (qs : List Question) (bytes : Text) (n : ℕ)
        → KeyOf k qs
        → length c.entries < c.max_size
        → Stored (step lib now (saved_export lib saved (export_of e qs bytes)) (c, n))
    unfolding cache_entry
    exported-Stored saved e [] bytes n key room = inl refl
    exported-Stored saved e (q ∷ qs) bytes n key room =
        by_if (λ o. Stored (step lib now o (c, n))) (ltb saved e.expires_at) _ _
          (λ _. restored-Stored _ n key room) (λ _. inl refl)

    pub step-Stored :
        (exported saved : ℕ) (e : Entry) (n : ℕ)
        → KeyOf k e.msg.question
        → length c.entries < c.max_size
        → Stored (step lib now (saved_entry lib exported saved e) (c, n))
    unfolding export_entry
    step-Stored exported saved e n key room =
        let P : Option ExportEntry → Type 0 =
          λ o. Stored (step lib now (saved_export lib saved o) (c, n)) in
        by_if P (is_expired exported e) _ _ (λ _. inl refl)
          (λ _.
            by_option P (lib.pack e.msg) _ _ (λ _. inl refl)
              (λ bytes _. exported-Stored saved e e.msg.question bytes n key room))

  -- An entry that outlives the restart lib: its message has a question and can be packed and
  -- unpacked, and its lifetime is not over when the file is read.
  pub record Survives (now : ℕ) (e : Entry) (m : Msg) : Type 0 where
    pub asked : (q : Question) × ((qs : List Question) × (e.msg.question ≡ q ∷ qs))
    pub bytes : Text
    pub packed : lib.pack e.msg ≡ some bytes
    pub unpacked : lib.unpack bytes ≡ some m
    pub live : now < e.expires_at

  pub export_entry-Survives :
      (exported now : ℕ) (e : Entry) (m : Msg)
      → exported ≤ now
      → (s : Survives now e m)
      → export_entry lib exported e ≡ export_of e (s.asked.0 ∷ s.asked.1.0) s.bytes
  unfolding export_entry is_expired
  export_entry-Survives exported now e m h s =
      let young : ltb e.expires_at exported ≡ false = ground (arith, s.live) in
      rw (young, s.packed, s.asked.1.1) refl

  pub step-Survives :
      (exported saved now : ℕ) (k : Text) (e : Entry) (m : Msg) (c : Cache) (n : ℕ)
      → exported ≤ now
      → saved ≤ now
      → KeyOf k e.msg.question
      → Survives now e m
      → length c.entries < c.max_size
      → (step lib now (saved_entry lib exported saved e) (c, n)).0 ≡ stored now k m c
  unfolding restore_entry export_entry cache_entry is_expired
  step-Survives exported saved now k e m c n h₁ h₂ key s room =
      let (q, (qs, asked)) = s.asked in
      let kept : ltb saved e.expires_at ≡ true = ground (arith, s.live) in
      let alive : ltb now e.expires_at ≡ true = ground (arith, s.live) in
      let out : export_entry lib exported e ≡ export_of e (q ∷ qs) s.bytes =
        export_entry-Survives exported now e m h₁ s in
      let inner : (step lib now (saved_export lib saved (export_of e (q ∷ qs) s.bytes)) (c, n)).0
          ≡ set_entry lib q.name q.qtype q.qclass (some m) (λ k. now) now now c =
        rw (kept, alive, s.unpacked) refl in
      ap (λ o. (step lib now (saved_export lib saved o) (c, n)).0) out
      ∙ inner
      ∙ set_roomy q.name q.qtype q.qclass now m c room
      ∙ ap (λ j. stored now j m c) (subst (KeyOf k) asked key)
