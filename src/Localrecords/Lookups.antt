-- ===== src/Localrecords/Lookups.antt =====
-- What adding and removing a record does to the lookups.
use dns_server_mandiri.Dns.{Msg, Rr, DnsLib, DnsLaws}
use dns_server_mandiri.Localrecords.{
  Record, LocalRecords, NetLib, state_of, rrs_or_nil, present, record_name, record_key, make_rr,
  append_rr, add_record, remove_record, find, lookup_records, get_all_records, record_of,
}
use dns_server_mandiri.Prelude.Dict.{
  Dict, lookup, insert, delete, lookup-insert_self, lookup-delete_self,
}
use dns_server_mandiri.Prelude.Strings.{to_upper, with_dot}
use dns_server_mandiri.Prelude.Text.{Text, text, ◌==◌ as text_eq}
use dns_server_mandiri.Prelude.{
  ℕ, ◌≡◌, ◌≢◌, subst, Bool, true, false, Option, none, some, List, [], ◌∷◌, ◌++◌, map,
  ◌==◌ as nat_eq, inl, inr, refl, arith, if◌then◌else◌, sym, ap, Bool-cases,
}
use dns_server_mandiri.Prelude.{mem-map}
use mathlib.Core.List.{Memᴰ}
use mathlib.Core.List.Memᴰ.{head, append_left, append_right}

-- A response with the given records.
abbrev pub answer_with : Msg → List Rr → Msg
answer_with blank rrs = record blank {
  authoritative = true;
  recursion_available = true;
  answer = rrs;
}

abbrev pub ttl_of : Record → ℕ
ttl_of r = if nat_eq r.ttl 0 then 300 else r.ttl

present-snoc : (rrs : List Rr) (rr : Rr) → present (some (rrs ++ (rr ∷ []))) ≡ true
unfolding present
present-snoc [] rr = refl
present-snoc (x ∷ rrs) rr = refl

none-ne-some : {rrs : List Rr} → none ≢ some rrs
none-ne-some h = ground arith

either {ℓ} : {A : Type ℓ} (b : Bool) (o : Option A) → o ≡ none → (if b then o else none) ≡ none
either true o h = h
either false o h = refl

module _ (lib : DnsLib) (net : NetLib) where
  record_name_lem : DnsLaws lib → (name : Text) → record_name lib net name ≡ lib.canonical_name name
  unfolding record_name with_dot
  record_name_lem laws name = rw (laws.canonical-to_lower name, laws.canonical_dot name) refl

  added_lem :
      (r : Record) (rr : Rr) (lr : LocalRecords)
      → make_rr lib net (to_upper r.rtype) (record_name lib net r.name) r (ttl_of r) ≡ inr rr
      → state_of lib net lr (add_record lib net r lr)
        ≡ append_rr lib net (record_key lib net r.name r.rtype) rr lr
  unfolding add_record
  added_lem r rr lr h = rw (h, add_record) refl

  find-present :
      (name : Text) (qtype : ℕ) (rrs : List Rr) (lr : LocalRecords)
      → lookup (name ++ (text "/" ++ lib.type_to_string qtype)) lr.records ≡ some rrs
      → present (some rrs) ≡ true
      → find lib net name qtype lr ≡ some rrs
  unfolding find
  find-present name qtype rrs lr at some_rr = rw (at, find) (rw some_rr refl)

  find_gone :
      (name : Text) (qtype : ℕ) (lr : LocalRecords)
      → lookup (name ++ (text "/" ++ lib.type_to_string qtype)) lr.records ≡ none
      → lookup (name ++ text "/CNAME") lr.records ≡ none
      → find lib net name qtype lr ≡ none
  unfolding find present
  find_gone name qtype lr gone alias = rw (gone, alias) (either _ _ gone)

  lookup-find :
      (blank : Msg) (name : Text) (qtype : ℕ) (rrs : List Rr) (lr : LocalRecords)
      → lr.enabled ≡ true
      → find lib net (lib.canonical_name name) qtype lr ≡ some rrs
      → lookup_records lib net blank name qtype lr ≡ some (answer_with blank rrs)
  unfolding lookup_records
  lookup-find blank name qtype rrs lr on found =
      rw (found, lookup_records) (ap (λ b. if b then some (answer_with blank rrs) else none) on)

  lookup-find-none :
      (blank : Msg) (name : Text) (qtype : ℕ) (lr : LocalRecords)
      → find lib net (lib.canonical_name name) qtype lr ≡ none
      → lookup_records lib net blank name qtype lr ≡ none
  unfolding lookup_records
  lookup-find-none blank name qtype lr gone =
      rw (gone, lookup_records) (either lr.enabled none refl)

  -- After a record was added, a lookup of its name and type answers with the records that stood
  -- there before and the new one last. The conditions are that the component is enabled, that the
  -- record is valid, and the documented form of canonical names.
  pub lookup-add_record :
      (blank : Msg) (r : Record) (rr : Rr) (qtype : ℕ) (lr : LocalRecords)
      → DnsLaws lib
      → lr.enabled ≡ true
      → to_upper r.rtype ≡ lib.type_to_string qtype
      → make_rr lib net (to_upper r.rtype) (record_name lib net r.name) r (ttl_of r) ≡ inr rr
      → lookup_records lib net blank r.name qtype (state_of lib net lr (add_record lib net r lr))
        ≡ some (
            answer_with blank
              (rrs_or_nil (lookup (record_key lib net r.name r.rtype) lr.records) ++ (rr ∷ [])))
  unfolding append_rr record_key
  lookup-add_record blank r rr qtype lr laws on is made =
      let key = record_key lib net r.name r.rtype in
      let rrs = rrs_or_nil (lookup key lr.records) ++ (rr ∷ []) in
      let name = record_name_lem laws r.name in
      let at : lookup (lib.canonical_name r.name ++ (text "/" ++ lib.type_to_string qtype))
            (insert key rrs lr.records)
          ≡ some rrs =
        rw (sym name, sym is) (lookup-insert_self key rrs lr.records) in
      rw (added_lem r rr lr made) (
        lookup-find blank r.name qtype rrs (append_rr lib net key rr lr) on (
          find-present (lib.canonical_name r.name) qtype rrs (append_rr lib net key rr lr) at
            (present-snoc (rrs_or_nil (lookup key lr.records)) rr)))

  -- After the records of a name and type were removed, a lookup of them finds nothing, if no alias
  -- stands under the name. The other condition is the documented form of canonical names.
  pub lookup-remove_record :
      (blank : Msg) (name rtype : Text) (qtype : ℕ) (lr : LocalRecords)
      → DnsLaws lib
      → to_upper rtype ≡ lib.type_to_string qtype
      → lookup
          (lib.canonical_name name ++ text "/CNAME")
          (remove_record lib net name rtype lr).records
        ≡ none
      → lookup_records lib net blank name qtype (remove_record lib net name rtype lr) ≡ none
  unfolding remove_record record_key
  lookup-remove_record blank name rtype qtype lr laws is alias =
      let key = record_key lib net name rtype in
      let canonical = record_name_lem laws name in
      let gone : lookup (lib.canonical_name name ++ (text "/" ++ lib.type_to_string qtype))
            (delete key lr.records)
          ≡ none =
        rw (sym canonical, sym is) (lookup-delete_self key lr.records) in
      lookup-find-none blank name qtype (remove_record lib net name rtype lr)
        (find_gone (lib.canonical_name name) qtype (remove_record lib net name rtype lr) gone alias)

  mem-get_all_records :
      (key : Text) (rrs : List Rr) (rr : Rr) (d : Dict (List Rr))
      → lookup key d ≡ some rrs
      → Memᴰ rr rrs
      → Memᴰ (record_of lib net rr) (get_all_records lib net d)
  unfolding lookup get_all_records rrs_or_nil
  mem-get_all_records key rrs rr [] h i = absurd (none-ne-some h)
  mem-get_all_records key rrs rr ((j, xs) ∷ d) h i = elim (Bool-cases (text_eq j key)) [
    | inl e ↦
        append_left (get_all_records lib net d)
          (mem-map (record_of lib net) xs rr (same-mem xs (rw e at h)))
    | inr e ↦
        append_right (map (record_of lib net) xs) (mem-get_all_records key rrs rr d (rw e at h) i)
  ]
    where
      same-mem : (ys : List Rr) → some ys ≡ some rrs → Memᴰ rr ys
      same-mem ys p = subst (λ zs. Memᴰ rr zs) (sym (ap rrs_or_nil p)) i

  -- A record that was added is listed, under its canonical name and with its lifetime.
  pub get_all_records-add_record :
      (r : Record) (rr : Rr) (lr : LocalRecords)
      → make_rr lib net (to_upper r.rtype) (record_name lib net r.name) r (ttl_of r) ≡ inr rr
      → Memᴰ
          (record_of lib net rr)
          (get_all_records lib net (state_of lib net lr (add_record lib net r lr)).records)
  unfolding append_rr
  get_all_records-add_record r rr lr made =
      let key = record_key lib net r.name r.rtype in
      let rrs = rrs_or_nil (lookup key lr.records) ++ (rr ∷ []) in
      rw (added_lem r rr lr made) (
        mem-get_all_records key rrs rr (insert key rrs lr.records)
          (lookup-insert_self key rrs lr.records)
          (append_right (rrs_or_nil (lookup key lr.records)) (head refl)))
