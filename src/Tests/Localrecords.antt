-- ===== src/Tests/Localrecords.antt =====
-- The local records at concrete inputs.
use dns_server_mandiri.Dns.{DnsLaws, Rr, a, type_a, class_inet}
use dns_server_mandiri.Localrecords.Lookups.{
  answer_with, ttl_of, lookup-add_record, lookup-remove_record,
}
use dns_server_mandiri.Localrecords.{
  Record, LocalRecords, NetLib, state_of, rrs_or_nil, record_name, record_key, make_rr, address_rr,
  header, add_record, remove_record, lookup_records,
}
use dns_server_mandiri.Prelude.Dict.{lookup, delete}
use dns_server_mandiri.Prelude.Strings.{
  to_lower, to_upper, with_dot, ends_with_dot, lower, dot, to_lower_idem,
}
use dns_server_mandiri.Prelude.Text.{Text, text, ◌==◌ as text_eq}
use dns_server_mandiri.Prelude.{
  ℕ, ◌≡◌, refl, true, none, some, inr, [], ◌∷◌, ◌++◌, arith, ◌==◌, ap, ◌∙◌, sym, Bool-cases, inl,
}
use dns_server_mandiri.Tests.Data.{lib, blank}

lower-dot : (c : ℕ) → (lower c == dot) ≡ (c == dot)
lower-dot c = ground arith

ends_lower : (s : Text) → ends_with_dot (to_lower s) ≡ ends_with_dot s
unfolding ends_with_dot to_lower
ends_lower [] = refl
ends_lower (c ∷ []) = lower-dot c
ends_lower (c ∷ d ∷ s) = ends_lower (d ∷ s)

ends_snoc : (s : Text) → ends_with_dot (s ++ (dot ∷ [])) ≡ true
unfolding ends_with_dot
ends_snoc [] = refl
ends_snoc (c ∷ []) = refl
ends_snoc (c ∷ d ∷ s) = ends_snoc (d ∷ s)

ends_with : (s : Text) → ends_with_dot (with_dot s) ≡ true
unfolding with_dot
ends_with s = elim (Bool-cases (ends_with_dot s)) [ inl e ↦ rw e e | inr e ↦ rw e (ends_snoc s) ]

to_lower-append : (s t : Text) → to_lower (s ++ t) ≡ to_lower s ++ to_lower t
unfolding to_lower
to_lower-append [] t = refl
to_lower-append (c ∷ s) t = ap (◌∷◌ (lower c)) (to_lower-append s t)

to_lower-with_dot : (s : Text) → to_lower (with_dot (to_lower s)) ≡ to_lower (with_dot s)
unfolding with_dot
to_lower-with_dot s = elim (Bool-cases (ends_with_dot s)) [
  | inl e ↦ rw (ends_lower s ∙ e, e) (to_lower_idem s)
  | inr e ↦
      rw (ends_lower s ∙ e, e)
        (to_lower-append (to_lower s) (dot ∷ [])
          ∙ ap (λ t. t ++ to_lower (dot ∷ [])) (to_lower_idem s)
          ∙ sym (to_lower-append s (dot ∷ [])))
]

pub laws : DnsLaws lib
laws = record {
  canonical-to_lower = to_lower-with_dot;
  canonical_dot = λ s. ends_lower (with_dot s) ∙ ends_with s;
  set_reply_rcode = λ m r. refl;
  set_rcode_rcode = λ m r n. refl;
}

-- Every text is the address 10.0.0.9.
abbrev pub net : NetLib
net = record { to4 = λ s. some (10 ∷ 0 ∷ 0 ∷ 9 ∷ []); to16 = λ s. none; print = λ ip. ip }

abbrev nas : Record
nas = record { name = text "NAS.lan"; rtype = text "a"; value = text "10.0.0.9"; ttl = 0 }

abbrev nas_rr : Rr
nas_rr = record {
  hdr = record { name = text "nas.lan."; rrtype = type_a; class = class_inet; ttl = 300 };
  rdata = a (10 ∷ 0 ∷ 0 ∷ 9 ∷ []);
}

abbrev pub none_yet : LocalRecords
none_yet = record { records = []; enabled = true }

made :
    make_rr lib net (to_upper nas.rtype) (record_name lib net nas.name) nas (ttl_of nas)
    ≡ inr nas_rr
unfolding make_rr address_rr header record_name to_upper to_lower with_dot ends_with_dot text_eq
made = refl

upper_a : to_upper nas.rtype ≡ lib.type_to_string 1
unfolding to_upper
upper_a = refl

lookup-add_record_example :
    lookup_records lib net blank nas.name 1
      (state_of lib net none_yet (add_record lib net nas none_yet))
    ≡ some (
        answer_with blank (
          rrs_or_nil (lookup (record_key lib net nas.name nas.rtype) none_yet.records)
          ++ (nas_rr ∷ [])))
lookup-add_record_example =
    lookup-add_record lib net blank nas nas_rr 1 none_yet laws refl upper_a made

-- The records with that of the storage server.
abbrev with_nas : LocalRecords
with_nas = record {
  records = (record_key lib net nas.name nas.rtype, nas_rr ∷ []) ∷ [];
  enabled = true;
}

no_alias :
    lookup
      (lib.canonical_name nas.name ++ text "/CNAME")
      (remove_record lib net nas.name nas.rtype with_nas).records
    ≡ none
unfolding lookup remove_record delete record_key record_name to_upper to_lower with_dot
    ends_with_dot text_eq
no_alias = refl

lookup-remove_record_example :
    lookup_records lib net blank nas.name 1 (remove_record lib net nas.name nas.rtype with_nas)
    ≡ none
lookup-remove_record_example =
    lookup-remove_record lib net blank nas.name nas.rtype 1 with_nas laws upper_a no_alias
