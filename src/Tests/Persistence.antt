-- ===== src/Tests/Persistence.antt =====
-- A cache with one entry over a restart.
use dns_server_mandiri.Cache.Branches.{fresh}
use dns_server_mandiri.Cache.Export.{export_entries, export_loop, export_entry}
use dns_server_mandiri.Cache.{
  Cache, Entry, init, cache_key, is_expired, set_lifetime, extract_ttl, min_ttl_of, is_negative,
}
use dns_server_mandiri.Dns.{Msg, DnsLib}
use dns_server_mandiri.Persistence.Entries.{Survives}
use dns_server_mandiri.Persistence.Roundtrip.{load-save}
use dns_server_mandiri.Persistence.Saved.{Saved, save-Saved}
use dns_server_mandiri.Persistence.{
  CacheEntry, Config, Gob, GobLaws, Disk, Faults, get_entries, cache_entry, unexpired, save, load,
}
use dns_server_mandiri.Prelude.Dict.{lookup}
use dns_server_mandiri.Prelude.Strings.{to_lower, with_dot, ends_with_dot}
use dns_server_mandiri.Prelude.Text.{Text, ◌==◌}
use dns_server_mandiri.Prelude.{
  ℕ, suc, zero, ◌*◌, ◌≡◌, refl, ap, sym, ◌∙◌, true, false, Option, none, some, List, [], ◌∷◌, ◌++◌,
  length, take, arith, second,
}
use dns_server_mandiri.Tests.Data.{lib, host, reply}

-- A message with its question, and a library that packs it to one byte.
abbrev asked : Msg
asked = record reply { question = record { name = host; qtype = 1; qclass = 1 } ∷ [] }

abbrev packing : DnsLib
packing = record lib { pack = λ m. some (7 ∷ []); unpack = λ bytes. some asked }

abbrev drop : ℕ → Text → Text
drop zero s = s
drop (suc n) [] = []
drop (suc n) (c ∷ s) = drop n s

-- An encoding of at most one entry.
abbrev encode : List CacheEntry → Option Text
encode [] = some []
encode (e ∷ []) =
    some
      (e.qtype ∷ e.qclass ∷ e.expires_at ∷ e.created_at ∷ length e.name ∷ (e.name ++ e.msg_bytes))
encode (_ ∷ _ ∷ _) = none

abbrev decode : Text → Option (List CacheEntry)
decode (qtype ∷ qclass ∷ expires_at ∷ created_at ∷ n ∷ rest) = some (
    record {
      name = take n rest;
      qtype = qtype;
      qclass = qclass;
      msg_bytes = drop n rest;
      expires_at = expires_at;
      created_at = created_at;
    }
    ∷ [])
decode _ = some []

take-append : (s t : Text) → take (length s) (s ++ t) ≡ s
take-append [] t = refl
take-append (c ∷ s) t = ap (λ r. c ∷ r) (take-append s t)

drop-append : (s t : Text) → drop (length s) (s ++ t) ≡ t
drop-append [] t = refl
drop-append (c ∷ s) t = drop-append s t

abbrev read : Option Text → Option (List CacheEntry)
read none = none
read (some bytes) = decode bytes

decoded : (es : List CacheEntry) (bytes : Text) → encode es ≡ some bytes → decode bytes ≡ some es
decoded [] bytes h = sym (ap read h)
decoded (e ∷ []) bytes h =
    sym (ap read h) ∙ rw (take-append e.name e.msg_bytes, drop-append e.name e.msg_bytes) refl
decoded (_ ∷ _ ∷ _) bytes h = absurd (ground arith)

abbrev gob : Gob
gob = record { encode = encode; decode = decode }

gob-laws : GobLaws gob
gob-laws = record { decode-encode = decoded }

abbrev cfg : Config
cfg = record { enabled = true; file_path = []; save_interval = 300 * second }

abbrev healthy : Faults
healthy = record { create = false; rename = false; open_file = false }

abbrev empty_disk : Disk
empty_disk = record { file = none; tmp = none }

abbrev unused : Cache
unused = init 5 (30 * second) (86400 * second) (300 * second) 100_000

abbrev kept : Entry
kept = fresh unused asked 0 0

-- The old cache has the answer for a minute.
abbrev old : Cache
old = record unused { entries = (cache_key packing host 1 1, kept) ∷ [] }

save-Saved_example :
    Saved gob cfg 6
      (some (get_entries packing 5 old))
      empty_disk
      (save gob cfg healthy 6 (some (get_entries packing 5 old)) empty_disk)
save-Saved_example =
    save-Saved gob gob-laws cfg healthy 6 (some (get_entries packing 5 old)) empty_disk

survives : Survives packing 9 kept asked
unfolding set_lifetime extract_ttl min_ttl_of is_negative init
survives = record {
  asked = (record { name = host; qtype = 1; qclass = 1 }, ([], refl));
  bytes = 7 ∷ [];
  packed = refl;
  unpacked = refl;
  live = omega arith;
}

at : lookup (cache_key packing host 1 1) old.entries ≡ some kept
unfolding lookup ◌==◌ cache_key to_lower with_dot ends_with_dot
at = refl

-- The file: type, class, the times, the length of the name, the name and the packed message.
abbrev image : Text
image = 1 ∷ 1 ∷ 60_000_000_000 ∷ 0 ∷ 11 ∷ (host ++ (7 ∷ []))

encoded : encode (unexpired 6 (get_entries packing 5 old)) ≡ some image
unfolding unexpired get_entries cache_entry export_entries export_loop export_entry is_expired
    set_lifetime extract_ttl min_ttl_of is_negative init
encoded = refl

load-save_example :
    let written = (save gob cfg healthy 6 (some (get_entries packing 5 old)) empty_disk).0 in
    lookup (cache_key packing host 1 1) (load packing gob cfg healthy 9 written unused).0.entries
    ≡ some (fresh unused asked 9 9)
unfolding init lookup
load-save_example =
    load-save packing gob gob-laws cfg healthy 5 6 9 (omega arith) (omega arith) old unused
      (cache_key packing host 1 1) kept asked empty_disk image refl refl refl refl encoded
      (refl, tt) (refl, tt) (omega arith) (omega arith) at survives
