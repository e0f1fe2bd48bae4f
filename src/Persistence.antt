-- ===== src/Persistence.antt =====
-- internal/persistence/persistence.go: the cache on disk. The encoding of the package
-- encoding/gob is the parameter `Gob`; what the operating system answers is `Faults`. One reading
-- of the clock stands for those of a call.
pub mod Saved
pub mod Restored
pub mod Exports
pub mod Entries
pub mod Restart
pub mod Roundtrip
use dns_server_mandiri.Cache.Export.{ExportEntry, export_entries}
use dns_server_mandiri.Cache.{Cache, set as set_entry}
use dns_server_mandiri.Dns.{DnsLib}
use dns_server_mandiri.Prelude.Text.{Text}
use dns_server_mandiri.Prelude.{
  ℕ, ◌+◌, ◌≡◌, Bool, Option, none, some, List, [], ◌∷◌, map, ltb, true, false, if◌then◌else◌,
}

pub record CacheEntry : Type 0 where
  pub name : Text
  pub qtype : ℕ
  pub qclass : ℕ
  pub msg_bytes : Text
  pub expires_at : ℕ
  pub created_at : ℕ

pub record Config : Type 0 where
  pub enabled : Bool
  pub file_path : Text
  pub save_interval : ℕ

-- The conversion of `GetEntriesFunc` in `New` of the server.
unfoldable pub cache_entry : ExportEntry → CacheEntry
cache_entry e = record {
  name = e.name;
  qtype = e.qtype;
  qclass = e.qclass;
  msg_bytes = e.msg_bytes;
  expires_at = e.expires_at;
  created_at = e.created_at;
}

unfoldable pub get_entries : DnsLib → ℕ → Cache → List CacheEntry
get_entries lib now c = map cache_entry (export_entries lib now c)

-- An encoder may fail; what it writes is decoded to what it was given.
pub record Gob : Type 0 where
  pub encode : List CacheEntry → Option Text
  pub decode : Text → Option (List CacheEntry)

pub record GobLaws (g : Gob) : Type 0 where
  pub decode-encode :
      (es : List CacheEntry) (bytes : Text) → g.encode es ≡ some bytes → g.decode bytes ≡ some es

-- The file and the temporary file beside it.
pub record Disk : Type 0 where
  pub file : Option Text
  pub tmp : Option Text

pub record Faults : Type 0 where
  pub create : Bool
  pub rename : Bool
  pub open_file : Bool

pub data SaveError : Type 0 where
  create_failed encode_failed rename_failed : SaveError

-- The loop of `Save` that filters out expired entries.
unfoldable pub unexpired : ℕ → List CacheEntry → List CacheEntry
unexpired now [] = []
unexpired now (e ∷ es) =
    let rest = unexpired now es in if ltb now e.expires_at then e ∷ rest else rest

abbrev pub is_nil {ℓ} : {A : Type ℓ} → List A → Bool
is_nil [] = true
is_nil (x ∷ xs) = false

-- The part of `Save` after the filter, and after the encoder.
unfoldable pub replace_file : Faults → Text → Disk → Disk × Option SaveError
replace_file faults bytes d =
    if faults.rename
    then (record d { tmp = none }, some rename_failed)
    else (record { file = some bytes; tmp = none }, none)

unfoldable pub write_entries : Gob → Faults → List CacheEntry → Disk → Disk × Option SaveError
write_entries gob faults valid d =
    if faults.create then (d, some create_failed) else elim (gob.encode valid) [
      | none ↦ (record d { tmp = none }, some encode_failed)
      | some bytes ↦ replace_file faults bytes d
    ]

-- `Save`, with the entries that `GetEntriesFunc` returns, nothing if no such function was set.
unfoldable pub save :
    Gob → Config → Faults → ℕ → Option (List CacheEntry) → Disk → Disk × Option SaveError
save gob cfg faults now none d = (d, none)
save gob cfg faults now (some entries) d =
    if cfg.enabled
    then (if is_nil entries then (d, none) else write_entries gob faults (unexpired now entries) d)
    else (d, none)

pub data LoadError : Type 0 where
  open_failed decode_failed : LoadError

module _ (lib : DnsLib) where
  -- The body of the loop of `Load`.
  unfoldable pub restore_entry : ℕ → CacheEntry → Cache × ℕ → Cache × ℕ
  restore_entry now e (c, n) =
      if ltb now e.expires_at
      then (elim (lib.unpack e.msg_bytes) [
        | none ↦ (c, n)
        | some m ↦ (set_entry lib e.name e.qtype e.qclass (some m) (λ k. now) now now c, n + 1)
      ])
      else (c, n)

  unfoldable pub restore_loop : ℕ → List CacheEntry → Cache × ℕ → Cache × ℕ
  restore_loop now [] r = r
  restore_loop now (e ∷ es) r = restore_loop now es (restore_entry now e r)

  -- `Load`: the cache, and the number of restored entries with the error.
  unfoldable pub load : Gob → Config → Faults → ℕ → Disk → Cache → Cache × ℕ × Option LoadError
  load gob cfg faults now d c =
      if cfg.enabled
      then (if faults.open_file then (c, 0, some open_failed) else elim d.file [
        | none ↦ (c, 0, none)
        | some bytes ↦ elim (gob.decode bytes) [
          | none ↦ (c, 0, some decode_failed)
          | some es ↦ let (c', n) = restore_loop now es (c, 0) in (c', n, none)
        ]
      ])
      else (c, 0, none)
