-- ===== src/Persistence/Restored.antt =====
-- What `Load` puts into the cache, from what `Save` wrote.
use dns_server_mandiri.Cache.Evict.{IsValid}
use dns_server_mandiri.Cache.Size.{set-IsValid}
use dns_server_mandiri.Cache.{Cache}
use dns_server_mandiri.Dns.{DnsLib}
use dns_server_mandiri.Persistence.{
  CacheEntry, Config, Gob, Disk, Faults, LoadError, restore_entry, restore_loop, load,
}
use dns_server_mandiri.Prelude.{ℕ, Option, some, List, [], ◌∷◌, ltb, by_if, by_option}

module _ (lib : DnsLib) where
  module _ (now : ℕ) where
    restore_entry-IsValid :
        (e : CacheEntry) (r : Cache × ℕ) → IsValid r.0 → IsValid (restore_entry lib now e r).0
    unfolding restore_entry
    restore_entry-IsValid e (c, n) v =
        let P : Cache × ℕ → Type 0 = λ r. IsValid r.0 in
        by_if P (ltb now e.expires_at) _ _
          (λ _.
            by_option P (lib.unpack e.msg_bytes) _ _ (λ _. v)
              (λ m _. set-IsValid lib e.name e.qtype e.qclass (some m) (λ k. now) now now c v))
          (λ _. v)

    restore_loop-IsValid :
        (es : List CacheEntry) (r : Cache × ℕ) → IsValid r.0 → IsValid (restore_loop lib now es r).0
    unfolding restore_loop
    restore_loop-IsValid [] r v = v
    restore_loop-IsValid (e ∷ es) r v =
        restore_loop-IsValid es (restore_entry lib now e r) (restore_entry-IsValid e r v)

  -- Whatever file is found, and however many entries it has, the cache is well formed after a load:
  -- within its size, with each key once.
  pub load-IsValid :
      (gob : Gob) (cfg : Config) (faults : Faults) (now : ℕ) (d : Disk) (c : Cache)
      → IsValid c
      → IsValid (load lib gob cfg faults now d c).0
  unfolding load
  load-IsValid gob cfg faults now d c v =
      by_if P cfg.enabled _ _
        (λ _.
          by_if P faults.open_file _ _ (λ _. v)
            (λ _.
              by_option P d.file _ _ (λ _. v)
                (λ bytes _.
                  by_option P (gob.decode bytes) _ _ (λ _. v)
                    (λ es _. restore_loop-IsValid now es (c, 0) v))))
        (λ _. v)
    where
      P : Cache × ℕ × Option LoadError → Type 0
      P r = IsValid r.0
