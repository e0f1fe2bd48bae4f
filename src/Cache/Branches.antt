-- ===== src/Cache/Branches.antt =====
-- `Get` and `Set`, branch by branch.
use dns_server_mandiri.Cache.{
  Entry, Cache, Clock, is_expired, evict_oldest, set_lifetime, is_negative, seconds_left, aged,
  should_prefetch, cache_key, get, set,
}
use dns_server_mandiri.Dns.{Msg, DnsLib}
use dns_server_mandiri.Prelude.{
  ℕ, ◌+◌, ◌≡◌, refl, true, false, none, some, leb, length, add64, if◌then◌else◌,
}
use dns_server_mandiri.Prelude.Dict.{lookup, insert, delete}
use dns_server_mandiri.Prelude.Text.{Text}

-- The cache after a hit, and after an entry was found expired.
abbrev pub hit : Text → Entry → Cache → Cache
hit k e c = record c {
  entries = insert k (record e { hit_count = add64 e.hit_count 1 }) c.entries;
  hits = add64 c.hits 1;
}

abbrev pub dropped : Text → Cache → Cache
dropped k c = record c { entries = delete k c.entries; misses = add64 c.misses 1 }

-- The cache in which `Set` stores, and the entry that it stores.
abbrev pub roomy : Clock → Cache → Cache
roomy clock c = if leb c.max_size (length c.entries) then evict_oldest clock c else c

abbrev pub fresh : Cache → Msg → ℕ → ℕ → Entry
fresh c m t₂ t₃ = record {
  msg = m;
  created_at = t₂;
  expires_at = t₃ + set_lifetime c m;
  ttl = set_lifetime c m;
  hit_count = 0;
  negative = is_negative m;
}

module _ (lib : DnsLib) (name : Text) (qtype qclass t₁ t₂ t₃ : ℕ) (c : Cache) where
  pub get_absent :
      lookup (cache_key lib name qtype qclass) c.entries ≡ none
      → get lib name qtype qclass t₁ t₂ t₃ c ≡ (record c { misses = add64 c.misses 1 }, none)
  unfolding get
  get_absent at = rw (at, get)

  module _ (e : Entry) (at : lookup (cache_key lib name qtype qclass) c.entries ≡ some e) where
    pub get_expired :
        is_expired t₁ e ≡ true
        → get lib name qtype qclass t₁ t₂ t₃ c ≡ (dropped (cache_key lib name qtype qclass) c, none)
    unfolding get
    get_expired old = rw (at, get) (rw old)

    pub get_live :
        is_expired t₁ e ≡ false
        → get lib name qtype qclass t₁ t₂ t₃ c ≡ (
          hit (cache_key lib name qtype qclass) e c,
          some (aged (seconds_left t₂ e) e.msg, should_prefetch t₃ c.prefetch_ratio e),
        )
    unfolding get
    get_live live = rw (at, get) (rw live)

  pub set-some :
      (m : Msg) (clock : Clock)
      → set lib name qtype qclass (some m) clock t₂ t₃ c ≡ record (roomy clock c) {
        entries =
            insert (cache_key lib name qtype qclass) (fresh c m t₂ t₃) (roomy clock c).entries;
      }
  unfolding set
  set-some m clock = refl
