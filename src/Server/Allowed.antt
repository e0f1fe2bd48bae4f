-- ===== src/Server/Allowed.antt =====
-- A domain that the administrator allows: in the running filter, and after a restart.
use dns_server_mandiri.Dashboard.Lists.{
  whitelist_ops, handle_admin_whitelist, handle_admin_list, post_domain, on_filter,
}
use dns_server_mandiri.Dashboard.{Site, Request, Response, Engine, is, fail, or_old, with_db}
use dns_server_mandiri.Database.{Db, add_whitelist, add_domain}
use dns_server_mandiri.Dns.{DnsLib}
use dns_server_mandiri.Filter.{
  Filter, contains, canonical, is_blocked, check, allowed, refused, add_to_whitelist,
}
use dns_server_mandiri.Filter.Decision.{is_blocked-add_to_whitelist}
use dns_server_mandiri.Prelude.Text.{Text, text, ◌==◌ as text_eq, is_empty}
use dns_server_mandiri.Prelude.{
  ℕ, Bool, true, false, Option, none, some, ◌≡◌, inl, refl, ap, ◌∙◌, arith, if◌then◌else◌,
}
use dns_server_mandiri.Server.Start.{Loading, load_stored, with_stored}
use dns_server_mandiri.Server.Stored.{load_stored-whitelist, add_domain-InRows}

is_blocked-whitelisted :
    (lib : DnsLib) (domain : Text) (f : Filter)
    → contains (canonical lib domain) f.whitelist ≡ true
    → (is_blocked lib domain f).1 ≡ false
unfolding is_blocked check allowed refused
is_blocked-whitelisted lib domain f h = ground arith

-- Whether a filter that may be missing blocks.
abbrev pub blocks : DnsLib → Text → Option Filter → Bool
blocks lib domain none = false
blocks lib domain (some f) = (is_blocked lib domain f).1

module _ (e : Engine) (r : Request) (s : Site) (db : Db) (domain note : Text) where
  posted :
      r.method ≡ text "POST"
      → s.db ≡ some db
      → e.json.noted_domain r.body ≡ some (domain, note)
      → is_empty domain ≡ false
      → handle_admin_whitelist e r s ≡ post_domain whitelist_ops e domain note db s
  unfolding handle_admin_whitelist handle_admin_list with_db text_eq
  posted post stored decoded named =
      let not_options : is (text "OPTIONS") r ≡ false = ap (λ m. text_eq m (text "OPTIONS")) post in
      let not_get : is (text "GET") r ≡ false = ap (λ m. text_eq m (text "GET")) post in
      let is_post : is (text "POST") r ≡ true = ap (λ m. text_eq m (text "POST")) post in
      with_db_of _ not_options ∙ rw not_get (rw is_post (rw decoded (rw named refl)))
    where
      with_db_of :
          (handle : Db → Site × Response)
          → is (text "OPTIONS") r ≡ false
          → with_db r s handle ≡ handle db
      with_db_of handle not_options =
          rw not_options (ap (λ o. elim o [ none ↦ (s, fail 500) | some d ↦ handle d ]) stored)

  -- A domain that is posted to the whitelist is not blocked: not by the running filter, and not by
  -- the filter of a later start, whatever configuration, blocklists and blacklist that one has. The
  -- conditions are that there is a database, that the request can be decoded and names a domain,
  -- and that the statements that write and read the whitelist do not fail.
  pub post_whitelist-allows :
      (fault : ℕ → Bool) (l : Loading)
      → r.method ≡ text "POST"
      → s.db ≡ some db
      → e.json.noted_domain r.body ≡ some (domain, note)
      → is_empty domain ≡ false
      → e.fault 0 ≡ false
      → fault 1 ≡ false
      → let s' = (handle_admin_whitelist e r s).0 in
        (blocks e.lib domain s'.filter ≡ false)
        × ((is_blocked e.lib domain (with_stored e.lib fault s'.db l).0).1 ≡ false)
  unfolding add_whitelist post_domain
  post_whitelist-allows fault l post stored decoded named works reads =
      rw (posted post stored decoded named) (live s.filter, later)
    where
      live :
          (o : Option Filter)
          → blocks e.lib domain (on_filter (add_to_whitelist e.lib domain) o) ≡ false
      live none = refl
      live (some f) = is_blocked-add_to_whitelist e.lib domain f

      new : Db
      new = record db { whitelist = add_domain e.row domain note db.whitelist }

      written : or_old db (add_whitelist (e.fault 0) e.row domain note db) ≡ new
      written = ap (λ b. or_old db (if b then none else some new)) works

      later :
          (is_blocked e.lib domain
            (load_stored e.lib fault
              (or_old db (add_whitelist (e.fault 0) e.row domain note db))
              l).0).1
          ≡ false
      later = rw written (
          is_blocked-whitelisted e.lib domain (load_stored e.lib fault new l).0 (
            (load_stored-whitelist e.lib fault new l (canonical e.lib domain) reads).1
              (inl (add_domain-InRows e.lib e.row domain note db.whitelist))))
