-- ===== src/Filter/Decision.antt =====
-- When `IsBlocked` answers yes, what it counts, and how the manual lists act on it.
use dns_server_mandiri.Dns.{DnsLib}
use dns_server_mandiri.Filter.Parents.{ParentIn, parent_loop_iff}
use dns_server_mandiri.Filter.{
  Filter, contains, parent_loop, allowed, refused, check, canonical, is_blocked, add_to_whitelist,
  add_to_blacklist, remove_from_blacklist, Names,
}
use dns_server_mandiri.Prelude.Dict.{insert, delete, lookup-insert, lookup-delete}
use dns_server_mandiri.Prelude.Strings.{split, trim_dot}
use dns_server_mandiri.Prelude.Text.{Text, eq_iff, ◌==◌}
use dns_server_mandiri.Prelude.{
  ◌≡◌, ◌↔◌, ◌⊎◌, true, false, ◌||◌, arith, add64, Bool-cases, inl, inr, sym, ◌∙◌, if◌then◌else◌,
}

-- Why a domain is blocked: it is not on the whitelist, and it stands on the blacklist or on the
-- blocklist, or a parent of it stands on the blocklist.
abbrev pub Reason : Text → Filter → Type 0
Reason d f =
    (contains d f.whitelist ≡ false)
    × ((contains d f.blacklist ≡ true)
        ⊎ ((contains d f.blocked ≡ true) ⊎ ParentIn f.blocked (trim_dot d)))

check-Reason : (d : Text) (f : Filter) → (check d f).1 ≡ true → Reason d f
unfolding check allowed refused
check-Reason d f h = ground (arith, (parent_loop_iff f.blocked (trim_dot d)).0)

Reason-check : (d : Text) (f : Filter) → Reason d f → (check d f).1 ≡ true
unfolding check allowed refused
Reason-check d f (out, inl black) = ground arith
Reason-check d f (out, inr (inl exact)) = ground arith
Reason-check d f (out, inr (inr p)) = ground (arith, (parent_loop_iff f.blocked (trim_dot d)).1 p)

is_blocked_on :
    (lib : DnsLib) (domain : Text) (f : Filter)
    → f.enabled ≡ true
    → (is_blocked lib domain f).1 ≡ (check (canonical lib domain) f).1
unfolding is_blocked
is_blocked_on lib domain f on = ground arith

is_blocked_off :
    (lib : DnsLib) (domain : Text) (f : Filter)
    → f.enabled ≡ false
    → is_blocked lib domain f ≡ (f, false)
unfolding is_blocked
is_blocked_off lib domain f off = ground arith

-- An enabled filter blocks a domain exactly for a reason, and a disabled one blocks nothing.
pub is_blocked_iff :
    (lib : DnsLib) (domain : Text) (f : Filter)
    → ((is_blocked lib domain f).1 ≡ true) ↔ ((f.enabled ≡ true) × Reason (canonical lib domain) f)
is_blocked_iff lib domain f = (
  λ h. elim (Bool-cases f.enabled) [
    | inl on ↦ (on, check-Reason (canonical lib domain) f (sym (is_blocked_on lib domain f on) ∙ h))
    | inr off ↦ absurd (let e = is_blocked_off lib domain f off in ground arith)
  ],
  λ r. is_blocked_on lib domain f r.0 ∙ Reason-check (canonical lib domain) f r.1,
)

-- `IsBlocked` changes no list, so it changes no later decision, and an enabled filter counts every
-- question once: as blocked if it said so, as allowed otherwise.
pub is_blocked_counts :
    (lib : DnsLib) (domain other : Text) (f : Filter)
    → f.enabled ≡ true
    → let (f', b) = is_blocked lib domain f in
      ((is_blocked lib other f').1 ≡ (is_blocked lib other f).1)
      × (f'.total_blocked ≡ (if b then add64 f.total_blocked 1 else f.total_blocked))
      × (f'.total_allowed ≡ (if b then f.total_allowed else add64 f.total_allowed 1))
unfolding is_blocked check allowed refused
is_blocked_counts lib domain other f on = (ground arith, ground arith, ground arith)

module _ (k j : Text) (s : Names) where
  pub contains-insert : contains j (insert k tt s) ≡ (k == j || contains j s)
  unfolding contains
  contains-insert = ground (arith, lookup-insert k j tt s)

  contains-delete : contains j (delete k s) ≡ (if k == j then false else contains j s)
  unfolding contains
  contains-delete = ground (arith, lookup-delete k j s)

-- A domain on the whitelist is never blocked, whatever the other lists say.
pub is_blocked-add_to_whitelist :
    (lib : DnsLib) (domain : Text) (f : Filter)
    → (is_blocked lib domain (add_to_whitelist lib domain f)).1 ≡ false
unfolding is_blocked check allowed refused add_to_whitelist
is_blocked-add_to_whitelist lib domain f =
    let d = canonical lib domain in ground (arith, contains-insert d d f.whitelist, eq_iff d d)

-- A domain put on the blacklist of an enabled filter is blocked if it is not on the whitelist;
-- taken off again, it is blocked only if the blocklist has it or a parent.
pub is_blocked-blacklist :
    (lib : DnsLib) (domain : Text) (f : Filter)
    → f.enabled ≡ true
    → contains (canonical lib domain) f.whitelist ≡ false
    → ((is_blocked lib domain (add_to_blacklist lib domain f)).1 ≡ true)
      × ((is_blocked lib domain (remove_from_blacklist lib domain f)).1 ≡ (
          contains (canonical lib domain) f.blocked
          || parent_loop f.blocked (split (trim_dot (canonical lib domain)))))
unfolding is_blocked check allowed refused add_to_blacklist remove_from_blacklist
is_blocked-blacklist lib domain f on out =
    let d = canonical lib domain in
    (
      ground (arith, contains-insert d d f.blacklist, eq_iff d d),
      ground (arith, contains-delete d d f.blacklist, eq_iff d d),
    )
