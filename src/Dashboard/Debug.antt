-- ===== src/Dashboard/Debug.antt =====
-- The debug handler of the filter: it asks the filter about known domains, and thereby counts them.
use dns_server_mandiri.Dashboard.{Site, Request, Response, Engine, tested, error, ok}
use dns_server_mandiri.Dns.{DnsLib}
use dns_server_mandiri.Filter.{Filter, is_blocked, check, allowed, refused}
use dns_server_mandiri.Prelude.Text.{Text, text}
use dns_server_mandiri.Prelude.{
  ℕ, ◌+◌, ◌%◌, ◌^◌, ◌≡◌, ◌∙◌, refl, arith, Bool, true, none, some, List, [], ◌∷◌, length, add64,
}

unfoldable pub test_domains : List Text
test_domains =
    text "doubleclick.net"
    ∷ text "ads.google.com"
    ∷ text "pagead2.googlesyndication.com"
    ∷ text "googleadservices.com"
    ∷ text "ad.doubleclick.net"
    ∷ text "analytics.google.com"
    ∷ text "graph.facebook.com"
    ∷ text "ads.facebook.com"
    ∷ []

-- The loop over the domains: the filter and the results.
unfoldable pub test_loop : DnsLib → List Text → Filter → Filter × List (Text × Bool)
test_loop lib [] f = (f, [])
test_loop lib (d ∷ ds) f =
    let (f₁, blocked) = is_blocked lib d f in
    let (f₂, results) = test_loop lib ds f₁ in (f₂, (d, blocked) ∷ results)

unfoldable pub handle_filter_debug : Engine → Request → Site → Site × Response
handle_filter_debug e r s = elim s.filter [
  | none ↦ (s, ok error)
  | some f ↦
      let (f', results) = test_loop e.lib test_domains f in
      (record s { filter = some f' }, ok (tested results))
]

-- All questions that the filter has answered.
abbrev pub questions : Filter → ℕ
questions f = (f.total_blocked + f.total_allowed) % 2 ^ 64

counted :
    (lib : DnsLib) (d : Text) (f : Filter)
    → f.enabled ≡ true
    → (questions (is_blocked lib d f).0 ≡ add64 (questions f) 1)
      × ((is_blocked lib d f).0.enabled ≡ true)
unfolding is_blocked check allowed refused
counted lib d f on = (grind arith, ground arith)

test_loop-questions :
    (lib : DnsLib) (ds : List Text) (f : Filter)
    → f.enabled ≡ true
    → questions (test_loop lib ds f).0 ≡ (questions f + length ds) % 2 ^ 64
unfolding test_loop
test_loop-questions lib [] f on = omega arith
test_loop-questions lib (d ∷ ds) f on =
    let (c, on') = counted lib d f on in
    test_loop-questions lib ds (is_blocked lib d f).0 on' ∙ omega (arith, c)

-- If there is a filter and it is on, a request for the debug information leaves a filter that has
-- counted eight questions more, as if clients had asked them.
pub handle_filter_debug-questions :
    (e : Engine) (r : Request) (s : Site) (f : Filter)
    → s.filter ≡ some f
    → f.enabled ≡ true
    → (f' : Filter) × ((handle_filter_debug e r s).0.filter ≡ some f')
      × (questions f' ≡ (questions f + 8) % 2 ^ 64)
unfolding handle_filter_debug test_domains
handle_filter_debug-questions e r s f has on = (
  (test_loop e.lib test_domains f).0,
  rw (has, handle_filter_debug) refl,
  test_loop-questions e.lib test_domains f on,
)
