-- ===== src/Lib.antt =====
-- DNS Server Mandiri: a recursive DNS server with a cache, written in Go.
--
-- The parts of the program and the files that model them:
--   Prelude       numbers, lists, texts, and Go maps as lists of entries (Prelude/Dict), with the
--                 eviction loop that three components share (Prelude/Lowest)
--   Dns           the messages, the registries' numbers and the functions of the package
--                 github.com/miekg/dns, which is not part of the repository: a parameter `DnsLib`
--   Cache         internal/cache/cache.go: `Get`, `Set`, `evictOldest`, `cleanup`
--                 Cache/Threads: `Get` in its two critical sections, by many goroutines
--                 Cache/Export: `PrefetchCandidates`, `ExportEntries`
--   Persistence   internal/persistence/persistence.go: the cache saved to a file and loaded again
--   Metrics       internal/metrics/metrics.go: counters, histogram, ring of queries, domain counts,
--                 the most frequent domains (Metrics/Top), the snapshot for the dashboard
--   Ratelimit     internal/ratelimit/ratelimit.go: a token bucket for each client
--   Filter        internal/filter/filter.go: `IsBlocked`, the lists and how they are loaded
--   Localrecords  internal/localrecords/localrecords.go: the administrator's records
--   Clientstats   internal/clientstats/clientstats.go: statistics for each client
--   Database      internal/database/database.go: the tables and the statements on them
--   Dashboard     internal/dashboard/dashboard.go, admin_api.go: credentials, routes, handlers
--   Failover      internal/failover/failover.go: upstream servers, their order and health
--   Resolver      internal/resolver: messages and parameters, and in Resolver/Steps the methods of
--                 the resolver; it uses the cache
--   Config        internal/config/config.go: the settings and their defaults
--   Server        internal/server/server.go: `handleDNS` over the components above; in
--                 Server/Start `New`, the restoring of the cache and the warm-up
--   Tests         the theorems at concrete inputs
--
-- A component is a record for the Go struct, and a function for each method that returns the new
-- record beside the result. A mutex guards each method, so a method is one step; only `Get` of the
-- cache takes its lock twice, and Cache/Threads has it as a step relation. A map is the list
-- of its entries; the order of the list is the order of a `range` loop, and every theorem holds for
-- all orders. Time is nanoseconds in ℕ; a method takes what its readings of the clock return, and
-- a loop that reads it for each entry takes a function of the key. The clock of a process does not
-- go back. In Cache/Threads all goroutines share it, and it stands still while the lock is held.
-- A `uint64` counter wraps at 2 ^ 64. A loop is a recursion on the list that it ranges over, or on
-- the number of turns that are left. Only `resolveIterative`, which calls itself through aliases and
-- server names, is on fuel: each call is one deeper, so `MaxDepth + 2` is enough from outside, and a
-- theorem says so.
--
-- The network is a parameter: what an exchange yields, as a function of how many steps came before
-- it, and nothing for an error. A theorem holds for every network unless it says otherwise.
--
-- Floats are scaled: a token is 10 ^ 9 units, the prefetch ratio is in millionths and at most 1.
-- Sizes and durations of the configuration are not negative. Texts are ASCII, as names on the wire
-- are, so `ToLower` is that of ASCII.
--
-- A statement of SQL is its effect on the list of the rows of a table, with the constraints of the
-- schema as the engine documents them: `INSERT OR IGNORE` adds no row that would break one. What the
-- engine decides is an argument: the id and time of a new row, sorting by a column, and which
-- statements fail. Bodies of requests are decoded by parameters.
--
-- Not modelled: the sharing of requests in flight, tickers, other goroutines, logging, sockets, what
-- the handlers of the dashboard that only show something answer (behind the check of the credentials
-- they are any functions), EDNS client subnets, which no query uses, and the entry
-- points.
pub mod Prelude
pub mod Dns
pub mod Cache
pub mod Persistence
pub mod Metrics
pub mod Ratelimit
pub mod Filter
pub mod Localrecords
pub mod Clientstats
pub mod Database
pub mod Dashboard
pub mod Failover
pub mod Resolver
pub mod Config
pub mod Server
pub mod Tests
