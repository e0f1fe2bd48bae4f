-- ===== src/Tests.antt =====
-- The theorems at concrete inputs.
mod Data
mod Cache
mod Threads
mod Persistence
mod Metrics
mod Ratelimit
mod Filter
mod Localrecords
mod Clientstats
mod Failover
mod Resolver
mod Server
mod Dashboard
mod Start
