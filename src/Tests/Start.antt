-- ===== src/Tests/Start.antt =====
-- The start of a server with the default configuration.
use dns_server_mandiri.Config.{default_config}
use dns_server_mandiri.Persistence.{Gob, Faults, Disk}
use dns_server_mandiri.Prelude.Text.{text}
use dns_server_mandiri.Prelude.{false, none, some, [], ◌∷◌, arith}
use dns_server_mandiri.Resolver.Steps.{prefetch_popular}
use dns_server_mandiri.Server.Fresh.{new_server-IsValid, start-IsValid}
use dns_server_mandiri.Server.Valid.{IsValid}
use dns_server_mandiri.Server.Start.{new_server, start, warmup_cache}
use dns_server_mandiri.Tests.Data.{lib, blank, host}
use dns_server_mandiri.Tests.Localrecords.{net}
use dns_server_mandiri.Tests.Resolver.{cfg, answers}
use dns_server_mandiri.Tests.Server.{server, server-IsValid}

new_server-IsValid_example :
    IsValid 3 (new_server lib net (λ path. none) (λ n. false) none 3 default_config).0
unfolding default_config
new_server-IsValid_example =
    new_server-IsValid lib net (λ path. none) (λ n. false) none 3 default_config (omega arith)

-- A file that cannot be decoded.
abbrev gob : Gob
gob = record { encode = λ es. none; decode = λ bytes. none }

abbrev healthy : Faults
healthy = record { create = false; rename = false; open_file = false }

abbrev damaged : Disk
damaged = record { file = some (text "?"); tmp = none }

start-IsValid_example :
    let s₁ = start lib gob healthy damaged 1 default_config server in
    let warm = warmup_cache lib cfg answers blank (host ∷ []) s₁.run in
    IsValid 0 (record s₁ { run = prefetch_popular lib cfg answers blank (λ qs. qs) 60 warm })
start-IsValid_example =
    start-IsValid lib cfg answers blank gob healthy damaged 0 1 60 default_config (host ∷ [])
      (λ qs. qs) server server-IsValid
