-- ===== src/Security/Examples.antt =====
-- internal/security/limiter.go: a client that fails.
use go_uptime.Security.Blocking.{failures_at, blocked-failures_at}
use go_uptime.Security.{FailureLimiter, blocked}
use go_uptime.Clock.{minute, second}
use go_uptime.Common.{◌*◌, ◌≡◌, refl, true, [], ◌∷◌, arith, lookup, string_eq}

abbrev limiter : FailureLimiter
limiter = record { window = minute; maximum_failures = 2; maximum_keys = 100; entries = [] }

blocked-failures_at_example :
    (blocked "10.0.0.1/32"
      (9 * second)
      (failures_at "10.0.0.1/32" (second ∷ 2 * second ∷ []) limiter)).0
    ≡ true
blocked-failures_at_example =
    blocked-failures_at "10.0.0.1/32" second (9 * second) (2 * second ∷ []) limiter 99 refl
      (unfold lookup in refl) (omega arith, tt) (omega arith)
