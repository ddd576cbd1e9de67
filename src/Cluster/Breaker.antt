-- ===== src/Cluster/Breaker.antt =====
-- internal/cluster/breaker.go: the circuit breaker of one peer. `now` is the clock in nanoseconds;
-- `last` is the text of the last transport error.
pub mod Window
use gostore.Base.{
  [], ℕ, ◌+◌, ◌-◌, Text, Bool, true, false, Option, none, some, ltb, leb, ◌==◌, if◌then◌else◌,
  codes,
}

pub record Breaker : Type 0 where
  pub fails : ℕ
  pub tripped_at : ℕ
  pub last : Option Text

abbrev pub new_breaker : Breaker
new_breaker = record { fails = 0; tripped_at = 0; last = none }

abbrev pub breaker_threshold : ℕ
breaker_threshold = 4

-- 5 s
abbrev pub breaker_cooldown : ℕ
breaker_cooldown = 5000000000

unfoldable pub allow : Breaker → ℕ → Breaker × Bool
allow b now =
    if ltb b.fails breaker_threshold
    then (b, true)
    else if leb breaker_cooldown (now - b.tripped_at)
    then (record b { tripped_at = now }, true)
    else (b, false)

unfoldable pub ok : Breaker → Breaker
ok b = record b { fails = 0; last = none }

unfoldable pub fail : Breaker → ℕ → Text → Breaker
fail b now err = record b {
  fails = b.fails + 1;
  last = some err;
  tripped_at = if b.fails + 1 == breaker_threshold then now else b.tripped_at;
}

abbrev err_breaker_open : Text
err_breaker_open = codes "cluster: peer circuit breaker open (recent failures)"

unfoldable pub reason : Breaker → Text
reason b = elim b.last [ some err ↦ err | none ↦ err_breaker_open ]

-- Whether the peer is up, the consecutive failures, and the last error, empty where there is none.
unfoldable pub snapshot : Breaker → Bool × ℕ × Text
snapshot b = (ltb b.fails breaker_threshold, b.fails, elim b.last [ some err ↦ err | none ↦ [] ])
