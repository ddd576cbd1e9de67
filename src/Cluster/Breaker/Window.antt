-- ===== src/Cluster/Breaker/Window.antt =====
-- internal/cluster/breaker.go: sequences of calls and failures at a breaker.
use gostore.Base.{
  ◌⊎◌, ℕ, ◌+◌, ◌≤◌, ◌<◌, Text, List, [], ◌∷◌, true, false, ltb, ◌≡◌, arith, All, length,
}
use gostore.Cluster.Breaker.{
  Breaker, breaker_threshold, breaker_cooldown, allow, ok, fail, snapshot,
}

-- What the calls to a peer do to its breaker while none of them succeeds.
pub data Event : Type 0 where
  asked : ℕ → Event
  failed : ℕ → Text → Event

abbrev pub time_of : Event → ℕ
time_of (asked now) = now
time_of (failed now err) = now

unfoldable pub step : Breaker → Event → Breaker
step b (asked now) = (allow b now).0
step b (failed now err) = fail b now err

unfoldable pub run : Breaker → List Event → Breaker
run b [] = b
run b (e ∷ es) = run (step b e) es

-- The breaker is open, and its window began at `since`.
record IsOpen (since : ℕ) (b : Breaker) : Type 0 where
  tripped : breaker_threshold ≤ b.fails
  began : b.tripped_at ≡ since

abbrev InWindow : ℕ → Event → Type 0
InWindow since e = time_of e < since + breaker_cooldown

step-IsOpen :
    (b : Breaker) (since : ℕ) (e : Event)
    → IsOpen since b
    → InWindow since e
    → IsOpen since (step b e)
unfolding step allow fail
step-IsOpen b since (asked now) o w = ground arith
step-IsOpen b since (failed now err) o w = ground arith

run-IsOpen :
    (b : Breaker) (since : ℕ) (es : List Event)
    → IsOpen since b
    → All (InWindow since) es
    → IsOpen since (run b es)
unfolding run
run-IsOpen b since [] o w = o
run-IsOpen b since (e ∷ es) o w = run-IsOpen (step b e) since es (step-IsOpen b since e o w.0) w.1

allow-IsOpen :
    (b : Breaker) (now : ℕ)
    → breaker_threshold ≤ b.fails
    → (allow b now).1 ≡ true
    → IsOpen now (allow b now).0
unfolding allow
allow-IsOpen b now t g = ground arith

refused_in_window :
    (b : Breaker) (since now : ℕ)
    → IsOpen since b
    → now < since + breaker_cooldown
    → (allow b now).1 ≡ false
unfolding allow
refused_in_window b since now o w = ground arith

-- One probe to a window: after a tripped breaker lets a call through, it refuses every other until
-- the cooldown has passed, whatever failures come in, as long as no call succeeds.
pub one_probe_per_window :
    (b : Breaker) (now later : ℕ) (es : List Event)
    → breaker_threshold ≤ b.fails
    → (allow b now).1 ≡ true
    → All (λ e. time_of e < now + breaker_cooldown) es
    → later < now + breaker_cooldown
    → (allow (run (allow b now).0 es) later).1 ≡ false
one_probe_per_window b now later es t g w l =
    refused_in_window _ now later (run-IsOpen _ now es (allow-IsOpen b now t g) w) l

-- The failures of a run.
abbrev pub fail_all : Breaker → List (ℕ × Text) → Breaker
fail_all b [] = b
fail_all b ((now, err) ∷ es) = fail_all (fail b now err) es

fails-fail_all : (b : Breaker) (es : List (ℕ × Text)) → (fail_all b es).fails ≡ b.fails + length es
unfolding fail
fails-fail_all b [] = omega arith
fails-fail_all b ((now, err) ∷ es) = omega (arith, fails-fail_all (fail b now err) es)

-- After a success the peer reads as up exactly as long as fewer than four failures have followed
-- it, and up to then every call goes through.
pub up_after_ok :
    (b : Breaker) (es : List (ℕ × Text)) (now : ℕ)
    → ((snapshot (fail_all (ok b) es)).0 ≡ ltb (length es) breaker_threshold)
      × ((ltb (length es) breaker_threshold ≡ false)
          ⊎ (allow (fail_all (ok b) es) now ≡ (fail_all (ok b) es, true)))
unfolding snapshot ok allow
up_after_ok b es now =
    (ground (arith, fails-fail_all (ok b) es), ground (arith, fails-fail_all (ok b) es))
