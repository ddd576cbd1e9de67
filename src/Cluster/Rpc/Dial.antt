-- ===== src/Cluster/Rpc/Dial.antt =====
-- internal/cluster/grid.go, ensure and call, and remotedisk.go, unary: when a call dials the other
-- node, when it falls back to HTTP, and what the breaker of the node learns. The clock and what the
-- network does are inputs.
use gostore.Base.{
  ℕ, ◌-◌, ◌≡◌, ◌<◌, ◌≤◌, refl, arith, List, [], ◌∷◌, Bool, true, false, Option, none, some, ltb,
  if◌then◌else◌, Bytes, take, All, Bool-cases, inl, inr,
}
use gostore.Cluster.Breaker
use gostore.Cluster.Breaker.{Breaker, allow, fail, reason, breaker_threshold}
use gostore.Cluster.Grid.{GoError, new_error, Result, ok, err, GridReply, body, failed, decode_err}

-- The error of `gridConn.call`: `errGridUnavailable`, or any other.
pub data CallErr : Type 0 where
  grid_unavailable : CallErr
  other : GoError → CallErr

-- `gridConn`, as far as dialling goes. One that was never dialled has `last_dial` at time 0.
pub record Link : Type 0 where
  pub up : Bool
  pub last_dial : ℕ
  pub dial_err : Option CallErr

-- 20 s
abbrev pub grid_redial_gap : ℕ
grid_redial_gap = 20000000000

-- What `dial` comes to; a node that refuses the upgrade makes it `errGridUnavailable`.
pub data Dialled : Type 0 where
  connected : Dialled
  not_connected : CallErr → Dialled

unfoldable pub ensure : Link → ℕ → Dialled → Link × Option CallErr
ensure g now out =
    if g.up
    then (g, none)
    else if ltb (now - g.last_dial) grid_redial_gap
    then (g, some (elim g.dial_err [ none ↦ grid_unavailable | some e ↦ e ]))
    else elim out [
      | connected ↦ (record { up = true; last_dial = now; dial_err = none }, none)
      | not_connected e ↦ (record { up = false; last_dial = now; dial_err = some e }, some e)
    ]

-- What a connection that is up does to a call: the answer arrives, the frame is not written, the
-- context or the timer ends the wait, or the connection breaks while the call waits.
pub data Exchange : Type 0 where
  replied : GridReply → Exchange
  not_written : CallErr → Exchange
  gave_up broken : GoError → Exchange

abbrev pub down : Link → CallErr → Link
down g e = record g { up = false; dial_err = some e }

-- `call`
pub data CallResult : Type 0 where
  returned : Bytes → CallResult
  refused : CallErr → CallResult

unfoldable pub exchange : Link → Exchange → Link × CallResult
exchange g (replied (body b)) = (g, returned b)
exchange g (replied (failed e)) = (g, refused (other e))
exchange g (not_written e) = (down g e, refused e)
exchange g (gave_up e) = (g, refused (other e))
exchange g (broken e) = (down g (other e), refused (other e))

unfoldable pub grid_call : Link → ℕ → Dialled → Exchange → Link × CallResult
unfolding ensure exchange
grid_call g now out x =
    let (g', e) = ensure g now out in elim e [ some e ↦ (g', refused e) | none ↦ exchange g' x ]

-- What becomes of the request over HTTP; of the body of an error at most 512 bytes are read.
pub data HttpOutcome : Type 0 where
  no_request transport_error : GoError → HttpOutcome
  status_ok : Result Bytes → HttpOutcome
  status_error : ℕ → Bytes → HttpOutcome

unfoldable pub http_fallback : Breaker → ℕ → HttpOutcome → Breaker × Result Bytes
http_fallback b now (no_request e) = (b, err e)
http_fallback b now (transport_error e) = (fail b now e.text, err e)
http_fallback b now (status_ok r) = (Breaker.ok b, r)
http_fallback b now (status_error code text) = (Breaker.ok b, err (decode_err code (take 512 text)))

-- The inputs of one call.
pub record Weather : Type 0 where
  pub now : ℕ
  pub dialled : Dialled
  pub exchanged : Exchange
  pub http : HttpOutcome

unfoldable pub unary : Breaker → Link → Weather → Breaker × Link × Result Bytes
unfolding grid_call http_fallback
unary b g w =
    let (b', allowed) = allow b w.now in
    if allowed
    then (let (g', r) = grid_call g w.now w.dialled w.exchanged in
        elim r [
          | returned out ↦ (Breaker.ok b', g', ok out)
          | refused (other e) ↦ (Breaker.ok b', g', err e)
          | refused grid_unavailable ↦ let (b'', r) = http_fallback b' w.now w.http in (b'', g', r)
        ])
    else (b', g, err (new_error (reason b')))

unfoldable pub unary_all : Breaker → Link → List Weather → Breaker × Link × List (Result Bytes)
unfolding unary
unary_all b g [] = (b, g, [])
unary_all b g (w ∷ ws) =
    let (b', g', r) = unary b g w in let (b'', g'', rs) = unary_all b' g' ws in (b'', g'', r ∷ rs)

-- The connection is down for another reason than that the node has no grid.
abbrev pub IsUnreachable : Link → Type 0
IsUnreachable g = (g.up ≡ false) × ((e : GoError) × (g.dial_err ≡ some (other e)))

abbrev pub FailsToDial : Weather → Type 0
FailsToDial w = (e : GoError) × (w.dialled ≡ not_connected (other e))

abbrev pub IsErr : Result Bytes → Type 0
IsErr r = (e : GoError) × (r ≡ err e)

-- The error that `ensure` returns, and the state that it leaves.
ensure-IsUnreachable :
    (up : Bool) (last now : ℕ) (seen : Option CallErr) (out : Dialled) (e₀ e₁ : GoError)
    → up ≡ false
    → seen ≡ some (other e₀)
    → out ≡ not_connected (other e₁)
    → (e : GoError) × IsUnreachable
        (ensure (record { up = up; last_dial = last; dial_err = seen }) now out).0
      × ((ensure (record { up = up; last_dial = last; dial_err = seen }) now out).1
          ≡ some (other e))
unfolding ensure
ensure-IsUnreachable up last now seen out e₀ e₁ h k d =
    elim (Bool-cases (ltb (now - last) grid_redial_gap)) [
      | inl soon ↦ rw (h, k, soon) (e₀, (refl, (e₀, refl)), refl)
      | inr due ↦ rw (h, k, due, d) (e₁, (refl, (e₁, refl)), refl)
    ]

grid_call-IsUnreachable :
    (g : Link) (now : ℕ) (out : Dialled) (x : Exchange) (e₀ e₁ : GoError)
    → g.up ≡ false
    → g.dial_err ≡ some (other e₀)
    → out ≡ not_connected (other e₁)
    → (e : GoError) × IsUnreachable (grid_call g now out x).0
      × ((grid_call g now out x).1 ≡ refused (other e))
unfolding grid_call
grid_call-IsUnreachable g now out x e₀ e₁ h k d =
    let (e, u, r) = ensure-IsUnreachable g.up g.last_dial now g.dial_err out e₀ e₁ h k d in
    (e, rw (r, grid_call) u, rw (r, grid_call) refl)

unary-IsUnreachable :
    (b : Breaker) (g : Link) (w : Weather)
    → b.fails < breaker_threshold
    → IsUnreachable g
    → FailsToDial w
    → ((unary b g w).0.fails ≡ 0) × IsUnreachable (unary b g w).1 × IsErr (unary b g w).2
unfolding unary allow Breaker.ok
unary-IsUnreachable b g w h (hu, (e₀, k)) (e₁, d) =
    let (e, u, r) = grid_call-IsUnreachable g w.now w.dialled w.exchanged e₀ e₁ hu k d in
    let closed : ltb b.fails breaker_threshold ≡ true = ground arith in
    rw (closed, r, unary) (refl, u, (e, refl))

-- However long a node stays unreachable, calls of `unary` alone never open its breaker: every one of
-- them fails, and the breaker counts none of the failures, whatever HTTP would have answered. The
-- breaker is closed and the connection is down for a transport error at first, and every dial fails
-- with one.
pub unreachable_never_trips :
    (b : Breaker) (g : Link) (ws : List Weather)
    → b.fails < breaker_threshold
    → IsUnreachable g
    → All FailsToDial ws
    → ((unary_all b g ws).0.fails ≤ b.fails) × All IsErr (unary_all b g ws).2
unfolding unary_all
unreachable_never_trips b g [] h u d = (omega arith, tt)
unreachable_never_trips b g (w ∷ ws) h u (d, ds) =
    let (zero_fails, u', e) = unary-IsUnreachable b g w h u d in
    let (few, es) =
      unreachable_never_trips (unary b g w).0 (unary b g w).1 ws (omega arith) u' ds in
    (omega arith, (e, es))
