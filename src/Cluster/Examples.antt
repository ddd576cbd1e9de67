-- ===== src/Cluster/Examples.antt =====
-- Lock tables, nodes and breakers on which the theorems about internal/cluster are run.
use gostore.Base.{
  ◌+◌, Text, List, [], ◌∷◌, true, false, some, codes, ◌≡◌, ◌≢◌, refl, lookup, text_eq, arith,
}
use gostore.Cluster.Token.{token_seq_of, rand_token}
use gostore.Cluster.Token.RoundTrip.{token_seq_of-rand_token}
use gostore.Cluster.LockTable.{LockTable, new_lock_table, lock_ttl, live, acquire}
use gostore.Cluster.LockTable.Trace.{Request, owns_until, exclusive_holder_keeps, serve_all}
use gostore.Cluster.Coordinator.{answered, dropped, Attempt, held, grab, try_all, quorum, peer_do}
use gostore.Cluster.Coordinator.Exclusion.{HasQuorum, IsHeld, no_two_holders}
use gostore.Cluster.Breaker.{Breaker, allow}
use gostore.Cluster.Breaker.Window.{Event, time_of, fail_all, one_probe_per_window, up_after_ok}
use gostore.Cluster.Breaker.Window

-- Token 5 and token 3 of a node.
abbrev five : Text
five = codes "5-aa"

abbrev three : Text
three = codes "3-bb"

abbrev photo : Text
photo = codes "photos/a.png"

token_seq_of-rand_token_example : token_seq_of (rand_token 1234567 (codes "00ff")) ≡ 1234567
token_seq_of-rand_token_example = token_seq_of-rand_token 1234567 (codes "00ff") (omega arith)

abbrev locked : LockTable
locked = record {
  m = (photo, record { token = five; exclusive = true; readers = []; expiry = 100 }) ∷ [];
  high = (photo, 5) ∷ [];
}

three_not_five : three ≢ five
three_not_five e = ground arith

exclusive_holder_keeps_example :
    (owns_until
        (serve_all locked
          (Request.lock 60 photo three false ∷ Request.unlock photo three true ∷ []))
        100
        photo
        five
      ≡ true)
    × ((acquire
          (serve_all locked
            (Request.lock 60 photo three false ∷ Request.unlock photo three true ∷ []))
          70
          photo
          three
          true).1
        ≡ false)
unfolding lookup text_eq
exclusive_holder_keeps_example =
    exclusive_holder_keeps locked 100 photo five
      (Request.lock 60 photo three false ∷ Request.unlock photo three true ∷ []) 70 three true refl
      ((three_not_five, omega arith), ((three_not_five, omega arith), tt)) three_not_five
      (omega arith)

abbrev nodes : List LockTable
nodes = new_lock_table ∷ new_lock_table ∷ new_lock_table ∷ []

abbrev mine : List Attempt
mine =
    record {
      token = five;
      now = 10;
      asked = answered ∷ dropped ∷ answered ∷ [];
      withdrawn = [];
      late = false;
      cancelled = false;
    }
    ∷ []

abbrev theirs : List Attempt
theirs =
    record {
      token = three;
      now = 20;
      asked = answered ∷ answered ∷ answered ∷ [];
      withdrawn = answered ∷ answered ∷ answered ∷ [];
      late = false;
      cancelled = false;
    }
    ∷ []

mine_held : (grab nodes photo true mine).1 ≡ held five 10
unfolding grab quorum try_all peer_do acquire live token_seq_of lookup text_eq
mine_held = refl

no_two_holders_example :
    (¬ IsHeld (grab (grab nodes photo true mine).0 photo false theirs).1)
    × HasQuorum
        (grab (grab nodes photo true mine).0 photo false theirs).0
        (10 + lock_ttl)
        photo
        five
no_two_holders_example =
    no_two_holders nodes photo five 10 false mine theirs mine_held
      ((three_not_five, omega arith), tt)

abbrev open_breaker : Breaker
open_breaker = record { fails = 4; tripped_at = 10; last = some (codes "timeout") }

probe : (allow open_breaker 6000000000).1 ≡ true
unfolding allow
probe = refl

one_probe_per_window_example :
    (allow
      (Window.run
        (allow open_breaker 6000000000).0
        (Event.failed 6000000001 (codes "refused") ∷ []))
      6000000002).1
    ≡ false
one_probe_per_window_example =
    one_probe_per_window open_breaker 6000000000 6000000002
      (Event.failed 6000000001 (codes "refused") ∷ []) (omega arith) probe (omega arith)
      (omega arith)
