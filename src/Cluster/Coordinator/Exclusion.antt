-- ===== src/Cluster/Coordinator/Exclusion.antt =====
-- internal/cluster/dsync.go, grab: the votes of the nodes and their owners of a resource.
use gostore.Base.{
  tests, if_keeps, ℕ, suc, ◌+◌, ◌≤◌, Text, List, [], ◌∷◌, Bool, true, false, length, leb, ◌≡◌, ◌≢◌,
  refl, arith, count_if, All, Option-cases, inl, inr, ap, text_eq_refl, subst,
}
use gostore.Cluster.LockTable.{LockTable, acquire, lock_ttl, live, raise_high, first_hold, renewed}
use gostore.Cluster.LockTable.Trace.{
  Request, IsForeign, owns_until, owner_until, refused, serve, serve-owns_until, lookup-put_hold,
}
use gostore.Cluster.LockTable.Trace
use gostore.Cluster.Coordinator.{
  Op, lock, rlock, unlock, runlock, refresh_lock, serve_op, Delivery, answered, dropped,
  answer_lost, peer_do, try_all, quorum, Attempt, Outcome, held, write_quorum, cancelled,
  still_trying, undo_of, op_of, grab,
}

-- How many nodes have the token as their exclusive holder up to a time.
abbrev pub owners : List LockTable → ℕ → Text → Text → ℕ
owners peers d res a = count_if (λ t. owns_until t d res a) peers

-- The request that an operation is.
request_of : ℕ → Op → Text → Text → Request
request_of now lock res token = Trace.lock now res token true
request_of now rlock res token = Trace.lock now res token false
request_of now unlock res token = Trace.unlock res token true
request_of now runlock res token = Trace.unlock res token false
request_of now refresh_lock res token = Trace.renew now res token

serve_op-serve :
    (t : LockTable) (now : ℕ) (op : Op) (res token : Text)
    → serve_op t now op res token ≡ serve t (request_of now op res token)
unfolding serve_op serve request_of
serve_op-serve t now lock res token = refl
serve_op-serve t now rlock res token = refl
serve_op-serve t now unlock res token = refl
serve_op-serve t now runlock res token = refl
serve_op-serve t now refresh_lock res token = refl

request_of-IsForeign :
    (d now : ℕ) (op : Op) (res a token : Text)
    → token ≢ a
    → now ≤ d
    → IsForeign a d (request_of now op res token)
unfolding request_of
request_of-IsForeign d now lock res a token n k = (n, k)
request_of-IsForeign d now rlock res a token n k = (n, k)
request_of-IsForeign d now unlock res a token n k = (n, omega arith)
request_of-IsForeign d now runlock res a token n k = (n, omega arith)
request_of-IsForeign d now refresh_lock res a token n k = (n, k)

module _ (d now : ℕ) (op : Op) (res a token : Text) (n : token ≢ a) (k : now ≤ d) where
  serve_op-owns_until :
      (t : LockTable)
      → owns_until t d res a ≡ true
      → owns_until (serve_op t now op res token).0 d res a ≡ true
  serve_op-owns_until t own = rw (serve_op-serve t now op res token) (
      serve-owns_until t d res a (request_of now op res token) own
        (request_of-IsForeign d now op res a token n k))

  peer_do-owns_until :
      (t : LockTable) (x : Delivery)
      → owns_until t d res a ≡ true
      → owns_until (peer_do x t now op res token).0 d res a ≡ true
  unfolding peer_do
  peer_do-owns_until t answered own = serve_op-owns_until t own
  peer_do-owns_until t dropped own = own
  peer_do-owns_until t answer_lost own = serve_op-owns_until t own

  -- A call of another token takes no owner away.
  owners-try_all :
      (peers : List LockTable) (ds : List Delivery)
      → owners peers d res a ≤ owners (try_all peers ds now op res token).0 d res a
  unfolding try_all
  owners-try_all [] ds = omega arith
  owners-try_all (t ∷ ts) [] = ground (arith, owners-try_all ts [], peer_do-owns_until t dropped)
  owners-try_all (t ∷ ts) (x ∷ ds) = ground (arith, owners-try_all ts ds, peer_do-owns_until t x)

length-try_all :
    (peers : List LockTable) (ds : List Delivery) (now : ℕ) (op : Op) (res token : Text)
    → length (try_all peers ds now op res token).0 ≡ length peers
unfolding try_all
length-try_all [] ds now op res token = refl
length-try_all (t ∷ ts) [] now op res token = ap suc (length-try_all ts [] now op res token)
length-try_all (t ∷ ts) (x ∷ ds) now op res token = ap suc (length-try_all ts ds now op res token)

-- A node that has an owner votes against every other token.
peer_do-vote :
    (t : LockTable) (x : Delivery) (d now : ℕ) (res a token : Text) (exclusive : Bool)
    → token ≢ a
    → now ≤ d
    → (peer_do x t now (op_of exclusive) res token).1 ≡ true
    → owns_until t d res a ≡ false
unfolding peer_do serve_op
peer_do-vote t answered d now res a token true n k v =
    ground (arith, λ (own : owns_until t d res a ≡ true). refused t d res a own now token true n k)
peer_do-vote t answered d now res a token false n k v =
    ground (arith, λ (own : owns_until t d res a ≡ true). refused t d res a own now token false n k)
peer_do-vote t dropped d now res a token exclusive n k v = absurd (cc)
peer_do-vote t answer_lost d now res a token exclusive n k v = absurd (cc)

-- So the votes for another token and the owners are different nodes.
votes_and_owners :
    (peers : List LockTable) (ds : List Delivery) (d now : ℕ) (res a token : Text)
    (exclusive : Bool)
    → token ≢ a
    → now ≤ d
    → (try_all peers ds now (op_of exclusive) res token).1 + owners peers d res a ≤ length peers
unfolding try_all
votes_and_owners [] ds d now res a token exclusive n k = omega arith
votes_and_owners (t ∷ ts) [] d now res a token exclusive n k = ground (
  arith,
  votes_and_owners ts [] d now res a token exclusive n k,
  peer_do-vote t dropped d now res a token exclusive n k,
)
votes_and_owners (t ∷ ts) (x ∷ ds) d now res a token exclusive n k = ground (
  arith,
  votes_and_owners ts ds d now res a token exclusive n k,
  peer_do-vote t x d now res a token exclusive n k,
)

acquire-owns :
    (t : LockTable) (now : ℕ) (res a : Text)
    → (acquire t now res a true).1 ≡ true
    → owns_until (acquire t now res a true).0 (now + lock_ttl) res a ≡ true
unfolding acquire
acquire-owns t now res a g = elim (Option-cases (live t now res)) [
  | inl e ↦ ground (
    arith,
    text_eq_refl a,
    text_eq_refl res,
    lookup-put_hold (raise_high t res a true) res res (first_hold now a true),
  )
  | inr (h, e) ↦ ground (arith, text_eq_refl res, lookup-put_hold t res res (renewed now h))
]

peer_do-owns :
    (t : LockTable) (x : Delivery) (now : ℕ) (res a : Text)
    → (peer_do x t now lock res a).1 ≡ true
    → owns_until (peer_do x t now lock res a).0 (now + lock_ttl) res a ≡ true
unfolding peer_do serve_op
peer_do-owns t answered now res a v = acquire-owns t now res a v
peer_do-owns t dropped now res a v = absurd (cc)
peer_do-owns t answer_lost now res a v = absurd (cc)

-- Every node that votes for an exclusive request has its token as the owner for the time to live.
votes_own :
    (peers : List LockTable) (ds : List Delivery) (now : ℕ) (res a : Text)
    → (try_all peers ds now lock res a).1
      ≤ owners (try_all peers ds now lock res a).0 (now + lock_ttl) res a
unfolding try_all
votes_own [] ds now res a = omega arith
votes_own (t ∷ ts) [] now res a =
    ground (arith, votes_own ts [] now res a, peer_do-owns t dropped now res a)
votes_own (t ∷ ts) (x ∷ ds) now res a =
    ground (arith, votes_own ts ds now res a, peer_do-owns t x now res a)

abbrev pub HasQuorum : List LockTable → ℕ → Text → Text → Type 0
HasQuorum peers d res a = quorum peers ≤ owners peers d res a

-- The attempts come from other holders, while the time has not passed.
abbrev pub IsRival : Text → ℕ → Attempt → Type 0
IsRival a d x = (x.token ≢ a) × (x.now ≤ d)

abbrev pub IsHeld : Outcome → Type 0
IsHeld (held token now) = Unit {0}
IsHeld write_quorum = ⊥
IsHeld cancelled = ⊥
IsHeld still_trying = ⊥

quorum-try_all :
    (peers : List LockTable) (ds : List Delivery) (now : ℕ) (op : Op) (res token : Text)
    → quorum (try_all peers ds now op res token).0 ≡ quorum peers
unfolding quorum
quorum-try_all peers ds now op res token = rw (length-try_all peers ds now op res token)

-- A call of another token leaves a quorum of owners.
HasQuorum-try_all :
    (peers : List LockTable) (ds : List Delivery) (d now : ℕ) (op : Op) (res a token : Text)
    → token ≢ a
    → now ≤ d
    → HasQuorum peers d res a
    → HasQuorum (try_all peers ds now op res token).0 d res a
HasQuorum-try_all peers ds d now op res a token n k q = omega (
  arith,
  quorum-try_all peers ds now op res token,
  owners-try_all d now op res a token n k peers ds,
)

-- Two quorums of the same nodes cannot be disjoint.
vote_lost :
    (peers : List LockTable) (votes : ℕ) (d : ℕ) (res a : Text)
    → votes + owners peers d res a ≤ length peers
    → HasQuorum peers d res a
    → leb (quorum peers) votes ≡ false
unfolding quorum
vote_lost peers votes d res a h q = ground arith

-- What a rival's `grab` comes to.
record Loses (d : ℕ) (res a : Text) (r : List LockTable × Outcome) : Type 0 where
  not_held : ¬ IsHeld r.1
  quorum_kept : HasQuorum r.0 d res a

grab-Loses :
    (peers : List LockTable) (res a : Text) (d : ℕ) (exclusive : Bool) (xs : List Attempt)
    → HasQuorum peers d res a
    → All (IsRival a d) xs
    → Loses d res a (grab peers res exclusive xs)
unfolding grab
grab-Loses peers res a d exclusive [] q r = record { not_held = λ h. h; quorum_kept = q }
grab-Loses peers res a d exclusive (x ∷ xs) q r =
    let asked = try_all peers x.asked x.now (op_of exclusive) res x.token in
    let q' : HasQuorum asked.0 d res a =
      HasQuorum-try_all peers x.asked d x.now (op_of exclusive) res a x.token r.0.0 r.0.1 q in
    let q'' =
      HasQuorum-try_all asked.0 x.withdrawn d x.now (undo_of exclusive) res a x.token r.0.0 r.0.1
        q' in
    let undone = (try_all asked.0 x.withdrawn x.now (undo_of exclusive) res x.token).0 in
    let lost =
      vote_lost peers asked.1 d res a
        (votes_and_owners peers x.asked d x.now res a x.token exclusive r.0.0 r.0.1) q in
    if_keeps (Loses d res a) (leb (quorum peers) asked.1) _ _ (λ e. absurd (cc))
      λ _.
        if_keeps (Loses d res a) x.late _ _ (λ _. record { not_held = λ h. h; quorum_kept = q'' })
          λ _.
            if_keeps (Loses d res a) x.cancelled _ _
              (λ _. record { not_held = λ h. h; quorum_kept = q'' })
              (λ _. grab-Loses undone res a d exclusive xs q'' r.1)

abbrev Won : Text → List LockTable → Outcome → Type 0
Won res peers (held a now) = HasQuorum peers (now + lock_ttl) res a
Won res peers write_quorum = Unit
Won res peers cancelled = Unit
Won res peers still_trying = Unit

record Wins (res : Text) (r : List LockTable × Outcome) : Type 0 where
  won : Won res r.0 r.1

-- A won exclusive lock is owned by a quorum of the nodes, for its time to live from the round that
-- won it.
grab-Wins :
    (peers : List LockTable) (res : Text) (xs : List Attempt) → Wins res (grab peers res true xs)
unfolding grab
grab-Wins peers res [] = record { won = tt }
grab-Wins peers res (x ∷ xs) =
    let asked = try_all peers x.asked x.now lock res x.token in
    let undone = (try_all asked.0 x.withdrawn x.now unlock res x.token).0 in
    if_keeps (Wins res) (leb (quorum peers) asked.1) _ _
      (λ e. record {
        won = omega (
          tests,
          e,
          votes_own peers x.asked x.now res x.token,
          quorum-try_all peers x.asked x.now lock res x.token,
        );
      })
      λ _.
        if_keeps (Wins res) x.late _ _ (λ _. record { won = tt })
          λ _.
            if_keeps (Wins res) x.cancelled _ _ (λ _. record { won = tt })
              (λ _. grab-Wins undone res xs)

-- Mutual exclusion across the cluster: once a caller holds the exclusive lock of a resource, every
-- attempt of others within its time to live, for either mode, fails, whatever calls and answers the
-- network loses, and a quorum of the nodes still has the first caller as the owner afterwards.
pub no_two_holders :
    (peers : List LockTable) (res a : Text) (now : ℕ) (exclusive : Bool)
    (mine theirs : List Attempt)
    → (grab peers res true mine).1 ≡ held a now
    → All (IsRival a (now + lock_ttl)) theirs
    → (¬ IsHeld (grab (grab peers res true mine).0 res exclusive theirs).1)
      × HasQuorum (grab (grab peers res true mine).0 res exclusive theirs).0 (now + lock_ttl) res a
no_two_holders peers res a now exclusive mine theirs h rivals =
    let after = (grab peers res true mine).0 in
    let q = subst (Won res after) h (grab-Wins peers res mine).won in
    let l = grab-Loses after res a (now + lock_ttl) exclusive theirs q rivals in
    (l.not_held, l.quorum_kept)
