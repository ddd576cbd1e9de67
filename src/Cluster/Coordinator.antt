-- ===== src/Cluster/Coordinator.antt =====
-- internal/cluster/dsync.go, LockCoordinator and distLock: a lock is held when a quorum of the nodes
-- have granted it. The nodes are a list of lock tables; what the network does to each call, the
-- tokens, the clock and the caller's context are inputs.
pub mod Exclusion
pub mod Release
use gostore.Base.{
  ℕ, zero, suc, ◌+◌, ◌*◌, ◌/◌, Text, List, [], ◌∷◌, Bool, true, false, Option, none, some, length,
  leb, ltb, if◌then◌else◌,
}
use gostore.Cluster.LockTable.{LockTable, acquire, release, refresh}

pub data Op : Type 0 where
  lock rlock unlock runlock refresh_lock : Op

-- `handleLock` on the node, and the local half of `lockPeer.do`.
unfoldable pub serve_op : LockTable → ℕ → Op → Text → Text → LockTable × Bool
serve_op t now lock res token = acquire t now res token true
serve_op t now rlock res token = acquire t now res token false
serve_op t now unlock res token = (release t res token true, true)
serve_op t now runlock res token = (release t res token false, true)
serve_op t now refresh_lock res token = refresh t now res token

-- A call reaches its node and is answered, never reaches it, or is served and its answer is lost.
pub data Delivery : Type 0 where
  answered dropped answer_lost : Delivery

-- `lockPeer.do`
unfoldable pub peer_do : Delivery → LockTable → ℕ → Op → Text → Text → LockTable × Bool
unfolding serve_op
peer_do answered t now op res token = serve_op t now op res token
peer_do dropped t now op res token = (t, false)
peer_do answer_lost t now op res token = ((serve_op t now op res token).0, false)

-- `tryAll`: the nodes after the calls, and how many said yes. A call past the end of the list of
-- deliveries is dropped.
unfoldable pub try_all : List LockTable → List Delivery → ℕ → Op → Text → Text → List LockTable × ℕ
try_all [] ds now op res token = ([], 0)
try_all (t ∷ ts) ds now op res token =
    let d : Delivery = elim ds [ [] ↦ dropped | x ∷ _ ↦ x ] in
    let rest : List Delivery = elim ds [ [] ↦ [] | _ ∷ xs ↦ xs ] in
    let (t', yes_vote) = peer_do d t now op res token in
    let (ts', n) = try_all ts rest now op res token in (t' ∷ ts', if yes_vote then suc n else n)

unfoldable pub quorum : List LockTable → ℕ
quorum peers = length peers / 2 + 1

-- One round of the loop of `grab`: its fresh token, its time, what the network does to the request
-- and to its withdrawal, whether the deadline has passed, and whether the context has ended.
pub record Attempt : Type 0 where
  pub token : Text
  pub now : ℕ
  pub asked : List Delivery
  pub withdrawn : List Delivery
  pub late : Bool
  pub cancelled : Bool

-- `held` records the token and the time of the round that won.
pub data Outcome : Type 0 where
  held : Text → ℕ → Outcome
  write_quorum cancelled still_trying : Outcome

abbrev undo_of : Bool → Op
undo_of true = unlock
undo_of false = runlock

abbrev op_of : Bool → Op
op_of true = lock
op_of false = rlock

-- `grab` for an exclusive or a shared lock.
unfoldable pub grab : List LockTable → Text → Bool → List Attempt → List LockTable × Outcome
grab peers res exclusive [] = (peers, still_trying)
grab peers res exclusive (a ∷ as_) =
    let (asked, n) = try_all peers a.asked a.now (op_of exclusive) res a.token in
    let (undone, _) = try_all asked a.withdrawn a.now (undo_of exclusive) res a.token in
    let more = grab undone res exclusive as_ in
    if leb (quorum peers) n
    then (asked, held a.token a.now)
    else if a.late
    then (undone, write_quorum)
    else if a.cancelled
    then (undone, cancelled)
    else more

-- `refresher`: the lock is lost when a round confirms less than a quorum.
unfoldable pub refresh_round :
    List LockTable → List Delivery → ℕ → Text → Text → List LockTable × Bool
refresh_round peers ds now res token =
    let (peers', n) = try_all peers ds now refresh_lock res token in (peers', leb (quorum peers) n)

-- `drop`: an empty token was never granted anything.
unfoldable pub drop : List LockTable → List Delivery → ℕ → Text → Text → Bool → List LockTable
drop peers ds now res [] exclusive = peers
drop peers ds now res (c ∷ token) exclusive =
    (try_all peers ds now (undo_of exclusive) res (c ∷ token)).0
