-- ===== src/Cluster/LockTable/Fence.antt =====
-- internal/cluster/dsync.go, lockTable: the highest token number of a resource.
use native.Mathlib.Nat.{le_trans}
use gostore.Base.{
  ℕ, ◌+◌, ◌≤◌, ◌<◌, Text, List, [], ◌∷◌, Bool, true, false, none, some, lookup, lookup-insert,
  lookup-delete, text_eq_iff, text_eq_refl, ◌≡◌, ◌≢◌, arith, All, ◌⊎◌,
}
use gostore.Cluster.Token.{token_seq_of}
use gostore.Cluster.LockTable.{
  Hold, LockTable, live, lock_ttl, first_hold, acquire, release, refresh, put_hold, raise_high,
  high_of,
}
use gostore.Cluster.LockTable.Trace.{Request, lock, unlock, renew, serve, serve_all}

high-raise_high :
    (t : LockTable) (res other token : Text) (exclusive : Bool)
    → high_of t other ≤ high_of (raise_high t res token exclusive) other
unfolding raise_high
high-raise_high t res other token exclusive =
    ground (arith, lookup-insert res other (token_seq_of token) t.high, text_eq_iff res other)

-- The request does not give an exclusive lock on the resource back.
abbrev pub KeepsFence : Text → Request → Type 0
KeepsFence res (lock now other token exclusive) = Unit {0}
KeepsFence res (unlock other token exclusive) = (other ≢ res) ⊎ (exclusive ≡ false)
KeepsFence res (renew now other token) = Unit {0}

acquire-high :
    (t : LockTable) (now : ℕ) (other token res : Text) (exclusive : Bool)
    → high_of t res ≤ high_of (acquire t now other token exclusive).0 res
unfolding acquire put_hold
acquire-high t now other token res exclusive =
    ground (arith, high-raise_high t other res token exclusive)

release-high :
    (t : LockTable) (other token res : Text) (exclusive : Bool)
    → (other ≢ res) ⊎ (exclusive ≡ false)
    → high_of t res ≤ high_of (release t other token exclusive) res
unfolding release put_hold
release-high t other token res exclusive k =
    ground (arith, lookup-delete other res t.high, text_eq_iff other res)

refresh-high :
    (t : LockTable) (now : ℕ) (other token res : Text)
    → high_of t res ≤ high_of (refresh t now other token).0 res
unfolding refresh put_hold
refresh-high t now other token res = ground arith

serve-high :
    (t : LockTable) (res : Text) (r : Request)
    → KeepsFence res r
    → high_of t res ≤ high_of (serve t r).0 res
unfolding serve
serve-high t res (lock now other token exclusive) k = acquire-high t now other token res exclusive
serve-high t res (unlock other token exclusive) k = release-high t other token res exclusive k
serve-high t res (renew now other token) k = refresh-high t now other token res

serve_all-high :
    (t : LockTable) (res : Text) (rs : List Request)
    → All (KeepsFence res) rs
    → high_of t res ≤ high_of (serve_all t rs) res
unfolding serve_all
serve_all-high t res [] k = omega arith
serve_all-high t res (r ∷ rs) k =
    le_trans (serve-high t res r k.0) (serve_all-high (serve t r).0 res rs k.1)

raise_high_self :
    (t : LockTable) (res token : Text)
    → token_seq_of token ≤ high_of (raise_high t res token true) res
unfolding raise_high
raise_high_self t res token =
    ground (arith, lookup-insert res res (token_seq_of token) t.high, text_eq_refl res)

acquire-raises :
    (t : LockTable) (now : ℕ) (res token : Text)
    → (acquire t now res token true).1 ≡ true
    → live t now res ≡ none
    → token_seq_of token ≤ high_of (acquire t now res token true).0 res
unfolding acquire put_hold
acquire-raises t now res token g e = ground (arith, raise_high_self t res token)

below_high :
    (t : LockTable) (now : ℕ) (res stale : Text)
    → token_seq_of stale < high_of t res
    → (acquire t now res stale true).1 ≡ false
unfolding acquire
below_high t now res stale h = ground arith

pub stale_token_refused :
    (t : LockTable) (now later : ℕ) (res token stale : Text) (rs : List Request)
    → live t now res ≡ none
    → (acquire t now res token true).1 ≡ true
    → All (KeepsFence res) rs
    → token_seq_of stale < token_seq_of token
    → (acquire (serve_all (acquire t now res token true).0 rs) later res stale true).1 ≡ false
stale_token_refused t now later res token stale rs e g k old =
    let after = (acquire t now res token true).0 in
    below_high (serve_all after rs) later res stale
      (le_trans old (le_trans (acquire-raises t now res token g e) (serve_all-high after res rs k)))

-- The fence falls with the lock: a token that gives an exclusive lock back leaves the resource open
-- to every token, however low its number, so a holder that was overtaken can come back after it.
pub release_opens_fence :
    (t : LockTable) (later : ℕ) (res token stale : Text) (h : Hold)
    → lookup res t.m ≡ some h
    → h.exclusive ≡ true
    → h.token ≡ token
    → (acquire (release t res token true) later res stale true).1 ≡ true
unfolding release acquire live
release_opens_fence t later res token stale h e x f = ground (
  arith,
  text_eq_iff h.token token,
  text_eq_refl res,
  lookup-delete res res t.m,
  lookup-delete res res t.high,
)

-- A free slot may stay closed: once an exclusive grant has run out without being given back, the
-- slot is free, and every exclusive request with a lower number is refused all the same.
pub free_slot_refused :
    (t : LockTable) (now later : ℕ) (res token lower : Text)
    → live t now res ≡ none
    → (acquire t now res token true).1 ≡ true
    → now + lock_ttl < later
    → token_seq_of lower < token_seq_of token
    → (live (acquire t now res token true).0 later res ≡ none)
      × ((acquire (acquire t now res token true).0 later res lower true).1 ≡ false)
unfolding acquire live serve_all put_hold raise_high
free_slot_refused t now later res token lower e g late less = (
  ground
      (arith, e, g, late, text_eq_refl res, lookup-insert res res (first_hold now token true) t.m),
  stale_token_refused t now later res token lower [] e g tt less,
)
