-- ===== src/Cluster/LockTable/Trace.antt =====
-- internal/cluster/dsync.go, lockTable: sequences of requests of other holders.
use gostore.Base.{
  subst, ℕ, ◌≤◌, Text, List, [], ◌∷◌, Bool, true, false, ◌&&◌, Option, none, some, lookup,
  lookup-insert, lookup-delete, if◌then◌else◌, text_eq, text_eq_iff, leb, ◌≡◌, ◌≢◌, arith,
  Option-cases, Bool-cases, inl, inr, All, sym,
}
use gostore.Cluster.LockTable.{
  Hold, LockTable, live, acquire, release, refresh, put_hold, raise_high, first_hold, renewed,
  joined, drop_reader,
}

pub data Request : Type 0 where
  lock : ℕ → Text → Text → Bool → Request
  unlock : Text → Text → Bool → Request
  renew : ℕ → Text → Text → Request

abbrev pub token_of : Request → Text
token_of (lock now res token exclusive) = token
token_of (unlock res token exclusive) = token
token_of (renew now res token) = token

-- When a request to lock or to renew comes in; an unlock asks for no time.
abbrev pub time_of : Request → ℕ
time_of (lock now res token exclusive) = now
time_of (unlock res token exclusive) = 0
time_of (renew now res token) = now

unfoldable pub serve : LockTable → Request → LockTable × Bool
serve t (lock now res token exclusive) = acquire t now res token exclusive
serve t (unlock res token exclusive) = (release t res token exclusive, true)
serve t (renew now res token) = refresh t now res token

unfoldable pub serve_all : LockTable → List Request → LockTable
serve_all t [] = t
serve_all t (r ∷ rs) = serve_all (serve t r).0 rs

-- The token is the exclusive holder, at least up to a time.
abbrev pub owner_until : ℕ → Text → Option Hold → Bool
owner_until d a none = false
owner_until d a (some h) = h.exclusive && (text_eq h.token a && leb d h.expiry)

abbrev pub owns_until : LockTable → ℕ → Text → Text → Bool
owns_until t d res a = owner_until d a (lookup res t.m)

pub lookup-put_hold :
    (t : LockTable) (res other : Text) (h : Hold)
    → lookup other (put_hold t res h).m ≡ (if text_eq res other then some h else lookup other t.m)
unfolding put_hold
lookup-put_hold t res other h = lookup-insert res other h t.m

lookup-raise_high :
    (t : LockTable) (res other token : Text) (exclusive : Bool)
    → lookup other (raise_high t res token exclusive).m ≡ lookup other t.m
unfolding raise_high
lookup-raise_high t res other token exclusive = ground arith

module _ (t : LockTable) (d : ℕ) (res a : Text) (own : owns_until t d res a ≡ true) where
  pub refused :
      (now : ℕ) (token : Text) (exclusive : Bool)
      → token ≢ a
      → now ≤ d
      → acquire t now res token exclusive ≡ (t, false)
  unfolding acquire live
  refused now token exclusive n k = elim (Option-cases (lookup res t.m)) [
    | inl e ↦ ground arith
    | inr (h, e) ↦ ground (arith, text_eq_iff h.token token, text_eq_iff h.token a)
  ]

  -- A request for another resource leaves this one alone.
  acquire-other :
      (now : ℕ) (other token : Text) (exclusive : Bool)
      → text_eq other res ≡ false
      → owns_until (acquire t now other token exclusive).0 d res a ≡ true
  unfolding acquire
  acquire-other now other token exclusive e = elim (Option-cases (live t now other)) [
    | inl f ↦ ground (
      arith,
      lookup-raise_high t other res token exclusive,
      lookup-put_hold (raise_high t other token exclusive) other res
          (first_hold now token exclusive),
    )
    | inr (h, f) ↦ ground (
      arith,
      lookup-put_hold t other res (renewed now h),
      lookup-put_hold t other res (joined now token h),
    )
  ]

  acquire-owns_until :
      (now : ℕ) (other token : Text) (exclusive : Bool)
      → token ≢ a
      → now ≤ d
      → owns_until (acquire t now other token exclusive).0 d res a ≡ true
  acquire-owns_until now other token exclusive n k = elim (Bool-cases (text_eq other res)) [
    | inl e ↦
        subst (λ x. owns_until (acquire t now x token exclusive).0 d res a ≡ true)
          (sym ((text_eq_iff other res).0 e)) (rw (refused now token exclusive n k) own)
    | inr e ↦ acquire-other now other token exclusive e
  ]

  release-owns_until :
      (other token : Text) (exclusive : Bool)
      → token ≢ a
      → owns_until (release t other token exclusive) d res a ≡ true
  unfolding release
  release-owns_until other token exclusive n = elim (Option-cases (lookup other t.m)) [
    | inl e ↦ ground arith
    | inr (h, e) ↦ ground (
      arith,
      text_eq_iff h.token token,
      text_eq_iff h.token a,
      lookup-delete other res t.m,
      text_eq_iff other res,
      lookup-put_hold t other res (record h { readers = drop_reader token h.readers }),
    )
  ]

  refresh-owns_until :
      (now : ℕ) (other token : Text)
      → token ≢ a
      → owns_until (refresh t now other token).0 d res a ≡ true
  unfolding refresh
  refresh-owns_until now other token n = elim (Option-cases (lookup other t.m)) [
    | inl e ↦ ground arith
    | inr (h, e) ↦ ground (
      arith,
      text_eq_iff h.token token,
      text_eq_iff h.token a,
      text_eq_iff other res,
      lookup-put_hold t other res (renewed now h),
    )
  ]

-- The request comes from another holder, no later than `d`.
abbrev pub IsForeign : Text → ℕ → Request → Type 0
IsForeign a d r = (token_of r ≢ a) × (time_of r ≤ d)

pub serve-owns_until :
    (t : LockTable) (d : ℕ) (res a : Text) (r : Request)
    → owns_until t d res a ≡ true
    → IsForeign a d r
    → owns_until (serve t r).0 d res a ≡ true
unfolding serve
serve-owns_until t d res a (lock now other token exclusive) own f =
    acquire-owns_until t d res a own now other token exclusive f.0 f.1
serve-owns_until t d res a (unlock other token exclusive) own f =
    release-owns_until t d res a own other token exclusive f.0
serve-owns_until t d res a (renew now other token) own f =
    refresh-owns_until t d res a own now other token f.0

serve_all-owns_until :
    (t : LockTable) (d : ℕ) (res a : Text) (rs : List Request)
    → owns_until t d res a ≡ true
    → All (IsForeign a d) rs
    → owns_until (serve_all t rs) d res a ≡ true
unfolding serve_all
serve_all-owns_until t d res a [] own f = own
serve_all-owns_until t d res a (r ∷ rs) own f =
    serve_all-owns_until (serve t r).0 d res a rs (serve-owns_until t d res a r own f.0) f.1

-- Mutual exclusion: while an exclusive holder's grant lasts, no sequence of requests of others, on
-- any resource, to lock, to unlock or to renew, takes the lock away, and none of them is granted
-- the resource in either mode afterwards.
pub exclusive_holder_keeps :
    (t : LockTable) (d : ℕ) (res a : Text) (rs : List Request) (now : ℕ) (token : Text)
    (exclusive : Bool)
    → owns_until t d res a ≡ true
    → All (IsForeign a d) rs
    → token ≢ a
    → now ≤ d
    → (owns_until (serve_all t rs) d res a ≡ true)
      × ((acquire (serve_all t rs) now res token exclusive).1 ≡ false)
exclusive_holder_keeps t d res a rs now token exclusive own f n k =
    let kept = serve_all-owns_until t d res a rs own f in
    (kept, rw (refused (serve_all t rs) d res a kept now token exclusive n k))
