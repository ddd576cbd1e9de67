-- ===== src/Cluster/LockTable/Mutual.antt =====
-- internal/cluster/dsync.go, lockTable: owners and readers at one lock table.
use gostore.Base.{
  ℕ, Text, List, [], ◌∷◌, Bool, true, false, not, ◌&&◌, Option, none, some, lookup-insert,
  if◌then◌else◌, text_eq, text_eq_iff, text_eq_refl, ltb, ◌≡◌, arith, Option-cases, inl, inr, ◌⊎◌,
}
use gostore.Cluster.LockTable.{
  Hold, LockTable, live, is_reader, acquire, put_hold, raise_high, first_hold, renewed, joined,
  add_reader,
}

-- The token is the exclusive holder of the resource and its grant has not run out.
abbrev pub owns : LockTable → ℕ → Text → Text → Bool
owns t now res token = elim (live t now res) [
  | none ↦ false
  | some h ↦ h.exclusive && text_eq h.token token
]

-- The token is one of the shared holders, and their grant has not run out.
abbrev pub reads : LockTable → ℕ → Text → Text → Bool
reads t now res token = elim (live t now res) [
  | none ↦ false
  | some h ↦ not h.exclusive && is_reader token h.readers
]

abbrev unexpired : ℕ → Hold → Option Hold
unexpired now h = if ltb h.expiry now then none else some h

live-put_hold :
    (t : LockTable) (now : ℕ) (res other : Text) (h : Hold)
    → live (put_hold t res h) now other
      ≡ (if text_eq res other then unexpired now h else live t now other)
unfolding live put_hold
live-put_hold t now res other h = ground (arith, lookup-insert res other h t.m)

live-raise_high :
    (t : LockTable) (now : ℕ) (res other token : Text) (exclusive : Bool)
    → live (raise_high t res token exclusive) now other ≡ live t now other
unfolding live raise_high
live-raise_high t now res other token exclusive = ground arith

is_reader-add_reader :
    (token : Text) (rs : List Text) → is_reader token (add_reader token rs) ≡ true
unfolding add_reader is_reader
is_reader-add_reader token rs = ground (arith, text_eq_refl token)

is_reader-singleton : (token : Text) → is_reader token (token ∷ []) ≡ true
unfolding is_reader
is_reader-singleton token = ground (arith, text_eq_refl token)

module _ (t : LockTable) (now : ℕ) (res : Text) where
  -- A granted request holds the lock in the mode that it asked for.
  pub acquire_granted :
      (token : Text) (exclusive : Bool)
      → (acquire t now res token exclusive).1 ≡ true
      → (if exclusive
          then owns (acquire t now res token exclusive).0 now res token
          else reads (acquire t now res token exclusive).0 now res token)
        ≡ true
  unfolding acquire
  acquire_granted token true g = elim (Option-cases (live t now res)) [
    | inl e ↦ ground (
      arith,
      text_eq_refl token,
      text_eq_refl res,
      live-put_hold (raise_high t res token true) now res res (first_hold now token true),
    )
    | inr (h, e) ↦ ground (arith, text_eq_refl res, live-put_hold t now res res (renewed now h))
  ]
  acquire_granted token false g = elim (Option-cases (live t now res)) [
    | inl e ↦ ground (
      arith,
      is_reader-singleton token,
      text_eq_refl res,
      live-put_hold (raise_high t res token false) now res res (first_hold now token false),
    )
    | inr (h, e) ↦ ground (
      arith,
      text_eq_refl res,
      is_reader-add_reader token h.readers,
      live-put_hold t now res res (joined now token h),
    )
  ]

  -- While a token owns the resource, another is refused in either mode; while a token reads it, an
  -- exclusive request is refused.
  pub acquire_excludes :
      (a b : Text) (exclusive : Bool)
      → (acquire t now res b exclusive).1 ≡ true
      → ((owns t now res a ≡ false) ⊎ (exclusive ≡ true) × (a ≡ b))
        × ((reads t now res a ≡ false) ⊎ (exclusive ≡ false))
  unfolding acquire
  acquire_excludes a b exclusive g = elim (Option-cases (live t now res)) [
    | inl e ↦ (inl (ground arith), inl (ground arith))
    | inr (h, e) ↦ (ground (arith, text_eq_iff h.token a, text_eq_iff h.token b), ground arith)
  ]
