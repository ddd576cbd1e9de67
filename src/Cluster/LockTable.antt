-- ===== src/Cluster/LockTable.antt =====
-- internal/cluster/dsync.go, lockTable: the namespace locks that one node has granted. `now` is the
-- clock, in nanoseconds; the mutex makes each operation atomic.
pub mod Mutual
pub mod Trace
pub mod Fence
use gostore.Base.{
  ℕ, ◌+◌, Text, List, [], ◌∷◌, Bool, true, false, not, ◌&&◌, ◌||◌, Option, none, some, Assoc,
  lookup, insert, delete, if◌then◌else◌, text_eq, any, ltb, length, ◌==◌,
}
use gostore.Cluster.Token.{token_seq_of}

-- lockTTL: 60 s
abbrev pub lock_ttl : ℕ
lock_ttl = 60000000000

pub record Hold : Type 0 where
  pub token : Text
  pub exclusive : Bool
  pub readers : List Text
  pub expiry : ℕ

pub record LockTable : Type 0 where
  pub m : Assoc Hold
  pub high : Assoc ℕ

abbrev pub new_lock_table : LockTable
new_lock_table = record { m = []; high = [] }

-- `t.high[res]`, 0 where there is none.
abbrev pub high_of : LockTable → Text → ℕ
high_of t res = elim (lookup res t.high) [ none ↦ 0 | some s ↦ s ]

-- The set of readers' tokens.
unfoldable pub is_reader : Text → List Text → Bool
is_reader token readers = any (λ r. text_eq r token) readers

unfoldable pub add_reader : Text → List Text → List Text
unfolding is_reader
add_reader token readers = if is_reader token readers then readers else token ∷ readers

unfoldable pub drop_reader : Text → List Text → List Text
drop_reader token [] = []
drop_reader token (r ∷ rs) =
    let rest = drop_reader token rs in if text_eq r token then rest else r ∷ rest

-- The holder that counts: an expired one leaves the slot free.
unfoldable pub live : LockTable → ℕ → Text → Option Hold
live t now res = elim (lookup res t.m) [
  | none ↦ none
  | some h ↦ if ltb h.expiry now then none else some h
]

unfoldable pub put_hold : LockTable → Text → Hold → LockTable
put_hold t res h = record t { m = insert res h t.m }

-- The holds that `acquire` and `refresh` write.
abbrev pub first_hold : ℕ → Text → Bool → Hold
first_hold now token exclusive = record {
  token = token;
  exclusive = exclusive;
  readers = if exclusive then [] else token ∷ [];
  expiry = now + lock_ttl;
}

abbrev pub renewed : ℕ → Hold → Hold
renewed now h = record h { expiry = now + lock_ttl }

abbrev pub joined : ℕ → Text → Hold → Hold
joined now token h = record h { readers = add_reader token h.readers; expiry = now + lock_ttl }

-- The watermark of the resource follows an exclusive token that is granted a free slot.
unfoldable pub raise_high : LockTable → Text → Text → Bool → LockTable
raise_high t res token exclusive =
    if exclusive && ltb (high_of t res) (token_seq_of token)
    then record t { high = insert res (token_seq_of token) t.high }
    else t

unfoldable pub acquire : LockTable → ℕ → Text → Text → Bool → LockTable × Bool
acquire t now res token exclusive =
    if exclusive && ltb (token_seq_of token) (high_of t res)
    then (t, false)
    else elim (live t now res) [
      | none ↦
          (put_hold (raise_high t res token exclusive) res (first_hold now token exclusive), true)
      | some h ↦
          if exclusive || h.exclusive
          then (if exclusive && h.exclusive && text_eq h.token token
              then (put_hold t res (renewed now h), true)
              else (t, false))
          else (put_hold t res (joined now token h), true)
    ]

unfoldable pub release : LockTable → Text → Text → Bool → LockTable
unfolding is_reader drop_reader
release t res token exclusive = elim (lookup res t.m) [
  | none ↦ t
  | some h ↦
      if exclusive
      then (if h.exclusive && text_eq h.token token
          then record { m = delete res t.m; high = delete res t.high }
          else t)
      else if h.exclusive
      then t
      else if not (is_reader token h.readers)
      then t
      else (let rest = drop_reader token h.readers in
          if length rest == 0
          then record t { m = delete res t.m }
          else put_hold t res (record h { readers = rest }))
]

unfoldable pub refresh : LockTable → ℕ → Text → Text → LockTable × Bool
unfolding is_reader
refresh t now res token = elim (lookup res t.m) [
  | none ↦ (t, false)
  | some h ↦
      if (if h.exclusive then text_eq h.token token else is_reader token h.readers)
      then (put_hold t res (record h { expiry = now + lock_ttl }), true)
      else (t, false)
]
