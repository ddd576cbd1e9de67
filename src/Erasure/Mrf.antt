-- ===== src/Erasure/Mrf.antt =====
-- internal/erasure/mrf.go: the queue of objects that a write did not bring to every disk, until a
-- background pass has healed them.
pub mod Pending
use gostore.Base.{
  ℕ, zero, suc, ◌+◌, Text, List, [], ◌∷◌, ◌++◌, Bool, true, false, not, Option, none, some, Assoc,
  lookup, insert, delete, has, length, ltb, leb, ◌==◌, ◌||◌, if◌then◌else◌, text_eq, map,
}

abbrev pub mrf_max_entries : ℕ
mrf_max_entries = 20000

-- `pending` maps "bucket/key" to the second when it was first seen.
pub record MrfQueue : Type 0 where
  pub pending : Assoc ℕ
  pub dirty : Bool

unfoldable pub add : MrfQueue → ℕ → Text → Text → MrfQueue
add q now bucket key =
    let id = bucket ++ (b'/' ∷ key) in
    if has id q.pending
    then q
    else if leb mrf_max_entries (length q.pending)
    then q
    else record { pending = insert id now q.pending; dirty = true }

unfoldable pub done : MrfQueue → Text → MrfQueue
done q id = if has id q.pending then record { pending = delete id q.pending; dirty = true } else q

-- `flush`: the queue after it, and what is written, where something is.
unfoldable pub flush : MrfQueue → MrfQueue × Option (Assoc ℕ)
flush q = if q.dirty then (record q { dirty = false }, some q.pending) else (q, none)

-- The bucket and the key of an id, or none where it is malformed.
unfoldable pub split_id : Text → Option (Text × Text)
split_id [] = none
split_id (c ∷ s) =
    let rest = split_id s in
    if c == b'/'
    then (elim s [ [] ↦ none | x ∷ xs ↦ some ([], x ∷ xs) ])
    else elim rest [ none ↦ none | some (bucket, key) ↦ some (c ∷ bucket, key) ]

-- One round of the loop of `drainMRF`; an empty bucket is malformed too.
unfoldable pub drain_one : (Text → Text → Bool) → MrfQueue → Text → MrfQueue
unfolding done split_id
drain_one heals q id = elim (split_id id) [
  | none ↦ done q id
  | some (bucket, key) ↦
      if text_eq bucket [] then done q id else if heals bucket key then done q id else q
]

-- The loop over the ids of a snapshot, in the order that is given, until the context ends.
unfoldable pub drain : (Text → Text → Bool) → MrfQueue → List Text → MrfQueue
unfolding drain_one
drain heals q [] = q
drain heals q (id ∷ ids) = drain heals (drain_one heals q id) ids
