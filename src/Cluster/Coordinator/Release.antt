-- ===== src/Cluster/Coordinator/Release.antt =====
-- internal/cluster/dsync.go, drop: the owners of a resource after a lock is given back.
use gostore.Base.{
  ℕ, Text, List, [], ◌∷◌, true, false, length, ◌≡◌, ◌≢◌, refl, arith, All, Option-cases, inl, inr,
  lookup, text_eq_refl, lookup-delete,
}
use gostore.Cluster.LockTable.{LockTable, release}
use gostore.Cluster.LockTable.Trace.{owns_until}
use gostore.Cluster.Coordinator.{
  unlock, Delivery, answered, dropped, answer_lost, serve_op, peer_do, try_all, drop,
}
use gostore.Cluster.Coordinator.Exclusion.{owners}

release-owns :
    (t : LockTable) (d : ℕ) (res a : Text) → owns_until (release t res a true) d res a ≡ false
unfolding release
release-owns t d res a = elim (Option-cases (lookup res t.m)) [
  | inl e ↦ ground arith
  | inr (h, e) ↦ ground (arith, lookup-delete res res t.m, text_eq_refl res)
]

-- The call reaches its node, whether or not the answer comes back.
abbrev pub Arrives : Delivery → Type 0
Arrives answered = Unit
Arrives dropped = ⊥
Arrives answer_lost = Unit

peer_do-owns :
    (t : LockTable) (x : Delivery) (d now : ℕ) (res a : Text)
    → Arrives x
    → owns_until (peer_do x t now unlock res a).0 d res a ≡ false
unfolding peer_do serve_op
peer_do-owns t answered d now res a h = release-owns t d res a
peer_do-owns t dropped d now res a h = absurd h
peer_do-owns t answer_lost d now res a h = release-owns t d res a

owners-unlock :
    (peers : List LockTable) (ds : List Delivery) (d now : ℕ) (res a : Text)
    → length ds ≡ length peers
    → All Arrives ds
    → owners (try_all peers ds now unlock res a).0 d res a ≡ 0
unfolding try_all
owners-unlock [] ds d now res a n h = refl
owners-unlock (t ∷ ts) [] d now res a n h = absurd (omega arith)
owners-unlock (t ∷ ts) (x ∷ ds) d now res a n h =
    ground
      (arith, owners-unlock ts ds d now res a (omega arith) h.1, peer_do-owns t x d now res a h.0)

-- Once the calls of `Unlock` have reached every node, no node has the token as an owner at any
-- time, also where the answers are lost.
pub owners-drop :
    (peers : List LockTable) (ds : List Delivery) (d now : ℕ) (res a : Text)
    → a ≢ []
    → length ds ≡ length peers
    → All Arrives ds
    → owners (drop peers ds now res a true) d res a ≡ 0
unfolding drop
owners-drop peers ds d now res [] n k h = absurd (n refl)
owners-drop peers ds d now res (c ∷ a) n k h = owners-unlock peers ds d now res (c ∷ a) k h
