-- ===== src/Erasure/XlMeta/Placement.antt =====
-- internal/erasure/xlmeta.go: the disks of the shards of an object.
use native.Mathlib.Nat.{mod-lt, mod-eq_of_lt, mod-eq-sub-mod}
use gostore.Base.{
  ==_iff, subst, ℕ, zero, suc, ◌+◌, ◌-◌, ◌%◌, ◌≤◌, ◌<◌, Text, false, some, ◌==◌, if◌then◌else◌, ◌≡◌,
  arith, get_elem?, Bool-cases, inl, inr, ◌∙◌, ap, ltb,
}
use gostore.Erasure.XlMeta.{
  ErasureMeta, fnv32a, distribution_from, build_distribution, shard_from, shard_for_disk,
}

-- A rotation within one turn.
rotate_mod : (a n : ℕ) → a < n + n → a % n ≡ (if ltb a n then a else a - n)
rotate_mod a n h = elim (Bool-cases (ltb a n)) [
  | inl e ↦ rw e (mod-eq_of_lt (ground arith))
  | inr e ↦ rw e (mod-eq-sub-mod (ground arith) ∙ mod-eq_of_lt (ground arith))
]

rotate_injective : (i j rot n : ℕ) → i < n → j < n → rot < n → (i + rot) % n ≡ (j + rot) % n → i ≡ j
rotate_injective i j rot n hi hj hr e =
    ground (arith, rotate_mod (i + rot) n (omega arith), rotate_mod (j + rot) n (omega arith))

later : (j m rot n : ℕ) → j ≤ m → ((j + rot) % n == (m + rot) % n) ≡ false → j + 1 ≤ m
later j m rot n h e = elim (Bool-cases (j == m)) [
  | inl same ↦ absurd (ground (arith, ap (λ (i : ℕ). (i + rot) % n) ((==_iff j m).0 same)))
  | inr differ ↦ ground arith
]

-- The search from shard `j` on finds the shard whose rotation is the disk.
shard_from-distribution_from :
    (rot n j k m : ℕ)
    → rot < n
    → j + k ≤ n
    → j ≤ m
    → m < j + k
    → shard_from j (distribution_from rot n j k) ((m + rot) % n) ≡ some m
unfolding shard_from distribution_from
shard_from-distribution_from rot n j zero m hr hn hl hu = absurd (omega arith)
shard_from-distribution_from rot n j (suc k) m hr hn hl hu =
    elim (Bool-cases ((j + rot) % n == (m + rot) % n)) [
      | inl e ↦
          rw e
            (ap some (rotate_injective j m rot n (omega arith) (omega arith) hr ((==_iff _ _).0 e)))
      | inr e ↦ rw e (
          shard_from-distribution_from rot n (j + 1) k m hr (omega arith) (later j m rot n hl e)
            (omega arith))
    ]

get_elem?-distribution_from :
    (rot n j k i : ℕ) → i < k → get_elem? (distribution_from rot n j k) i ≡ some ((j + i + rot) % n)
unfolding distribution_from
get_elem?-distribution_from rot n j zero i h = absurd (omega arith)
get_elem?-distribution_from rot n j (suc k) zero h =
    ap (λ (x : ℕ). some ((x + rot) % n)) (omega arith)
get_elem?-distribution_from rot n j (suc k) (suc i) h =
    get_elem?-distribution_from rot n (j + 1) k i (omega arith)
    ∙ ap (λ (x : ℕ). some ((x + rot) % n)) (omega arith)

-- The shard whose rotation is the disk.
shard_of : ℕ → ℕ → ℕ → ℕ
shard_of i rot n = if ltb i rot then i + n - rot else i - rot

shard_of_bounds :
    (i rot n : ℕ) → i < n → rot < n → (shard_of i rot n < n) × ((shard_of i rot n + rot) % n ≡ i)
unfolding shard_of
shard_of_bounds i rot n h k = elim (Bool-cases (ltb i rot)) [
  | inl e ↦ (ground arith, ground (arith, rotate_mod (i + n - rot + rot) n (ground arith)))
  | inr e ↦ (ground arith, ground (arith, rotate_mod (i - rot + rot) n (ground arith)))
]

-- Where an object has the distribution that is built for its key, every disk of the set holds a
-- shard of it: there is a shard that the distribution places on the disk, and `shard_for_disk` finds
-- that shard.
pub every_disk_has_its_shard :
    (key : Text) (n i : ℕ) (em : ErasureMeta)
    → i < n
    → em.distribution ≡ build_distribution key n
    → (j : ℕ) × (j < n) × (get_elem? em.distribution j ≡ some i) × (shard_for_disk em i ≡ some j)
unfolding build_distribution shard_for_disk
every_disk_has_its_shard key n i em h e =
    let rot = fnv32a key % n in
    let r : rot < n = mod-lt (fnv32a key) (omega arith) in
    let (below, at) = shard_of_bounds i rot n h r in
    let j = shard_of i rot n in
    (
      j,
      below,
      rw e (
          get_elem?-distribution_from rot n 0 n j below
          ∙ ap some (ap (λ (x : ℕ). (x + rot) % n) (omega arith) ∙ at)),
      rw e (
          subst (λ d. shard_from 0 (distribution_from rot n 0 n) d ≡ some j) at
            (shard_from-distribution_from rot n 0 n j r (omega arith) (omega arith) (omega arith))),
    )
