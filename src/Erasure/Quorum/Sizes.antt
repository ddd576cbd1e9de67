-- ===== src/Erasure/Quorum/Sizes.antt =====
-- internal/erasure/erasure.go and set.go: quorums and shard sizes in numbers.
use native.Mathlib.Nat.{div-add-mod, mod-lt}
use gostore.Base.{
  tests, ℕ, ◌+◌, ◌-◌, ◌*◌, ◌%◌, ◌≤◌, ◌<◌, some, ◌≡◌, arith, ltb, ◌==◌, Bool-cases, inl, inr,
}
use gostore.Erasure.Quorum.{
  Erasure, new_set, shards, read_quorum, write_quorum, ceil_div, stripe_input_size, shard_file_size,
}

-- A set that is built has one shard for each disk, half of them data; a read quorum and a write
-- quorum of it share a disk, and so do two write quorums; and a write quorum can be met.
pub new_set_quorums :
    (n : ℕ) (e : Erasure)
    → new_set n ≡ some e
    → (shards e ≡ n)
      × (e.data_blocks + e.data_blocks ≡ n)
      × (n < read_quorum e + write_quorum e)
      × (n < write_quorum e + write_quorum e)
      × (write_quorum e ≤ n)
unfolding new_set shards read_quorum write_quorum
new_set_quorums n e h = (ground arith, ground arith, ground arith, ground arith, ground arith)

-- A write quorum is one disk more than a read quorum.
pub new_set_margin :
    (n : ℕ) (e : Erasure)
    → new_set n ≡ some e
    → (0 < read_quorum e) × (read_quorum e + 1 ≤ write_quorum e)
unfolding new_set shards read_quorum write_quorum
new_set_margin n e h = (ground arith, ground arith)

ceil_div_bounds : (a d : ℕ) → 0 < d → (a ≤ ceil_div a d * d) × (ceil_div a d * d < a + d)
unfolding ceil_div
ceil_div_bounds a d h = (
  omega (arith, div-add-mod (a + d - 1) d, mod-lt (a + d - 1) h),
  omega (arith, div-add-mod (a + d - 1) d, mod-lt (a + d - 1) h),
)

-- The shards of a part together hold all of it, and waste less than one byte for each data shard.
pub shard_file_size_bounds :
    (e : Erasure) (total : ℕ)
    → 0 < e.data_blocks
    → 0 < e.block_size
    → (total ≤ shard_file_size e total * e.data_blocks)
      × (shard_file_size e total * e.data_blocks < total + e.data_blocks)
unfolding shard_file_size
shard_file_size_bounds e total d b =
    let whole = div-add-mod total (stripe_input_size e) in
    elim (Bool-cases (total == 0)) [
      | inl z ↦ (ground arith, ground arith)
      | inr n ↦ elim (Bool-cases (ltb 0 (total % stripe_input_size e))) [
        | inl r ↦ rw n (
            rw r
              (omega (arith, whole, ceil_div_bounds (total % stripe_input_size e) e.data_blocks d)))
        | inr r ↦ rw n (rw r (omega (tests, r, whole)))
      ]
    ]
