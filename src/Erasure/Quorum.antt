-- ===== src/Erasure/Quorum.antt =====
-- internal/erasure/erasure.go and set.go: the shape of a set, its quorums and the sizes of shards.
pub mod Sizes
use gostore.Base.{
  ℕ, zero, suc, ◌+◌, ◌-◌, ◌*◌, ◌/◌, ◌%◌, Bool, true, false, not, Option, none, some, ltb, leb, ◌==◌,
  ◌||◌, if◌then◌else◌, List, [], ◌∷◌, count_if,
}

-- A codec; the Reed-Solomon encoder of the library is not part of it.
pub record Erasure : Type 0 where
  pub data_blocks : ℕ
  pub parity_blocks : ℕ
  pub block_size : ℕ

-- blockSizeV2
abbrev pub block_size_v2 : ℕ
block_size_v2 = 1048576

unfoldable pub default_parity : ℕ → ℕ
default_parity n = let p = n / 2 in if ltb p 1 then 1 else p

-- Counts are natural numbers here, so `parityBlocks < 0` cannot be.
unfoldable pub new_erasure : ℕ → ℕ → Option Erasure
new_erasure data_blocks parity_blocks =
    if data_blocks == 0 || ltb 256 (data_blocks + parity_blocks)
    then none
    else some (record {
      data_blocks = data_blocks;
      parity_blocks = parity_blocks;
      block_size = block_size_v2;
    })

-- `NewSet` over a number of disks.
unfoldable pub new_set : ℕ → Option Erasure
unfolding new_erasure default_parity
new_set n =
    if ltb n 4 || not (n % 2 == 0)
    then none
    else new_erasure (n - default_parity n) (default_parity n)

unfoldable pub shards : Erasure → ℕ
shards e = e.data_blocks + e.parity_blocks

unfoldable pub read_quorum : Erasure → ℕ
read_quorum e = e.data_blocks

unfoldable pub write_quorum : Erasure → ℕ
unfolding shards
write_quorum e = if ltb (shards e) (e.data_blocks + 1) then shards e else e.data_blocks + 1

unfoldable pub ceil_div : ℕ → ℕ → ℕ
ceil_div a b = (a + b - 1) / b

abbrev pub stripe_input_size : Erasure → ℕ
stripe_input_size e = e.block_size * e.data_blocks

-- `shardFileSize` of a part of known length.
unfoldable pub shard_file_size : Erasure → ℕ → ℕ
unfolding ceil_div
shard_file_size e total =
    let full = total / stripe_input_size e in
    let rem = total % stripe_input_size e in
    if total == 0
    then 0
    else (if ltb 0 rem
        then full * e.block_size + ceil_div rem e.data_blocks
        else full * e.block_size)

unfoldable pub last_stripe_shard_size : Erasure → ℕ → ℕ
unfolding ceil_div
last_stripe_shard_size e total =
    let rem = total % stripe_input_size e in
    if rem == 0 then e.block_size else ceil_div rem e.data_blocks

-- `okCount`: `true` stands for a nil error.
unfoldable pub ok_count : List Bool → ℕ
ok_count = count_if (λ ok. ok)
