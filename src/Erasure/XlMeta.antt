-- ===== src/Erasure/XlMeta.antt =====
-- internal/erasure/xlmeta.go: the metadata of an object, a copy of which every disk holds, and the
-- placement of its shards. Times are nanoseconds, 0 the zero time; `digest` is the hash of the
-- fields that identify a version.
pub mod Placement
use Prim.Native.Nat.{bit_xor}
use mathlib.Core.List.{foldl}
use gostore.Base.{
  ℕ, zero, suc, ◌+◌, ◌*◌, ◌%◌, ◌^◌, Text, List, [], ◌∷◌, Bool, true, false, Option, none, some,
  Assoc, ◌==◌, if◌then◌else◌, codes, text_eq, ◌++◌, has_prefix,
}

pub record PartMeta : Type 0 where
  pub number : ℕ
  pub size : ℕ
  pub actual_size : ℕ
  pub etag : Text
  pub bitrot : Text
  pub checksums : List (List Text)

pub record ErasureMeta : Type 0 where
  pub algorithm : Text
  pub data_blocks : ℕ
  pub parity_blocks : ℕ
  pub block_size : ℕ
  pub distribution : List ℕ
  pub checksum_algo : Text

-- `inline` is `none` for a nil slice.
pub record XlMeta : Type 0 where
  pub version : ℕ
  pub erasure : ErasureMeta
  pub revision : ℕ
  pub data_ref : Text
  pub tier : Text
  pub tier_key : Text
  pub size : ℕ
  pub mod_time : ℕ
  pub etag : Text
  pub version_id : Text
  pub lock_mode : Text
  pub retain_until : ℕ
  pub legal_hold : Bool
  pub content_type : Text
  pub content_enc : Text
  pub user_meta : Assoc Text
  pub user_tags : Text
  pub parts : List PartMeta
  pub inline : Option Text
  pub compressed : Text
  pub sse : Text
  pub plain_size : ℕ
  pub enc_dek : Text
  pub nonce_prefix : Text

-- The hash of the fields that `contentHash` feeds to sha256, in its order.
abbrev pub Digest : Type 0
Digest = ℕ → ℕ → Text → List PartMeta → Text → Text

unfoldable pub content_hash : Digest → XlMeta → Text
content_hash digest m =
    digest m.size m.mod_time m.etag m.parts (elim m.inline [ none ↦ [] | some b ↦ b ])

-- The 32-bit FNV-1a hash of package hash/fnv.
unfoldable pub fnv32a : Text → ℕ
fnv32a = foldl (λ h c. bit_xor h c * 16777619 % 2 ^ 32) 2166136261

-- The loop of `buildDistribution` from shard `j` on, with `k` shards to go.
unfoldable pub distribution_from : ℕ → ℕ → ℕ → ℕ → List ℕ
distribution_from rot n j zero = []
distribution_from rot n j (suc k) = ((j + rot) % n) ∷ distribution_from rot n (j + 1) k

-- `int(h.Sum32()) % n` is not negative where an int has 64 bits.
unfoldable pub build_distribution : Text → ℕ → List ℕ
build_distribution key n = distribution_from (fnv32a key % n) n 0 n

unfoldable pub shard_from : ℕ → List ℕ → ℕ → Option ℕ
shard_from j [] disk = none
shard_from j (d ∷ ds) disk =
    let rest = shard_from (j + 1) ds disk in if d == disk then some j else rest

-- `shardForDisk`, with `none` for -1.
unfoldable pub shard_for_disk : ErasureMeta → ℕ → Option ℕ
unfolding shard_from
shard_for_disk em disk = shard_from 0 em.distribution disk
