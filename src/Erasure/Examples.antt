-- ===== src/Erasure/Examples.antt =====
-- A set of four disks on which the theorems about internal/erasure are run.
use gostore.Erasure.Mrf.{MrfQueue, drain, split_id}
use gostore.Erasure.Mrf.Pending.{drain_lem}
use gostore.Base.{
  lookup, Any, ℕ, ◌+◌, ◌≤◌, ◌<◌, Text, List, [], ◌∷◌, Bool, true, false, Option, none, some, codes,
  ◌≡◌, ◌≢◌, refl, arith, get_elem?, text_eq,
}
use gostore.Erasure.Quorum.{
  Erasure, new_set, shards, read_quorum, write_quorum, block_size_v2, ok_count,
}
use gostore.Erasure.Quorum.Sizes.{new_set_quorums}
use gostore.Erasure.XlMeta.{
  XlMeta, ErasureMeta, Digest, content_hash, build_distribution, shard_for_disk,
}
use gostore.Erasure.XlMeta.Placement.{every_disk_has_its_shard}
use gostore.Erasure.ReadMeta.{
  Entry, found, failed, file_not_found, corrupt, read_meta, quorum_winner, decide, tally_from, bump,
}
use gostore.Erasure.ReadMeta.Majority.{IsOrder, read_meta_majority}
use gostore.Erasure.Commit.{
  KeyDisk, without_meta, DiskRun, no_fault, before_remove, Disks, committed_ok, write_quorum_error,
  commit_meta, current_revision, rename_dir, write_all, read_all,
}
use gostore.Erasure.Commit.ReadBack.{reads_of, read_after_commit}
use gostore.Erasure.Commit.Rollback.{failed_writes_keep, failed_renames_delete}

abbrev four : Erasure
four = record { data_blocks = 2; parity_blocks = 2; block_size = block_size_v2 }

built : new_set 4 ≡ some four
unfolding new_set
built = refl

new_set_quorums_example :
    (shards four ≡ 4)
    × (four.data_blocks + four.data_blocks ≡ 4)
    × (4 < read_quorum four + write_quorum four)
    × (4 < write_quorum four + write_quorum four)
    × (write_quorum four ≤ 4)
new_set_quorums_example = new_set_quorums 4 four built

abbrev placement : ErasureMeta
placement = record {
  algorithm = codes "rs";
  data_blocks = 2;
  parity_blocks = 2;
  block_size = block_size_v2;
  distribution = build_distribution (codes "b/k") 4;
  checksum_algo = codes "hh";
}

every_disk_has_its_shard_example :
    (j : ℕ) × (j < 4)
    × (get_elem? placement.distribution j ≡ some 3)
    × (shard_for_disk placement 3 ≡ some j)
every_disk_has_its_shard_example =
    every_disk_has_its_shard (codes "b/k") 4 3 placement (omega arith) refl

-- Metadata of a version with some etag.
abbrev version : Text → ℕ → XlMeta
version etag rev = record {
  version = 1;
  erasure = placement;
  revision = rev;
  data_ref = [];
  tier = [];
  tier_key = [];
  size = 5;
  mod_time = 7;
  etag = etag;
  version_id = [];
  lock_mode = [];
  retain_until = 0;
  legal_hold = false;
  content_type = [];
  content_enc = [];
  user_meta = [];
  user_tags = [];
  parts = [];
  inline = none;
  compressed = [];
  sse = [];
  plain_size = 0;
  enc_dek = [];
  nonce_prefix = [];
}

-- A hash that tells versions apart by their etag.
abbrev by_etag : Digest
by_etag size mod_time etag parts inline = etag

-- A map that happens to be read out as it was filled.
abbrev in_order : List Entry → List Entry
in_order es = es

in_order-IsOrder : IsOrder in_order
in_order-IsOrder = record { keeps = λ P es h. h; covers = λ P es h. h }

abbrev old : XlMeta
old = version (codes "aa") 3

abbrev fresh : XlMeta
fresh = version (codes "bb") 0

abbrev three_of_four : List (Option XlMeta)
three_of_four = some old ∷ none ∷ some (version (codes "bb") 4) ∷ some (version (codes "bb") 4) ∷ []

read_meta_majority_example :
    (m : XlMeta) × (read_meta by_etag in_order 2 three_of_four ≡ found m)
    × (content_hash by_etag m ≡ codes "bb")
unfolding content_hash text_eq
read_meta_majority_example =
    read_meta_majority by_etag in_order in_order-IsOrder 2 (codes "bb") three_of_four (omega arith)
      (omega arith) (omega arith)

abbrev has_old : KeyDisk
has_old = record { committed = some old; staging = without_meta }

abbrev well : DiskRun
well = record {
  reads_ok = true;
  writes_ok = true;
  lands = false;
  renames = no_fault;
  deletes_ok = true;
}

abbrev broken : DiskRun
broken = record {
  reads_ok = true;
  writes_ok = false;
  lands = false;
  renames = before_remove;
  deletes_ok = true;
}

abbrev stuck : DiskRun
stuck = record {
  reads_ok = true;
  writes_ok = true;
  lands = false;
  renames = before_remove;
  deletes_ok = true;
}

-- One disk of the four fails.
abbrev one_fails : Disks
one_fails = (well, has_old) ∷ (broken, has_old) ∷ (well, has_old) ∷ (well, has_old) ∷ []

abbrev two_fail : Disks
two_fail = (well, has_old) ∷ (broken, has_old) ∷ (broken, has_old) ∷ (well, has_old) ∷ []

abbrev two_stick : Disks
two_stick = (well, has_old) ∷ (stuck, has_old) ∷ (stuck, has_old) ∷ (well, has_old) ∷ []

one_fails_current : current_revision by_etag in_order four one_fails ≡ 3
unfolding current_revision read_meta content_hash read_quorum quorum_winner decide tally_from
    read_all bump text_eq
one_fails_current = refl

abbrev committed : XlMeta
committed = version (codes "bb") 4

read_after_commit_example :
    (committed.revision ≡ current_revision by_etag in_order four one_fails + 1)
    × ((rev : ℕ) → some 3 ≡ some rev → current_revision by_etag in_order four one_fails ≡ rev)
    × ((m' : XlMeta) × (read_meta by_etag in_order
            (read_quorum four)
            (reads_of (false ∷ []) (commit_meta by_etag in_order four (some 3) fresh one_fails).1)
          ≡ found m')
        × (content_hash by_etag m' ≡ content_hash by_etag fresh))
unfolding commit_meta ok_count current_revision rename_dir write_all read_meta quorum_winner decide
    tally_from read_quorum read_all bump text_eq content_hash
read_after_commit_example =
    read_after_commit by_etag in_order 4 four (some 3) fresh committed true one_fails
      (commit_meta by_etag in_order four (some 3) fresh one_fails).1 (false ∷ []) in_order-IsOrder
      built refl
      (λ h k. grind arith, (λ h k. grind arith, (λ h k. grind arith, (λ h k. grind arith, tt))))
      (omega arith) refl

failed_writes_keep_example :
    ((m : XlMeta) (heal : Bool)
      → (commit_meta by_etag in_order four none fresh two_fail).0 ≢ committed_ok m heal)
    × (reads_of [] (commit_meta by_etag in_order four none fresh two_fail).1 ≡ reads_of [] two_fail)
unfolding ok_count write_quorum shards
failed_writes_keep_example =
    failed_writes_keep by_etag in_order four none fresh two_fail [] (omega arith)

failed_renames_delete_example :
    ((commit_meta by_etag in_order four none fresh two_stick).0 ≡ write_quorum_error)
    × (read_meta by_etag in_order
          (read_quorum four)
          (reads_of [] (commit_meta by_etag in_order four none fresh two_stick).1)
        ≡ failed file_not_found)
unfolding ok_count write_quorum shards rename_dir write_all
failed_renames_delete_example =
    failed_renames_delete by_etag in_order four fresh two_stick [] in_order-IsOrder (omega arith)
      (omega arith) (refl, (refl, (refl, (refl, tt))))

-- Eight disks, three of which fail to write the metadata but rename their directory, and three of
-- which write it but fail to rename.
abbrev eight : Erasure
eight = record { data_blocks = 4; parity_blocks = 4; block_size = block_size_v2 }

abbrev unwritten : DiskRun
unwritten = record {
  reads_ok = true;
  writes_ok = false;
  lands = false;
  renames = no_fault;
  deletes_ok = true;
}

abbrev crossed : Disks
crossed =
    (well, has_old)
    ∷ (well, has_old)
    ∷ (stuck, has_old)
    ∷ (stuck, has_old)
    ∷ (stuck, has_old)
    ∷ (unwritten, has_old)
    ∷ (unwritten, has_old)
    ∷ (unwritten, has_old)
    ∷ []

-- The write succeeds, and the object cannot be read.
crossed_commit :
    (commit_meta by_etag in_order eight none fresh crossed).0 ≡ committed_ok committed true
unfolding commit_meta ok_count rename_dir write_all read_meta quorum_winner decide tally_from
    read_quorum read_all bump text_eq content_hash
crossed_commit = refl

crossed_read :
    read_meta by_etag in_order 4
      (reads_of [] (commit_meta by_etag in_order eight none fresh crossed).1)
    ≡ failed corrupt
unfolding commit_meta ok_count rename_dir write_all read_meta quorum_winner decide tally_from
    read_quorum read_all bump text_eq content_hash
crossed_read = refl

-- Two objects that wait to be healed, and a pass in which every object of bucket b is.
abbrev waiting : MrfQueue
waiting = record { pending = (codes "b/x", 5) ∷ (codes "c/y", 6) ∷ []; dirty = true }

abbrev heals_b : Text → Text → Bool
heals_b bucket key = text_eq bucket (codes "b")

drain_lem_example :
    (heals_b (codes "b") (codes "x") ≡ false
      → lookup (codes "b/x") (drain heals_b waiting (codes "c/y" ∷ codes "b/x" ∷ [])).pending
        ≡ some 5)
    × (heals_b (codes "b") (codes "x") ≡ true
        → Any (λ x. x ≡ codes "b/x") (codes "c/y" ∷ codes "b/x" ∷ [])
        → lookup (codes "b/x") (drain heals_b waiting (codes "c/y" ∷ codes "b/x" ∷ [])).pending
          ≡ none)
unfolding split_id lookup text_eq
drain_lem_example =
    drain_lem heals_b (codes "b/x") (codes "b") (codes "x") refl (λ q. grind arith) waiting
      (codes "c/y" ∷ codes "b/x" ∷ []) 5 refl
