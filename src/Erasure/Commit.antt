-- ===== src/Erasure/Commit.antt =====
-- internal/erasure/set.go, commitMeta, with the disk operations of internal/storage/local.go that it
-- calls: the metadata of a write is put beside the object on every disk, then renamed into its place.
pub mod ReadBack
pub mod Rollback
use gostore.Base.{
  ℕ, zero, suc, ◌+◌, List, [], ◌∷◌, Bool, true, false, not, Option, none, some, ltb, leb, ◌==◌,
  ◌&&◌, ◌||◌, if◌then◌else◌, length, map, count_if,
}
use gostore.Erasure.Quorum.{Erasure, write_quorum, read_quorum, shards, ok_count}
use gostore.Erasure.XlMeta.{XlMeta, Digest}
use gostore.Erasure.ReadMeta.{Entry, ReadResult, found, failed, read_meta}

-- The staging directory of a write on a disk.
pub data Staging : Type 0 where
  absent without_meta : Staging
  with_meta : XlMeta → Staging

-- A disk, as far as one key goes: the metadata at the key, `none` where there is none that parses,
-- and the staging directory.
pub record KeyDisk : Type 0 where
  pub committed : Option XlMeta
  pub staging : Staging

-- Where an error, if any, meets `RenameDir`: before it does anything, once the old directory is
-- removed, or once the new one is in its place.
pub data RenameFault : Type 0 where
  no_fault before_remove at_rename at_sync : RenameFault

-- What the disk does in one run of `commitMeta`, operation by operation; `lands` says that a write which
-- fails has put the file in its place all the same.
pub record DiskRun : Type 0 where
  pub reads_ok : Bool
  pub writes_ok : Bool
  pub lands : Bool
  pub renames : RenameFault
  pub deletes_ok : Bool

-- `ReadAll` of the metadata.
unfoldable pub read_all : DiskRun → KeyDisk → Option XlMeta
read_all r d = if r.reads_ok then d.committed else none

-- `WriteAll` makes the directories that are missing, here whether it succeeds or not.
unfoldable pub write_all : XlMeta → DiskRun → KeyDisk → KeyDisk
write_all m r d = record d {
  staging = if r.writes_ok || r.lands then with_meta m else without_meta;
}

-- What a renamed staging directory puts at the key.
abbrev pub staged_meta : Staging → Option XlMeta
staged_meta absent = none
staged_meta without_meta = none
staged_meta (with_meta m) = some m

-- `RenameDir`, with whether it returns nil.
unfoldable pub rename_dir : RenameFault → KeyDisk → KeyDisk × Bool
rename_dir before_remove d = (d, false)
rename_dir at_rename d = (record d { committed = none }, false)
rename_dir at_sync d = elim d.staging [
  | absent ↦ (record d { committed = none }, false)
  | without_meta ↦ (record { committed = none; staging = absent }, false)
  | with_meta m ↦ (record { committed = some m; staging = absent }, false)
]
rename_dir no_fault d = elim d.staging [
  | absent ↦ (record d { committed = none }, false)
  | without_meta ↦ (record { committed = none; staging = absent }, true)
  | with_meta m ↦ (record { committed = some m; staging = absent }, true)
]

-- `Delete` of the key.
unfoldable pub delete_key : DiskRun → KeyDisk → KeyDisk
delete_key r d = if r.deletes_ok then record d { committed = none } else d

-- `forEachDisk`: every disk with what it does in the run.
abbrev pub Disks : Type 0
Disks = List (DiskRun × KeyDisk)

abbrev pub for_each_disk : (DiskRun → KeyDisk → KeyDisk) → Disks → Disks
for_each_disk f = map (λ x. (x.0, f x.0 x.1))

abbrev pub write_errors : Disks → List Bool
write_errors = map (λ x. x.0.writes_ok)

abbrev pub rename_errors : Disks → List Bool
rename_errors = map (λ x. (rename_dir x.0.renames x.1).1)

-- The heal flag says that the key was put in the queue of `mrf`.
pub data CommitResult : Type 0 where
  committed_ok : XlMeta → (heal : Bool) → CommitResult
  write_conflict write_quorum_error : CommitResult

abbrev pub revision_of : ReadResult → ℕ
revision_of (found m) = m.revision
revision_of (failed e) = 0

module _ (digest : Digest) (order : List Entry → List Entry) (e : Erasure) where
  unfoldable pub current_revision : Disks → ℕ
  current_revision ds =
      revision_of (read_meta digest order (read_quorum e) (map (λ x. read_all x.0 x.1) ds))

  -- The renames, on disks that hold the staged metadata.
  unfoldable pub publish : XlMeta → Disks → CommitResult × Disks
  unfolding write_quorum delete_key
  publish m ds =
      let renamed = for_each_disk (λ r d. (rename_dir r.renames d).0) ds in
      let committed = ok_count (rename_errors ds) in
      if ltb committed (write_quorum e)
      then (write_quorum_error, for_each_disk delete_key renamed)
      else (committed_ok m (ltb committed (shards e)), renamed)

  -- The writes of the staged metadata, then the renames.
  unfoldable pub stage_and_publish : XlMeta → Disks → CommitResult × Disks
  unfolding publish
  stage_and_publish m ds =
      let staged = for_each_disk (write_all m) ds in
      if ltb (ok_count (write_errors ds)) (write_quorum e)
      then (write_quorum_error, staged)
      else publish m staged

  -- `none` for an `expectRev` below 0.
  unfoldable pub commit_meta : Option ℕ → XlMeta → Disks → CommitResult × Disks
  unfolding current_revision stage_and_publish
  commit_meta expect meta ds =
      let cur = current_revision ds in
      let next = stage_and_publish (record meta { revision = cur + 1 }) ds in
      elim expect [ none ↦ next | some rev ↦ if cur == rev then next else (write_conflict, ds) ]
