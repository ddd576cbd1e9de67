-- ===== src/Erasure/Buckets.antt =====
-- internal/erasure/set.go, MakeBucket, DeleteBucket and StatBucket: a bucket is a volume on every disk.
-- What fails on a disk in a run of calls is an input.
pub mod Exists
mod Examples
use gostore.Base.{
  ℕ, zero, suc, ◌+◌, List, [], ◌∷◌, Bool, true, false, not, Option, none, some, ltb, leb, ◌==◌,
  ◌||◌, if◌then◌else◌, length, map, count_if,
}
use gostore.Erasure.Quorum.{Erasure, write_quorum, read_quorum}

-- What a delete of a volume does: by force it removes one that is not empty too, and never answers
-- `not_empty`; `answer_lost` is a delete that is done, and whose answer does not arrive.
pub data DeleteFault : Type 0 where
  no_fault not_empty other_fault answer_lost : DeleteFault

pub record VolRun : Type 0 where
  pub now : ℕ
  pub makes : Bool
  pub stats : Bool
  pub deletes : DeleteFault

-- Every disk with the time at which its volume was made, `none` where it has none.
abbrev pub VolDisks : Type 0
VolDisks = List (VolRun × Option ℕ)

-- What a call of a disk returns.
pub data VolResult : Type 0 where
  vol_ok vol_exists vol_not_found vol_not_empty vol_failed : VolResult

unfoldable pub make_vol : VolRun → Option ℕ → Option ℕ × VolResult
make_vol r none = if r.makes then (some r.now, vol_ok) else (none, vol_failed)
make_vol r (some t) = (some t, if r.makes then vol_exists else vol_failed)

abbrev pub delete_found : DeleteFault → ℕ → Option ℕ × VolResult
delete_found no_fault t = (none, vol_ok)
delete_found not_empty t = (some t, vol_not_empty)
delete_found other_fault t = (some t, vol_failed)
delete_found answer_lost t = (none, vol_failed)

abbrev pub delete_missing : DeleteFault → VolResult
delete_missing no_fault = vol_not_found
delete_missing not_empty = vol_not_found
delete_missing other_fault = vol_failed
delete_missing answer_lost = vol_failed

unfoldable pub delete_vol : VolRun → Option ℕ → Option ℕ × VolResult
delete_vol r none = (none, delete_missing r.deletes)
delete_vol r (some t) = delete_found r.deletes t

unfoldable pub stat_vol : VolRun → Option ℕ → Option ℕ
stat_vol r d = if r.stats then d else none

abbrev pub is_ok : VolResult → Bool
is_ok vol_ok = true
is_ok _ = false

abbrev pub is_exists : VolResult → Bool
is_exists vol_exists = true
is_exists _ = false

abbrev pub is_gone : VolResult → Bool
is_gone vol_ok = true
is_gone vol_not_found = true
is_gone _ = false

abbrev pub is_not_empty : VolResult → Bool
is_not_empty vol_not_empty = true
is_not_empty _ = false

abbrev pub is_some : Option ℕ → Bool
is_some none = false
is_some (some t) = true

pub data BucketResult : Type 0 where
  done : BucketResult
  bucket_exists bucket_not_empty no_write_quorum : BucketResult

-- `forEachDisk`, with what it leaves on the disks.
abbrev pub results : (VolRun → Option ℕ → Option ℕ × VolResult) → VolDisks → List VolResult
results f = map (λ x. (f x.0 x.1).1)

abbrev pub left_by : (VolRun → Option ℕ → Option ℕ × VolResult) → VolDisks → VolDisks
left_by f = map (λ x. (x.0, (f x.0 x.1).0))

-- The earliest time of the volumes that were found; 0 is the zero time.
unfoldable pub earliest_of : ℕ → List (Option ℕ) → ℕ
earliest_of t [] = t
earliest_of t (none ∷ ts) = earliest_of t ts
earliest_of t (some u ∷ ts) = earliest_of (if t == 0 || ltb u t then u else t) ts

module _ (e : Erasure) where
  unfoldable pub make_bucket : VolDisks → BucketResult × VolDisks
  unfolding make_vol
  make_bucket ds =
      let ok = count_if is_ok (results make_vol ds) in
      let exists = count_if is_exists (results make_vol ds) in
      (
        if leb (write_quorum e) (ok + exists)
            then if ok == 0 then bucket_exists else done
            else no_write_quorum,
        left_by make_vol ds,
      )

  unfoldable pub delete_bucket : VolDisks → BucketResult × VolDisks
  unfolding delete_vol
  delete_bucket ds = (
    if ltb 0 (count_if is_not_empty (results delete_vol ds))
        then bucket_not_empty
        else if leb (write_quorum e) (count_if is_gone (results delete_vol ds))
        then done
        else no_write_quorum,
    left_by delete_vol ds,
  )

  -- `none` for ErrVolumeNotFound.
  unfoldable pub stat_bucket : VolDisks → Option ℕ
  unfolding stat_vol earliest_of
  stat_bucket ds =
      let out = map (λ x. stat_vol x.0 x.1) ds in
      if leb (read_quorum e) (count_if is_some out) then some (earliest_of 0 out) else none
