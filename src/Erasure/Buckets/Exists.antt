-- ===== src/Erasure/Buckets/Exists.antt =====
-- internal/erasure/set.go: a bucket that was made is there, and one that was deleted is not.
use gostore.Base.{
  ℕ, ◌+◌, ◌≤◌, ◌<◌, ◌≡◌, ◌≢◌, refl, arith, ap, List, [], ◌∷◌, Bool, true, false, Option, none, some,
  ltb, leb, ◌==◌, if◌then◌else◌, length, map, count_if, count_if-cons, All, Bool-cases, inl, inr,
}
use gostore.Erasure.Quorum.{Erasure, write_quorum, read_quorum}
use gostore.Erasure.Buckets.{
  VolRun, DeleteFault, no_fault, not_empty, other_fault, answer_lost, VolDisks, delete_found,
  make_vol, delete_vol, stat_vol, is_ok, is_exists, is_gone, is_some, done, bucket_exists,
  bucket_not_empty, no_write_quorum, results, left_by, earliest_of, make_bucket, delete_bucket,
  stat_bucket,
}

abbrev stats_of : VolDisks → List (Option ℕ)
stats_of = map (λ x. stat_vol x.0 x.1)

made_counts :
    (ds : VolDisks)
    → All (λ x. x.0.stats ≡ true) ds
    → count_if is_ok (results make_vol ds) + count_if is_exists (results make_vol ds)
      ≤ count_if is_some (stats_of (left_by make_vol ds))
unfolding make_vol stat_vol
made_counts [] a = omega arith
made_counts ((r, none) ∷ ds) a = elim (Bool-cases r.makes) [
  | inl e ↦ rw (e, a.0) (omega (arith, made_counts ds a.1))
  | inr e ↦ rw (e, a.0) (omega (arith, made_counts ds a.1))
]
made_counts ((r, some t) ∷ ds) a = elim (Bool-cases r.makes) [
  | inl e ↦ rw (e, a.0) (omega (arith, made_counts ds a.1))
  | inr e ↦ rw (e, a.0) (omega (arith, made_counts ds a.1))
]

is_none_read : (b : Bool) (d : Option ℕ) → d ≡ none → is_some (if b then d else none) ≡ false
is_none_read true d e = ap is_some e
is_none_read false d e = refl

removed :
    (f : DeleteFault) (t : ℕ) → is_gone (delete_found f t).1 ≡ true → (delete_found f t).0 ≡ none
removed no_fault t h = refl
removed not_empty t h = cc
removed other_fault t h = cc
removed answer_lost t h = cc

-- A disk that says that its volume is gone is not found with it.
gone_not_found :
    (r : VolRun) (d : Option ℕ)
    → is_gone (delete_vol r d).1 ≡ true
    → is_some (stat_vol r (delete_vol r d).0) ≡ false
unfolding stat_vol delete_vol
gone_not_found r none h = is_none_read r.stats none refl
gone_not_found r (some t) h = is_none_read r.stats _ (removed r.deletes t h)

gone_counts :
    (ds : VolDisks)
    → count_if is_some (stats_of (left_by delete_vol ds)) + count_if is_gone (results delete_vol ds)
      ≤ length ds
gone_counts [] = omega arith
gone_counts ((r, d) ∷ ds) =
    let found =
      count_if-cons is_some (stat_vol r (delete_vol r d).0) (stats_of (left_by delete_vol ds)) in
    let gone = count_if-cons is_gone (delete_vol r d).1 (results delete_vol ds) in
    let rest = gone_counts ds in
    elim (Bool-cases (is_gone (delete_vol r d).1)) [
      | inl e ↦ omega (arith, rest, rw (gone_not_found r d e) at found, rw e at gone)
      | inr e ↦ elim (Bool-cases (is_some (stat_vol r (delete_vol r d).0))) [
        | inl f ↦ omega (arith, rest, rw f at found, rw e at gone)
        | inr f ↦ omega (arith, rest, rw f at found, rw e at gone)
      ]
    ]

made_enough :
    (q ok exists : ℕ)
    → (if leb q (ok + exists) then if ok == 0 then bucket_exists else done else no_write_quorum)
      ≢ no_write_quorum
    → q ≤ ok + exists
made_enough q ok exists h = elim (Bool-cases (leb q (ok + exists))) [
  | inl e ↦ ground (arith, e)
  | inr e ↦ absurd (h (rw e refl))
]

gone_enough :
    (q n gone : ℕ)
    → (if ltb 0 n then bucket_not_empty else if leb q gone then done else no_write_quorum) ≡ done
    → q ≤ gone
gone_enough q n gone h = elim (Bool-cases (ltb 0 n)) [
  | inl e ↦ absurd (ground (arith, rw e at h))
  | inr e ↦ elim (Bool-cases (leb q gone)) [
    | inl f ↦ ground (arith, f)
    | inr f ↦ absurd (ground (arith, rw (e, f) at h))
  ]
]

-- A bucket is found once `MakeBucket` has returned nil or that it exists, where every disk answers the
-- stat, and the read quorum is no more than the write quorum.
pub stat_bucket-make_bucket :
    (e : Erasure) (ds : VolDisks)
    → read_quorum e ≤ write_quorum e
    → All (λ x. x.0.stats ≡ true) ds
    → (make_bucket e ds).0 ≢ no_write_quorum
    → (t : ℕ) × (stat_bucket e (make_bucket e ds).1 ≡ some t)
unfolding make_bucket stat_bucket
stat_bucket-make_bucket e ds q a h =
    let found : leb (read_quorum e) (count_if is_some (stats_of (left_by make_vol ds))) ≡ true =
      ground (arith, q, made_counts ds a, made_enough (write_quorum e) _ _ h) in
    (earliest_of 0 (stats_of (left_by make_vol ds)), rw found refl)

-- A bucket is not found once `DeleteBucket` has returned nil, whichever disks missed the delete and
-- whichever answer: fewer disks than a read quorum are left with it. A read and a write quorum together
-- are more than the disks.
pub stat_bucket-delete_bucket :
    (e : Erasure) (ds : VolDisks)
    → length ds < read_quorum e + write_quorum e
    → (delete_bucket e ds).0 ≡ done
    → stat_bucket e (delete_bucket e ds).1 ≡ none
unfolding delete_bucket stat_bucket
stat_bucket-delete_bucket e ds q h =
    let few : leb (read_quorum e) (count_if is_some (stats_of (left_by delete_vol ds))) ≡ false =
      ground (arith, q, gone_counts ds, gone_enough (write_quorum e) _ _ h) in
    rw few refl
