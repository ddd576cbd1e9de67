-- ===== src/Erasure/Buckets/Examples.antt =====
-- Four disks on which the theorems about buckets are run.
use gostore.Base.{
  sym, ◌∙◌, ◌+◌, ℕ, ◌≤◌, ◌<◌, [], ◌∷◌, true, false, none, some, Option, ◌≡◌, ◌≢◌, refl, arith,
  length,
}
use gostore.Erasure.Quorum.{Erasure, read_quorum, write_quorum, shards}
use gostore.Erasure.Buckets.{
  VolRun, VolDisks, no_fault, other_fault, done, no_write_quorum, make_vol, delete_vol, make_bucket,
  delete_bucket, stat_bucket,
}
use gostore.Erasure.Buckets.Exists.{stat_bucket-make_bucket, stat_bucket-delete_bucket}

abbrev four : Erasure
four = record { data_blocks = 2; parity_blocks = 2; block_size = 1 }

abbrev works : VolRun
works = record { now = 5; makes = true; stats = true; deletes = no_fault }

-- It neither makes nor deletes.
abbrev sticks : VolRun
sticks = record { now = 5; makes = false; stats = true; deletes = other_fault }

abbrev one_sticks : Option ℕ → VolDisks
one_sticks d = (works, d) ∷ (sticks, d) ∷ (works, d) ∷ (works, d) ∷ []

made : (make_bucket four (one_sticks none)).0 ≡ done
unfolding make_bucket make_vol write_quorum shards
made = refl

done_is_enough : done ≢ no_write_quorum
done_is_enough h = cc

quorums : read_quorum four ≤ write_quorum four
unfolding read_quorum write_quorum shards
quorums = omega arith

stat_bucket-make_bucket_example :
    (t : ℕ) × (stat_bucket four (make_bucket four (one_sticks none)).1 ≡ some t)
stat_bucket-make_bucket_example =
    stat_bucket-make_bucket four (one_sticks none) quorums (refl, (refl, (refl, (refl, tt))))
      (λ h. done_is_enough (sym made ∙ h))

deleted : (delete_bucket four (one_sticks (some 3))).0 ≡ done
unfolding delete_bucket delete_vol write_quorum shards
deleted = refl

meet : length (one_sticks (some 3)) < read_quorum four + write_quorum four
unfolding read_quorum write_quorum shards
meet = omega arith

stat_bucket-delete_bucket_example :
    stat_bucket four (delete_bucket four (one_sticks (some 3))).1 ≡ none
stat_bucket-delete_bucket_example =
    stat_bucket-delete_bucket four (one_sticks (some 3)) meet deleted
