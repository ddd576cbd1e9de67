-- ===== src/Erasure/Commit/Rollback.antt =====
-- internal/erasure/set.go: commitMeta where it fails.
use gostore.Base.{
  ℕ, zero, suc, ◌+◌, ◌≤◌, ◌<◌, List, [], ◌∷◌, Bool, true, Option, none, some, ◌==◌, count_if, All,
  ◌≡◌, ◌≢◌, refl, inl, inr, Bool-cases, arith, take,
}
use gostore.Erasure.Quorum.{Erasure, write_quorum, read_quorum, ok_count}
use gostore.Erasure.XlMeta.{XlMeta, Digest}
use gostore.Erasure.ReadMeta.{
  Entry, failed, file_not_found, read_meta, decide, quorum_winner, answer, tally_from, pick_from,
  is_present,
}
use gostore.Erasure.ReadMeta.Majority.{IsOrder}
use gostore.Erasure.Commit.{
  write_all, delete_key, Disks, for_each_disk, write_errors, rename_errors, committed_ok,
  write_quorum_error, current_revision, publish, stage_and_publish, commit_meta,
}
use gostore.Erasure.Commit.ReadBack.{reads_of, staged, renamed}

-- Staged metadata is not read.
reads_of-staged :
    (m : XlMeta) (rs : List Bool) (ds : Disks) → reads_of rs (staged m ds) ≡ reads_of rs ds
unfolding write_all
reads_of-staged m rs [] = refl
reads_of-staged m [] (x ∷ ds) = rw (reads_of-staged m [] ds) refl
reads_of-staged m (r ∷ rs) (x ∷ ds) = rw (reads_of-staged m rs ds) refl

abbrev IsNone : Option XlMeta → Type 0
IsNone o = o ≡ none

-- Deleted metadata is not there to be read.
reads_of-deleted :
    (rs : List Bool) (ds : Disks)
    → All (λ x. x.0.deletes_ok ≡ true) ds
    → All IsNone (reads_of rs (for_each_disk delete_key ds))
unfolding delete_key
reads_of-deleted rs [] d = tt
reads_of-deleted [] (x ∷ ds) d = (rw d.0 refl, reads_of-deleted [] ds d.1)
reads_of-deleted (r ∷ rs) (x ∷ ds) d = (ground (arith, d.0), reads_of-deleted rs ds d.1)

renamed-deletes :
    (m : XlMeta) (ds : Disks)
    → All (λ x. x.0.deletes_ok ≡ true) ds
    → All (λ x. x.0.deletes_ok ≡ true) (renamed (staged m ds))
renamed-deletes m [] d = tt
renamed-deletes m (x ∷ ds) d = (d.0, renamed-deletes m ds d.1)

module _ (digest : Digest) (order : List Entry → List Entry) (is_order : IsOrder order) where
  -- An order makes no entry up.
  order-nil : order [] ≡ []
  order-nil = is_empty (order []) (is_order.keeps (λ e. ⊥) [] tt)
    where
      is_empty : (es : List Entry) → All (λ e. ⊥) es → es ≡ []
      is_empty [] h = refl
      is_empty (e ∷ es) h = absurd h.0

  none_tallied : (ms : List (Option XlMeta)) → All IsNone ms → tally_from digest [] ms ≡ []
  unfolding tally_from
  none_tallied [] h = refl
  none_tallied (none ∷ ms) h = none_tallied ms h.1
  none_tallied (some m ∷ ms) h = absurd (grind (arith, h.0))

  none_present : (ms : List (Option XlMeta)) → All IsNone ms → count_if is_present ms ≡ 0
  none_present [] h = refl
  none_present (none ∷ ms) h = none_present ms h.1
  none_present (some m ∷ ms) h = absurd (grind (arith, h.0))

  take-IsNone : (q : ℕ) (ms : List (Option XlMeta)) → All IsNone ms → All IsNone (take q ms)
  take-IsNone zero ms h = tt
  take-IsNone (suc q) [] h = tt
  take-IsNone (suc q) (m ∷ ms) h = (h.0, take-IsNone q ms h.1)

  no_winner :
      (q : ℕ) (ms : List (Option XlMeta))
      → All IsNone ms
      → quorum_winner q (decide digest order ms).0 ≡ none
  unfolding decide quorum_winner pick_from
  no_winner q ms h = rw (none_tallied ms h, order-nil) refl

  read_meta-none :
      (q : ℕ) (ms : List (Option XlMeta))
      → All IsNone ms
      → read_meta digest order q ms ≡ failed file_not_found
  unfolding read_meta answer decide
  read_meta-none q ms h =
      rw (no_winner q (take q ms) (take-IsNone q ms h), no_winner q ms h, none_present ms h) refl

module _ (digest : Digest) (order : List Entry → List Entry) (e : Erasure) where
  run_writes_short :
      (m : XlMeta) (ds : Disks)
      → ok_count (write_errors ds) < write_quorum e
      → stage_and_publish digest order e m ds ≡ (write_quorum_error, staged m ds)
  unfolding stage_and_publish
  run_writes_short m ds short = ground (arith, short)

  -- Where fewer disks than the write quorum write the metadata, `commit_meta` fails, and every disk
  -- has at the key what it had before.
  pub failed_writes_keep :
      (expect : Option ℕ) (meta : XlMeta) (ds : Disks) (rs : List Bool)
      → ok_count (write_errors ds) < write_quorum e
      → ((m : XlMeta) (heal : Bool)
          → (commit_meta digest order e expect meta ds).0 ≢ committed_ok m heal)
        × (reads_of rs (commit_meta digest order e expect meta ds).1 ≡ reads_of rs ds)
  unfolding commit_meta
  failed_writes_keep none meta ds rs short =
      rw (run_writes_short _ ds short) (λ m heal q. absurd (grind arith), reads_of-staged _ rs ds)
  failed_writes_keep (some rev) meta ds rs short =
      elim (Bool-cases (current_revision digest order e ds == rev)) [
        | inl f ↦
            rw (f, run_writes_short _ ds short)
              (λ m heal q. absurd (grind arith), reads_of-staged _ rs ds)
        | inr f ↦ rw f (λ m heal q. absurd (grind arith), refl)
      ]

  run_renames_short :
      (m : XlMeta) (ds : Disks)
      → write_quorum e ≤ ok_count (write_errors ds)
      → ok_count (rename_errors (staged m ds)) < write_quorum e
      → stage_and_publish digest order e m ds
        ≡ (write_quorum_error, for_each_disk delete_key (renamed (staged m ds)))
  unfolding stage_and_publish publish
  run_renames_short m ds enough short = ground (arith, enough, short)

  -- Where the metadata is written to a write quorum but renamed on fewer disks than that, and no
  -- delete fails, an unfenced `commit_meta` fails and the object is gone: whatever was there
  -- before, and whichever disks answer later, `read_meta` finds no file. The order in which a
  -- map is read out may be any that loses no entry and adds none.
  pub failed_renames_delete :
      (meta : XlMeta) (ds : Disks) (rs : List Bool)
      → IsOrder order
      → write_quorum e ≤ ok_count (write_errors ds)
      → ok_count (
          rename_errors
            (staged (record meta { revision = current_revision digest order e ds + 1 }) ds))
        < write_quorum e
      → All (λ x. x.0.deletes_ok ≡ true) ds
      → ((commit_meta digest order e none meta ds).0 ≡ write_quorum_error)
        × (read_meta digest order
              (read_quorum e)
              (reads_of rs (commit_meta digest order e none meta ds).1)
            ≡ failed file_not_found)
  unfolding commit_meta
  failed_renames_delete meta ds rs is_order enough short deletes =
      let next = record meta { revision = current_revision digest order e ds + 1 } in
      rw (run_renames_short next ds enough short) (
        refl,
        read_meta-none digest order is_order (read_quorum e) _
            (reads_of-deleted rs (renamed (staged next ds)) (renamed-deletes next ds deletes)),
      )
