-- ===== src/Erasure/Commit/ReadBack.antt =====
-- internal/erasure/set.go: readMeta after commitMeta.
use gostore.Base.{
  ◌||◌, ℕ, suc, ◌+◌, ◌≤◌, List, [], ◌∷◌, Bool, true, false, not, Option, none, some, ltb, ◌==◌,
  if◌then◌else◌, length, count_if, All, ◌≡◌, refl, sym, ap, subst, arith, text_eq_refl,
}
use gostore.Erasure.Quorum.{Erasure, new_set, write_quorum, read_quorum, ok_count}
use gostore.Erasure.Quorum.Sizes.{new_set_quorums, new_set_margin}
use gostore.Erasure.XlMeta.{XlMeta, Digest, content_hash}
use gostore.Erasure.ReadMeta.{Entry, found, read_meta}
use gostore.Erasure.ReadMeta.Tally.{votes, others, has_hash, has_other}
use gostore.Erasure.ReadMeta.Majority.{IsOrder, read_meta_majority}
use gostore.Erasure.Commit.{
  without_meta, with_meta, KeyDisk, RenameFault, no_fault, before_remove, at_rename, at_sync,
  DiskRun, write_all, rename_dir, Disks, for_each_disk, write_errors, rename_errors, CommitResult,
  committed_ok, write_conflict, write_quorum_error, current_revision, publish, stage_and_publish,
  commit_meta,
}

-- A disk on which the metadata does not get written does not put its directory in place either.
abbrev pub Sticks : DiskRun → Type 0
Sticks r = (r.writes_ok || r.lands) ≡ false → ¬ (r.renames ≡ no_fault)

-- What a later reader gets from the disks: `false` is a disk that fails, and a disk past the end of
-- the flags answers.
abbrev pub reads_of : List Bool → Disks → List (Option XlMeta)
reads_of rs [] = []
reads_of [] (x ∷ ds) = x.1.committed ∷ reads_of [] ds
reads_of (r ∷ rs) (x ∷ ds) = (if r then x.1.committed else none) ∷ reads_of rs ds

abbrev pub staged : XlMeta → Disks → Disks
staged m = for_each_disk (write_all m)

abbrev pub renamed : Disks → Disks
renamed = for_each_disk (λ r d. (rename_dir r.renames d).0)

fault_commits :
    (m : XlMeta) (f : RenameFault) (w : Bool) (d : KeyDisk)
    → (w ≡ false → ¬ (f ≡ no_fault))
    → (rename_dir f (record d { staging = if w then with_meta m else without_meta })).1 ≡ true
    → (rename_dir f (record d { staging = if w then with_meta m else without_meta })).0.committed
      ≡ some m
unfolding rename_dir
fault_commits m before_remove w d sticks ok = absurd (grind arith)
fault_commits m at_rename w d sticks ok = absurd (grind arith)
fault_commits m at_sync true d sticks ok = absurd (grind arith)
fault_commits m at_sync false d sticks ok = absurd (grind arith)
fault_commits m no_fault true d sticks ok = refl
fault_commits m no_fault false d sticks ok = absurd (sticks refl refl)

-- A disk whose write is committed holds the metadata.
disk_commits :
    (m : XlMeta) (r : DiskRun) (d : KeyDisk)
    → Sticks r
    → (rename_dir r.renames (write_all m r d)).1 ≡ true
    → (rename_dir r.renames (write_all m r d)).0.committed ≡ some m
unfolding write_all
disk_commits m r d = fault_commits m r.renames (r.writes_ok || r.lands) d

module _ (digest : Digest) where
  -- A disk that has the metadata, and one that may.
  vote_step :
      (m : XlMeta) (b r : Bool) (o : Option XlMeta) (c v u : ℕ)
      → (b ≡ true → o ≡ some m)
      → c ≤ v + u
      → elim b [ true ↦ suc c | false ↦ c ]
        ≤ elim (has_hash digest (content_hash digest m) (if r then o else none)) [
          | true ↦ suc v
          | false ↦ v
        ]
          + elim (not r) [ true ↦ suc u | false ↦ u ]
  vote_step m false r o c v u has h = ground arith
  vote_step m true false o c v u has h = omega arith
  vote_step m true true o c v u has h =
      rw (has refl, text_eq_refl (content_hash digest m)) (omega arith)

  other_step :
      (m : XlMeta) (b r : Bool) (o : Option XlMeta) (c v n : ℕ)
      → (b ≡ true → o ≡ some m)
      → v + c ≤ n
      → elim (has_other digest (content_hash digest m) (if r then o else none)) [
        | true ↦ suc v
        | false ↦ v
      ]
          + elim b [ true ↦ suc c | false ↦ c ]
        ≤ suc n
  other_step m false r o c v n has h = ground arith
  other_step m true false o c v n has h = omega arith
  other_step m true true o c v n has h =
      rw (has refl, text_eq_refl (content_hash digest m)) (omega arith)

  votes_after :
      (m : XlMeta) (rs : List Bool) (ds : Disks)
      → All (λ x. Sticks x.0) ds
      → ok_count (rename_errors (staged m ds))
        ≤ votes digest (content_hash digest m) (reads_of rs (renamed (staged m ds)))
          + count_if not rs
  unfolding ok_count
  votes_after m rs [] s = omega arith
  votes_after m [] (x ∷ ds) s =
      vote_step m _ true _ _ _ _ (disk_commits m x.0 x.1 s.0) (votes_after m [] ds s.1)
  votes_after m (r ∷ rs) (x ∷ ds) s =
      vote_step m _ r _ _ _ _ (disk_commits m x.0 x.1 s.0) (votes_after m rs ds s.1)

  others_after :
      (m : XlMeta) (rs : List Bool) (ds : Disks)
      → All (λ x. Sticks x.0) ds
      → others digest (content_hash digest m) (reads_of rs (renamed (staged m ds)))
          + ok_count (rename_errors (staged m ds))
        ≤ length ds
  unfolding ok_count
  others_after m rs [] s = omega arith
  others_after m [] (x ∷ ds) s =
      other_step m _ true _ _ _ _ (disk_commits m x.0 x.1 s.0) (others_after m [] ds s.1)
  others_after m (r ∷ rs) (x ∷ ds) s =
      other_step m _ r _ _ _ _ (disk_commits m x.0 x.1 s.0) (others_after m rs ds s.1)

-- The two tests of a run, and what is left where it succeeds.
two_tests :
    (a b : Bool) (m m' : XlMeta) (flag heal : Bool) (d1 d2 d3 d4 : Disks)
    → ◌≡◌ {A = CommitResult × Disks}
        (if a
          then (write_quorum_error, d1)
          else if b
          then (write_quorum_error, d2)
          else (committed_ok m flag, d3))
        (committed_ok m' heal, d4)
    → (m ≡ m') × (b ≡ false) × (d4 ≡ d3)
two_tests true b m m' flag heal d1 d2 d3 d4 h = absurd (grind arith)
two_tests false true m m' flag heal d1 d2 d3 d4 h = absurd (grind arith)
two_tests false false m m' flag heal d1 d2 d3 d4 h = (grind arith, refl, grind arith)

fence :
    (b : Bool) (next : CommitResult × Disks) (m : XlMeta) (heal : Bool) (ds ds' : Disks)
    → (if b then next else (write_conflict, ds)) ≡ (committed_ok m heal, ds')
    → (b ≡ true) × (next ≡ (committed_ok m heal, ds'))
fence true next m heal ds ds' h = (refl, h)
fence false next m heal ds ds' h = absurd (grind arith)

module _ (digest : Digest) (order : List Entry → List Entry) (e : Erasure) where
  -- What a run that succeeds did.
  published :
      (m m' : XlMeta) (heal : Bool) (ds ds' : Disks)
      → stage_and_publish digest order e m ds ≡ (committed_ok m' heal, ds')
      → (m ≡ m')
        × (write_quorum e ≤ ok_count (rename_errors (staged m ds)))
        × (ds' ≡ renamed (staged m ds))
  unfolding stage_and_publish publish
  published m m' heal ds ds' h =
      let t =
        two_tests (ltb (ok_count (write_errors ds)) (write_quorum e))
          (ltb (ok_count (rename_errors (staged m ds))) (write_quorum e)) _ _ _ _ _ _ _ _ h in
      (t.0, ground (arith, t.1), t.2)

  committed_stages :
      (expect : Option ℕ) (meta m : XlMeta) (heal : Bool) (ds ds' : Disks)
      → commit_meta digest order e expect meta ds ≡ (committed_ok m heal, ds')
      → ((rev : ℕ) → expect ≡ some rev → current_revision digest order e ds ≡ rev)
        × (stage_and_publish digest order e
              (record meta { revision = current_revision digest order e ds + 1 })
              ds
            ≡ (committed_ok m heal, ds'))
  unfolding commit_meta
  committed_stages none meta m heal ds ds' h = (λ rev q. absurd (grind arith), h)
  committed_stages (some rev) meta m heal ds ds' h =
      let f =
        fence (current_revision digest order e ds == rev)
          (stage_and_publish digest order e
            (record meta { revision = current_revision digest order e ds + 1 }) ds)
          m heal ds ds' h in
      (λ rev' q. ground (arith, f.0), f.1)

module _ (digest : Digest) (order : List Entry → List Entry) where
  -- If `commit_meta` succeeds on a set that `new_set` builds for the number of its disks, none
  -- of which renames a directory that the metadata did not get written to, then the result has
  -- the next revision, a fenced caller's revision was the current one, and a later `read_meta`
  -- finds metadata with the hash of what was written, also if any one of the disks fails then.
  -- The order in which a map is read out may be any that loses no entry and adds none.
  pub read_after_commit :
      (n : ℕ) (e : Erasure) (expect : Option ℕ) (meta m : XlMeta) (heal : Bool) (ds ds' : Disks)
      (rs : List Bool)
      → IsOrder order
      → new_set n ≡ some e
      → length ds ≡ n
      → All (λ x. Sticks x.0) ds
      → count_if not rs ≤ 1
      → commit_meta digest order e expect meta ds ≡ (committed_ok m heal, ds')
      → (m.revision ≡ current_revision digest order e ds + 1)
        × ((rev : ℕ) → expect ≡ some rev → current_revision digest order e ds ≡ rev)
        × ((m' : XlMeta) × (read_meta digest order (read_quorum e) (reads_of rs ds') ≡ found m')
            × (content_hash digest m' ≡ content_hash digest meta))
  unfolding content_hash
  read_after_commit n e expect meta m heal ds ds' rs is_order built len sticks one h =
      let st = committed_stages digest order e expect meta m heal ds ds' h in
      let next = record meta { revision = current_revision digest order e ds + 1 } in
      let done = published digest order e next m heal ds ds' st.1 in
      let sizes = new_set_quorums n e built in
      let margin = new_set_margin n e built in
      let reads = reads_of rs (renamed (staged next ds)) in
      (
        ap (λ x. x.revision) (sym done.0),
        st.0,
        subst
            (λ x.
              (m' : XlMeta) × (read_meta digest order (read_quorum e) (reads_of rs x) ≡ found m')
              × (content_hash digest m' ≡ content_hash digest meta))
            (sym done.2)
            (read_meta_majority digest order is_order (read_quorum e) (content_hash digest next)
              reads margin.0
              (omega (arith, votes_after digest next rs ds sticks, done.1, margin.1, one))
              (omega (arith, others_after digest next rs ds sticks, done.1, len, sizes.2))),
      )
