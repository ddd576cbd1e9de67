-- ===== src/Erasure/Config/Copies.antt =====
-- internal/erasure/config.go: what becomes of the copies of a configuration file.
use gostore.Base.{
  ℕ, ◌+◌, ◌/◌, ◌≤◌, ◌<◌, ◌≡◌, ◌≢◌, ◌↔◌, refl, arith, sym, ◌∙◌, ap, subst, Text, List, [], ◌∷◌, Bool,
  true, false, Option, none, some, Assoc, ltb, leb, ◌==◌, ◌&&◌, if_keeps, if◌then◌else◌, text_eq,
  text_eq_iff, text_eq_refl, length, length-map, count_if, count_if-cons, Bytes, All, Bool-cases,
  Option-cases, inl, inr,
}
use gostore.Erasure.Config.{
  DiskRun, ConfigDisks, config_quorum, read_all, write_all, is_ok, delete_file, for_all_disks,
  blobs, is_found, is_stale, repair, best_of, read_config, write_config, delete_config,
}
use gostore.Erasure.Config.Plurality.{
  IsOrder, has_hash, has_other, votes, others, best_of-plurality, winner, winner_lem,
  read_config-plurality, best_of-le, best_of-max, votes_le_found,
}

-- The disks that took a write.
abbrev took : ConfigDisks → ℕ
took = count_if (λ x. is_ok x.0.write_fails)

nothing_found :
    (ds : ConfigDisks) → (count_if is_found (blobs ds) ≡ 0) ↔ All (λ x. read_all x.0 x.1 ≡ none) ds
nothing_found [] = (λ _. tt, λ _. refl)
nothing_found (x ∷ ds) = elim (Option-cases (read_all x.0 x.1)) [
  | inl e ↦ (λ h. (e, (nothing_found ds).0 (rw e at h)), λ h. rw e ((nothing_found ds).1 h.1))
  | inr (b, e) ↦ (λ h. absurd (ground (arith, rw e at h)), λ h. absurd (ground (arith, e, h.0)))
]

read_of_write :
    (c : Bytes) (r : DiskRun) (d : Option Bytes)
    → (r.write_fails ≡ none → r.reads_ok ≡ true)
    → is_ok r.write_fails ≡ true
    → read_all r (write_all c r d) ≡ some c
unfolding read_all write_all
read_of_write c r d a e = elim (Option-cases r.write_fails) [
  | inl f ↦ rw (a f, f) refl
  | inr (left, f) ↦ absurd (ground (arith, rw f at e))
]

module _ (sha256 : Bytes → Text) where
  written_votes :
      (c : Bytes) (ds : ConfigDisks)
      → All (λ x. x.0.write_fails ≡ none → x.0.reads_ok ≡ true) ds
      → (took ds ≤ votes sha256 (sha256 c) (blobs (for_all_disks (write_all c) ds)))
        × (others sha256 (sha256 c) (blobs (for_all_disks (write_all c) ds)) + took ds ≤ length ds)
  written_votes c [] a = (omega arith, omega arith)
  written_votes c ((r, d) ∷ ds) a =
      let (v, o) = written_votes c ds a.1 in
      let h = sha256 c in
      let x = read_all r (write_all c r d) in
      let bs = blobs (for_all_disks (write_all c) ds) in
      let t = count_if-cons (λ (x : DiskRun × Option Bytes). is_ok x.0.write_fails) (r, d) ds in
      let v' = count_if-cons (has_hash sha256 h) x bs in
      let o' = count_if-cons (has_other sha256 h) x bs in
      elim (Bool-cases (is_ok r.write_fails)) [
        | inl e ↦
            let same = read_of_write c r d a.0 e in
            let is_vote : has_hash sha256 h x ≡ true =
              ap (has_hash sha256 h) same ∙ text_eq_refl h in
            let not_other : has_other sha256 h x ≡ false =
              ap (has_other sha256 h) same ∙ rw (text_eq_refl h) refl in
            (
              omega (arith, v, rw e at t, rw is_vote at v'),
              omega (arith, o, rw e at t, rw not_other at o'),
            )
        | inr e ↦ (
          omega (arith, v, rw e at t, v'),
          elim (Bool-cases (has_other sha256 h x)) [
            | inl f ↦ omega (arith, o, rw e at t, rw f at o')
            | inr f ↦ omega (arith, o, rw e at t, rw f at o')
          ],
        )
      ]

  votes_and_others :
      (h : Text) (bs : List (Option Bytes)) → votes sha256 h bs + others sha256 h bs ≤ length bs
  votes_and_others h [] = omega arith
  votes_and_others h (none ∷ bs) = omega (arith, votes_and_others h bs)
  votes_and_others h (some b ∷ bs) = ground (arith, votes_and_others h bs)

  -- A disk that holds content with the hash.
  abbrev pub Holds : Text → DiskRun × Option Bytes → Type 0
  Holds h x = (b : Bytes) × (x.1 ≡ some b) × (sha256 b ≡ h)

  -- A disk that the repair leaves alone holds the winner's content.
  fresh_holds :
      (h : Text) (w : Bytes) (o : Option Bytes)
      → sha256 w ≡ h
      → sha256 [] ≢ h
      → is_stale sha256 w h o ≡ false
      → (b : Bytes) × (o ≡ some b) × (sha256 b ≡ h)
  unfolding is_stale
  fresh_holds h w none k full e = absurd (full ((text_eq_iff (sha256 []) h).0 (ground (arith, e))))
  fresh_holds h w (some b) k full e = (b, refl, (text_eq_iff (sha256 b) h).0 (ground (arith, e)))

  held_of_read :
      (h : Text) (r : DiskRun) (d : Option Bytes)
      → (b : Bytes) × (read_all r d ≡ some b) × (sha256 b ≡ h)
      → Holds h (r, d)
  unfolding read_all
  held_of_read h r d (b, e, k) = elim (Bool-cases r.reads_ok) [
    | inl f ↦ (b, rw f at e, k)
    | inr f ↦ absurd (ground (arith, rw f at e))
  ]

  written-Holds :
      (h : Text) (w : Bytes) (r : DiskRun) (d : Option Bytes)
      → sha256 w ≡ h
      → r.write_fails ≡ none
      → Holds h (r, write_all w r d)
  unfolding write_all
  written-Holds h w r d k e = (w, rw e refl, k)

  repaired :
      (h : Text) (w : Bytes) (ds : ConfigDisks)
      → sha256 w ≡ h
      → sha256 [] ≢ h
      → All (λ x. x.0.write_fails ≡ none) ds
      → All (Holds h) (repair sha256 w h ds)
  unfolding repair
  repaired h w [] k full a = tt
  repaired h w ((r, d) ∷ ds) k full a = (
    if_keeps (λ x. Holds h (r, x)) (is_stale sha256 w h (read_all r d)) _ _
        (λ _. written-Holds h w r d k a.0)
        (λ e. held_of_read h r d (fresh_holds h w (read_all r d) k full e)),
    repaired h w ds k full a.1,
  )

  counted :
      (h : Text) (b : Bytes) {v : Bool}
      → text_eq (sha256 b) h ≡ v
      → (bs : List (Option Bytes))
      → votes sha256 h (some b ∷ bs) ≡ (if v then 1 else 0) + votes sha256 h bs
  counted h b e bs = let head = count_if-cons (has_hash sha256 h) (some b) bs in rw e at head

  unanimous :
      (h : Text) (ds : ConfigDisks) → length ds ≤ votes sha256 h (blobs ds) → All (Holds h) ds
  unanimous h [] le = tt
  unanimous h ((r, d) ∷ ds) le =
      let rest : votes sha256 h (blobs ds) ≤ length ds =
        omega (arith, votes_and_others h (blobs ds), length-map ds (λ x. read_all x.0 x.1)) in
      let v = count_if-cons (has_hash sha256 h) (read_all r d) (blobs ds) in
      elim (Option-cases (read_all r d)) [
        | inl e ↦ absurd (omega (arith, rw e at le, rest))
        | inr (b, e) ↦ elim (Bool-cases (text_eq (sha256 b) h)) [
          | inl f ↦ (
            held_of_read h r d (b, e, (text_eq_iff (sha256 b) h).0 f),
            unanimous h ds (
                omega (
                  arith,
                  le,
                  ap (λ o. count_if (has_hash sha256 h) (o ∷ blobs ds)) e,
                  counted h b f (blobs ds),
                )),
          )
          | inr f ↦ absurd (
              omega (
                arith,
                le,
                ap (λ o. count_if (has_hash sha256 h) (o ∷ blobs ds)) e,
                counted h b f (blobs ds),
                rest,
              ))
        ]
      ]

  module _ (order : Assoc ℕ → Assoc ℕ) (is_order : IsOrder order) where
    -- What was written is read: if `WriteConfig` returns nil, and every disk that took the write
    -- answers, then `ReadConfig` returns content with the hash of what was written, whatever the other
    -- disks hold and whether they answer, and whatever the order in which the tally is read out.
    pub read_config-write_config :
        (c : Bytes) (ds : ConfigDisks) (gate : Bool)
        → All (λ x. x.0.write_fails ≡ none → x.0.reads_ok ≡ true) ds
        → (write_config c ds).1 ≡ true
        → (w : Bytes) × ((read_config sha256 order gate (write_config c ds).0).0 ≡ some w)
          × (sha256 w ≡ sha256 c)
    unfolding write_config config_quorum
    read_config-write_config c ds gate a ok =
        let (v, o) = written_votes c ds a in
        read_config-plurality sha256 order is_order gate (sha256 c) (for_all_disks (write_all c) ds)
          (ground (arith, v, o, ok))

    -- A read brings every copy up to date: if a quorum of the disks answer with one content, and the
    -- writes of the repair succeed where there are any, then afterwards every disk holds content with
    -- the hash of that one. The repair is free to run, and the content is not the empty file.
    pub read_config_repairs :
        (h : Text) (ds : ConfigDisks)
        → config_quorum (length ds) ≤ votes sha256 h (blobs ds)
        → sha256 [] ≢ h
        → All (λ x. x.0.write_fails ≡ none) ds
        → All (Holds h) (read_config sha256 order true ds).1
    unfolding read_config config_quorum
    read_config_repairs h ds enough full a =
        let bs = blobs ds in
        let best = best_of sha256 order bs in
        let fits = votes_and_others h bs in
        let size = length-map ds (λ x. read_all x.0 x.1) in
        let more : others sha256 h bs < votes sha256 h bs = ground (arith, enough, fits, size) in
        let is_h = best_of-plurality sha256 order is_order h bs more in
        let many = best_of-max sha256 order is_order h bs (omega (arith, more)) in
        let genuine : best.1 ≤ votes sha256 h bs =
          subst (λ k. best.1 ≤ votes sha256 k bs) is_h (best_of-le sha256 order is_order bs) in
        let some_found : (count_if is_found bs == 0) ≡ false =
          ground (arith, more, votes_le_found sha256 h bs) in
        rw some_found (
          if_keeps (λ (x : Option Bytes × ConfigDisks). All (Holds h) x.1)
            (leb (length ds / 2 + 1) best.1 && ltb best.1 (length ds) && true) _ _
            (λ _.
              subst (λ k. All (Holds h) (repair sha256 (winner sha256 order is_order bs) k ds))
                (sym is_h) (repaired h _ ds (winner_lem sha256 order is_order h bs more) full a))
            (λ e. unanimous h ds (ground (arith, e, many, genuine, enough, fits, size))))

    -- The key is not found exactly if no disk returns content.
    read_config-none :
        (gate : Bool) (ds : ConfigDisks)
        → ((read_config sha256 order gate ds).0 ≡ none) ↔ All (λ x. read_all x.0 x.1 ≡ none) ds
    unfolding read_config
    read_config-none gate ds = elim (Bool-cases (count_if is_found (blobs ds) == 0)) [
      | inl e ↦ (λ _. (nothing_found ds).0 (ground (arith, e)), λ _. rw e refl)
      | inr e ↦ (
        λ h. absurd (
            if_keeps (λ (x : Option Bytes × ConfigDisks). x.0 ≡ none → ⊥)
              (leb (config_quorum (length ds)) (best_of sha256 order (blobs ds)).1
                && ltb (best_of sha256 order (blobs ds)).1 (length ds)
                && gate)
              _ _ (λ _ q. grind arith) (λ _ q. grind arith) (rw e at h)),
        λ h. absurd (ground (arith, e, (nothing_found ds).1 h)),
      )
    ]

    deleted_reads :
        (ds : ConfigDisks)
        → All (λ x. read_all x.0 x.1 ≡ none) (for_all_disks delete_file ds)
          ↔ All (λ x. read_all x.0 (delete_file x.0 x.1) ≡ none) ds
    deleted_reads [] = (λ h. h, λ h. h)
    deleted_reads (x ∷ ds) =
        (λ h. (h.0, (deleted_reads ds).0 h.1), λ h. (h.0, (deleted_reads ds).1 h.1))

    -- `DeleteConfig` says nothing of its errors, and `ReadConfig` asks for no quorum: after the delete
    -- the key is not found exactly if no disk that answers kept a file, so that one disk which the
    -- delete missed brings the configuration back.
    pub read_config-delete_config :
        (ds : ConfigDisks) (gate : Bool)
        → ((read_config sha256 order gate (delete_config ds)).0 ≡ none)
          ↔ All (λ x. read_all x.0 (delete_file x.0 x.1) ≡ none) ds
    unfolding delete_config
    read_config-delete_config ds gate =
        let read = read_config-none gate (for_all_disks delete_file ds) in
        (λ h. (deleted_reads ds).0 (read.0 h), λ h. read.1 ((deleted_reads ds).1 h))
