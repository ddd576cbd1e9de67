-- ===== src/Erasure/Config/Plurality.antt =====
-- internal/erasure/config.go, ReadConfig: which content wins.
use gostore.Base.{
  ℕ, ◌+◌, ◌≤◌, ◌<◌, ◌≡◌, refl, arith, sym, ◌∙◌, ap, subst, Text, List, [], ◌∷◌, Bool, false, not,
  Option, none, some, Assoc, lookup, insert, ltb, leb, ◌==◌, ◌&&◌, if_keeps, if◌then◌else◌, text_eq,
  text_eq_iff, text_eq_refl, length, count_if, Bytes, All, Any, All-map, here, there, All-insert,
  lookup-insert, Bool-cases, inl, inr, ◌⊎◌,
}
use gostore.Erasure.Config.{
  count_of, sample_of, is_found, best_from, tally_from, samples_from, best_of, blobs, read_config,
  ConfigDisks, config_quorum,
}

-- An order in which a map is read out: it loses no entry and adds none.
pub record IsOrder (order : Assoc ℕ → Assoc ℕ) : Type 1 where
  pub keeps : (P : Text × ℕ → Type 0) (t : Assoc ℕ) → All P t → All P (order t)
  pub covers : (P : Text × ℕ → Type 0) (t : Assoc ℕ) → Any P t → Any P (order t)

best_from-keeps : (n : ℕ) (best : Text × ℕ) (t : Assoc ℕ) → n ≤ best.1 → n ≤ (best_from best t).1
unfolding best_from
best_from-keeps n best [] h = h
best_from-keeps n best (e ∷ t) h =
    best_from-keeps n (if ltb best.1 e.1 then e else best) t (ground arith)

best_from-max :
    (n : ℕ) (best : Text × ℕ) {t : Assoc ℕ} → Any (λ e. n ≤ e.1) t → n ≤ (best_from best t).1
unfolding best_from
best_from-max n best (here {x = x} {xs = t} h) =
    best_from-keeps n (if ltb best.1 x.1 then x else best) t (ground arith)
best_from-max n best (there {x = x} h) = best_from-max n (if ltb best.1 x.1 then x else best) h

best_from-All :
    (P : Text × ℕ → Type 0) (best : Text × ℕ) (t : Assoc ℕ)
    → P best
    → All P t
    → P (best_from best t)
unfolding best_from
best_from-All P best [] p h = p
best_from-All P best (e ∷ t) p h = elim (Bool-cases (ltb best.1 e.1)) [
  | inl f ↦ rw f (best_from-All P e t h.0 h.1)
  | inr f ↦ rw f (best_from-All P best t p h.1)
]

count_of-le :
    (n : Text → ℕ) (h : Text) (t : Assoc ℕ) → All (λ e. e.1 ≤ n e.0) t → count_of h t ≤ n h
unfolding lookup
count_of-le n h [] a = omega arith
count_of-le n h ((k, c) ∷ t) a = ground (arith, text_eq_iff k h, count_of-le n h t a.1)

count_of-Any : (q : ℕ) (h : Text) (t : Assoc ℕ) → 0 < q → q ≤ count_of h t → Any (λ e. q ≤ e.1) t
unfolding lookup
count_of-Any q h [] pos le = absurd (omega (arith, pos, le))
count_of-Any q h ((k, c) ∷ t) pos le = elim (Bool-cases (text_eq k h)) [
  | inl f ↦ here (ground arith)
  | inr f ↦ there (count_of-Any q h t pos (ground arith))
]

some_inj : {x y : Bytes} → some x ≡ some y → x ≡ y
some_inj e = grind arith

module _ (sha256 : Bytes → Text) where
  -- The disks whose content has the hash, and those that return other content.
  abbrev pub has_hash : Text → Option Bytes → Bool
  has_hash h none = false
  has_hash h (some b) = text_eq (sha256 b) h

  abbrev pub has_other : Text → Option Bytes → Bool
  has_other h none = false
  has_other h (some b) = not (text_eq (sha256 b) h)

  abbrev pub votes : Text → List (Option Bytes) → ℕ
  votes h = count_if (has_hash h)

  abbrev pub others : Text → List (Option Bytes) → ℕ
  others h = count_if (has_other h)

  votes_le_others :
      (h k : Text) (bs : List (Option Bytes)) → text_eq k h ≡ false → votes k bs ≤ others h bs
  votes_le_others h k [] ne = omega arith
  votes_le_others h k (none ∷ bs) ne = votes_le_others h k bs ne
  votes_le_others h k (some b ∷ bs) ne = ground (
    arith,
    votes_le_others h k bs ne,
    text_eq_iff k h,
    text_eq_iff (sha256 b) k,
    text_eq_iff (sha256 b) h,
  )

  pub votes_le_found : (h : Text) (bs : List (Option Bytes)) → votes h bs ≤ count_if is_found bs
  votes_le_found h [] = omega arith
  votes_le_found h (none ∷ bs) = votes_le_found h bs
  votes_le_found h (some b ∷ bs) = ground (arith, votes_le_found h bs)

  -- The tally counts every disk with a hash.
  count_of-tally_from :
      (h : Text) (t : Assoc ℕ) (bs : List (Option Bytes))
      → count_of h (tally_from sha256 t bs) ≡ count_of h t + votes h bs
  unfolding tally_from
  count_of-tally_from h t [] = omega arith
  count_of-tally_from h t (none ∷ bs) = count_of-tally_from h t bs
  count_of-tally_from h t (some b ∷ bs) = ground (
    arith,
    count_of-tally_from h (insert (sha256 b) (count_of (sha256 b) t + 1) t) bs,
    lookup-insert (sha256 b) h (count_of (sha256 b) t + 1) t,
    text_eq_iff (sha256 b) h,
  )

  -- No entry of it counts more than the disks with its hash, over the `n` of before.
  tally_from-le :
      (n : Text → ℕ) (t : Assoc ℕ) (bs : List (Option Bytes))
      → All (λ e. e.1 ≤ n e.0) t
      → All (λ e. e.1 ≤ n e.0 + votes e.0 bs) (tally_from sha256 t bs)
  unfolding tally_from
  tally_from-le n t [] a = All-map (λ e h. omega (arith, h)) t a
  tally_from-le n t (none ∷ bs) a = tally_from-le n t bs a
  tally_from-le n t (some b ∷ bs) a =
      let k = sha256 b in
      let n' : Text → ℕ = λ h. n h + (if text_eq k h then 1 else 0) in
      let t' = insert k (count_of k t + 1) t in
      All-map (λ e h. ground (arith, h)) (tally_from sha256 t' bs)
        (tally_from-le n' t' bs (
          All-insert (λ e. e.1 ≤ n' e.0) k (count_of k t + 1) t
            (ground (arith, count_of-le n k t a, text_eq_refl k))
            (All-map (λ e h. omega (arith, h)) t a)))

  -- The sample of a hash has the hash.
  samples_from-lem :
      (h : Text) (s : Assoc Bytes) (bs : List (Option Bytes))
      → ((b : Bytes) → lookup h s ≡ some b → sha256 b ≡ h)
      → (b : Bytes) → lookup h (samples_from sha256 s bs) ≡ some b
      → sha256 b ≡ h
  unfolding samples_from
  samples_from-lem h s [] good = good
  samples_from-lem h s (none ∷ bs) good = samples_from-lem h s bs good
  samples_from-lem h s (some b ∷ bs) good = samples_from-lem h (insert (sha256 b) b s) bs (λ c e.
      elim (Bool-cases (text_eq (sha256 b) h)) [
        | inl f ↦
            let is_new : lookup h (insert (sha256 b) b s) ≡ some b =
              lookup-insert (sha256 b) h b s ∙ rw f refl in
            subst (λ x. sha256 x ≡ h) (some_inj (sym is_new ∙ e)) ((text_eq_iff (sha256 b) h).0 f)
        | inr f ↦ good c (ground (arith, e, lookup-insert (sha256 b) h b s))
      ])

  samples_from-has :
      (h : Text) (s : Assoc Bytes) (bs : List (Option Bytes))
      → (0 < votes h bs) ⊎ ((b : Bytes) × (lookup h s ≡ some b))
      → (b : Bytes) × (lookup h (samples_from sha256 s bs) ≡ some b)
  unfolding samples_from
  samples_from-has h s [] (inl h0) = absurd (omega (arith, h0))
  samples_from-has h s [] (inr x) = x
  samples_from-has h s (none ∷ bs) x = samples_from-has h s bs x
  samples_from-has h s (some b ∷ bs) x =
      samples_from-has h (insert (sha256 b) b s) bs (elim (Bool-cases (text_eq (sha256 b) h)) [
        | inl f ↦ inr (b, lookup-insert (sha256 b) h b s ∙ rw f refl)
        | inr f ↦ elim x [
          | inl v ↦ inl (ground (arith, v))
          | inr (c, e) ↦ inr (c, lookup-insert (sha256 b) h b s ∙ rw f e)
        ]
      ])

  module _ (order : Assoc ℕ → Assoc ℕ) (is_order : IsOrder order) where
    pub best_of-le :
        (bs : List (Option Bytes))
        → (best_of sha256 order bs).1 ≤ votes (best_of sha256 order bs).0 bs
    unfolding best_of
    best_of-le bs =
        best_from-All (λ e. e.1 ≤ votes e.0 bs) ([], 0) (order (tally_from sha256 [] bs))
          (omega arith)
          (is_order.keeps (λ e. e.1 ≤ votes e.0 bs) (tally_from sha256 [] bs)
            (All-map (λ e h. omega (arith, h)) (tally_from sha256 [] bs)
              (tally_from-le (λ h. 0) [] bs tt)))

    pub best_of-max :
        (h : Text) (bs : List (Option Bytes))
        → 0 < votes h bs
        → votes h bs ≤ (best_of sha256 order bs).1
    unfolding best_of lookup
    best_of-max h bs pos =
        best_from-max (votes h bs) ([], 0)
          (is_order.covers (λ e. votes h bs ≤ e.1) (tally_from sha256 [] bs)
            (count_of-Any (votes h bs) h (tally_from sha256 [] bs) pos
              (omega (arith, count_of-tally_from h [] bs))))

    -- The content that more disks have than have any other content wins.
    pub best_of-plurality :
        (h : Text) (bs : List (Option Bytes))
        → others h bs < votes h bs
        → (best_of sha256 order bs).0 ≡ h
    best_of-plurality h bs more =
        let best = best_of sha256 order bs in
        elim (Bool-cases (text_eq best.0 h)) [
          | inl f ↦ (text_eq_iff best.0 h).0 f
          | inr f ↦ absurd (
              omega (
                arith,
                more,
                best_of-le bs,
                best_of-max h bs (omega (arith, more)),
                votes_le_others h best.0 bs f,
              ))
        ]

    -- Its sample, which `ReadConfig` returns.
    abbrev pub winner : List (Option Bytes) → Bytes
    winner bs = sample_of (best_of sha256 order bs).0 (samples_from sha256 [] bs)

    pub winner_lem :
        (h : Text) (bs : List (Option Bytes)) → others h bs < votes h bs → sha256 (winner bs) ≡ h
    unfolding lookup
    winner_lem h bs more =
        let (b, e) = samples_from-has h [] bs (inl (omega (arith, more))) in
        let same : winner bs ≡ b =
          ap (λ k. sample_of k (samples_from sha256 [] bs)) (best_of-plurality h bs more)
          ∙ ap (λ (o : Option Bytes). elim o [ none ↦ [] | some b ↦ b ]) e in
        ap sha256 same ∙ samples_from-lem h [] bs (λ c f. absurd (grind arith)) b e

    -- `ReadConfig` returns the content that more of the disks that answer hold than hold any other
    -- content.
    pub read_config-plurality :
        (gate : Bool) (h : Text) (ds : ConfigDisks)
        → others h (blobs ds) < votes h (blobs ds)
        → (w : Bytes) × ((read_config sha256 order gate ds).0 ≡ some w) × (sha256 w ≡ h)
    unfolding read_config
    read_config-plurality gate h ds more =
        let some_found : (count_if is_found (blobs ds) == 0) ≡ false =
          ground (arith, more, votes_le_found h (blobs ds)) in
        let best = best_of sha256 order (blobs ds) in
        (
          winner (blobs ds),
          rw some_found (
              if_keeps (λ (x : Option Bytes × ConfigDisks). x.0 ≡ some (winner (blobs ds)))
                (leb (config_quorum (length ds)) best.1 && ltb best.1 (length ds) && gate) _ _
                (λ _. refl) (λ _. refl)),
          winner_lem h (blobs ds) more,
        )
