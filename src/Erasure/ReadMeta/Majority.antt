-- ===== src/Erasure/ReadMeta/Majority.antt =====
-- internal/erasure/set.go, readMeta: the disks behind the version that is returned.
use gostore.Base.{
  ℕ, zero, suc, ◌≤◌, ◌<◌, Text, List, [], ◌∷◌, false, Option, none, some, leb, text_eq, text_eq_iff,
  text_eq_refl, take, ◌≡◌, refl, arith, All, Any, All-and, All-map, here, there, inl, inr, ◌∙◌,
  Bool-cases, Option-cases, subst,
}
use gostore.Erasure.XlMeta.{XlMeta, Digest, content_hash}
use gostore.Erasure.ReadMeta.{
  Entry, found, tally_from, decide, read_meta, best_count, quorum_winner, answer,
}
use gostore.Erasure.ReadMeta.Tally.{
  Below, pick_from_max, pick_from-All, votes, others, count_at, weight, count_at-tally_from,
  weight-tally_from, IsGenuine, tally_from-IsGenuine,
}

-- An order in which a map is read out: it loses no entry and adds none.
pub record IsOrder (order : List Entry → List Entry) : Type 1 where
  pub keeps : (P : Entry → Type 0) (es : List Entry) → All P es → All P (order es)
  pub covers : (P : Entry → Type 0) (es : List Entry) → Any P es → Any P (order es)

-- An entry counts no more disks than there are for its hash.
counts_weighed : (es : List Entry) → All (λ e. e.count ≤ weight e.hash es) es
unfolding weight
counts_weighed [] = tt
counts_weighed (x ∷ xs) = (
  rw (text_eq_refl x.hash) (omega arith),
  All-map (λ e h. omega (arith, h)) xs (counts_weighed xs),
)

-- The entry that `count_at` reads.
entry_at :
    (q : ℕ) (h : Text) (es : List Entry) → 0 < q → q ≤ count_at h es → Any (λ e. q ≤ e.count) es
unfolding count_at
entry_at q h [] pos le = absurd (omega (arith, pos, le))
entry_at q h (e ∷ es) pos le = elim (Bool-cases (text_eq e.hash h)) [
  | inl f ↦ here (ground arith)
  | inr f ↦ there (entry_at q h es pos (ground arith))
]

-- The winner counts at least as many disks as any entry.
winner_count :
    (q : ℕ) (best : Option Entry) {es : List Entry}
    → Any (λ e. q ≤ e.count) es
    → All (λ e. Below e best) es
    → q ≤ best_count best
winner_count q none (here h) below = absurd below.0
winner_count q (some b) (here h) below = ground arith
winner_count q best (there h) below = winner_count q best h below.1

winner_sample : (q : ℕ) (e : Entry) (m : XlMeta) → quorum_winner q (some e) ≡ some m → e.sample ≡ m
unfolding quorum_winner
winner_sample q e m w = elim (Bool-cases (leb q e.count)) [
  | inl f ↦ grind arith
  | inr f ↦ absurd (grind arith)
]

has_winner :
    (q : ℕ) (best : Option Entry)
    → 0 < q
    → q ≤ best_count best
    → (m : XlMeta) × (quorum_winner q best ≡ some m)
unfolding quorum_winner
has_winner q none pos le = absurd (omega (arith, pos, le))
has_winner q (some e) pos le = (e.sample, ground arith)

answer-first :
    (a b : Option XlMeta) (have : ℕ) (m : XlMeta) → a ≡ some m → answer a b have ≡ found m
unfolding answer
answer-first none b have m e = absurd (grind arith)
answer-first (some x) b have m e = grind arith

answer-second :
    (a b : Option XlMeta) (have : ℕ) (m : XlMeta)
    → a ≡ none
    → b ≡ some m
    → answer a b have ≡ found m
unfolding answer
answer-second (some x) b have m e f = absurd (grind arith)
answer-second none none have m e f = absurd (grind arith)
answer-second none (some x) have m e f = grind arith

module _ (digest : Digest) where
  -- A disk with one hash has another one than a different hash.
  votes_le_others :
      (h k : Text) (ms : List (Option XlMeta))
      → text_eq k h ≡ false
      → votes digest k ms ≤ others digest h ms
  votes_le_others h k [] ne = omega arith
  votes_le_others h k (none ∷ ms) ne = votes_le_others h k ms ne
  votes_le_others h k (some m ∷ ms) ne = ground (
    arith,
    votes_le_others h k ms ne,
    text_eq_iff k h,
    text_eq_iff (content_hash digest m) k,
    text_eq_iff (content_hash digest m) h,
  )

  others-take :
      (q : ℕ) (h : Text) (ms : List (Option XlMeta))
      → others digest h (take q ms) ≤ others digest h ms
  others-take zero h ms = omega arith
  others-take (suc q) h [] = omega arith
  others-take (suc q) h (none ∷ ms) = others-take q h ms
  others-take (suc q) h (some m ∷ ms) = ground (arith, others-take q h ms)

  -- What is known of an entry of the tally: it counts disks that did return its version.
  abbrev IsCounted : List (Option XlMeta) → Entry → Type 0
  IsCounted ms e = (e.count ≤ votes digest e.hash ms) × IsGenuine digest e

  tally-IsCounted : (ms : List (Option XlMeta)) → All (IsCounted ms) (tally_from digest [] ms)
  unfolding weight
  tally-IsCounted ms =
      All-map (λ e h. (omega (arith, h.0, weight-tally_from digest e.hash [] ms), h.1))
        (tally_from digest [] ms)
        (All-and _ _ (tally_from digest [] ms) (counts_weighed _)
          (tally_from-IsGenuine digest [] ms tt))

  -- A winner with the quorum has the hash that all but fewer disks than the quorum return.
  counted_winner :
      (q : ℕ) (h : Text) (ms : List (Option XlMeta)) (best : Option Entry) (m : XlMeta)
      → others digest h ms < q
      → ((e : Entry) → best ≡ some e → IsCounted ms e)
      → quorum_winner q best ≡ some m
      → content_hash digest m ≡ h
  unfolding quorum_winner
  counted_winner q h ms none m few counted w = absurd (grind arith)
  counted_winner q h ms (some e) m few counted w = elim (Bool-cases (text_eq e.hash h)) [
    | inl f ↦
        subst (λ x. content_hash digest x ≡ h) (winner_sample q e m w)
          ((counted e refl).1 ∙ (text_eq_iff e.hash h).0 f)
    | inr f ↦ absurd (ground (arith, votes_le_others h e.hash ms f, (counted e refl).0))
  ]

  module _ (order : List Entry → List Entry) (is_order : IsOrder order) where
    -- The winner of a round, where there is one, was returned by as many disks as it counts.
    decide-IsCounted :
        (ms : List (Option XlMeta)) (e : Entry)
        → (decide digest order ms).0 ≡ some e
        → IsCounted ms e
    unfolding decide
    decide-IsCounted ms e w =
        pick_from-All (IsCounted ms) none (order (tally_from digest [] ms)) e
          (λ x p. absurd (grind arith)) (is_order.keeps (IsCounted ms) _ (tally-IsCounted ms)) w

    -- A hash that a quorum of disks returned gives the winner that many.
    decide_count :
        (q : ℕ) (h : Text) (ms : List (Option XlMeta))
        → 0 < q
        → q ≤ votes digest h ms
        → q ≤ best_count (decide digest order ms).0
    unfolding decide count_at
    decide_count q h ms pos le =
        winner_count q _
          (is_order.covers (λ e. q ≤ e.count) _
            (entry_at q h (tally_from digest [] ms) pos
              (omega (arith, le, count_at-tally_from digest h [] ms))))
          (pick_from_max none (order (tally_from digest [] ms)))

    winner_hash :
        (q : ℕ) (h : Text) (ms : List (Option XlMeta)) (m : XlMeta)
        → others digest h ms < q
        → quorum_winner q (decide digest order ms).0 ≡ some m
        → content_hash digest m ≡ h
    winner_hash q h ms m few = counted_winner q h ms _ m few (decide-IsCounted ms)

    -- If at least a read quorum of disks, and at least one, return metadata with one hash, and
    -- fewer disks than that quorum return other metadata, then `read_meta` returns metadata with
    -- that hash: it neither fails nor answers with another version. The order in which a map is
    -- read out may be any that loses no entry and adds none.
    pub read_meta_majority :
        (q : ℕ) (h : Text) (reads : List (Option XlMeta))
        → 0 < q
        → q ≤ votes digest h reads
        → others digest h reads < q
        → (m : XlMeta) × (read_meta digest order q reads ≡ found m) × (content_hash digest m ≡ h)
    unfolding read_meta
    read_meta_majority q h reads pos enough few =
        elim (Option-cases (quorum_winner q (decide digest order (take q reads)).0)) [
          | inr (m, e) ↦ (
            m,
            answer-first _ _ _ m e,
            winner_hash q h (take q reads) m (omega (arith, few, others-take q h reads)) e,
          )
          | inl e ↦
              (let w =
                  has_winner q (decide digest order reads).0 pos
                    (decide_count q h reads pos enough) in
                (w.0, answer-second _ _ _ w.0 e w.1, winner_hash q h reads w.0 few w.1))
        ]
