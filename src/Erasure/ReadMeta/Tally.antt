-- ===== src/Erasure/ReadMeta/Tally.antt =====
-- internal/erasure/set.go, readMeta: what the tally counts, and which of its entries wins.
use gostore.Base.{
  ℕ, ◌+◌, ◌≤◌, ◌<◌, Text, List, [], ◌∷◌, Bool, false, not, Option, none, some, ltb, ◌==◌, ◌&&◌,
  if◌then◌else◌, text_eq, text_eq_iff, count_if, ◌≡◌, refl, arith, All, ◌⊎◌, inl, inr, sym,
  Bool-cases, subst,
}
use gostore.Erasure.XlMeta.{XlMeta, Digest, content_hash}
use gostore.Erasure.ReadMeta.{Entry, bump, tally_from, better, pick_from}

-- Fewer disks, or as many with no higher a revision.
abbrev pub Below : Entry → Option Entry → Type 0
Below e none = ⊥
Below e (some b) =
    (e.count < b.count) ⊎ (e.count ≡ b.count) × (e.sample.revision ≤ b.sample.revision)

better-keeps : (e e' : Entry) (b : Option Entry) → Below e b → Below e (better b e')
better-keeps e e' none h = absurd h
better-keeps e e' (some b) h = ground arith

better-takes : (e : Entry) (b : Option Entry) → Below e (better b e)
better-takes e none = inr (refl, omega arith)
better-takes e (some b) = ground arith

pick_from-keeps :
    (e : Entry) (b : Option Entry) (es : List Entry) → Below e b → Below e (pick_from b es)
unfolding pick_from
pick_from-keeps e b [] h = h
pick_from-keeps e b (x ∷ es) h = pick_from-keeps e (better b x) es (better-keeps e x b h)

-- The winner is not below any entry: it has the most disks, and of those with as many the highest
-- revision.
pub pick_from_max : (b : Option Entry) (es : List Entry) → All (λ e. Below e (pick_from b es)) es
unfolding pick_from
pick_from_max b [] = tt
pick_from_max b (e ∷ es) =
    (pick_from-keeps e (better b e) es (better-takes e b), pick_from_max (better b e) es)

-- A property of the entries is one of the winner.
pub pick_from-All :
    (P : Entry → Type 0) (b : Option Entry) (es : List Entry) (x : Entry)
    → ((e : Entry) → b ≡ some e → P e)
    → All P es
    → pick_from b es ≡ some x
    → P x
unfolding pick_from
pick_from-All P b [] x pb h w = pb x w
pick_from-All P b (e ∷ es) x pb h w = pick_from-All P (better b e) es x (step b pb) h.1 w
  where
    step :
        (b : Option Entry)
        → ((e : Entry) → b ≡ some e → P e)
        → (y : Entry) → better b e ≡ some y
        → P y
    step none pb y q = subst P (ground arith) h.0
    step (some c) pb y q = elim (Bool-cases (ltb c.count e.count)) [
      | inl f ↦ subst P (ground arith) h.0
      | inr f ↦ elim (Bool-cases (e.count == c.count && ltb c.sample.revision e.sample.revision)) [
        | inl g ↦ subst P (ground arith) h.0
        | inr g ↦ subst P (ground arith) (pb c refl)
      ]
    ]

-- The disks that returned a version with the hash.
abbrev pub has_hash : Digest → Text → Option XlMeta → Bool
has_hash digest h none = false
has_hash digest h (some m) = text_eq (content_hash digest m) h

-- The disks that returned another version.
abbrev pub has_other : Digest → Text → Option XlMeta → Bool
has_other digest h none = false
has_other digest h (some m) = not (text_eq (content_hash digest m) h)

abbrev pub votes : Digest → Text → List (Option XlMeta) → ℕ
votes digest h = count_if (has_hash digest h)

abbrev pub others : Digest → Text → List (Option XlMeta) → ℕ
others digest h = count_if (has_other digest h)

-- The count of the first entry with the hash, and of all of them.
unfoldable pub count_at : Text → List Entry → ℕ
count_at h [] = 0
count_at h (e ∷ es) = if text_eq e.hash h then e.count else count_at h es

unfoldable pub weight : Text → List Entry → ℕ
weight h [] = 0
weight h (e ∷ es) = (if text_eq e.hash h then e.count else 0) + weight h es

count_at-bump :
    (h k : Text) (m : XlMeta) (es : List Entry)
    → count_at h (bump k m es) ≡ count_at h es + (if text_eq k h then 1 else 0)
unfolding count_at bump
count_at-bump h k m [] = ground arith
count_at-bump h k m (e ∷ es) =
    ground
      (arith, count_at-bump h k m es, text_eq_iff e.hash k, text_eq_iff e.hash h, text_eq_iff k h)

weight-bump :
    (h k : Text) (m : XlMeta) (es : List Entry)
    → weight h (bump k m es) ≡ weight h es + (if text_eq k h then 1 else 0)
unfolding weight bump
weight-bump h k m [] = ground arith
weight-bump h k m (e ∷ es) =
    ground
      (arith, weight-bump h k m es, text_eq_iff e.hash k, text_eq_iff e.hash h, text_eq_iff k h)

module _ (digest : Digest) where
  pub count_at-tally_from :
      (h : Text) (es : List Entry) (ms : List (Option XlMeta))
      → count_at h (tally_from digest es ms) ≡ count_at h es + votes digest h ms
  unfolding tally_from
  count_at-tally_from h es [] = omega arith
  count_at-tally_from h es (none ∷ ms) = count_at-tally_from h es ms
  count_at-tally_from h es (some m ∷ ms) = ground (
    arith,
    count_at-tally_from h (bump (content_hash digest m) m es) ms,
    count_at-bump h (content_hash digest m) m es,
  )

  pub weight-tally_from :
      (h : Text) (es : List Entry) (ms : List (Option XlMeta))
      → weight h (tally_from digest es ms) ≡ weight h es + votes digest h ms
  unfolding tally_from
  weight-tally_from h es [] = omega arith
  weight-tally_from h es (none ∷ ms) = weight-tally_from h es ms
  weight-tally_from h es (some m ∷ ms) = ground (
    arith,
    weight-tally_from h (bump (content_hash digest m) m es) ms,
    weight-bump h (content_hash digest m) m es,
  )

  abbrev pub IsGenuine : Entry → Type 0
  IsGenuine e = content_hash digest e.sample ≡ e.hash

  bump-IsGenuine :
      (m : XlMeta) (es : List Entry)
      → All IsGenuine es
      → All IsGenuine (bump (content_hash digest m) m es)
  unfolding bump
  bump-IsGenuine m [] g = (refl, tt)
  bump-IsGenuine m (e ∷ es) g = elim (Bool-cases (text_eq e.hash (content_hash digest m))) [
    | inl f ↦ rw f (sym ((text_eq_iff _ _).0 f), g.1)
    | inr f ↦ rw f (g.0, bump-IsGenuine m es g.1)
  ]

  pub tally_from-IsGenuine :
      (es : List Entry) (ms : List (Option XlMeta))
      → All IsGenuine es
      → All IsGenuine (tally_from digest es ms)
  unfolding tally_from
  tally_from-IsGenuine es [] g = g
  tally_from-IsGenuine es (none ∷ ms) g = tally_from-IsGenuine es ms g
  tally_from-IsGenuine es (some m ∷ ms) g =
      tally_from-IsGenuine (bump (content_hash digest m) m es) ms (bump-IsGenuine m es g)
