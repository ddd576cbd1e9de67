-- ===== src/Erasure/Mrf/Pending.antt =====
-- internal/erasure/mrf.go: what is in the queue after calls on it.
use gostore.Base.{
  ℕ, ◌≤◌, Text, List, [], ◌∷◌, ◌++◌, Bool, true, false, none, some, lookup, has, length, ltb, ◌||◌,
  text_eq, text_eq_iff, lookup-insert, lookup-delete, length-insert, ◌≡◌, ◌≢◌, sym, arith, if_keeps,
  option_keeps, Bool-cases, text_eq_refl, text_eq-ne, subst, inl, inr, Any, here, there,
}
use gostore.Erasure.Mrf.{MrfQueue, mrf_max_entries, add, done, split_id, drain_one, drain}

-- Other objects may come and go.
add-lookup :
    (q : MrfQueue) (now seen : ℕ) (bucket key id : Text)
    → lookup id q.pending ≡ some seen
    → lookup id (add q now bucket key).pending ≡ some seen
unfolding add
add-lookup q now seen bucket key id h = ground (
  arith,
  h,
  lookup-insert (bucket ++ (b'/' ∷ key)) id now q.pending,
  text_eq_iff (bucket ++ (b'/' ∷ key)) id,
)

done-lookup :
    (q : MrfQueue) (seen : ℕ) (other id : Text)
    → other ≢ id
    → lookup id q.pending ≡ some seen
    → lookup id (done q other).pending ≡ some seen
unfolding done
done-lookup q seen other id ne h =
    ground (arith, h, lookup-delete other id q.pending, text_eq_iff other id)

-- `add` keeps the queue within its bound and every entry with the time it was first seen, and
-- afterwards the object is in the queue, unless that was full without it.
pub add_lem :
    (q : MrfQueue) (now : ℕ) (bucket key : Text)
    → length q.pending ≤ mrf_max_entries
    → (length (add q now bucket key).pending ≤ mrf_max_entries)
      × ((id : Text) (seen : ℕ)
          → lookup id q.pending ≡ some seen
          → lookup id (add q now bucket key).pending ≡ some seen)
      × (has (bucket ++ (b'/' ∷ key)) (add q now bucket key).pending
          ≡ (has (bucket ++ (b'/' ∷ key)) q.pending || ltb (length q.pending) mrf_max_entries))
unfolding add
add_lem q now bucket key fits =
    let id = bucket ++ (b'/' ∷ key) in
    (
      ground (arith, fits, length-insert id now q.pending),
      λ other seen h. add-lookup q now seen bucket key other h,
      ground (arith, lookup-insert id id now q.pending, text_eq_refl id),
    )

abbrev Kept : Text → ℕ → MrfQueue → Type 0
Kept id seen q = lookup id q.pending ≡ some seen

abbrev Gone : Text → MrfQueue → Type 0
Gone id q = lookup id q.pending ≡ none

done-Gone : (q : MrfQueue) (other id : Text) → Gone id q → Gone id (done q other)
unfolding done
done-Gone q other id h = ground (arith, h, lookup-delete other id q.pending)

done_self : (q : MrfQueue) (id : Text) → Gone id (done q id)
unfolding done
done_self q id = ground (arith, lookup-delete id id q.pending, text_eq_refl id)

module _ (heals : Text → Text → Bool) where
  drain_one-Gone : (q : MrfQueue) (other id : Text) → Gone id q → Gone id (drain_one heals q other)
  unfolding drain_one
  drain_one-Gone q other id h =
      option_keeps (Gone id) (split_id other) _ _ (done-Gone q other id h) λ x _.
        if_keeps (Gone id) (text_eq x.0 []) _ _ (λ _. done-Gone q other id h)
          λ _. if_keeps (Gone id) (heals x.0 x.1) _ _ (λ _. done-Gone q other id h) (λ _. h)

  drain-Gone :
      (q : MrfQueue) (ids : List Text) (id : Text) → Gone id q → Gone id (drain heals q ids)
  unfolding drain
  drain-Gone q [] id h = h
  drain-Gone q (x ∷ xs) id h = drain-Gone (drain_one heals q x) xs id (drain_one-Gone q x id h)

  module _ (id bucket key : Text) (names : split_id id ≡ some (bucket, key))
      (named : bucket ≢ []) where
    self-Kept :
        (q : MrfQueue) (seen : ℕ)
        → heals bucket key ≡ false
        → Kept id seen q
        → Kept id seen (drain_one heals q id)
    unfolding drain_one
    self-Kept q seen sick h = rw (names, drain_one) (rw (sick, text_eq-ne bucket [] named) h)

    self-Gone : (q : MrfQueue) → heals bucket key ≡ true → Gone id (drain_one heals q id)
    unfolding drain_one
    self-Gone q well =
        rw (names, drain_one) (rw (well, text_eq-ne bucket [] named) (done_self q id))

    other-Kept :
        (q : MrfQueue) (seen : ℕ) (other : Text)
        → other ≢ id
        → Kept id seen q
        → Kept id seen (drain_one heals q other)
    unfolding drain_one
    other-Kept q seen other ne h =
        option_keeps (Kept id seen) (split_id other) _ _ (done-lookup q seen other id ne h) λ x _.
          if_keeps (Kept id seen) (text_eq x.0 []) _ _ (λ _. done-lookup q seen other id ne h)
            λ _.
              if_keeps (Kept id seen) (heals x.0 x.1) _ _ (λ _. done-lookup q seen other id ne h)
                (λ _. h)

    -- A pass over the queue keeps an object that is not healed, with the time it was first seen, and
    -- drops one that is healed if the pass comes to it. The id names a bucket and a key.
    pub drain_lem :
        (q : MrfQueue) (ids : List Text) (seen : ℕ)
        → Kept id seen q
        → (heals bucket key ≡ false → Kept id seen (drain heals q ids))
          × (heals bucket key ≡ true → Any (λ x. x ≡ id) ids → Gone id (drain heals q ids))
    unfolding drain
    drain_lem q ids seen h = (λ sick. keeps q ids h sick, λ well at. drops q well at)
      where
        keeps :
            (q : MrfQueue) (ids : List Text)
            → Kept id seen q
            → heals bucket key ≡ false
            → Kept id seen (drain heals q ids)
        keeps q [] h sick = h
        keeps q (x ∷ xs) h sick =
            keeps (drain_one heals q x) xs
              (elim (Bool-cases (text_eq x id)) [
                | inl f ↦
                    subst (λ y. Kept id seen (drain_one heals q y)) (sym ((text_eq_iff x id).0 f))
                      (self-Kept q seen sick h)
                | inr f ↦
                    other-Kept q seen x (λ e. absurd (ground (arith, f, e, text_eq_iff x id))) h
              ])
              sick

        drops :
            (q : MrfQueue) {ids : List Text}
            → heals bucket key ≡ true
            → Any (λ x. x ≡ id) ids
            → Gone id (drain heals q ids)
        drops q well (here {x = x} {xs = xs} e) =
            drain-Gone (drain_one heals q x) xs id
              (subst (λ y. Gone id (drain_one heals q y)) (sym e) (self-Gone q well))
        drops q well (there {x = x} at) = drops (drain_one heals q x) well at
