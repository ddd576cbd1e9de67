-- ===== src/Erasure/Versions/Worm/Moves.antt =====
-- internal/erasure/versioning.go: the moves of metadata and the writes of the log next to a lock.
use gostore.Base.{
  Text, List, [], ◌∷◌, Bool, true, false, Option, none, some, Assoc, lookup, lookup-delete, ◌==◌,
  text_eq, text_eq_iff, length, ◌≡◌, ◌≢◌, refl, ap, ◌∙◌, arith, Bool-cases, Option-cases, if_keeps,
  option_keeps, subst, All-insert, All-delete, inl, inr,
}
use gostore.Erasure.XlMeta.{XlMeta}
use gostore.Erasure.Versions.{
  Versions, id_of, archive_current, is_current, resolve_version_dir, write_vlog, DeleteRun,
}
use gostore.Erasure.Versions.Stored.{is_current-id_of, view-archive_current}
use gostore.Erasure.Versions.{
  VlogEntry, find_entry, cut_entry, erase, promote, promote_head, remove_version, last, is_latest,
  Place, current, nowhere, archive, LogWrite,
}
use gostore.Erasure.Versions.Worm.{IsFiled, Protects}

filed-lookup :
    (k : Text) (m : XlMeta) (archived : Assoc XlMeta)
    → IsFiled archived
    → lookup k archived ≡ some m
    → id_of m ≡ k
unfolding lookup
filed-lookup k m [] h q = absurd (grind arith)
filed-lookup k m ((j, x) ∷ xs) h q = elim (Bool-cases (text_eq j k)) [
  | inl f ↦ subst (λ y. id_of y ≡ k) (ground arith) (h.0 ∙ (text_eq_iff j k).0 f)
  | inr f ↦ filed-lookup k m xs h.1 (ground arith)
]

module _ (id : Text) (named : id ≢ []) (e : VlogEntry) (o : XlMeta) where
  pub logged :
      (w : LogWrite) (log : List VlogEntry) (v : Versions)
      → find_entry log id ≡ some e
      → Protects id e o v
      → Protects id e o (write_vlog w log v).0
  logged w log v found p = elim (Bool-cases w.seen) [
    | inl f ↦ rw f record { entry = found; kept = p.kept; filed = p.filed }
    | inr f ↦ rw f record { entry = p.entry; kept = p.kept; filed = p.filed }
  ]

  archived-IsFiled : (v : Versions) → IsFiled v.archived → IsFiled (archive_current v).archived
  unfolding archive_current
  archived-IsFiled v f = elim (Option-cases v.live) [
    | inl q ↦ rw q f
    | inr (m, q) ↦ rw q (All-insert (λ x. id_of x.1 ≡ x.0) (id_of m) m v.archived refl f)
  ]

  archive_current-vlog : (v : Versions) → (archive_current v).vlog ≡ v.vlog
  unfolding archive_current
  archive_current-vlog v = elim (Option-cases v.live) [ inl q ↦ rw q refl | inr (m, q) ↦ rw q refl ]

  pub archived-Protects : (v : Versions) → Protects id e o v → Protects id e o (archive_current v)
  archived-Protects v p = record {
    entry = ap (λ log. find_entry log id) (archive_current-vlog v) ∙ p.entry;
    kept = view-archive_current v id named ∙ p.kept;
    filed = archived-IsFiled v p.filed;
  }

  -- A place that does not hold what is read under the id.
  Spares : Versions → Place → Type 0
  Spares v current = is_current v.live id ≡ false
  Spares v nowhere = Unit
  Spares v (archive k) = k ≢ id

  other_current :
      (v : Versions) (k : Text)
      → k ≢ id
      → k ≢ []
      → is_current v.live k ≡ true
      → is_current v.live id ≡ false
  other_current v k other some_id f = elim (Option-cases v.live) [
    | inl q ↦ rw q refl
    | inr (m, q) ↦ ground (
      arith,
      q,
      f,
      is_current-id_of m k some_id,
      is_current-id_of m id named,
      text_eq_iff (id_of m) k,
      text_eq_iff (id_of m) id,
    )
  ]

  resolve-Spares : (v : Versions) (k : Text) → k ≢ id → k ≢ [] → Spares v (resolve_version_dir v k)
  unfolding resolve_version_dir Spares
  resolve-Spares v [] other some_id = absurd (some_id refl)
  resolve-Spares v (c ∷ k) other some_id =
      if_keeps (Spares v) (is_current v.live (c ∷ k)) _ _ (other_current v (c ∷ k) other some_id)
        λ _. option_keeps (Spares v) (lookup (c ∷ k) v.archived) _ _ tt λ m q. other

  erase-kept :
      (deletes : Bool) (at : Place) (v : Versions)
      → Spares v at
      → Protects id e o v
      → Protects id e o (erase deletes at v)
  unfolding erase Spares
  erase-kept deletes nowhere v spared p = p
  erase-kept deletes current v spared p =
      if_keeps (Protects id e o) deletes _ _
        (λ _. record { entry = p.entry; kept = ground (arith, p.kept, spared); filed = p.filed })
        (λ _. p)
  erase-kept deletes (archive k) v spared p =
      if_keeps (Protects id e o) deletes _ _
        (λ _. record {
          entry = p.entry;
          kept = ground (arith, p.kept, lookup-delete k id v.archived, text_eq_iff k id);
          filed = All-delete _ k v.archived p.filed;
        })
        (λ _. p)

  promoted-kept :
      (j : Text) (v : Versions) → v.live ≡ none → Protects id e o v → Protects id e o (promote j v)
  unfolding promote
  promoted-kept j v nothing p = option_keeps (Protects id e o) (lookup j v.archived) _ _ p λ m q.
      let own = filed-lookup j m v.archived p.filed q in
      record {
        entry = p.entry;
        kept = ground (
          arith,
          p.kept,
          nothing,
          q,
          own,
          is_current-id_of m id named,
          lookup-delete j id v.archived,
          text_eq_iff j id,
        );
        filed = All-delete _ j v.archived p.filed;
      }

  head-kept :
      (promotes : Bool) (head : Option VlogEntry) (v : Versions)
      → Protects id e o v
      → Protects id e o (promote_head promotes head v)
  unfolding promote_head
  head-kept promotes none v p = p
  head-kept promotes (some x) v p =
      if_keeps (Protects id e o) x.delete_marker _ _ (λ _. p)
        λ _. elim (Option-cases v.live) [
          | inl q ↦
              rw q
                (if_keeps (Protects id e o) promotes _ _ (λ _. promoted-kept x.id v q p) (λ _. p))
          | inr (m, q) ↦ rw q p
        ]

  cut-found :
      (log : List VlogEntry) (k : Text)
      → k ≢ id
      → find_entry (cut_entry log k) id ≡ find_entry log id
  unfolding find_entry cut_entry
  cut-found [] k ne = refl
  cut-found (x ∷ xs) k ne =
      ground (arith, cut-found xs k ne, text_eq_iff x.id k, text_eq_iff x.id id)

  found_some : (log : List VlogEntry) → find_entry log id ≡ some e → (length log == 0) ≡ false
  unfolding find_entry
  found_some [] q = absurd (grind arith)
  found_some (x ∷ xs) q = ground arith

  pub removed-kept :
      (r : DeleteRun) (k : Text) (v : Versions)
      → k ≢ id
      → k ≢ []
      → Protects id e o v
      → Protects id e o (remove_version r k v).1
  unfolding remove_version
  removed-kept r k v other some_id p =
      let at = resolve_version_dir v k in
      let erased = erase-kept r.deletes at v (resolve-Spares v k other some_id) p in
      let log = cut_entry v.vlog k in
      let found : find_entry log id ≡ some e = cut-found v.vlog k other ∙ p.entry in
      rw (found_some log found) (
        logged r.log log _ found (
          if_keeps (Protects id e o) (is_latest v.vlog k) _ _
            (λ _. head-kept r.promotes (last log) (erase r.deletes at v) erased) (λ _. erased)))
