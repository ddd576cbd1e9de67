-- ===== src/Erasure/Versions/Worm/Lock.antt =====
-- internal/erasure/versioning.go: sequences of calls on a versioned key that has a locked version.
use gostore.Base.{
  Text, List, [], ◌∷◌, true, false, not, none, some, text_eq, text_eq_iff, ◌≡◌, ◌≢◌, sym, ◌∙◌,
  arith, Bool-cases, if_keeps, option_keeps, All, inl, inr, ◌⊎◌,
}
use gostore.Erasure.XlMeta.{XlMeta}
use gostore.Erasure.Names.{valid_object_name}
use gostore.Erasure.Versions.{
  Versions, VersionResult, PutOptions, PutRun, with_version, store_version, put_versioned,
  archive_current, DeleteOptions, DeleteRun, add_marker, delete_versioned,
}
use gostore.Erasure.Versions.Stored.{stored, stored-view}
use gostore.Erasure.Versions.{VlogEntry, find_entry, lock_blocks}
use gostore.Erasure.Versions.Stored.{find_entry-append}
use gostore.Erasure.Versions.Keep.{archived-view}
use gostore.Erasure.Versions.Worm.{
  Call, put, remove, serve, serve_all, IsUnderLock, IsFiled, Protects,
}
use gostore.Erasure.Versions.Worm.Moves.{logged, archived-Protects, removed-kept}

module _ (id : Text) (named : id ≢ []) (e : VlogEntry) (o : XlMeta) where
  marked-kept :
      (r : DeleteRun) (v : Versions)
      → r.fresh ≢ id
      → Protects id e o v
      → Protects id e o (add_marker r r.fresh v.vlog (archive_current v)).1
  unfolding add_marker
  marked-kept r v other p =
      logged id named e o r.log _ (archive_current v)
        (find_entry-append v.vlog _ id other ∙ p.entry) (archived-Protects id named e o v p)

  abbrev Keeps : VersionResult × Versions → Type 0
  Keeps x = Protects id e o x.1

  free_and_locked :
      (r : DeleteRun) (opts : DeleteOptions) (e' : VlogEntry) (log : List VlogEntry)
      → find_entry log opts.version_id ≡ some e'
      → lock_blocks e' r.now opts.bypass_governance ≡ false
      → find_entry log id ≡ some e
      → lock_blocks e r.now opts.bypass_governance ≡ true
      → opts.version_id ≡ id
      → ⊥
  free_and_locked r opts e' log q free found locked same = absurd (cc)

  delete-kept :
      (r : DeleteRun) (opts : DeleteOptions) (v : Versions)
      → IsUnderLock id e (remove r opts)
      → Protects id e o v
      → Protects id e o (delete_versioned r opts v).1
  unfolding delete_versioned
  delete-kept r opts v (active, other, archived, locked) p =
      elim (Bool-cases (text_eq opts.version_id [])) [
        | inl f ↦ rw (f, active, archived) (marked-kept r v other p)
        | inr f ↦ rw f (
            option_keeps Keeps (find_entry v.vlog opts.version_id) _ _ p λ e' q.
              if_keeps Keeps (lock_blocks e' r.now opts.bypass_governance) _ _ (λ _. p)
                λ free.
                  removed-kept id named e o r opts.version_id v
                    (λ same. free_and_locked r opts e' v.vlog q free p.entry locked same)
                    (λ empty. absurd (ground (arith, f, empty, text_eq_iff opts.version_id []))) p)
      ]

  stored-kept :
      (r : PutRun) (opts : PutOptions) (m : XlMeta) (v : Versions)
      → r.fresh ≢ id
      → r.fresh ≢ []
      → r.rewritten ≡ true
      → (r.put_fails ≡ none) ⊎ (r.put_fails ≡ some none)
      → Protects id e o v
      → Protects id e o (store_version r opts r.fresh v.vlog m (archive_current v)).1
  unfolding store_version
  stored-kept r opts m v other some_id rewritten (inl stores) p =
      rw (stores, rewritten)
        (logged id named e o r.log _
          (record (archive_current v) { live = some (with_version m r.fresh opts) })
          (find_entry-append v.vlog _ id other ∙ p.entry)
          record {
            entry = (archived-Protects id named e o v p).entry;
            kept = ground (
              arith,
              text_eq_iff r.fresh id,
              text_eq_iff r.fresh [],
              archived-view v id named,
              p.kept,
            );
            filed = (archived-Protects id named e o v p).filed;
          })
  stored-kept r opts m v other some_id rewritten (inr fails) p = rw fails record {
    entry = (archived-Protects id named e o v p).entry;
    kept = archived-view v id named ∙ p.kept;
    filed = (archived-Protects id named e o v p).filed;
  }

  put-kept :
      (r : PutRun) (opts : PutOptions) (key : Text) (m : XlMeta) (v : Versions)
      → IsUnderLock id e (put r opts key m)
      → Protects id e o v
      → Protects id e o (put_versioned r opts key m v).1
  unfolding put_versioned
  put-kept r opts key m v (active, other, some_id, archived, rewritten, stores) p =
      if_keeps Keeps (not r.bucket_ok) _ _ (λ _. p)
        λ _.
          if_keeps Keeps (not (valid_object_name key)) _ _ (λ _. p)
            λ _. rw (active, archived) (stored-kept r opts m v other some_id rewritten stores p)

  serve_all-kept :
      (v : Versions) (calls : List Call)
      → All (IsUnderLock id e) calls
      → Protects id e o v
      → Protects id e o (serve_all v calls)
  unfolding serve_all serve
  serve_all-kept v [] under p = p
  serve_all-kept v (put r opts key m ∷ cs) under p =
      serve_all-kept (put_versioned r opts key m v).1 cs under.1 (put-kept r opts key m v under.0 p)
  serve_all-kept v (remove r opts ∷ cs) under p =
      serve_all-kept (delete_versioned r opts v).1 cs under.1 (delete-kept r opts v under.0 p)

-- A version whose entry in the log is under a lock, and that can be read under its id, can still be
-- read under it, unchanged, and has the same entry, after a sequence of puts and deletes each of which
-- meets these conditions: versioning is on; no archive fails; the version id that the call makes up is
-- not that of the locked version, and for a put not empty; the put stores the object or leaves nothing
-- live, and its rewrite of the live metadata with the version id succeeds; and the lock blocks the
-- removal at the time and with the bypass of a delete. Removals of versions, promotions and writes of
-- the log may fail. Before the sequence, the archived versions are filed under their ids, and the id of the
-- locked version is not empty.
pub locked_version_stays :
    (id : Text) (e : VlogEntry) (o : XlMeta) (v : Versions) (calls : List Call)
    → id ≢ []
    → find_entry v.vlog id ≡ some e
    → stored v id ≡ some o
    → IsFiled v.archived
    → All (IsUnderLock id e) calls
    → (stored (serve_all v calls) id ≡ some o) × (find_entry (serve_all v calls).vlog id ≡ some e)
locked_version_stays id e o v calls named found reads filed under =
    let p : Protects id e o v = record {
      entry = found;
      kept = sym (stored-view v id named) ∙ reads;
      filed = filed;
    } in
    let q = serve_all-kept id named e o v calls under p in
    (stored-view _ id named ∙ q.kept, q.entry)
