-- ===== src/Erasure/Versions/Suspended.antt =====
-- internal/erasure/versioning.go: a put where versioning is suspended.
use gostore.Base.{
  Text, [], Bool, true, false, none, some, lookup, delete, lookup-delete, ◌&&◌, if◌then◌else◌,
  text_eq, text_eq_iff, text_eq_refl, ◌≡◌, ◌≢◌, refl, sym, ap, ◌∙◌, arith, Bool-cases, inl, inr,
}
use gostore.Erasure.XlMeta.{XlMeta}
use gostore.Erasure.Names.{valid_object_name}
use gostore.Erasure.Versions.{
  null_version_id, Versions, VlogEntry, version, refused, PutOptions, PutRun, with_version,
  store_version, put_versioned, id_of, DeleteRun, drop_entry, find_entry, delete_versioned,
  lock_blocks, object_locked,
}
use gostore.Erasure.Versions.Stored.{stored, view, stored-view, is_current-id_of, id_of-named}
use gostore.Erasure.Versions.Keep.{store_version-view, store_version-succeeds, put_meta}

-- The state from which a suspended put stores.
cleared : Bool → Versions → Versions
cleared deletes v = if deletes then record v { archived = delete null_version_id v.archived } else v

put-suspended :
    (r : PutRun) (opts : PutOptions) (key : Text) (m : XlMeta) (v : Versions)
    → opts.suspended ≡ true
    → (put_versioned r opts key m v).0 ≡ version null_version_id false
    → put_versioned r opts key m v
      ≡ store_version r opts null_version_id
          (drop_entry v.vlog null_version_id)
          m
          (cleared r.deletes v)
unfolding put_versioned cleared
put-suspended r opts key m v off h = elim (Bool-cases (r.bucket_ok && valid_object_name key)) [
  | inl f ↦ ground (arith, f, off)
  | inr f ↦ absurd (ground (arith, f, off, h))
]

-- The live object after a suspended put is the new one, whatever it was; the other versions are
-- those that were archived.
put-suspended-view :
    (r : PutRun) (opts : PutOptions) (key : Text) (m : XlMeta) (v : Versions) (id : Text)
    → opts.suspended ≡ true
    → (put_versioned r opts key m v).0 ≡ version null_version_id false
    → view (put_versioned r opts key m v).1 id
      ≡ view (record (cleared r.deletes v) { live = some (put_meta r opts null_version_id m) }) id
put-suspended-view r opts key m v id off h =
    let step = put-suspended r opts key m v off h in
    let log = drop_entry v.vlog null_version_id in
    let ok =
      store_version-succeeds r opts null_version_id log m (cleared r.deletes v)
        (sym (ap (λ x. x.0) step) ∙ h) in
    rw step (store_version-view r opts null_version_id log m (cleared r.deletes v) id ok)

cleared-lookup :
    (deletes : Bool) (v : Versions) (id : Text)
    → null_version_id ≢ id
    → lookup id (cleared deletes v).archived ≡ lookup id v.archived
unfolding cleared
cleared-lookup true v id ne =
    ground (arith, lookup-delete null_version_id id v.archived, text_eq_iff null_version_id id)
cleared-lookup false v id ne = refl

-- A put that succeeds while versioning is suspended, and whose rewrite of the metadata does,
-- replaces the live object also where that is a version with an id of its own: if it is not
-- archived under that id too, the version could be read before and cannot be read any more.
pub suspended_put_loses :
    (r : PutRun) (opts : PutOptions) (key : Text) (m old : XlMeta) (v : Versions)
    → opts.suspended ≡ true
    → r.rewritten ≡ true
    → v.live ≡ some old
    → null_version_id ≢ id_of old
    → lookup (id_of old) v.archived ≡ none
    → (put_versioned r opts key m v).0 ≡ version null_version_id false
    → (stored v (id_of old) ≡ some old)
      × (stored (put_versioned r opts key m v).1 (id_of old) ≡ none)
suspended_put_loses r opts key m old v off rewritten live versioned alone h =
    let id = id_of old in
    let named = id_of-named old in
    (
      stored-view v id named
          ∙ rw live (ground (arith, is_current-id_of old id named, text_eq_refl id)),
      stored-view _ id named
          ∙ (put-suspended-view r opts key m v id off h
              ∙ rw rewritten (
                  ground (
                    arith,
                    text_eq_iff null_version_id id,
                    text_eq_iff null_version_id [],
                    cleared-lookup r.deletes v id versioned,
                    alone,
                  ))),
    )

-- Where the lock of the version with the id null blocks its removal even for a caller who
-- bypasses governance, a delete of that version is refused, but a put that succeeds while
-- versioning is suspended, and whose rewrite of the metadata does, replaces it all the same.
pub suspended_put_ignores_lock :
    (r : PutRun) (d : DeleteRun) (opts : PutOptions) (key : Text) (m : XlMeta) (v : Versions)
    (e : VlogEntry)
    → opts.suspended ≡ true
    → r.rewritten ≡ true
    → find_entry v.vlog null_version_id ≡ some e
    → lock_blocks e d.now true ≡ true
    → (put_versioned r opts key m v).0 ≡ version null_version_id false
    → (delete_versioned d
          (record { version_id = null_version_id; suspended = true; bypass_governance = true })
          v
        ≡ (refused object_locked, v))
      × (stored (put_versioned r opts key m v).1 null_version_id
          ≡ some (with_version m null_version_id opts))
unfolding delete_versioned text_eq
suspended_put_ignores_lock r d opts key m v e off rewritten found locked h = (
  rw (found, locked) refl,
  stored-view _ null_version_id (λ q. absurd (grind arith))
      ∙ (put-suspended-view r opts key m v null_version_id off h
          ∙ rw rewritten (ground (arith, text_eq_refl null_version_id))),
)
