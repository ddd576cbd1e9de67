-- ===== src/Erasure/Versions/Keep.antt =====
-- internal/erasure/versioning.go: a put and a delete without a version id where versioning is on.
use gostore.Base.{
  Text, [], ◌∷◌, ◌++◌, true, false, none, some, lookup, ◌&&◌, if◌then◌else◌, text_eq_iff,
  text_eq_refl, ◌≡◌, ◌≢◌, refl, sym, ap, ◌∙◌, arith, Bool-cases, Option-cases, inl, inr,
}
use gostore.Erasure.XlMeta.{XlMeta}
use gostore.Erasure.Names.{valid_object_name}
use gostore.Erasure.Versions.{
  Versions, version, PutOptions, PutRun, with_version, store_version, put_versioned,
  archive_current, resolve_version_dir, meta_at, DeleteOptions, DeleteRun, marker, add_marker,
  delete_versioned,
}
use gostore.Erasure.Versions.Stored.{stored, view, stored-view, view-archive_current}

pub archive_current-live : (v : Versions) → (archive_current v).live ≡ none
unfolding archive_current
archive_current-live v = elim (Option-cases v.live) [ inl e ↦ rw e refl | inr (m, e) ↦ rw e refl ]

-- What a put that succeeds went through.
pub store_version-succeeds :
    (r : PutRun) (opts : PutOptions) (id : Text) (log : _) (m : XlMeta) (v : Versions)
    → (store_version r opts id log m v).0 ≡ version id false
    → r.put_fails ≡ none
unfolding store_version
store_version-succeeds r opts id log m v h = elim (Option-cases r.put_fails) [
  | inl e ↦ e
  | inr (left, e) ↦ absurd (grind (arith, e, h))
]

put-succeeds :
    (r : PutRun) (opts : PutOptions) (key : Text) (m : XlMeta) (v : Versions)
    → opts.suspended ≡ false
    → (put_versioned r opts key m v).0 ≡ version r.fresh false
    → put_versioned r opts key m v ≡ store_version r opts r.fresh v.vlog m (archive_current v)
unfolding put_versioned
put-succeeds r opts key m v active h = elim (Option-cases r.archive_fails) [
  | inl e ↦ elim (Bool-cases (r.bucket_ok && valid_object_name key)) [
    | inl f ↦ ground (arith, e, f, active)
    | inr f ↦ absurd (ground (arith, e, f, active, h))
  ]
  | inr (left, e) ↦ absurd (ground (arith, e, active, h))
]

abbrev pub put_meta : PutRun → PutOptions → Text → XlMeta → XlMeta
put_meta r opts id m = if r.rewritten then with_version m id opts else m

pub store_version-view :
    (r : PutRun) (opts : PutOptions) (id : Text) (log : _) (m : XlMeta) (v : Versions) (j : Text)
    → r.put_fails ≡ none
    → view (store_version r opts id log m v).1 j
      ≡ view (record v { live = some (put_meta r opts id m) }) j
unfolding store_version
store_version-view r opts id log m v j e =
    rw e (elim (Bool-cases r.log.seen) [ inl f ↦ rw f refl | inr f ↦ rw f refl ])

pub archived-view :
    (v : Versions) (id : Text) → id ≢ [] → lookup id (archive_current v).archived ≡ view v id
archived-view v id ne = ground (arith, archive_current-live v, view-archive_current v id ne)

-- A put into a versioned bucket that succeeds, and whose rewrite of the metadata does, makes the
-- new version readable under its fresh id and leaves every other version readable as before.
pub put_keeps_versions :
    (r : PutRun) (opts : PutOptions) (key : Text) (m : XlMeta) (v : Versions) (id : Text)
    → opts.suspended ≡ false
    → r.rewritten ≡ true
    → r.fresh ≢ []
    → id ≢ []
    → (put_versioned r opts key m v).0 ≡ version r.fresh false
    → (stored (put_versioned r opts key m v).1 r.fresh ≡ some (with_version m r.fresh opts))
      × (r.fresh ≢ id → stored (put_versioned r opts key m v).1 id ≡ stored v id)
put_keeps_versions r opts key m v id active rewritten named other h =
    let step = put-succeeds r opts key m v active h in
    let ok =
      store_version-succeeds r opts r.fresh v.vlog m (archive_current v)
        (sym (ap (λ x. x.0) step) ∙ h) in
    let new = with_version m r.fresh opts in
    rw step (
      stored-view _ r.fresh named
          ∙ (store_version-view r opts r.fresh v.vlog m (archive_current v) r.fresh ok
              ∙ rw (rewritten, text_eq_refl r.fresh) refl),
      λ ne.
          stored-view _ id other
          ∙ (store_version-view r opts r.fresh v.vlog m (archive_current v) id ok
              ∙ (rw rewritten (ground (arith, text_eq_iff r.fresh id, text_eq_iff r.fresh []))
                  ∙ (archived-view v id other ∙ sym (stored-view v id other)))),
    )

stored-nil : (v : Versions) → v.live ≡ none → stored v [] ≡ none
unfolding resolve_version_dir meta_at
stored-nil v e = rw e refl

delete-marks :
    (r : DeleteRun) (opts : DeleteOptions) (v : Versions)
    → opts.suspended ≡ false
    → opts.version_id ≡ []
    → r.archive_fails ≡ none
    → delete_versioned r opts v ≡ add_marker r r.fresh v.vlog (archive_current v)
unfolding delete_versioned
delete-marks r opts v active all e = ground (arith, active, e, all, text_eq_iff opts.version_id [])

-- A delete without a version id in a versioned bucket, where the archive does not fail, keeps every
-- version readable under its id as before and leaves nothing live, so that a read without a version
-- id finds no object; if the log is written, its newest entry is a delete marker.
pub delete_keeps_versions :
    (r : DeleteRun) (opts : DeleteOptions) (v : Versions) (id : Text)
    → opts.suspended ≡ false
    → opts.version_id ≡ []
    → r.archive_fails ≡ none
    → id ≢ []
    → (stored (delete_versioned r opts v).1 id ≡ stored v id)
      × (stored (delete_versioned r opts v).1 [] ≡ none)
      × (r.log.seen ≡ true
          → (delete_versioned r opts v).1.vlog ≡ v.vlog ++ (marker r.fresh r.now ∷ []))
unfolding add_marker
delete_keeps_versions r opts v id active all archived other =
    rw (delete-marks r opts v active all archived) (elim (Bool-cases r.log.seen) [
      | inl f ↦ rw f (
        stored-view _ id other ∙ (view-archive_current v id other ∙ sym (stored-view v id other)),
        stored-nil _ (archive_current-live v),
        λ _. refl,
      )
      | inr f ↦ rw f (
        stored-view _ id other ∙ (view-archive_current v id other ∙ sym (stored-view v id other)),
        stored-nil _ (archive_current-live v),
        λ w. absurd (cc),
      )
    ])
