-- ===== src/Erasure/Versions/Worm.antt =====
-- Object lock in internal/erasure/versioning.go: sequences of calls on a versioned key, and what a lock
-- protects.
pub mod Moves
pub mod Lock
use gostore.Base.{
  ℕ, zero, suc, Text, List, [], ◌∷◌, ◌++◌, Bool, true, false, not, Option, none, some, Assoc,
  lookup, insert, delete, lookup-insert, lookup-delete, ltb, ◌==◌, ◌&&◌, ◌||◌, if◌then◌else◌, codes,
  text_eq, text_eq_iff, text_eq_refl, length, ◌≡◌, ◌≢◌, refl, sym, ap, ◌∙◌, arith, Bool-cases,
  Option-cases, if_keeps, option_keeps, subst, All, All-insert, All-delete, lookup-All, inl, inr,
  ◌⊎◌,
}
use gostore.Erasure.XlMeta.{XlMeta}
use gostore.Erasure.Names.{valid_object_name}
use gostore.Erasure.Versions.{
  null_version_id, Versions, VersionResult, version, refused, PutOptions, PutRun, with_version,
  entry_of, store_version, put_versioned, id_of, archive_current, is_current, resolve_version_dir,
  meta_at, write_vlog, DeleteOptions, DeleteRun, marker, add_marker, delete_versioned,
  archive_failed, put_failed, write_quorum, bucket_not_found, object_name_invalid,
}
use gostore.Erasure.Versions.Stored.{
  stored, view, stored-view, is_current-id_of, view-archive_current,
}
use gostore.Erasure.Versions.{
  VlogEntry, find_entry, cut_entry, drop_entry, lock_blocks, erase, promote, promote_head,
  remove_version, last, is_latest, Place, current, nowhere, archive, object_not_found,
  object_locked, LogWrite,
}
use gostore.Erasure.Versions.Stored.{id_of-named, find_entry-append}
use gostore.Erasure.Versions.Keep.{
  archive_current-live, archived-view, store_version-view, put_meta,
}

pub data Call : Type 0 where
  put : PutRun → PutOptions → Text → XlMeta → Call
  remove : DeleteRun → DeleteOptions → Call

unfoldable pub serve : Versions → Call → Versions
serve v (put r opts key m) = (put_versioned r opts key m v).1
serve v (remove r opts) = (delete_versioned r opts v).1

unfoldable pub serve_all : Versions → List Call → Versions
unfolding serve
serve_all v [] = v
serve_all v (c ∷ cs) = serve_all (serve v c) cs

-- A call on a bucket whose versioning is on, with a version id of its own, in which no archive fails,
-- the rewrite of the live metadata succeeds and a failing put leaves nothing live, made while the lock
-- lasts.
abbrev pub IsUnderLock : Text → VlogEntry → Call → Type 0
IsUnderLock id e (put r opts key m) =
    (opts.suspended ≡ false)
    × (r.fresh ≢ id)
    × (r.fresh ≢ [])
    × (r.archive_fails ≡ none)
    × (r.rewritten ≡ true)
    × ((r.put_fails ≡ none) ⊎ (r.put_fails ≡ some none))
IsUnderLock id e (remove r opts) =
    (opts.suspended ≡ false)
    × (r.fresh ≢ id)
    × (r.archive_fails ≡ none)
    × (lock_blocks e r.now opts.bypass_governance ≡ true)

-- Every archived version is filed under its own id.
abbrev pub IsFiled : Assoc XlMeta → Type 0
IsFiled = All (λ x. id_of x.1 ≡ x.0)

-- The first entry with the id, and what is read under the id.
pub record Protects (id : Text) (e : VlogEntry) (o : XlMeta) (v : Versions) : Type 0 where
  pub entry : find_entry v.vlog id ≡ some e
  pub kept : view v id ≡ some o
  pub filed : IsFiled v.archived
