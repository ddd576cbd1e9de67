-- ===== src/Erasure/Versions.antt =====
-- internal/erasure/versioning.go: the versions of one key on an erasure set. The state is what the set
-- answers for the key: the version log that `readVlog` returns, the metadata of the live object, and
-- that of each archived version. What the disks do in a call is an input.
pub mod Stored
pub mod Keep
pub mod Worm
pub mod Suspended
pub mod Retention
mod Examples
use gostore.Base.{
  ℕ, zero, suc, Text, List, [], ◌∷◌, ◌++◌, Bool, true, false, not, Option, none, some, Assoc,
  lookup, insert, delete, ltb, ◌==◌, ◌&&◌, ◌||◌, if◌then◌else◌, codes, text_eq, length,
}
use gostore.Erasure.XlMeta.{XlMeta}
use gostore.Erasure.Names.{valid_object_name}

abbrev pub null_version_id : Text
null_version_id = codes "null"

pub record VlogEntry : Type 0 where
  pub id : Text
  pub delete_marker : Bool
  pub mod_time : ℕ
  pub lock_mode : Text
  pub retain_until : ℕ
  pub legal_hold : Bool

-- `lockBlocks` at a time; 0 is the zero time.
unfoldable pub lock_blocks : VlogEntry → ℕ → Bool → Bool
lock_blocks e now bypass_governance =
    if e.legal_hold
    then true
    else if e.retain_until == 0 || not (ltb now e.retain_until)
    then false
    else if text_eq e.lock_mode (codes "COMPLIANCE")
    then true
    else if text_eq e.lock_mode (codes "GOVERNANCE")
    then not bypass_governance
    else false

pub record Versions : Type 0 where
  pub vlog : List VlogEntry
  pub live : Option XlMeta
  pub archived : Assoc XlMeta

pub data VersionError : Type 0 where
  bucket_not_found object_name_invalid archive_failed put_failed write_quorum object_not_found
        object_locked :
      VersionError

pub data VersionResult : Type 0 where
  version : Text → (delete_marker : Bool) → VersionResult
  refused : VersionError → VersionResult

-- A write of the log: whether a write quorum of the disks took it, and whether the disk that
-- `readVlog` reads did.
pub record LogWrite : Type 0 where
  pub quorum : Bool
  pub seen : Bool

-- `writeVlog`, with whether it returns nil.
abbrev pub write_vlog : LogWrite → List VlogEntry → Versions → Versions × Bool
write_vlog w log v = (if w.seen then record v { vlog = log } else v, w.quorum)

-- The version id under which the live object is archived.
unfoldable pub id_of : XlMeta → Text
id_of m = if text_eq m.version_id [] then null_version_id else m.version_id

-- `archiveCurrent` where every disk renames.
unfoldable pub archive_current : Versions → Versions
unfolding id_of
archive_current v = elim v.live [
  | none ↦ v
  | some m ↦ record v { live = none; archived = insert (id_of m) m v.archived }
]

unfoldable pub drop_entry : List VlogEntry → Text → List VlogEntry
drop_entry [] id = []
drop_entry (e ∷ es) id = let rest = drop_entry es id in if text_eq e.id id then rest else e ∷ rest

pub record PutOptions : Type 0 where
  pub suspended : Bool
  pub lock_mode : Text
  pub retain_until : ℕ
  pub legal_hold : Text
  pub mtime : ℕ

-- What happens in a put: whether the bucket is there, the new version id, what a failing archive
-- leaves, the live object that a failing put leaves, whether the deletes and the rewrite of the
-- metadata succeed, and the write of the log.
pub record PutRun : Type 0 where
  pub bucket_ok : Bool
  pub fresh : Text
  pub archive_fails : Option Versions
  pub put_fails : Option (Option XlMeta)
  pub deletes : Bool
  pub rewritten : Bool
  pub log : LogWrite

-- The metadata with the versioning fields.
abbrev pub with_version : XlMeta → Text → PutOptions → XlMeta
with_version m id opts = record m {
  version_id = id;
  lock_mode = opts.lock_mode;
  retain_until = opts.retain_until;
  legal_hold = text_eq opts.legal_hold (codes "ON");
  mod_time = if opts.mtime == 0 then m.mod_time else opts.mtime;
}

abbrev pub entry_of : XlMeta → VlogEntry
entry_of m = record {
  id = m.version_id;
  delete_marker = false;
  mod_time = m.mod_time;
  lock_mode = m.lock_mode;
  retain_until = m.retain_until;
  legal_hold = m.legal_hold;
}

-- From the put of the object on: `log` is the log so far in memory, `m` what the put writes.
unfoldable pub store_version :
    PutRun → PutOptions → Text → List VlogEntry → XlMeta → Versions → VersionResult × Versions
store_version r opts id log m v = elim r.put_fails [
  | some left ↦ (refused put_failed, record v { live = left })
  | none ↦
      (let meta = with_version m id opts in
        let (v', ok) =
          write_vlog r.log (log ++ (entry_of meta ∷ []))
            (record v { live = some (if r.rewritten then meta else m) }) in
        (if ok then version id false else refused write_quorum, v'))
]

-- `putObjectVersionedOn`
unfoldable pub put_versioned :
    PutRun → PutOptions → Text → XlMeta → Versions → VersionResult × Versions
unfolding store_version archive_current drop_entry
put_versioned r opts key m v =
    if not r.bucket_ok
    then (refused bucket_not_found, v)
    else if not (valid_object_name key)
    then (refused object_name_invalid, v)
    else if opts.suspended
    then store_version r opts null_version_id (drop_entry v.vlog null_version_id) m
        (if r.deletes then record v { archived = delete null_version_id v.archived } else v)
    else elim r.archive_fails [
      | some left ↦ (refused archive_failed, left)
      | none ↦ store_version r opts r.fresh v.vlog m (archive_current v)
    ]

pub data Place : Type 0 where
  current nowhere : Place
  archive : Text → Place

abbrev pub is_current : Option XlMeta → Text → Bool
is_current none id = false
is_current (some m) id =
    text_eq m.version_id id || (text_eq m.version_id [] && text_eq id null_version_id)

-- `resolveVersionDir`
unfoldable pub resolve_version_dir : Versions → Text → Place
resolve_version_dir v [] = elim v.live [ some _ ↦ current | none ↦ nowhere ]
resolve_version_dir v (c ∷ id) =
    if is_current v.live (c ∷ id)
    then current
    else elim (lookup (c ∷ id) v.archived) [ some _ ↦ archive (c ∷ id) | none ↦ nowhere ]

-- The metadata that `statVersioned` and `getVersionedOn` read at a place.
unfoldable pub meta_at : Versions → Place → Option XlMeta
meta_at v current = v.live
meta_at v nowhere = none
meta_at v (archive id) = lookup id v.archived

pub record DeleteOptions : Type 0 where
  pub version_id : Text
  pub suspended : Bool
  pub bypass_governance : Bool

-- What happens in a delete: its time, the new version id, what a failing archive leaves, whether the
-- deletes and the promotion succeed, and the write of the log.
pub record DeleteRun : Type 0 where
  pub now : ℕ
  pub fresh : Text
  pub archive_fails : Option Versions
  pub deletes : Bool
  pub promotes : Bool
  pub log : LogWrite

abbrev pub marker : Text → ℕ → VlogEntry
marker id now = record {
  id = id;
  delete_marker = true;
  mod_time = now;
  lock_mode = [];
  retain_until = 0;
  legal_hold = false;
}

unfoldable pub add_marker : DeleteRun → Text → List VlogEntry → Versions → VersionResult × Versions
add_marker r id log v =
    let (v', ok) = write_vlog r.log (log ++ (marker id r.now ∷ [])) v in
    (if ok then version id true else refused write_quorum, v')

-- The first entry with the id, and the log without it.
unfoldable pub find_entry : List VlogEntry → Text → Option VlogEntry
find_entry [] id = none
find_entry (e ∷ es) id = if text_eq e.id id then some e else find_entry es id

unfoldable pub cut_entry : List VlogEntry → Text → List VlogEntry
cut_entry [] id = []
cut_entry (e ∷ es) id = let rest = cut_entry es id in if text_eq e.id id then es else e ∷ rest

abbrev pub last : List VlogEntry → Option VlogEntry
last [] = none
last (e ∷ es) = let rest = last es in elim es [ [] ↦ some e | _ ∷ _ ↦ rest ]

-- Whether the first entry with the id is the newest one.
unfoldable pub is_latest : List VlogEntry → Text → Bool
is_latest [] id = false
is_latest (e ∷ es) id =
    let rest = is_latest es id in
    if text_eq e.id id then (elim es [ [] ↦ true | _ ∷ _ ↦ false ]) else rest

-- The deletion of the files of a version.
unfoldable pub erase : Bool → Place → Versions → Versions
erase deletes current v = if deletes then record v { live = none } else v
erase deletes nowhere v = v
erase deletes (archive id) v = if deletes then record v { archived = delete id v.archived } else v

-- The rename of an archived version into the place of the live object, which is empty.
unfoldable pub promote : Text → Versions → Versions
promote id v = elim (lookup id v.archived) [
  | some m ↦ record v { live = some m; archived = delete id v.archived }
  | none ↦ v
]

-- The newest entry that is left is promoted where it is a version and nothing is live.
unfoldable pub promote_head : Bool → Option VlogEntry → Versions → Versions
unfolding promote
promote_head promotes none v = v
promote_head promotes (some e) v =
    if e.delete_marker
    then v
    else elim v.live [ some _ ↦ v | none ↦ if promotes then promote e.id v else v ]

-- The permanent delete of a version that may go.
unfoldable pub remove_version : DeleteRun → Text → Versions → VersionResult × Versions
unfolding cut_entry erase promote_head is_latest resolve_version_dir
remove_version r id v =
    let erased = erase r.deletes (resolve_version_dir v id) v in
    let log = cut_entry v.vlog id in
    let promoted =
      if is_latest v.vlog id then promote_head r.promotes (last log) erased else erased in
    let (v', ok) = write_vlog r.log log promoted in
    if length log == 0
    then (version id false, (write_vlog r.log [] erased).0)
    else (if ok then version id false else refused write_quorum, v')

-- `deleteVersionedOn`
unfoldable pub delete_versioned : DeleteRun → DeleteOptions → Versions → VersionResult × Versions
unfolding archive_current drop_entry add_marker find_entry remove_version
delete_versioned r opts v =
    if text_eq opts.version_id []
    then (if opts.suspended
        then add_marker r null_version_id (drop_entry v.vlog null_version_id)
            (if r.deletes then record v { live = none } else v)
        else elim r.archive_fails [
          | some left ↦ (refused archive_failed, left)
          | none ↦ add_marker r r.fresh v.vlog (archive_current v)
        ])
    else elim (find_entry v.vlog opts.version_id) [
      | none ↦ (refused object_not_found, v)
      | some e ↦
          if lock_blocks e r.now opts.bypass_governance
          then (refused object_locked, v)
          else remove_version r opts.version_id v
    ]
