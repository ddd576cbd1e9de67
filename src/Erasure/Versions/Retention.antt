-- ===== src/Erasure/Versions/Retention.antt =====
-- internal/erasure/lock.go: the retention and the legal hold of a version. As in the rest of the
-- version log, what the disks do in a call is an input.
pub mod Compliance
pub mod Governance
mod Examples
use gostore.Base.{
  ℕ, zero, suc, Text, List, [], ◌∷◌, Bool, true, false, not, Option, none, some, length, get_elem?,
  ltb, ◌==◌, ◌-◌, ◌&&◌, ◌||◌, if◌then◌else◌, codes, text_eq,
}
use gostore.Erasure.XlMeta.{XlMeta}
use gostore.Erasure.Versions.{VlogEntry, Versions, LogWrite, write_vlog}

pub data LockError : Type 0 where
  log_unreadable not_versioned object_not_found object_locked write_quorum : LockError

-- What happens in a call: the clock, whether the log is read, the write of the log, and whether the
-- rewrite of the live metadata reaches what is read of it.
pub record LockRun : Type 0 where
  pub now : ℕ
  pub readable : Bool
  pub log : LogWrite
  pub rewritten : Bool

-- The index of the first entry with an id.
unfoldable pub index_of : List VlogEntry → Text → Option ℕ
index_of [] id = none
index_of (e ∷ es) id =
    let rest = index_of es id in
    if text_eq e.id id then some 0 else elim rest [ none ↦ none | some i ↦ some (suc i) ]

pub data FoundEntry : Type 0 where
  at_index : ℕ → VlogEntry → FoundEntry
  no_entry : LockError → FoundEntry

abbrev pub entry_at : List VlogEntry → ℕ → FoundEntry
entry_at log i = elim (get_elem? log i) [ none ↦ no_entry object_not_found | some e ↦ at_index i e ]

-- `findVlogEntry`, with the entry that it finds.
unfoldable pub find_vlog_entry : LockRun → List VlogEntry → Text → FoundEntry
unfolding index_of
find_vlog_entry r log version_id =
    if not r.readable
    then no_entry log_unreadable
    else if length log == 0
    then no_entry not_versioned
    else if text_eq version_id []
    then entry_at log (length log - 1)
    else elim (index_of log version_id) [
      | none ↦ no_entry object_not_found
      | some i ↦ entry_at log i
    ]

-- `vlog[i] = e`
unfoldable pub set_entry : List VlogEntry → ℕ → VlogEntry → List VlogEntry
set_entry [] i e = []
set_entry (x ∷ es) zero e = e ∷ es
set_entry (x ∷ es) (suc i) e = x ∷ set_entry es i e

unfoldable pub sync_current_lock : LockRun → VlogEntry → Versions → Versions
sync_current_lock r e v = elim v.live [
  | none ↦ v
  | some m ↦
      if text_eq m.version_id e.id && r.rewritten
      then record v {
        live = some (record m {
          lock_mode = e.lock_mode;
          retain_until = e.retain_until;
          legal_hold = e.legal_hold;
        });
      }
      else v
]

-- The end of both calls: the log with the new entry is written, then the live metadata.
unfoldable pub store_entry : LockRun → ℕ → VlogEntry → Versions → Versions × Option LockError
unfolding set_entry sync_current_lock
store_entry r i e v =
    let (v', written) = write_vlog r.log (set_entry v.vlog i e) v in
    if written then (sync_current_lock r e v', none) else (v', some write_quorum)

-- The two guards of `PutObjectRetention`.
unfoldable pub retention_refused : VlogEntry → ℕ → Text → ℕ → Bool → Bool
retention_refused cur now mode until bypass_governance =
    let active = not (cur.retain_until == 0) && ltb now cur.retain_until in
    let earlier = ltb until cur.retain_until in
    text_eq cur.lock_mode (codes "COMPLIANCE")
      && active
      && (not (text_eq mode (codes "COMPLIANCE")) || earlier)
    || text_eq cur.lock_mode (codes "GOVERNANCE")
      && active
      && (text_eq mode [] || earlier)
      && not bypass_governance

-- `PutObjectRetention` and `PutObjectLegalHold`, once the entry has been looked for.
unfoldable pub retain_entry :
    LockRun → Text → ℕ → Bool → Versions → FoundEntry → Versions × Option LockError
retain_entry r mode until bypass_governance v (no_entry e) = (v, some e)
retain_entry r mode until bypass_governance v (at_index i cur) =
    if retention_refused cur r.now mode until bypass_governance
    then (v, some object_locked)
    else store_entry r i (record cur { lock_mode = mode; retain_until = until }) v

unfoldable pub hold_entry : LockRun → Text → Versions → FoundEntry → Versions × Option LockError
hold_entry r status v (no_entry e) = (v, some e)
hold_entry r status v (at_index i cur) =
    store_entry r i (record cur { legal_hold = text_eq status (codes "ON") }) v

unfoldable pub put_object_retention :
    LockRun → Text → Text → ℕ → Bool → Versions → Versions × Option LockError
put_object_retention r version_id mode until bypass_governance v =
    retain_entry r mode until bypass_governance v (find_vlog_entry r v.vlog version_id)

unfoldable pub put_object_legal_hold :
    LockRun → Text → Text → Versions → Versions × Option LockError
put_object_legal_hold r version_id status v =
    hold_entry r status v (find_vlog_entry r v.vlog version_id)

-- `GetObjectRetention` and `GetObjectLegalHold`, where the log is read.
unfoldable pub get_object_retention : LockRun → Text → Versions → Option (Text × ℕ)
get_object_retention r version_id v = elim (find_vlog_entry r v.vlog version_id) [
  | no_entry e ↦ none
  | at_index i e ↦ some (e.lock_mode, e.retain_until)
]

unfoldable pub get_object_legal_hold : LockRun → Text → Versions → Option Text
get_object_legal_hold r version_id v = elim (find_vlog_entry r v.vlog version_id) [
  | no_entry e ↦ none
  | at_index i e ↦ some (if e.legal_hold then codes "ON" else codes "OFF")
]
