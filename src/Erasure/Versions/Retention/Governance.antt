-- ===== src/Erasure/Versions/Retention/Governance.antt =====
-- internal/erasure/lock.go, PutObjectRetention: who may lift a lock in governance mode.
use gostore.Base.{
  ℕ, ◌<◌, ◌≡◌, ◌≢◌, refl, subst, ap, ◌∙◌, arith, Text, [], true, false, none, some, get_elem?,
  codes, text_eq, text_eq-ne, ==-refl,
}
use gostore.Erasure.Versions.{VlogEntry, Versions, lock_blocks}
use gostore.Erasure.Versions.Retention.{
  LockRun, at_index, find_vlog_entry, store_entry, retention_refused, retain_entry,
  put_object_retention,
}
use gostore.Erasure.Versions.Retention.Compliance.{
  IsEntry, find_vlog_entry-IsEntry, store_entry-vlog, get_elem?-set_entry,
}

store_entry_ok :
    (r : LockRun) (i : ℕ) (e : VlogEntry) (v : Versions)
    → r.log.quorum ≡ true
    → (store_entry r i e v).1 ≡ none
unfolding store_entry
store_entry_ok r i e v q = rw q refl

governance_passes :
    (e : VlogEntry) (now : ℕ) (mode : Text)
    → e.lock_mode ≡ codes "GOVERNANCE"
    → mode ≢ []
    → retention_refused e now mode e.retain_until false ≡ false
unfolding retention_refused text_eq
governance_passes e now mode g named =
    let not_empty : text_eq mode [] ≡ false = text_eq-ne mode [] named in
    rw (g, not_empty) (ground arith)

governance_blocks :
    (e : VlogEntry) (now : ℕ)
    → e.lock_mode ≡ codes "GOVERNANCE"
    → now < e.retain_until
    → lock_blocks e now false ≡ true
unfolding lock_blocks text_eq
governance_blocks e now g soon = rw g (ground arith)

unknown_mode_free :
    (e : VlogEntry) (now : ℕ) (mode : Text)
    → e.legal_hold ≡ false
    → mode ≢ codes "GOVERNANCE"
    → mode ≢ codes "COMPLIANCE"
    → lock_blocks (record e { lock_mode = mode }) now false ≡ false
unfolding lock_blocks
unknown_mode_free e now mode h g c =
    rw (h, text_eq-ne mode (codes "GOVERNANCE") g, text_eq-ne mode (codes "COMPLIANCE") c)
      (ground arith)

-- A caller without the right to bypass governance lifts a lock in governance mode all the same, by
-- asking for a mode that is none, with the time unchanged: the version was locked against this caller
-- before the call, the call succeeds, and the version is not locked afterwards. The version has no
-- legal hold, the log is found and written.
pub governance_lifted :
    (r : LockRun) (version_id mode : Text) (v : Versions) (i : ℕ) (e : VlogEntry)
    → find_vlog_entry r v.vlog version_id ≡ at_index i e
    → e.lock_mode ≡ codes "GOVERNANCE"
    → r.now < e.retain_until
    → e.legal_hold ≡ false
    → mode ≢ []
    → mode ≢ codes "GOVERNANCE"
    → mode ≢ codes "COMPLIANCE"
    → r.log.quorum ≡ true
    → r.log.seen ≡ true
    → (lock_blocks e r.now false ≡ true)
      × ((put_object_retention r version_id mode e.retain_until false v).1 ≡ none)
      × (get_elem? (put_object_retention r version_id mode e.retain_until false v).0.vlog i
          ≡ some (record e { lock_mode = mode }))
      × (lock_blocks (record e { lock_mode = mode }) r.now false ≡ false)
unfolding put_object_retention retain_entry
governance_lifted r version_id mode v i e found g soon free named not_g not_c q w =
    let allowed = governance_passes e r.now mode g named in
    let at_i : get_elem? v.vlog i ≡ some e =
      subst (IsEntry v.vlog) found (find_vlog_entry-IsEntry r v.vlog version_id) in
    let e' : VlogEntry = record e { lock_mode = mode } in
    (
      governance_blocks e r.now g soon,
      rw (found, retain_entry, allowed) (store_entry_ok r i e' v q),
      rw (found, retain_entry, allowed)
          (ap (λ log. get_elem? log i) (store_entry-vlog r i e' v)
            ∙ rw w (get_elem?-set_entry v.vlog i i e' e at_i ∙ rw (==-refl i) refl)),
      unknown_mode_free e r.now mode free not_g not_c,
    )
