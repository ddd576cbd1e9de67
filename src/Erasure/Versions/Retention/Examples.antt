-- ===== src/Erasure/Versions/Retention/Examples.antt =====
-- A locked version, on which the theorems about the retention of versions are run.
use gostore.Base.{
  ℕ, Text, List, [], ◌∷◌, true, false, none, some, codes, text_eq, ◌≡◌, ◌≢◌, refl, arith, get_elem?,
}
use gostore.Erasure.Versions.{VlogEntry, Versions, lock_blocks}
use gostore.Erasure.Versions.Retention.{
  LockRun, at_index, index_of, find_vlog_entry, put_object_retention,
}
use gostore.Erasure.Versions.Retention.Compliance.{
  LockCall, retention, hold, call_all, compliance_stays,
}
use gostore.Erasure.Versions.Retention.Governance.{governance_lifted}

abbrev entry : Text → VlogEntry
entry mode = record {
  id = codes "1";
  delete_marker = false;
  mod_time = 7;
  lock_mode = mode;
  retain_until = 100;
  legal_hold = false;
}

abbrev versions : Text → Versions
versions mode = record { vlog = entry mode ∷ []; live = none; archived = [] }

abbrev run : ℕ → LockRun
run now = record {
  now = now;
  readable = true;
  log = record { quorum = true; seen = true };
  rewritten = true;
}

-- One that would end the retention, one that makes it longer, and a legal hold.
abbrev calls : List LockCall
calls =
    retention (run 20) [] [] 0 true
    ∷ retention (run 30) (codes "1") (codes "COMPLIANCE") 120 false
    ∷ hold (run 40) [] (codes "OFF")
    ∷ []

compliance_stays_example :
    (e : VlogEntry) × (get_elem? (call_all calls (versions (codes "COMPLIANCE"))).vlog 0 ≡ some e)
    × (e.id ≡ codes "1")
    × (lock_blocks e 50 true ≡ true)
compliance_stays_example =
    compliance_stays 0 (codes "1") 100 calls (versions (codes "COMPLIANCE")) 50 true
      (omega arith, (omega arith, (omega arith, tt))) (omega arith)
      (entry (codes "COMPLIANCE"), refl, refl, refl, omega arith)

found :
    find_vlog_entry (run 50) (versions (codes "GOVERNANCE")).vlog (codes "1")
    ≡ at_index 0 (entry (codes "GOVERNANCE"))
unfolding find_vlog_entry index_of text_eq
found = refl

none-governance : codes "NONE" ≢ codes "GOVERNANCE"
none-governance = ground arith

none-compliance : codes "NONE" ≢ codes "COMPLIANCE"
none-compliance = ground arith

governance_lifted_example :
    (lock_blocks (entry (codes "GOVERNANCE")) 50 false ≡ true)
    × ((put_object_retention
          (run 50)
          (codes "1")
          (codes "NONE")
          100
          false
          (versions (codes "GOVERNANCE"))).1
        ≡ none)
    × (get_elem?
          (put_object_retention
            (run 50)
            (codes "1")
            (codes "NONE")
            100
            false
            (versions (codes "GOVERNANCE"))).0.vlog
          0
        ≡ some (entry (codes "NONE")))
    × (lock_blocks (entry (codes "NONE")) 50 false ≡ false)
governance_lifted_example =
    governance_lifted (run 50) (codes "1") (codes "NONE") (versions (codes "GOVERNANCE")) 0
      (entry (codes "GOVERNANCE")) found refl (omega arith) refl (ground arith) none-governance
      none-compliance refl refl
