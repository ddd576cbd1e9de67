-- ===== src/Erasure/Versions/Retention/Compliance.antt =====
-- internal/erasure/lock.go: what calls for the retention of versions can do to one that is under a
-- lock.
use gostore.Base.{
  ℕ, zero, suc, ◌≤◌, ◌<◌, ◌≡◌, refl, ap, sym, ◌∙◌, arith, Text, List, [], ◌∷◌, Bool, true, false,
  not, some, length, get_elem?, ltb, ◌==◌, ◌&&◌, if◌then◌else◌, codes, text_eq, text_eq_iff, All,
  Bool-cases, inl, inr, ==_iff, subst, if_keeps, option_keeps,
}
use gostore.Erasure.Versions.{VlogEntry, Versions, lock_blocks}
use gostore.Erasure.Versions.Retention.{
  LockRun, FoundEntry, at_index, no_entry, entry_at, index_of, find_vlog_entry, set_entry,
  sync_current_lock, store_entry, retention_refused, put_object_retention, put_object_legal_hold,
  retain_entry, hold_entry,
}

-- A call for the retention or the legal hold of some version.
pub data LockCall : Type 0 where
  retention : LockRun → Text → Text → ℕ → Bool → LockCall
  hold : LockRun → Text → Text → LockCall

abbrev pub time_of : LockCall → ℕ
time_of (retention r version_id mode until bypass) = r.now
time_of (hold r version_id status) = r.now

abbrev pub call : LockCall → Versions → Versions
call (retention r version_id mode until bypass) v =
    (put_object_retention r version_id mode until bypass v).0
call (hold r version_id status) v = (put_object_legal_hold r version_id status v).0

abbrev pub call_all : List LockCall → Versions → Versions
call_all [] v = v
call_all (c ∷ cs) v = call_all cs (call c v)

-- The entry at an index is under compliance until a time, or longer, under the same id.
abbrev pub IsHeld : ℕ → Text → ℕ → Versions → Type 0
IsHeld i id deadline v =
    (e : VlogEntry) × (get_elem? v.vlog i ≡ some e)
    × (e.id ≡ id)
    × (e.lock_mode ≡ codes "COMPLIANCE")
    × (deadline ≤ e.retain_until)

-- The entry that is changed is the one that was found.
abbrev pub IsEntry : List VlogEntry → FoundEntry → Type 0
IsEntry log (no_entry e) = Unit
IsEntry log (at_index i e) = get_elem? log i ≡ some e

entry_at-IsEntry : (log : List VlogEntry) (i : ℕ) → IsEntry log (entry_at log i)
entry_at-IsEntry log i = option_keeps (IsEntry log) (get_elem? log i) _ _ tt (λ e h. h)

pub find_vlog_entry-IsEntry :
    (r : LockRun) (log : List VlogEntry) (version_id : Text)
    → IsEntry log (find_vlog_entry r log version_id)
unfolding find_vlog_entry
find_vlog_entry-IsEntry r log version_id =
    if_keeps (IsEntry log) (not r.readable) _ _ (λ _. tt)
      (λ _.
        if_keeps (IsEntry log) (length log == 0) _ _ (λ _. tt)
          (λ _.
            if_keeps (IsEntry log) (text_eq version_id []) _ _ (λ _. entry_at-IsEntry log _)
              (λ _.
                option_keeps (IsEntry log) (index_of log version_id) _ _ tt
                  (λ i _. entry_at-IsEntry log i))))

pub get_elem?-set_entry :
    (log : List VlogEntry) (i j : ℕ) (e x : VlogEntry)
    → get_elem? log j ≡ some x
    → get_elem? (set_entry log i e) j ≡ (if i == j then some e else some x)
unfolding set_entry
get_elem?-set_entry [] i j e x h = cc
get_elem?-set_entry (y ∷ log) zero zero e x h = refl
get_elem?-set_entry (y ∷ log) zero (suc j) e x h = ground arith
get_elem?-set_entry (y ∷ log) (suc i) zero e x h = ground arith
get_elem?-set_entry (y ∷ log) (suc i) (suc j) e x h =
    ground (arith, get_elem?-set_entry log i j e x h)

sync_current_lock-vlog :
    (r : LockRun) (e : VlogEntry) (v : Versions) → (sync_current_lock r e v).vlog ≡ v.vlog
unfolding sync_current_lock
sync_current_lock-vlog r e v =
    let same : Versions → Type 0 = λ x. x.vlog ≡ v.vlog in
    option_keeps same v.live _ _ refl
      (λ m _. if_keeps same (text_eq m.version_id e.id && r.rewritten) _ _ (λ _. refl) (λ _. refl))

pub store_entry-vlog :
    (r : LockRun) (i : ℕ) (e : VlogEntry) (v : Versions)
    → (store_entry r i e v).0.vlog ≡ (if r.log.seen then set_entry v.vlog i e else v.vlog)
unfolding store_entry
store_entry-vlog r i e v = elim (Bool-cases r.log.quorum) [
  | inl q ↦ elim (Bool-cases r.log.seen) [
    | inl w ↦ rw (q, w) (sync_current_lock-vlog r e _)
    | inr w ↦ rw (q, w) (sync_current_lock-vlog r e _)
  ]
  | inr q ↦ elim (Bool-cases r.log.seen) [ inl w ↦ rw (q, w) refl | inr w ↦ rw (q, w) refl ]
]

-- Storing an entry keeps another one, and this one if it is itself held.
store_entry-IsHeld :
    (r : LockRun) (i j : ℕ) (e : VlogEntry) (v : Versions) (id : Text) (deadline : ℕ)
    → (i ≡ j → (e.id ≡ id) × (e.lock_mode ≡ codes "COMPLIANCE") × (deadline ≤ e.retain_until))
    → IsHeld j id deadline v
    → IsHeld j id deadline (store_entry r i e v).0
store_entry-IsHeld r i j e v id deadline good (x, at_j, h₀, h₁, h₂) =
    let stored = ap (λ log. get_elem? log j) (store_entry-vlog r i e v) in
    elim (Bool-cases r.log.seen) [
      | inr w ↦ (x, stored ∙ rw w at_j, h₀, h₁, h₂)
      | inl w ↦
          let changed = get_elem?-set_entry v.vlog i j e x at_j in
          elim (Bool-cases (i == j)) [
            | inl same ↦
                let (g₀, g₁, g₂) = good ((==_iff i j).0 same) in
                (e, stored ∙ rw w (changed ∙ rw same refl), g₀, g₁, g₂)
            | inr other ↦ (x, stored ∙ rw w (changed ∙ rw other refl), h₀, h₁, h₂)
          ]
    ]

not_refused :
    (cur : VlogEntry) (now until deadline : ℕ) (mode : Text) (bypass : Bool)
    → retention_refused cur now mode until bypass ≡ false
    → now < deadline
    → cur.lock_mode ≡ codes "COMPLIANCE"
    → deadline ≤ cur.retain_until
    → (mode ≡ codes "COMPLIANCE") × (deadline ≤ until)
unfolding retention_refused
not_refused cur now until deadline mode bypass h soon c d =
    let is_compliance : text_eq cur.lock_mode (codes "COMPLIANCE") ≡ true =
      (text_eq_iff cur.lock_mode (codes "COMPLIANCE")).1 c in
    let active : (not (cur.retain_until == 0) && ltb now cur.retain_until) ≡ true = ground arith in
    let h' = rw (is_compliance, active) at h in
    ((text_eq_iff mode (codes "COMPLIANCE")).0 (ground (arith, h')), ground (arith, h'))

-- What is found at the index of the held entry is that entry.
found_held :
    (log : List VlogEntry) (i j : ℕ) (cur e : VlogEntry)
    → get_elem? log i ≡ some cur
    → get_elem? log j ≡ some e
    → i ≡ j
    → e ≡ cur
found_held log i j cur e h k same =
    ground (arith, h, subst (λ n. get_elem? log n ≡ some e) (sym same) k)

module _ (j : ℕ) (id : Text) (deadline : ℕ) where
  retain_entry-IsHeld :
      (r : LockRun) (mode : Text) (until : ℕ) (bypass : Bool) (v : Versions) (f : FoundEntry)
      → r.now < deadline
      → IsEntry v.vlog f
      → IsHeld j id deadline v
      → IsHeld j id deadline (retain_entry r mode until bypass v f).0
  unfolding retain_entry
  retain_entry-IsHeld r mode until bypass v (no_entry e) soon h held = held
  retain_entry-IsHeld r mode until bypass v (at_index i cur) soon h held =
      elim (Bool-cases (retention_refused cur r.now mode until bypass)) [
        | inl e ↦ rw e held
        | inr e ↦ rw e (
            store_entry-IsHeld r i j _ v id deadline
              (λ same.
                let (x, at_j, h₀, h₁, h₂) = held in
                let is_cur = found_held v.vlog i j cur x h at_j same in
                let (m, u) =
                  not_refused cur r.now until deadline mode bypass e soon
                    (ap (λ (y : VlogEntry). y.lock_mode) (sym is_cur) ∙ h₁)
                    (omega (arith, h₂, ap (λ (y : VlogEntry). y.retain_until) is_cur)) in
                (ap (λ (y : VlogEntry). y.id) (sym is_cur) ∙ h₀, m, u))
              held)
      ]

  hold_entry-IsHeld :
      (r : LockRun) (status : Text) (v : Versions) (f : FoundEntry)
      → IsEntry v.vlog f
      → IsHeld j id deadline v
      → IsHeld j id deadline (hold_entry r status v f).0
  unfolding hold_entry
  hold_entry-IsHeld r status v (no_entry e) h held = held
  hold_entry-IsHeld r status v (at_index i cur) h held =
      store_entry-IsHeld r i j _ v id deadline
        (λ same.
          let (x, at_j, h₀, h₁, h₂) = held in
          let is_cur = found_held v.vlog i j cur x h at_j same in
          (
            ap (λ (y : VlogEntry). y.id) (sym is_cur) ∙ h₀,
            ap (λ (y : VlogEntry). y.lock_mode) (sym is_cur) ∙ h₁,
            omega (arith, h₂, ap (λ (y : VlogEntry). y.retain_until) is_cur),
          ))
        held

  call-IsHeld :
      (c : LockCall) (v : Versions)
      → time_of c < deadline
      → IsHeld j id deadline v
      → IsHeld j id deadline (call c v)
  unfolding put_object_retention put_object_legal_hold
  call-IsHeld (retention r version_id mode until bypass) v soon held =
      retain_entry-IsHeld r mode until bypass v _ soon (find_vlog_entry-IsEntry r v.vlog version_id)
        held
  call-IsHeld (hold r version_id status) v soon held =
      hold_entry-IsHeld r status v _ (find_vlog_entry-IsEntry r v.vlog version_id) held

  call_all-IsHeld :
      (cs : List LockCall) (v : Versions)
      → All (λ c. time_of c < deadline) cs
      → IsHeld j id deadline v
      → IsHeld j id deadline (call_all cs v)
  call_all-IsHeld [] v soon held = held
  call_all-IsHeld (c ∷ cs) v (soon, rest) held =
      call_all-IsHeld cs (call c v) rest (call-IsHeld c v soon held)

  lock_blocks-IsHeld :
      (e : VlogEntry) (now : ℕ) (bypass : Bool)
      → e.lock_mode ≡ codes "COMPLIANCE"
      → deadline ≤ e.retain_until
      → now < deadline
      → lock_blocks e now bypass ≡ true
  unfolding lock_blocks
  lock_blocks-IsHeld e now bypass m d soon =
      let is_compliance : text_eq e.lock_mode (codes "COMPLIANCE") ≡ true =
        (text_eq_iff e.lock_mode (codes "COMPLIANCE")).1 m in
      rw is_compliance (ground arith)

  -- A version under compliance stays locked until the time that it was retained to: no calls for the
  -- retention or the legal hold of any version before then, with whatever modes, times and rights to
  -- bypass governance, and whether their writes of the log succeed, let its lock be asked for and not
  -- block.
  pub compliance_stays :
      (cs : List LockCall) (v : Versions) (now : ℕ) (bypass : Bool)
      → All (λ c. time_of c < deadline) cs
      → now < deadline
      → IsHeld j id deadline v
      → (e : VlogEntry) × (get_elem? (call_all cs v).vlog j ≡ some e)
        × (e.id ≡ id)
        × (lock_blocks e now bypass ≡ true)
  compliance_stays cs v now bypass soon soon' held =
      let (e, at_j, h₀, h₁, h₂) = call_all-IsHeld cs v soon held in
      (e, at_j, h₀, lock_blocks-IsHeld e now bypass h₁ h₂ soon')
