-- ===== src/Erasure/Versions/Stored.antt =====
-- internal/erasure/versioning.go: what is read under a version id, in one expression, and how the moves
-- of metadata change it.
use gostore.Base.{
  Text, List, [], ◌∷◌, ◌++◌, Option, some, lookup, lookup-insert, if◌then◌else◌, text_eq,
  text_eq_iff, ◌≡◌, ◌≢◌, refl, arith, Bool-cases, Option-cases, inl, inr,
}
use gostore.Erasure.XlMeta.{XlMeta}
use gostore.Erasure.Versions.{
  null_version_id, Versions, id_of, archive_current, is_current, resolve_version_dir, meta_at,
  VlogEntry, find_entry, drop_entry,
}

-- What `statVersioned` reads for a version id.
abbrev pub stored : Versions → Text → Option XlMeta
stored v id = meta_at v (resolve_version_dir v id)

abbrev pub view : Versions → Text → Option XlMeta
view v id = if is_current v.live id then v.live else lookup id v.archived

pub stored-view : (v : Versions) (id : Text) → id ≢ [] → stored v id ≡ view v id
unfolding resolve_version_dir meta_at
stored-view v [] ne = absurd (ne refl)
stored-view v (c ∷ id) ne = elim (Option-cases (lookup (c ∷ id) v.archived)) [
  | inl e ↦ ground (arith, e)
  | inr (m, e) ↦ ground (arith, e)
]

pub is_current-id_of :
    (m : XlMeta) (id : Text) → id ≢ [] → is_current (some m) id ≡ text_eq (id_of m) id
unfolding id_of
is_current-id_of m id ne = ground (
  arith,
  text_eq_iff m.version_id id,
  text_eq_iff m.version_id [],
  text_eq_iff id null_version_id,
  text_eq_iff null_version_id id,
)

pub view-archive_current :
    (v : Versions) (id : Text) → id ≢ [] → view (archive_current v) id ≡ view v id
unfolding archive_current
view-archive_current v id ne = elim (Option-cases v.live) [
  | inl e ↦ rw e refl
  | inr (m, e) ↦
      rw e (ground (arith, is_current-id_of m id ne, lookup-insert (id_of m) id m v.archived))
]

pub id_of-named : (m : XlMeta) → id_of m ≢ []
unfolding id_of
id_of-named m e = elim (Bool-cases (text_eq m.version_id [])) [
  | inl f ↦ ground (arith, e, f)
  | inr f ↦ ground (arith, e, f, text_eq_iff m.version_id [])
]

pub find_entry-drop_entry :
    (log : List VlogEntry) (k id : Text)
    → k ≢ id
    → find_entry (drop_entry log k) id ≡ find_entry log id
unfolding find_entry drop_entry
find_entry-drop_entry [] k id ne = refl
find_entry-drop_entry (e ∷ es) k id ne =
    ground (arith, find_entry-drop_entry es k id ne, text_eq_iff e.id k, text_eq_iff e.id id)

pub find_entry-append :
    (log : List VlogEntry) (e : VlogEntry) (id : Text)
    → e.id ≢ id
    → find_entry (log ++ (e ∷ [])) id ≡ find_entry log id
unfolding find_entry
find_entry-append [] e id ne = ground (arith, text_eq_iff e.id id)
find_entry-append (x ∷ xs) e id ne = ground (arith, find_entry-append xs e id ne)
