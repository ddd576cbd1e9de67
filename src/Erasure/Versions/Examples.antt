-- ===== src/Erasure/Versions/Examples.antt =====
-- A key with a locked version and a newer one, on which the theorems about versions are run.
use gostore.Base.{
  ℕ, Text, [], ◌∷◌, ◌++◌, true, false, none, some, lookup, codes, text_eq, ◌≡◌, ◌≢◌, refl, arith,
  inl, has_prefix,
}
use gostore.Erasure.XlMeta.{XlMeta}
use gostore.Erasure.Names.{valid_object_name, contains, split}
use gostore.Erasure.Versions.{
  VlogEntry, Versions, PutOptions, PutRun, put_versioned, with_version, null_version_id, id_of,
  DeleteOptions, DeleteRun, delete_versioned, marker, find_entry, store_version, lock_blocks,
  meta_at, resolve_version_dir,
}
use gostore.Erasure.Versions.Stored.{stored}
use gostore.Erasure.Versions.Keep.{put_keeps_versions, delete_keeps_versions}
use gostore.Erasure.Versions.Suspended.{suspended_put_loses}
use gostore.Erasure.Versions.Worm.{put, remove, serve_all}
use gostore.Erasure.Versions.Worm.Lock.{locked_version_stays}

abbrev object : Text → ℕ → XlMeta
object id retain = record {
  version = 1;
  erasure = record {
    algorithm = [];
    data_blocks = 2;
    parity_blocks = 2;
    block_size = 1;
    distribution = [];
    checksum_algo = [];
  };
  revision = 1;
  data_ref = [];
  tier = [];
  tier_key = [];
  size = 5;
  mod_time = 7;
  etag = codes "e";
  version_id = id;
  lock_mode = codes "COMPLIANCE";
  retain_until = retain;
  legal_hold = false;
  content_type = [];
  content_enc = [];
  user_meta = [];
  user_tags = [];
  parts = [];
  inline = none;
  compressed = [];
  sse = [];
  plain_size = 0;
  enc_dek = [];
  nonce_prefix = [];
}

abbrev entry : Text → ℕ → VlogEntry
entry id retain = record {
  id = id;
  delete_marker = false;
  mod_time = 7;
  lock_mode = codes "COMPLIANCE";
  retain_until = retain;
  legal_hold = false;
}

-- Version a is archived and locked until time 100, version b is live.
abbrev two_versions : Versions
two_versions = record {
  vlog = entry (codes "a") 100 ∷ entry (codes "b") 0 ∷ [];
  live = some (object (codes "b") 0);
  archived = (codes "a", object (codes "a") 100) ∷ [];
}

abbrev null_locked : Versions
null_locked = record {
  vlog = entry null_version_id 100 ∷ [];
  live = some (object null_version_id 100);
  archived = [];
}

abbrev plain : PutOptions
plain = record { suspended = false; lock_mode = []; retain_until = 0; legal_hold = []; mtime = 0 }

abbrev put_c : PutRun
put_c = record {
  bucket_ok = true;
  fresh = codes "c";
  archive_fails = none;
  put_fails = none;
  deletes = true;
  rewritten = true;
  log = record { quorum = true; seen = true };
}

abbrev delete_d : DeleteRun
delete_d = record {
  now = 50;
  fresh = codes "d";
  archive_fails = none;
  deletes = true;
  promotes = true;
  log = record { quorum = true; seen = true };
}

abbrev no_id : DeleteOptions
no_id = record { version_id = []; suspended = false; bypass_governance = false }

put_keeps_versions_example :
    (stored (put_versioned put_c plain (codes "k") (object [] 0) two_versions).1 (codes "c")
      ≡ some (with_version (object [] 0) (codes "c") plain))
    × (codes "c" ≢ codes "a"
        → stored (put_versioned put_c plain (codes "k") (object [] 0) two_versions).1 (codes "a")
          ≡ stored two_versions (codes "a"))
unfolding put_versioned valid_object_name store_version text_eq contains split has_prefix
put_keeps_versions_example =
    put_keeps_versions put_c plain (codes "k") (object [] 0) two_versions (codes "a") refl refl
      (λ q. grind arith) (λ q. grind arith) refl

delete_keeps_versions_example :
    (stored (delete_versioned delete_d no_id two_versions).1 (codes "b")
      ≡ stored two_versions (codes "b"))
    × (stored (delete_versioned delete_d no_id two_versions).1 [] ≡ none)
    × (delete_d.log.seen ≡ true
        → (delete_versioned delete_d no_id two_versions).1.vlog
          ≡ two_versions.vlog ++ (marker (codes "d") 50 ∷ []))
delete_keeps_versions_example =
    delete_keeps_versions delete_d no_id two_versions (codes "b") refl refl refl (λ q. grind arith)

abbrev off : PutOptions
off = record plain { suspended = true }

suspended_put_loses_example :
    (stored two_versions (id_of (object (codes "b") 0)) ≡ some (object (codes "b") 0))
    × (stored
          (put_versioned put_c off (codes "k") (object [] 0) two_versions).1
          (id_of (object (codes "b") 0))
        ≡ none)
unfolding put_versioned valid_object_name store_version text_eq contains split has_prefix id_of
    lookup
suspended_put_loses_example =
    suspended_put_loses put_c off (codes "k") (object [] 0) (object (codes "b") 0) two_versions refl
      refl refl (λ q. grind arith) refl refl

abbrev remove_b : DeleteOptions
remove_b = record { version_id = codes "b"; suspended = false; bypass_governance = true }

abbrev remove_a : DeleteOptions
remove_a = record { version_id = codes "a"; suspended = false; bypass_governance = true }

locked_version_stays_example :
    let calls =
      remove delete_d remove_b
      ∷ put put_c plain (codes "k") (object [] 0)
      ∷ remove delete_d remove_a
      ∷ [] in
    (stored (serve_all two_versions calls) (codes "a") ≡ some (object (codes "a") 100))
    × (find_entry (serve_all two_versions calls).vlog (codes "a") ≡ some (entry (codes "a") 100))
unfolding find_entry lock_blocks text_eq id_of lookup meta_at resolve_version_dir
locked_version_stays_example =
    locked_version_stays (codes "a") (entry (codes "a") 100) (object (codes "a") 100) two_versions
      (remove delete_d remove_b
        ∷ put put_c plain (codes "k") (object [] 0)
        ∷ remove delete_d remove_a
        ∷ [])
      (λ q. grind arith) refl refl (refl, tt)
      (
        (refl, λ q. grind arith, refl, refl),
        (
          (refl, λ q. grind arith, λ q. grind arith, refl, refl, inl refl),
          ((refl, λ q. grind arith, refl, refl), tt),
        ),
      )
