-- ===== src/Erasure/Config.antt =====
-- internal/erasure/config.go: the configuration, of which every disk of the pool keeps a copy. The state
-- is what each disk holds for one key; what fails on a disk in a call is an input, and so are SHA-256
-- and the order in which a Go map is read out.
pub mod Plurality
pub mod Copies
mod Examples
use gostore.Base.{
  ℕ, zero, suc, ◌+◌, ◌/◌, Text, List, [], ◌∷◌, Bool, true, false, not, Option, none, some, Assoc,
  lookup, insert, ltb, leb, ◌==◌, ◌&&◌, ◌||◌, if◌then◌else◌, text_eq, length, map, count_if, Bytes,
}

-- What one disk does in a run of calls: whether it reads, what a write or a delete that fails leaves
-- of the file, `none` where it succeeds.
pub record DiskRun : Type 0 where
  pub reads_ok : Bool
  pub write_fails : Option (Option Bytes)
  pub delete_fails : Option (Option Bytes)

-- Every disk with the file that it holds for the key.
abbrev pub ConfigDisks : Type 0
ConfigDisks = List (DiskRun × Option Bytes)

unfoldable pub config_quorum : ℕ → ℕ
config_quorum n = n / 2 + 1

-- A file that is empty comes back as nil from another node, and counts as not read: a disk that is
-- there does not read it, in this model.
unfoldable pub read_all : DiskRun → Option Bytes → Option Bytes
read_all r d = if r.reads_ok then d else none

unfoldable pub write_all : Bytes → DiskRun → Option Bytes → Option Bytes
write_all content r d = elim r.write_fails [ none ↦ some content | some left ↦ left ]

abbrev pub is_ok : Option (Option Bytes) → Bool
is_ok none = true
is_ok (some left) = false

unfoldable pub delete_file : DiskRun → Option Bytes → Option Bytes
delete_file r d = elim r.delete_fails [ none ↦ none | some left ↦ left ]

abbrev pub for_all_disks : (DiskRun → Option Bytes → Option Bytes) → ConfigDisks → ConfigDisks
for_all_disks f = map (λ x. (x.0, f x.0 x.1))

abbrev pub blobs : ConfigDisks → List (Option Bytes)
blobs = map (λ x. read_all x.0 x.1)

-- `m[k]`, where a missing key gives the zero value.
abbrev pub count_of : Text → Assoc ℕ → ℕ
count_of h t = elim (lookup h t) [ none ↦ 0 | some n ↦ n ]

abbrev pub sample_of : Text → Assoc Bytes → Bytes
sample_of h s = elim (lookup h s) [ none ↦ [] | some b ↦ b ]

abbrev pub is_found : Option Bytes → Bool
is_found none = false
is_found (some b) = true

-- The loop over the tally. More disks win.
unfoldable pub best_from : Text × ℕ → Assoc ℕ → Text × ℕ
best_from best [] = best
best_from best (e ∷ es) = best_from (if ltb best.1 e.1 then e else best) es

module _ (sha256 : Bytes → Text) where
  unfoldable pub tally_from : Assoc ℕ → List (Option Bytes) → Assoc ℕ
  tally_from t [] = t
  tally_from t (none ∷ bs) = tally_from t bs
  tally_from t (some b ∷ bs) = tally_from (insert (sha256 b) (count_of (sha256 b) t + 1) t) bs

  unfoldable pub samples_from : Assoc Bytes → List (Option Bytes) → Assoc Bytes
  samples_from s [] = s
  samples_from s (none ∷ bs) = samples_from s bs
  samples_from s (some b ∷ bs) = samples_from (insert (sha256 b) b s) bs

  -- Whether the repair writes the winner to a disk.
  unfoldable pub is_stale : Bytes → Text → Option Bytes → Bool
  is_stale w best none = not (length w == 0) || not (text_eq (sha256 []) best)
  is_stale w best (some b) = not (length b == length w) || not (text_eq (sha256 b) best)

  unfoldable pub repair : Bytes → Text → ConfigDisks → ConfigDisks
  unfolding is_stale
  repair w best =
      for_all_disks (λ r d. if is_stale w best (read_all r d) then write_all w r d else d)

  module _ (order : Assoc ℕ → Assoc ℕ) where
    -- The hash that most disks agree on, and how many they are; the zero hash before any.
    unfoldable pub best_of : List (Option Bytes) → Text × ℕ
    unfolding tally_from best_from
    best_of bs = best_from ([], 0) (order (tally_from [] bs))

    -- `ReadConfig`, with what the disks hold after its repair. `gate` is what `repairGate` returns.
    unfoldable pub read_config : Bool → ConfigDisks → Option Bytes × ConfigDisks
    unfolding best_of samples_from repair config_quorum
    read_config gate ds =
        let best = best_of (blobs ds) in
        let winner = sample_of best.0 (samples_from [] (blobs ds)) in
        if count_if is_found (blobs ds) == 0
        then (none, ds)
        else if leb (config_quorum (length ds)) best.1 && ltb best.1 (length ds) && gate
        then (some winner, repair winner best.0 ds)
        else (some winner, ds)

-- `WriteConfig`, with whether it returns nil.
unfoldable pub write_config : Bytes → ConfigDisks → ConfigDisks × Bool
unfolding config_quorum write_all
write_config content ds = (
  for_all_disks (write_all content) ds,
  not (ltb (count_if (λ x. is_ok x.0.write_fails) ds) (config_quorum (length ds))),
)

-- `DeleteConfig`: every error is dropped.
unfoldable pub delete_config : ConfigDisks → ConfigDisks
unfolding delete_file
delete_config ds = for_all_disks delete_file ds
