-- ===== src/Erasure/Config/Examples.antt =====
-- Three disks, one of which fails, on which the theorems about the configuration are run. The bytes of
-- a file stand in for its hash.
use gostore.Base.{
  ℕ, ◌≤◌, Text, [], ◌∷◌, true, none, some, Option, Assoc, codes, text_eq, Bytes, ◌≡◌, ◌≢◌, ◌↔◌,
  refl, arith, All, length,
}
use gostore.Erasure.Config.{
  DiskRun, ConfigDisks, read_config, write_config, delete_config, read_all, delete_file,
  config_quorum, blobs,
}
use gostore.Erasure.Config.Plurality.{IsOrder, votes}
use gostore.Erasure.Config.Copies.{
  Holds, read_config-write_config, read_config_repairs, read_config-delete_config,
}

abbrev sha256 : Bytes → Text
sha256 b = b

abbrev in_order : Assoc ℕ → Assoc ℕ
in_order t = t

in_order-IsOrder : IsOrder in_order
in_order-IsOrder = record { keeps = λ P t h. h; covers = λ P t h. h }

abbrev works : DiskRun
works = record { reads_ok = true; write_fails = none; delete_fails = none }

-- It keeps what it holds, and answers.
abbrev sticks : Option Bytes → DiskRun
sticks d = record { reads_ok = true; write_fails = some d; delete_fails = some d }

abbrev old : Bytes
old = codes "{}"

abbrev new : Bytes
new = codes "{1}"

abbrev one_sticks : ConfigDisks
one_sticks = (sticks (some old), some old) ∷ (works, some old) ∷ (works, none) ∷ []

abbrev one_stale : ConfigDisks
one_stale = (works, some old) ∷ (works, some new) ∷ (works, some new) ∷ []

written : (write_config new one_sticks).1 ≡ true
unfolding write_config config_quorum
written = refl

read_config-write_config_example :
    (w : Bytes) × ((read_config sha256 in_order true (write_config new one_sticks).0).0 ≡ some w)
    × (w ≡ new)
read_config-write_config_example =
    read_config-write_config sha256 in_order in_order-IsOrder new one_sticks true
      ((λ h. refl), ((λ h. refl), ((λ h. refl), tt))) written

most : config_quorum (length one_stale) ≤ votes sha256 new (blobs one_stale)
unfolding config_quorum read_all text_eq
most = omega arith

not_empty : [] ≢ new
not_empty h = cc

read_config_repairs_example : All (Holds sha256 new) (read_config sha256 in_order true one_stale).1
read_config_repairs_example =
    read_config_repairs sha256 in_order in_order-IsOrder new one_stale most not_empty
      (refl, (refl, (refl, tt)))

-- The disk that the delete missed still answers.
read_config-delete_config_example :
    ((read_config sha256 in_order true (delete_config one_sticks)).0 ≡ none)
    ↔ All (λ x. read_all x.0 (delete_file x.0 x.1) ≡ none) one_sticks
read_config-delete_config_example =
    read_config-delete_config sha256 in_order in_order-IsOrder one_sticks true
