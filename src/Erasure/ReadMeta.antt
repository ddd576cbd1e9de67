-- ===== src/Erasure/ReadMeta.antt =====
-- internal/erasure/set.go, readMeta: the version of the metadata that a read quorum of the disks
-- agree on. `reads` is what each disk would return, `none` where it fails or holds no metadata that
-- parses. A Go map is read out in any order: `order` gives the one of a run.
pub mod Tally
pub mod Majority
use gostore.Base.{
  ℕ, zero, suc, ◌+◌, Text, List, [], ◌∷◌, Bool, true, false, not, Option, none, some, ltb, leb,
  ◌==◌, ◌&&◌, if◌then◌else◌, text_eq, take, length, count_if,
}
use gostore.Erasure.XlMeta.{XlMeta, Digest, content_hash}

-- The versions that were read, with how many disks had each and the last one seen.
pub record Entry : Type 0 where
  pub hash : Text
  pub count : ℕ
  pub sample : XlMeta

pub data ReadError : Type 0 where
  file_not_found corrupt : ReadError

pub data ReadResult : Type 0 where
  found : XlMeta → ReadResult
  failed : ReadError → ReadResult

abbrev pub is_present : Option XlMeta → Bool
is_present none = false
is_present (some m) = true

-- `tally[h]++; sample[h] = m`
unfoldable pub bump : Text → XlMeta → List Entry → List Entry
bump h m [] = record { hash = h; count = 1; sample = m } ∷ []
bump h m (e ∷ es) =
    if text_eq e.hash h
    then record { hash = e.hash; count = e.count + 1; sample = m } ∷ es
    else e ∷ bump h m es

unfoldable pub tally_from : Digest → List Entry → List (Option XlMeta) → List Entry
tally_from digest es [] = es
tally_from digest es (none ∷ ms) = tally_from digest es ms
tally_from digest es (some m ∷ ms) = tally_from digest (bump (content_hash digest m) m es) ms

-- The loop over the tally: more disks win, and of equally many the higher revision.
abbrev pub better : Option Entry → Entry → Option Entry
better none e = some e
better (some b) e =
    if ltb b.count e.count
    then some e
    else if e.count == b.count && ltb b.sample.revision e.sample.revision
    then some e
    else some b

unfoldable pub pick_from : Option Entry → List Entry → Option Entry
pick_from best [] = best
pick_from best (e ∷ es) = pick_from (better best e) es

abbrev pub best_count : Option Entry → ℕ
best_count none = 0
best_count (some e) = e.count

-- The winner if it has the quorum.
unfoldable pub quorum_winner : ℕ → Option Entry → Option XlMeta
quorum_winner q none = none
quorum_winner q (some e) = if leb q e.count then some e.sample else none

-- What is returned for the winners of the two rounds and the number of disks that had metadata.
unfoldable pub answer : Option XlMeta → Option XlMeta → ℕ → ReadResult
answer (some m) second have = found m
answer none (some m) have = found m
answer none none have = if have == 0 then failed file_not_found else failed corrupt

module _ (digest : Digest) (order : List Entry → List Entry) where
  -- `decide`: the winner, where there is one, and how many disks had anything.
  unfoldable pub decide : List (Option XlMeta) → Option Entry × ℕ
  unfolding pick_from
  decide metas = (pick_from none (order (tally_from digest [] metas)), count_if is_present metas)

  -- A read quorum of disks is asked first, the others only where those do not agree.
  unfoldable pub read_meta : ℕ → List (Option XlMeta) → ReadResult
  unfolding answer
  read_meta q reads =
      answer (quorum_winner q (decide (take q reads)).0) (quorum_winner q (decide reads).0)
        (decide reads).1
