-- ===== src/Cluster/Grid.antt =====
-- internal/cluster/grid.go and the error codes of rpcserver.go: the frames of the connection between
-- two nodes, the payloads of a call and of its answer, and the loop that hands the answers out. What
-- the connection carries is a list of bytes; `encoding/json` is a parameter.
pub mod Codec
pub mod Stream
use gostore.Base.{
  ℕ, zero, suc, ◌+◌, Text, List, [], ◌∷◌, ◌++◌, map, Bool, true, false, Option, none, some, length,
  take, drop, ltb, ◌==◌, not, any, if◌then◌else◌, codes, Bytes, ◌>>=◌, ◌≡◌, be, put_be, of_be,
  read_full, get_be,
}

-- The errors of internal/storage that have a code on the wire.
pub data Sentinel : Type 0 where
  volume_not_found volume_exists volume_not_empty file_not_found disk_not_found disk_full : Sentinel

-- A Go error: the sentinel that `errors.Is` finds in it, and its text.
pub record GoError : Type 0 where
  pub wraps : Option Sentinel
  pub text : Text

abbrev pub err_text : Sentinel → Text
err_text disk_not_found = codes "storage: disk not found / offline"
err_text disk_full = codes "storage: disk full"
err_text volume_not_found = codes "storage: volume (bucket) not found"
err_text volume_exists = codes "storage: volume already exists"
err_text volume_not_empty = codes "storage: volume not empty"
err_text file_not_found = codes "storage: file not found"

-- The sentinel itself, and an error made by `errors.New`.
abbrev pub sentinel : Sentinel → GoError
sentinel s = record { wraps = some s; text = err_text s }

abbrev pub new_error : Text → GoError
new_error t = record { wraps = none; text = t }

unfoldable pub err_code : Sentinel → ℕ
err_code volume_not_found = 461
err_code volume_exists = 462
err_code volume_not_empty = 463
err_code file_not_found = 464
err_code disk_not_found = 465
err_code disk_full = 466

-- The entry of `errCodes` with a code.
unfoldable pub sentinel_of : ℕ → Option Sentinel
sentinel_of c =
    if c == 461
    then some volume_not_found
    else if c == 462
    then some volume_exists
    else if c == 463
    then some volume_not_empty
    else if c == 464
    then some file_not_found
    else if c == 465
    then some disk_not_found
    else if c == 466
    then some disk_full
    else none

unfoldable pub or_default : Text → Text
or_default [] = codes "cluster rpc failed"
or_default (c ∷ t) = c ∷ t

unfoldable pub decode_err : ℕ → Text → GoError
unfolding sentinel_of or_default
decode_err code body = elim (sentinel_of code) [
  | some s ↦ sentinel s
  | none ↦ new_error (codes "cluster: " ++ or_default body)
]

-- A value and an error, of which the error is nil or the value is not looked at.
pub data Result {ℓ} (A : Type ℓ) : Type ℓ where
  ok : A → Result A
  err : GoError → Result A

-- `gridReply`: exactly one of `body` and `err` is read.
pub data GridReply : Type 0 where
  body : Bytes → GridReply
  failed : GoError → GridReply

abbrev pub u16 : ℕ
u16 = 65536

abbrev pub u32 : ℕ
u32 = 4294967296

abbrev pub u64 : ℕ
u64 = 18446744073709551616

-- The lengths are converted to 16 and 32 bits: `be` keeps the low bytes.
unfoldable pub encode_resp_payload : ℕ → Text → Bytes → Bytes
encode_resp_payload code err_str b = be 2 code ++ (be 4 (length err_str) ++ (err_str ++ b))

unfoldable pub decode_resp_payload : Bytes → GridReply
unfolding decode_err
decode_resp_payload p =
    if ltb (length p) 6
    then failed (new_error (codes "cluster: short grid response"))
    else let code : ℕ = of_be (take 2 p) in
      let el : ℕ = of_be (take 4 (drop 2 p)) in
      let p' : Bytes = drop 4 (drop 2 p) in
      if ltb (length p') el
      then failed (new_error (codes "cluster: corrupt grid response"))
      else if not (code == 0)
      then failed (decode_err code (take el p'))
      else body (drop el p')

-- A value as `encoding/json` writes and reads it.
pub record Json {ℓ} (A : Type ℓ) : Type ℓ where
  pub marshal : A → Bytes
  pub unmarshal : Bytes → Result A

-- Values with a property are read back as they were written. Of texts, `encoding/json` keeps those of
-- valid UTF-8, and puts U+FFFD in place of every other byte.
abbrev pub IsExact {ℓ κ} : {A : Type ℓ} → (A → Type κ) → Json A → Type (ℓ ⊔ κ)
IsExact {A = A} P j = (x : A) → P x → j.unmarshal (j.marshal x) ≡ ok x

-- `url.Values`
abbrev pub Values : Type 0
Values = List (Text × List Text)

unfoldable pub encode_call_payload : Json Values → Text → Values → Bytes → Bytes
encode_call_payload j op q b =
    let qb = j.marshal q in be 2 (length op) ++ (op ++ (be 4 (length qb) ++ (qb ++ b)))

-- The error of `json.Unmarshal` is dropped, and the query is empty then.
unfoldable pub decode_call_payload : Json Values → Bytes → Option (Text × Values × Bytes)
decode_call_payload j p =
    if ltb (length p) 2
    then none
    else let ol : ℕ = of_be (take 2 p) in
      let p1 : Bytes = drop 2 p in
      if ltb (length p1) (ol + 4)
      then none
      else let op : Text = take ol p1 in
        let p2 : Bytes = drop ol p1 in
        let ql : ℕ = of_be (take 4 p2) in
        let p3 : Bytes = drop 4 p2 in
        if ltb (length p3) ql
        then none
        else some (op, elim (j.unmarshal (take ql p3)) [ err e ↦ [] | ok q ↦ q ], drop ql p3)

abbrev pub f_call : ℕ
f_call = 1

abbrev pub f_resp : ℕ
f_resp = 2

abbrev pub f_ping : ℕ
f_ping = 3

abbrev pub f_pong : ℕ
f_pong = 4

pub record Frame : Type 0 where
  pub typ : ℕ
  pub id : ℕ
  pub payload : Bytes

-- What `writeFrame` puts on an open connection.
unfoldable pub write_frame : Frame → Bytes
write_frame f = (f.typ ∷ be 8 f.id ++ be 4 (length f.payload)) ++ f.payload

-- One round of `readLoop`, and of the loop of `handleGrid`, up to the switch on the type: nothing
-- where the connection ends first.
unfoldable pub read_frame : Bytes → Option (Frame × Bytes)
read_frame bs = do
  (hdr, rest) ← read_full 13 bs
  let n = of_be (take 4 (drop 9 hdr))
  (payload, rest') ← if ltb 0 n then read_full n rest else some ([], rest)
  some (
    record { typ = of_be (take 1 hdr); id = of_be (take 8 (drop 1 hdr)); payload = payload },
    rest',
  )

-- The client's end: the calls that wait, by id, and the answers that were handed out, in order.
pub record GridConn : Type 0 where
  pub up : Bool
  pub pending : List ℕ
  pub handed : List (ℕ × GridReply)

unfoldable pub delete_id : ℕ → List ℕ → List ℕ
delete_id i [] = []
delete_id i (j ∷ js) = let rest = delete_id i js in if i == j then rest else j ∷ rest

-- `fail`: the connection is down, and every call that waits gets the error.
unfoldable pub fail : GridConn → GoError → GridConn
fail g reason = record {
  up = false;
  pending = [];
  handed = g.handed ++ map (λ i. (i, failed reason)) g.pending;
}

-- The switch of `readLoop`.
unfoldable pub on_frame : GridConn → Frame → GridConn
unfolding decode_resp_payload delete_id
on_frame g f =
    if f.typ == f_resp
    then (if any (λ i. f.id == i) g.pending
        then record g {
          pending = delete_id f.id g.pending;
          handed = g.handed ++ ((f.id, decode_resp_payload f.payload) ∷ []);
        }
        else g)
    else g

-- `readLoop`, on what the connection carries until it ends with `reason`; each round takes at least the
-- 13 bytes of a header.
unfoldable pub read_loop : ℕ → GoError → GridConn → Bytes → GridConn
unfolding read_frame on_frame fail
read_loop zero reason g bs = g
read_loop (suc fuel) reason g bs = elim (read_frame bs) [
  | none ↦ fail g reason
  | some (f, rest) ↦ read_loop fuel reason (on_frame g f) rest
]
