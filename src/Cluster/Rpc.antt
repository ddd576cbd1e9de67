-- ===== src/Cluster/Rpc.antt =====
-- internal/cluster/rpcserver.go: the operations that a node serves on its disks over the connection
-- of internal/cluster/grid.go. What a disk does is a record of functions on its state.
pub mod Remote
pub mod Queries
pub mod Transparent
pub mod Dial
mod Examples
use gostore.Base.{
  ℕ, zero, suc, Text, List, [], ◌∷◌, ◌++◌, Bool, true, false, Option, none, some, text_eq, any,
  ◌==◌, if◌then◌else◌, codes, Bytes, parse_int, lookup, get_elem?, String,
}
use gostore.Cluster.Grid.{
  GoError, new_error, err_code, Result, ok, err, Json, Values, encode_resp_payload,
  decode_call_payload, Frame, f_call, f_resp, f_ping, f_pong,
}

-- `diskRPC`, less the two operations that stream: the state after a call, and its error or result.
pub record DiskRpc {ℓ} (D V I : Type ℓ) : Type ℓ where
  pub make_vol : D → Text → D × Option GoError
  pub stat_vol : D → Text → Result V
  pub list_vols : D → Result (List V)
  pub delete_vol : D → Text → Bool → D × Option GoError
  pub write_all : D → Text → Text → Bytes → D × Option GoError
  pub read_all : D → Text → Text → Result Bytes
  pub rename_dir : D → Text → Text → Text → Text → D × Option GoError
  pub delete : D → Text → Text → Bool → D × Option GoError
  pub list_dir : D → Text → Text → Result (List Text)
  pub disk_info : D → Result I

-- How the values that are answered are written as JSON.
pub record Wire {ℓ} (V I : Type ℓ) : Type ℓ where
  pub values : Json Values
  pub vol : Json V
  pub vols : Json (List V)
  pub names : Json (List Text)
  pub disk : Json I

-- `q.Get(k)`
unfoldable pub get_value : Values → Text → Text
unfolding lookup
get_value q k = elim (lookup k q) [ none ↦ [] | some [] ↦ [] | some (v ∷ vs) ↦ v ]

-- `strconv.ParseBool`, with its error ignored.
unfoldable pub parse_bool : Text → Bool
unfolding text_eq
parse_bool t =
    any (λ s. text_eq t s)
      (codes "1" ∷ codes "t" ∷ codes "T" ∷ codes "TRUE" ∷ codes "true" ∷ codes "True" ∷ [])

abbrev pub Response : Type 0
Response = ℕ × Text × Bytes

-- The code of an error, 500 where it has none of its own.
unfoldable pub code_of : GoError → ℕ
unfolding err_code
code_of e = elim e.wraps [ some s ↦ err_code s | none ↦ 500 ]

-- `fail`
unfoldable pub fail : Option GoError → Response
unfolding code_of
fail none = (0, [], [])
fail (some e) = (code_of e, e.text, [])

-- The result of an operation that answers a value, written by `j`.
unfoldable pub reply {κ} : {A : Type κ} → (A → Bytes) → Result A → Response
unfolding fail
reply j (ok a) = (0, [], j a)
reply j (err e) = fail (some e)

module _ {ℓ} {D V I : Type ℓ} (disk : DiskRpc D V I) (wire : Wire V I) where
  -- `dispatchUnary`
  unfoldable pub dispatch_unary : D → Text → Values → Bytes → D × Response
  unfolding fail reply get_value parse_bool text_eq
  dispatch_unary d op q b =
      let is : Text → Bool = text_eq op in
      let bucket : Text = get_value q (codes "bucket") in
      let object : Text = get_value q (codes "object") in
      let done : D × Option GoError → D × Response = λ r. (r.0, fail r.1) in
      if is (codes "ping")
      then (d, (0, [], []))
      else if is (codes "makevol")
      then done (disk.make_vol d bucket)
      else if is (codes "statvol")
      then (d, reply wire.vol.marshal (disk.stat_vol d bucket))
      else if is (codes "listvols")
      then (d, reply wire.vols.marshal (disk.list_vols d))
      else if is (codes "deletevol")
      then done (disk.delete_vol d bucket (parse_bool (get_value q (codes "force"))))
      else if is (codes "writeall")
      then done (disk.write_all d bucket object b)
      else if is (codes "readall")
      then (d, reply (λ x. x) (disk.read_all d bucket object))
      else if is (codes "renamedir")
      then done (
          disk.rename_dir d (get_value q (codes "srcBucket")) (get_value q (codes "srcObject"))
            (get_value q (codes "dstBucket")) (get_value q (codes "dstObject")))
      else if is (codes "delete")
      then done (disk.delete d bucket object (parse_bool (get_value q (codes "recursive"))))
      else if is (codes "listdir")
      then (d, reply wire.names.marshal (disk.list_dir d bucket (get_value q (codes "dir"))))
      else if is (codes "diskinfo")
      then (d, reply wire.disk.marshal (disk.disk_info d))
      else (d, (404, codes "unknown op", []))

  -- The disk at an index, changed by a call.
  unfoldable pub on_disk : List D → ℕ → (D → D × Response) → Option (List D × Response)
  on_disk [] i f = none
  on_disk (d ∷ ds) zero f = let (d', r) = f d in some (d' ∷ ds, r)
  on_disk (d ∷ ds) (suc i) f = elim (on_disk ds i f) [
    | none ↦ none
    | some (ds', r) ↦ some (d ∷ ds', r)
  ]

  -- `diskByQ`, and the call on the disk that it finds.
  unfoldable pub disk_by_q : List D → Values → (D → D × Response) → Option (List D × Response)
  unfolding on_disk get_value
  disk_by_q ds q f = elim (parse_int 10 (get_value q (codes "disk"))) [
    | none ↦ none
    | some i ↦ on_disk ds i f
  ]

  -- What `handleGrid` answers to the payload of a call.
  unfoldable pub serve_call : List D → Bytes → List D × Bytes
  unfolding disk_by_q
  serve_call ds payload = elim (decode_call_payload wire.values payload) [
    | none ↦ (ds, encode_resp_payload 400 (codes "bad grid call payload") [])
    | some (op, q, b) ↦ elim (disk_by_q ds q (λ d. dispatch_unary d op q b)) [
      | none ↦ (ds, encode_resp_payload 400 (codes "bad disk index") [])
      | some (ds', (code, err_str, out)) ↦ (ds', encode_resp_payload code err_str out)
    ]
  ]

  -- One round of the loop of `handleGrid`: the frame that it writes back, if any.
  unfoldable pub serve_frame : List D → Frame → List D × Option Frame
  unfolding serve_call
  serve_frame ds f =
      if f.typ == f_ping
      then (ds, some (record { typ = f_pong; id = f.id; payload = [] }))
      else if f.typ == f_call
      then (let (ds', answer) = serve_call ds f.payload in
          (ds', some (record { typ = f_resp; id = f.id; payload = answer })))
      else (ds, none)
