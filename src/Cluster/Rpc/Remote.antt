-- ===== src/Cluster/Rpc/Remote.antt =====
-- internal/cluster/remotedisk.go, RemoteDisk: the methods of a disk that another node serves, and the
-- way of a call over the connection between the two.
use gostore.Base.{
  ℕ, Text, List, [], ◌∷◌, ◌++◌, Bool, true, Option, none, some, codes, Bytes, ◌>>=◌, format_int,
  insert, lookup, if◌then◌else◌,
}
use gostore.Cluster.Grid.{
  GoError, new_error, sentinel, or_default, Result, ok, err, GridReply, body, failed, Values,
  encode_call_payload, f_call, write_frame, read_frame, read_loop,
}
use gostore.Cluster.Rpc.{DiskRpc, Wire, serve_frame}

-- A call of one of the methods.
pub data DiskCall : Type 0 where
  make_vol stat_vol : Text → DiskCall
  list_vols : DiskCall
  delete_vol : Text → Bool → DiskCall
  write_all : Text → Text → Bytes → DiskCall
  read_all : Text → Text → DiskCall
  rename_dir : Text → Text → Text → Text → DiskCall
  delete_path : Text → Text → Bool → DiskCall
  list_dir : Text → Text → DiskCall
  disk_info : DiskCall

-- What the methods answer.
pub data Answer {ℓ} (V I : Type ℓ) : Type ℓ where
  done : Answer V I
  vol : V → Answer V I
  vols : List V → Answer V I
  bytes : Bytes → Answer V I
  names : List Text → Answer V I
  info : I → Answer V I

-- `strconv.FormatBool`
unfoldable pub format_bool : Bool → Text
format_bool b = if b then codes "true" else codes "false"

-- `out.Add(k, v)`
unfoldable pub add_value : Values → Text → Text → Values
unfolding lookup insert
add_value q k v = insert k (elim (lookup k q) [ none ↦ v ∷ [] | some vs ↦ vs ++ (v ∷ []) ]) q

unfoldable pub add_values : Values → Text → List Text → Values
unfolding add_value
add_values q k [] = q
add_values q k (v ∷ vs) = add_values (add_value q k v) k vs

-- `q`, on the index of the disk as text.
unfoldable pub add_all : Values → Values → Values
unfolding add_values
add_all q [] = q
add_all q ((k, vs) ∷ extra) = add_all (add_values q k vs) extra

unfoldable pub base_q : Text → Values → Values
unfolding add_all
base_q idx extra = add_all ((codes "disk", idx ∷ []) ∷ []) extra

-- The name, the query and the body that each method sends.
unfoldable pub request_of : DiskCall → Text × Values × Bytes
unfolding format_bool
request_of (make_vol b) = (codes "makevol", (codes "bucket", b ∷ []) ∷ [], [])
request_of (stat_vol b) = (codes "statvol", (codes "bucket", b ∷ []) ∷ [], [])
request_of list_vols = (codes "listvols", [], [])
request_of (delete_vol b force) =
    (codes "deletevol", (codes "bucket", b ∷ []) ∷ (codes "force", format_bool force ∷ []) ∷ [], [])
request_of (write_all b o d) =
    (codes "writeall", (codes "bucket", b ∷ []) ∷ (codes "object", o ∷ []) ∷ [], d)
request_of (read_all b o) =
    (codes "readall", (codes "bucket", b ∷ []) ∷ (codes "object", o ∷ []) ∷ [], [])
request_of (rename_dir sb so db do') = (
  codes "renamedir",
  (codes "srcBucket", sb ∷ [])
      ∷ (codes "srcObject", so ∷ [])
      ∷ (codes "dstBucket", db ∷ [])
      ∷ (codes "dstObject", do' ∷ [])
      ∷ [],
  [],
)
request_of (delete_path b o recursive) = (
  codes "delete",
  (codes "bucket", b ∷ [])
      ∷ (codes "object", o ∷ [])
      ∷ (codes "recursive", format_bool recursive ∷ [])
      ∷ [],
  [],
)
request_of (list_dir b dir) =
    (codes "listdir", (codes "bucket", b ∷ []) ∷ (codes "dir", dir ∷ []) ∷ [], [])
request_of disk_info = (codes "diskinfo", [], [])

-- What `readLoop` hands to the call with an id, where it is the only one that waits.
unfoldable pub hand_out : ℕ → Bytes → Option GridReply
hand_out id bs =
    elim (read_loop 2 (new_error (codes "EOF"))
      (record { up = true; pending = id ∷ []; handed = [] }) bs).handed [
        | [] ↦ none
        | x ∷ _ ↦ some x.1
      ]

module _ {ℓ} {D V I : Type ℓ} (disk : DiskRpc D V I) (wire : Wire V I) where
  abbrev pub map_ok {κ} : {A : Type κ} → (A → Answer V I) → Result A → Result (Answer V I)
  map_ok f (ok a) = ok (f a)
  map_ok f (err e) = err e

  -- `call` and `unary` on what the other node answered: the body is JSON, except for `readall`, and is
  -- not looked at where the method answers an error only.
  unfoldable pub read_answer : DiskCall → GridReply → Result (Answer V I)
  read_answer c (failed e) = err e
  read_answer (stat_vol b) (body resp) = map_ok vol (wire.vol.unmarshal resp)
  read_answer list_vols (body resp) = map_ok vols (wire.vols.unmarshal resp)
  read_answer (read_all b o) (body resp) = ok (bytes resp)
  read_answer (list_dir b dir) (body resp) = map_ok names (wire.names.unmarshal resp)
  read_answer disk_info (body resp) = map_ok info (wire.disk.unmarshal resp)
  read_answer _ (body resp) = ok done

  abbrev pub call_payload : ℕ → DiskCall → Bytes
  call_payload idx c =
      let (op, extra, b) = request_of c in
      encode_call_payload wire.values op (base_q (format_int 10 idx) extra) b

  -- A call over a connection that is up and carries both frames whole: the frame of the call is read
  -- and served by the other node, and the frame that it writes is handed out by `readLoop`. Nothing
  -- comes back where the other node writes no frame.
  unfoldable pub remote_call : List D → ℕ → ℕ → DiskCall → Option (List D × Result (Answer V I))
  unfolding hand_out
  remote_call ds idx id c = do
    (f, rest) ←
        read_frame (write_frame (record { typ = f_call; id = id; payload = call_payload idx c }))
    let (ds', back) = serve_frame disk wire ds f
    f' ← back
    r ← hand_out id (write_frame f')
    some (ds', read_answer c r)

  abbrev pub as_done : D × Option GoError → D × Result (Answer V I)
  as_done (d, none) = (d, ok done)
  as_done (d, some e) = (d, err e)

  -- The same call on the disk itself.
  abbrev pub local_call : D → DiskCall → D × Result (Answer V I)
  local_call d (make_vol b) = as_done (disk.make_vol d b)
  local_call d (stat_vol b) = (d, map_ok vol (disk.stat_vol d b))
  local_call d list_vols = (d, map_ok vols (disk.list_vols d))
  local_call d (delete_vol b force) = as_done (disk.delete_vol d b force)
  local_call d (write_all b o data') = as_done (disk.write_all d b o data')
  local_call d (read_all b o) = (d, map_ok bytes (disk.read_all d b o))
  local_call d (rename_dir sb so db do') = as_done (disk.rename_dir d sb so db do')
  local_call d (delete_path b o recursive) = as_done (disk.delete d b o recursive)
  local_call d (list_dir b dir) = (d, map_ok names (disk.list_dir d b dir))
  local_call d disk_info = (d, map_ok info (disk.disk_info d))

-- An error as the caller on the other node sees it: a sentinel of internal/storage stays one, with its
-- own text; of any other error only the text is left.
unfoldable pub seen_from_afar : GoError → GoError
unfolding or_default
seen_from_afar e = elim e.wraps [
  | some s ↦ sentinel s
  | none ↦ new_error (codes "cluster: " ++ or_default e.text)
]
