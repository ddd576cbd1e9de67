-- ===== src/Cluster/Rpc/Transparent.antt =====
-- internal/cluster/remotedisk.go and rpcserver.go: a disk of another node answers as the disk itself.
use mathlib.Core.List.{append-nil}
use gostore.Base.{
  All, IsUtf8, ascii-IsUtf8, format_int-ascii, ℕ, zero, suc, ◌<◌, ◌≤◌, ◌≡◌, refl, ap, ◌∙◌, arith,
  Text, List, [], ◌∷◌, true, false, Option, none, some, codes, Bytes, length, read_full, ==-refl,
  text_eq, format_int, get_elem?, ◌==◌, parse_int-format_int, max_i64,
}
use gostore.Cluster.Grid.{
  Sentinel, volume_not_found, volume_exists, volume_not_empty, file_not_found, disk_not_found,
  disk_full, GoError, Result, ok, err, body, failed, Values, IsExact, decode_err, u16, u32, u64,
  f_resp, decode_resp_payload, delete_id, encode_resp_payload, decode_call_payload, Frame, f_call,
  write_frame, read_frame, read_loop,
}
use gostore.Cluster.Grid.Codec.{
  decode_call_payload-encode_call_payload, decode_resp_payload-encode_resp_payload,
  length-encode_call_payload, length-encode_resp_payload, IsFrame, read_frame-write_frame,
}
use gostore.Cluster.Rpc.{
  DiskRpc, Wire, serve_frame, serve_call, dispatch_unary, on_disk, disk_by_q, get_value, Response,
  code_of, fail, reply,
}
use gostore.Cluster.Rpc.Queries.{HasUtf8, CallHasUtf8, SameMap, get_value-SameMap, base_q-HasUtf8}
use gostore.Cluster.Rpc.Remote.{
  DiskCall, make_vol, stat_vol, list_vols, delete_vol, write_all, read_all, rename_dir, delete_path,
  list_dir, disk_info, Answer, done, vol, vols, bytes, names, info, base_q, request_of, map_ok,
  read_answer, call_payload, remote_call, local_call, as_done, hand_out, seen_from_afar,
}

err_code-sentinel : (e : GoError) → decode_err (code_of e) e.text ≡ seen_from_afar e
unfolding decode_err code_of seen_from_afar
err_code-sentinel e = by_cases e.wraps
  where
    by_cases :
        (w : Option Sentinel)
        → decode_err (code_of (record { wraps = w; text = e.text })) e.text
          ≡ seen_from_afar (record { wraps = w; text = e.text })
    by_cases none = refl
    by_cases (some volume_not_found) = refl
    by_cases (some volume_exists) = refl
    by_cases (some volume_not_empty) = refl
    by_cases (some file_not_found) = refl
    by_cases (some disk_not_found) = refl
    by_cases (some disk_full) = refl

code_of-bounds : (e : GoError) → (0 < code_of e) × (code_of e < u16)
unfolding code_of
code_of-bounds e = by_cases e.wraps
  where
    by_cases :
        (w : Option Sentinel)
        → (0 < code_of (record { wraps = w; text = [] }))
          × (code_of (record { wraps = w; text = [] }) < u16)
    by_cases none = (omega arith, omega arith)
    by_cases (some volume_not_found) = (omega arith, omega arith)
    by_cases (some volume_exists) = (omega arith, omega arith)
    by_cases (some volume_not_empty) = (omega arith, omega arith)
    by_cases (some file_not_found) = (omega arith, omega arith)
    by_cases (some disk_not_found) = (omega arith, omega arith)
    by_cases (some disk_full) = (omega arith, omega arith)

module _ {ℓ} {D V I : Type ℓ} (disk : DiskRpc D V I) (wire : Wire V I) where
  -- JSON reads a query of valid UTF-8 back as a map with the same values, names of valid UTF-8 as they
  -- were written, and so the volumes and the information of a disk that have the properties `P` and
  -- `Q`.
  abbrev pub IsExactWire : (V → Type 0) → (I → Type 0) → Type ℓ
  IsExactWire P Q =
      ((q : Values)
        → HasUtf8 q
        → (q' : Values) × (wire.values.unmarshal (wire.values.marshal q) ≡ ok q') × SameMap q q')
      × IsExact P wire.vol
      × IsExact (All P) wire.vols
      × IsExact (All IsUtf8) wire.names
      × IsExact Q wire.disk

  -- An answer of values that JSON keeps.
  abbrev pub IsKept : (V → Type 0) → (I → Type 0) → Result (Answer V I) → Type 0
  IsKept P Q (ok done) = Unit
  IsKept P Q (ok (vol v)) = P v
  IsKept P Q (ok (vols vs)) = All P vs
  IsKept P Q (ok (bytes b)) = Unit
  IsKept P Q (ok (names ns)) = All IsUtf8 ns
  IsKept P Q (ok (info i)) = Q i
  IsKept P Q (err e) = Unit

  write_answer : Answer V I → Bytes
  write_answer done = []
  write_answer (vol v) = wire.vol.marshal v
  write_answer (vols vs) = wire.vols.marshal vs
  write_answer (bytes b) = b
  write_answer (names ns) = wire.names.marshal ns
  write_answer (info i) = wire.disk.marshal i

  response_of : Result (Answer V I) → Response
  response_of (ok a) = (0, [], write_answer a)
  response_of (err e) = (code_of e, e.text, [])

  fail-as_done :
      (r : D × Option GoError)
      → Path
          (D × Response)
          (r.0, fail r.1)
          ((as_done disk wire r).0, response_of (as_done disk wire r).1)
  unfolding fail response_of write_answer
  fail-as_done (d, none) = refl
  fail-as_done (d, some e) = refl

  reply-map_ok {κ} :
      {A : Type κ} (f : A → Answer V I) (j : A → Bytes) (r : Result A)
      → ((x : A) → j x ≡ write_answer (f x))
      → reply j r ≡ response_of (map_ok disk wire f r)
  unfolding response_of reply fail
  reply-map_ok f j (ok x) h = ap (λ b. (0, [], b)) (h x)
  reply-map_ok f j (err e) h = refl

  same_disk {κ} :
      {A : Type κ} (d : D) (f : A → Answer V I) (j : A → Bytes) (r : Result A)
      → ((x : A) → j x ≡ write_answer (f x))
      → Path (D × Response) (d, reply j r) (d, response_of (map_ok disk wire f r))
  same_disk d f j r h = ap (λ x. (d, x)) (reply-map_ok f j r h)

  dispatch_unary-request_of :
      (d : D) (t : Text) (c : DiskCall)
      → dispatch_unary disk wire d (request_of c).0 (base_q t (request_of c).1) (request_of c).2
        ≡ ((local_call disk wire d c).0, response_of (local_call disk wire d c).1)
  unfolding dispatch_unary request_of base_q
  dispatch_unary-request_of d t (make_vol b) = fail-as_done (disk.make_vol d b)
  dispatch_unary-request_of d t (stat_vol b) =
      same_disk d vol wire.vol.marshal (disk.stat_vol d b) (λ x. unfold write_answer in refl)
  dispatch_unary-request_of d t list_vols =
      same_disk d vols wire.vols.marshal (disk.list_vols d) (λ x. unfold write_answer in refl)
  dispatch_unary-request_of d t (delete_vol b true) = fail-as_done (disk.delete_vol d b true)
  dispatch_unary-request_of d t (delete_vol b false) = fail-as_done (disk.delete_vol d b false)
  dispatch_unary-request_of d t (write_all b o data') = fail-as_done (disk.write_all d b o data')
  dispatch_unary-request_of d t (read_all b o) =
      same_disk d bytes (λ x. x) (disk.read_all d b o) (λ x. unfold write_answer in refl)
  dispatch_unary-request_of d t (rename_dir sb so db do') =
      fail-as_done (disk.rename_dir d sb so db do')
  dispatch_unary-request_of d t (delete_path b o true) = fail-as_done (disk.delete d b o true)
  dispatch_unary-request_of d t (delete_path b o false) = fail-as_done (disk.delete d b o false)
  dispatch_unary-request_of d t (list_dir b dir) =
      same_disk d names wire.names.marshal (disk.list_dir d b dir)
        (λ x. unfold write_answer in refl)
  dispatch_unary-request_of d t disk_info =
      same_disk d info wire.disk.marshal (disk.disk_info d) (λ x. unfold write_answer in refl)

  abbrev from_afar : Result (Answer V I) → Result (Answer V I)
  from_afar (ok a) = ok a
  from_afar (err e) = err (seen_from_afar e)

  -- What the client makes of a response, once it has been decoded.
  finish : DiskCall → Response → Result (Answer V I)
  finish c (code, text, out) =
      read_answer disk wire c
        (elim (code == 0) [ true ↦ body out | false ↦ failed (decode_err code text) ])

  read_answer_failed : (c : DiskCall) (e : GoError) → read_answer disk wire c (failed e) ≡ err e
  unfolding read_answer
  read_answer_failed c e = refl

  finish-err :
      (c : DiskCall) (e : GoError) → finish c (response_of (err e)) ≡ err (seen_from_afar e)
  unfolding finish response_of
  finish-err c e =
      let some_code : (code_of e == 0) ≡ false = ground (arith, (code_of-bounds e).0) in
      rw (some_code, finish)
        (ap (λ x. read_answer disk wire c (failed x)) (err_code-sentinel e)
          ∙ read_answer_failed c (seen_from_afar e))

  finish-done :
      (c : DiskCall) (r : D × Option GoError)
      → ((b : Bytes) → read_answer disk wire c (body b) ≡ ok done)
      → finish c (response_of (as_done disk wire r).1) ≡ from_afar (as_done disk wire r).1
  unfolding finish response_of
  finish-done c (d, none) h = h _
  finish-done c (d, some e) h = finish-err c e

  finish-ok {κ} :
      {A : Type κ} (P : V → Type 0) (Q : I → Type 0) (c : DiskCall) (f : A → Answer V I)
      (r : Result A)
      → IsKept P Q (map_ok disk wire f r)
      → ((x : A)
          → IsKept P Q (ok (f x))
          → read_answer disk wire c (body (write_answer (f x))) ≡ ok (f x))
      → finish c (response_of (map_ok disk wire f r)) ≡ from_afar (map_ok disk wire f r)
  unfolding finish response_of
  finish-ok P Q c f (ok x) k h = h x k
  finish-ok P Q c f (err e) k h = finish-err c e

  finish-response_of :
      (P : V → Type 0) (Q : I → Type 0)
      → IsExactWire P Q
      → (d : D) (c : DiskCall) → IsKept P Q (local_call disk wire d c).1
      → finish c (response_of (local_call disk wire d c).1) ≡ from_afar (local_call disk wire d c).1
  unfolding read_answer write_answer
  finish-response_of P Q w d (make_vol b) k =
      finish-done (make_vol b) (disk.make_vol d b) (λ _. refl)
  finish-response_of P Q w d (stat_vol b) k =
      finish-ok P Q (stat_vol b) vol (disk.stat_vol d b) k
        (λ x h. ap (map_ok disk wire vol) (w.1 x h))
  finish-response_of P Q w d list_vols k =
      finish-ok P Q list_vols vols (disk.list_vols d) k
        (λ x h. ap (map_ok disk wire vols) (w.2 x h))
  finish-response_of P Q w d (delete_vol b f) k =
      finish-done (delete_vol b f) (disk.delete_vol d b f) (λ _. refl)
  finish-response_of P Q w d (write_all b o x) k =
      finish-done (write_all b o x) (disk.write_all d b o x) (λ _. refl)
  finish-response_of P Q w d (read_all b o) k =
      finish-ok P Q (read_all b o) bytes (disk.read_all d b o) k (λ x h. refl)
  finish-response_of P Q w d (rename_dir sb so db do') k =
      finish-done (rename_dir sb so db do') (disk.rename_dir d sb so db do') (λ _. refl)
  finish-response_of P Q w d (delete_path b o f) k =
      finish-done (delete_path b o f) (disk.delete d b o f) (λ _. refl)
  finish-response_of P Q w d (list_dir b dir) k =
      finish-ok P Q (list_dir b dir) names (disk.list_dir d b dir) k
        (λ x h. ap (map_ok disk wire names) (w.3 x h))
  finish-response_of P Q w d disk_info k =
      finish-ok P Q disk_info info (disk.disk_info d) k
        (λ x h. ap (map_ok disk wire info) (w.4 x h))

  -- The server looks at the values of a query only.
  dispatch_unary-SameMap :
      (d : D) (op : Text) (q q' : Values) (b : Bytes)
      → SameMap q q'
      → dispatch_unary disk wire d op q' b ≡ dispatch_unary disk wire d op q b
  unfolding dispatch_unary
  dispatch_unary-SameMap d op q q' b same =
      let g : (k : Text) → get_value q' k ≡ get_value q k = λ k. get_value-SameMap q q' k same in
      rw
        (
          g (codes "bucket"),
          g (codes "object"),
          g (codes "force"),
          g (codes "srcBucket"),
          g (codes "srcObject"),
          g (codes "dstBucket"),
          g (codes "dstObject"),
          g (codes "recursive"),
          g (codes "dir"),
        )
        refl

  disk_of_request :
      (t : Text) (c : DiskCall) → get_value (base_q t (request_of c).1) (codes "disk") ≡ t
  unfolding get_value base_q request_of text_eq
  disk_of_request t (make_vol b) = refl
  disk_of_request t (stat_vol b) = refl
  disk_of_request t list_vols = refl
  disk_of_request t (delete_vol b f) = refl
  disk_of_request t (write_all b o x) = refl
  disk_of_request t (read_all b o) = refl
  disk_of_request t (rename_dir sb so db do') = refl
  disk_of_request t (delete_path b o f) = refl
  disk_of_request t (list_dir b dir) = refl
  disk_of_request t disk_info = refl

  short_name : (c : DiskCall) → length (request_of c).0 < u16
  unfolding request_of
  short_name (make_vol b) = omega arith
  short_name (stat_vol b) = omega arith
  short_name list_vols = omega arith
  short_name (delete_vol b f) = omega arith
  short_name (write_all b o x) = omega arith
  short_name (read_all b o) = omega arith
  short_name (rename_dir sb so db do') = omega arith
  short_name (delete_path b o f) = omega arith
  short_name (list_dir b dir) = omega arith
  short_name disk_info = omega arith

  -- The disks after the one at an index has become `d`.
  abbrev put_at : List D → ℕ → D → List D
  put_at [] i d = []
  put_at (x ∷ ds) zero d = d ∷ ds
  put_at (x ∷ ds) (suc i) d = x ∷ put_at ds i d

  on_disk-get_elem? :
      (ds : List D) (i : ℕ) (d : D) (f : D → D × Response)
      → get_elem? ds i ≡ some d
      → on_disk disk wire ds i f ≡ some (put_at ds i (f d).0, (f d).1)
  unfolding on_disk
  on_disk-get_elem? [] i d f h = cc
  on_disk-get_elem? (x ∷ ds) zero d f h = cc
  on_disk-get_elem? (x ∷ ds) (suc i) d f h = rw (on_disk-get_elem? ds i d f h) refl

  resp_payload : Response → Bytes
  resp_payload (code, text, out) = encode_resp_payload code text out

  disk_by_q-get_elem? :
      (ds : List D) (q : Values) (i : ℕ) (d : D) (f : D → D × Response)
      → get_value q (codes "disk") ≡ format_int 10 i
      → i ≤ max_i64
      → get_elem? ds i ≡ some d
      → disk_by_q disk wire ds q f ≡ some (put_at ds i (f d).0, (f d).1)
  unfolding disk_by_q
  disk_by_q-get_elem? ds q i d f e k h =
      rw (e, parse_int-format_int 10 (omega arith) (omega arith) i k (omega arith), disk_by_q)
        (on_disk-get_elem? ds i d f h)

  serve_call-some :
      (ds ds' : List D) (p : Bytes) (op : Text) (q : Values) (b : Bytes) (r : Response)
      → decode_call_payload wire.values p ≡ some (op, q, b)
      → disk_by_q disk wire ds q (λ d. dispatch_unary disk wire d op q b) ≡ some (ds', r)
      → serve_call disk wire ds p ≡ (ds', resp_payload r)
  unfolding serve_call resp_payload
  serve_call-some ds ds' p op q b r e h = rw (e, h, serve_call) refl

  serve_call-request_of :
      (P : V → Type 0) (Q : I → Type 0)
      → IsExactWire P Q
      → (ds : List D) (idx : ℕ) (d : D) (c : DiskCall) → get_elem? ds idx ≡ some d
      → idx ≤ max_i64
      → CallHasUtf8 c
      → length (call_payload disk wire idx c) < u32
      → serve_call disk wire ds (call_payload disk wire idx c) ≡ (
        put_at ds idx (local_call disk wire d c).0,
        resp_payload (response_of (local_call disk wire d c).1),
      )
  serve_call-request_of P Q w ds idx d c h k utf8 short =
      let t = format_int 10 idx in
      let q = base_q t (request_of c).1 in
      let valid =
        base_q-HasUtf8 t c (ascii-IsUtf8 t (format_int-ascii 10 (omega arith) (omega arith) idx))
          utf8 in
      let (q', back, same) = w.0 q valid in
      serve_call-some ds _ _ (request_of c).0 q' (request_of c).2 _
        (decode_call_payload-encode_call_payload wire.values (request_of c).0 q q' (request_of c).2
          back (short_name c)
          (omega (
            arith,
            short,
            length-encode_call_payload wire.values (request_of c).0 q (request_of c).2,
          )))
        (disk_by_q-get_elem? ds q' idx d
            (λ x. dispatch_unary disk wire x (request_of c).0 q' (request_of c).2)
            (get_value-SameMap q q' (codes "disk") same ∙ disk_of_request t c) k h
          ∙ ap (λ r. some (put_at ds idx r.0, r.1))
              (dispatch_unary-SameMap d (request_of c).0 q q' (request_of c).2 same
                ∙ dispatch_unary-request_of d t c))

  finish-resp_payload :
      (c : DiskCall) (r : Result (Answer V I))
      → length (resp_payload (response_of r)) < u32
      → read_answer disk wire c (decode_resp_payload (resp_payload (response_of r)))
        ≡ finish c (response_of r)
  unfolding resp_payload response_of finish
  finish-resp_payload c (ok a) h =
      ap (read_answer disk wire c)
        (decode_resp_payload-encode_resp_payload 0 [] (write_answer a) (omega arith) (omega arith))
  finish-resp_payload c (err e) h = ap (read_answer disk wire c) (
      decode_resp_payload-encode_resp_payload (code_of e) e.text [] (code_of-bounds e).1
        (omega (arith, length-encode_resp_payload (code_of e) e.text [])))

whole_frame : (f : Frame) → IsFrame f → read_frame (write_frame f) ≡ some (f, [])
whole_frame f h = rw (append-nil (write_frame f)) at (read_frame-write_frame f [] h)

read_frame_nil : read_frame [] ≡ none
unfolding read_frame read_full
read_frame_nil = refl

hand_out-write_frame :
    (id : ℕ) (p : Bytes)
    → id < u64
    → length p < u32
    → hand_out id (write_frame (record { typ = f_resp; id = id; payload = p }))
      ≡ some (decode_resp_payload p)
unfolding hand_out read_loop
hand_out-write_frame id p h k =
    rw
      (
        whole_frame (record { typ = f_resp; id = id; payload = p }) (omega arith, h, k),
        hand_out,
        read_loop,
      )
      (rw read_frame_nil (unfold delete_id in ground (arith, ==-refl id)))

module _ {ℓ} {D V I : Type ℓ} (disk : DiskRpc D V I) (wire : Wire V I) where
  -- Through a connection that is up, every method of the disk with an index on another node changes
  -- that disk, and no other, as the call on the disk itself does, and answers the same value or the
  -- same error as `seen_from_afar`. The names in the call are valid UTF-8, and so are those in the
  -- answer: JSON reads such texts back as they were written, a query up to the order of its keys, and
  -- also the volumes and the information of a disk in the answer, which have properties `P` and `Q`.
  -- The call and its answer are shorter than 2 ^ 32 bytes, its number is below 2 ^ 64, and the index of
  -- the disk fits 63 bits.
  pub remote_call_transparent :
      (P : V → Type 0) (Q : I → Type 0)
      → IsExactWire disk wire P Q
      → (ds : List D) (idx id : ℕ) (d : D) (c : DiskCall) → get_elem? ds idx ≡ some d
      → idx ≤ max_i64
      → id < u64
      → CallHasUtf8 c
      → IsKept disk wire P Q (local_call disk wire d c).1
      → length (call_payload disk wire idx c) < u32
      → length (serve_call disk wire ds (call_payload disk wire idx c)).1 < u32
      → remote_call disk wire ds idx id c
        ≡ some (
          put_at disk wire ds idx (local_call disk wire d c).0,
          from_afar disk wire (local_call disk wire d c).1,
        )
  unfolding remote_call serve_frame
  remote_call_transparent P Q w ds idx id d c h k hid utf8 kept short short' =
      let served = serve_call-request_of disk wire P Q w ds idx d c h k utf8 short in
      rw
        (
          whole_frame (record { typ = f_call; id = id; payload = call_payload disk wire idx c })
              (omega arith, hid, short),
          served,
          hand_out-write_frame id
              (resp_payload disk wire (response_of disk wire (local_call disk wire d c).1)) hid
              (rw served at short'),
        )
        (ap (λ a. some (put_at disk wire ds idx (local_call disk wire d c).0, a))
          (finish-resp_payload disk wire c _ (rw served at short')
            ∙ finish-response_of disk wire P Q w d c kept))
