-- ===== src/Cluster/Grid/Codec.antt =====
-- internal/cluster/grid.go: what is written to the connection is what the other end reads.
use mathlib.Core.List.{append_assoc, append-nil}
use gostore.Base.{
  ℕ, ◌+◌, ◌<◌, ◌≡◌, refl, arith, Text, [], ◌∷◌, ◌++◌, true, false, some, length, take, drop,
  length-append, Bytes, be, of_be, length-be, of_be-be, take_of_length, drop_of_length, take-append,
  drop-append, read_full-append, ltb, ◌==◌, get_be, if◌then◌else◌, read_full,
}
use gostore.Cluster.Grid.{
  ok, decode_err, body, failed, u16, u32, encode_resp_payload, decode_resp_payload, Json, Values,
  encode_call_payload, decode_call_payload, Frame, write_frame, read_frame, u64,
}

take-be : (k n : ℕ) (ys : Bytes) → take k (be k n ++ ys) ≡ be k n
take-be k n ys = take_of_length k (be k n) ys (length-be k n)

drop-be : (k n : ℕ) (ys : Bytes) → drop k (be k n ++ ys) ≡ ys
drop-be k n ys = drop_of_length k (be k n) ys (length-be k n)

be-16 : (n : ℕ) → n < u16 → of_be (be 2 n) ≡ n
be-16 n h = of_be-be 2 n (omega arith)

be-32 : (n : ℕ) → n < u32 → of_be (be 4 n) ≡ n
be-32 n h = of_be-be 4 n (omega arith)

be-64 : (n : ℕ) → n < u64 → of_be (be 8 n) ≡ n
be-64 n h = of_be-be 8 n (omega arith)

length-be_append : (k n : ℕ) (ys : Bytes) → length (be k n ++ ys) ≡ k + length ys
length-be_append k n ys = omega (arith, length-append (be k n) ys, length-be k n)

pub length-encode_call_payload :
    (j : Json Values) (op : Text) (q : Values) (b : Bytes)
    → length (encode_call_payload j op q b) ≡ 6 + length op + length (j.marshal q) + length b
unfolding encode_call_payload
length-encode_call_payload j op q b = grind (arith, length-be_append, length-append)

pub length-encode_resp_payload :
    (code : ℕ) (err_str : Text) (b : Bytes)
    → length (encode_resp_payload code err_str b) ≡ 6 + length err_str + length b
unfolding encode_resp_payload
length-encode_resp_payload code err_str b = grind (arith, length-be_append, length-append)

-- A call is read as it was written, with the query that JSON reads back, if its name is shorter than
-- 2 ^ 16 bytes and its query, as JSON, shorter than 2 ^ 32.
pub decode_call_payload-encode_call_payload :
    (j : Json Values) (op : Text) (q q' : Values) (b : Bytes)
    → j.unmarshal (j.marshal q) ≡ ok q'
    → length op < u16
    → length (j.marshal q) < u32
    → decode_call_payload j (encode_call_payload j op q b) ≡ some (op, q', b)
unfolding encode_call_payload decode_call_payload
decode_call_payload-encode_call_payload j op q q' b exact h k =
    rw
      (
        take-be 2,
        drop-be 2,
        be-16 (length op) h,
        take-append op,
        drop-append op,
        take-be 4,
        drop-be 4,
        be-32 _ k,
        take-append (j.marshal q),
        drop-append (j.marshal q),
        exact,
      )
      (grind (arith, length-be_append, length-append))

-- An answer without an error is read as its body, and one with an error as what `decode_err` makes of
-- the code and the text.
pub decode_resp_payload-encode_resp_payload :
    (code : ℕ) (err_str : Text) (b : Bytes)
    → code < u16
    → length err_str < u32
    → decode_resp_payload (encode_resp_payload code err_str b)
      ≡ (elim (code == 0) [ true ↦ body b | false ↦ failed (decode_err code err_str) ])
unfolding encode_resp_payload decode_resp_payload
decode_resp_payload-encode_resp_payload code err_str b h k =
    rw
      (
        take-be 2,
        drop-be 2,
        be-16 code h,
        take-be 4,
        drop-be 4,
        be-32 _ k,
        take-append err_str,
        drop-append err_str,
      )
      (grind (arith, length-be_append, length-append))

abbrev pub IsFrame : Frame → Type 0
IsFrame f = (f.typ < 256) × (f.id < u64) × (length f.payload < u32)

abbrev header : Frame → Bytes
header f = f.typ ∷ be 8 f.id ++ be 4 (length f.payload)

length-header : (f : Frame) → length (header f) ≡ 13
length-header f =
    omega (arith, length-be_append 8 f.id (be 4 (length f.payload)), length-be 4 (length f.payload))

take-be_whole : (k n : ℕ) → take k (be k n) ≡ be k n
take-be_whole k n = rw (append-nil (be k n)) at (take-be k n [])

header_count :
    (f : Frame) → length f.payload < u32 → of_be (take 4 (drop 9 (header f))) ≡ length f.payload
header_count f h =
    rw (drop-be 8 f.id (be 4 (length f.payload)), take-be_whole 4 (length f.payload), be-32 _ h)
      refl

header_id : (f : Frame) → f.id < u64 → of_be (take 8 (drop 1 (header f))) ≡ f.id
header_id f h = rw (take-be 8 f.id (be 4 (length f.payload)), be-64 _ h) refl

header_typ : (f : Frame) → of_be (take 1 (header f)) ≡ f.typ
unfolding get_be
header_typ f = omega arith

-- A payload of no bytes is not read at all.
read_payload :
    (xs rest : Bytes)
    → (if ltb 0 (length xs) then read_full (length xs) (xs ++ rest) else some ([], xs ++ rest))
      ≡ some (xs, rest)
read_payload [] rest = refl
read_payload (x ∷ xs) rest = rw (read_full-append _ (x ∷ xs) rest refl) (ground arith)

-- A frame that is followed by anything is read as it was written, and what follows it is left.
pub read_frame-write_frame :
    (f : Frame) (rest : Bytes) → IsFrame f → read_frame (write_frame f ++ rest) ≡ some (f, rest)
unfolding read_frame write_frame get_be
read_frame-write_frame f rest (h, hi, hn) =
    rw
      (
        append_assoc (header f) f.payload rest,
        read_full-append 13 (header f) (f.payload ++ rest) (length-header f),
        header_count f hn,
        read_payload f.payload rest,
        header_id f hi,
        header_typ f,
      )
      refl
