-- ===== src/Auth/Chunked.antt =====
-- internal/auth/chunked.go: the decoder of aws-chunked request bodies. What the request carries is a
-- list of bytes that ends with `io.EOF`; the signature of a chunk is computed by a parameter.
pub mod Lines
pub mod RoundTrip
pub mod Refusal
mod Examples
use mathlib.Core.List.{reverse}
use gostore.Base.{
  ℕ, zero, suc, ◌+◌, Text, List, [], ◌∷◌, ◌++◌, Bool, true, false, not, Option, none, some, length,
  take, drop, ltb, leb, ◌==◌, ◌&&◌, ◌||◌, if◌then◌else◌, text_eq, has_prefix, trim_prefix,
  has_suffix, codes, Bytes, read_full, parse_int, Got, got, eof, failed,
}

pub data ChunkError : Type 0 where
  end_of_body malformed_chunk chunk_signature_mismatch : ChunkError

-- `c.err` as the error that `Read` returns.
unfoldable pub as_read : ChunkError → Got
as_read end_of_body = eof
as_read malformed_chunk = failed (codes "auth: malformed aws-chunked encoding")
as_read chunk_signature_mismatch = failed (codes "auth: chunk signature mismatch")

-- `ChunkedReaderOpts`, less what goes into `chunkSignature` only.
pub record ChunkedReaderOpts : Type 0 where
  pub seed_signature : Text
  pub verify : Bool

pub record ChunkedReader : Type 0 where
  pub br : Bytes
  pub prev_sig : Text
  pub buf : Bytes
  pub done : Bool
  pub fault : Option ChunkError

unfoldable pub new_chunked_reader : Bytes → ChunkedReaderOpts → ChunkedReader
new_chunked_reader r opts = record {
  br = r;
  prev_sig = opts.seed_signature;
  buf = [];
  done = false;
  fault = none;
}

-- `strings.TrimSuffix(s, "\r")`
unfoldable pub trim_cr : Text → Text
trim_cr [] = []
trim_cr (c ∷ []) = if c == 13 then [] else c ∷ []
trim_cr (c ∷ d ∷ s) = c ∷ trim_cr (d ∷ s)

-- The loop of `readLine` after it has read `sb`: the line, and what follows it.
unfoldable pub line_from : Text → Bytes → Option (Text × Bytes)
unfolding trim_cr
line_from [] [] = none
line_from (c ∷ sb) [] = some (c ∷ sb, [])
line_from sb (b ∷ bs) =
    let more = line_from (sb ++ (b ∷ [])) bs in if b == 10 then some (trim_cr sb, bs) else more

unfoldable pub read_line : Bytes → Option (Text × Bytes)
unfolding line_from
read_line bs = line_from [] bs

-- The pieces of a text between the bytes `sep`.
unfoldable pub split : ℕ → Text → List Text
split sep [] = [] ∷ []
split sep (c ∷ s) =
    let rest = split sep s in
    if c == sep then [] ∷ rest else elim rest [ [] ↦ (c ∷ []) ∷ [] | p ∷ ps ↦ (c ∷ p) ∷ ps ]

-- The text before the first `;`, and what follows it, where there is one.
unfoldable pub cut_semicolon : Text → Text × Option Text
cut_semicolon [] = ([], none)
cut_semicolon (c ∷ s) =
    let (p, rest) = cut_semicolon s in if c == b';' then ([], some s) else (c ∷ p, rest)

abbrev pub signature_key : Text
signature_key = codes "chunk-signature="

-- The loop over the extensions: the last signature wins.
unfoldable pub signature_of : Text → List Text → Text
unfolding has_prefix trim_prefix
signature_of sig [] = sig
signature_of sig (kv ∷ kvs) =
    signature_of (if has_prefix kv signature_key then trim_prefix kv signature_key else sig) kvs

-- White space of ASCII.
abbrev pub is_space : ℕ → Bool
is_space c = c == 32 || leb 9 c && leb c 13

unfoldable pub trim_left : Text → Text
trim_left [] = []
trim_left (c ∷ s) = if is_space c then trim_left s else c ∷ s

-- `strings.TrimSpace`
unfoldable pub trim_space : Text → Text
unfolding trim_left
trim_space s = reverse (trim_left (reverse (trim_left s)))

-- The size and the signature in the first line of a chunk.
unfoldable pub parse_header : Text → Option ℕ × Text
parse_header line =
    let (size_hex, rest) = cut_semicolon line in
    (
      parse_int 16 (trim_space size_hex),
      elim rest [ none ↦ [] | some t ↦ signature_of [] (split b';' t) ],
    )

-- `drainTrailer`
unfoldable pub drain_trailer : ℕ → Bytes → Bytes
unfolding read_line
drain_trailer zero bs = bs
drain_trailer (suc n) bs = elim (read_line bs) [
  | none ↦ bs
  | some ([], rest) ↦ rest
  | some (c ∷ s, rest) ↦ drain_trailer n rest
]

abbrev stop : ChunkedReader → ChunkError → ChunkedReader
stop c e = record c { fault = some e }

-- `chunkSignature`, on the previous signature and the data of the chunk.
module _ (chunk_signature : Text → Bytes → Text) (opts : ChunkedReaderOpts) where
  -- The rest of `readChunk`, once the data and the line end after it are read.
  unfoldable pub accept_chunk : ChunkedReader → Text → Bytes → Bytes → ChunkedReader
  accept_chunk c sig data' rest =
      let signed = opts.verify && not (text_eq sig []) in
      if signed && not (text_eq (chunk_signature c.prev_sig data') sig)
      then stop c chunk_signature_mismatch
      else record c {
        prev_sig = if signed then sig else c.prev_sig;
        br = if length data' == 0 then drain_trailer 8 rest else rest;
        done = if length data' == 0 then true else c.done;
        buf = c.buf ++ data';
      }

  unfoldable pub read_chunk : ChunkedReader → ChunkedReader
  read_chunk c = elim (read_line c.br) [
    | none ↦ stop c end_of_body
    | some (line, rest) ↦ elim (parse_header line).0 [
      | none ↦ stop c malformed_chunk
      | some size ↦ elim (read_full size rest) [
        | none ↦ stop c malformed_chunk
        | some (data', rest') ↦ elim (read_line rest') [
          | none ↦ stop c end_of_body
          | some (_ ∷ _, rest'') ↦ stop c malformed_chunk
          | some ([], rest'') ↦ accept_chunk c (parse_header line).1 data' rest''
        ]
      ]
    ]
  ]

  -- The loop of `Read`: one chunk after the other, until there is something to return, or the end. Each
  -- round takes a byte.
  unfoldable pub fill : ℕ → ChunkedReader → ChunkedReader
  fill zero c = c
  fill (suc fuel) c =
      let c' = read_chunk c in
      let more = fill fuel c' in
      if length c.buf == 0 && not c.done then elim c'.fault [ some e ↦ c' | none ↦ more ] else c

  unfoldable pub read : ChunkedReader → ℕ → ChunkedReader × Got
  read c k = elim c.fault [
    | some e ↦ (c, as_read e)
    | none ↦
        let c' = fill (suc (length c.br)) c in
        elim c'.fault [
          | some e ↦ (c', as_read e)
          | none ↦
              if length c'.buf == 0
              then (c', eof)
              else (record c' { buf = drop k c'.buf }, got (take k c'.buf))
        ]
  ]
