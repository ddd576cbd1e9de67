-- ===== src/Sse.antt =====
-- internal/sse/sse.go: objects at rest are sealed in chunks of a fixed size, so that a range can be
-- decrypted from a chunk on. AES-GCM is a parameter, and so are the errors of a reader.
pub mod Sizes
pub mod Seal
pub mod Open
pub mod Ranges
mod Examples
use gostore.Base.{
  got, eof, failed, Got, ℕ, zero, suc, ◌+◌, ◌-◌, ◌*◌, ◌/◌, ◌%◌, ◌≡◌, List, [], ◌∷◌, ◌++◌, Bool,
  true, false, Option, none, some, length, take, drop, ltb, leb, ◌==◌, ◌&&◌, if◌then◌else◌, Text,
  codes, Bytes, be,
}

abbrev pub chunk_plain : ℕ
chunk_plain = 65536

abbrev pub tag_len : ℕ
tag_len = 16

abbrev pub chunk_cipher : ℕ
chunk_cipher = 65552

-- An int64 that may be negative: `negsuc n` is `-(n + 1)`.
pub data ℤ : Type 0 where
  pos negsuc : ℕ → ℤ

unfoldable pub minus : ℕ → ℕ → ℤ
minus a b = if leb b a then pos (a - b) else negsuc (b - a - 1)

unfoldable pub cipher_size : ℕ → ℕ
cipher_size n =
    if n == 0
    then 0
    else let rem = n % chunk_plain in
      let sz = n / chunk_plain * chunk_cipher in if ltb 0 rem then sz + (rem + tag_len) else sz

unfoldable pub plain_size : ℕ → ℤ
unfolding minus
plain_size n =
    if n == 0
    then pos 0
    else let rem = n % chunk_cipher in
      let sz = n / chunk_cipher * chunk_plain in
      if ltb 0 rem then minus (sz + rem) tag_len else pos sz

-- The first chunk of an offset, where it starts in what is stored, and what to skip in it.
unfoldable pub cipher_offset_for_plain : ℕ → ℕ × ℕ × ℕ
cipher_offset_for_plain off =
    let fc = off / chunk_plain in (fc, fc * chunk_cipher, off % chunk_plain)

-- `nonce`: 4 bytes of the object, zeros where it has fewer, and the number of the chunk.
unfoldable pub nonce : Bytes → ℕ → Bytes
nonce prefix counter = take 4 (prefix ++ (0 ∷ 0 ∷ 0 ∷ 0 ∷ [])) ++ be 8 counter

-- `cipher.AEAD` with its key.
pub record Aead : Type 0 where
  pub seal : Bytes → Bytes → Bytes
  pub open_with : Bytes → Bytes → Option Bytes

-- What is sealed is longer by the tag, and opens to itself under the same nonce.
abbrev pub IsAead : Aead → Type 0
IsAead g =
    ((n x : Bytes) → length (g.seal n x) ≡ length x + tag_len)
    × ((n x : Bytes) → g.open_with n (g.seal n x) ≡ some x)

-- The bytes that a reader has still to give, and the error that it ends with, none for `io.EOF`.
pub record Source : Type 0 where
  pub rest : Bytes
  pub ends : Option Text

pub record EncReader : Type 0 where
  pub r : Source
  pub counter : ℕ
  pub pending : Bytes
  pub at_eof : Bool
  pub fault : Option Text

abbrev pub is_empty : Bytes → Bool
is_empty [] = true
is_empty (b ∷ bs) = false

module _ (g : Aead) (prefix : Bytes) where
  -- One round of the loop of `encReader.Read`: a chunk is read, and sealed if it has any bytes.
  unfoldable pub enc_round : EncReader → EncReader
  unfolding nonce
  enc_round e =
      let chunk : Bytes = take chunk_plain e.r.rest in
      let short : Bool = ltb (length e.r.rest) chunk_plain in
      let ends : Option Text = e.r.ends in
      record {
        r = record { rest = drop chunk_plain e.r.rest; ends = ends };
        counter = if is_empty chunk then e.counter else e.counter + 1;
        pending = if is_empty chunk then e.pending else g.seal (nonce prefix e.counter) chunk;
        at_eof = if short then elim ends [ none ↦ true | some t ↦ e.at_eof ] else e.at_eof;
        fault = if short then ends else e.fault;
      }

  -- The loop itself, which an error ends as well. A round takes a byte, or the reader is at its end.
  unfoldable pub enc_fill : ℕ → EncReader → EncReader
  enc_fill zero e = e
  enc_fill (suc fuel) e =
      let e' = enc_round e in
      let more = enc_fill fuel e' in
      if is_empty e.pending
      then (if e.at_eof then e else elim e'.fault [ some t ↦ e' | none ↦ more ])
      else e

  -- `encReader.Read` with a buffer of `k` bytes.
  unfoldable pub enc_read : EncReader → ℕ → EncReader × Got
  unfolding enc_fill
  enc_read e k = elim e.fault [
    | some t ↦ (e, failed t)
    | none ↦
        let e' = enc_fill (suc (suc (length e.r.rest))) e in
        if is_empty e'.pending
        then (e', elim e'.fault [ some t ↦ failed t | none ↦ eof ])
        else (record e' { pending = drop k e'.pending }, got (take k e'.pending))
  ]

abbrev pub encrypt_reader : Source → EncReader
encrypt_reader r = record { r = r; counter = 0; pending = []; at_eof = false; fault = none }

pub record DecReader : Type 0 where
  pub src : Source
  pub counter : ℕ
  pub skip : ℕ
  pub remain : ℕ
  pub out : Bytes
  pub fault : Option Text

abbrev pub decrypt_range : Source → ℕ → ℕ → ℕ → DecReader
decrypt_range src first_chunk intra_skip n = record {
  src = src;
  counter = first_chunk;
  skip = intra_skip;
  remain = n;
  out = [];
  fault = none;
}

-- What of an opened chunk is handed out: past what is skipped, and no more than what remains.
unfoldable pub dec_take : DecReader → Bytes → DecReader
dec_take d pt =
    let n = length pt in
    let after : Bytes =
      if ltb 0 d.skip then (if leb n d.skip then [] else drop d.skip pt) else pt in
    record d {
      counter = d.counter + 1;
      skip = if ltb 0 d.skip then (if leb n d.skip then d.skip - n else 0) else d.skip;
      out = if ltb d.remain (length after) then take d.remain after else after;
    }

module _ (g : Aead) (prefix : Bytes) where
  -- The loop of `decReader.Read`, while there is nothing to hand out: a reader that has something, or
  -- what `Read` returns. Each round takes a byte.
  unfoldable pub dec_fill : ℕ → DecReader → DecReader × Option Got
  dec_fill zero d = (d, some eof)
  dec_fill (suc fuel) d =
      let chunk : Bytes = take chunk_cipher d.src.rest in
      let short : Bool = ltb (length d.src.rest) chunk_cipher in
      let d₁ : DecReader = record d {
        src = record { rest = drop chunk_cipher d.src.rest; ends = d.src.ends };
      } in
      if is_empty d.out
      then if d.remain == 0
        then (d, some eof)
        else if is_empty chunk
        then elim d.src.ends [
          | none ↦ (d, some eof)
          | some t ↦ (record d { fault = some t }, some (failed t))
        ]
        else if ltb (length chunk) (tag_len + 1) && short
        then (let t = codes "sse: truncated chunk" in
            (record d₁ { fault = some t }, some (failed t)))
        else elim (g.open_with (nonce prefix d.counter) chunk) [
          | none ↦
              let t = codes "sse: chunk authentication failed" in
              (record d₁ { fault = some t }, some (failed t))
          | some pt ↦ dec_fill fuel (dec_take d₁ pt)
        ]
      else (d, none)

  -- `decReader.Read` with a buffer of `k` bytes.
  unfoldable pub dec_read : DecReader → ℕ → DecReader × Got
  unfolding dec_fill
  dec_read d k = elim d.fault [
    | some t ↦ (d, failed t)
    | none ↦
        let (d', r) = dec_fill (suc (length d.src.rest)) d in
        elim r [
          | some x ↦ (d', x)
          | none ↦ (
            record d' { out = drop k d'.out; remain = d'.remain - length (take k d'.out) },
            got (take k d'.out),
          )
        ]
  ]
