-- ===== src/Auth/Chunked/RoundTrip.antt =====
-- internal/auth/chunked.go: a body that is written chunk by chunk, each with its signature or without
-- one, is decoded to the data.
use mathlib.Core.List.{append_assoc}
use gostore.Base.{
  ℕ, zero, suc, ◌<◌, ◌≤◌, ◌≡◌, ◌≢◌, ◌⊎◌, inl, inr, refl, subst, sym, ap, ◌∙◌, arith, Text, List, [],
  ◌∷◌, ◌++◌, Bool, true, false, Option, none, some, length, take, drop, not, Bool-cases, ◌==◌, ◌&&◌,
  if◌then◌else◌, All, All-map, Bytes, format_int, max_i64, text_eq, text_eq_refl, read_full-append,
  length-append, take-drop, Got, got, eof, read_to_end, format_int-All,
}
use gostore.Auth.Chunked.{
  ChunkError, ChunkedReaderOpts, ChunkedReader, new_chunked_reader, signature_key, read_line,
  parse_header, drain_trailer, accept_chunk, read_chunk, fill, read,
}
use gostore.Auth.Chunked.Lines.{
  lacks, IsPlain, All-append, read_line-append, parse_header-unsigned, parse_header-signed,
}

abbrev crlf : Bytes
crlf = 13 ∷ 10 ∷ []

-- The data of a chunk, and whether it is sent with a signature.
pub record Piece : Type 0 where
  pub payload : Bytes
  pub signed : Bool

not_zero : (n : ℕ) → 1 ≤ n → (n == 0) ≡ false
not_zero n h = ground arith

not_both : (b : Bool) → (b && false) ≡ false
not_both true = refl
not_both false = refl

no_bytes : (xs : Bytes) → (length xs == 0) ≡ true → xs ≡ []
no_bytes [] e = refl
no_bytes (x ∷ xs) e = absurd (ground arith)

some_taken : (k : ℕ) (xs : Bytes) → 1 ≤ k → (length xs == 0) ≡ false → 1 ≤ length (take k xs)
some_taken zero xs h e = absurd (omega arith)
some_taken (suc k) [] h e = absurd (ground arith)
some_taken (suc k) (x ∷ xs) h e = omega arith

no_error {ℓ} :
    {A : Type ℓ} (o : Option ChunkError) (x : A) (y : ChunkError → A)
    → o ≡ none
    → (elim o [ some e ↦ y e | none ↦ x ]) ≡ x
no_error o x y h = rw h refl

-- A chunk whose first line has the size of its data.
pub read_chunk-line :
    (chunk_signature : Text → Bytes → Text) (opts : ChunkedReaderOpts) (line sig : Text)
    (payload rest : Bytes) (c : ChunkedReader)
    → All (λ c. c ≢ 10) line
    → parse_header line ≡ (some (length payload), sig)
    → c.br ≡ line ++ (13 ∷ 10 ∷ payload ++ (13 ∷ 10 ∷ rest))
    → read_chunk chunk_signature opts c ≡ accept_chunk chunk_signature opts c sig payload rest
unfolding read_chunk
read_chunk-line chunk_signature opts line sig payload rest c plain parsed e =
    let first = ap read_line e ∙ read_line-append line (payload ++ (13 ∷ 10 ∷ rest)) plain in
    let size = ap (λ (x : Option ℕ × Text). x.0) parsed in
    let sig_read = ap (λ (x : Option ℕ × Text). x.1) parsed in
    rw
      (
        first,
        size,
        read_full-append (length payload) payload (13 ∷ 10 ∷ rest) refl,
        read_line-append [] rest tt,
        sig_read,
        read_chunk,
      )
      refl

module _ (chunk_signature : Text → Bytes → Text) where
  -- What signs the next chunk: the last signature that was sent.
  abbrev pub next_sig : Text → Piece → Text
  next_sig prev p = if p.signed then chunk_signature prev p.payload else prev

  abbrev pub sig_of : Text → Piece → Text
  sig_of prev p = if p.signed then chunk_signature prev p.payload else []

  abbrev pub first_line : Text → Piece → Text
  first_line prev p =
      if p.signed
      then format_int 16 (length p.payload)
        ++ (59 ∷ signature_key ++ chunk_signature prev p.payload)
      else format_int 16 (length p.payload)

  abbrev pub encode_chunk : Text → Piece → Bytes → Bytes
  encode_chunk prev p rest = first_line prev p ++ (13 ∷ 10 ∷ p.payload ++ (13 ∷ 10 ∷ rest))

  -- The chunks, the last of which is empty, and the blank line at the end.
  abbrev pub encode : Text → List Piece → Bool → Bytes
  encode prev [] last_signed =
      encode_chunk prev (record { payload = []; signed = last_signed }) crlf
  encode prev (p ∷ ps) last_signed = encode_chunk prev p (encode (next_sig prev p) ps last_signed)

  abbrev pub payloads : List Piece → Bytes
  payloads [] = []
  payloads (p ∷ ps) = p.payload ++ payloads ps

  -- A chunk with data, whose length is an int64.
  abbrev pub IsPiece : Piece → Type 0
  IsPiece p = (1 ≤ length p.payload) × (length p.payload ≤ max_i64)

  -- A signature is text without separators, and not empty.
  abbrev pub IsSignature : Type 0
  IsSignature =
      (prev : Text) (x : Bytes)
      → All IsPlain (chunk_signature prev x) × (text_eq (chunk_signature prev x) [] ≡ false)

  module _ (opts : ChunkedReaderOpts) (is_sig : IsSignature) where
    first_line-plain : (prev : Text) (p : Piece) → All (λ c. c ≢ 10) (first_line prev p)
    first_line-plain prev p = elim (Bool-cases p.signed) [
      | inl e ↦ rw e (
          All-append (λ c. c ≢ 10) (format_int 16 (length p.payload))
            (59 ∷ signature_key ++ chunk_signature prev p.payload) size_plain
            (
              λ e. ground arith,
              All-append (λ c. c ≢ 10) signature_key (chunk_signature prev p.payload)
                  (lacks 10 signature_key refl) (All-map (λ c k. k.0) _ (is_sig prev p.payload).0),
            ))
      | inr e ↦ rw e size_plain
    ]
      where
        size_plain : All (λ c. c ≢ 10) (format_int 16 (length p.payload))
        size_plain =
            All-map (λ c k e. omega (arith, k.0, e)) _ (format_int-All 16 (length p.payload))

    parse_header-first_line :
        (prev : Text) (p : Piece)
        → length p.payload ≤ max_i64
        → parse_header (first_line prev p) ≡ (some (length p.payload), sig_of prev p)
    parse_header-first_line prev p h = elim (Bool-cases p.signed) [
      | inl e ↦ rw e (
          parse_header-signed (length p.payload) (chunk_signature prev p.payload) h
            (is_sig prev p.payload).0)
      | inr e ↦ rw e (parse_header-unsigned (length p.payload) h)
    ]

    -- A reader that has met no error.
    abbrev reader : Bytes → Text → Bytes → Bool → ChunkedReader
    reader br prev_sig buf done = record {
      br = br;
      prev_sig = prev_sig;
      buf = buf;
      done = done;
      fault = none;
    }

    -- The previous signature is the right one wherever it is looked at.
    abbrev Follows : Text → Text → Type 0
    Follows prev prev_sig = opts.verify ≡ true → prev_sig ≡ prev

    read_chunk-encode_chunk :
        (prev : Text) (p : Piece) (rest : Bytes) (c : ChunkedReader)
        → length p.payload ≤ max_i64
        → c.br ≡ encode_chunk prev p rest
        → read_chunk chunk_signature opts c
          ≡ accept_chunk chunk_signature opts c (sig_of prev p) p.payload rest
    read_chunk-encode_chunk prev p rest c h e =
        read_chunk-line chunk_signature opts (first_line prev p) (sig_of prev p) p.payload rest c
          (first_line-plain prev p) (parse_header-first_line prev p h) e

    no_signature : (prev : Text) (p : Piece) → text_eq (sig_of prev p) [] ≡ not p.signed
    no_signature prev p = elim (Bool-cases p.signed) [
      | inl e ↦ rw e (is_sig prev p.payload).1
      | inr e ↦ rw e (text_eq_refl [])
    ]

    accept_chunk-lem :
        (prev prev_sig : Text) (p : Piece) (br rest : Bytes)
        → Follows prev prev_sig
        → (after : Text) × Follows (next_sig prev p) after
          × (accept_chunk chunk_signature opts
                (reader br prev_sig [] false)
                (sig_of prev p)
                p.payload
                rest
              ≡ reader
                  (if length p.payload == 0 then drain_trailer 8 rest else rest)
                  after
                  p.payload
                  (if length p.payload == 0 then true else false))
    unfolding accept_chunk
    accept_chunk-lem prev prev_sig p br rest h = elim (Bool-cases opts.verify) [
      | inl v ↦ elim (Bool-cases p.signed) [
        | inl s ↦
            let passes : text_eq (chunk_signature prev_sig p.payload)
                  (chunk_signature prev p.payload)
                ≡ true =
              rw (h v) (text_eq_refl (chunk_signature prev p.payload)) in
            (
              chunk_signature prev p.payload,
              λ _. rw s refl,
              rw (v, s, (is_sig prev p.payload).1, passes) refl,
            )
        | inr s ↦ (prev_sig, λ _. rw s (h v), rw (v, s, text_eq_refl []) refl)
      ]
      | inr v ↦ (prev_sig, λ e. absurd (cc), rw v refl)
    ]

    fill-filled :
        (fuel : ℕ) (c : ChunkedReader)
        → (length c.buf == 0 && not c.done) ≡ false
        → fill chunk_signature opts (suc fuel) c ≡ c
    unfolding fill
    fill-filled fuel c g = rw g refl

    fill-suc :
        (fuel : ℕ) (br prev_sig : Text)
        → (read_chunk chunk_signature opts (reader br prev_sig [] false)).fault ≡ none
        → fill chunk_signature opts (suc fuel) (reader br prev_sig [] false)
          ≡ fill chunk_signature opts fuel
              (read_chunk chunk_signature opts (reader br prev_sig [] false))
    unfolding fill
    fill-suc fuel br prev_sig h =
        no_error (read_chunk chunk_signature opts (reader br prev_sig [] false)).fault _ _ h

    fill-read_chunk :
        (fuel : ℕ) (br prev_sig : Text) (c' : ChunkedReader)
        → read_chunk chunk_signature opts (reader br prev_sig [] false) ≡ c'
        → c'.fault ≡ none
        → (length c'.buf == 0 && not c'.done) ≡ false
        → fill chunk_signature opts (suc (suc fuel)) (reader br prev_sig [] false) ≡ c'
    fill-read_chunk fuel br prev_sig c' e f g =
        fill-suc (suc fuel) br prev_sig (ap (λ (x : ChunkedReader). x.fault) e ∙ f)
        ∙ ap (fill chunk_signature opts (suc fuel)) e
        ∙ fill-filled fuel c' g

    -- What is still to come out of a reader: what it holds, and the data of the chunks before it.
    data Stage : ChunkedReader → Bytes → Type 0 where
      going :
          (prev prev_sig buf : Bytes) (ps : List Piece) (last_signed : Bool)
          → Follows prev prev_sig
          → All IsPiece ps
          → Stage (reader (encode prev ps last_signed) prev_sig buf false) (buf ++ payloads ps)
      ended : (br prev_sig buf : Bytes) → Stage (reader br prev_sig buf true) buf

    Filled : ChunkedReader → Bytes → Type 0
    Filled c wanted =
        (c' : ChunkedReader) × Stage c' wanted
        × (fill chunk_signature opts (suc (length c.br)) c ≡ c')
        × (c'.fault ≡ none)
        × ((length c'.buf == 0) ≡ true → wanted ≡ [])

    -- The loop has at least two rounds where there is a chunk to read.
    two_rounds :
        (br prev_sig : Text) (c' : ChunkedReader)
        → 1 ≤ length br
        → read_chunk chunk_signature opts (reader br prev_sig [] false) ≡ c'
        → c'.fault ≡ none
        → (length c'.buf == 0 && not c'.done) ≡ false
        → fill chunk_signature opts (suc (length br)) (reader br prev_sig [] false) ≡ c'
    two_rounds [] prev_sig c' h e f g = absurd (omega arith)
    two_rounds (b ∷ br) prev_sig c' h e f g = fill-read_chunk (length br) (b ∷ br) prev_sig c' e f g

    encode_chunk_some :
        (prev : Text) (p : Piece) (rest : Bytes) → 1 ≤ length (encode_chunk prev p rest)
    encode_chunk_some prev p rest =
        omega (arith, length-append (first_line prev p) (13 ∷ 10 ∷ p.payload ++ (13 ∷ 10 ∷ rest)))

    fill-Stage : (c : ChunkedReader) (wanted : Bytes) → Stage c wanted → Filled c wanted
    unfolding Filled
    fill-Stage _ _ (ended br prev_sig buf) = (
      _,
      ended br prev_sig buf,
      fill-filled (length br) (reader br prev_sig buf true) (not_both (length buf == 0)),
      refl,
      no_bytes buf,
    )
    fill-Stage _ _ (going prev prev_sig (b ∷ bs) ps last_signed f h) = (
      _,
      going prev prev_sig (b ∷ bs) ps last_signed f h,
      fill-filled _ (reader (encode prev ps last_signed) prev_sig (b ∷ bs) false) (ground arith),
      refl,
      λ e. absurd (ground arith),
    )
    fill-Stage _ _ (going prev prev_sig [] (p ∷ ps) last_signed f (hp, h)) =
        let rest = encode (next_sig prev p) ps last_signed in
        let (after, follows, accepted) =
          accept_chunk-lem prev prev_sig p (encode_chunk prev p rest) rest f in
        let some_data : (length p.payload == 0) ≡ false = not_zero (length p.payload) hp.0 in
        (
          reader rest after p.payload false,
          going (next_sig prev p) after p.payload ps last_signed follows h,
          two_rounds (encode_chunk prev p rest) prev_sig _ (encode_chunk_some prev p rest)
              (read_chunk-encode_chunk prev p rest
                  (reader (encode_chunk prev p rest) prev_sig [] false) hp.1 refl
                ∙ accepted
                ∙ rw some_data refl)
              refl (rw some_data refl),
          refl,
          λ e. absurd (cc),
        )
    fill-Stage _ _ (going prev prev_sig [] [] last_signed f h) =
        let last : Piece = record { payload = []; signed = last_signed } in
        let (after, follows, accepted) =
          accept_chunk-lem prev prev_sig last (encode_chunk prev last crlf) crlf f in
        (
          reader (drain_trailer 8 crlf) after [] true,
          ended (drain_trailer 8 crlf) after [],
          two_rounds (encode_chunk prev last crlf) prev_sig _ (encode_chunk_some prev last crlf)
              (read_chunk-encode_chunk prev last crlf
                  (reader (encode_chunk prev last crlf) prev_sig [] false) (omega arith) refl
                ∙ accepted)
              refl refl,
          refl,
          λ e. refl,
        )

    IsStep : Bytes → ChunkedReader × Got → Type 0
    IsStep wanted (c', x) =
        ((x ≡ eof) × (wanted ≡ []))
        ⊎ ((bs : Bytes) × (left : Bytes) × (x ≡ got bs)
            × (1 ≤ length bs)
            × (wanted ≡ bs ++ left)
            × Stage c' left)

    -- A reader after its caller has copied `k` bytes out.
    copied-Stage :
        (k : ℕ) (c : ChunkedReader) (wanted : Bytes)
        → Stage c wanted
        → (left : Bytes) × (wanted ≡ take k c.buf ++ left)
          × Stage (record c { buf = drop k c.buf }) left
    copied-Stage k _ _ (ended br prev_sig buf) =
        (drop k buf, sym (take-drop k buf), ended br prev_sig (drop k buf))
    copied-Stage k _ _ (going prev prev_sig buf ps last_signed f h) = (
      drop k buf ++ payloads ps,
      ap (λ t. t ++ payloads ps) (sym (take-drop k buf))
          ∙ append_assoc (take k buf) (drop k buf) (payloads ps),
      going prev prev_sig (drop k buf) ps last_signed f h,
    )

    no_fault : (c : ChunkedReader) (wanted : Bytes) → Stage c wanted → c.fault ≡ none
    no_fault _ _ (ended br prev_sig buf) = refl
    no_fault _ _ (going prev prev_sig buf ps last_signed f h) = refl

    -- What `Read` returns of a filled reader.
    abbrev handed : ChunkedReader → ℕ → ChunkedReader × Got
    handed c k =
        if length c.buf == 0
        then (c, eof)
        else (record c { buf = drop k c.buf }, got (take k c.buf))

    read_filled :
        (c c' : ChunkedReader) (k : ℕ)
        → c.fault ≡ none
        → fill chunk_signature opts (suc (length c.br)) c ≡ c'
        → c'.fault ≡ none
        → read chunk_signature opts c k ≡ handed c' k
    unfolding read
    read_filled c c' k h e h' =
        no_error c.fault _ _ h
        ∙ no_error (fill chunk_signature opts (suc (length c.br)) c).fault _ _
            (ap (λ (x : ChunkedReader). x.fault) e ∙ h')
        ∙ ap (λ x. handed x k) e

    handed-IsStep :
        (c : ChunkedReader) (k : ℕ) (wanted : Bytes)
        → Stage c wanted
        → ((length c.buf == 0) ≡ true → wanted ≡ [])
        → 1 ≤ k
        → IsStep wanted (handed c k)
    unfolding IsStep
    handed-IsStep c k wanted s nothing hk = elim (Bool-cases (length c.buf == 0)) [
      | inl e ↦ rw e (inl (refl, nothing e))
      | inr e ↦
          let (left, split, s') = copied-Stage k c wanted s in
          rw e (inr (take k c.buf, left, refl, some_taken k c.buf hk e, split, s'))
    ]

    read-IsStep :
        (c : ChunkedReader) (k : ℕ) (wanted : Bytes)
        → Stage c wanted
        → 1 ≤ k
        → IsStep wanted (read chunk_signature opts c k)
    unfolding Filled
    read-IsStep c k wanted s hk =
        let (c', s', filled, ok, nothing) = fill-Stage c wanted s in
        subst (IsStep wanted) (sym (read_filled c c' k (no_fault c wanted s) filled ok))
          (handed-IsStep c' k wanted s' nothing hk)

    read_to_end-Stage :
        (ks : List ℕ) (c : ChunkedReader) (wanted : Bytes)
        → Stage c wanted
        → All (λ k. 1 ≤ k) ks
        → length wanted < length ks
        → read_to_end (read chunk_signature opts) ks c ≡ some wanted
    unfolding read_to_end IsStep
    read_to_end-Stage [] c wanted s hk few = absurd (omega arith)
    read_to_end-Stage (k ∷ ks) c wanted s (hk, hks) few = elim (read-IsStep c k wanted s hk) [
      | inl (x, nothing) ↦ rw (x, nothing, read_to_end) refl
      | inr (bs, left, x, some_bytes, split, s') ↦
          rw
            (
              x,
              split,
              read_to_end-Stage ks (read chunk_signature opts c k).0 left s' hks
                  (omega (arith, ap length split, length-append bs left)),
              read_to_end,
            )
            refl
    ]

    -- A body whose chunks carry the right signatures, or none, is decoded to their data, whatever
    -- buffers it is read with, none of them empty and more than there are bytes to come. The chunks but
    -- the last have data, and a signature is text without line breaks and semicolons.
    pub read_to_end-encode :
        (ks : List ℕ) (ps : List Piece) (last_signed : Bool)
        → All IsPiece ps
        → All (λ k. 1 ≤ k) ks
        → length (payloads ps) < length ks
        → read_to_end
            (read chunk_signature opts)
            ks
            (new_chunked_reader (encode opts.seed_signature ps last_signed) opts)
          ≡ some (payloads ps)
    unfolding new_chunked_reader
    read_to_end-encode ks ps last_signed h hk few =
        read_to_end-Stage ks _ _
          (going opts.seed_signature opts.seed_signature [] ps last_signed (λ _. refl) h) hk few
