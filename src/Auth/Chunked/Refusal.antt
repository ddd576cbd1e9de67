-- ===== src/Auth/Chunked/Refusal.antt =====
-- internal/auth/chunked.go: what becomes of a chunk with a wrong signature.
use gostore.Base.{
  subst, ℕ, suc, ◌≤◌, ◌≡◌, ◌≢◌, refl, sym, ap, ◌∙◌, arith, Text, List, [], ◌∷◌, ◌++◌, true, false,
  Option, none, some, length, All, All-map, codes, Bytes, format_int, max_i64, text_eq, Got, failed,
  format_int-All,
}
use gostore.Auth.Chunked.{
  ChunkError, ChunkedReaderOpts, ChunkedReader, new_chunked_reader, chunk_signature_mismatch,
  signature_key, read_chunk, accept_chunk, fill, read, as_read,
}
use gostore.Auth.Chunked.Lines.{IsPlain, All-append, lacks, parse_header-signed}
use gostore.Auth.Chunked.RoundTrip.{read_chunk-line}

module _ (chunk_signature : Text → Bytes → Text) (opts : ChunkedReaderOpts) where
  starts_with : (body : Bytes) → (new_chunked_reader body opts).br ≡ body
  unfolding new_chunked_reader
  starts_with body = refl

  starts_signature : (body : Bytes) → (new_chunked_reader body opts).prev_sig ≡ opts.seed_signature
  unfolding new_chunked_reader
  starts_signature body = refl

  abbrev refusing : ChunkedReader → ChunkedReader
  refusing c = record c { fault = some chunk_signature_mismatch }

  mismatch_text : as_read chunk_signature_mismatch ≡ failed (codes "auth: chunk signature mismatch")
  unfolding as_read
  mismatch_text = refl

  accept_chunk_refused :
      (c : ChunkedReader) (sig : Text) (x rest : Bytes)
      → opts.verify ≡ true
      → text_eq sig [] ≡ false
      → c.prev_sig ≡ opts.seed_signature
      → text_eq (chunk_signature opts.seed_signature x) sig ≡ false
      → accept_chunk chunk_signature opts c sig x rest ≡ refusing c
  unfolding accept_chunk
  accept_chunk_refused c sig x rest v some_sig e wrong =
      let differs : text_eq (chunk_signature c.prev_sig x) sig ≡ false =
        ap (λ t. text_eq (chunk_signature t x) sig) e ∙ wrong in
      rw (v, some_sig, differs) refl

  some_error {ℓ} :
      {A : Type ℓ} (o : Option ChunkError) (x : A) (y : ChunkError → A) (e : ChunkError)
      → o ≡ some e
      → (elim o [ some e ↦ y e | none ↦ x ]) ≡ y e
  some_error o x y e h = rw h refl

  -- A reader at its start whose first chunk is refused.
  read_refused :
      (body : Bytes) (k : ℕ)
      → read_chunk chunk_signature opts (new_chunked_reader body opts)
        ≡ refusing (new_chunked_reader body opts)
      → read chunk_signature opts (new_chunked_reader body opts) k
        ≡ (refusing (new_chunked_reader body opts), as_read chunk_signature_mismatch)
  unfolding read fill new_chunked_reader
  read_refused body k h =
      let c = new_chunked_reader body opts in
      let filled =
        some_error (read_chunk chunk_signature opts c).fault
          (fill chunk_signature opts (length body) (read_chunk chunk_signature opts c))
          (λ _. read_chunk chunk_signature opts c) chunk_signature_mismatch
          (ap (λ (x : ChunkedReader). x.fault) h)
        ∙ h in
      some_error (fill chunk_signature opts (suc (length body)) c).fault _ _
        chunk_signature_mismatch (ap (λ (x : ChunkedReader). x.fault) filled)
      ∙ ap (λ x. (x, as_read chunk_signature_mismatch)) filled

  read_again :
      (c : ChunkedReader) (l : ℕ)
      → read chunk_signature opts (refusing c) l
        ≡ (refusing c, failed (codes "auth: chunk signature mismatch"))
  unfolding read as_read
  read_again c l = refl

  -- What a caller gets that reads with one buffer after another, whatever it got before.
  abbrev pub answers : ChunkedReader → List ℕ → List Got
  answers c [] = []
  answers c (k ∷ ks) =
      (read chunk_signature opts c k).1 ∷ answers (read chunk_signature opts c k).0 ks

  abbrev IsRefused : Got → Type 0
  IsRefused g = g ≡ failed (codes "auth: chunk signature mismatch")

  answers-IsRefused : (c : ChunkedReader) (ks : List ℕ) → All IsRefused (answers (refusing c) ks)
  answers-IsRefused c [] = tt
  answers-IsRefused c (k ∷ ks) = (
    ap (λ (r : ChunkedReader × Got). r.1) (read_again c k),
    subst (λ (d : ChunkedReader). All IsRefused (answers d ks))
        (sym (ap (λ (r : ChunkedReader × Got). r.0) (read_again c k))) (answers-IsRefused c ks),
  )

  -- A first chunk that carries another signature than its own is refused by a reader that verifies
  -- signatures: every `Read`, however many there are and whatever their buffers, hands out nothing but
  -- the error. The signature in the chunk is not empty and has neither a line feed nor a semicolon, and
  -- the size of the chunk fits 63 bits.
  pub wrong_signature_refused :
      (sig : Text) (x rest : Bytes) (ks : List ℕ)
      → opts.verify ≡ true
      → All IsPlain sig
      → text_eq sig [] ≡ false
      → text_eq (chunk_signature opts.seed_signature x) sig ≡ false
      → length x ≤ max_i64
      → All
          (λ g. g ≡ failed (codes "auth: chunk signature mismatch"))
          (answers
            (new_chunked_reader
              ((format_int 16 (length x) ++ (59 ∷ signature_key ++ sig))
                ++ (13 ∷ 10 ∷ x ++ (13 ∷ 10 ∷ rest)))
              opts)
            ks)
  wrong_signature_refused sig x rest [] v plain some_sig wrong h = tt
  wrong_signature_refused sig x rest (k ∷ ks) v plain some_sig wrong h =
      let body =
        (format_int 16 (length x) ++ (59 ∷ signature_key ++ sig))
        ++ (13 ∷ 10 ∷ x ++ (13 ∷ 10 ∷ rest)) in
      let c = new_chunked_reader body opts in
      let line_plain =
        All-append (λ c. c ≢ 10) (format_int 16 (length x)) (59 ∷ signature_key ++ sig)
          (All-map (λ c k e. omega (arith, k.0, e)) _ (format_int-All 16 (length x)))
          (
            λ e. ground arith,
            All-append (λ c. c ≢ 10) signature_key sig (lacks 10 signature_key refl)
                (All-map (λ c k. k.0) _ plain),
          ) in
      let refused = read_refused body k (
        read_chunk-line chunk_signature opts
          (format_int 16 (length x) ++ (59 ∷ signature_key ++ sig)) sig x rest c line_plain
          (parse_header-signed (length x) sig h plain) (starts_with body)
        ∙ accept_chunk_refused c sig x rest v some_sig (starts_signature body) wrong) in
      (
        ap (λ (r : ChunkedReader × Got). r.1) refused ∙ mismatch_text,
        subst (λ (d : ChunkedReader). All IsRefused (answers d ks))
            (sym (ap (λ (r : ChunkedReader × Got). r.0) refused)) (answers-IsRefused c ks),
      )
