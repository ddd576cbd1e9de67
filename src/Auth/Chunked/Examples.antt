-- ===== src/Auth/Chunked/Examples.antt =====
-- A stand-in for the signature of a chunk, and small bodies, on which the theorems about aws-chunked
-- bodies are run.
use gostore.Base.{
  All, ◌+◌, ◌≡◌, refl, arith, Text, List, [], ◌∷◌, ◌++◌, true, false, some, length, All-map, codes,
  Bytes, format_int, text_eq, failed, read_to_end, format_int-All,
}
use gostore.Auth.Chunked.{ChunkedReaderOpts, new_chunked_reader, signature_key, read}
use gostore.Auth.Chunked.RoundTrip.{Piece, encode, IsSignature, read_to_end-encode}
use gostore.Auth.Chunked.Refusal.{answers, wrong_signature_refused}

abbrev sign : Text → Bytes → Text
sign prev x = 115 ∷ format_int 16 (length prev + length x)

sign-IsSignature : IsSignature sign
unfolding text_eq
sign-IsSignature prev x = (
  (
    (λ e. ground arith, λ e. ground arith),
    All-map (λ c k. (λ e. omega (arith, k.0, e), k.1)) _
        (format_int-All 16 (length prev + length x)),
  ),
  refl,
)

abbrev verifying : ChunkedReaderOpts
verifying = record { seed_signature = codes "seed"; verify = true }

abbrev two_pieces : List Piece
two_pieces =
    record { payload = 1 ∷ 2 ∷ 3 ∷ []; signed = true }
    ∷ record { payload = 4 ∷ []; signed = false }
    ∷ []

read_to_end-encode_example :
    read_to_end
      (read sign verifying)
      (2 ∷ 2 ∷ 2 ∷ 2 ∷ 2 ∷ [])
      (new_chunked_reader (encode sign (codes "seed") two_pieces true) verifying)
    ≡ some (1 ∷ 2 ∷ 3 ∷ 4 ∷ [])
read_to_end-encode_example =
    read_to_end-encode sign verifying sign-IsSignature (2 ∷ 2 ∷ 2 ∷ 2 ∷ 2 ∷ []) two_pieces true
      ((omega arith, omega arith), ((omega arith, omega arith), tt))
      (omega arith, (omega arith, (omega arith, (omega arith, (omega arith, tt))))) (omega arith)

bad-differs : text_eq (sign (codes "seed") (7 ∷ 8 ∷ [])) (codes "bad") ≡ false
unfolding text_eq
bad-differs = refl

bad-some : text_eq (codes "bad") [] ≡ false
unfolding text_eq
bad-some = refl

wrong_signature_refused_example :
    All
      (λ g. g ≡ failed (codes "auth: chunk signature mismatch"))
      (answers sign verifying
        (new_chunked_reader
          ((format_int 16 2 ++ (59 ∷ signature_key ++ codes "bad"))
            ++ (13 ∷ 10 ∷ (7 ∷ 8 ∷ []) ++ (13 ∷ 10 ∷ [])))
          verifying)
        (4 ∷ 4 ∷ 1 ∷ []))
wrong_signature_refused_example =
    wrong_signature_refused sign verifying (codes "bad") (7 ∷ 8 ∷ []) [] (4 ∷ 4 ∷ 1 ∷ []) refl
      (
        (λ e. ground arith, λ e. ground arith),
        ((λ e. ground arith, λ e. ground arith), ((λ e. ground arith, λ e. ground arith), tt)),
      )
      bad-some bad-differs (omega arith)
