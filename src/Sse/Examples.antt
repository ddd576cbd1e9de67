-- ===== src/Sse/Examples.antt =====
-- A stand-in for AES-GCM, and a short object, on which the theorems about internal/sse are run.
use gostore.Base.{
  read_to_end, ℕ, zero, suc, ◌≤◌, ◌≡◌, refl, arith, List, [], ◌∷◌, ◌++◌, none, some, drop, Bytes,
  All,
}
use gostore.Sse.{
  cipher_size, Aead, IsAead, enc_read, encrypt_reader, dec_read, decrypt_range,
  cipher_offset_for_plain,
}
use gostore.Sse.Ranges.{decrypt_range-encrypt_reader}

abbrev tag : Bytes
tag = 9 ∷ 9 ∷ 9 ∷ 9 ∷ 9 ∷ 9 ∷ 9 ∷ 9 ∷ 9 ∷ 9 ∷ 9 ∷ 9 ∷ 9 ∷ 9 ∷ 9 ∷ 9 ∷ []

abbrev stand_in : Aead
stand_in = record { seal = λ n x. tag ++ x; open_with = λ n y. some (drop 16 y) }

stand_in-IsAead : IsAead stand_in
stand_in-IsAead = (λ n x. omega arith, λ n x. refl)

-- `n` buffers of `k` bytes.
abbrev buffers : ℕ → ℕ → List ℕ
buffers zero k = []
buffers (suc n) k = k ∷ buffers n k

buffers-All : (n k : ℕ) → 1 ≤ k → All (λ i. 1 ≤ i) (buffers n k)
buffers-All zero k h = tt
buffers-All (suc n) k h = (h, buffers-All n k h)

abbrev object : Bytes
object = 10 ∷ 11 ∷ 12 ∷ 13 ∷ 14 ∷ []

abbrev nonce_prefix : Bytes
nonce_prefix = 1 ∷ 2 ∷ 3 ∷ 4 ∷ []

decrypt_range-encrypt_reader_example :
    (stored : Bytes) × (read_to_end
        (enc_read stand_in nonce_prefix)
        (buffers 22 7)
        (encrypt_reader (record { rest = object; ends = none }))
      ≡ some stored)
    × (read_to_end
          (dec_read stand_in nonce_prefix)
          (buffers 4 2)
          (decrypt_range (record { rest = drop 0 stored; ends = none }) 0 1 3)
        ≡ some (11 ∷ 12 ∷ 13 ∷ []))
unfolding cipher_offset_for_plain
decrypt_range-encrypt_reader_example =
    decrypt_range-encrypt_reader stand_in nonce_prefix stand_in-IsAead (buffers 22 7) (buffers 4 2)
      object 1 3 (buffers-All 22 7 (omega arith)) (buffers-All 4 2 (omega arith))
      (unfold cipher_size in omega arith) (omega arith)
