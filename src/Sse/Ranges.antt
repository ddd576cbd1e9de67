-- ===== src/Sse/Ranges.antt =====
-- internal/sse/sse.go: any range of an object that was encrypted is read back.
use gostore.Base.{
  read_to_end, ℕ, zero, suc, ◌+◌, ◌*◌, ◌/◌, ◌%◌, ◌<◌, ◌≤◌, ◌≡◌, refl, sym, ap, ◌∙◌, arith, List, [],
  ◌∷◌, none, some, length, take, drop, Bytes, Bool-cases, inl, inr, All,
}
use gostore.Sse.{
  chunk_plain, chunk_cipher, cipher_size, Aead, IsAead, enc_read, encrypt_reader, is_empty,
  dec_read, decrypt_range, cipher_offset_for_plain,
}
use gostore.Sse.Seal.{sealed, sealed-nil, is_empty_iff, read_to_end-encrypt_reader}
use gostore.Sse.Open.{first_chunk, read_to_end-decrypt_range}

drop-nil : (n : ℕ) → drop {A = ℕ} n [] ≡ []
drop-nil zero = refl
drop-nil (suc n) = refl

drop-drop : (n m : ℕ) (xs : Bytes) → drop (n + m) xs ≡ drop m (drop n xs)
drop-drop zero m xs = ap (λ i. drop i xs) (omega arith)
drop-drop (suc n) m [] = drop-nil (suc n + m) ∙ sym (drop-nil m)
drop-drop (suc n) m (x ∷ xs) =
    let e : suc n + m ≡ suc (n + m) = omega arith in ap (λ i. drop i (x ∷ xs)) e ∙ drop-drop n m xs

module _ (g : Aead) (prefix : Bytes) where
  drop_first :
      IsAead g
      → (counter : ℕ) (xs : Bytes)
      → drop chunk_cipher (sealed g prefix counter xs)
        ≡ sealed g prefix (counter + 1) (drop chunk_plain xs)
  drop_first a counter xs = elim (Bool-cases (is_empty xs)) [
    | inl e ↦
        let no_plain = is_empty_iff xs e in
        ap (λ t. drop chunk_cipher (sealed g prefix counter t)) no_plain
        ∙ ap (drop chunk_cipher) (sealed-nil g prefix counter)
        ∙ drop-nil chunk_cipher
        ∙ sym (sealed-nil g prefix (counter + 1))
        ∙ ap (sealed g prefix (counter + 1)) (sym (drop-nil chunk_plain))
        ∙ ap (λ t. sealed g prefix (counter + 1) (drop chunk_plain t)) (sym no_plain)
    | inr e ↦ (first_chunk g prefix a counter xs e).1
  ]

  -- What is stored, from the chunk with a number on, is what is stored of the plaintext from there on.
  drop-sealed :
      IsAead g
      → (fc counter : ℕ) (xs : Bytes)
      → drop (fc * chunk_cipher) (sealed g prefix counter xs)
        ≡ sealed g prefix (counter + fc) (drop (fc * chunk_plain) xs)
  drop-sealed a zero counter xs =
      let e : counter ≡ counter + 0 = omega arith in ap (λ i. sealed g prefix i xs) e
  drop-sealed a (suc fc) counter xs =
      let e₁ : suc fc * chunk_cipher ≡ chunk_cipher + fc * chunk_cipher = omega arith in
      let e₂ : chunk_plain + fc * chunk_plain ≡ suc fc * chunk_plain = omega arith in
      let e₃ : counter + 1 + fc ≡ counter + suc fc = omega arith in
      ap (λ i. drop i (sealed g prefix counter xs)) e₁
      ∙ drop-drop chunk_cipher (fc * chunk_cipher) (sealed g prefix counter xs)
      ∙ ap (drop (fc * chunk_cipher)) (drop_first a counter xs)
      ∙ drop-sealed a fc (counter + 1) (drop chunk_plain xs)
      ∙ ap (λ i. sealed g prefix i (drop (fc * chunk_plain) (drop chunk_plain xs))) e₃
      ∙ ap (sealed g prefix (counter + suc fc)) (sym (drop-drop chunk_plain (fc * chunk_plain) xs))
      ∙ ap (λ i. sealed g prefix (counter + suc fc) (drop i xs)) e₂

  -- A range of an object that was read out of the encrypting reader, whatever buffers were used, is
  -- read back from what was stored of it, from `cipher_offset_for_plain` on, again whatever buffers are
  -- used: the bytes from `off` on, `n` of them or as many as there are. No buffer is empty, there are
  -- more of them than bytes to come, and no source ends with an error.
  pub decrypt_range-encrypt_reader :
      IsAead g
      → (ks ls : List ℕ) (xs : Bytes) (off n : ℕ) → All (λ k. 1 ≤ k) ks
      → All (λ k. 1 ≤ k) ls
      → cipher_size (length xs) < length ks
      → n < length ls
      → (stored : Bytes) × (read_to_end
            (enc_read g prefix)
            ks
            (encrypt_reader (record { rest = xs; ends = none }))
          ≡ some stored)
        × (read_to_end (dec_read g prefix) ls (
              decrypt_range
                (record { rest = drop (cipher_offset_for_plain off).1 stored; ends = none })
                (cipher_offset_for_plain off).0
                (cipher_offset_for_plain off).2
                n)
            ≡ some (take n (drop off xs)))
  unfolding cipher_offset_for_plain
  decrypt_range-encrypt_reader a ks ls xs off n hk hl few few' = (
    sealed g prefix 0 xs,
    (read_to_end-encrypt_reader g prefix a ks xs hk few).0,
    read_to_end-decrypt_range g prefix a ls _ (drop (off / chunk_plain * chunk_plain) xs)
          (off / chunk_plain) (off % chunk_plain) n from_chunk hl few'
        ∙ ap (λ t. some (take n t)) whole,
  )
    where
      from_chunk :
          drop (off / chunk_plain * chunk_cipher) (sealed g prefix 0 xs)
          ≡ sealed g prefix (off / chunk_plain) (drop (off / chunk_plain * chunk_plain) xs)
      from_chunk =
          let e : 0 + off / chunk_plain ≡ off / chunk_plain = omega arith in
          drop-sealed a (off / chunk_plain) 0 xs
          ∙ ap (λ i. sealed g prefix i (drop (off / chunk_plain * chunk_plain) xs)) e

      whole : drop (off % chunk_plain) (drop (off / chunk_plain * chunk_plain) xs) ≡ drop off xs
      whole =
          let e : off / chunk_plain * chunk_plain + off % chunk_plain ≡ off = omega arith in
          sym (drop-drop (off / chunk_plain * chunk_plain) (off % chunk_plain) xs)
          ∙ ap (λ i. drop i xs) e
