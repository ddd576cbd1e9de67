-- ===== src/Sse/Seal.antt =====
-- internal/sse/sse.go, encReader: what a reader of the encrypted stream gets, whatever buffers it uses.
use mathlib.Core.List.{append_assoc}
use gostore.Base.{
  Got, got, eof, read_to_end, ℕ, zero, suc, ◌+◌, ◌-◌, ◌<◌, ◌≤◌, ◌≡◌, refl, subst, sym, ap, ◌∙◌,
  arith, List, [], ◌∷◌, ◌++◌, Bool, true, false, none, some, length, take, drop, ltb, leb,
  if◌then◌else◌, Bytes, take-drop, length-append, Bool-cases, ◌⊎◌, inl, inr, All,
}
use gostore.Sse.Sizes.{cipher_size-chunk}
use gostore.Sse.{
  chunk_plain, tag_len, cipher_size, nonce, Aead, IsAead, EncReader, is_empty, enc_round, enc_fill,
  enc_read, encrypt_reader,
}

pub take_whole : (n : ℕ) (xs : Bytes) → length xs ≤ n → take n xs ≡ xs
take_whole zero [] h = refl
take_whole (suc n) [] h = refl
take_whole zero (x ∷ xs) h = absurd (omega arith)
take_whole (suc n) (x ∷ xs) h = ap (λ t. x ∷ t) (take_whole n xs (omega arith))

pub drop_whole : (n : ℕ) (xs : Bytes) → length xs ≤ n → drop n xs ≡ []
drop_whole zero [] h = refl
drop_whole (suc n) [] h = refl
drop_whole zero (x ∷ xs) h = absurd (omega arith)
drop_whole (suc n) (x ∷ xs) h = drop_whole n xs (omega arith)

-- What is left after a chunk.
pub length-drop_chunk : (n : ℕ) (xs : Bytes) → length (drop n xs) ≡ length xs - n
length-drop_chunk zero xs = omega arith
length-drop_chunk (suc n) [] = omega arith
length-drop_chunk (suc n) (x ∷ xs) = omega (arith, length-drop_chunk n xs)

pub length-take_chunk :
    (n : ℕ) (xs : Bytes) → length (take n xs) ≡ (if leb n (length xs) then n else length xs)
length-take_chunk zero xs = ground arith
length-take_chunk (suc n) [] = ground arith
length-take_chunk (suc n) (x ∷ xs) = ground (arith, length-take_chunk n xs)

pub is_empty_iff : (xs : Bytes) → is_empty xs ≡ true → xs ≡ []
is_empty_iff [] h = refl
is_empty_iff (x ∷ xs) h = cc

module _ (g : Aead) (prefix : Bytes) where
  -- The sealed chunks of a plaintext, numbered from `counter` on, as many as there are or `n`.
  sealed_from : ℕ → ℕ → Bytes → Bytes
  sealed_from zero counter xs = []
  sealed_from (suc n) counter xs = elim (is_empty xs) [
    | true ↦ []
    | false ↦
        g.seal (nonce prefix counter) (take chunk_plain xs)
        ++ sealed_from n (counter + 1) (drop chunk_plain xs)
  ]

  -- The encryption of a plaintext: the concatenation of its sealed chunks.
  pub sealed : ℕ → Bytes → Bytes
  sealed counter xs = sealed_from (length xs) counter xs

  -- Rounds past the last chunk add nothing.
  sealed_from_enough :
      (n m counter : ℕ) (xs : Bytes)
      → length xs ≤ n
      → length xs ≤ m
      → sealed_from n counter xs ≡ sealed_from m counter xs
  unfolding sealed_from
  sealed_from_enough zero zero counter [] h k = refl
  sealed_from_enough zero (suc m) counter [] h k = refl
  sealed_from_enough (suc n) zero counter [] h k = refl
  sealed_from_enough (suc n) (suc m) counter [] h k = refl
  sealed_from_enough zero m counter (x ∷ xs) h k = absurd (omega arith)
  sealed_from_enough (suc n) zero counter (x ∷ xs) h k = absurd (omega arith)
  sealed_from_enough (suc n) (suc m) counter (x ∷ xs) h k =
      ap (λ t. g.seal (nonce prefix counter) (take chunk_plain (x ∷ xs)) ++ t)
        (sealed_from_enough n m (counter + 1) (drop chunk_plain (x ∷ xs))
          (omega (arith, length-drop_chunk chunk_plain (x ∷ xs)))
          (omega (arith, length-drop_chunk chunk_plain (x ∷ xs))))

  pub sealed-nil : (counter : ℕ) → sealed counter [] ≡ []
  unfolding sealed sealed_from
  sealed-nil counter = refl

  pub sealed-cons :
      (counter x : ℕ) (xs : Bytes)
      → sealed counter (x ∷ xs)
        ≡ g.seal (nonce prefix counter) (take chunk_plain (x ∷ xs))
          ++ sealed (counter + 1) (drop chunk_plain (x ∷ xs))
  unfolding sealed sealed_from
  sealed-cons counter x xs =
      ap (λ t. g.seal (nonce prefix counter) (take chunk_plain (x ∷ xs)) ++ t)
        (sealed_from_enough (length xs) _ (counter + 1) (drop chunk_plain (x ∷ xs))
          (omega (arith, length-drop_chunk chunk_plain (x ∷ xs))) (omega arith))

  -- A reader whose source ends with `io.EOF`.
  abbrev reader : Bytes → ℕ → Bytes → Bool → EncReader
  reader rest counter pending at_eof = record {
    r = record { rest = rest; ends = none };
    counter = counter;
    pending = pending;
    at_eof = at_eof;
    fault = none;
  }

  -- What is still to come out of a reader.
  left : EncReader → Bytes
  left e = e.pending ++ sealed e.counter e.r.rest

  -- A reader that has noticed the end of its source has nothing more to seal.
  abbrev IsSound : EncReader → Type 0
  IsSound e = ((e.r.ends ≡ none) × (e.fault ≡ none)) × (e.at_eof ≡ true → e.r.rest ≡ [])

  -- After its loop, a reader has something to hand out, or nothing is left.
  abbrev IsFilled : EncReader → EncReader → Type 0
  IsFilled e e' = IsSound e' × (left e' ≡ left e) × (is_empty e'.pending ≡ true → left e ≡ [])

  enc_fill-done :
      (fuel : ℕ) (e : EncReader) → is_empty e.pending ≡ false → enc_fill g prefix (suc fuel) e ≡ e
  unfolding enc_fill
  enc_fill-done fuel e h = rw h refl

  enc_fill-at_eof :
      (fuel : ℕ) (e : EncReader) → e.at_eof ≡ true → enc_fill g prefix (suc fuel) e ≡ e
  unfolding enc_fill
  enc_fill-at_eof fuel e h = ground (arith, h)

  -- One round.
  enc_fill-enc_round :
      (fuel : ℕ) (rest : Bytes) (counter : ℕ) (e' : EncReader)
      → enc_round g prefix (reader rest counter [] false) ≡ e'
      → e'.fault ≡ none
      → enc_fill g prefix (suc fuel) (reader rest counter [] false) ≡ enc_fill g prefix fuel e'
  unfolding enc_fill
  enc_fill-enc_round fuel rest counter e' hr hf =
      let no_fault = ap (λ (x : EncReader). x.fault) hr ∙ hf in
      rw no_fault (ap (enc_fill g prefix fuel) hr)

  enc_round-nil :
      (counter : ℕ) → enc_round g prefix (reader [] counter [] false) ≡ reader [] counter [] true
  unfolding enc_round
  enc_round-nil counter = refl

  enc_round-cons :
      (x : ℕ) (xs : Bytes) (counter : ℕ)
      → enc_round g prefix (reader (x ∷ xs) counter [] false)
        ≡ reader
            (drop chunk_plain (x ∷ xs))
            (counter + 1)
            (g.seal (nonce prefix counter) (take chunk_plain (x ∷ xs)))
            (ltb (length (x ∷ xs)) chunk_plain)
  unfolding enc_round
  enc_round-cons x xs counter = elim (Bool-cases (ltb (length (x ∷ xs)) chunk_plain)) [
    | inl e ↦ rw e refl
    | inr e ↦ rw e refl
  ]

  pub seal-not_empty : IsAead g → (n x : Bytes) → is_empty (g.seal n x) ≡ false
  seal-not_empty a n x = nonempty (g.seal n x) (a.0 n x)
    where
      nonempty : (t : Bytes) → length t ≡ length x + tag_len → is_empty t ≡ false
      nonempty [] h = absurd (omega arith)
      nonempty (b ∷ bs) h = refl

  enc_fill-IsFilled :
      IsAead g
      → (fuel : ℕ) (rest : Bytes) (counter : ℕ) (pending : Bytes) (at_eof : Bool)
      → IsSound (reader rest counter pending at_eof)
      → IsFilled
          (reader rest counter pending at_eof)
          (enc_fill g prefix (suc (suc fuel)) (reader rest counter pending at_eof))
  unfolding left
  enc_fill-IsFilled a fuel rest counter (b ∷ bs) at_eof h =
      rw (enc_fill-done (suc fuel) (reader rest counter (b ∷ bs) at_eof) refl) (h, refl, λ e. cc)
  enc_fill-IsFilled a fuel rest counter [] true h =
      rw (enc_fill-at_eof (suc fuel) (reader rest counter [] true) refl)
        (h, refl, λ e. ap (sealed counter) (h.1 refl) ∙ sealed-nil counter)
  enc_fill-IsFilled a fuel [] counter [] false h =
      rw
        (
          enc_fill-enc_round (suc fuel) [] counter _ (enc_round-nil counter) refl,
          enc_fill-at_eof fuel (reader [] counter [] true) refl,
        )
        (((refl, refl), λ e. refl), refl, λ e. sealed-nil counter)
  enc_fill-IsFilled a fuel (x ∷ xs) counter [] false h =
      rw
        (
          enc_fill-enc_round (suc fuel) (x ∷ xs) counter _ (enc_round-cons x xs counter) refl,
          enc_fill-done fuel
              (reader (drop chunk_plain (x ∷ xs)) (counter + 1)
                (g.seal (nonce prefix counter) (take chunk_plain (x ∷ xs)))
                (ltb (length (x ∷ xs)) chunk_plain))
              (seal-not_empty a _ _),
        )
        (
          ((refl, refl), λ e. drop_whole chunk_plain (x ∷ xs) (ground arith)),
          sym (sealed-cons counter x xs),
          λ e. absurd (cc (seal-not_empty a (nonce prefix counter) (take chunk_plain (x ∷ xs)))),
        )

  -- A reader whose source ends with `io.EOF`, and that has met no error, is one of the above.
  reader-eta : (e : EncReader) → IsSound e → e ≡ reader e.r.rest e.counter e.pending e.at_eof
  reader-eta e h = λ i. record e { r = record e.r { ends = h.0.0 i }; fault = h.0.1 i }

  abbrev IsStep : EncReader → EncReader × Got → Type 0
  IsStep e (e', x) =
      ((x ≡ eof) × (left e ≡ []))
      ⊎ ((bs : Bytes) × (x ≡ got bs) × (1 ≤ length bs) × (left e ≡ bs ++ left e') × IsSound e')

  pub take_some : (k : ℕ) (bs : Bytes) → 1 ≤ k → is_empty bs ≡ false → 1 ≤ length (take k bs)
  take_some zero bs h e = absurd (omega arith)
  take_some (suc k) [] h e = cc
  take_some (suc k) (b ∷ bs) h e = omega arith

  enc_read-reader :
      IsAead g
      → (rest : Bytes) (counter : ℕ) (pending : Bytes) (at_eof : Bool) (k : ℕ)
      → IsSound (reader rest counter pending at_eof)
      → 1 ≤ k
      → IsStep
          (reader rest counter pending at_eof)
          (enc_read g prefix (reader rest counter pending at_eof) k)
  unfolding enc_read left
  enc_read-reader a rest counter pending at_eof k h hk =
      let e' = enc_fill g prefix (suc (suc (length rest))) (reader rest counter pending at_eof) in
      let (sound, same, nothing) =
        enc_fill-IsFilled a (length rest) rest counter pending at_eof h in
      elim (Bool-cases (is_empty e'.pending)) [
        | inl none_left ↦ rw (none_left, sound.0.1) (inl (refl, nothing none_left))
        | inr some_left ↦ rw some_left (
            inr (
              take k e'.pending,
              refl,
              take_some k e'.pending hk some_left,
              sym same
                  ∙ ap (λ t. t ++ sealed e'.counter e'.r.rest) (sym (take-drop k e'.pending))
                  ∙ append_assoc (take k e'.pending) (drop k e'.pending)
                      (sealed e'.counter e'.r.rest),
              sound,
            ))
      ]

  enc_read-IsStep :
      IsAead g → (e : EncReader) (k : ℕ) → IsSound e → 1 ≤ k → IsStep e (enc_read g prefix e k)
  enc_read-IsStep a e k h hk =
      subst (λ x. IsStep x (enc_read g prefix x k)) (sym (reader-eta e h))
        (enc_read-reader a e.r.rest e.counter e.pending e.at_eof k ((refl, refl), h.1) hk)

  read_to_end-enc_read :
      IsAead g
      → (ks : List ℕ) (e : EncReader) → IsSound e
      → All (λ k. 1 ≤ k) ks
      → length (left e) < length ks
      → read_to_end (enc_read g prefix) ks e ≡ some (left e)
  unfolding read_to_end
  read_to_end-enc_read a [] e h hk few = absurd (omega arith)
  read_to_end-enc_read a (k ∷ ks) e h (hk, hks) few = elim (enc_read-IsStep a e k h hk) [
    | inl (x, nothing) ↦ rw (x, nothing, read_to_end) refl
    | inr (bs, x, some_bytes, split, sound) ↦
        rw
          (
            x,
            split,
            read_to_end-enc_read a ks (enc_read g prefix e k).0 sound hks
                (omega (arith, ap length split, length-append bs (left (enc_read g prefix e k).0))),
            read_to_end,
          )
          refl
  ]

  chunk_length :
      (n taken sealed_length rest_length left_over : ℕ)
      → 1 ≤ n
      → taken ≡ (if leb chunk_plain n then chunk_plain else n)
      → sealed_length ≡ taken + tag_len
      → left_over ≡ n - chunk_plain
      → rest_length ≡ cipher_size left_over
      → sealed_length + rest_length ≡ cipher_size n
  chunk_length n taken sealed_length rest_length left_over h e₁ e₂ e₃ e₄ =
      cc (cipher_size-chunk n h)

  pub sealed_some :
      (counter : ℕ) (xs : Bytes)
      → is_empty xs ≡ false
      → sealed counter xs
        ≡ g.seal (nonce prefix counter) (take chunk_plain xs)
          ++ sealed (counter + 1) (drop chunk_plain xs)
  sealed_some counter [] h = cc
  sealed_some counter (x ∷ xs) h = sealed-cons counter x xs

  length-sealed_from :
      IsAead g
      → (n counter : ℕ) (xs : Bytes) → length xs ≤ n
      → length (sealed_from n counter xs) ≡ cipher_size (length xs)
  unfolding sealed_from
  length-sealed_from a zero counter [] h = unfold cipher_size in refl
  length-sealed_from a (suc n) counter [] h = unfold cipher_size in refl
  length-sealed_from a zero counter (x ∷ xs) h = absurd (omega arith)
  length-sealed_from a (suc n) counter (x ∷ xs) h =
      let chunk = take chunk_plain (x ∷ xs) in
      let others = drop chunk_plain (x ∷ xs) in
      let short = length-drop_chunk chunk_plain (x ∷ xs) in
      length-append (g.seal (nonce prefix counter) chunk) (sealed_from n (counter + 1) others)
      ∙ chunk_length (length (x ∷ xs)) (length chunk) _ _ (length others) (omega arith)
          (length-take_chunk chunk_plain (x ∷ xs)) (a.0 (nonce prefix counter) chunk) short
          (length-sealed_from a n (counter + 1) others (omega (arith, short)))

  -- What is stored of a plaintext has the size that `cipher_size` says.
  pub length-sealed :
      IsAead g → (counter : ℕ) (xs : Bytes) → length (sealed counter xs) ≡ cipher_size (length xs)
  unfolding sealed
  length-sealed a counter xs = length-sealed_from a (length xs) counter xs (omega arith)

  -- Whatever buffers, none of them empty, a caller reads the encrypted stream with, what it gets is
  -- the sealed chunks of the plaintext one after the other, `cipher_size` bytes in all, if it reads more
  -- often than there are bytes to come. The source ends without an error.
  pub read_to_end-encrypt_reader :
      IsAead g
      → (ks : List ℕ) (xs : Bytes) → All (λ k. 1 ≤ k) ks
      → cipher_size (length xs) < length ks
      → (read_to_end (enc_read g prefix) ks (encrypt_reader (record { rest = xs; ends = none }))
          ≡ some (sealed 0 xs))
        × (length (sealed 0 xs) ≡ cipher_size (length xs))
  read_to_end-encrypt_reader a ks xs hk few = (
    read_to_end-enc_read a ks (reader xs 0 [] false) ((refl, refl), λ e. absurd (cc)) hk
          (unfold left in omega (arith, length-sealed a 0 xs))
        ∙ unfold left in refl,
    length-sealed a 0 xs,
  )
