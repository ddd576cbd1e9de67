-- ===== src/Sse/Open.antt =====
-- internal/sse/sse.go, decReader: a range of what was encrypted is read back, whatever buffers are used.
use mathlib.Core.List.{append-nil, append_assoc}
use gostore.Base.{
  Got, got, eof, read_to_end, ℕ, zero, suc, ◌+◌, ◌-◌, ◌<◌, ◌≤◌, ◌≡◌, refl, subst, sym, ap, ◌∙◌,
  arith, List, [], ◌∷◌, ◌++◌, true, false, Option, none, some, length, take, drop, ltb, leb, leb→le,
  lt→ltb, le→leb, ◌==◌, if◌then◌else◌, Bytes, take-drop, length-append, Bool-cases, ◌⊎◌, inl, inr,
  All, take_of_length, drop_of_length,
}
use gostore.Sse.{
  chunk_plain, chunk_cipher, tag_len, nonce, Aead, IsAead, DecReader, is_empty, dec_take, dec_fill,
  dec_read, decrypt_range,
}
use gostore.Sse.Seal.{
  sealed, sealed-nil, sealed_some, take_whole, drop_whole, length-take_chunk, length-drop_chunk,
  take_some, is_empty_iff,
}

drop-append_ge :
    (n : ℕ) (xs ys : Bytes) → length xs ≤ n → drop n (xs ++ ys) ≡ drop (n - length xs) ys
drop-append_ge n [] ys h = ap (λ i. drop i ys) (omega arith)
drop-append_ge zero (x ∷ xs) ys h = absurd (omega arith)
drop-append_ge (suc n) (x ∷ xs) ys h =
    drop-append_ge n xs ys (omega arith) ∙ ap (λ i. drop i ys) (omega arith)

drop-append_le : (n : ℕ) (xs ys : Bytes) → n ≤ length xs → drop n (xs ++ ys) ≡ drop n xs ++ ys
drop-append_le zero xs ys h = refl
drop-append_le (suc n) [] ys h = absurd (omega arith)
drop-append_le (suc n) (x ∷ xs) ys h = drop-append_le n xs ys (omega arith)

take_le : (n : ℕ) (xs : Bytes) → length (take n xs) ≤ n
take_le zero xs = omega arith
take_le (suc n) [] = omega arith
take_le (suc n) (x ∷ xs) = omega (arith, take_le n xs)

take-append_split :
    (n : ℕ) (xs ys : Bytes) → take n (xs ++ ys) ≡ take n xs ++ take (n - length (take n xs)) ys
take-append_split zero xs ys = refl
take-append_split (suc n) [] ys = let e : suc n ≡ suc n - 0 = omega arith in ap (λ i. take i ys) e
take-append_split (suc n) (x ∷ xs) ys =
    ap (λ t. x ∷ t) (take-append_split n xs ys ∙ ap (λ i. take n xs ++ take i ys) (omega arith))

eq_false : (n m : ℕ) → m < n → (n == m) ≡ false
eq_false n m h = ground arith

leb-false : (n m : ℕ) → m < n → leb n m ≡ false
leb-false n m h = ground arith

leb→gt : (n m : ℕ) → leb n m ≡ false → m < n
leb→gt n m h = ground arith

ltb-false : (n m : ℕ) → m ≤ n → ltb n m ≡ false
ltb-false n m h = ground arith

shorter_arith :
    (n taken left_over fuel : ℕ)
    → taken ≡ (if leb chunk_cipher n then chunk_cipher else n)
    → 1 ≤ taken
    → left_over ≡ n - chunk_cipher
    → n < suc fuel
    → left_over < fuel
shorter_arith n taken left_over fuel h k e few = ground arith

full_chunk :
    (n taken stored : ℕ)
    → taken ≡ (if leb chunk_plain n then chunk_plain else n)
    → stored ≡ taken + tag_len
    → leb chunk_plain n ≡ true
    → stored ≡ chunk_cipher
full_chunk n taken stored h k e = ground arith

short_chunk :
    (n taken stored : ℕ)
    → taken ≡ (if leb chunk_plain n then chunk_plain else n)
    → stored ≡ taken + tag_len
    → leb chunk_plain n ≡ false
    → (stored ≤ chunk_cipher) × (n ≤ chunk_plain)
short_chunk n taken stored h k e = ground arith

not_empty : (xs : Bytes) → 1 ≤ length xs → is_empty xs ≡ false
not_empty [] h = absurd (omega arith)
not_empty (x ∷ xs) h = refl

module _ (g : Aead) (prefix : Bytes) where
  -- A reader whose source ends with `io.EOF`, and that has met no error.
  abbrev reader : Bytes → ℕ → ℕ → ℕ → Bytes → DecReader
  reader rest counter skip remain out = record {
    src = record { rest = rest; ends = none };
    counter = counter;
    skip = skip;
    remain = remain;
    out = out;
    fault = none;
  }

  dec_fill-round :
      (fuel : ℕ) (rest chunk pt : Bytes) (counter skip remain : ℕ)
      → 1 ≤ remain
      → take chunk_cipher rest ≡ chunk
      → tag_len < length chunk
      → g.open_with (nonce prefix counter) chunk ≡ some pt
      → dec_fill g prefix (suc fuel) (reader rest counter skip remain [])
        ≡ dec_fill g prefix fuel
            (dec_take (reader (drop chunk_cipher rest) counter skip remain []) pt)
  unfolding dec_fill
  dec_fill-round fuel rest chunk pt counter skip remain hr e long o =
      let more : (remain == 0) ≡ false = eq_false remain 0 hr in
      let some_bytes : is_empty chunk ≡ false = not_empty chunk (omega arith) in
      let whole : ltb (length chunk) (tag_len + 1) ≡ false =
        ltb-false (length chunk) (tag_len + 1) (omega arith) in
      rw (e, more, some_bytes, whole, o) refl

  -- A piece that fills what is taken, or has nothing after it.
  cut :
      (n : ℕ) (xs ys : Bytes)
      → (length xs ≡ n) ⊎ (length xs ≤ n) × (ys ≡ [])
      → (take n (xs ++ ys) ≡ xs) × (drop n (xs ++ ys) ≡ ys)
  cut n xs ys (inl e) = (take_of_length n xs ys e, drop_of_length n xs ys e)
  cut n xs ys (inr (h, e)) = rw (e, append-nil xs) (take_whole n xs h, drop_whole n xs h)

  -- The first chunk of what is stored, and the rest.
  pub first_chunk :
      IsAead g
      → (counter : ℕ) (pt : Bytes) → is_empty pt ≡ false
      → (take chunk_cipher (sealed g prefix counter pt)
          ≡ g.seal (nonce prefix counter) (take chunk_plain pt))
        × (drop chunk_cipher (sealed g prefix counter pt)
            ≡ sealed g prefix (counter + 1) (drop chunk_plain pt))
  first_chunk a counter pt h = rw (sealed_some g prefix counter pt h) (
      cut chunk_cipher (g.seal (nonce prefix counter) (take chunk_plain pt))
        (sealed g prefix (counter + 1) (drop chunk_plain pt))
        (elim (Bool-cases (leb chunk_plain (length pt))) [
          | inl e ↦ inl (full_chunk (length pt) _ _ (length-take_chunk chunk_plain pt) tagged e)
          | inr e ↦
              let (fits, last) =
                short_chunk (length pt) _ _ (length-take_chunk chunk_plain pt) tagged e in
              inr (
                fits,
                ap (sealed g prefix (counter + 1)) (drop_whole chunk_plain pt last)
                    ∙ sealed-nil g prefix (counter + 1),
              )
        ]))
    where
      tagged :
          length (g.seal (nonce prefix counter) (take chunk_plain pt))
          ≡ length (take chunk_plain pt) + tag_len
      tagged = a.0 (nonce prefix counter) (take chunk_plain pt)

  -- What is still to come out of a reader whose source holds the sealed chunks of `pt` from here on.
  left : DecReader → Bytes → Bytes
  left d pt = d.out ++ take (d.remain - length d.out) (drop d.skip pt)

  -- Nothing is skipped any more once there is something to hand out, and no more than what remains is.
  IsSound : DecReader → Bytes → Type 0
  IsSound d pt =
      (d.src.ends ≡ none)
      × (d.fault ≡ none)
      × (d.src.rest ≡ sealed g prefix d.counter pt)
      × (length d.out ≤ d.remain)
      × (is_empty d.out ≡ false → d.skip ≡ 0)

  abbrev IsTaken : DecReader → Bytes → Bytes → Type 0
  IsTaken d wanted ys =
      (length d.out ≤ d.remain) × (is_empty d.out ≡ false → d.skip ≡ 0) × (left d ys ≡ wanted)

  clip : (n : ℕ) (xs : Bytes) → (if ltb n (length xs) then take n xs else xs) ≡ take n xs
  clip n xs = elim (Bool-cases (ltb n (length xs))) [
    | inl e ↦ rw e refl
    | inr e ↦ rw e (sym (take_whole n xs (ground arith)))
  ]

  dec_take-skip :
      (rest xs : Bytes) (counter skip remain : ℕ)
      → 1 ≤ length xs
      → length xs ≤ skip
      → dec_take (reader rest counter skip remain []) xs
        ≡ reader rest (counter + 1) (skip - length xs) remain []
  unfolding dec_take
  dec_take-skip rest xs counter skip remain h k =
      let some_skip : ltb 0 skip ≡ true = lt→ltb 0 skip (omega arith) in
      let all_of_it : leb (length xs) skip ≡ true = le→leb (length xs) skip k in
      let nothing : ltb remain 0 ≡ false = ltb-false remain 0 (omega arith) in
      rw (some_skip, all_of_it, nothing) refl

  dec_take-reach :
      (rest xs : Bytes) (counter skip remain : ℕ)
      → skip < length xs
      → dec_take (reader rest counter skip remain []) xs
        ≡ reader rest (counter + 1) 0 remain (take remain (drop skip xs))
  unfolding dec_take
  dec_take-reach rest xs counter zero remain h =
      ap (λ t. reader rest (counter + 1) 0 remain t) (clip remain xs)
  dec_take-reach rest xs counter (suc s) remain h =
      let some_skip : ltb 0 (suc s) ≡ true = lt→ltb 0 (suc s) (omega arith) in
      let not_all : leb (length xs) (suc s) ≡ false = leb-false (length xs) (suc s) h in
      rw (some_skip, not_all)
        (ap (λ t. reader rest (counter + 1) 0 remain t) (clip remain (drop (suc s) xs)))

  -- Handing a chunk out changes nothing of what is still to come.
  dec_take-left :
      (rest xs ys : Bytes) (counter skip remain : ℕ)
      → 1 ≤ length xs
      → IsTaken
          (dec_take (reader rest counter skip remain []) xs)
          (take remain (drop skip (xs ++ ys)))
          ys
  unfolding left
  dec_take-left rest xs ys counter skip remain h = elim (Bool-cases (leb (length xs) skip)) [
    | inl e ↦
        let far : length xs ≤ skip = leb→le (length xs) skip e in
        let all : remain - 0 ≡ remain = omega arith in
        rw (dec_take-skip rest xs counter skip remain h far) (
          omega arith,
          λ e. cc,
          ap (λ i. take i (drop (skip - length xs) ys)) all
              ∙ ap (take remain) (sym (drop-append_ge skip xs ys far)),
        )
    | inr e ↦
        let near : skip < length xs = leb→gt (length xs) skip e in
        rw (dec_take-reach rest xs counter skip remain near) (
          take_le remain (drop skip xs),
          λ e. refl,
          sym (
              ap (take remain) (drop-append_le skip xs ys (omega arith))
              ∙ take-append_split remain (drop skip xs) ys),
        )
  ]

  -- After its loop, a reader has something to hand out, or nothing is left.
  abbrev IsFilled : DecReader → Bytes → DecReader × Option Got → Type 0
  IsFilled d pt (d', r) =
      ((r ≡ some eof) × (left d pt ≡ []))
      ⊎ ((pt' : Bytes) × (r ≡ none)
          × IsSound d' pt'
          × (is_empty d'.out ≡ false)
          × (left d' pt' ≡ left d pt))

  nothing_to_take : (n s : ℕ) → take n (drop {A = ℕ} s []) ≡ []
  nothing_to_take n zero = take_whole n [] (omega arith)
  nothing_to_take n (suc s) = take_whole n [] (omega arith)

  dec_take-reader :
      (rest pt : Bytes) (counter skip remain : ℕ)
      → dec_take (reader rest counter skip remain []) pt
        ≡ reader rest
            (counter + 1)
            (dec_take (reader rest counter skip remain []) pt).skip
            remain
            (dec_take (reader rest counter skip remain []) pt).out
  unfolding dec_take
  dec_take-reader rest pt counter skip remain = refl

  dec_fill-out :
      (fuel : ℕ) (rest : Bytes) (counter skip remain b : ℕ) (bs : Bytes)
      → dec_fill g prefix (suc fuel) (reader rest counter skip remain (b ∷ bs))
        ≡ (reader rest counter skip remain (b ∷ bs), none)
  unfolding dec_fill
  dec_fill-out fuel rest counter skip remain b bs = refl

  dec_fill_satisfied :
      (fuel : ℕ) (rest : Bytes) (counter skip : ℕ)
      → (dec_fill g prefix (suc fuel) (reader rest counter skip 0 [])).1 ≡ some eof
  unfolding dec_fill
  dec_fill_satisfied fuel rest counter skip = refl

  dec_fill_exhausted :
      (fuel counter skip remain : ℕ)
      → (dec_fill g prefix (suc fuel) (reader [] counter skip remain [])).1 ≡ some eof
  unfolding dec_fill
  dec_fill_exhausted fuel counter skip remain = elim (Bool-cases (remain == 0)) [
    | inl e ↦ rw e refl
    | inr e ↦ rw e refl
  ]

  chunk_nonempty : (pt : Bytes) → is_empty pt ≡ false → 1 ≤ length (take chunk_plain pt)
  chunk_nonempty pt h = take_some g prefix chunk_plain pt (omega arith) h

  -- What is left after a chunk is shorter.
  shorter :
      (rest chunk : Bytes) (n fuel : ℕ)
      → take chunk_cipher rest ≡ chunk
      → 1 ≤ length chunk
      → length rest < suc fuel
      → length (drop chunk_cipher rest) < fuel
  shorter rest chunk n fuel e h few =
      shorter_arith (length rest) _ _ fuel (length-take_chunk chunk_cipher rest ∙ refl)
        (subst (λ t. 1 ≤ length t) (sym e) h) (length-drop_chunk chunk_cipher rest) few

  dec_fill-IsFilled :
      IsAead g
      → (fuel : ℕ) (rest pt : Bytes) (counter skip remain : ℕ) (out : Bytes)
      → IsSound (reader rest counter skip remain out) pt
      → length rest < fuel
      → IsFilled
          (reader rest counter skip remain out)
          pt
          (dec_fill g prefix fuel (reader rest counter skip remain out))
  unfolding left IsSound
  dec_fill-IsFilled a zero rest pt counter skip remain out h few = absurd (omega arith)
  dec_fill-IsFilled a (suc fuel) rest pt counter skip remain (b ∷ bs) h few =
      rw (dec_fill-out fuel rest counter skip remain b bs) (inr (pt, refl, h, refl, refl))
  dec_fill-IsFilled a (suc fuel) rest pt counter skip zero [] h few =
      inl (dec_fill_satisfied fuel rest counter skip, refl)
  dec_fill-IsFilled a (suc fuel) rest pt counter skip (suc m) [] h few =
      elim (Bool-cases (is_empty pt)) [
        | inl e ↦
            let no_plain = is_empty_iff pt e in
            let no_cipher =
              h.2 ∙ ap (sealed g prefix counter) no_plain ∙ sealed-nil g prefix counter in
            inl (
              ap (λ r. (dec_fill g prefix (suc fuel) (reader r counter skip (suc m) [])).1)
                    no_cipher
                  ∙ dec_fill_exhausted fuel counter skip (suc m),
              ap (λ p. take (suc m - 0) (drop skip p)) no_plain ∙ nothing_to_take (suc m - 0) skip,
            )
        | inr e ↦
            let stored = first_chunk a counter pt e in
            let xs = take chunk_plain pt in
            let ys = drop chunk_plain pt in
            let e₁ = ap (take chunk_cipher) h.2 ∙ stored.0 in
            let e₂ = ap (drop chunk_cipher) h.2 ∙ stored.1 in
            let long = chunk_nonempty pt e in
            let sealed_long = a.0 (nonce prefix counter) xs in
            let d₂ = dec_take (reader (drop chunk_cipher rest) counter skip (suc m) []) xs in
            let (fits, unskipped, same) =
              subst (λ d. IsTaken d (take (suc m) (drop skip (xs ++ ys))) ys)
                (dec_take-reader (drop chunk_cipher rest) xs counter skip (suc m))
                (dec_take-left (drop chunk_cipher rest) xs ys counter skip (suc m) long) in
            let path =
              dec_fill-round fuel rest _ xs counter skip (suc m) (omega arith) e₁ (omega arith)
                (a.1 (nonce prefix counter) xs)
              ∙ ap (dec_fill g prefix fuel)
                  (dec_take-reader (drop chunk_cipher rest) xs counter skip (suc m)) in
            let all : suc m ≡ suc m - 0 = omega arith in
            let same_left =
              same
              ∙ ap (λ p. take (suc m) (drop skip p)) (take-drop chunk_plain pt)
              ∙ ap (λ i. take i (drop skip pt)) all in
            subst (IsFilled (reader rest counter skip (suc m) []) pt) (sym path)
              (elim (dec_fill-IsFilled a fuel (drop chunk_cipher rest) ys (counter + 1) d₂.skip
                (suc m) d₂.out (refl, refl, e₂, fits, unskipped)
                (shorter rest _ 0 fuel e₁ (omega arith) few)) [
                  | inl (r, nothing) ↦ inl (r, sym same_left ∙ nothing)
                  | inr (pt', r, sound, some_out, l) ↦ inr (pt', r, sound, some_out, l ∙ same_left)
                ])
      ]

  abbrev IsStep : DecReader → Bytes → DecReader × Got → Type 0
  IsStep d pt (d', x) =
      ((x ≡ eof) × (left d pt ≡ []))
      ⊎ ((pt' : Bytes) × (bs : Bytes) × (x ≡ got bs)
          × (1 ≤ length bs)
          × (left d pt ≡ bs ++ left d' pt')
          × IsSound d' pt')

  -- A reader after its caller has copied `k` bytes out.
  abbrev copied : ℕ → DecReader → DecReader
  copied k d = record d { out = drop k d.out; remain = d.remain - length (take k d.out) }

  length-take-drop : (k : ℕ) (xs : Bytes) → length (take k xs) + length (drop k xs) ≡ length xs
  length-take-drop k xs = sym (length-append (take k xs) (drop k xs)) ∙ ap length (take-drop k xs)

  copied-left :
      (k : ℕ) (d : DecReader) (pt : Bytes) → left d pt ≡ take k d.out ++ left (copied k d) pt
  unfolding left
  copied-left k d pt =
      let e : d.remain - length d.out ≡ d.remain - length (take k d.out) - length (drop k d.out) =
        omega (arith, length-take-drop k d.out) in
      ap (λ t. t ++ take (d.remain - length d.out) (drop d.skip pt)) (sym (take-drop k d.out))
      ∙ append_assoc (take k d.out) (drop k d.out) (take (d.remain - length d.out) (drop d.skip pt))
      ∙ ap (λ i. take k d.out ++ (drop k d.out ++ take i (drop d.skip pt))) e

  copied-IsSound :
      (k : ℕ) (d : DecReader) (pt : Bytes)
      → IsSound d pt
      → is_empty d.out ≡ false
      → IsSound (copied k d) pt
  unfolding IsSound
  copied-IsSound k d pt (h₀, h₁, h₂, h₃, h₄) ne =
      (h₀, h₁, h₂, omega (arith, length-take-drop k d.out), λ e. h₄ ne)

  dec_read-reader :
      IsAead g
      → (rest pt : Bytes) (counter skip remain : ℕ) (out : Bytes) (k : ℕ)
      → IsSound (reader rest counter skip remain out) pt
      → 1 ≤ k
      → IsStep
          (reader rest counter skip remain out)
          pt
          (dec_read g prefix (reader rest counter skip remain out) k)
  unfolding dec_read
  dec_read-reader a rest pt counter skip remain out k h hk =
      let d = reader rest counter skip remain out in
      let d' = (dec_fill g prefix (suc (length rest)) d).0 in
      elim (dec_fill-IsFilled a (suc (length rest)) rest pt counter skip remain out h
        (omega arith)) [
          | inl (r, nothing) ↦ rw r (inl (refl, nothing))
          | inr (pt', r, sound, some_out, same) ↦ rw r (
              inr (
                pt',
                take k d'.out,
                refl,
                take_some g prefix k d'.out hk some_out,
                sym same ∙ copied-left k d' pt',
                copied-IsSound k d' pt' sound some_out,
              ))
        ]

  reader-eta :
      (d : DecReader) (pt : Bytes)
      → IsSound d pt
      → d ≡ reader d.src.rest d.counter d.skip d.remain d.out
  unfolding IsSound
  reader-eta d pt h = λ i. record d { src = record d.src { ends = h.0 i }; fault = h.1 i }

  dec_read-IsStep :
      IsAead g
      → (d : DecReader) (pt : Bytes) (k : ℕ) → IsSound d pt
      → 1 ≤ k
      → IsStep d pt (dec_read g prefix d k)
  dec_read-IsStep a d pt k h hk =
      subst (λ x. IsStep x pt (dec_read g prefix x k)) (sym (reader-eta d pt h))
        (dec_read-reader a d.src.rest pt d.counter d.skip d.remain d.out k
          (subst (λ x. IsSound x pt) (reader-eta d pt h) h) hk)

  read_to_end-dec_read :
      IsAead g
      → (ks : List ℕ) (d : DecReader) (pt : Bytes) → IsSound d pt
      → All (λ k. 1 ≤ k) ks
      → length (left d pt) < length ks
      → read_to_end (dec_read g prefix) ks d ≡ some (left d pt)
  unfolding read_to_end
  read_to_end-dec_read a [] d pt h hk few = absurd (omega arith)
  read_to_end-dec_read a (k ∷ ks) d pt h (hk, hks) few = elim (dec_read-IsStep a d pt k h hk) [
    | inl (x, nothing) ↦ rw (x, nothing, read_to_end) refl
    | inr (pt', bs, x, some_bytes, split, sound) ↦
        let d' = (dec_read g prefix d k).0 in
        rw
          (
            x,
            split,
            read_to_end-dec_read a ks d' pt' sound hks
                (omega (arith, ap length split, length-append bs (left d' pt'))),
            read_to_end,
          )
          refl
  ]

  -- A range of the plaintext whose sealed chunks, from the first that is asked for, are the source.
  pub read_to_end-decrypt_range :
      IsAead g
      → (ks : List ℕ) (rest pt : Bytes) (counter skip n : ℕ) → rest ≡ sealed g prefix counter pt
      → All (λ k. 1 ≤ k) ks
      → n < length ks
      → read_to_end
          (dec_read g prefix)
          ks
          (decrypt_range (record { rest = rest; ends = none }) counter skip n)
        ≡ some (take n (drop skip pt))
  unfolding left IsSound
  read_to_end-decrypt_range a ks rest pt counter skip n h hk few =
      let all : n - 0 ≡ n = omega arith in
      read_to_end-dec_read a ks (reader rest counter skip n []) pt
        (refl, refl, h, omega arith, λ e. absurd (cc)) hk
        (omega (arith, take_le (n - 0) (drop skip pt)))
      ∙ ap (λ i. some (take i (drop skip pt))) all
