-- ===== src/Base/BigEndian.antt =====
-- Numbers as big-endian bytes, as package encoding/binary writes and reads them, and the reads of a
-- fixed number of bytes.
use Prim.Native.Nat.{ℕ, zero, suc, ◌+◌, ◌*◌, ◌/◌, ◌%◌, ◌^◌, ◌≤◌, ◌<◌}
use native.Mathlib.Nat.{pow-suc}
use native.Mathlib.Omega.{arith}
use mathlib.Core.Path.{◌≡◌, refl, sym, ap, ◌∙◌}
use mathlib.Core.List.{List, [], ◌∷◌, ◌++◌}
use mathlib.Core.Option.{Option, none, some}
use gostore.Base.Tests.{ltb, if◌then◌else◌}
use gostore.Base.Lists.{length, take, drop, length-append, drop-append}

abbrev pub Bytes : Type 0
Bytes = List ℕ

-- The low `k` bytes of `n`, the highest first, in front of `acc`: `PutUint16` and its like.
unfoldable pub put_be : ℕ → ℕ → Bytes → Bytes
put_be zero n acc = acc
put_be (suc k) n acc = put_be k (n / 256) (n % 256 ∷ acc)

abbrev pub be : ℕ → ℕ → Bytes
be k n = put_be k n []

-- `Uint16` and its like, going on from `n`.
unfoldable pub get_be : ℕ → Bytes → ℕ
get_be n [] = n
get_be n (b ∷ bs) = get_be (n * 256 + b) bs

abbrev pub of_be : Bytes → ℕ
of_be = get_be 0

put_be-append : (k n : ℕ) (acc ys : Bytes) → put_be k n acc ++ ys ≡ put_be k n (acc ++ ys)
unfolding put_be
put_be-append zero n acc ys = refl
put_be-append (suc k) n acc ys = put_be-append k (n / 256) (n % 256 ∷ acc) ys

length-put_be : (k n : ℕ) (acc : Bytes) → length (put_be k n acc) ≡ k + length acc
unfolding put_be
length-put_be zero n acc = omega arith
length-put_be (suc k) n acc = omega (arith, length-put_be k (n / 256) (n % 256 ∷ acc))

pub length-be : (k n : ℕ) → length (be k n) ≡ k
length-be k n = omega (arith, length-put_be k n [])

get_be-put_be : (k n : ℕ) (acc : Bytes) → n < 256 ^ k → get_be 0 (put_be k n acc) ≡ get_be n acc
unfolding put_be get_be
get_be-put_be zero n acc h = ap (λ i. get_be i acc) (omega arith)
get_be-put_be (suc k) n acc h =
    get_be-put_be k (n / 256) (n % 256 ∷ acc) (omega (arith, pow-suc 256 k))
    ∙ ap (λ i. get_be i acc) (omega arith)

pub of_be-be : (k n : ℕ) → n < 256 ^ k → of_be (be k n) ≡ n
of_be-be k n h = get_be-put_be k n [] h ∙ unfold get_be in refl

module _ {ℓ} {A : Type ℓ} where
  pub take-append : (xs ys : List A) → take (length xs) (xs ++ ys) ≡ xs
  take-append [] ys = refl
  take-append (x ∷ xs) ys = ap (λ t. x ∷ t) (take-append xs ys)

  pub take_of_length : (n : ℕ) (xs ys : List A) → length xs ≡ n → take n (xs ++ ys) ≡ xs
  take_of_length n xs ys e = ap (λ i. take i (xs ++ ys)) (sym e) ∙ take-append xs ys

  pub drop_of_length : (n : ℕ) (xs ys : List A) → length xs ≡ n → drop n (xs ++ ys) ≡ ys
  drop_of_length n xs ys e = ap (λ i. drop i (xs ++ ys)) (sym e) ∙ drop-append xs ys

  pub length-take : (n : ℕ) (xs : List A) → n ≤ length xs → length (take n xs) ≡ n
  length-take zero xs h = omega arith
  length-take (suc n) [] h = absurd (omega arith)
  length-take (suc n) (x ∷ xs) h = omega (arith, length-take n xs (omega arith))

  pub length-drop : (n : ℕ) (xs : List A) → n ≤ length xs → n + length (drop n xs) ≡ length xs
  length-drop zero xs h = omega arith
  length-drop (suc n) [] h = absurd (omega arith)
  length-drop (suc n) (x ∷ xs) h = omega (arith, length-drop n xs (omega arith))

  pub take-drop : (n : ℕ) (xs : List A) → take n xs ++ drop n xs ≡ xs
  take-drop zero xs = refl
  take-drop (suc n) [] = refl
  take-drop (suc n) (x ∷ xs) = ap (λ t. x ∷ t) (take-drop n xs)

  -- `io.ReadFull` of `n` items: the items and the rest, or nothing where there are fewer.
  unfoldable pub read_full : ℕ → List A → Option (List A × List A)
  read_full n xs = if ltb (length xs) n then none else some (take n xs, drop n xs)

  pub read_full-append :
      (n : ℕ) (xs ys : List A) → length xs ≡ n → read_full n (xs ++ ys) ≡ some (xs, ys)
  unfolding read_full
  read_full-append n xs ys e =
      rw (take_of_length n xs ys e, drop_of_length n xs ys e) (ground (arith, length-append xs ys))

  -- What was read is no longer in the rest.
  pub length-read_full :
      (n : ℕ) (xs front rest : List A)
      → read_full n xs ≡ some (front, rest)
      → (length front ≡ n) × (length front + length rest ≡ length xs)
  unfolding read_full
  length-read_full n xs front rest h =
      (ground (arith, length-take n xs), ground (arith, length-take n xs, length-drop n xs))
