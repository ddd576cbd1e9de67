-- ===== src/Base/Utf8.antt =====
-- Go's unicode/utf8: the texts that are valid UTF-8.
use Prim.Native.Nat.{ℕ, zero, suc, ◌<◌}
use mathlib.Core.Path.{◌≡◌, refl}
use mathlib.Core.Bool.{Bool, true, ◌&&◌}
use mathlib.Core.List.{[], ◌∷◌}
use native.Mathlib.Omega.{arith}
use gostore.Base.Tests.{ltb, leb, if◌then◌else◌, ◌==◌}
use gostore.Base.Lists.{All}
use gostore.Base.Strings.{Text}

-- What is expected next: how many more bytes of a rune, and the bounds of the first of them.
pub record Utf8State : Type 0 where
  pub more : ℕ
  pub low : ℕ
  pub high : ℕ

abbrev pub utf8_start : Utf8State
utf8_start = record { more = 0; low = 128; high = 191 }

abbrev continued : ℕ → ℕ → ℕ → Utf8State
continued n low high = record { more = n; low = low; high = high }

-- The state after the first byte of a rune; `more` is 4 where no rune starts with it.
unfoldable pub utf8_first : ℕ → Utf8State
utf8_first b =
    if ltb b 128
    then utf8_start
    else if ltb b 194
    then continued 4 128 191
    else if ltb b 224
    then continued 1 128 191
    else if b == 224
    then continued 2 160 191
    else if b == 237
    then continued 2 128 159
    else if ltb b 240
    then continued 2 128 191
    else if b == 240
    then continued 3 144 191
    else if ltb b 244
    then continued 3 128 191
    else if b == 244
    then continued 3 128 143
    else continued 4 128 191

unfoldable pub utf8_from : Utf8State → Text → Bool
utf8_from s [] = s.more == 0
utf8_from s (b ∷ t) =
    if s.more == 0
    then utf8_from (utf8_first b) t
    else leb s.low b && leb b s.high && ltb s.more 4 && utf8_from (later s.more) t
  where
    later : ℕ → Utf8State
    later zero = utf8_start
    later (suc n) = record { more = n; low = 128; high = 191 }

-- `utf8.ValidString`
unfoldable pub valid_utf8 : Text → Bool
unfolding utf8_from utf8_first
valid_utf8 = utf8_from utf8_start

abbrev pub IsUtf8 : Text → Type 0
IsUtf8 t = valid_utf8 t ≡ true

ascii_first : (b : ℕ) → b < 128 → utf8_first b ≡ utf8_start
unfolding utf8_first
ascii_first b h = ground (arith, h)

-- ASCII is valid.
pub ascii-IsUtf8 : (t : Text) → All (λ b. b < 128) t → IsUtf8 t
unfolding valid_utf8 utf8_from
ascii-IsUtf8 [] h = refl
ascii-IsUtf8 (b ∷ t) h = rw (ascii_first b h.0) (ascii-IsUtf8 t h.1)
