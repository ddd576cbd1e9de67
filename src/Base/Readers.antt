-- ===== src/Base/Readers.antt =====
-- What `Read` of an `io.Reader` returns, and a caller that reads to the end.
use Prim.Native.Nat.{ℕ}
use mathlib.Core.List.{List, [], ◌∷◌, ◌++◌}
use mathlib.Core.Option.{Option, none, some}
use gostore.Base.BigEndian.{Bytes}
use gostore.Base.Strings.{Text}

pub data Got : Type 0 where
  got : Bytes → Got
  eof : Got
  failed : Text → Got

-- A caller that reads to the end, with buffers of the sizes listed: nothing where there is an error, or
-- where the buffers run out first.
unfoldable pub read_to_end {ℓ} : {R : Type ℓ} → (R → ℕ → R × Got) → List ℕ → R → Option Bytes
read_to_end read [] r = none
read_to_end read (k ∷ ks) r =
    let (r', x) = read r k in
    let more = read_to_end read ks r' in
    elim x [
      | got bs ↦ elim more [ none ↦ none | some t ↦ some (bs ++ t) ]
      | eof ↦ some []
      | failed t ↦ none
    ]
