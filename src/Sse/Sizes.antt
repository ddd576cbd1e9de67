-- ===== src/Sse/Sizes.antt =====
-- internal/sse/sse.go, CipherSize, PlainSize and CipherOffsetForPlain: the sizes of what is stored.
use gostore.Base.{ℕ, ◌-◌, ◌+◌, ◌*◌, ◌≡◌, ◌≤◌, arith, leb, if◌then◌else◌}
use gostore.Sse.{chunk_plain, chunk_cipher, tag_len, pos, minus, cipher_size, plain_size}

-- The size of a plaintext is found again from the size of what is stored of it.
pub plain_size-cipher_size : (n : ℕ) → plain_size (cipher_size n) ≡ pos n
unfolding plain_size cipher_size minus
plain_size-cipher_size n = ground arith

-- What is stored of `m` bytes more starts at the end of what is stored of whole chunks.
pub cipher_size-add :
    (k n : ℕ) → cipher_size (k * chunk_plain + n) ≡ k * chunk_cipher + cipher_size n
unfolding cipher_size
cipher_size-add k n = ground arith

-- The first chunk and its tag.
pub cipher_size-chunk :
    (n : ℕ)
    → 1 ≤ n
    → cipher_size n
      ≡ (if leb chunk_plain n then chunk_plain else n) + tag_len + cipher_size (n - chunk_plain)
unfolding cipher_size
cipher_size-chunk n h = ground arith
