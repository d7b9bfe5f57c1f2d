-- ===== src/Memory.antt =====
-- Bytes of memory as the code handles them: little-endian integers, `memcpy` into a buffer and reads
-- from one. Both fault (`none`) when they leave the buffer.
pub mod Laws
pub mod Bounds
use stellar_bench.Base.{
  ℕ, zero, suc, ◌+◌, ◌*◌, ◌/◌, ◌%◌, Option, none, some, List, [], ◌∷◌, ◌++◌, leb, if◌then◌else◌,
  length, take, drop,
}

-- The object representation of an integer of `w` bytes.
unfoldable pub le_bytes : ℕ → ℕ → List ℕ
le_bytes zero x = []
le_bytes (suc w) x = x % 256 ∷ le_bytes w (x / 256)

unfoldable pub le_value : List ℕ → ℕ
le_value [] = 0
le_value (b ∷ bs) = b + 256 * le_value bs

-- `memcpy(buf + off, src, n)`, where `src` holds the `n` bytes.
unfoldable pub memcpy : List ℕ → ℕ → List ℕ → Option (List ℕ)
memcpy buf off src =
    if leb (off + length src) (length buf)
    then some (take off buf ++ (src ++ drop (off + length src) buf))
    else none

-- The `n` bytes from `buf + off` on.
unfoldable pub read : List ℕ → ℕ → ℕ → Option (List ℕ)
read buf off n = if leb (off + n) (length buf) then some (take n (drop off buf)) else none

-- An array of 64-bit words as bytes, and back.
unfoldable pub words_bytes : List ℕ → List ℕ
words_bytes [] = []
words_bytes (w ∷ ws) = le_bytes 8 w ++ words_bytes ws

unfoldable pub words_of : ℕ → List ℕ → List ℕ
words_of zero bytes = []
words_of (suc n) bytes = le_value (take 8 bytes) ∷ words_of n (drop 8 bytes)
