-- ===== src/Wire/Primitives.antt =====
-- Each primitive is read back as it was written.
use order_book_matching_engi.Common.{
  ℕ, ◌+◌, ◌*◌, ◌%◌, ◌^◌, ◌<◌, ◌≡◌, refl, ◌∙◌, All, some, [], ◌∷◌, ◌++◌, arith,
}
use order_book_matching_engi.Common.Bits.{bit_or-shifted}
use order_book_matching_engi.Common.Int.{ℤ, pos, negsuc, IsI64}
use order_book_matching_engi.Common.Words.{IsU8, IsU32, IsU64}
use order_book_matching_engi.Wire.{
  Bytes, push_bytes, or_bytes, write_u8, write_u32, write_u64, write_i64, read_u8, read_u32,
  read_u64, read_i64, u64_of_i64, i64_of_u64,
}
use Prim.Native.Nat.{bit_or}
use native.Mathlib.Nat.{mod-eq_of_lt}

-- One more byte above `k` bits, within the width.
or_byte :
    (width k low b : ℕ)
    → low < 2 ^ k
    → b * 2 ^ k < 2 ^ width
    → bit_or low (b * 2 ^ k % 2 ^ width) ≡ low + b * 2 ^ k
or_byte width k low b h fits = rw (mod-eq_of_lt fits) (bit_or-shifted k low b h)

or_bytes_four :
    (a b c d : ℕ)
    → IsU8 a
    → IsU8 b
    → IsU8 c
    → IsU8 d
    → or_bytes 32 0 0 (a ∷ b ∷ c ∷ d ∷ []) ≡ a + b * 2 ^ 8 + c * 2 ^ 16 + d * 2 ^ 24
unfolding or_bytes
or_bytes_four a b c d ha hb hc hd =
    let low : ℕ = 0 + a * 2 ^ 0 in
    rw
      (
        or_byte 32 0 0 a (omega arith) (omega arith),
        or_byte 32 8 low b (omega arith) (omega arith),
        or_byte 32 16 (low + b * 2 ^ 8) c (omega arith) (omega arith),
        or_byte 32 24 (low + b * 2 ^ 8 + c * 2 ^ 16) d (omega arith) (omega arith),
      )
      (omega arith)

or_bytes_eight :
    (a b c d e f g h : ℕ)
    → All IsU8 (a ∷ b ∷ c ∷ d ∷ e ∷ f ∷ g ∷ h ∷ [])
    → or_bytes 64 0 0 (a ∷ b ∷ c ∷ d ∷ e ∷ f ∷ g ∷ h ∷ [])
      ≡ a + b * 2 ^ 8 + c * 2 ^ 16 + d * 2 ^ 24 + e * 2 ^ 32 + f * 2 ^ 40 + g * 2 ^ 48 + h * 2 ^ 56
unfolding or_bytes
or_bytes_eight a b c d e f g h small =
    let low : ℕ = 0 + a * 2 ^ 0 in
    let low4 : ℕ = low + b * 2 ^ 8 + c * 2 ^ 16 + d * 2 ^ 24 in
    rw
      (
        or_byte 64 0 0 a (omega arith) (omega arith),
        or_byte 64 8 low b (omega arith) (omega arith),
        or_byte 64 16 (low + b * 2 ^ 8) c (omega arith) (omega arith),
        or_byte 64 24 (low + b * 2 ^ 8 + c * 2 ^ 16) d (omega arith) (omega arith),
        or_byte 64 32 low4 e (omega arith) (omega arith),
        or_byte 64 40 (low4 + e * 2 ^ 32) f (omega arith) (omega arith),
        or_byte 64 48 (low4 + e * 2 ^ 32 + f * 2 ^ 40) g (omega arith) (omega arith),
        or_byte 64 56 (low4 + e * 2 ^ 32 + f * 2 ^ 40 + g * 2 ^ 48) h (omega arith) (omega arith),
      )
      (omega arith)

-- The bytes of a word make it up.
pub or_bytes-push_bytes_four : (v : ℕ) → IsU32 v → or_bytes 32 0 0 (push_bytes 4 0 v) ≡ v
unfolding push_bytes
or_bytes-push_bytes_four v h =
    or_bytes_four _ _ _ _ (omega arith) (omega arith) (omega arith) (omega arith) ∙ omega arith

or_bytes-push_bytes_eight : (v : ℕ) → IsU64 v → or_bytes 64 0 0 (push_bytes 8 0 v) ≡ v
unfolding push_bytes
or_bytes-push_bytes_eight v h = or_bytes_eight _ _ _ _ _ _ _ _ (omega arith) ∙ omega arith

pub read_u32-write_u32 :
    (v : ℕ) (rest : Bytes) → IsU32 v → read_u32 (write_u32 v ++ rest) ≡ some (v, rest)
unfolding read_u32 write_u32 push_bytes
read_u32-write_u32 v rest h = ground (arith, or_bytes-push_bytes_four v h)

pub read_u64-write_u64 :
    (v : ℕ) (rest : Bytes) → IsU64 v → read_u64 (write_u64 v ++ rest) ≡ some (v, rest)
unfolding read_u64 write_u64 push_bytes
read_u64-write_u64 v rest h = ground (arith, or_bytes-push_bytes_eight v h)

u64_of_i64-IsU64 : (v : ℤ) → IsI64 v → IsU64 (u64_of_i64 v)
u64_of_i64-IsU64 (pos n) h = omega arith
u64_of_i64-IsU64 (negsuc n) h = omega arith

i64_of_u64-u64_of_i64 : (v : ℤ) → IsI64 v → i64_of_u64 (u64_of_i64 v) ≡ v
i64_of_u64-u64_of_i64 v h = ground arith

pub read_i64-write_i64 :
    (v : ℤ) (rest : Bytes) → IsI64 v → read_i64 (write_i64 v ++ rest) ≡ some (v, rest)
unfolding read_i64 write_i64
read_i64-write_i64 v rest h = ground (
  arith,
  read_u64-write_u64 (u64_of_i64 v) rest (u64_of_i64-IsU64 v h),
  i64_of_u64-u64_of_i64 v h,
)

pub read_u8-write_u8 : (v : ℕ) (rest : Bytes) → read_u8 (write_u8 v ++ rest) ≡ some (v, rest)
unfolding read_u8 write_u8
read_u8-write_u8 v rest = refl
