-- ===== src/Wire.antt =====
-- Little-endian primitives: include/matching_engine/net/binary_codec.hpp.
-- What a `BufferWriter` call appends is its list of bytes; a `BufferReader` is the bytes not yet
-- read, and `none` a read that returns `false`.
pub mod Primitives
pub mod Enums
pub mod Commands
pub mod Events
pub mod RoundTrip
pub mod EventRoundTrip
use order_book_matching_engi.Common.{
  ℕ, zero, suc, ◌+◌, ◌-◌, ◌*◌, ◌/◌, ◌%◌, ◌^◌, ltb, leb, length, take, drop, if◌then◌else◌, Option,
  none, some, List, [], ◌∷◌,
}
use Prim.Native.Nat.{bit_or}
use order_book_matching_engi.Common.Int.{ℤ, pos, negsuc}

abbrev pub Bytes : Type 0
Bytes = List ℕ

-- `for (i …) buf_.push_back(static_cast<std::uint8_t>(v >> (8 * i)))`, with the rounds left.
unfoldable pub push_bytes : ℕ → ℕ → ℕ → Bytes
push_bytes zero i v = []
push_bytes (suc rounds) i v = (v / 2 ^ (8 * i) % 2 ^ 8) ∷ push_bytes rounds (i + 1) v

unfoldable pub write_u8 : ℕ → Bytes
write_u8 v = v ∷ []

unfoldable pub write_u32 : ℕ → Bytes
write_u32 v = push_bytes 4 0 v

unfoldable pub write_u64 : ℕ → Bytes
write_u64 v = push_bytes 8 0 v

-- `static_cast<std::uint64_t>` of an `int64_t`, and back.
abbrev pub u64_of_i64 : ℤ → ℕ
u64_of_i64 (pos n) = n
u64_of_i64 (negsuc n) = 2 ^ 64 - (n + 1)

abbrev pub i64_of_u64 : ℕ → ℤ
i64_of_u64 u = if ltb u (2 ^ 63) then pos u else negsuc (2 ^ 64 - u - 1)

unfoldable pub write_i64 : ℤ → Bytes
write_i64 v = write_u64 (u64_of_i64 v)

abbrev pub Reader : Type 0 → Type 0
Reader A = Bytes → Option (A × Bytes)

-- A failed read ends the function that made it.
infixl 5 ◌>>=◌
unfoldable pub ◌>>=◌ : {A B : Type 0} → Reader A → (A → Reader B) → Reader B
◌>>=◌ r f bytes = elim (r bytes) [ none ↦ none | some (a, rest) ↦ f a rest ]

unfoldable pub return : {A : Type 0} → A → Reader A
return a bytes = some (a, bytes)

abbrev pub fail : {A : Type 0} → Reader A
fail bytes = none

-- `out |= static_cast<std::uintN_t>(data_[pos_ + i]) << (8 * i)` over the bytes, at `width` bits.
unfoldable pub or_bytes : ℕ → ℕ → ℕ → Bytes → ℕ
or_bytes width i out [] = out
or_bytes width i out (b ∷ bs) = or_bytes width (i + 1) (bit_or out (b * 2 ^ (8 * i) % 2 ^ width)) bs

unfoldable pub read_u8 : Reader ℕ
read_u8 [] = none
read_u8 (b ∷ rest) = some (b, rest)

unfoldable pub read_u32 : Reader ℕ
read_u32 bytes =
    if leb 4 (length bytes) then some (or_bytes 32 0 0 (take 4 bytes), drop 4 bytes) else none

unfoldable pub read_u64 : Reader ℕ
read_u64 bytes =
    if leb 8 (length bytes) then some (or_bytes 64 0 0 (take 8 bytes), drop 8 bytes) else none

unfoldable pub read_i64 : Reader ℤ
read_i64 bytes = elim (read_u64 bytes) [ none ↦ none | some (u, rest) ↦ some (i64_of_u64 u, rest) ]
