-- ===== src/Wire.antt =====
-- Integers on the wire: src/common/read.c and src/common/write.c, with the big-endian functions in a
-- child, and src/common/varint.c. A byte array is a list of numbers below 256, and an array that is
-- written is the list of the bytes written. The bytes that the source joins by `|` stand in disjoint
-- bits, so that they are added here.
pub mod BigEndian
pub mod RoundTrip
mod Examples
use ledger_app_syscoin.Base.{
  ℕ, ◌+◌, ◌*◌, ◌/◌, ◌%◌, ◌^◌, Option, none, some, ◌>>=◌, ◌>>◌, guard, ◌==◌, leb, length,
  if◌then◌else◌, List, [], ◌∷◌, get_or,
}

unfoldable pub read_u16_le : List ℕ → ℕ → ℕ
read_u16_le ptr offset = get_or ptr offset 0 + get_or ptr (offset + 1) 0 * 2 ^ 8

unfoldable pub read_u32_le : List ℕ → ℕ → ℕ
read_u32_le ptr offset =
    get_or ptr offset 0
    + get_or ptr (offset + 1) 0 * 2 ^ 8
    + get_or ptr (offset + 2) 0 * 2 ^ 16
    + get_or ptr (offset + 3) 0 * 2 ^ 24

unfoldable pub read_u64_le : List ℕ → ℕ → ℕ
read_u64_le ptr offset =
    get_or ptr offset 0
    + get_or ptr (offset + 1) 0 * 2 ^ 8
    + get_or ptr (offset + 2) 0 * 2 ^ 16
    + get_or ptr (offset + 3) 0 * 2 ^ 24
    + get_or ptr (offset + 4) 0 * 2 ^ 32
    + get_or ptr (offset + 5) 0 * 2 ^ 40
    + get_or ptr (offset + 6) 0 * 2 ^ 48
    + get_or ptr (offset + 7) 0 * 2 ^ 56

-- (uint8_t) (value >> shift)
abbrev pub byte : ℕ → ℕ → ℕ
byte value shift = value / 2 ^ shift % 256

unfoldable pub write_u16_le : ℕ → List ℕ
write_u16_le value = byte value 0 ∷ byte value 8 ∷ []

unfoldable pub write_u32_le : ℕ → List ℕ
write_u32_le value = byte value 0 ∷ byte value 8 ∷ byte value 16 ∷ byte value 24 ∷ []

unfoldable pub write_u64_le : ℕ → List ℕ
write_u64_le value =
    byte value 0
    ∷ byte value 8
    ∷ byte value 16
    ∷ byte value 24
    ∷ byte value 32
    ∷ byte value 40
    ∷ byte value 48
    ∷ byte value 56
    ∷ []

unfoldable pub varint_size : ℕ → ℕ
varint_size value =
    if leb value 0xFC
    then 1
    else if leb value 0xFFFF
    then 3
    else if leb value 0xFFFF_FFFF
    then 5
    else 9

-- The value and the number of bytes read; `none` is -1.
unfoldable pub varint_read : List ℕ → Option (ℕ × ℕ)
unfolding read_u16_le read_u32_le read_u64_le
varint_read [] = none
varint_read (prefix ∷ rest) =
    let bytes = prefix ∷ rest in
    if prefix == 0xFD
    then guard (leb 3 (length bytes)) >> some (read_u16_le bytes 1, 3)
    else if prefix == 0xFE
    then guard (leb 5 (length bytes)) >> some (read_u32_le bytes 1, 5)
    else if prefix == 0xFF
    then guard (leb 9 (length bytes)) >> some (read_u64_le bytes 1, 9)
    else some (prefix, 1)

-- The bytes written; their number is what the source returns.
unfoldable pub varint_write : ℕ → List ℕ
unfolding varint_size write_u16_le write_u32_le write_u64_le
varint_write value =
    let size = varint_size value in
    if size == 1
    then value ∷ []
    else if size == 3
    then 0xFD ∷ write_u16_le (value % 2 ^ 16)
    else if size == 5
    then 0xFE ∷ write_u32_le (value % 2 ^ 32)
    else 0xFF ∷ write_u64_le value
