-- ===== src/Wire/BigEndian.antt =====
-- The big-endian part of src/common/read.c and src/common/write.c.
use ledger_app_syscoin.Base.{ℕ, ◌+◌, ◌*◌, ◌%◌, ◌^◌, ◌<◌, ◌≡◌, List, [], ◌∷◌, get_or, arith}
use ledger_app_syscoin.Wire.{byte}

unfoldable pub read_u16_be : List ℕ → ℕ → ℕ
read_u16_be ptr offset = get_or ptr offset 0 * 2 ^ 8 + get_or ptr (offset + 1) 0

unfoldable pub read_u32_be : List ℕ → ℕ → ℕ
read_u32_be ptr offset =
    get_or ptr offset 0 * 2 ^ 24
    + get_or ptr (offset + 1) 0 * 2 ^ 16
    + get_or ptr (offset + 2) 0 * 2 ^ 8
    + get_or ptr (offset + 3) 0

unfoldable pub read_u64_be : List ℕ → ℕ → ℕ
read_u64_be ptr offset =
    get_or ptr offset 0 * 2 ^ 56
    + get_or ptr (offset + 1) 0 * 2 ^ 48
    + get_or ptr (offset + 2) 0 * 2 ^ 40
    + get_or ptr (offset + 3) 0 * 2 ^ 32
    + get_or ptr (offset + 4) 0 * 2 ^ 24
    + get_or ptr (offset + 5) 0 * 2 ^ 16
    + get_or ptr (offset + 6) 0 * 2 ^ 8
    + get_or ptr (offset + 7) 0

unfoldable pub write_u16_be : ℕ → List ℕ
write_u16_be value = byte value 8 ∷ byte value 0 ∷ []

unfoldable pub write_u32_be : ℕ → List ℕ
write_u32_be value = byte value 24 ∷ byte value 16 ∷ byte value 8 ∷ byte value 0 ∷ []

unfoldable pub write_u64_be : ℕ → List ℕ
write_u64_be value =
    byte value 56
    ∷ byte value 48
    ∷ byte value 40
    ∷ byte value 32
    ∷ byte value 24
    ∷ byte value 16
    ∷ byte value 8
    ∷ byte value 0
    ∷ []

-- What write_u16_be, write_u32_be and write_u64_be write of a value of 64 bits is read back by
-- read_u16_be, read_u32_be and read_u64_be, cut off at 16 and 32 bits by the first two.
pub read_be-write_be :
    (value : ℕ)
    → value < 2 ^ 64
    → (read_u16_be (write_u16_be value) 0 ≡ value % 2 ^ 16)
      × (read_u32_be (write_u32_be value) 0 ≡ value % 2 ^ 32)
      × (read_u64_be (write_u64_be value) 0 ≡ value)
unfolding read_u16_be read_u32_be read_u64_be write_u16_be write_u32_be write_u64_be
read_be-write_be value h = (omega arith, omega arith, omega arith)
