-- ===== src/Wire/Examples.antt =====
-- Varints (src/common/varint.c) of every length.
use ledger_app_syscoin.Base.{◌%◌, ◌^◌, ℕ, ◌≤◌, ◌≡◌, refl, none, some, [], ◌∷◌, ◌++◌, length, arith}
use ledger_app_syscoin.Wire.BigEndian.{
  read_u16_be, read_u32_be, read_u64_be, write_u16_be, write_u32_be, write_u64_be, read_be-write_be,
}
use ledger_app_syscoin.Wire.{varint_read, varint_write, varint_size}
use ledger_app_syscoin.Wire.RoundTrip.{varint_read-varint_write, varint_read-within}

varint_write_examples :
    (varint_write 252 ≡ 252 ∷ [])
    × (varint_write 253 ≡ 0xFD ∷ 253 ∷ 0 ∷ [])
    × (varint_write 70000 ≡ 0xFE ∷ 0x70 ∷ 0x11 ∷ 1 ∷ 0 ∷ [])
    × (varint_read (0xFD ∷ 1 ∷ []) ≡ none)
unfolding varint_write varint_read
varint_write_examples = (refl, refl, refl, refl)

varint_read-varint_write_example :
    (varint_read (varint_write 70000 ++ 7 ∷ []) ≡ some (70000, varint_size 70000))
    × (length (varint_write 70000) ≡ varint_size 70000)
varint_read-varint_write_example = varint_read-varint_write 70000 (7 ∷ []) (omega arith)

varint_read_513 : varint_read (0xFD ∷ 1 ∷ 2 ∷ []) ≡ some (513, 3)
unfolding varint_read
varint_read_513 = refl

varint_read-within_example : (1 ≤ 3) × (3 ≤ length {A = ℕ} (0xFD ∷ 1 ∷ 2 ∷ []))
varint_read-within_example = varint_read-within (0xFD ∷ 1 ∷ 2 ∷ []) 513 3 varint_read_513

read_be-write_be_example :
    (read_u16_be (write_u16_be 0x1_2345) 0 ≡ 0x1_2345 % 2 ^ 16)
    × (read_u32_be (write_u32_be 0x1_2345) 0 ≡ 0x1_2345 % 2 ^ 32)
    × (read_u64_be (write_u64_be 0x1_2345) 0 ≡ 0x1_2345)
read_be-write_be_example = read_be-write_be 0x1_2345 (omega arith)
