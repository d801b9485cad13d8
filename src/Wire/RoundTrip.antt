-- ===== src/Wire/RoundTrip.antt =====
-- What varint_write of src/common/varint.c writes, varint_read reads back.
use ledger_app_syscoin.Base.{
  ℕ, ◌%◌, ◌^◌, ◌<◌, ◌≤◌, ◌≡◌, refl, some, leb, length, List, [], ◌∷◌, ◌++◌, arith, true, Bool-cases,
  inl, inr, ap, ◌∙◌, leb→le,
}
use ledger_app_syscoin.Wire.{
  read_u16_le, read_u32_le, read_u64_le, write_u16_le, write_u32_le, write_u64_le, varint_size,
  varint_read, varint_write,
}

read_u16_le-write_u16_le :
    (value : ℕ) (x : ℕ) (rest : List ℕ)
    → value < 2 ^ 16
    → read_u16_le (x ∷ write_u16_le value ++ rest) 1 ≡ value
unfolding read_u16_le write_u16_le
read_u16_le-write_u16_le value x rest h = omega arith

read_u32_le-write_u32_le :
    (value : ℕ) (x : ℕ) (rest : List ℕ)
    → value < 2 ^ 32
    → read_u32_le (x ∷ write_u32_le value ++ rest) 1 ≡ value
unfolding read_u32_le write_u32_le
read_u32_le-write_u32_le value x rest h = omega arith

read_u64_le-write_u64_le :
    (value : ℕ) (x : ℕ) (rest : List ℕ)
    → value < 2 ^ 64
    → read_u64_le (x ∷ write_u64_le value ++ rest) 1 ≡ value
unfolding read_u64_le write_u64_le
read_u64_le-write_u64_le value x rest h = omega arith

-- A first byte up to 0xFC is the value.
pub varint_read_single :
    (value : ℕ) (rest : List ℕ)
    → leb value 0xFC ≡ true
    → varint_read (value ∷ rest) ≡ some (value, 1)
unfolding varint_read
varint_read_single value rest h = ground arith

varint_read_u16 :
    (value : ℕ) (rest : List ℕ)
    → value < 2 ^ 16
    → varint_read (0xFD ∷ write_u16_le value ++ rest) ≡ some (value, 3)
unfolding varint_read write_u16_le
varint_read_u16 value rest h = ground (arith, read_u16_le-write_u16_le value 0xFD rest h)

varint_read_u32 :
    (value : ℕ) (rest : List ℕ)
    → value < 2 ^ 32
    → varint_read (0xFE ∷ write_u32_le value ++ rest) ≡ some (value, 5)
unfolding varint_read write_u32_le
varint_read_u32 value rest h = ground (arith, read_u32_le-write_u32_le value 0xFE rest h)

varint_read_u64 :
    (value : ℕ) (rest : List ℕ)
    → value < 2 ^ 64
    → varint_read (0xFF ∷ write_u64_le value ++ rest) ≡ some (value, 9)
unfolding varint_read write_u64_le
varint_read_u64 value rest h = ground (arith, read_u64_le-write_u64_le value 0xFF rest h)

-- Every 64-bit value that is written as a varint, with any bytes behind it, is read back, together
-- with the number of its bytes, which varint_size tells.
pub varint_read-varint_write :
    (value : ℕ) (rest : List ℕ)
    → value < 2 ^ 64
    → (varint_read (varint_write value ++ rest) ≡ some (value, varint_size value))
      × (length (varint_write value) ≡ varint_size value)
unfolding varint_read varint_write varint_size
varint_read-varint_write value rest h = elim (Bool-cases (leb value 0xFC)) [
  | inl one ↦ rw one (varint_read_single value rest one, refl)
  | inr more ↦ elim (Bool-cases (leb value 0xFFFF)) [
    | inl three ↦
        rw (more, three)
          (
            varint_read_u16 (value % 2 ^ 16) rest (omega arith)
                ∙ ap (λ v. some (v, 3)) (omega (arith, leb→le _ _ three)),
            refl,
          )
    | inr more' ↦ elim (Bool-cases (leb value 0xFFFF_FFFF)) [
      | inl five ↦
          rw (more, more', five)
            (
              varint_read_u32 (value % 2 ^ 32) rest (omega arith)
                  ∙ ap (λ v. some (v, 5)) (omega (arith, leb→le _ _ five)),
              refl,
            )
      | inr nine ↦ rw (more, more', nine) (varint_read_u64 value rest h, refl)
    ]
  ]
]

-- A varint that is read lies within the bytes.
pub varint_read-within :
    (bytes : List ℕ) (value n : ℕ)
    → varint_read bytes ≡ some (value, n)
    → (1 ≤ n) × (n ≤ length bytes)
unfolding varint_read
varint_read-within [] value n e = cc
varint_read-within (prefix ∷ rest) value n e = ground arith
